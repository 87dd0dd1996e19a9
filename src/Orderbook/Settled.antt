-- ===== src/Orderbook/Settled.antt =====
-- Orders that are due on a day, and the statements of the daily matching that settle one of them.
use agentic_sim_trading.Common.{
  ℕ, ◌≡◌, refl, sym, ap, ◌∙◌, ◌≢◌, ◌⊎◌, inl, inr, Bool, true, false, ◌&&◌, List, [], ◌∷◌, arith,
  ◌==◌, Bool-cases, All, select, update, any, order_by,
}
use agentic_sim_trading.Common.Counting.{any-order_by}
use agentic_sim_trading.Market.Session.{Time}
use agentic_sim_trading.Database.{is_pending, OrderRow}
use agentic_sim_trading.Orders.{Orders, pending_with_id}

module _ {F : Type 0} (simulation_id : ℕ) (day : Time) where
  -- the clause of the orders that are matched on the day
  abbrev pub due : OrderRow F → Bool
  due r = r.simulation_id == simulation_id && (is_pending r.status && r.match_on_date == day)

  -- What becomes of a row where the order `id` is settled: it stays, and is not that order, or was not due; or it is due no
  -- longer.
  abbrev pub IsRowSettled : ℕ → OrderRow F → OrderRow F → Type 0
  IsRowSettled id r r' = ((r' ≡ r) × ((r.id ≢ id) ⊎ (due r ≡ false))) ⊎ (due r' ≡ false)

  abbrev pub IsSettled : ℕ → Orders F → Orders F → Type 0
  IsSettled id [] [] = Unit
  IsSettled id [] (r' ∷ u) = ⊥
  IsSettled id (r ∷ t) [] = ⊥
  IsSettled id (r ∷ t) (r' ∷ u) = IsRowSettled id r r' × IsSettled id t u

  -- Every order that is due is among those that are still to be matched.
  abbrev pub IsWaiting : List (OrderRow F) → Orders F → Type 0
  IsWaiting os t = All (λ r. due r ≡ true → any (λ o. o.id == r.id) os ≡ true) t

  other_row :
      (id : ℕ) (r : OrderRow F) → pending_with_id id r ≡ false → (r.id ≢ id) ⊎ (due r ≡ false)
  other_row id r e = elim (Bool-cases (r.id == id)) [
    | inl q ↦ inr (ground arith)
    | inr q ↦ inl (ground arith)
  ]

  -- an UPDATE of the pending order `id` after which it is not due
  pub update-IsSettled :
      (id : ℕ) (f : OrderRow F → OrderRow F)
      → ((r : OrderRow F) → due (f r) ≡ false)
      → (t : Orders F) → IsSettled id t (update (pending_with_id id) f t)
  update-IsSettled id f gone [] = tt
  update-IsSettled id f gone (r ∷ t) = elim (Bool-cases (pending_with_id id r)) [
    | inl e ↦ (rw e (inr (gone r)), update-IsSettled id f gone t)
    | inr e ↦ (rw e (inl (refl, other_row id r e)), update-IsSettled id f gone t)
  ]

  waits :
      (o : OrderRow F) (os : List (OrderRow F)) (r r' : OrderRow F)
      → IsRowSettled o.id r r'
      → (due r ≡ true → any (λ x. x.id == r.id) (o ∷ os) ≡ true)
      → due r' ≡ true
      → any (λ x. x.id == r'.id) os ≡ true
  waits o os r r' (inl (same, inl ne)) h d =
      let before : any (λ x. x.id == r.id) (o ∷ os) ≡ true = h (ap due (sym same) ∙ d) in
      ap (λ (y : OrderRow F). any (λ x. x.id == y.id) os) same ∙ ground arith
  waits o os r r' (inl (same, inr not_due)) h d =
      let never : false ≡ true = sym not_due ∙ ap due (sym same) ∙ d in cc
  waits o os r r' (inr gone) h d = let never : false ≡ true = sym gone ∙ d in cc

  pub IsWaiting-next :
      (o : OrderRow F) (os : List (OrderRow F)) (t u : Orders F)
      → IsSettled o.id t u
      → IsWaiting (o ∷ os) t
      → IsWaiting os u
  IsWaiting-next o os [] [] s h = tt
  IsWaiting-next o os [] (r' ∷ u) s h = absurd s
  IsWaiting-next o os (r ∷ t) [] s h = absurd s
  IsWaiting-next o os (r ∷ t) (r' ∷ u) s h =
      (waits o os r r' s.0 h.0, IsWaiting-next o os t u s.1 h.1)

  within :
      (t os : Orders F)
      → ((p : OrderRow F → Bool) → any p (select due t) ≡ true → any p os ≡ true)
      → IsWaiting os t
  within [] os h = tt
  within (r ∷ t) os h = (
    λ d. h (λ x. x.id == r.id) (rw d (ground arith)),
    within t os
        (λ p e. h p (elim (Bool-cases (due r)) [ inl d ↦ rw d (ground arith) | inr d ↦ rw d e ])),
  )

  -- the orders that a query for the day gives are all of those
  pub IsWaiting-select :
      (before : OrderRow F → OrderRow F → Bool) (t : Orders F)
      → IsWaiting (order_by before (select due t)) t
  IsWaiting-select before t =
      within t (order_by before (select due t)) (λ p e. any-order_by p before (select due t) ∙ e)

  pub nothing_due : (t : Orders F) → IsWaiting [] t → select due t ≡ []
  nothing_due [] h = refl
  nothing_due (r ∷ t) h = elim (Bool-cases (due r)) [
    | inl e ↦ let never : false ≡ true = h.0 e in cc
    | inr e ↦ rw e (nothing_due t h.1)
  ]
