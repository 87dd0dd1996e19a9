-- ===== src/Orders/Lifecycle.antt =====
-- The life of an order: what the statements of store.go may do to the table, in any order.
use agentic_sim_trading.Common.{
  ℕ, ◌≡◌, refl, ◌∙◌, inl, inr, Bool, true, Option, [], ◌∷◌, ◌++◌, arith, Bool-cases, update,
}
use agentic_sim_trading.Common.Text.{Text}
use agentic_sim_trading.Market.Session.{Time}
use agentic_sim_trading.Float.{Float64}
use agentic_sim_trading.Fees.{Breakdown}
use agentic_sim_trading.Orderbook.Rules.{Reason}
use agentic_sim_trading.Database.{is_pending, OrderRow}
use agentic_sim_trading.Orders.{
  Orders, insert_pending, mark_rejected, mark_filled, apply_slice_fill, update_match_on_date,
  update_match_on_ts, mark_canceled, cancel_pending, pending_with_id, pending_in_simulation,
  as_rejected, as_canceled, on_date, on_ts, as_filled, as_sliced,
}

module _ {F : Type 0} ⦃fl : Float64 F⦄ where
  -- One statement that writes the table.
  pub data Step (t : Orders F) : Orders F → Type 0 where
    insert :
        (id created_at simulation_id agent_id : ℕ) (symbol order_type side : Text) (quantity : ℕ)
        (price : Option F) (match_on_date : Time) (match_on_ts : Option Time)
        → Step t (
            insert_pending id created_at simulation_id agent_id symbol order_type side quantity
              price match_on_date match_on_ts t)
    reject : (id : ℕ) (reason : Reason) → Step t (mark_rejected id reason t)
    fill :
        (id : ℕ) (price : F) (day : Time) (br : Breakdown F) (value : F)
        → Step t (mark_filled id price day br value t)
    slice :
        (id qty left : ℕ) (price : F) (day ts : Time) (next : Option Time) (br : Breakdown F)
        (value : F)
        → Step t (apply_slice_fill id qty left price day ts next br value t)
    move_date : (id : ℕ) (next : Time) → Step t (update_match_on_date id next t)
    move_ts : (id : ℕ) (next date : Time) → Step t (update_match_on_ts id next date t)
    cancel : (id : ℕ) → Step t (mark_canceled id t).1
    cancel_in : (simulation_id id : ℕ) → Step t (cancel_pending simulation_id id t).1

  pub data Reach (t : Orders F) : Orders F → Type 0 where
    here : Reach t t
    next : {u v : Orders F} → Reach t u → Step u v → Reach t v

  -- What one row becomes: a row that is not pending stays as it is, and in any case the order itself (who
  -- placed it, on what, which side, how much, at what price, when) stays.
  abbrev pub IsSameOrder : OrderRow F → OrderRow F → Type 0
  IsSameOrder r r' =
      (r'.id ≡ r.id)
      × (r'.simulation_id ≡ r.simulation_id)
      × (r'.agent_id ≡ r.agent_id)
      × (r'.symbol ≡ r.symbol)
      × (r'.order_type ≡ r.order_type)
      × (r'.side ≡ r.side)
      × (r'.quantity ≡ r.quantity)
      × (r'.price ≡ r.price)
      × (r'.created_at ≡ r.created_at)

  pub data Evolves (r : OrderRow F) (r' : OrderRow F) : Type 0 where
    same : r' ≡ r → Evolves r r'
    changed : is_pending r.status ≡ true → IsSameOrder r r' → Evolves r r'

  -- row by row; rows may be added at the end
  abbrev pub Extends : Orders F → Orders F → Type 0
  Extends [] u = Unit
  Extends (r ∷ t) [] = ⊥
  Extends (r ∷ t) (r' ∷ u) = Evolves r r' × Extends t u

  Evolves-refl : (r : OrderRow F) → Evolves r r
  Evolves-refl r = same refl

  Evolves-trans : {a b c : OrderRow F} → Evolves a b → Evolves b c → Evolves a c
  Evolves-trans (same e) (same f) = same (f ∙ e)
  Evolves-trans (same e) (changed p k) = changed (rw e at p) (rw e at k)
  Evolves-trans (changed p k) (same f) = changed p (rw f k)
  Evolves-trans (changed p k) (changed q l) = changed p (ground arith)

  Extends-refl : (t : Orders F) → Extends t t
  Extends-refl [] = tt
  Extends-refl (r ∷ t) = (same refl, Extends-refl t)

  Extends-trans : (a b c : Orders F) → Extends a b → Extends b c → Extends a c
  Extends-trans [] b c h k = tt
  Extends-trans (r ∷ a) [] c h k = absurd h
  Extends-trans (r ∷ a) (s ∷ b) [] h k = absurd k
  Extends-trans (r ∷ a) (s ∷ b) (u ∷ c) (h, hs) (k, ks) =
      (Evolves-trans h k, Extends-trans a b c hs ks)

  Extends-append : (t u : Orders F) → Extends t (t ++ u)
  Extends-append [] u = tt
  Extends-append (r ∷ t) u = (same refl, Extends-append t u)

  Extends-update :
      (p : OrderRow F → Bool) (f : OrderRow F → OrderRow F)
      → ((r : OrderRow F) → p r ≡ true → is_pending r.status ≡ true)
      → ((r : OrderRow F) → IsSameOrder r (f r))
      → (t : Orders F) → Extends t (update p f t)
  Extends-update p f guard keep [] = tt
  Extends-update p f guard keep (r ∷ t) = elim (Bool-cases (p r)) [
    | inl e ↦ (rw e (changed (guard r e) (keep r)), Extends-update p f guard keep t)
    | inr e ↦ (rw e (same refl), Extends-update p f guard keep t)
  ]

  only_pending :
      (id : ℕ) (r : OrderRow F) → pending_with_id id r ≡ true → is_pending r.status ≡ true
  only_pending id r e = ground arith

  only_pending_in :
      (sim id : ℕ) (r : OrderRow F)
      → pending_in_simulation sim id r ≡ true
      → is_pending r.status ≡ true
  only_pending_in sim id r e = ground arith

  same_order : (r : OrderRow F) → IsSameOrder r r
  same_order r = (refl, refl, refl, refl, refl, refl, refl, refl, refl)

  Step-Extends : {t u : Orders F} → Step t u → Extends t u
  unfolding insert_pending mark_rejected mark_filled apply_slice_fill update_match_on_date
      update_match_on_ts mark_canceled cancel_pending
  Step-Extends {t}
        (insert id created_at simulation_id agent_id symbol order_type side quantity price date
          ts) =
      Extends-append t _
  Step-Extends {t} (reject id reason) =
      Extends-update (pending_with_id id) (as_rejected reason) (only_pending id) same_order t
  Step-Extends {t} (fill id price day br value) =
      Extends-update (pending_with_id id) (as_filled price day br value) (only_pending id)
        same_order t
  Step-Extends {t} (slice id qty left price day ts upcoming br value) =
      Extends-update (pending_with_id id) (as_sliced qty left price day ts upcoming br value)
        (only_pending id) same_order t
  Step-Extends {t} (move_date id upcoming) =
      Extends-update (pending_with_id id) (on_date upcoming) (only_pending id) same_order t
  Step-Extends {t} (move_ts id upcoming date) =
      Extends-update (pending_with_id id) (on_ts upcoming date) (only_pending id) same_order t
  Step-Extends {t} (cancel id) =
      Extends-update (pending_with_id id) as_canceled (only_pending id) same_order t
  Step-Extends {t} (cancel_in sim id) =
      Extends-update (pending_in_simulation sim id) as_canceled (only_pending_in sim id) same_order
        t

  -- Whatever statements run, in whatever order: a row of the table stays at its place, an order that
  -- is filled, rejected or canceled never changes again, and a pending order keeps its owner, symbol,
  -- type, side, quantity, price and time of receipt.
  pub Reach-Extends : {t u : Orders F} → Reach t u → Extends t u
  Reach-Extends {t} here = Extends-refl t
  Reach-Extends {t} {u} (next {u = s} r st) =
      Extends-trans t s u (Reach-Extends r) (Step-Extends st)
