-- ===== src/Market/Newest.antt =====
-- The newest rows of a table, as market-simulator/internal/market/data.go reads them.
use agentic_sim_trading.Common.{
  ℕ, zero, suc, ◌≤◌, ◌<◌, min, ◌≡◌, refl, ap, ◌∙◌, inl, inr, Bool, true, List, [], ◌∷◌, ◌++◌, arith,
  leb, Bool-cases, take, All, select, insert_by, order_by, All-impl, select-All,
}
use agentic_sim_trading.Common.Counting.{count, count-order_by, All-order_by, All-insert_by}
use agentic_sim_trading.Market.Session.{Time, truncate_day}
use agentic_sim_trading.Market.Data.{Quote}
use agentic_sim_trading.Market.Bars.{reversed, newest}

-- a date, as the columns of type DATE hold it
abbrev pub IsMidnight : Time → Type 0
IsMidnight t = truncate_day t ≡ t

module _ {F : Type 0} where
  -- two clauses that agree on every row
  pub select-congr :
      (p p' : Quote F → Bool) (rows : List (Quote F))
      → All (λ q. p q ≡ p' q) rows
      → select p rows ≡ select p' rows
  select-congr p p' [] h = refl
  select-congr p p' (q ∷ qs) h = rw (h.0, select-congr p p' qs h.1)

module _ {F : Type 0} (time : Quote F → Time) where
  abbrev pub is_from : Time → Quote F → Bool
  is_from t q = leb t (time q)

  -- oldest first
  abbrev pub IsUp : List (Quote F) → Type 0
  IsUp [] = Unit
  IsUp (q ∷ qs) = All (λ r. time q ≤ time r) qs × IsUp qs

  abbrev IsDown : List (Quote F) → Type 0
  IsDown [] = Unit
  IsDown (q ∷ qs) = All (λ r. time r ≤ time q) qs × IsDown qs

  pub All-take : (P : Quote F → Type 0) (n : ℕ) (qs : List (Quote F)) → All P qs → All P (take n qs)
  All-take P zero qs h = tt
  All-take P (suc n) [] h = tt
  All-take P (suc n) (q ∷ qs) h = (h.0, All-take P n qs h.1)

  All-snoc :
      (P : Quote F → Type 0) (qs : List (Quote F)) (q : Quote F)
      → All P qs
      → P q
      → All P (qs ++ (q ∷ []))
  All-snoc P [] q h p = (p, tt)
  All-snoc P (r ∷ qs) q h p = (h.0, All-snoc P qs q h.1 p)

  All-reversed : (P : Quote F → Type 0) (qs : List (Quote F)) → All P qs → All P (reversed qs)
  All-reversed P [] h = tt
  All-reversed P (q ∷ qs) h = All-snoc P (reversed qs) q (All-reversed P qs h.1) h.0

  pub newest-All :
      (P : Quote F → Type 0) (n : ℕ) (rows : List (Quote F))
      → All P rows
      → All P (newest time n rows)
  newest-All P n rows h =
      let sorted = order_by (λ q r. leb (time r) (time q)) rows in
      All-reversed P (take n sorted)
        (All-take P n sorted (All-order_by P (λ q r. leb (time r) (time q)) rows h))

  IsDown-insert :
      (q : Quote F) (qs : List (Quote F))
      → IsDown qs
      → IsDown (insert_by (λ a b. leb (time b) (time a)) q qs)
  IsDown-insert q [] h = (tt, tt)
  IsDown-insert q (r ∷ qs) h = elim (Bool-cases (leb (time r) (time q))) [
    | inl e ↦
        let first : time r ≤ time q = ground arith in
        rw e ((first, All-impl (λ x k. omega (arith, first, k)) qs h.0), h)
    | inr e ↦ rw e (
      All-insert_by (λ x. time x ≤ time r) (λ a b. leb (time b) (time a)) q qs (ground arith) h.0,
      IsDown-insert q qs h.1,
    )
  ]

  IsDown-sorted : (qs : List (Quote F)) → IsDown (order_by (λ a b. leb (time b) (time a)) qs)
  IsDown-sorted [] = tt
  IsDown-sorted (q ∷ qs) =
      IsDown-insert q (order_by (λ a b. leb (time b) (time a)) qs) (IsDown-sorted qs)

  IsDown-take : (n : ℕ) (qs : List (Quote F)) → IsDown qs → IsDown (take n qs)
  IsDown-take zero qs h = tt
  IsDown-take (suc n) [] h = tt
  IsDown-take (suc n) (q ∷ qs) h = (All-take (λ r. time r ≤ time q) n qs h.0, IsDown-take n qs h.1)

  IsUp-snoc :
      (qs : List (Quote F)) (q : Quote F)
      → IsUp qs
      → All (λ r. time r ≤ time q) qs
      → IsUp (qs ++ (q ∷ []))
  IsUp-snoc [] q h k = (tt, tt)
  IsUp-snoc (r ∷ qs) q h k = (All-snoc (λ x. time r ≤ time x) qs q h.0 k.0, IsUp-snoc qs q h.1 k.1)

  IsUp-reversed : (qs : List (Quote F)) → IsDown qs → IsUp (reversed qs)
  IsUp-reversed [] h = tt
  IsUp-reversed (q ∷ qs) h =
      IsUp-snoc (reversed qs) q (IsUp-reversed qs h.1) (All-reversed (λ r. time r ≤ time q) qs h.0)

  pub newest-IsUp : (n : ℕ) (rows : List (Quote F)) → IsUp (newest time n rows)
  newest-IsUp n rows =
      let sorted = order_by (λ q r. leb (time r) (time q)) rows in
      IsUp-reversed (take n sorted) (IsDown-take n sorted (IsDown-sorted rows))

  count-snoc :
      (p : Quote F → Bool) (qs : List (Quote F)) (q : Quote F)
      → count p (qs ++ (q ∷ [])) ≡ count p (q ∷ qs)
  count-snoc p [] q = refl
  count-snoc p (r ∷ qs) q = ground (arith, count-snoc p qs q)

  count-reversed : (p : Quote F → Bool) (qs : List (Quote F)) → count p (reversed qs) ≡ count p qs
  count-reversed p [] = refl
  count-reversed p (q ∷ qs) = count-snoc p (reversed qs) q ∙ ground (arith, count-reversed p qs)

  none_from : (t : Time) (qs : List (Quote F)) → All (λ r. time r < t) qs → count (is_from t) qs ≡ 0
  none_from t [] h = refl
  none_from t (q ∷ qs) h = ground (arith, none_from t qs h.1, h.0)

  count-take :
      (t : Time) (n : ℕ) (qs : List (Quote F))
      → IsDown qs
      → count (is_from t) (take n qs) ≡ min n (count (is_from t) qs)
  count-take t zero qs h = omega arith
  count-take t (suc n) [] h = omega arith
  count-take t (suc n) (q ∷ qs) h = elim (Bool-cases (is_from t q)) [
    | inl e ↦ rw e (omega (arith, count-take t n qs h.1))
    | inr e ↦
        let older : All (λ r. time r < t) qs = All-impl (λ r k. ground arith) qs h.0 in
        rw
          (e, none_from t qs older, none_from t (take n qs) (All-take (λ r. time r < t) n qs older))
          (omega arith)
  ]

  -- From any time on, as many rows are shown as there are, up to the limit.
  pub count-newest :
      (t : Time) (n : ℕ) (rows : List (Quote F))
      → count (is_from t) (newest time n rows) ≡ min n (count (is_from t) rows)
  count-newest t n rows =
      let sorted = order_by (λ q r. leb (time r) (time q)) rows in
      count-reversed (is_from t) (take n sorted)
      ∙ count-take t n sorted (IsDown-sorted rows)
      ∙ ap (min n) (count-order_by (is_from t) (λ q r. leb (time r) (time q)) rows)

  -- The newest `n` of the rows that a clause selects: all meet it, oldest first, and from any time on they are as many as
  -- there are, up to `n`.
  abbrev pub IsNewest :
      (visible : Quote F → Bool) → ℕ → (rows : List (Quote F)) → List (Quote F) → Type 0
  IsNewest visible n rows shown =
      All (λ q. visible q ≡ true) shown
      × IsUp shown
      × ((t : Time) → count (is_from t) shown ≡ min n (count (is_from t) (select visible rows)))

  pub newest-IsNewest :
      (visible : Quote F → Bool) (n : ℕ) (rows : List (Quote F))
      → IsNewest visible n rows (newest time n (select visible rows))
  newest-IsNewest visible n rows =
      let seen = select visible rows in
      (
        newest-All (λ q. visible q ≡ true) n seen (select-All visible rows),
        newest-IsUp n seen,
        λ t. count-newest t n seen,
      )
