-- ===== src/Market/Latest.antt =====
-- The last of the rows of a query, as market-simulator/internal/market/data.go reads it.
use agentic_sim_trading.Common.{
  ◌≤◌, ◌<◌, ◌≡◌, inl, inr, Bool, false, none, some, List, [], ◌∷◌, arith, ltb, if◌then◌else◌,
  Bool-cases, Option-cases, All, find?, All-impl,
}
use mathlib.Core.List.{Mem, mem-cons_self, mem-cons_of_mem}
use agentic_sim_trading.Market.Session.{Time}
use agentic_sim_trading.Market.Data.{Quote, latest}

module _ {F : Type 0} where
  pub latest-All :
      (P : Quote F → Type 0) (time : Quote F → Time) (rows : List (Quote F)) {q : Quote F}
      → All P rows
      → latest time rows ≡ some q
      → P q
  unfolding latest
  latest-All P time [] h e = cc
  latest-All P time (r ∷ rs) {q} h e = elim (Option-cases (latest time rs)) [
    | inl n ↦ let same : some r ≡ some q = rw (latest, n) at e in ground (arith, h.0)
    | inr (u, n) ↦
        let later = latest-All P time rs h.1 n in
        let choice : (if ltb (time r) (time u) then some u else some r) ≡ some q =
          rw (latest, n) at e in
        ground (arith, h.0, later)
  ]

  pub latest-none :
      (time : Quote F → Time) (rows : List (Quote F)) (t : Time)
      → latest time rows ≡ none
      → All (λ r. time r < t) rows
  unfolding latest
  latest-none time [] t e = tt
  latest-none time (r ∷ rs) t e = elim (Option-cases (latest time rs)) [
    | inl n ↦ let never : some r ≡ none = rw (latest, n) at e in cc
    | inr (u, n) ↦
        let never : (if ltb (time r) (time u) then some u else some r) ≡ none =
          rw (latest, n) at e in
        absurd (ground arith)
  ]

  pub latest-max :
      (time : Quote F → Time) (rows : List (Quote F)) {q : Quote F}
      → latest time rows ≡ some q
      → All (λ r. time r ≤ time q) rows
  unfolding latest
  latest-max time [] e = tt
  latest-max time (r ∷ rs) {q} e = elim (Option-cases (latest time rs)) [
    | inl n ↦
        let same : some r ≡ some q = rw (latest, n) at e in
        (ground arith, All-impl (λ x k. omega (arith, k)) rs (latest-none time rs (time q) n))
    | inr (u, n) ↦
        let choice : (if ltb (time r) (time u) then some u else some r) ≡ some q =
          rw (latest, n) at e in
        let above : time u ≤ time q = ground arith in
        (ground arith, All-impl (λ x k. omega (arith, above, k)) rs (latest-max time rs n))
  ]

  pub find?-All :
      (P : Quote F → Type 0) (p : Quote F → Bool) (rows : List (Quote F)) {q : Quote F}
      → All P rows
      → find? p rows ≡ some q
      → P q
  find?-All P p [] h e = cc
  find?-All P p (r ∷ rs) {q} h e = elim (Bool-cases (p r)) [
    | inl t ↦ let same : some r ≡ some q = rw t at e in ground (arith, h.0)
    | inr t ↦ find?-All P p rs h.1 (rw t at e)
  ]

  pub find?-none :
      (p : Quote F → Bool) (rows : List (Quote F))
      → find? p rows ≡ none
      → All (λ r. p r ≡ false) rows
  find?-none p [] e = tt
  find?-none p (r ∷ rs) e = elim (Bool-cases (p r)) [
    | inl t ↦ let never : some r ≡ none = rw t at e in cc
    | inr t ↦ (t, find?-none p rs (rw t at e))
  ]

  pub All-Mem : (rows : List (Quote F)) → All (λ q. Mem q rows) rows
  All-Mem [] = tt
  All-Mem (r ∷ rs) = (mem-cons_self, All-impl (λ q m. mem-cons_of_mem r m) rs (All-Mem rs))
