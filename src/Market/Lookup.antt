-- ===== src/Market/Lookup.antt =====
-- What the lookups on the price tables return.
use agentic_sim_trading.Common.{
  All-of_select, ◌≤◌, ◌<◌, ◌≡◌, refl, ◌⊎◌, inl, inr, true, Option, none, some, List, [], ◌∷◌, arith,
  ltb, Bool-cases, Option-cases, All, select, All-impl, select-All, Result, ok, err,
}
use agentic_sim_trading.Market.Session.{Time}
use agentic_sim_trading.Market.Data.{scan_time, Quote, Tables, earliest, next_trading_day, next_bar}

module _ {F : Type 0} where
  -- no row, or a time that is at most every row's
  abbrev IsLeast : (Quote F → Time) → List (Quote F) → Option Time → Type 0
  IsLeast time rows none = rows ≡ []
  IsLeast time rows (some t) = All (λ q. t ≤ time q) rows

  earliest-IsLeast :
      (time : Quote F → Time) (rows : List (Quote F)) → IsLeast time rows (earliest time rows)
  unfolding earliest
  earliest-IsLeast time [] = refl
  earliest-IsLeast time (q ∷ qs) =
      let ih = earliest-IsLeast time qs in
      elim (Option-cases (earliest time qs)) [
        | inl e ↦ let none_left : qs ≡ [] = rw e at ih in rw (earliest, e, none_left) (omega arith)
        | inr (r, e) ↦
            let least : All (λ x. r ≤ time x) qs = rw e at ih in
            elim (Bool-cases (ltb r (time q))) [
              | inl l ↦ rw (earliest, e, l) (ground arith)
              | inr l ↦
                  rw (earliest, e, l)
                    (
                      omega arith,
                      All-impl {P = λ x. r ≤ time x} {Q = λ x. time q ≤ time x}
                          (λ x h. ground arith) qs least,
                    )
            ]
      ]

  earliest-gt :
      (time : Quote F → Time) (day : Time) (rows : List (Quote F)) {t : Time}
      → All (λ q. ltb day (time q) ≡ true) rows
      → earliest time rows ≡ some t
      → day < t
  unfolding earliest
  earliest-gt time day [] a e = cc
  earliest-gt time day (q ∷ qs) a e = elim (Option-cases (earliest time qs)) [
    | inl n ↦ ground arith
    | inr (r, n) ↦ ground (arith, earliest-gt time day qs a.1 n)
  ]

  -- the next trading day after `day`, or no later row at all
  abbrev pub IsNext : (Quote F → Time) → Time → List (Quote F) → Result Time → Type 0
  IsNext time day rows (err e) = All (λ q. time q ≤ day) rows
  IsNext time day rows (ok t) = (day < t) × All (λ q. (time q ≤ day) ⊎ (t ≤ time q)) rows

  none_later :
      (time : Quote F → Time) (day : Time) (rows : List (Quote F))
      → select (λ q. ltb day (time q)) rows ≡ []
      → All (λ q. time q ≤ day) rows
  none_later time day [] e = tt
  none_later time day (q ∷ qs) e = elim (Bool-cases (ltb day (time q))) [
    | inl l ↦ cc
    | inr l ↦ (ground arith, none_later time day qs (rw l at e))
  ]

  earliest-IsNext :
      (time : Quote F → Time) (day : Time) (rows : List (Quote F))
      → IsNext time day rows (scan_time (earliest time (select (λ q. ltb day (time q)) rows)))
  earliest-IsNext time day rows =
      let later = select (λ q. ltb day (time q)) rows in
      let least = earliest-IsLeast time later in
      elim (Option-cases (earliest time later)) [
        | inl e ↦ rw e (none_later time day rows (rw e at least))
        | inr (t, e) ↦ rw e (
          earliest-gt time day later (select-All (λ q. ltb day (time q)) rows) e,
          All-impl {P = λ q. ltb day (time q) ≡ true → t ≤ time q}
              {Q = λ q. (time q ≤ day) ⊎ (t ≤ time q)} (λ q h. ground arith) rows
              (All-of_select (λ q. ltb day (time q)) (λ q. t ≤ time q) rows (rw e at least)),
        )
      ]

  -- `NextTradingDay` returns a day that is strictly later, with no row of the table in between; it fails
  -- only if the table has no later row. `NextBar` does the same with bars.
  pub next_trading_day_lem :
      (tables : Tables F) (day : Time)
      → IsNext (λ q. q.date) day tables.ohlcv (next_trading_day tables day)
        × IsNext (λ q. q.ts) day tables.ohlcv_bars (next_bar tables day)
  unfolding next_trading_day next_bar
  next_trading_day_lem tables day = (
    earliest-IsNext (λ q. q.date) day tables.ohlcv,
    earliest-IsNext (λ q. q.ts) day tables.ohlcv_bars,
  )
