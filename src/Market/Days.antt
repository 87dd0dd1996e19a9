-- ===== src/Market/Days.antt =====
-- `DistinctTradingDays` and `DistinctBars` of market-simulator/internal/market/data.go.
use agentic_sim_trading.Common.{
  ◌<◌, inl, inr, ◌&&◌, List, [], ◌∷◌, map, arith, ltb, leb, ◌==◌, if◌then◌else◌, Bool-cases, All,
  select, All-impl,
}
use agentic_sim_trading.Market.Session.{Time, inclusive_date_range_utc}
use agentic_sim_trading.Market.Data.{Tables}

-- SELECT DISTINCT ... ORDER BY ... ASC
abbrev pub insert_distinct : Time → List Time → List Time
insert_distinct t [] = t ∷ []
insert_distinct t (u ∷ us) =
    let rest = insert_distinct t us in
    if ltb t u then t ∷ u ∷ us else if t == u then u ∷ us else u ∷ rest

abbrev pub distinct : List Time → List Time
distinct [] = []
distinct (t ∷ ts) = insert_distinct t (distinct ts)

module _ {F : Type 0} where
  unfoldable pub distinct_trading_days : Tables F → Time → Time → List Time
  distinct_trading_days tables start_date end_date =
      distinct (
        map (λ q. q.date) (select (λ q. leb start_date q.date && leb q.date end_date) tables.ohlcv))

  -- `DistinctBars` for interval 60m
  unfoldable pub distinct_bars : Tables F → Time → Time → List Time
  unfolding inclusive_date_range_utc
  distinct_bars tables start_date end_date =
      let range = inclusive_date_range_utc start_date end_date in
      distinct
        (map (λ q. q.ts) (select (λ q. leb range.0 q.ts && ltb q.ts range.1) tables.ohlcv_bars))

-- strictly ascending
abbrev pub IsAscending : List Time → Type 0
IsAscending [] = Unit
IsAscending (t ∷ ts) = All (λ u. t < u) ts × IsAscending ts

insert_distinct-All :
    (a t : Time) (ts : List Time)
    → a < t
    → All (λ u. a < u) ts
    → All (λ u. a < u) (insert_distinct t ts)
insert_distinct-All a t [] l h = (l, tt)
insert_distinct-All a t (u ∷ us) l h = ground (arith, insert_distinct-All a t us l h.1)

insert_distinct-IsAscending :
    (t : Time) (ts : List Time) → IsAscending ts → IsAscending (insert_distinct t ts)
insert_distinct-IsAscending t [] h = (tt, tt)
insert_distinct-IsAscending t (u ∷ us) h =
    let rest = insert_distinct-IsAscending t us h.1 in
    elim (Bool-cases (ltb t u)) [
      | inl l ↦ rw l (
        (ground arith, All-impl {P = λ v. u < v} {Q = λ v. t < v} (λ v k. ground arith) us h.0),
        h,
      )
      | inr l ↦ elim (Bool-cases (t == u)) [
        | inl e ↦ rw (l, e) h
        | inr e ↦ rw (l, e) (insert_distinct-All u t us (ground arith) h.0, rest)
      ]
    ]

pub distinct-IsAscending : (ts : List Time) → IsAscending (distinct ts)
distinct-IsAscending [] = tt
distinct-IsAscending (t ∷ ts) =
    insert_distinct-IsAscending t (distinct ts) (distinct-IsAscending ts)
