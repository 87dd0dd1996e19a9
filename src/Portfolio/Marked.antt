-- ===== src/Portfolio/Marked.antt =====
-- What the marks of market-simulator/internal/portfolio/detail.go are taken from.
use agentic_sim_trading.Common.{
  ℕ, ◌≤◌, ◌<◌, ◌≡◌, refl, ◌≢◌, ◌⊎◌, inl, inr, Bool, true, false, ◌&&◌, List, [], ◌∷◌, arith, leb,
  ◌==◌, Bool-cases, Option-cases, All, select, find?, order_by, All-impl, select-All, All-of_select,
  Result, ok, err, Result-cases,
}
use agentic_sim_trading.Common.Counting.{All-select}
use mathlib.Core.List.{Mem}
use agentic_sim_trading.Common
use agentic_sim_trading.Common.Tables.{find?-holds}
use agentic_sim_trading.Common.Text.{Text, text_eq}
use agentic_sim_trading.Market.Session.{Time, truncate_day}
use agentic_sim_trading.Market.Data.{Quote, Tables, bar_on_date, intraday_bar_at_or_before, latest}
use agentic_sim_trading.Market.Latest.{
  latest-none, latest-All, latest-max, find?-All, find?-none, All-Mem,
}
use agentic_sim_trading.Float.{Float64, nought, ◌⊕◌, ◌⊗◌}
use agentic_sim_trading.Database.{Db, HoldingRow}
use agentic_sim_trading.Portfolio.Tx.{portfolio_id_tx, get_cash_tx, load_holdings_tx}
use agentic_sim_trading.Portfolio.Detail.{
  HoldingDetail, PortfolioDetail, hourly_mark, mark_bar, mark_of, detail_of, mark_lines,
  get_portfolio_detail,
}

module _ {F : Type 0} where
  -- the row of the tables that a position is marked by: at a midnight its day's, else the last hourly one up to then
  abbrev pub IsMarkBar : Tables F → (by_hour : Bool) → (as_of : Time) → Text → Quote F → Type 0
  IsMarkBar tables true as_of symbol q =
      Mem q tables.ohlcv_bars
      × (text_eq q.symbol symbol ≡ true)
      × (q.ts ≤ as_of)
      × All (λ r. text_eq r.symbol symbol ≡ true → r.ts ≤ as_of → r.ts ≤ q.ts) tables.ohlcv_bars
  IsMarkBar tables false as_of symbol q =
      Mem q tables.ohlcv × (text_eq q.symbol symbol ≡ true) × (q.date ≡ as_of)

  abbrev pub HasNoBar : Tables F → (by_hour : Bool) → (as_of : Time) → Text → Type 0
  HasNoBar tables true as_of symbol =
      All (λ r. text_eq r.symbol symbol ≡ true → as_of < r.ts) tables.ohlcv_bars
  HasNoBar tables false as_of symbol =
      All (λ r. text_eq r.symbol symbol ≡ true → r.date ≢ as_of) tables.ohlcv

  abbrev MarkCases : Tables F → (by_hour : Bool) → (as_of : Time) → Text → Result (Quote F) → Type 0
  MarkCases tables by_hour as_of symbol found =
      ((found ≡ err Common.Error.no_rows) × HasNoBar tables by_hour as_of symbol)
      ⊎ ((q : Quote F) × (found ≡ ok q) × IsMarkBar tables by_hour as_of symbol q)

  hourly_bar-MarkCases :
      (tables : Tables F) (as_of : Time) (symbol : Text)
      → MarkCases tables true as_of symbol (intraday_bar_at_or_before tables symbol as_of)
  unfolding intraday_bar_at_or_before
  hourly_bar-MarkCases tables as_of symbol =
      let seen = λ (r : Quote F). text_eq r.symbol symbol && leb r.ts as_of in
      let rows = tables.ohlcv_bars in
      elim (Option-cases (latest (λ r. r.ts) (select seen rows))) [
        | inl n ↦
            let empty =
              All-of_select seen (λ r. r.ts < 0) rows
                (All-impl (λ r k. k) (select seen rows)
                  (latest-none (λ r. r.ts) (select seen rows) 0 n)) in
            rw (intraday_bar_at_or_before, n)
              (inl (refl, All-impl (λ r k same. ground (arith, k)) rows empty))
        | inr (u, n) ↦
            let member =
              latest-All (λ r. Mem r rows) (λ r. r.ts) (select seen rows)
                (All-select (λ r. Mem r rows) seen rows (All-Mem rows)) n in
            let met : seen u ≡ true =
              latest-All (λ r. seen r ≡ true) (λ r. r.ts) (select seen rows) (select-All seen rows)
                n in
            let most =
              All-of_select seen (λ r. r.ts ≤ u.ts) rows
                (latest-max (λ r. r.ts) (select seen rows) n) in
            rw (intraday_bar_at_or_before, n)
              (inr (
                u,
                refl,
                (
                  member,
                  ground arith,
                  ground arith,
                  All-impl (λ r k same before. k (ground arith)) rows most,
                ),
              ))
      ]

  daily_bar-MarkCases :
      (tables : Tables F) (as_of : Time) (symbol : Text)
      → MarkCases tables false as_of symbol (bar_on_date tables symbol as_of)
  unfolding bar_on_date
  daily_bar-MarkCases tables as_of symbol =
      let seen = λ (r : Quote F). text_eq r.symbol symbol && r.date == as_of in
      let rows = tables.ohlcv in
      elim (Option-cases (find? seen rows)) [
        | inl n ↦
            rw (bar_on_date, n)
              (inl (refl, All-impl (λ r k same. ground (arith, k)) rows (find?-none seen rows n)))
        | inr (u, n) ↦
            let met : seen u ≡ true = find?-holds seen rows n in
            rw (bar_on_date, n)
              (inr (
                u,
                refl,
                (
                  find?-All (λ r. Mem r rows) seen rows (All-Mem rows) n,
                  ground arith,
                  ground arith,
                ),
              ))
      ]

  mark_bar-MarkCases :
      (tables : Tables F) (as_of : Time) (symbol : Text)
      → MarkCases tables (hourly_mark as_of) as_of symbol (mark_bar tables as_of symbol)
  unfolding mark_bar
  mark_bar-MarkCases tables as_of symbol = elim (Bool-cases (hourly_mark as_of)) [
    | inl hour ↦ rw (mark_bar, hour) (hourly_bar-MarkCases tables as_of symbol)
    | inr day ↦
        let midnight : truncate_day as_of ≡ as_of = ground arith in
        rw (mark_bar, day, midnight) (daily_bar-MarkCases tables as_of symbol)
  ]

module _ {F : Type 0} ⦃fl : Float64 F⦄ where
  -- the close of that bar; nothing where there is none
  abbrev pub IsMark : Tables F → (as_of : Time) → Text → F → Type 0
  IsMark tables as_of symbol mark =
      (HasNoBar tables (hourly_mark as_of) as_of symbol × (mark ≡ nought))
      ⊎ ((q : Quote F) × IsMarkBar tables (hourly_mark as_of) as_of symbol q × (mark ≡ q.close))

  -- a line for each holding, in their order
  abbrev pub IsDetailed :
      Tables F → (as_of : Time) → List (HoldingRow F) → List (HoldingDetail F) → Type 0
  IsDetailed tables as_of [] [] = Unit
  IsDetailed tables as_of [] (l ∷ ls) = ⊥
  IsDetailed tables as_of (h ∷ hs) [] = ⊥
  IsDetailed tables as_of (h ∷ hs) (l ∷ ls) =
      ((mark : F) × (l ≡ detail_of h mark) × IsMark tables as_of h.symbol mark)
      × IsDetailed tables as_of hs ls

  abbrev pub value_from : F → List (HoldingDetail F) → F
  value_from x [] = x
  value_from x (l ∷ ls) = value_from (x ⊕ l.position_value) ls

  mark_lem :
      (tables : Tables F) (as_of : Time) (symbol : Text)
      → (mark : F) × (mark_of (mark_bar tables as_of symbol) ≡ ok mark)
        × IsMark tables as_of symbol mark
  mark_lem tables as_of symbol = elim (mark_bar-MarkCases tables as_of symbol) [
    | inl (e, n) ↦ (nought, rw e, inl (n, refl))
    | inr (q, e, k) ↦ (q.close, rw e, inr (q, k, refl))
  ]

  mark_lines_lem :
      (tables : Tables F) (as_of : Time) (hs : List (HoldingRow F)) (x : F)
      → (ls : List (HoldingDetail F)) × (mark_lines (mark_bar tables as_of) hs x
          ≡ ok (ls, value_from x ls))
        × IsDetailed tables as_of hs ls
  unfolding mark_lines
  mark_lines_lem tables as_of [] x = ([], refl, tt)
  mark_lines_lem tables as_of (h ∷ hs) x =
      let first = mark_lem tables as_of h.symbol in
      let rest = mark_lines_lem tables as_of hs (x ⊕ fl.of_nat h.quantity ⊗ first.0) in
      (
        detail_of h first.0 ∷ rest.0,
        rw (mark_lines, first.1, rest.1),
        ((first.0, refl, first.2), rest.2),
      )

  abbrev pub DetailOutcome :
      (before : Text → Text → Bool)
      → Tables F
      → ℕ
      → ℕ
      → Time
      → Db F
      → Result (PortfolioDetail F)
      → Type 0
  DetailOutcome before tables simulation_id agent_id as_of db (ok d) =
      (pid : ℕ) × (portfolio_id_tx simulation_id agent_id db ≡ ok pid)
      × (get_cash_tx pid db ≡ ok d.cash)
      × IsDetailed tables as_of
          (order_by (λ h k. before h.symbol k.symbol) (load_holdings_tx pid db)) d.holdings
      × (d.invested_value ≡ value_from nought d.holdings)
      × (d.total_value ≡ d.cash ⊕ d.invested_value)
  DetailOutcome before tables simulation_id agent_id as_of db (err e) =
      (portfolio_id_tx simulation_id agent_id db ≡ err e)
      ⊎ ((pid : ℕ) × (portfolio_id_tx simulation_id agent_id db ≡ ok pid)
          × (get_cash_tx pid db ≡ err e))

  -- GetPortfolioDetail fails only if the agent has no portfolio with cash in the simulation. What it returns has that
  -- cash, a line for each holding of the portfolio, and the sums of the lines' values without and with the cash. A
  -- line is marked by the close of a row of the tables: where the time asked for is a midnight, of the symbol's
  -- daily bar of that day, else of its hourly bars up to that time by the last; and by 0 if there is none.
  pub get_portfolio_detail-DetailOutcome :
      (before : Text → Text → Bool) (tables : Tables F) (simulation_id agent_id : ℕ) (as_of : Time)
      (db : Db F)
      → DetailOutcome before tables simulation_id agent_id as_of db
          (get_portfolio_detail before tables simulation_id agent_id as_of db)
  unfolding get_portfolio_detail
  get_portfolio_detail-DetailOutcome before tables simulation_id agent_id as_of db =
      elim (Result-cases (portfolio_id_tx simulation_id agent_id db)) [
        | inr (x, e) ↦ rw (get_portfolio_detail, e) (inl e)
        | inl (pid, e) ↦ elim (Result-cases (get_cash_tx pid db)) [
          | inr (x, f) ↦ rw (get_portfolio_detail, e, f) (inr (pid, e, f))
          | inl (cash, f) ↦
              let rows = order_by (λ h k. before h.symbol k.symbol) (load_holdings_tx pid db) in
              let lines = mark_lines_lem tables as_of rows nought in
              rw (get_portfolio_detail, e, f, lines.1) (pid, e, f, lines.2, refl, refl)
        ]
      ]
