-- ===== src/Portfolio/Metrics.antt =====
-- market-simulator/internal/portfolio/metrics.go: ratios of a series of values, and the matching of
-- sales to earlier purchases, first in, first out.
pub mod Fifo
pub mod Drawdown
use agentic_sim_trading.Common.{
  ℕ, zero, suc, ◌+◌, ◌-◌, ◌*◌, ◌/◌, ◌%◌, ◌^◌, Bool, Option, none, some, List, [], ◌∷◌, ◌++◌, map,
  ltb, leb, ◌==◌, if◌then◌else◌, length, select, order_by,
}
use agentic_sim_trading.Common.Text.{Text, codes, text_eq, to_lower}
use agentic_sim_trading.Market.Session.{Time}
use agentic_sim_trading.Float.{Float64, ◌⊕◌, ◌⊖◌, ◌⊗◌, ◌⊘◌, gt, feq, nought}

-- `FillLot`
pub record FillLot (F : Type 0) : Type 0 where
  pub symbol : Text
  pub side : Text
  pub quantity : ℕ
  pub price : F
  pub trade_val : F
  pub filled_at : Time

-- `lot`: shares bought that are not yet sold
pub record Lot (F : Type 0) : Type 0 where
  pub qty : ℕ
  pub price : F
  pub day : Time

-- `closed`, `profitable` and `holdSum`
pub record Tally (F : Type 0) : Type 0 where
  pub closed : ℕ
  pub profitable : ℕ
  pub hold_sum : F

pub record ClosedTradeStats (F : Type 0) : Type 0 where
  pub closed_trades : ℕ
  pub profitable : ℕ
  pub win_rate_pct : F
  pub avg_holding_days : F
  pub total_trade_value : F

module _ {F : Type 0} where
  -- `qty -= m` of the first lot, which is dropped once it is empty
  abbrev pub take_from : ℕ → Lot F → List (Lot F) → List (Lot F)
  take_from m b bs = if b.qty - m == 0 then bs else record b { qty = b.qty - m } ∷ bs

  abbrev pub bought_lot : FillLot F → Lot F
  bought_lot f = record { qty = f.quantity; price = f.price; day = f.filled_at }

  -- The order of `sort.Slice`. Go leaves the order of fills of one time open; here they keep it.
  abbrev pub not_after : FillLot F → FillLot F → Bool
  not_after a b = leb a.filled_at b.filled_at

module _ {F : Type 0} ⦃fl : Float64 F⦄ where
  abbrev pub sum_from : F → List F → F
  sum_from s [] = s
  sum_from s (x ∷ xs) = sum_from (s ⊕ x) xs

  unfoldable pub mean : List F → F
  mean xs = sum_from nought xs ⊘ fl.of_nat (length xs)

  abbrev squares_from : F → F → List F → F
  squares_from mu acc [] = acc
  squares_from mu acc (x ∷ xs) = squares_from mu (acc ⊕ (x ⊖ mu) ⊗ (x ⊖ mu)) xs

  unfoldable pub std_dev : List F → F → F
  std_dev xs mu = fl.sqrt (squares_from mu nought xs ⊘ fl.of_nat (length xs))

  -- `rets`, after the value `prev`
  abbrev pub returns_after : F → F → List F → List F
  returns_after risk_free prev [] = []
  returns_after risk_free prev (v ∷ vs) =
      let rest = returns_after risk_free v vs in
      if feq prev nought then rest else ((v ⊖ prev) ⊘ prev ⊖ risk_free) ∷ rest

  -- the ratio of the returns, once there are at least two values
  abbrev ratio_of : List F → F
  unfolding mean std_dev
  ratio_of rets =
      let mu = mean rets in
      let sd = std_dev rets mu in
      if length rets == 0
      then nought
      else if feq sd nought
      then nought
      else fl.sqrt (fl.dec 252 0) ⊗ mu ⊘ sd

  unfoldable pub sharpe_ratio : List F → F → F
  unfolding ratio_of
  sharpe_ratio [] risk_free = nought
  sharpe_ratio (v ∷ []) risk_free = nought
  sharpe_ratio (v ∷ w ∷ vs) risk_free = ratio_of (returns_after risk_free v (w ∷ vs))

  -- the loop of `MaxDrawdown`
  abbrev pub drawdown_from : (peak max_dd : F) → List F → F
  drawdown_from peak max_dd [] = max_dd
  drawdown_from peak max_dd (v ∷ vs) =
      let peak' = if gt v peak then v else peak in
      let dd = (peak' ⊖ v) ⊘ peak' in drawdown_from peak' (if gt dd max_dd then dd else max_dd) vs

  unfoldable pub max_drawdown : List F → F
  max_drawdown [] = nought
  max_drawdown (v ∷ vs) = drawdown_from v nought (v ∷ vs)

  -- `d.Hours()` of a duration in seconds
  abbrev pub hours : ℕ → F
  hours d = fl.of_nat (d / 3600) ⊕ fl.of_nat (d % 3600 * 10 ^ 9) ⊘ fl.of_nat (3600 * 10 ^ 9)

  -- One pass of the matching loop closes a part of the first lot.
  abbrev pub close_part : FillLot F → Lot F → Tally F → Tally F
  close_part f b t = record {
    closed = t.closed + 1;
    profitable = if gt f.price b.price then t.profitable + 1 else t.profitable;
    hold_sum = t.hold_sum ⊕ hours (f.filled_at - b.day) ⊘ fl.dec 24 0;
  }

  -- `for remain > 0 && len(buys) > 0`, on fuel: what remains, the lots and the tally; `none` is out of fuel.
  abbrev pub match_sell :
      ℕ → FillLot F → ℕ → List (Lot F) → Tally F → Option (ℕ × List (Lot F) × Tally F)
  match_sell zero f remain buys t = none
  match_sell (suc fuel) f remain [] t = some (remain, [], t)
  match_sell (suc fuel) f remain (b ∷ bs) t =
      let m = if ltb b.qty remain then b.qty else remain in
      let next = match_sell fuel f (remain - m) (take_from m b bs) (close_part f b t) in
      if ltb 0 remain then next else some (remain, b ∷ bs, t)

  -- the loop over the fills of one symbol
  abbrev pub match_fills : List (FillLot F) → List (Lot F) → Tally F → Option (Tally F)
  unfolding to_lower
  match_fills [] buys t = some t
  match_fills (f ∷ fs) buys t =
      if text_eq (to_lower f.side) (codes "buy")
      then match_fills fs (buys ++ (bought_lot f ∷ [])) t
      else elim (match_sell (suc (length buys)) f f.quantity buys t) [
        | none ↦ none
        | some r ↦ match_fills fs r.1 r.2
      ]

  -- the loop over the symbols, in the order in which Go ranges over the map
  abbrev pub match_symbols : List Text → List (FillLot F) → Tally F → Option (Tally F)
  match_symbols [] fills t = some t
  match_symbols (symbol ∷ symbols) fills t =
      elim (match_fills (order_by not_after (select (λ f. text_eq f.symbol symbol) fills)) [] t) [
        | none ↦ none
        | some t' ↦ match_symbols symbols fills t'
      ]

  abbrev pub no_trades : Tally F
  no_trades = record { closed = 0; profitable = 0; hold_sum = nought }

  abbrev pub stats_of : F → Tally F → ClosedTradeStats F
  stats_of total t = record {
    closed_trades = t.closed;
    profitable = t.profitable;
    win_rate_pct =
        if ltb 0 t.closed
        then fl.of_nat t.profitable ⊘ fl.of_nat t.closed ⊗ fl.dec 100 0
        else nought;
    avg_holding_days = if ltb 0 t.closed then t.hold_sum ⊘ fl.of_nat t.closed else nought;
    total_trade_value = total;
  }

  -- `symbols` are the keys of `bySym` in the order of the range over it.
  unfoldable pub analyze_closed_trades : List Text → List (FillLot F) → Option (ClosedTradeStats F)
  analyze_closed_trades symbols fills = elim (match_symbols symbols fills no_trades) [
    | none ↦ none
    | some t ↦ some (stats_of (sum_from nought (map (λ f. f.trade_val) fills)) t)
  ]

  unfoldable pub turnover_rate : F → List F → F
  unfolding mean
  turnover_rate total values =
      if length values == 0
      then nought
      else if feq (mean values) nought
      then nought
      else total ⊘ mean values

  -- The map as the list of its entries, in the order of the range.
  unfoldable pub sector_percents : List (Text × F) → List (Text × F)
  sector_percents invested =
      let sum = sum_from nought (map (λ e. e.1) invested) in
      if fl.le sum nought then [] else map (λ e. (e.0, e.1 ⊘ sum ⊗ fl.dec 100 0)) invested
