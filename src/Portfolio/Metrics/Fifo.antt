-- ===== src/Portfolio/Metrics/Fifo.antt =====
-- The matching of sales to lots of market-simulator/internal/portfolio/metrics.go: it ends, and what it
-- counts.
use agentic_sim_trading.Common.{
  ℕ, zero, suc, ◌+◌, ◌-◌, ◌≤◌, ◌<◌, ◌≡◌, refl, ap, ◌∙◌, ◌⊎◌, inl, inr, true, some, List, [], ◌∷◌,
  ◌++◌, map, arith, ltb, ◌==◌, if◌then◌else◌, Bool-cases, length, select, order_by,
}
use agentic_sim_trading.Common.Text.{Text, codes, text_eq, to_lower}
use agentic_sim_trading.Float.{nought, Float64}
use agentic_sim_trading.Portfolio.Metrics.{
  sum_from, stats_of, no_trades, not_after, ClosedTradeStats, match_symbols, bought_lot,
  analyze_closed_trades, match_fills, match_sell, FillLot, Lot, Tally, take_from, close_part,
}

module _ {F : Type 0} where
  -- the shares of the lots
  abbrev pub shares : List (Lot F) → ℕ
  shares [] = 0
  shares (b ∷ bs) = b.qty + shares bs

  abbrev pub IsTally : Tally F → Type 0
  IsTally t = t.profitable ≤ t.closed

  shares-take_from :
      (m : ℕ) (b : Lot F) (bs : List (Lot F))
      → m ≤ b.qty
      → shares (take_from m b bs) + m ≡ b.qty + shares bs
  shares-take_from m b bs h = ground arith

  -- What matching a sale gives: every share that no longer remains of the sale came out of the lots; the sale or
  -- the lots are used up; each lot closes at most one part of the sale.
  abbrev pub Matched : ℕ → List (Lot F) → Tally F → ℕ × List (Lot F) × Tally F → Type 0
  Matched remain buys t r =
      (shares r.1 + remain ≡ shares buys + r.0)
      × (r.0 ≤ remain)
      × ((r.0 ≡ 0) ⊎ (r.1 ≡ []))
      × (t.closed ≤ r.2.closed)
      × (r.2.closed ≤ t.closed + length buys)
      × (r.2.profitable + t.closed ≤ t.profitable + r.2.closed)

  nothing_left : (buys : List (Lot F)) (t : Tally F) → Matched 0 buys t (0, buys, t)
  nothing_left buys t = ground arith

module _ {F : Type 0} ⦃fl : Float64 F⦄ where
  match_sell-nothing :
      (fuel : ℕ) (f : FillLot F) (buys : List (Lot F)) (t : Tally F)
      → match_sell (suc fuel) f 0 buys t ≡ some (0, buys, t)
  match_sell-nothing fuel f [] t = refl
  match_sell-nothing fuel f (b ∷ bs) t = refl

  close_part-counts :
      (f : FillLot F) (b : Lot F) (t : Tally F)
      → ((close_part f b t).closed ≡ t.closed + 1)
        × ((close_part f b t).profitable ≤ t.profitable + 1)
  close_part-counts f b t = ground arith

  -- A sale that takes less than the first lot.
  whole_lot :
      (f : FillLot F) (remain : ℕ) (b : Lot F) (bs : List (Lot F)) (t : Tally F)
      (r : ℕ × List (Lot F) × Tally F)
      → b.qty ≤ remain
      → Matched (remain - b.qty) bs (close_part f b t) r
      → Matched remain (b ∷ bs) t r
  whole_lot f remain b bs t r le h = ground (arith, close_part-counts f b t)

  part_lot :
      (f : FillLot F) (remain : ℕ) (b : Lot F) (bs : List (Lot F)) (t : Tally F)
      → remain ≤ b.qty
      → Matched remain (b ∷ bs) t (0, take_from remain b bs, close_part f b t)
  part_lot f remain b bs t le =
      ground (arith, close_part-counts f b t, shares-take_from remain b bs)

  -- a pass of the loop that takes `m` from the first lot
  match_sell-pass :
      (fuel : ℕ) (f : FillLot F) (remain m : ℕ) (b : Lot F) (bs : List (Lot F)) (t : Tally F)
      → ltb 0 remain ≡ true
      → (if ltb b.qty remain then b.qty else remain) ≡ m
      → match_sell (suc fuel) f remain (b ∷ bs) t
        ≡ match_sell fuel f (remain - m) (take_from m b bs) (close_part f b t)
  match_sell-pass fuel f remain m b bs t go e =
      rw go (ap (λ k. match_sell fuel f (remain - k) (take_from k b bs) (close_part f b t)) e)

  -- With fuel for more passes than there are lots, matching a sale ends: the shares that no longer remain to be sold came
  -- out of the lots, the sale or the lots are used up, and it closes at most one part for each lot, with at most
  -- as many profitable.
  pub match_sell_lem :
      (fuel : ℕ) (f : FillLot F) (remain : ℕ) (buys : List (Lot F)) (t : Tally F)
      → length buys < fuel
      → (r : ℕ × List (Lot F) × Tally F) × (match_sell fuel f remain buys t ≡ some r)
        × Matched remain buys t r
  match_sell_lem zero f remain buys t enough = absurd (omega arith)
  match_sell_lem (suc fuel) f remain [] t enough = ((remain, [], t), refl, ground arith)
  match_sell_lem (suc zero) f remain (b ∷ bs) t enough = absurd (omega arith)
  match_sell_lem (suc (suc fuel)) f remain (b ∷ bs) t enough = elim (Bool-cases (ltb 0 remain)) [
    | inr stop ↦ ((remain, b ∷ bs, t), rw stop, ground arith)
    | inl go ↦ elim (Bool-cases (ltb b.qty remain)) [
      | inl less ↦
          let rest =
            match_sell_lem (suc fuel) f (remain - b.qty) bs (close_part f b t) (omega arith) in
          let all : (b.qty - b.qty == 0) ≡ true = ground arith in
          (
            rest.0,
            match_sell-pass (suc fuel) f remain b.qty b bs t go (rw less)
                ∙ ap (λ l. match_sell (suc fuel) f (remain - b.qty) l (close_part f b t)) (rw all)
                ∙ rest.1,
            whole_lot f remain b bs t rest.0 (ground arith) rest.2,
          )
      | inr few ↦
          let none_left : remain - remain ≡ 0 = omega arith in
          (
            (0, take_from remain b bs, close_part f b t),
            match_sell-pass (suc fuel) f remain remain b bs t go (rw few)
                ∙ ap (λ n. match_sell (suc fuel) f n (take_from remain b bs) (close_part f b t))
                    none_left
                ∙ match_sell-nothing fuel f (take_from remain b bs) (close_part f b t),
            part_lot f remain b bs t (ground arith),
          )
    ]
  ]

  match_fills_lem :
      (fs : List (FillLot F)) (buys : List (Lot F)) (t : Tally F)
      → IsTally t
      → (t' : Tally F) × (match_fills fs buys t ≡ some t') × IsTally t'
  unfolding to_lower
  match_fills_lem [] buys t h = (t, refl, h)
  match_fills_lem (f ∷ fs) buys t h = elim (Bool-cases (text_eq (to_lower f.side) (codes "buy"))) [
    | inl buy ↦ rw buy (match_fills_lem fs (buys ++ (bought_lot f ∷ [])) t h)
    | inr sale ↦
        let part = match_sell_lem (suc (length buys)) f f.quantity buys t (omega arith) in
        rw (sale, part.1) (match_fills_lem fs part.0.1 part.0.2 (omega arith))
  ]

  match_symbols_lem :
      (symbols : List Text) (fills : List (FillLot F)) (t : Tally F)
      → IsTally t
      → (t' : Tally F) × (match_symbols symbols fills t ≡ some t') × IsTally t'
  match_symbols_lem [] fills t h = (t, refl, h)
  match_symbols_lem (symbol ∷ symbols) fills t h =
      let of_symbol = order_by not_after (select (λ f. text_eq f.symbol symbol) fills) in
      let part = match_fills_lem of_symbol [] t h in
      rw (match_symbols, part.1) (match_symbols_lem symbols fills part.0 part.2)

  -- For any order of the symbols and any fills, the analysis ends, and counts at most as many profitable trades as closed
  -- ones.
  pub analyze_closed_trades_lem :
      (symbols : List Text) (fills : List (FillLot F))
      → (s : ClosedTradeStats F) × (analyze_closed_trades symbols fills ≡ some s)
        × (s.profitable ≤ s.closed_trades)
  unfolding analyze_closed_trades
  analyze_closed_trades_lem symbols fills =
      let t = match_symbols_lem symbols fills no_trades (ground arith) in
      (
        stats_of (sum_from nought (map (λ f. f.trade_val) fills)) t.0,
        rw (analyze_closed_trades, t.1),
        t.2,
      )
