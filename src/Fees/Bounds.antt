-- ===== src/Fees/Bounds.antt =====
-- What the fees promise: no component is negative, so a buy never costs less than the trade and a sell
-- never pays more.
use agentic_sim_trading.Common.{arith}
use agentic_sim_trading.Float.{Float64, IsFloat64, IsFinite, ◌⊕◌, ◌≼◌, nought}
use agentic_sim_trading.Fees.{
  Breakdown, total_debit, total_credit, buy_fees, sell_base, sell_fees, sell_fees_mixed,
}

module _ {F : Type 0} ⦃fl : Float64 F⦄ where
  -- No component of the breakdown is negative.
  pub record IsCharge (b : Breakdown F) : Type 0 where
    pub brokerage_nonneg : nought ≼ b.brokerage
    pub stt_nonneg : nought ≼ b.stt
    pub gst_nonneg : nought ≼ b.gst
    pub exchange_nonneg : nought ≼ b.exchange
    pub sebi_nonneg : nought ≼ b.sebi
    pub stamp_nonneg : nought ≼ b.stamp
    pub total_nonneg : nought ≼ b.total

  module _ (laws : IsFloat64 F) where
    open laws use {add_nonneg, scale_nonneg, le-add_right, sub-le, dec_nonneg}

    sum5_nonneg :
        (a b c d e : F)
        → nought ≼ a
        → nought ≼ b
        → nought ≼ c
        → nought ≼ d
        → nought ≼ e
        → nought ≼ a ⊕ b ⊕ c ⊕ d ⊕ e
    sum5_nonneg a b c d e ha hb hc hd he =
        add_nonneg _ _ (add_nonneg _ _ (add_nonneg _ _ (add_nonneg _ _ ha hb) hc) hd) he

    pub buy_fees-IsCharge : (v : F) → nought ≼ v → IsCharge (buy_fees v)
    unfolding buy_fees
    buy_fees-IsCharge v h =
        let b = scale_nonneg 1 3 v (omega arith) (omega arith) h in
        let g = scale_nonneg 18 2 _ (omega arith) (omega arith) b in
        let e = scale_nonneg 345 7 v (omega arith) (omega arith) h in
        let s = scale_nonneg 1 6 v (omega arith) (omega arith) h in
        let t = scale_nonneg 15 5 v (omega arith) (omega arith) h in
        record {
          brokerage_nonneg = b;
          stt_nonneg = dec_nonneg 0 0;
          gst_nonneg = g;
          exchange_nonneg = e;
          sebi_nonneg = s;
          stamp_nonneg = t;
          total_nonneg = sum5_nonneg _ _ _ _ _ b g e s t;
        }

    sell_base-IsCharge : (v stt : F) → nought ≼ v → nought ≼ stt → IsCharge (sell_base v stt)
    unfolding sell_base
    sell_base-IsCharge v stt h t =
        let b = scale_nonneg 1 3 v (omega arith) (omega arith) h in
        let g = scale_nonneg 18 2 _ (omega arith) (omega arith) b in
        let e = scale_nonneg 345 7 v (omega arith) (omega arith) h in
        let s = scale_nonneg 1 6 v (omega arith) (omega arith) h in
        record {
          brokerage_nonneg = b;
          stt_nonneg = t;
          gst_nonneg = g;
          exchange_nonneg = e;
          sebi_nonneg = s;
          stamp_nonneg = dec_nonneg 0 0;
          total_nonneg = sum5_nonneg _ _ _ _ _ b g e s t;
        }

    pub sell_fees-IsCharge : (v : F) → nought ≼ v → IsCharge (sell_fees v)
    unfolding sell_fees
    sell_fees-IsCharge v h =
        sell_base-IsCharge v _ h (scale_nonneg 1 3 v (omega arith) (omega arith) h)

    pub sell_fees_mixed-IsCharge :
        (d i : F) → nought ≼ d → nought ≼ i → IsCharge (sell_fees_mixed d i)
    unfolding sell_fees_mixed
    sell_fees_mixed-IsCharge d i hd hi = sell_base-IsCharge _ _ (add_nonneg d i hd hi) (
        add_nonneg _ _ (scale_nonneg 1 3 d (omega arith) (omega arith) hd)
          (scale_nonneg 25 5 i (omega arith) (omega arith) hi))

    -- By the laws of float64, for trade values that are not negative, no component of a buy's or of a
    -- sell's fees is negative.
    -- So the debit of a buy is not below the trade value, and the credit of a delivery sell of a finite
    -- value is not above it; the same holds of the mixed fees of a delivery and an intraday part.
    pub fees_bounds :
        (v d i : F)
        → nought ≼ v
        → IsFinite v
        → nought ≼ d
        → nought ≼ i
        → IsFinite (d ⊕ i)
        → IsCharge (buy_fees v)
          × IsCharge (sell_fees v)
          × IsCharge (sell_fees_mixed d i)
          × (v ≼ total_debit (buy_fees v) v)
          × (total_credit (sell_fees v) v ≼ v)
          × (total_credit (sell_fees_mixed d i) (d ⊕ i) ≼ d ⊕ i)
    fees_bounds v d i hv fv hd hi fdi =
        let b = buy_fees-IsCharge v hv in
        let s = sell_fees-IsCharge v hv in
        let m = sell_fees_mixed-IsCharge d i hd hi in
        (
          b,
          s,
          m,
          le-add_right v _ hv b.total_nonneg,
          sub-le v _ fv s.total_nonneg,
          sub-le (d ⊕ i) _ fdi m.total_nonneg,
        )
