-- ===== src/Fees.antt =====
-- market-simulator/internal/fees/fees.go
pub mod Bounds
use agentic_sim_trading.Common.{ℕ}
use agentic_sim_trading.Float.{Float64, ◌⊕◌, ◌⊖◌, ◌⊗◌, nought}

-- `Breakdown`: the components of a fee as they are stored on the order row.
pub record Breakdown (F : Type 0) : Type 0 where
  pub brokerage : F
  pub stt : F
  pub gst : F
  pub exchange : F
  pub sebi : F
  pub stamp : F
  pub total : F

module _ {F : Type 0} ⦃fl : Float64 F⦄ where
  -- `DeliverySTTRate`, 0.001
  abbrev pub delivery_stt_rate : F
  delivery_stt_rate = fl.dec 1 3

  -- `IntradaySTTRate`, 0.00025
  abbrev pub intraday_stt_rate : F
  intraday_stt_rate = fl.dec 25 5

  abbrev pub total_debit : Breakdown F → F → F
  total_debit b trade_value = trade_value ⊕ b.total

  abbrev pub total_credit : Breakdown F → F → F
  total_credit b trade_value = trade_value ⊖ b.total

  unfoldable pub buy_fees : F → Breakdown F
  buy_fees trade_value =
      let brokerage = fl.dec 1 3 ⊗ trade_value in
      let gst = fl.dec 18 2 ⊗ brokerage in
      let exchange = fl.dec 345 7 ⊗ trade_value in
      let sebi = fl.dec 1 6 ⊗ trade_value in
      let stamp = fl.dec 15 5 ⊗ trade_value in
      record {
        brokerage = brokerage;
        stt = nought;
        gst = gst;
        exchange = exchange;
        sebi = sebi;
        stamp = stamp;
        total = brokerage ⊕ gst ⊕ exchange ⊕ sebi ⊕ stamp;
      }

  unfoldable pub sell_base : F → F → Breakdown F
  sell_base trade_value stt =
      let brokerage = fl.dec 1 3 ⊗ trade_value in
      let gst = fl.dec 18 2 ⊗ brokerage in
      let exchange = fl.dec 345 7 ⊗ trade_value in
      let sebi = fl.dec 1 6 ⊗ trade_value in
      record {
        brokerage = brokerage;
        stt = stt;
        gst = gst;
        exchange = exchange;
        sebi = sebi;
        stamp = nought;
        total = brokerage ⊕ gst ⊕ exchange ⊕ sebi ⊕ stt;
      }

  unfoldable pub sell_fees : F → Breakdown F
  unfolding sell_base
  sell_fees trade_value = sell_base trade_value (delivery_stt_rate ⊗ trade_value)

  unfoldable pub sell_fees_mixed : F → F → Breakdown F
  unfolding sell_base
  sell_fees_mixed delivery_value intraday_value =
      let total = delivery_value ⊕ intraday_value in
      let stt = delivery_stt_rate ⊗ delivery_value ⊕ intraday_stt_rate ⊗ intraday_value in
      sell_base total stt

  -- `BuyDebit` and `SellCredit`: the amount, and the fees in it.
  unfoldable pub buy_debit : F → F × F
  unfolding buy_fees
  buy_debit trade_value = let b = buy_fees trade_value in (total_debit b trade_value, b.total)

  unfoldable pub sell_credit : F → F × F
  unfolding sell_fees
  sell_credit trade_value = let b = sell_fees trade_value in (total_credit b trade_value, b.total)
