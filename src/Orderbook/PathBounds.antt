-- ===== src/Orderbook/PathBounds.antt =====
-- Bounds on what one order takes from one hourly bar.
use agentic_sim_trading.Common.{
  ℕ, ◌^◌, ◌≤◌, ◌<◌, ◌≡◌, inl, inr, arith, ltb, ◌==◌, if◌then◌else◌, Bool-cases,
}
use agentic_sim_trading.Common.Int.{ℤ, pos, negsuc, pos_part, ltb_ℤ}
use agentic_sim_trading.Common.Text.{Text}
use agentic_sim_trading.Float.{Float64, IsFloat64, IsFinite, ◌⊗◌, ◌≼◌, nought}
use agentic_sim_trading.Market.Data.{Quote}
use agentic_sim_trading.Orderbook.Rules.{Side, OrderType, side_of, order_type_of, FillDecision}
use agentic_sim_trading.Orderbook.Path.{
  default_participation_rate, participation_cap, resolve_path_fill, path_by_type,
}

-- the last steps of `ParticipationCap`, from the rounded share on
abbrev capped : ℕ → ℤ → ℕ
capped remaining floored =
    if remaining == 0
    then 0
    else let max_fill = if ltb_ℤ floored (pos 0) then 0 else pos_part floored in
      if ltb remaining max_fill then remaining else max_fill

module _ {F : Type 0} ⦃fl : Float64 F⦄ (laws : IsFloat64 F) where
  -- the rate that `ParticipationCap` works with
  abbrev pub effective_rate : F → F
  effective_rate rate = if fl.le rate nought then default_participation_rate else rate

  effective_rate_nonneg :
      (rate : F) → IsFinite rate → (nought ≼ effective_rate rate) × IsFinite (effective_rate rate)
  effective_rate_nonneg rate fin = elim (Bool-cases (fl.le rate nought)) [
    | inl e ↦ rw e (laws.dec_nonneg 10 2, laws.dec_finite 10 2 (omega arith))
    | inr e ↦ rw e (
        ground (
          arith,
          laws.le_total rate nought (laws.finite_num rate fin)
              (laws.finite_num nought (laws.dec_finite 0 0 (omega arith))),
        ))
  ]

  -- the cap is at most what is left, and at most the floor of the share
  participation_cap-le :
      (remaining volume : ℕ) (rate : F)
      → (participation_cap remaining volume rate ≤ remaining)
        × (participation_cap remaining volume rate
            ≤ pos_part (fl.floor (effective_rate rate ⊗ fl.of_nat volume)))
  unfolding participation_cap
  participation_cap-le remaining volume rate =
      go (fl.floor (effective_rate rate ⊗ fl.of_nat volume))
    where
      go : (z : ℤ) → (capped remaining z ≤ remaining) × (capped remaining z ≤ pos_part z)
      go (pos n) = ground arith
      go (negsuc n) = ground arith

  pub participation_cap_lem :
      (remaining volume : ℕ) (rate : F)
      → IsFinite rate
      → volume < 2 ^ 63
      → (participation_cap remaining volume rate ≤ remaining)
        × (fl.of_nat (participation_cap remaining volume rate)
            ≼ effective_rate rate ⊗ fl.of_nat volume)
  participation_cap_lem remaining volume rate fin small =
      let (r, f) = effective_rate_nonneg rate fin in
      let share = effective_rate rate ⊗ fl.of_nat volume in
      let share_nonneg =
        laws.mul_nonneg (effective_rate rate) (fl.of_nat volume) f (laws.of_nat_finite volume small)
          r (laws.of_nat_nonneg volume) in
      let (le_left, le_share) = participation_cap-le remaining volume rate in
      (
        le_left,
        laws.le_trans _ _ _ (laws.of_nat_mono _ _ le_share) (laws.floor-le share share_nonneg),
      )

  -- what a fill of this quantity and price promises a limit order
  abbrev pub IsNoWorse : OrderType → Side → F → F → Type 0
  IsNoWorse OrderType.limit Side.buy limit_price price = price ≼ limit_price
  IsNoWorse OrderType.limit Side.sell limit_price price = limit_price ≼ price
  IsNoWorse OrderType.limit Side.other_side limit_price price = ⊥
  IsNoWorse _ _ limit_price price = Unit

  path_by_type_lem :
      (ot : OrderType) (sd : Side) (limit_price : F) (bar : Quote F) (qty : ℕ)
      → limit_price ≼ limit_price
      → (path_by_type ot sd limit_price bar qty).decision ≡ FillDecision.fill_now
      → ((path_by_type ot sd limit_price bar qty).fill_qty ≡ qty)
        × (0 < qty)
        × IsNoWorse ot sd limit_price (path_by_type ot sd limit_price bar qty).fill_price
  path_by_type_lem OrderType.market sd limit_price bar qty num h = ground arith
  path_by_type_lem OrderType.stop Side.buy limit_price bar qty num h = ground arith
  path_by_type_lem OrderType.stop Side.sell limit_price bar qty num h = ground arith
  path_by_type_lem OrderType.stop Side.other_side limit_price bar qty num h = ground arith
  path_by_type_lem OrderType.other_type sd limit_price bar qty num h = ground arith
  path_by_type_lem OrderType.limit Side.buy limit_price bar qty num h = ground arith
  path_by_type_lem OrderType.limit Side.sell limit_price bar qty num h = ground (
    arith,
    laws.lt-eq-not-le limit_price bar.open_price num,
    laws.refl_of_le limit_price bar.open_price,
  )
  path_by_type_lem OrderType.limit Side.other_side limit_price bar qty num h = ground arith

  -- By the laws of float64, for a limit that is a number, a finite rate and a volume below 2^63: a fill
  -- against an hourly bar takes a positive quantity that is at most what is left of the order, and at most the
  -- participation rate (10% if the rate is not positive) of the bar's volume. A limit order fills
  -- only on a known side, a buy at no more than its limit and a sell at no less.
  pub resolve_path_fill_bounds :
      (order_type side : Text) (limit_price : F) (remaining : ℕ) (bar : Quote F) (rate : F)
      → limit_price ≼ limit_price
      → IsFinite rate
      → bar.volume < 2 ^ 63
      → let r = resolve_path_fill order_type side limit_price remaining bar rate in
        r.decision ≡ FillDecision.fill_now
        → (0 < r.fill_qty)
          × (r.fill_qty ≤ remaining)
          × (fl.of_nat r.fill_qty ≼ effective_rate rate ⊗ fl.of_nat bar.volume)
          × IsNoWorse (order_type_of order_type) (side_of side) limit_price r.fill_price
  unfolding resolve_path_fill
  resolve_path_fill_bounds order_type side limit_price remaining bar rate num fin small h =
      let cap = participation_cap remaining bar.volume rate in
      let (le_left, le_share) = participation_cap_lem remaining bar.volume rate fin small in
      elim (Bool-cases (remaining == 0)) [
        | inl e ↦ let never : FillDecision.reject_fill ≡ FillDecision.fill_now = rw e at h in cc
        | inr e ↦
            let h' : (path_by_type (order_type_of order_type) (side_of side) limit_price bar
                  cap).decision
                ≡ FillDecision.fill_now =
              rw e at h in
            let (same, pos_qty, price) =
              path_by_type_lem (order_type_of order_type) (side_of side) limit_price bar cap num
                h' in
            rw (e, same) (pos_qty, le_left, le_share, price)
      ]
