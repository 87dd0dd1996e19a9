-- ===== src/Portfolio/Metrics/Drawdown.antt =====
-- The bounds of `MaxDrawdown` of market-simulator/internal/portfolio/metrics.go.
use agentic_sim_trading.Common.{
  ◌≡◌, inl, inr, Bool, true, false, List, [], ◌∷◌, arith, if◌then◌else◌, Bool-cases, All,
}
use agentic_sim_trading.Float.{Float64, IsFloat64, IsFinite, ◌≼◌, ◌⊖◌, ◌⊘◌, gt, nought}
use agentic_sim_trading.Portfolio.Metrics.{drawdown_from, max_drawdown}

module _ {F : Type 0} ⦃fl : Float64 F⦄ where
  -- a finite number that is not negative
  abbrev pub IsValue : F → Type 0
  IsValue x = IsFinite x × (nought ≼ x)

  -- a peak so far
  abbrev pub IsPeak : F → Type 0
  IsPeak x = IsFinite x × (fl.lt nought x ≡ true)

  abbrev pub IsFraction : F → Type 0
  IsFraction x = (nought ≼ x) × (x ≼ fl.dec 1 0)

module _ {F : Type 0} ⦃fl : Float64 F⦄ (laws : IsFloat64 F) where
  num_peak : (peak : F) → IsPeak peak → nought ≼ peak
  num_peak peak is_peak =
      let nums = laws.lt_num nought peak is_peak.1 in
      let lt_le = laws.lt-eq-not-le nought peak nums.0 nums.1 in
      elim (laws.le_total nought peak nums.0 nums.1) [ inl e ↦ e | inr e ↦ ground arith ]

  -- the new peak is one, and not under the value
  raised :
      (v peak : F)
      → IsValue v
      → IsPeak peak
      → IsPeak (if gt v peak then v else peak) × (v ≼ (if gt v peak then v else peak))
  raised v peak value is_peak =
      let num_v = laws.finite_num v value.0 in
      let num_p = laws.finite_num peak is_peak.0 in
      let num_0 = (laws.lt_num nought peak is_peak.1).0 in
      let above = laws.lt-eq-not-le peak v num_p num_v in
      let positive = laws.lt-eq-not-le nought v num_0 num_v in
      elim (Bool-cases (fl.le v peak)) [
        | inl e ↦ let low : fl.lt peak v ≡ false = ground arith in rw low (is_peak, e)
        | inr e ↦
            let high : fl.lt peak v ≡ true = ground arith in
            rw high (
              (
                value.0,
                elim (Bool-cases (fl.le v nought)) [
                  | inl under ↦
                      let never : v ≼ peak =
                        laws.le_trans v nought peak under (num_peak peak is_peak) in
                      ground arith
                  | inr over ↦ ground arith
                ],
              ),
              num_v,
            )
      ]

  decline : (peak v : F) → IsPeak peak → IsValue v → v ≼ peak → IsFraction ((peak ⊖ v) ⊘ peak)
  decline peak v is_peak value le =
      let down = laws.sub_nonneg peak v is_peak.0 le in
      let part = laws.sub-le peak v is_peak.0 value.1 in
      (
        laws.div_nonneg (peak ⊖ v) peak down is_peak.1 is_peak.0,
        laws.div-le_one (peak ⊖ v) peak down part is_peak.1 is_peak.0,
      )

  greater : (b : Bool) (x y : F) → IsFraction x → IsFraction y → IsFraction (if b then x else y)
  greater true x y p q = p
  greater false x y p q = q

  drawdown_from-IsFraction :
      (peak max_dd : F) (vs : List F)
      → IsPeak peak
      → IsFraction max_dd
      → All IsValue vs
      → IsFraction (drawdown_from peak max_dd vs)
  drawdown_from-IsFraction peak max_dd [] is_peak so_far values = so_far
  drawdown_from-IsFraction peak max_dd (v ∷ vs) is_peak so_far values =
      let peak' = if gt v peak then v else peak in
      let dd = (peak' ⊖ v) ⊘ peak' in
      let found = raised v peak values.0 is_peak in
      let down = decline peak' v found.0 values.0 found.1 in
      drawdown_from-IsFraction peak' (if gt dd max_dd then dd else max_dd) vs found.0
        (greater (gt dd max_dd) dd max_dd down so_far) values.1

  -- By the laws of float64, the drawdown of finite values that are not negative, the first above 0, is from 0 to 1.
  pub max_drawdown-IsFraction :
      (v : F) (vs : List F)
      → fl.lt nought v ≡ true
      → All IsValue (v ∷ vs)
      → IsFraction (max_drawdown (v ∷ vs))
  unfolding max_drawdown
  max_drawdown-IsFraction v vs positive values =
      drawdown_from-IsFraction v nought (v ∷ vs) (values.0.0, positive)
        (laws.dec_nonneg 0 0, laws.dec_nonneg 1 0) values
