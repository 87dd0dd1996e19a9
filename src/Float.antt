-- ===== src/Float.antt =====
-- Go's `float64`, and the NUMERIC columns of Postgres that hold prices and amounts.
-- A number is a value of any type with these operations; `IsFloat64` states the facts about them that
-- the theorems use. Each fact holds of IEEE 754 doubles, NaN and the infinities included.
pub mod Fixed
use agentic_sim_trading.Common.{ℕ, ◌+◌, ◌^◌, ◌≤◌, ◌<◌, ◌≡◌, ◌⊎◌, Bool, true, false, not, ◌&&◌}
use agentic_sim_trading.Common.Int.{ℤ, pos_part, pos, ◌≤ℤ◌}

pub record Float64 (F : Type 0) : Type 0 where
  pub add : F → F → F
  pub sub : F → F → F
  pub mul : F → F → F
  pub div : F → F → F
  -- `<` and `<=`
  pub lt : F → F → Bool
  pub le : F → F → Bool
  -- the literal m * 10^-k
  pub dec : ℕ → ℕ → F
  -- `float64(n)` of an integer that is not negative
  pub of_nat : ℕ → F
  -- `int(math.Floor(x))`
  pub floor : F → ℤ
  -- `math.Abs` and `math.Min`
  pub abs : F → F
  pub minimum : F → F → F
  -- `math.Sqrt`
  pub sqrt : F → F
  -- a value written to a NUMERIC(_, 4) column, as it is read back
  pub numeric : F → F
  -- the arithmetic that Postgres does on NUMERIC values
  pub sql_add : F → F → F
  pub sql_mul : F → F → F
  pub sql_div : F → F → F

module _ {F : Type 0} ⦃fl : Float64 F⦄ where
  infixl 65 ◌⊕◌ ◌⊖◌
  infixl 70 ◌⊗◌ ◌⊘◌
  abbrev pub ◌⊕◌ : F → F → F
  x ⊕ y = fl.add x y

  abbrev pub ◌⊖◌ : F → F → F
  x ⊖ y = fl.sub x y

  abbrev pub ◌⊗◌ : F → F → F
  x ⊗ y = fl.mul x y

  abbrev pub ◌⊘◌ : F → F → F
  x ⊘ y = fl.div x y

  -- `>` and `>=`
  abbrev pub gt : F → F → Bool
  gt x y = fl.lt y x

  abbrev pub ge : F → F → Bool
  ge x y = fl.le y x

  -- `==`, which is false of NaN
  abbrev pub feq : F → F → Bool
  feq x y = fl.le x y && fl.le y x

  abbrev pub nought : F
  nought = fl.dec 0 0

infix 4 ◌≼◌
abbrev pub ◌≼◌ : {F : Type 0} ⦃fl : Float64 F⦄ → F → F → Type 0
◌≼◌ ⦃fl⦄ x y = fl.le x y ≡ true

-- Neither NaN nor an infinity: `x - x` is then a number.
abbrev pub IsFinite : {F : Type 0} ⦃fl : Float64 F⦄ → F → Type 0
IsFinite ⦃fl⦄ x = fl.le (fl.sub x x) (fl.sub x x) ≡ true

pub record IsFloat64 (F : Type 0) ⦃fl : Float64 F⦄ : Type 0 where
  -- NaN is the value that is not `<=` itself; away from it the order is total.
  pub refl_of_le : (x y : F) → x ≼ y → (x ≼ x) × (y ≼ y)
  pub le_trans : (x y z : F) → x ≼ y → y ≼ z → x ≼ z
  pub lt-eq-not-le : (x y : F) → x ≼ x → y ≼ y → fl.lt x y ≡ not (fl.le y x)
  pub le_total : (x y : F) → x ≼ x → y ≼ y → (x ≼ y) ⊎ (y ≼ x)
  pub lt_num : (x y : F) → fl.lt x y ≡ true → (x ≼ x) × (y ≼ y)
  -- finite numbers
  pub finite_num : (x : F) → IsFinite x → x ≼ x
  pub finite_between : (x y : F) → nought ≼ x → x ≼ y → IsFinite y → IsFinite x
  pub dec_finite : (m k : ℕ) → m < 10 ^ 300 → IsFinite (fl.dec m k)
  pub dec_nonneg : (m k : ℕ) → nought ≼ fl.dec m k
  -- rounding is monotone
  pub add_nonneg : (x y : F) → nought ≼ x → nought ≼ y → nought ≼ x ⊕ y
  pub le-add_right : (x y : F) → nought ≼ x → nought ≼ y → x ≼ x ⊕ y
  pub sub_nonneg : (x y : F) → IsFinite x → y ≼ x → nought ≼ x ⊖ y
  pub sub-le : (x y : F) → IsFinite x → nought ≼ y → x ⊖ y ≼ x
  pub scale_nonneg : (m k : ℕ) (x : F) → 0 < m → k ≤ 300 → nought ≼ x → nought ≼ fl.dec m k ⊗ x
  pub mul_nonneg : (x y : F) → IsFinite x → IsFinite y → nought ≼ x → nought ≼ y → nought ≼ x ⊗ y
  -- conversions
  pub of_nat_nonneg : (n : ℕ) → nought ≼ fl.of_nat n
  pub of_nat_finite : (n : ℕ) → n < 2 ^ 63 → IsFinite (fl.of_nat n)
  -- a part of a whole that is not nought
  pub div_nonneg : (x y : F) → nought ≼ x → fl.lt nought y ≡ true → IsFinite y → nought ≼ x ⊘ y
  pub div-le_one :
      (x y : F) → nought ≼ x → x ≼ y → fl.lt nought y ≡ true → IsFinite y → x ⊘ y ≼ fl.dec 1 0
  pub of_nat_mono : (m n : ℕ) → m ≤ n → fl.of_nat m ≼ fl.of_nat n
  pub floor-le : (x : F) → nought ≼ x → fl.of_nat (pos_part (fl.floor x)) ≼ x
  -- storing keeps a number finite and does not make it negative
  pub numeric_finite : (x : F) → IsFinite x → IsFinite (fl.numeric x)
  pub numeric_nonneg : (x : F) → nought ≼ x → nought ≼ fl.numeric x
