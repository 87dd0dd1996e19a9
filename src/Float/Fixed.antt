-- ===== src/Float/Fixed.antt =====
-- Numbers at which the tests and the examples run: integers in units of 10^-9, cut off toward zero.
-- They meet every fact that is assumed of `float64`.
use native.Mathlib.Nat.{div-le_of_le-mul, mul-le-mul_right}
use agentic_sim_trading.Common.{
  ◌≤◌, zero, suc, leb, ℕ, ◌+◌, ◌*◌, ◌/◌, ◌^◌, ◌≡◌, true, arith, if◌then◌else◌,
}
use agentic_sim_trading.Common.Int.{
  ℤ, pos, negsuc, pos_part, neg_part, sub_ℕ, ◌+ℤ◌, ◌-ℤ◌, ltb_ℤ, leb_ℤ,
}
use agentic_sim_trading.Float.{Float64, IsFloat64}

abbrev pub unit : ℕ
unit = 1_000_000_000

-- a * b / 10^9, cut off toward zero
abbrev scaled_mul : ℤ → ℤ → ℤ
scaled_mul a b =
    sub_ℕ ((pos_part a * pos_part b + neg_part a * neg_part b) / unit)
      ((pos_part a * neg_part b + neg_part a * pos_part b) / unit)

-- a / b; 0 if b is 0
abbrev scaled_div : ℤ → ℤ → ℤ
scaled_div a b =
    sub_ℕ ((pos_part a * unit) / pos_part b + (neg_part a * unit) / neg_part b)
      ((neg_part a * unit) / pos_part b + (pos_part a * unit) / neg_part b)

-- the square root of `n`, cut off, by its `bits` binary digits from the highest on
abbrev root_from : (bits n acc : ℕ) → ℕ
root_from zero n acc = acc
root_from (suc bits) n acc =
    let more = acc + 2 ^ bits in root_from bits n (if leb (more * more) n then more else acc)

abbrev fixed_sqrt : ℤ → ℤ
fixed_sqrt (pos n) = pos (root_from 64 (n * unit) 0)
fixed_sqrt (negsuc n) = pos 0

-- rounds down
abbrev floor_units : ℤ → ℤ
floor_units (pos n) = pos (n / unit)
floor_units (negsuc n) = negsuc (n / unit)

abbrev fixed_abs : ℤ → ℤ
fixed_abs (pos n) = pos n
fixed_abs (negsuc n) = pos (n + 1)

-- four decimals
abbrev store4 : ℤ → ℤ
store4 a = sub_ℕ (pos_part a / 100_000 * 100_000) (neg_part a / 100_000 * 100_000)

instance abbrev pub fixed : Float64 ℤ
fixed = record {
  add = ◌+ℤ◌;
  sub = ◌-ℤ◌;
  mul = scaled_mul;
  div = scaled_div;
  lt = ltb_ℤ;
  le = leb_ℤ;
  dec = λ m k. pos (m * unit / 10 ^ k);
  of_nat = λ n. pos (n * unit);
  floor = floor_units;
  abs = fixed_abs;
  minimum = λ a b. if leb_ℤ a b then a else b;
  sqrt = fixed_sqrt;
  numeric = store4;
  sql_add = ◌+ℤ◌;
  sql_mul = scaled_mul;
  sql_div = scaled_div;
}

le-scaled_mul :
    (m k : ℕ) (x : ℤ) → leb_ℤ (pos 0) x ≡ true → leb_ℤ (pos 0) (scaled_mul (pos m) x) ≡ true
le-scaled_mul m k (pos x) h = ground arith
le-scaled_mul m k (negsuc x) h = ground arith

floor_units-le :
    (x : ℤ) → leb_ℤ (pos 0) x ≡ true → leb_ℤ (pos (pos_part (floor_units x) * unit)) x ≡ true
floor_units-le (pos x) h = ground arith
floor_units-le (negsuc x) h = ground arith

scaled_div_nonneg :
    (x y : ℤ)
    → leb_ℤ (pos 0) x ≡ true
    → ltb_ℤ (pos 0) y ≡ true
    → leb_ℤ (y -ℤ y) (y -ℤ y) ≡ true
    → leb_ℤ (pos 0) (scaled_div x y) ≡ true
scaled_div_nonneg (pos x) (pos y) h k f = ground arith
scaled_div_nonneg (negsuc x) y h k f = ground arith
scaled_div_nonneg (pos x) (negsuc y) h k f = ground arith

scaled_le : (x y : ℕ) → x ≤ y → x * unit ≤ y * unit
scaled_le x y h = mul-le-mul_right unit h

scaled_div-le_one :
    (x y : ℤ)
    → leb_ℤ (pos 0) x ≡ true
    → leb_ℤ x y ≡ true
    → ltb_ℤ (pos 0) y ≡ true
    → leb_ℤ (y -ℤ y) (y -ℤ y) ≡ true
    → leb_ℤ (scaled_div x y) (pos unit) ≡ true
scaled_div-le_one (pos x) (pos y) h le k f =
    let part : x * unit / y ≤ unit = div-le_of_le-mul y (scaled_le x y (ground arith)) in
    ground arith
scaled_div-le_one (negsuc x) y h le k f = ground arith
scaled_div-le_one (pos x) (negsuc y) h le k f = ground arith

pub fixed-IsFloat64 : IsFloat64 ℤ
fixed-IsFloat64 = record {
  refl_of_le = ground arith;
  le_trans = ground arith;
  lt-eq-not-le = ground arith;
  le_total = ground arith;
  lt_num = ground arith;
  finite_num = ground arith;
  finite_between = ground arith;
  dec_finite = ground arith;
  dec_nonneg = ground arith;
  add_nonneg = ground arith;
  le-add_right = ground arith;
  sub_nonneg = ground arith;
  sub-le = ground arith;
  scale_nonneg = ground arith;
  mul_nonneg = ground arith;
  of_nat_nonneg = ground arith;
  of_nat_finite = ground arith;
  div_nonneg = scaled_div_nonneg;
  div-le_one = scaled_div-le_one;
  of_nat_mono = ground arith;
  floor-le = ground arith;
  numeric_finite = ground arith;
  numeric_nonneg = ground arith;
}
