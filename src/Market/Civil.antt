-- ===== src/Market/Civil.antt =====
-- The civil dates of Go's `time.Time`, whose calendar is the Gregorian one: what `Year`, `Month` and `Day` read off a
-- day, as market-simulator/internal/market/session.go uses them. Day 0 is January 1 of year 1.
use agentic_sim_trading.Common.{
  ℕ, ◌+◌, ◌-◌, ◌*◌, ◌/◌, ◌%◌, ◌<◌, ◌≤◌, ◌≡◌, arith, ltb, leb, if◌then◌else◌, ap,
}

-- Years are counted from March here, so that a leap day is the last day of its year: 400 of them are an era of
-- 146097 days.
abbrev era_of : ℕ → ℕ
era_of day = (day + 306) / 146097

abbrev day_of_era : ℕ → ℕ
day_of_era day = (day + 306) % 146097

abbrev year_of_era : ℕ → ℕ
year_of_era d = (d - d / 1460 + d / 36524 - d / 146096) / 365

abbrev day_of_year : ℕ → ℕ
day_of_year d = let y = year_of_era d in d - (365 * y + y / 4 - y / 100)

-- March is 0
abbrev month_from_march : ℕ → ℕ
month_from_march doy = (5 * doy + 2) / 153

unfoldable pub month : ℕ → ℕ
month day =
    let m = month_from_march (day_of_year (day_of_era day)) in if ltb m 10 then m + 3 else m - 9

unfoldable pub day_of_month : ℕ → ℕ
day_of_month day =
    let doy = day_of_year (day_of_era day) in doy - (153 * month_from_march doy + 2) / 5 + 1

unfoldable pub year : ℕ → ℕ
unfolding month
year day =
    let y = year_of_era (day_of_era day) + 400 * era_of day in
    if leb (month day) 2 then y + 1 else y

year_of_era-lt : (d : ℕ) → d < 146097 → year_of_era d < 400
year_of_era-lt d h = omega arith

year_start :
    (d : ℕ) → d < 146097 → 365 * year_of_era d + year_of_era d / 4 ≤ d + year_of_era d / 100
year_start d h = omega arith

day_of_year-lt : (d : ℕ) → d < 146097 → day_of_year d < 366
day_of_year-lt d h = omega arith

month_start : (doy : ℕ) → (153 * month_from_march doy + 2) / 5 ≤ doy
month_start doy = omega arith

month_from_march-lt : (doy : ℕ) → doy < 366 → month_from_march doy < 12
month_from_march-lt doy h = omega arith

same_month_from_march :
    (m n : ℕ)
    → m < 12
    → n < 12
    → (if ltb m 10 then m + 3 else m - 9) ≡ (if ltb n 10 then n + 3 else n - 9)
    → m ≡ n
same_month_from_march m n hm hn e = ground arith

same_years : (y z e f : ℕ) → y < 400 → z < 400 → y + 400 * e ≡ z + 400 * f → (y ≡ z) × (e ≡ f)
same_years y z e f hy hz same = (omega arith, omega arith)

same_start : (a b s t : ℕ) → s ≤ a → t ≤ b → s ≡ t → a - s ≡ b - t → a ≡ b
same_start a b s t hs ht e same = omega arith

same_day_of_era :
    (a b : ℕ)
    → a < 146097
    → b < 146097
    → year_of_era a ≡ year_of_era b
    → day_of_year a ≡ day_of_year b
    → a ≡ b
same_day_of_era a b ha hb e same =
    let start : ℕ → ℕ = λ y. 365 * y + y / 4 - y / 100 in
    let sa = year_start a ha in
    let sb = year_start b hb in
    same_start a b (start (year_of_era a)) (start (year_of_era b)) (omega (arith, sa))
      (omega (arith, sb)) (ap start e) same

same_day : (a b : ℕ) → era_of a ≡ era_of b → day_of_era a ≡ day_of_era b → a ≡ b
same_day a b e d = omega arith

same_day_of_year :
    (d c : ℕ)
    → month_from_march d ≡ month_from_march c
    → d - (153 * month_from_march d + 2) / 5 + 1 ≡ c - (153 * month_from_march c + 2) / 5 + 1
    → d ≡ c
same_day_of_year d c e same =
    same_start d c ((153 * month_from_march d + 2) / 5) ((153 * month_from_march c + 2) / 5)
      (month_start d) (month_start c) (ap (λ m. (153 * m + 2) / 5) e) (omega arith)

same_march_years :
    (x y m n : ℕ) → m ≡ n → (if leb m 2 then x + 1 else x) ≡ (if leb n 2 then y + 1 else y) → x ≡ y
same_march_years x y m n e same = ground arith

-- No two days have the same date.
pub civil_injective :
    (a b : ℕ) → year a ≡ year b → month a ≡ month b → day_of_month a ≡ day_of_month b → a ≡ b
unfolding year month day_of_month
civil_injective a b ey em ed =
    let da : day_of_era a < 146097 = omega arith in
    let db : day_of_era b < 146097 = omega arith in
    let ma = month_from_march-lt _ (day_of_year-lt (day_of_era a) da) in
    let mb = month_from_march-lt _ (day_of_year-lt (day_of_era b) db) in
    let march = same_month_from_march _ _ ma mb em in
    let doy = same_day_of_year _ _ march ed in
    let march_years : year_of_era (day_of_era a) + 400 * era_of a
        ≡ year_of_era (day_of_era b) + 400 * era_of b =
      same_march_years _ _ (month a) (month b) em ey in
    let years =
      same_years _ _ _ _ (year_of_era-lt (day_of_era a) da) (year_of_era-lt (day_of_era b) db)
        march_years in
    same_day a b years.1 (same_day_of_era _ _ da db years.0 doy)
