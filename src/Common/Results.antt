-- ===== src/Common/Results.antt =====
-- A Go result `(value, error)`: either the value or the error, as a caller that tests `err != nil`
-- first sees it.
use mathlib.Core.Path.{◌≡◌, refl}
use mathlib.Core.Logic.{◌⊎◌, inl, inr}
use mathlib.Core.Option.{Option, none, some}

-- The error values that the program tells apart. `no_rows` is `pgx.ErrNoRows`; `null_scan` is the
-- error of scanning a NULL into a value that is not a pointer.
pub data Error : Type 0 where
  no_rows null_scan negative_holdings not_found : Error
  no_active_clock clock_not_running clock_completed no_trading_days not_awaiting_proceed : Error
  publish_failed : Error

pub data Result {ℓ} (A : Type ℓ) : Type ℓ where
  ok : A → Result A
  err : Error → Result A

infixl 5 ◌>>=◌
abbrev pub ◌>>=◌ {ℓ κ} : {A : Type ℓ} {B : Type κ} → Result A → (A → Result B) → Result B
ok a >>= f = f a
err e >>= f = err e

module _ {ℓ} {A : Type ℓ} where
  -- `QueryRow(...).Scan(...)`: the first row, or `pgx.ErrNoRows`.
  abbrev pub query_row : Option A → Result A
  query_row none = err Error.no_rows
  query_row (some a) = ok a

  pub Result-cases : (r : Result A) → ((a : A) × (r ≡ ok a)) ⊎ ((e : Error) × (r ≡ err e))
  Result-cases (ok a) = inl (a, refl)
  Result-cases (err e) = inr (e, refl)
