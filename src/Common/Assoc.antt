-- ===== src/Common/Assoc.antt =====
-- Go maps keyed by text, as lists of entries: the newest entry of a key counts.
use mathlib.Core.Option.{Option, none, some}
use mathlib.Core.List.{List, [], ◌∷◌}
use agentic_sim_trading.Common.Text.{Text, text_eq}
use agentic_sim_trading.Common.Tests.{if◌then◌else◌}

module _ {ℓ} {V : Type ℓ} where
  -- `v, ok := m[k]`
  abbrev pub lookup : Text → List (Text × V) → Option V
  lookup k [] = none
  lookup k ((j, v) ∷ m) = if text_eq j k then some v else lookup k m

  -- `m[k]`, with the zero value of a missing key
  abbrev pub lookup_or : V → Text → List (Text × V) → V
  lookup_or zero_value k [] = zero_value
  lookup_or zero_value k ((j, v) ∷ m) = if text_eq j k then v else lookup_or zero_value k m

  -- `m[k] = v`
  abbrev pub assign : Text → V → List (Text × V) → List (Text × V)
  assign k v m = (k, v) ∷ m
