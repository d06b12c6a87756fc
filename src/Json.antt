-- ===== src/Json.antt =====
-- serde_json as the program reads JSON with it: the parser and the accessors of a `Value`. The
-- parser is not modelled. JSON has no notation for NaN, so no number that it reads is one.
use p2s.Prelude.{◌≡◌, Bool, false, Option, some, List, nat_eq, list_eq, Result, Text}
use p2s.Float.{Float}

pub record Json (fl : Float) : Type 1 where
  pub Value : Type 0
  pub from_str : Text → Result Text Value
  -- `v.get(key)`, `v[key]` (null where there is none), and the typed views
  pub get : Value → Text → Option Value
  pub index : Value → Text → Value
  pub is_null : Value → Bool
  pub as_bool : Value → Option Bool
  pub as_f64 : Value → Option fl.F64
  pub as_str : Value → Option Text
  pub as_array : Value → Option (List Value)
  pub as_f64_not_nan : (v : Value) (x : fl.F64) → as_f64 v ≡ some x → fl.is_nan x ≡ false
