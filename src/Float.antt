-- ===== src/Float.antt =====
-- `f64`. antt has no floats: the type and the operations that the program uses are a parameter, with
-- laws of IEEE 754 arithmetic on the values that occur.
use p2s.Prelude.{◌≡◌, Bool, false, arith, if◌then◌else◌, nat_eq, list_eq, length, Bytes}

pub record Float : Type 1 where
  pub F64 : Type 0
  pub zero_f : F64
  pub half_f : F64
  pub one_f : F64
  -- `a < b`, `a * b` and `is_nan`
  pub lt : F64 → F64 → Bool
  pub mul : F64 → F64 → F64
  pub is_nan : F64 → Bool
  -- `to_le_bytes` and `from_le_bytes`
  pub to_le_bytes : F64 → Bytes
  pub from_le_bytes : Bytes → F64
  pub length-to_le_bytes : (x : F64) → length (to_le_bytes x) ≡ 8
  pub from_le_bytes-to_le_bytes : (x : F64) → from_le_bytes (to_le_bytes x) ≡ x
  pub zero_not_nan : is_nan zero_f ≡ false
  pub one_not_nan : is_nan one_f ≡ false
  pub zero_lt_zero : lt zero_f zero_f ≡ false
  pub one_lt_one : lt one_f one_f ≡ false
  pub one_lt_zero : lt one_f zero_f ≡ false
  -- One times a number is this number.
  pub one_mul : (x : F64) → is_nan x ≡ false → mul one_f x ≡ x
  -- Half of a number from 0 to 1 is a number from 0 to this number.
  pub half_not_nan :
      (x : F64)
      → is_nan x ≡ false
      → lt x zero_f ≡ false
      → lt one_f x ≡ false
      → is_nan (mul x half_f) ≡ false
  pub half_nonneg :
      (x : F64)
      → is_nan x ≡ false
      → lt x zero_f ≡ false
      → lt one_f x ≡ false
      → lt (mul x half_f) zero_f ≡ false
  pub half_le_one :
      (x : F64)
      → is_nan x ≡ false
      → lt x zero_f ≡ false
      → lt one_f x ≡ false
      → lt one_f (mul x half_f) ≡ false
  pub half_le :
      (x : F64)
      → is_nan x ≡ false
      → lt x zero_f ≡ false
      → lt one_f x ≡ false
      → lt x (mul x half_f) ≡ false

module _ (fl : Float) where
  -- `x.clamp(lo, hi)`, as the standard library computes it; a NaN passes through.
  unfoldable pub clamp : fl.F64 → fl.F64 → fl.F64 → fl.F64
  clamp x lo hi =
      let raised = if fl.lt x lo then lo else x in if fl.lt hi raised then hi else raised

  -- A number from 0 to 1.
  pub record InUnit (x : fl.F64) : Type 0 where
    pub not_nan : fl.is_nan x ≡ false
    pub nonneg : fl.lt x fl.zero_f ≡ false
    pub le_one : fl.lt fl.one_f x ≡ false

  pub clamp-InUnit : (x : fl.F64) → fl.is_nan x ≡ false → InUnit (clamp x fl.zero_f fl.one_f)
  unfolding clamp
  clamp-InUnit x h =
      ground
        (arith, fl.zero_not_nan, fl.one_not_nan, fl.zero_lt_zero, fl.one_lt_one, fl.one_lt_zero)

  -- A number in the range is left as it is.
  pub clamp_of_InUnit : (x : fl.F64) → InUnit x → clamp x fl.zero_f fl.one_f ≡ x
  unfolding clamp
  clamp_of_InUnit x u = ground (arith, u.nonneg, u.le_one)

  pub half-InUnit : (x : fl.F64) → InUnit x → InUnit (fl.mul x fl.half_f)
  half-InUnit x u = record {
    not_nan = fl.half_not_nan x u.not_nan u.nonneg u.le_one;
    nonneg = fl.half_nonneg x u.not_nan u.nonneg u.le_one;
    le_one = fl.half_le_one x u.not_nan u.nonneg u.le_one;
  }
