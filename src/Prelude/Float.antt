-- ===== src/Prelude/Float.antt =====
-- `f64`: a value is its 64-bit pattern, and the operations of the processor are a parameter.
use Prim.Native.Nat.{ℕ}
use mathlib.Core.Bool.{Bool}

abbrev pub F64 : Type 0
F64 = ℕ

-- The IEEE 754 operations that the program calls. `lt` and `le` are false, and `eq` is false, where
-- an argument is a NaN; `of_u64` is the conversion `as f64`; `f64_max` is `f64::max`.
pub record Float : Type 0 where
  pub zero_f64 : F64
  pub add : F64 → F64 → F64
  pub sub : F64 → F64 → F64
  pub div : F64 → F64 → F64
  pub eq : F64 → F64 → Bool
  pub lt : F64 → F64 → Bool
  pub le : F64 → F64 → Bool
  pub f64_max : F64 → F64 → F64
  pub of_u64 : ℕ → F64
