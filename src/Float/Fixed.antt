-- ===== src/Float/Fixed.antt =====
-- A value of the interface `Float`, to run the model on: signed millionths, and `none` for NaN.
use f1_telemetry.Prelude.{
  ℕ, ◌*◌, ◌/◌, ◌^◌, ◌-◌, Bool, false, Option, none, some, arith, if◌then◌else◌, ◌==◌, zero, suc,
}
use f1_telemetry.Prelude.Int.{ℤ, pos, negsuc, ◌+ℤ◌, ◌-ℤ◌, ◌*ℤ◌, ltb_ℤ, leb_ℤ}
use f1_telemetry.Float.{Float, IsOrdered}

abbrev pub Fixed : Type 0
Fixed = Option ℤ

abbrev pub scale : ℕ
scale = 10 ^ 6

-- Both parts divided by a number; one of them is zero.
abbrev quotient : ℤ → ℕ → ℤ
quotient (pos n) d = pos (n / d)
quotient (negsuc n) d = if suc n / d == 0 then pos 0 else negsuc (suc n / d - 1)

abbrev both : (ℤ → ℤ → ℤ) → Fixed → Fixed → Fixed
both op (some a) (some b) = some (op a b)
both op (some a) none = none
both op none _ = none

abbrev compare_with : (ℤ → ℤ → Bool) → Fixed → Fixed → Bool
compare_with test (some a) (some b) = test a b
compare_with test (some a) none = false
compare_with test none _ = false

abbrev times : ℤ → ℤ → ℤ
times a b = quotient (a *ℤ b) scale

abbrev over : ℤ → ℤ → Fixed
over a (pos zero) = none
over a (pos (suc n)) = some (quotient (a *ℤ pos scale) (suc n))
over a (negsuc n) = some (quotient (a *ℤ negsuc (scale - 1)) (suc n))

abbrev divide : Fixed → Fixed → Fixed
divide (some a) (some b) = over a b
divide (some a) none = none
divide none _ = none

abbrev truncate : Fixed → ℤ
truncate (some a) = quotient a scale
truncate none = pos 0

instance abbrev pub fixed_float : Float Fixed
fixed_float = record {
  add = both ◌+ℤ◌;
  sub = both ◌-ℤ◌;
  mul = both times;
  div = divide;
  lt = compare_with ltb_ℤ;
  le = compare_with leb_ℤ;
  decimal = λ m k. some (pos (m * scale / 10 ^ k));
  of_int = λ n. some (n *ℤ pos scale);
  to_int = truncate;
  max_value = some (pos (10 ^ 45));
}

pub Fixed-IsOrdered : IsOrdered Fixed
Fixed-IsOrdered = ground arith
