-- ===== src/Float.antt =====
-- The `float` arithmetic that the program uses, as an interface: antt has no floats. Nothing is
-- assumed of the rounded operations; the laws are those of the IEEE comparisons, with NaN the value
-- that is not `<=` itself.
pub mod Fixed
use f1_telemetry.Prelude.{ℕ, ◌≡◌, Bool, true, false, ◌⊎◌, if◌then◌else◌}
use f1_telemetry.Prelude.Int.{ℤ}

pub record Float (F : Type 0) : Type 0 where
  pub add : F → F → F
  pub sub : F → F → F
  pub mul : F → F → F
  pub div : F → F → F
  pub lt : F → F → Bool
  pub le : F → F → Bool
  pub decimal : ℕ → ℕ → F  -- `decimal m k` is the literal m / 10^k
  pub of_int : ℤ → F
  pub to_int : F → ℤ  -- the cast to `int`
  pub max_value : F  -- `std::numeric_limits<float>::max()`

module _ {F : Type 0} ⦃f : Float F⦄ where
  infixl 65 ◌⊕◌ ◌⊖◌
  infixl 70 ◌⊗◌ ◌⊘◌
  infix 50 ◌≺◌ ◌≼◌
  abbrev pub ◌⊕◌ : F → F → F
  a ⊕ b = f.add a b

  abbrev pub ◌⊖◌ : F → F → F
  a ⊖ b = f.sub a b

  abbrev pub ◌⊗◌ : F → F → F
  a ⊗ b = f.mul a b

  abbrev pub ◌⊘◌ : F → F → F
  a ⊘ b = f.div a b

  abbrev pub ◌≺◌ : F → F → Bool
  a ≺ b = f.lt a b

  abbrev pub ◌≼◌ : F → F → Bool
  a ≼ b = f.le a b

  -- `std::min`, `std::max` and `std::clamp`, with their comparisons as the standard states them.
  abbrev pub min_float : F → F → F
  min_float a b = if b ≺ a then b else a

  abbrev pub max_float : F → F → F
  max_float a b = if a ≺ b then b else a

  abbrev pub clamp : F → F → F → F
  clamp v lo hi = if v ≺ lo then lo else if hi ≺ v then hi else v

  -- A value other than NaN.
  abbrev pub IsNumber : F → Type 0
  IsNumber a = (a ≼ a) ≡ true

-- What IEEE 754 says of `<` and `<=`.
pub record IsOrdered (F : Type 0) ⦃f : Float F⦄ : Type 0 where
  pub lt_irrefl : (a : F) → (a ≺ a) ≡ false
  pub lt_trans : (a b c : F) → (a ≺ b) ≡ true → (b ≺ c) ≡ true → (a ≺ c) ≡ true
  pub le_trans : (a b c : F) → (a ≼ b) ≡ true → (b ≼ c) ≡ true → (a ≼ c) ≡ true
  pub lt_of_le_of_lt : (a b c : F) → (a ≼ b) ≡ true → (b ≺ c) ≡ true → (a ≺ c) ≡ true
  pub le_of_lt : (a b : F) → (a ≺ b) ≡ true → (a ≼ b) ≡ true
  pub not-lt_of_le : (a b : F) → (a ≼ b) ≡ true → (b ≺ a) ≡ false
  pub le_of_not-lt : (a b : F) → IsNumber a → IsNumber b → (b ≺ a) ≡ false → (a ≼ b) ≡ true
  pub numbers_of_lt : (a b : F) → (a ≺ b) ≡ true → IsNumber a × IsNumber b
  pub max_number : IsNumber f.max_value
