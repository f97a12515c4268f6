-- ===== src/Common/Text.antt =====
-- Strings as lists of bytes, and the `char[4]` in which src/common/types.h keeps a driver's id.
use mathlib.Core.List.{append_assoc}
use Prim.Native.Char.{code}
use Prim.Native.String.{String}
use f1_telemetry.Prelude.{
  ℕ, zero, suc, ◌≡◌, ◌↔◌, Bool, true, false, ◌&&◌, List, [], ◌∷◌, ◌++◌, arith, if◌then◌else◌, ◌==◌,
  ◌<◌, ◌≤◌, inl, inr, Bool-cases, subst, sym, ◌∙◌, length-append, ◌+◌, ◌/◌, ◌%◌, ltb, length, refl,
  ap,
}
use f1_telemetry.Prelude.Int.{ℤ, pos, negsuc}

abbrev pub Text : Type 0
Text = List ℕ

-- The bytes of an ASCII literal.
abbrev pub text : String → Text
text String.[] = []
text (String.◌∷◌ c s) = code c ∷ text s

-- `std::string_view::operator==`
unfoldable pub text_eq : Text → Text → Bool
text_eq [] [] = true
text_eq [] (b ∷ bs) = false
text_eq (a ∷ as') [] = false
text_eq (a ∷ as') (b ∷ bs) = a == b && text_eq as' bs

pub text_eq_iff : (a b : Text) → (text_eq a b ≡ true) ↔ (a ≡ b)
unfolding text_eq
text_eq_iff [] [] = ground arith
text_eq_iff [] (b ∷ bs) = ground arith
text_eq_iff (a ∷ as') [] = ground arith
text_eq_iff (a ∷ as') (b ∷ bs) = ground (arith, text_eq_iff as' bs)

-- `char driver_id[4] {}`
abbrev pub blank_id : Text
blank_id = 0 ∷ 0 ∷ 0 ∷ 0 ∷ []

-- `std::memcpy(dst, src.data(), n)`. Past its end a `std::string` holds a zero byte; a longer read
-- than that is not defined, and reads zeros here.
unfoldable pub memcpy : Text → Text → ℕ → Text
memcpy dst src zero = dst
memcpy [] src (suc n) = []
memcpy (d ∷ dst) [] (suc n) = 0 ∷ memcpy dst [] n
memcpy (d ∷ dst) (c ∷ src) (suc n) = c ∷ memcpy dst src n

-- `std::string_view(const char*)` and `std::string(const char*)`: the bytes before the first zero.
unfoldable pub c_str : Text → Text
c_str [] = []
c_str (c ∷ cs) = if c == 0 then [] else c ∷ c_str cs

-- `std::to_string` of a number that is not negative: its decimal digits, with fuel for the number.
digits_of : ℕ → ℕ → Text
digits_of zero n = []
digits_of (suc fuel) n =
    let rest = digits_of fuel (n / 10) ++ (48 + n % 10) ∷ [] in
    if ltb n 10 then (48 + n) ∷ [] else rest

unfoldable pub to_string : ℕ → Text
unfolding digits_of
to_string n = digits_of (n + 1) n

pub length-memcpy : (dst src : Text) (n : ℕ) → length (memcpy dst src n) ≡ length dst
unfolding memcpy
length-memcpy dst src zero = refl
length-memcpy [] src (suc n) = refl
length-memcpy (d ∷ dst) [] (suc n) = ap suc (length-memcpy dst [] n)
length-memcpy (d ∷ dst) (c ∷ src) (suc n) = ap suc (length-memcpy dst src n)

-- As many bytes as the destination has: the copy is the source.
pub memcpy-whole : (dst src : Text) → length src ≡ length dst → memcpy dst src (length dst) ≡ src
unfolding memcpy
memcpy-whole [] [] h = refl
memcpy-whole [] (c ∷ src) h = absurd (omega arith)
memcpy-whole (d ∷ dst) [] h = absurd (omega arith)
memcpy-whole (d ∷ dst) (c ∷ src) h = ap (◌∷◌ c) (memcpy-whole dst src (omega arith))

-- The last byte is none that a space is.
abbrev pub Ends : Text → Type 0
Ends t = (u : Text) × (c : ℕ) × (t ≡ u ++ c ∷ []) × ((c == 32) ≡ false)

pub Ends-append : (a b : Text) → Ends b → Ends (a ++ b)
Ends-append a b (u, c, e, plain) =
    (a ++ u, c, ap (λ t. a ++ t) e ∙ sym (append_assoc a u (c ∷ [])), plain)

digits_of-Ends : (fuel n : ℕ) → Ends (digits_of (suc fuel) n)
unfolding digits_of
digits_of-Ends fuel n = elim (Bool-cases (ltb n 10)) [
  | inl small ↦ ([], 48 + n, rw small refl, ground arith)
  | inr large ↦ (digits_of fuel (n / 10), 48 + n % 10, rw large refl, ground arith)
]

pub to_string-Ends : (n : ℕ) → Ends (to_string n)
unfolding to_string
to_string-Ends n = subst (λ m. Ends (digits_of m n)) {x = suc n} (omega arith) (digits_of-Ends n n)

digit-length : (fuel n : ℕ) → n < 10 → length (digits_of fuel n) ≤ 1
unfolding digits_of
digit-length zero n h = omega arith
digit-length (suc fuel) n h = ground (arith, h)

digits-length : (fuel n : ℕ) → n < 100 → length (digits_of fuel n) ≤ 2
unfolding digits_of
digits-length zero n h = omega arith
digits-length (suc fuel) n h = ground (
  arith,
  h,
  digit-length fuel (n / 10),
  length-append (digits_of fuel (n / 10)) ((48 + n % 10) ∷ []),
)

-- Below 100 there are two digits at most.
pub to_string-length : (n : ℕ) → n < 100 → length (to_string n) ≤ 2
unfolding to_string
to_string-length n h = digits-length (n + 1) n h

-- `std::to_string` of an `int`
unfoldable pub to_string_ℤ : ℤ → Text
to_string_ℤ (pos n) = to_string n
to_string_ℤ (negsuc n) = 45 ∷ to_string (n + 1)

pub to_string_ℤ-Ends : (z : ℤ) → Ends (to_string_ℤ z)
unfolding to_string_ℤ
to_string_ℤ-Ends (pos n) = to_string-Ends n
to_string_ℤ-Ends (negsuc n) = Ends-append (45 ∷ []) (to_string (n + 1)) (to_string-Ends (n + 1))
