-- ===== src/Prelude/Mask.antt =====
-- `x & (2^k - 1)` is `x % 2^k`, for every k: the mask of a ring buffer whose capacity is a power of
-- two.
use Prim.Native.Nat.{
  ℕ, zero, suc, ◌+◌, ◌-◌, ◌*◌, ◌/◌, ◌%◌, ◌^◌, ◌≤◌, ◌<◌, min, bit_and, digits, bit_and-bitwise,
}
use mathlib.Core.Path.{◌≡◌, refl, sym, ap, ◌∙◌}
use native.Mathlib.Nat.{
  zero-mod, pow-suc, mod-lt, mod-eq_of_lt, div-add-mod', add-mul-mod_self_left,
}
use native.Mathlib.Omega.{arith}

pub two_pow : (k : ℕ) → 2 ^ suc k ≡ 2 * 2 ^ k
two_pow k = omega (arith, pow-suc 2 k)

pub two_pow_pos : (k : ℕ) → 0 < 2 ^ k
two_pow_pos zero = omega arith
two_pow_pos (suc k) = omega (arith, two_pow k, two_pow_pos k)

-- A remainder by an even number, one binary digit at a time.
mod_double : (a p : ℕ) → 0 < p → a % (2 * p) ≡ a / 2 % p * 2 + a % 2
mod_double a p h =
    let r = a / 2 % p * 2 + a % 2 in
    let q = a / 2 / p in
    let whole : a ≡ r + 2 * p * q = omega (arith, div-add-mod' (a / 2) p) in
    let small : r < 2 * p = omega (arith, mod-lt (a / 2) h) in
    ap (λ (t : ℕ). t % (2 * p)) whole ∙ add-mul-mod_self_left r (2 * p) q ∙ mod-eq_of_lt small

-- `bit_and` stands for a recursion on binary digits, with its first argument for fuel.
masked_digits : (k fuel a : ℕ) → a ≤ fuel → digits (λ _. zero) min fuel a (2 ^ k - 1) ≡ a % 2 ^ k
masked_digits k zero zero h = sym (zero-mod (2 ^ k))
masked_digits k zero (suc a) h = absurd (omega arith)
masked_digits k (suc fuel) zero h = sym (zero-mod (2 ^ k))
masked_digits zero (suc fuel) (suc a) h =
    omega (arith, masked_digits zero fuel (suc a / 2) (omega arith))
masked_digits (suc k) (suc fuel) (suc a) h =
    let p = 2 ^ k in
    let pos = two_pow_pos k in
    let mask : (2 * p - 1) / 2 ≡ p - 1 = omega arith in
    let lowest : (2 * p - 1) % 2 ≡ 1 = omega arith in
    let rest = masked_digits k fuel (suc a / 2) (omega arith) in
    rw (two_pow k, mask, lowest, rest) (omega (arith, mod_double (suc a) p pos))

-- The mask of `k` ones keeps the remainder by `2 ^ k`.
pub bit_and-mask : (k a : ℕ) → bit_and a (2 ^ k - 1) ≡ a % 2 ^ k
bit_and-mask k a = bit_and-bitwise a (2 ^ k - 1) ∙ masked_digits k a a (omega arith)

-- A power of two splits at any lower exponent.
pub pow_split : (k j n : ℕ) → n ≡ k + j → 2 ^ n ≡ 2 ^ k * 2 ^ j
pow_split k zero n e = let same : n ≡ k = omega arith in rw same (omega arith)
pow_split k (suc j) n e =
    let rest = pow_split k j (k + j) refl in
    let last : n ≡ suc (k + j) = omega arith in
    rw (last, two_pow (k + j), two_pow j, rest) (omega arith)
