-- ===== src/Concurrency/Spsc/Ghost.antt =====
-- Arithmetic of the indices of src/concurrency/spsc_queue.h: an index of the ring is a running
-- count modulo the capacity.
use native.Mathlib.Decide.{dec_lt}
use native.Mathlib.Nat.{
  mod-add-mod, mod-eq_of_lt, mod-lt, div-add-mod', pow-le-pow_right, lt_of_mul-lt-mul_right,
  mul-le-mul_right, add-mul-mod_self_left,
}
use f1_telemetry.Prelude.{
  ℕ, ◌+◌, ◌-◌, ◌*◌, ◌/◌, ◌%◌, ◌^◌, ◌≤◌, ◌<◌, ◌≡◌, ◌≢◌, sym, ap, ◌∙◌, ◌⊎◌, inl, inr, arith,
}
use f1_telemetry.Prelude.Mask.{bit_and-mask, two_pow_pos}
use f1_telemetry.Concurrency.Spsc.{next_index, add_size}

pub pow_small : (k : ℕ) → k ≤ 63 → 2 ^ k ≤ 2 ^ 63
pow_small k h = pow-le-pow_right {n = 2} (omega arith) h

-- The masked increment is the increment modulo the capacity.
pub next_index-mod : (k n : ℕ) → k ≤ 63 → next_index k (n % 2 ^ k) ≡ (n + 1) % 2 ^ k
unfolding next_index
next_index-mod k n h =
    let below = mod-lt n (two_pow_pos k) in
    let room : n % 2 ^ k + 1 < 2 ^ 64 = omega (arith, pow_small k h) in
    bit_and-mask k (add_size (n % 2 ^ k) 1)
    ∙ ap (λ (t : ℕ). t % 2 ^ k) (mod-eq_of_lt room)
    ∙ mod-add-mod n (2 ^ k) 1

-- Two counts less than a round apart have distinct indices.
pub mod_apart : (c a b : ℕ) → a < b → b < a + c → a % c ≢ b % c
mod_apart c a b h k e =
    let qa = div-add-mod' a c in
    let qb = div-add-mod' b c in
    let further = lt_of_mul-lt-mul_right c {m = a / c} {n = b / c} (omega arith) in
    omega (arith, mul-le-mul_right c further)

-- Of two counts at most a round apart, equal indices mean no distance or a whole round.
pub mod_meet : (c a b : ℕ) → a ≤ b → b ≤ a + c → a % c ≡ b % c → (a ≡ b) ⊎ (b ≡ a + c)
mod_meet c a b h k e = elim (dec_lt a b) [
  | yes ahead ↦ elim (dec_lt b (a + c)) [
    | yes short ↦ absurd (mod_apart c a b ahead short e)
    | no round ↦ inr (omega arith)
  ]
  | no same ↦ inl (omega arith)
]

-- `(w - r)` in machine words of a size that is a multiple of the capacity, reduced to an index.
gap_product :
    (c d r w : ℕ) → 0 < d → r ≤ w → w < r + c → (w % c + c * d - r % c) % (c * d) % c ≡ w - r
gap_product c d r w pos h l =
    let x = w % c + c * d - r % c in
    let y = x % (c * d) in
    let far = d + r / c in
    let near = d * (x / (c * d)) + w / c in
    let bound = mod-lt r {m = c} (omega arith) in
    let whole : c ≤ c * d = grind arith in
    let balance : y + c * near ≡ (w - r) + c * far =
      omega (arith, div-add-mod' x (c * d), div-add-mod' w c, div-add-mod' r c) in
    sym (add-mul-mod_self_left y c near)
    ∙ ap (λ (t : ℕ). t % c) balance
    ∙ add-mul-mod_self_left (w - r) c far
    ∙ mod-eq_of_lt (omega arith)

pub gap_index :
    (c d m r w : ℕ) → m ≡ c * d → 0 < d → r ≤ w → w < r + c → (w % c + m - r % c) % m % c ≡ w - r
gap_index c d m r w e pos h l = rw e (gap_product c d r w pos h l)
