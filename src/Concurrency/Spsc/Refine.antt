-- ===== src/Concurrency/Spsc/Refine.antt =====
-- The methods of src/concurrency/spsc_queue.h, called one at a time, against a bounded FIFO queue.
use mathlib.Core.Path.{ap₂}
use f1_telemetry.Prelude.{
  ℕ, ◌+◌, ◌-◌, ◌%◌, ◌^◌, ◌≤◌, ◌<◌, ◌≡◌, refl, sym, ap, ◌∙◌, none, List, [], ◌∷◌, ◌++◌, arith, inl,
  inr, Bool-cases, ltb, ◌==◌, ==_congr, length, length-drop, drop, drop-append_le, drop-cons,
}
use f1_telemetry.Prelude.Mask.{bit_and-mask, pow_split, two_pow_pos}
use f1_telemetry.Concurrency.Fifo
use f1_telemetry.Concurrency.Fifo.{Op, put, get}
use f1_telemetry.Concurrency.Spsc.{SpscQueue, fresh, push, pop, empty, size_approx, run, sub_size}
use f1_telemetry.Concurrency.Spsc.Inv.{Rep, Rep-fresh, Rep-refresh_tail, empty_iff}
use f1_telemetry.Concurrency.Spsc.Ghost.{gap_index}
use f1_telemetry.Concurrency.Spsc.Sequential.{push_room, push_full, pop_unread, pop_drained}

-- The queue holds `xs`, oldest first.
pub record Holds {ℓ} {T : Type ℓ} (k : ℕ) (q : SpscQueue T) (xs : List T) : Type ℓ where
  pushed : List T
  popped : ℕ
  head_known : ℕ
  tail_known : ℕ
  rep : Rep k q pushed popped head_known tail_known
  rest : drop popped pushed ≡ xs

module _ {ℓ} {T : Type ℓ} (k : ℕ) where
  holds :
      {q : SpscQueue T} {xs : List T} {p : List T} {r hc tc : ℕ}
      → Rep k q p r hc tc
      → drop r p ≡ xs
      → Holds k q xs
  holds {p} {r} {hc} {tc} rep e = record {
    pushed = p;
    popped = r;
    head_known = hc;
    tail_known = tc;
    rep = rep;
    rest = e;
  }

  pub fresh-Holds : (default : T) → Holds k (fresh k default) []
  fresh-Holds default = holds (Rep-fresh k default) refl

  length-Holds :
      {q : SpscQueue T} {xs : List T} (h : Holds k q xs) → h.popped + length xs ≡ length h.pushed
  length-Holds h = omega (
    arith,
    ap length h.rest,
    length-drop h.popped h.pushed,
    h.rep.tail_cache_new,
    h.rep.tail_cache_old,
  )

  -- It holds at most `Capacity - 1` items.
  pub length-room : {q : SpscQueue T} {xs : List T} → Holds k q xs → length xs < 2 ^ k
  length-room h = omega (arith, length-Holds h, h.rep.room, two_pow_pos k)

  module _ (small : k ≤ 63) where
    -- `push` answers as the bounded queue of `Capacity - 1` items does, and leaves its content.
    pub push_refines :
        {q : SpscQueue T} {xs : List T} (x : T)
        → Holds k q xs
        → let (done, ys) = Fifo.offer (2 ^ k - 1) xs x in
          ((push k q x).0 ≡ done) × Holds k (push k q x).1 ys
    unfolding Fifo.offer
    push_refines {q} {xs} x h = elim (Bool-cases (ltb (length xs) (2 ^ k - 1))) [
      | inl fits ↦
          let (done, known, rep) = push_room k small h.rep x (ground (arith, length-Holds h)) in
          rw fits (
            done,
            holds rep (
                drop-append_le h.popped h.pushed (x ∷ []) (omega (arith, length-Holds h))
                ∙ ap (λ t. t ++ x ∷ []) h.rest),
          )
      | inr full ↦
          let (done, rep) =
            push_full k small h.rep x
              (ground (arith, length-Holds h, h.rep.room, h.rep.head_cache_old)) in
          rw full (done, holds rep h.rest)
    ]

    pub pop_refines :
        {q : SpscQueue T} (xs : List T)
        → Holds k q xs
        → let (done, out, ys) = Fifo.poll xs in
          ((pop k q).0 ≡ done) × ((pop k q).1 ≡ out) × Holds k (pop k q).2 ys
    unfolding Fifo.poll
    pop_refines [] h =
        let (done, out, rep) = pop_drained k small h.rep (omega (arith, length-Holds h)) in
        (done, out, holds rep h.rest)
    pop_refines (x ∷ xs) h =
        let left : h.popped < length h.pushed = omega (arith, length-Holds h) in
        let (done, out, known, rep) = pop_unread k small h.rep left in
        let (y, here, after) = drop-cons h.popped h.pushed left in
        let same : y ∷ drop (h.popped + 1) h.pushed ≡ x ∷ xs = sym after ∙ h.rest in
        (done, out ∙ here ∙ cc same, holds rep (cc same))

    -- For a capacity of 2^k with k at most 63, no sequence of calls of `push` and `pop` tells the ring
    -- from the bounded queue of 2^k - 1 items that holds the same.
    pub run_refines :
        (ops : List (Op T)) {q : SpscQueue T} {xs : List T}
        → Holds k q xs
        → run k q ops ≡ Fifo.run (2 ^ k - 1) xs ops
    unfolding run Fifo.run
    run_refines [] h = refl
    run_refines (put x ∷ ops) {q} {xs} h =
        let (done, next) = push_refines x h in
        ap₂ (λ b rest. (b, none) ∷ rest) done (run_refines ops next)
    run_refines (get ∷ ops) {q} {xs} h =
        let (done, out, next) = pop_refines xs h in
        ap₂ ◌∷◌ (ap₂ (λ b o. (b, o)) done out) (run_refines ops next)

    -- For a capacity of 2^k with k at most 63, and with no call under way, `size_approx` is the number of
    -- items that the queue holds, and `empty` is true exactly when that is zero.
    size_refines :
        {q : SpscQueue T} {xs : List T}
        → Holds k q xs
        → (size_approx k q ≡ length xs) × (empty q ≡ (length xs == 0))
    unfolding size_approx empty
    size_refines {q} {xs} h =
        let words = pow_split k (64 - k) 64 (omega arith) in
        let gap =
          gap_index (2 ^ k) (2 ^ (64 - k)) (2 ^ 64) h.popped (length h.pushed) words
            (two_pow_pos (64 - k)) (omega (arith, length-Holds h))
            (omega (arith, h.rep.room, h.rep.head_cache_old)) in
        (
          bit_and-mask k (sub_size q.tail q.head)
              ∙ ap₂ (λ t u. sub_size t u % 2 ^ k) h.rep.tail_at h.rep.head_at
              ∙ gap
              ∙ omega (arith, length-Holds h),
          ==_congr q.head q.tail (length xs) 0 (
            λ e. omega (arith, length-Holds h, (empty_iff k (Rep-refresh_tail k h.rep)).0 e),
            λ e. (empty_iff k (Rep-refresh_tail k h.rep)).1 (omega (arith, length-Holds h)),
          ),
        )
