-- ===== src/Concurrency/Spsc/Sequential.antt =====
-- One call of `push` or `pop` of src/concurrency/spsc_queue.h on a queue that stands for known counts.
use mathlib.Core.Bool.{false≢true}
use f1_telemetry.Prelude.{
  ℕ, ◌+◌, ◌^◌, ◌≤◌, ◌<◌, ◌≡◌, refl, true, false, none, List, [], ◌∷◌, ◌++◌, arith, inl, inr,
  Bool-cases, ◌==◌, ==_iff, length, get_elem?, ◌≢◌, ◌∙◌, sym,
}
use f1_telemetry.Concurrency.Spsc.{SpscQueue, next_index, commit_push, push, pop}
use f1_telemetry.Concurrency.Spsc.Inv.{
  Rep, Rep-refresh_head, Rep-refresh_tail, Rep-write, tail-write, Rep-publish_tail,
  Rep-publish_head, read_head, full_iff, empty_iff,
}

pub eq_test : (a b : ℕ) → a ≡ b → (a == b) ≡ true
eq_test a b e = (==_iff a b).1 e

pub ne_test : (a b : ℕ) → a ≢ b → (a == b) ≡ false
ne_test a b n = ground arith

module _ {ℓ} {T : Type ℓ} (k : ℕ) (small : k ≤ 63) where
  module _ {q : SpscQueue T} {pushed : List T} {r hc tc : ℕ} (rep : Rep k q pushed r hc tc) where
    pub commit_push-Rep :
        (x : T)
        → length pushed + 1 < hc + 2 ^ k
        → Rep k (commit_push k q x) (pushed ++ x ∷ []) r hc tc
    commit_push-Rep x space =
        Rep-publish_tail k (Rep-write k rep x) x small space (tail-write k rep x)

    -- The tests of `push` and of `pop`, before and after the refresh of the cached index.
    full : length pushed + 1 ≡ hc + 2 ^ k → (next_index k q.tail == q.head_cache) ≡ true
    full e = eq_test _ _ ((full_iff k rep small).1 e)

    not_full : length pushed + 1 ≢ hc + 2 ^ k → (next_index k q.tail == q.head_cache) ≡ false
    not_full n = ne_test _ _ λ e. n ((full_iff k rep small).0 e)

    spare : (next_index k q.tail == q.head_cache) ≡ false → length pushed + 1 < hc + 2 ^ k
    spare e =
        let taken = λ (f : length pushed + 1 ≡ hc + 2 ^ k). false≢true (sym e ∙ full f) in
        omega (arith, rep.room)

    drained : r ≡ tc → (q.head == q.tail_cache) ≡ true
    drained e = eq_test _ _ ((empty_iff k rep).1 e)

    not_drained : r ≢ tc → (q.head == q.tail_cache) ≡ false
    not_drained n = ne_test _ _ λ e. n ((empty_iff k rep).0 e)

    unread : (q.head == q.tail_cache) ≡ false → r < tc
    unread e =
        let none_left = λ (f : r ≡ tc). false≢true (sym e ∙ drained f) in
        omega (arith, rep.tail_cache_new)

  module _ {q : SpscQueue T} {pushed : List T} {r hc tc : ℕ} (rep : Rep k q pushed r hc tc) where
    pub push_room :
        (x : T)
        → length pushed + 1 < r + 2 ^ k
        → ((push k q x).0 ≡ true) × (hc' : ℕ) × Rep k (push k q x).1 (pushed ++ x ∷ []) r hc' tc
    unfolding push
    push_room x space = elim (Bool-cases (next_index k q.tail == q.head_cache)) [
      | inl stale ↦
          let fresh_rep = Rep-refresh_head k rep in
          rw (stale, not_full fresh_rep (omega arith)) (refl, r, commit_push-Rep fresh_rep x space)
      | inr known ↦ rw known (refl, hc, commit_push-Rep rep x (spare rep known))
    ]

    pub push_full :
        (x : T)
        → length pushed + 1 ≡ r + 2 ^ k
        → ((push k q x).0 ≡ false) × Rep k (push k q x).1 pushed r r tc
    unfolding push
    push_full x taken =
        let round : length pushed + 1 ≡ hc + 2 ^ k = omega (arith, rep.room, rep.head_cache_old) in
        let fresh_rep = Rep-refresh_head k rep in
        rw (full rep round, full fresh_rep taken) (refl, fresh_rep)

    pub pop_unread :
        r < length pushed
        → ((pop k q).0 ≡ true)
          × ((pop k q).1 ≡ get_elem? pushed r)
          × (tc' : ℕ) × Rep k (pop k q).2 pushed (r + 1) hc tc'
    unfolding pop
    pop_unread left = elim (Bool-cases (q.head == q.tail_cache)) [
      | inl stale ↦
          let fresh_rep = Rep-refresh_tail k rep in
          rw (stale, not_drained fresh_rep (omega arith))
            (refl, read_head k rep left, length pushed, Rep-publish_head k fresh_rep small left)
      | inr known ↦
          rw known (refl, read_head k rep left, tc, Rep-publish_head k rep small (unread rep known))
    ]

    pub pop_drained :
        r ≡ length pushed
        → ((pop k q).0 ≡ false)
          × ((pop k q).1 ≡ none)
          × Rep k (pop k q).2 pushed r hc (length pushed)
    unfolding pop
    pop_drained all_read =
        let known : r ≡ tc = omega (arith, rep.tail_cache_new, rep.tail_cache_old) in
        let fresh_rep = Rep-refresh_tail k rep in
        rw (drained rep known, drained fresh_rep all_read) (refl, refl, fresh_rep)
