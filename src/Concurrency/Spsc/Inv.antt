-- ===== src/Concurrency/Spsc/Inv.antt =====
-- What the fields of src/concurrency/spsc_queue.h stand for, and how each assignment of `push` and
-- `pop` changes that.
use native.Mathlib.Nat.{mod-lt, zero-mod, add-mod_right}
use native.Mathlib.Decide.{dec_lt}
use f1_telemetry.Prelude.{
  ℕ, ◌+◌, ◌%◌, ◌^◌, ◌≤◌, ◌<◌, ◌≡◌, ◌≢◌, ◌↔◌, sym, ap, ◌∙◌, inl, inr, arith, some, List, [], ◌∷◌,
  ◌++◌, get_elem?, get_elem?-append_left, get_elem?-append_last, get_elem?-set_self,
  get_elem?-set_ne, length, length-append, length-set, length-replicate, set,
}
use f1_telemetry.Prelude.Mask.{two_pow_pos}
use f1_telemetry.Concurrency.Spsc.{SpscQueue, fresh, next_index}
use f1_telemetry.Concurrency.Spsc.Ghost.{next_index-mod, mod_apart, mod_meet}

-- `pushed` is all that was ever pushed, `r` of it have been popped. The cached indices are those of
-- earlier counts: of `hc` items popped and of `tc` items pushed.
pub record Rep {ℓ} {T : Type ℓ} (k : ℕ) (q : SpscQueue T) (pushed : List T) (r hc tc : ℕ)
    : Type ℓ where
  pub tail_at : q.tail ≡ length pushed % 2 ^ k
  pub head_at : q.head ≡ r % 2 ^ k
  pub head_cache_at : q.head_cache ≡ hc % 2 ^ k
  pub tail_cache_at : q.tail_cache ≡ tc % 2 ^ k
  pub head_cache_old : hc ≤ r
  pub tail_cache_new : r ≤ tc
  pub tail_cache_old : tc ≤ length pushed
  pub room : length pushed < hc + 2 ^ k
  pub slots : length q.buffer ≡ 2 ^ k
  pub held :
      (i : ℕ) → r ≤ i → i < length pushed → get_elem? q.buffer (i % 2 ^ k) ≡ get_elem? pushed i

module _ {ℓ} {T : Type ℓ} (k : ℕ) where
  pub Rep-fresh : (default : T) → Rep k (fresh k default) [] 0 0 0
  unfolding fresh
  Rep-fresh default = record {
    tail_at = sym (zero-mod (2 ^ k));
    head_at = sym (zero-mod (2 ^ k));
    head_cache_at = sym (zero-mod (2 ^ k));
    tail_cache_at = sym (zero-mod (2 ^ k));
    head_cache_old = omega arith;
    tail_cache_new = omega arith;
    tail_cache_old = omega arith;
    room = omega (arith, two_pow_pos k);
    slots = length-replicate (2 ^ k) default;
    held = λ i h l. absurd (omega arith);
  }

  module _ {q : SpscQueue T} {pushed : List T} {r hc tc : ℕ} (rep : Rep k q pushed r hc tc) where
    open rep use {
      tail_at, head_at, head_cache_at, tail_cache_at, head_cache_old, tail_cache_new,
      tail_cache_old, room, slots, held,
    }

    -- A load of `head_` that returns the value it had after `j` pops, and one of `tail_` likewise.
    pub Rep-load_head :
        (j v : ℕ)
        → hc ≤ j
        → j ≤ r
        → v ≡ j % 2 ^ k
        → Rep k (record q { head_cache = v }) pushed r j tc
    Rep-load_head j v newer old e = record {
      tail_at = tail_at;
      head_at = head_at;
      head_cache_at = e;
      tail_cache_at = tail_cache_at;
      head_cache_old = old;
      tail_cache_new = tail_cache_new;
      tail_cache_old = tail_cache_old;
      room = omega arith;
      slots = slots;
      held = held;
    }

    pub Rep-load_tail :
        (j v : ℕ)
        → tc ≤ j
        → j ≤ length pushed
        → v ≡ j % 2 ^ k
        → Rep k (record q { tail_cache = v }) pushed r hc j
    Rep-load_tail j v newer old e = record {
      tail_at = tail_at;
      head_at = head_at;
      head_cache_at = head_cache_at;
      tail_cache_at = e;
      head_cache_old = head_cache_old;
      tail_cache_new = omega arith;
      tail_cache_old = old;
      room = room;
      slots = slots;
      held = held;
    }

    pub Rep-refresh_head : Rep k (record q { head_cache = q.head }) pushed r r tc
    Rep-refresh_head = Rep-load_head r q.head head_cache_old (omega arith) head_at

    pub Rep-refresh_tail : Rep k (record q { tail_cache = q.tail }) pushed r hc (length pushed)
    Rep-refresh_tail = Rep-load_tail (length pushed) q.tail tail_cache_old (omega arith) tail_at

    -- The slot at the tail holds no item that is still to be popped.
    pub tail_slot_free : (i : ℕ) → r ≤ i → i < length pushed → q.tail ≢ i % 2 ^ k
    tail_slot_free i h l e = mod_apart (2 ^ k) i (length pushed) l (omega arith) (sym e ∙ tail_at)

    pub tail_in_bounds : q.tail < length q.buffer
    tail_in_bounds = omega (arith, mod-lt (length pushed) (two_pow_pos k))

    pub head_in_bounds : q.head < length q.buffer
    head_in_bounds = omega (arith, mod-lt r (two_pow_pos k))

    pub Rep-write : (x : T) → Rep k (record q { buffer = set q.buffer q.tail x }) pushed r hc tc
    Rep-write x = record {
      tail_at = tail_at;
      head_at = head_at;
      head_cache_at = head_cache_at;
      tail_cache_at = tail_cache_at;
      head_cache_old = head_cache_old;
      tail_cache_new = tail_cache_new;
      tail_cache_old = tail_cache_old;
      room = room;
      slots = length-set q.buffer q.tail x ∙ slots;
      held = λ i h l.
          get_elem?-set_ne q.buffer q.tail (i % 2 ^ k) x (tail_slot_free i h l) ∙ held i h l;
    }

    pub tail-write : (x : T) → get_elem? (set q.buffer q.tail x) q.tail ≡ some x
    tail-write x = get_elem?-set_self q.buffer q.tail x tail_in_bounds

    held_last :
        (x : T) (i : ℕ)
        → get_elem? q.buffer q.tail ≡ some x
        → r ≤ i
        → i < length (pushed ++ x ∷ [])
        → get_elem? q.buffer (i % 2 ^ k) ≡ get_elem? (pushed ++ x ∷ []) i
    held_last x i e h l = elim (dec_lt i (length pushed)) [
      | yes old ↦ held i h old ∙ sym (get_elem?-append_left pushed (x ∷ []) i old)
      | no new ↦
          let last : i ≡ length pushed = omega (arith, length-append pushed (x ∷ [])) in
          ap (λ (t : ℕ). get_elem? q.buffer (t % 2 ^ k)) last
          ∙ ap (get_elem? q.buffer) (sym tail_at)
          ∙ e
          ∙ sym (get_elem?-append_last pushed x i last)
    ]

    advance : k ≤ 63 → next_index k q.tail ≡ (length pushed + 1) % 2 ^ k
    advance small = ap (next_index k) tail_at ∙ next_index-mod k (length pushed) small

    pub Rep-publish_tail :
        (x : T)
        → k ≤ 63
        → length pushed + 1 < hc + 2 ^ k
        → get_elem? q.buffer q.tail ≡ some x
        → Rep k (record q { tail = next_index k q.tail }) (pushed ++ x ∷ []) r hc tc
    Rep-publish_tail x small space e =
        let grown : length (pushed ++ x ∷ []) ≡ length pushed + 1 =
          omega (arith, length-append pushed (x ∷ [])) in
        record {
          tail_at = advance small ∙ ap (λ (t : ℕ). t % 2 ^ k) (sym grown);
          head_at = head_at;
          head_cache_at = head_cache_at;
          tail_cache_at = tail_cache_at;
          head_cache_old = head_cache_old;
          tail_cache_new = tail_cache_new;
          tail_cache_old = omega arith;
          room = omega arith;
          slots = slots;
          held = λ i h l. held_last x i e h l;
        }

    pub Rep-publish_head :
        k ≤ 63 → r < tc → Rep k (record q { head = next_index k q.head }) pushed (r + 1) hc tc
    Rep-publish_head small some_left = record {
      tail_at = tail_at;
      head_at = ap (next_index k) head_at ∙ next_index-mod k r small;
      head_cache_at = head_cache_at;
      tail_cache_at = tail_cache_at;
      head_cache_old = omega arith;
      tail_cache_new = omega arith;
      tail_cache_old = tail_cache_old;
      room = room;
      slots = slots;
      held = λ i h l. held i (omega arith) l;
    }

    pub read_head : r < length pushed → get_elem? q.buffer q.head ≡ get_elem? pushed r
    read_head l = ap (get_elem? q.buffer) head_at ∙ held r (omega arith) l

    -- The test of `push`: the next index is the cached head exactly when a whole round is taken.
    pub full_iff : k ≤ 63 → (next_index k q.tail ≡ q.head_cache) ↔ (length pushed + 1 ≡ hc + 2 ^ k)
    full_iff small = (
      λ e.
          elim (mod_meet (2 ^ k) hc (length pushed + 1) (omega arith) (omega arith)
            (sym head_cache_at ∙ sym e ∙ advance small)) [
              | inl none_used ↦ absurd (omega arith)
              | inr round ↦ round
            ],
      λ e.
          advance small
          ∙ ap (λ (t : ℕ). t % 2 ^ k) e
          ∙ add-mod_right hc (2 ^ k)
          ∙ sym head_cache_at,
    )

    -- The test of `pop`: the head is the cached tail exactly when all that was known is popped.
    pub empty_iff : (q.head ≡ q.tail_cache) ↔ (r ≡ tc)
    empty_iff = (
      λ e.
          elim (mod_meet (2 ^ k) r tc tail_cache_new (omega arith)
            (sym head_at ∙ e ∙ tail_cache_at)) [
              | inl same ↦ same
              | inr round ↦ absurd (omega arith)
            ],
      λ e. head_at ∙ ap (λ (t : ℕ). t % 2 ^ k) e ∙ sym tail_cache_at,
    )
