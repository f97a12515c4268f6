-- ===== src/Concurrency/Spsc/Steps/Invariant.antt =====
-- What holds between the steps of src/concurrency/spsc_queue.h in every interleaving.
use mathlib.Core.List.{map-append, append_assoc}
use f1_telemetry.Prelude.{
  ℕ, ◌+◌, ◌^◌, ◌≤◌, ◌<◌, ◌≡◌, ap, ◌∙◌, Option, some, List, [], ◌∷◌, ◌++◌, map, arith, length,
  length-append, get_elem?, drop, drop-append_le, drop-cons,
}
use f1_telemetry.Concurrency.Spsc.{SpscQueue}
use f1_telemetry.Concurrency.Spsc.Inv.{Rep}
use f1_telemetry.Concurrency.Spsc.Steps.Log.{Log}
use f1_telemetry.Concurrency.Spsc.Steps.{Orders, ProducerAt, ConsumerAt}

module _ {T : Type 0} where
  -- What the locals of the producer say, `hc` being the count behind the cached head.
  abbrev pub Producing : ℕ → SpscQueue T → List T → ℕ → ProducerAt T → Type 0
  Producing k q pushed hc ProducerAt.idle = Unit
  Producing k q pushed hc (ProducerAt.entered item tail) = tail ≡ q.tail
  Producing k q pushed hc (ProducerAt.reloading item tail) = tail ≡ q.tail
  Producing k q pushed hc (ProducerAt.storing item tail) =
      (tail ≡ q.tail) × (length pushed + 1 < hc + 2 ^ k)
  Producing k q pushed hc (ProducerAt.publishing item tail) =
      (tail ≡ q.tail) × (length pushed + 1 < hc + 2 ^ k) × (get_elem? q.buffer q.tail ≡ some item)

  -- What the locals of the consumer say, `tc` being the count behind the cached tail.
  abbrev pub Consuming : SpscQueue T → List T → ℕ → ℕ → ConsumerAt T → Type 0
  Consuming q pushed r tc ConsumerAt.idle = Unit
  Consuming q pushed r tc (ConsumerAt.entered head) = head ≡ q.head
  Consuming q pushed r tc (ConsumerAt.reloading head) = head ≡ q.head
  Consuming q pushed r tc (ConsumerAt.reading head) = (head ≡ q.head) × (r < tc)
  Consuming q pushed r tc (ConsumerAt.publishing head out) =
      (head ≡ q.head) × (r < tc) × (out ≡ get_elem? pushed r)

-- Everything popped so far is a prefix of everything pushed so far.
pub record Inv {T : Type 0} (k : ℕ) (q : SpscQueue T) (o : Orders) (pushed : List T)
    (outs : List (Option T)) (p : ProducerAt T) (c : ConsumerAt T) : Type 0 where
  pub rep : Rep k q pushed (length outs) o.head_read o.tail_read
  pub heads_log : Log k o.heads (length outs)
  pub tails_log : Log k o.tails (length pushed)
  pub producing : Producing k q pushed o.head_read p
  pub consuming : Consuming q pushed (length outs) o.tail_read c
  pub history : map some pushed ≡ outs ++ map some (drop (length outs) pushed)

module _ {T : Type 0} where
  abbrev pub History : List T → List (Option T) → Type 0
  History pushed outs = map some pushed ≡ outs ++ map some (drop (length outs) pushed)

  pub History-push :
      (pushed : List T) (outs : List (Option T)) (x : T)
      → length outs ≤ length pushed
      → History pushed outs
      → History (pushed ++ x ∷ []) outs
  History-push pushed outs x h e =
      rw (drop-append_le (length outs) pushed (x ∷ []) h, map-append, map-append, e)
        (append_assoc outs (map some (drop (length outs) pushed)) (some x ∷ []))

  pub length-snoc :
      (outs : List (Option T)) (o : Option T) → length (outs ++ o ∷ []) ≡ length outs + 1
  length-snoc outs o = omega (arith, length-append outs (o ∷ []))

  pub History-pop :
      (pushed : List T) (outs : List (Option T)) (o : Option T)
      → length outs < length pushed
      → o ≡ get_elem? pushed (length outs)
      → History pushed outs
      → History pushed (outs ++ o ∷ [])
  History-pop pushed outs o h e past =
      let (x, here, rest) = drop-cons (length outs) pushed h in
      past ∙ ap (λ t. outs ++ map some t) rest ∙ rw (length-snoc outs o, e, here, append_assoc)
