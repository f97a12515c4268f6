-- ===== src/Concurrency/Spsc/Steps/Producer.antt =====
-- The steps of `push` of src/concurrency/spsc_queue.h keep the invariant.
use f1_telemetry.Prelude.{
  ℕ, ◌+◌, ◌%◌, ◌^◌, ◌≤◌, ◌≡◌, refl, sym, ap, subst, ◌∙◌, Option, some, List, [], ◌∷◌, ◌++◌, arith,
  length, length-append, get_elem?, get_elem?-append_left, set,
}
use f1_telemetry.Concurrency.Spsc.{SpscQueue, next_index}
use f1_telemetry.Concurrency.Spsc.Inv.{
  Rep-load_head, Rep-write, tail-write, Rep-publish_tail, full_iff,
}
use f1_telemetry.Concurrency.Spsc.Steps.Log.{Log, Log-append, Log-load}
use f1_telemetry.Concurrency.Spsc.Steps.{Orders, ProducerAt, ConsumerAt, Produce}
use f1_telemetry.Concurrency.Spsc.Steps.Invariant.{Producing, Consuming, Inv, History-push}

module _ {T : Type 0} (k : ℕ) (small : k ≤ 63) where
  -- The consumer's locals outlive every step of the producer.
  Consuming-grow :
      (q : SpscQueue T) (pushed : List T) (r tc : ℕ) (c : ConsumerAt T) (x : T) (i : ℕ)
      → tc ≤ length pushed
      → Consuming q pushed r tc c
      → Consuming (record q { tail = i }) (pushed ++ x ∷ []) r tc c
  Consuming-grow q pushed r tc ConsumerAt.idle x i h f = f
  Consuming-grow q pushed r tc (ConsumerAt.publishing head out) x i h (at, left, e) =
      (at, left, e ∙ sym (get_elem?-append_left pushed (x ∷ []) r (omega arith)))
  Consuming-grow q pushed r tc _ x i h f = f

  -- The other assignments of the producer leave all that the consumer has read.
  Consuming-keep :
      (q : SpscQueue T) (pushed : List T) (r tc : ℕ) (c : ConsumerAt T) (i : ℕ) (b : List T)
      → Consuming q pushed r tc c
      → Consuming (record q { head_cache = i; buffer = b }) pushed r tc c
  Consuming-keep q pushed r tc ConsumerAt.idle i b f = f
  Consuming-keep q pushed r tc _ i b f = f

  with_producer :
      {q : SpscQueue T} {o : Orders} {pushed : List T} {outs : List (Option T)}
      {p p' : ProducerAt T} {c : ConsumerAt T}
      → Inv k q o pushed outs p c
      → Producing k q pushed o.head_read p'
      → Inv k q o pushed outs p' c
  with_producer i producing = record {
    rep = i.rep;
    heads_log = i.heads_log;
    tails_log = i.tails_log;
    producing = producing;
    consuming = i.consuming;
    history = i.history;
  }

  head_loaded :
      {q : SpscQueue T} {o : Orders} {pushed : List T} {outs : List (Option T)}
      {p p' : ProducerAt T} {c : ConsumerAt T} (i : Inv k q o pushed outs p c) (j head : ℕ)
      → o.head_read ≤ j
      → get_elem? o.heads j ≡ some head
      → Producing k (record q { head_cache = head }) pushed j p'
      → Inv k (record q { head_cache = head }) (record o { head_read = j }) pushed outs p' c
  head_loaded {q} {o} {pushed} {outs} {c} i j head newer at producing =
      let (old, v) = Log-load k o.heads (length outs) j head i.heads_log at in
      record {
        rep = Rep-load_head k i.rep j head newer old v;
        heads_log = i.heads_log;
        tails_log = i.tails_log;
        producing = producing;
        consuming = Consuming-keep q pushed (length outs) o.tail_read c head q.buffer i.consuming;
        history = i.history;
      }

  pub Produce-Inv :
      {q q' : SpscQueue T} {o o' : Orders} {pushed pushed' : List T} {outs : List (Option T)}
      {p p' : ProducerAt T} {c : ConsumerAt T}
      → Produce k q o pushed p q' o' pushed' p'
      → Inv k q o pushed outs p c
      → Inv k q' o' pushed' outs p' c
  Produce-Inv (Produce.call item) i = with_producer i refl
  Produce-Inv {o} {pushed} (Produce.roomy n) i =
      let apart = λ (e : length pushed + 1 ≡ o.head_read + 2 ^ k).
        n (ap (next_index k) i.producing ∙ (full_iff k i.rep small).1 e) in
      with_producer i (i.producing, omega (arith, i.rep.room))
  Produce-Inv (Produce.stale e) i = with_producer i i.producing
  Produce-Inv (Produce.refuse j head newer at e) i = head_loaded i j head newer at tt
  Produce-Inv {q} {pushed} {outs} (Produce.reload j head newer at n) i =
      let (old, v) = Log-load k _ (length outs) j head i.heads_log at in
      let rep = Rep-load_head k i.rep j head newer old v in
      let apart = λ (e : length pushed + 1 ≡ j + 2 ^ k).
        n (ap (next_index k) i.producing ∙ (full_iff k rep small).1 e) in
      head_loaded i j head newer at (i.producing, omega (arith, rep.room))
  Produce-Inv {q} {o} {pushed} {outs} {c} (Produce.store {item} {tail}) i =
      let (at, space) = i.producing in
      let b = set q.buffer q.tail item in
      rw at (record {
        rep = Rep-write k i.rep item;
        heads_log = i.heads_log;
        tails_log = i.tails_log;
        producing = (refl, space, tail-write k i.rep item);
        consuming = Consuming-keep q pushed (length outs) o.tail_read c q.head_cache b i.consuming;
        history = i.history;
      })
  Produce-Inv {q} {o} {pushed} {outs} {c} (Produce.publish {item} {tail}) i =
      let (at, space, stored) = i.producing in
      let rep = Rep-publish_tail k i.rep item small space stored in
      let grown = length-append pushed (item ∷ []) in
      rw at (record {
        rep = rep;
        heads_log = i.heads_log;
        tails_log = subst (Log k (o.tails ++ next_index k q.tail ∷ [])) (omega (arith, grown)) (
            Log-append k o.tails (length pushed) (next_index k q.tail)
              (rep.tail_at ∙ ap (λ (l : ℕ). l % 2 ^ k) (omega (arith, grown))) i.tails_log);
        producing = tt;
        consuming =
            Consuming-grow q pushed (length outs) o.tail_read c item (next_index k q.tail)
              i.rep.tail_cache_old i.consuming;
        history =
            History-push pushed outs item
              (omega (arith, i.rep.tail_cache_new, i.rep.tail_cache_old)) i.history;
      })
