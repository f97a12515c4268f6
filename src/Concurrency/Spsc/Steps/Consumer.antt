-- ===== src/Concurrency/Spsc/Steps/Consumer.antt =====
-- The steps of `pop` of src/concurrency/spsc_queue.h keep the invariant, and so does every interleaving.
use f1_telemetry.Prelude.{
  ℕ, ◌≤◌, ◌<◌, ◌≡◌, refl, sym, ap, subst, ◌∙◌, Option, some, List, [], ◌∷◌, ◌++◌, arith, length,
  get_elem?,
}
use f1_telemetry.Concurrency.Spsc.{SpscQueue, next_index}
use f1_telemetry.Concurrency.Spsc.Inv.{
  Rep, Rep-fresh, Rep-load_tail, Rep-publish_head, read_head, empty_iff,
}
use f1_telemetry.Concurrency.Spsc.Steps.Log.{Log, Log-start, Log-append, Log-load}
use f1_telemetry.Concurrency.Spsc.Steps.{
  Orders, ProducerAt, ConsumerAt, Consume, System, Step, produces, consumes, Reach, begin, next,
}
use f1_telemetry.Concurrency.Spsc.Steps.Invariant.{
  Producing, Consuming, Inv, History-pop, length-snoc,
}
use f1_telemetry.Concurrency.Spsc.Steps.Producer.{Produce-Inv}

module _ {T : Type 0} (k : ℕ) (small : k ≤ 63) where
  -- The producer's locals outlive every step of the consumer.
  Producing-keep :
      (q : SpscQueue T) (pushed : List T) (hc : ℕ) (p : ProducerAt T) (h t : ℕ)
      → Producing k q pushed hc p
      → Producing k (record q { head = h; tail_cache = t }) pushed hc p
  Producing-keep q pushed hc ProducerAt.idle h t f = f
  Producing-keep q pushed hc _ h t f = f

  with_consumer :
      {q : SpscQueue T} {o : Orders} {pushed : List T} {outs : List (Option T)} {p : ProducerAt T}
      {c c' : ConsumerAt T}
      → Inv k q o pushed outs p c
      → Consuming q pushed (length outs) o.tail_read c'
      → Inv k q o pushed outs p c'
  with_consumer i consuming = record {
    rep = i.rep;
    heads_log = i.heads_log;
    tails_log = i.tails_log;
    producing = i.producing;
    consuming = consuming;
    history = i.history;
  }

  tail_loaded :
      {q : SpscQueue T} {o : Orders} {pushed : List T} {outs : List (Option T)} {p : ProducerAt T}
      {c c' : ConsumerAt T} (i : Inv k q o pushed outs p c) (j tail : ℕ)
      → o.tail_read ≤ j
      → get_elem? o.tails j ≡ some tail
      → Consuming (record q { tail_cache = tail }) pushed (length outs) j c'
      → Inv k (record q { tail_cache = tail }) (record o { tail_read = j }) pushed outs p c'
  tail_loaded {q} {o} {pushed} {outs} {p} i j tail newer at consuming =
      let (old, v) = Log-load k o.tails (length pushed) j tail i.tails_log at in
      record {
        rep = Rep-load_tail k i.rep j tail newer old v;
        heads_log = i.heads_log;
        tails_log = i.tails_log;
        producing = Producing-keep q pushed o.head_read p q.head tail i.producing;
        consuming = consuming;
        history = i.history;
      }

  pub Consume-Inv :
      {q q' : SpscQueue T} {o o' : Orders} {pushed : List T} {outs outs' : List (Option T)}
      {p : ProducerAt T} {c c' : ConsumerAt T}
      → Consume k q o outs c q' o' outs' c'
      → Inv k q o pushed outs p c
      → Inv k q' o' pushed outs' p c'
  Consume-Inv Consume.call i = with_consumer i refl
  Consume-Inv {o} {outs} (Consume.known n) i =
      let apart = λ (e : length outs ≡ o.tail_read). n (i.consuming ∙ (empty_iff k i.rep).1 e) in
      with_consumer i (i.consuming, omega (arith, i.rep.tail_cache_new))
  Consume-Inv (Consume.stale e) i = with_consumer i i.consuming
  Consume-Inv (Consume.refuse j tail newer at e) i = tail_loaded i j tail newer at tt
  Consume-Inv {pushed} {outs} (Consume.reload j tail newer at n) i =
      let (old, v) = Log-load k _ (length pushed) j tail i.tails_log at in
      let rep = Rep-load_tail k i.rep j tail newer old v in
      let apart = λ (e : length outs ≡ j). n (i.consuming ∙ (empty_iff k rep).1 e) in
      tail_loaded i j tail newer at (i.consuming, omega (arith, rep.tail_cache_new))
  Consume-Inv {q} {pushed} {outs} (Consume.read {head}) i =
      let (at, left) = i.consuming in
      let unread : length outs < length pushed = omega (arith, i.rep.tail_cache_old) in
      with_consumer i (at, left, ap (get_elem? q.buffer) at ∙ read_head k i.rep unread)
  Consume-Inv {q} {o} {pushed} {outs} {p} (Consume.publish {head} {out}) i =
      let (at, left, e) = i.consuming in
      let unread : length outs < length pushed = omega (arith, i.rep.tail_cache_old) in
      let rep = Rep-publish_head k i.rep small left in
      let grown = length-snoc outs out in
      rw at (record {
        rep =
            subst
              (λ r.
                Rep k (record q { head = next_index k q.head }) pushed r o.head_read o.tail_read)
              (sym grown) rep;
        heads_log =
            subst (Log k (o.heads ++ next_index k q.head ∷ [])) (sym grown)
              (Log-append k o.heads (length outs) (next_index k q.head) rep.head_at i.heads_log);
        tails_log = i.tails_log;
        producing =
            Producing-keep q pushed o.head_read p (next_index k q.head) q.tail_cache i.producing;
        consuming = tt;
        history = History-pop pushed outs out unread e i.history;
      })

  pub Step-Inv :
      {s t : System T}
      → Step k s t
      → Inv k s.queue s.orders s.pushed s.outs s.producer s.consumer
      → Inv k t.queue t.orders t.pushed t.outs t.producer t.consumer
  Step-Inv (produces m) i = Produce-Inv k small m i
  Step-Inv (consumes m) i = Consume-Inv m i

  pub Reach-Inv :
      (default : T) {s : System T}
      → Reach k default s
      → Inv k s.queue s.orders s.pushed s.outs s.producer s.consumer
  Reach-Inv default begin = record {
    rep = Rep-fresh k default;
    heads_log = Log-start k;
    tails_log = Log-start k;
    producing = tt;
    consuming = tt;
    history = refl;
  }
  Reach-Inv default (next r m) = Step-Inv m (Reach-Inv default r)
