-- ===== src/Concurrency/Mpsc/Invariant.antt =====
-- The list that the nodes of src/concurrency/mpsc_queue.h form, in every interleaving. Since
-- addresses grow with the exchanges, the node pushed after the one at `j` is at `j + 1`.
use mathlib.Core.List.{append_assoc}
use mathlib.Core.Option.{some-injective}
use native.Mathlib.Decide.{dec_lt}
use f1_telemetry.Prelude.{
  ℕ, ◌+◌, ◌≤◌, ◌<◌, ◌≡◌, inl, inr, refl, sym, ap, ◌∙◌, true, false, none, some, [], ◌∷◌, ◌++◌,
  arith, length, length-append, get_elem?, get_elem?-append_left, get_elem?-append_last, drop,
  drop-append_le, drop-cons, Option-cases,
}
use f1_telemetry.Concurrency.Mpsc.{create}
use f1_telemetry.Concurrency.Mpsc.Steps.{
  ProducerAt, ConsumerAt, System, Step, exchanges, links, finds_none, finds, takes, exchanged,
  linked, taken, Reach, begin, next, start,
}

pub record Inv {T : Type 0} (s : System T) : Type 0 where
  pub tail_last : s.queue.tail + 1 ≡ s.queue.allocated
  pub head_le : s.queue.head ≤ s.queue.tail
  pub count_in : length s.pushed ≡ s.queue.tail
  pub count_out : length s.outs ≡ s.queue.head
  pub history : s.outs ++ drop s.queue.head s.pushed ≡ s.pushed
  pub alive : (j : ℕ) → s.queue.head ≤ j → j < s.queue.allocated → (s.queue.memory j).live ≡ true
  pub deleted : (j : ℕ) → j < s.queue.head → (s.queue.memory j).live ≡ false
  pub unallocated : (j : ℕ) → s.queue.allocated ≤ j → (s.queue.memory j).live ≡ false
  pub items :
      (j : ℕ)
      → s.queue.head ≤ j
      → j < s.queue.tail
      → get_elem? s.pushed j ≡ some (s.queue.memory (j + 1)).item
  pub links_on :
      (j n : ℕ)
      → s.queue.head ≤ j
      → j < s.queue.allocated
      → (s.queue.memory j).next ≡ some n
      → (n ≡ j + 1) × (j < s.queue.tail)
  pub pending :
      (i node prev : ℕ)
      → s.producers i ≡ ProducerAt.linking node prev
      → (node ≡ prev + 1)
        × (s.queue.head ≤ prev)
        × (prev < s.queue.tail)
        × ((s.queue.memory prev).next ≡ none)
  pub unique :
      (i j node node' prev : ℕ)
      → s.producers i ≡ ProducerAt.linking node prev
      → s.producers j ≡ ProducerAt.linking node' prev
      → i ≡ j
  pub missing :
      (j : ℕ)
      → s.queue.head ≤ j
      → j < s.queue.tail
      → (s.queue.memory j).next ≡ none
      → (i : ℕ) × (s.producers i ≡ ProducerAt.linking (j + 1) j)
  pub taking :
      (n : ℕ) → s.consumer ≡ ConsumerAt.taking n → (s.queue.memory s.queue.head).next ≡ some n

module _ {T : Type 0} where
  pub start-Inv : (default : T) → Inv (start default)
  unfolding create
  start-Inv default = record {
    tail_last = omega arith;
    head_le = omega arith;
    count_in = refl;
    count_out = refl;
    history = refl;
    alive = λ j h l. ground arith;
    deleted = λ j l. absurd (omega arith);
    unallocated = λ j l. ground arith;
    items = λ j h l. absurd (omega arith);
    links_on = λ j n h l e. ground arith;
    pending = λ i node prev e. cc;
    unique = λ i j node node' prev e f. cc;
    missing = λ j h l e. absurd (omega arith);
    taking = λ n e. cc;
  }

  tail_unlinked : (s : System T) → Inv s → (s.queue.memory s.queue.tail).next ≡ none
  tail_unlinked s inv = elim (Option-cases (s.queue.memory s.queue.tail).next) [
    | inl e ↦ e
    | inr (n, e) ↦
        let (_, below) = inv.links_on s.queue.tail n inv.head_le (omega (arith, inv.tail_last)) e in
        absurd (omega arith)
  ]

  exchanged-Inv :
      (s : System T) (i : ℕ) (value : T)
      → s.producers i ≡ ProducerAt.idle
      → Inv s
      → Inv (exchanged s i value)
  exchanged-Inv s i value at inv = record {
    tail_last = omega arith;
    head_le = omega (arith, inv.tail_last, inv.head_le);
    count_in = omega (arith, length-append s.pushed (value ∷ []), inv.count_in, inv.tail_last);
    count_out = inv.count_out;
    history =
        rw
          (drop-append_le s.queue.head s.pushed (value ∷ [])
            (omega (arith, inv.count_in, inv.head_le)))
          (sym (append_assoc s.outs (drop s.queue.head s.pushed) (value ∷ []))
            ∙ ap (λ t. t ++ value ∷ []) inv.history);
    alive = λ j h l. ground (arith, inv.alive j);
    deleted = λ j l. ground (arith, inv.deleted j, inv.head_le, inv.tail_last);
    unallocated = λ j l. ground (arith, inv.unallocated j);
    items = λ j h l. elim (dec_lt j s.queue.tail) [
      | yes old ↦ ground (
        arith,
        inv.items j h old,
        inv.tail_last,
        inv.count_in,
        get_elem?-append_left s.pushed (value ∷ []) j,
      )
      | no new ↦ ground (arith, inv.tail_last, inv.count_in, get_elem?-append_last s.pushed value j)
    ];
    links_on = λ j n h l e. ground (arith, inv.links_on j n, inv.tail_last);
    pending = λ k node prev e.
        ground (arith, inv.pending k node prev, inv.tail_last, inv.head_le, tail_unlinked s inv);
    unique = λ k j node node' prev e f. ground (
      arith,
      inv.unique k j node node' prev,
      inv.pending k node prev,
      inv.pending j node' prev,
      inv.tail_last,
    );
    missing = λ j h l e. elim (dec_lt j s.queue.tail) [
      | yes old ↦
          let (k, waiting) = inv.missing j h old (ground (arith, inv.tail_last)) in
          (k, ground arith)
      | no new ↦ (i, ground (arith, inv.tail_last))
    ];
    taking = λ n e. ground (arith, inv.taking n e, inv.tail_last, inv.head_le);
  }

  linked-Inv :
      (s : System T) (i node prev : ℕ)
      → s.producers i ≡ ProducerAt.linking node prev
      → Inv s
      → Inv (linked s i node prev)
  linked-Inv s i node prev at inv =
      let (follows, above, below, bare) = inv.pending i node prev at in
      record {
        tail_last = inv.tail_last;
        head_le = inv.head_le;
        count_in = inv.count_in;
        count_out = inv.count_out;
        history = inv.history;
        alive = λ j h l. ground (arith, inv.alive j h l);
        deleted = λ j l. ground (arith, inv.deleted j l);
        unallocated = λ j l. ground (arith, inv.unallocated j l, inv.tail_last);
        items = λ j h l. ground (arith, inv.items j h l);
        links_on = λ j n h l e. ground (arith, inv.links_on j n h l);
        pending = λ k node' prev' e.
            ground (arith, inv.pending k node' prev', inv.unique i k node node' prev);
        unique = λ k j m m' p e f. ground (arith, inv.unique k j m m' p);
        missing =
            λ j h l e. let (k, waiting) = inv.missing j h l (ground arith) in (k, ground arith);
        taking = λ n e. ground (arith, inv.taking n e);
      }

  taken-history :
      (s : System T) (n : ℕ)
      → n ≡ s.queue.head + 1
      → s.queue.head < s.queue.tail
      → Inv s
      → (s.outs ++ (s.queue.memory n).item ∷ []) ++ drop n s.pushed ≡ s.pushed
  taken-history s n follows below inv =
      let (x, here, rest) = drop-cons s.queue.head s.pushed (omega (arith, inv.count_in)) in
      let stored = inv.items s.queue.head (omega arith) below in
      let same : x ≡ (s.queue.memory (s.queue.head + 1)).item =
        some-injective _ _ (sym here ∙ stored) in
      rw (follows, append_assoc, ← same, ← rest) inv.history

  taken-Inv : (s : System T) (n : ℕ) → s.consumer ≡ ConsumerAt.taking n → Inv s → Inv (taken s n)
  taken-Inv s n at inv =
      let linked_on = inv.taking n at in
      let (follows, below) =
        inv.links_on s.queue.head n (omega arith) (omega (arith, inv.tail_last, inv.head_le))
          linked_on in
      record {
        tail_last = inv.tail_last;
        head_le = omega arith;
        count_in = inv.count_in;
        count_out =
            omega (arith, inv.count_out, length-append s.outs ((s.queue.memory n).item ∷ []));
        history = taken-history s n follows below inv;
        alive = λ j h l. ground (arith, inv.alive j);
        deleted = λ j l. ground (arith, inv.deleted j);
        unallocated = λ j l. ground (arith, inv.unallocated j l, inv.tail_last);
        items = λ j h l. ground (arith, inv.items j);
        links_on = λ j m h l e. ground (arith, inv.links_on j m);
        pending = λ k node prev e. ground (arith, inv.pending k node prev);
        unique = λ k j m m' p e f. inv.unique k j m m' p e f;
        missing = λ j h l e. inv.missing j (omega arith) l (ground arith);
        taking = λ m e. cc e;
      }

  pub Step-Inv : {s t : System T} → Step s t → Inv s → Inv t
  Step-Inv {s} (exchanges i value at) inv = exchanged-Inv s i value at inv
  Step-Inv {s} (links i node prev at) inv = linked-Inv s i node prev at inv
  Step-Inv (finds_none at e) inv = inv
  Step-Inv {s} (finds n at e) inv = record {
    tail_last = inv.tail_last;
    head_le = inv.head_le;
    count_in = inv.count_in;
    count_out = inv.count_out;
    history = inv.history;
    alive = inv.alive;
    deleted = inv.deleted;
    unallocated = inv.unallocated;
    items = inv.items;
    links_on = inv.links_on;
    pending = inv.pending;
    unique = inv.unique;
    missing = inv.missing;
    taking = λ m f. e ∙ ap some (cc f);
  }
  Step-Inv {s} (takes n at) inv = taken-Inv s n at inv

  pub Reach-Inv : {default : T} {s : System T} → Reach default s → Inv s
  Reach-Inv {default} begin = start-Inv default
  Reach-Inv (next r st) = Step-Inv st (Reach-Inv r)
