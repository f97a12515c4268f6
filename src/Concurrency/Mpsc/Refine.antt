-- ===== src/Concurrency/Mpsc/Refine.antt =====
-- The methods of src/concurrency/mpsc_queue.h, called one at a time, against a list of items; and
-- its destructor, which leaves no node behind.
use mathlib.Core.Option.{some-injective}
use native.Mathlib.Decide.{dec_lt}
use f1_telemetry.Prelude.{
  update, ℕ, zero, suc, ◌+◌, ◌<◌, ◌≡◌, ◌⊎◌, inl, inr, refl, sym, ap, subst, ◌∙◌, true, false, none,
  some, List, [], ◌∷◌, ◌++◌, arith, length, length-drop, drop, drop-append_le, drop-cons,
  Option-cases,
}
use f1_telemetry.Concurrency.Mpsc.{
  Node, MpscQueue, create, link, advance, push, pop, drain, destroy,
}
use f1_telemetry.Concurrency.Mpsc.Steps.{
  ProducerAt, ConsumerAt, System, exchanges, links, finds, takes, exchanged, linked, looked, taken,
  start,
}
use f1_telemetry.Concurrency.Mpsc.Invariant.{Inv, Step-Inv, start-Inv}

-- The queue holds `xs`, oldest first, and no call is under way.
pub record Holds {T : Type 0} (q : MpscQueue T) (xs : List T) : Type 0 where
  state : System T
  is : state.queue ≡ q
  inv : Inv state
  quiet : (i : ℕ) → state.producers i ≡ ProducerAt.idle
  at_rest : state.consumer ≡ ConsumerAt.idle
  rest : drop state.queue.head state.pushed ≡ xs

module _ {T : Type 0} where
  pub create-Holds : (default : T) → Holds (create default) []
  unfolding create
  create-Holds default = record {
    state = start default;
    is = refl;
    inv = start-Inv default;
    quiet = λ i. refl;
    at_rest = refl;
    rest = refl;
  }

  push_state :
      (s : System T) (value : T)
      → Inv s
      → ((i : ℕ) → s.producers i ≡ ProducerAt.idle)
      → s.consumer ≡ ConsumerAt.idle
      → (r : MpscQueue T) × (push s.queue value ≡ some r)
        × Holds r (drop s.queue.head s.pushed ++ value ∷ [])
  unfolding push
  push_state s value inv quiet at_rest =
      let s' = exchanged s 0 value in
      let inv' = Step-Inv (exchanges 0 value (quiet 0)) inv in
      let live = inv'.alive s.queue.tail inv.head_le (omega (arith, inv.tail_last)) in
      (
        link s'.queue s.queue.tail s.queue.allocated,
        rw live,
        record {
          state = linked s' 0 s.queue.allocated s.queue.tail;
          is = refl;
          inv = Step-Inv (links 0 s.queue.allocated s.queue.tail (ground arith)) inv';
          quiet = λ i. ground (arith, quiet i);
          at_rest = at_rest;
          rest =
              drop-append_le s.queue.head s.pushed (value ∷ [])
                (omega (arith, inv.count_in, inv.head_le));
        },
      )

  -- A push alone never faults, and puts its item behind those that the queue holds.
  pub linked_push_refines :
      (q : MpscQueue T) (xs : List T) (value : T)
      → Holds q xs
      → (r : MpscQueue T) × (push q value ≡ some r) × Holds r (xs ++ value ∷ [])
  linked_push_refines q xs value h =
      let (r, done, held) = push_state h.state value h.inv h.quiet h.at_rest in
      (r, ap (λ t. push t value) (sym h.is) ∙ done, rw (← h.rest) held)

  -- Whether the queue is at its end, as the link at the head shows.
  head_link :
      (s : System T)
      → Inv s
      → ((i : ℕ) → s.producers i ≡ ProducerAt.idle)
      → ((s.queue.memory s.queue.head).next ≡ none) × (s.queue.head ≡ s.queue.tail)
        ⊎ ((s.queue.memory s.queue.head).next ≡ some (s.queue.head + 1))
          × (s.queue.head < s.queue.tail)
  head_link s inv quiet = elim (Option-cases (s.queue.memory s.queue.head).next) [
    | inl e ↦ elim (dec_lt s.queue.head s.queue.tail) [
      | yes more ↦ let (i, waiting) = inv.missing s.queue.head (omega arith) more e in cc (quiet i)
      | no all ↦ inl (e, omega (arith, inv.head_le))
    ]
    | inr (n, e) ↦
        let (follows, below) =
          inv.links_on s.queue.head n (omega arith) (omega (arith, inv.tail_last, inv.head_le)) e in
        inr (e ∙ ap some follows, below)
  ]

  head_live : (s : System T) → Inv s → (s.queue.memory s.queue.head).live ≡ true
  head_live s inv = inv.alive s.queue.head (omega arith) (omega (arith, inv.tail_last, inv.head_le))

  -- What a pop alone does to a queue that holds `xs`.
  abbrev pub Popped : MpscQueue T → List T → Type 0
  Popped q [] = pop q ≡ some (false, none, q)
  Popped q (x ∷ xs) = (r : MpscQueue T) × (pop q ≡ some (true, some x, r)) × Holds r xs

  pop_end :
      (s : System T)
      → Inv s
      → (s.queue.memory s.queue.head).next ≡ none
      → pop s.queue ≡ some (false, none, s.queue)
  unfolding pop
  pop_end s inv e = rw (head_live s inv, e)

  pop_next :
      (s : System T) (x : T) (xs : List T)
      → Inv s
      → ((i : ℕ) → s.producers i ≡ ProducerAt.idle)
      → s.consumer ≡ ConsumerAt.idle
      → (s.queue.memory s.queue.head).next ≡ some (s.queue.head + 1)
      → s.queue.head < s.queue.tail
      → drop s.queue.head s.pushed ≡ x ∷ xs
      → (r : MpscQueue T) × (pop s.queue ≡ some (true, some x, r)) × Holds r xs
  unfolding pop
  pop_next s x xs inv quiet at_rest e below rest =
      let n = s.queue.head + 1 in
      let inv' = Step-Inv (finds n at_rest e) inv in
      let (y, here, after) = drop-cons s.queue.head s.pushed (omega (arith, inv.count_in)) in
      let item : (s.queue.memory n).item ≡ y =
        some-injective _ _ (sym (inv.items s.queue.head (omega arith) below) ∙ here) in
      let same : y ∷ drop n s.pushed ≡ x ∷ xs = sym after ∙ rest in
      let live = inv.alive n (omega arith) (omega (arith, inv.tail_last)) in
      (
        advance s.queue n,
        rw (head_live s inv, e, live, item) (cc same),
        record {
          state = taken (looked s n) n;
          is = refl;
          inv = Step-Inv (takes n refl) inv';
          quiet = quiet;
          at_rest = refl;
          rest = cc same;
        },
      )

  -- A pop alone never faults. On an empty queue it returns false and changes nothing; otherwise it
  -- returns true and the oldest item, and leaves the others.
  pub linked_pop_refines : (q : MpscQueue T) (xs : List T) → Holds q xs → Popped q xs
  linked_pop_refines q [] h =
      let s = h.state in
      elim (head_link s h.inv h.quiet) [
        | inl (e, at_end) ↦ subst (λ t. pop t ≡ some (false, none, t)) h.is (pop_end s h.inv e)
        | inr (e, below) ↦
            absurd
              (omega (arith, ap length h.rest, length-drop s.queue.head s.pushed, h.inv.count_in))
      ]
  linked_pop_refines q (x ∷ xs) h =
      let s = h.state in
      elim (head_link s h.inv h.quiet) [
        | inl (e, at_end) ↦
            absurd
              (omega (arith, ap length h.rest, length-drop s.queue.head s.pushed, h.inv.count_in))
        | inr (e, below) ↦
            let (r, done, held) = pop_next s x xs h.inv h.quiet h.at_rest e below h.rest in
            (r, ap pop (sym h.is) ∙ done, held)
      ]

  drain_lem :
      (fuel : ℕ) (q : MpscQueue T) (xs : List T)
      → length xs < fuel
      → Holds q xs
      → (r : MpscQueue T) × (drain fuel q ≡ some r) × Holds r []
  unfolding drain
  drain_lem zero q xs l h = absurd (omega arith)
  drain_lem (suc fuel) q [] l h = (q, rw (linked_pop_refines q [] h, drain), h)
  drain_lem (suc fuel) q (x ∷ xs) l h =
      let (r, done, held) = linked_pop_refines q (x ∷ xs) h in
      let (last, drained, empty_at_last) = drain_lem fuel r xs (omega arith) held in
      (last, rw (done, drain) drained, empty_at_last)

  last_node : (s : System T) → Inv s → drop s.queue.head s.pushed ≡ [] → s.queue.head ≡ s.queue.tail
  last_node s inv rest =
      omega (arith, ap length rest, length-drop s.queue.head s.pushed, inv.count_in, inv.head_le)

  only_head :
      (s : System T) (j : ℕ)
      → Inv s
      → drop s.queue.head s.pushed ≡ []
      → (update s.queue.memory s.queue.head
          (record (s.queue.memory s.queue.head) { live = false })
          j).live
        ≡ false
  only_head s j inv rest =
      ground (arith, last_node s inv rest, inv.deleted j, inv.unallocated j, inv.tail_last)

  -- The destructor of a queue that holds `xs` needs no more rounds than one for each item and one
  -- more; it never faults, and when it returns every node has been deleted.
  pub destroy_frees :
      (fuel : ℕ) (q : MpscQueue T) (xs : List T)
      → length xs < fuel
      → Holds q xs
      → (m : ℕ → Node T) × (destroy fuel q ≡ some m) × ((j : ℕ) → (m j).live ≡ false)
  unfolding destroy
  destroy_frees fuel q xs l h =
      let (r, drained, held) = drain_lem fuel q xs l h in
      let live =
        subst (λ t. (t.memory t.head).live ≡ true) held.is (head_live held.state held.inv) in
      (
        update r.memory r.head (record (r.memory r.head) { live = false }),
        rw (drained, destroy) (rw live),
        λ j.
            subst
              (λ (t : MpscQueue T).
                (update {A = Node T} t.memory t.head (record (t.memory t.head) { live = false })
                  j).live
                ≡ false)
              held.is (only_head held.state j held.inv held.rest),
      )
