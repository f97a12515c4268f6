-- ===== src/Concurrency/Mpsc.antt =====
-- src/concurrency/mpsc_queue.h: the linked queue of many producers and one consumer, over an
-- explicit memory of nodes. `none` is a fault: an access to a node that is not allocated or has been
-- deleted. Addresses are handed out in order and never reused.
pub mod Steps
pub mod Invariant
pub mod Safety
pub mod Refine
mod Tests
use f1_telemetry.Prelude.{
  ℕ, zero, suc, ◌+◌, Bool, true, false, Option, none, some, if◌then◌else◌, update,
}

pub record Node {ℓ} (T : Type ℓ) : Type ℓ where
  pub item : T
  pub next : Option ℕ
  pub live : Bool

-- The two pointers, with the memory that their nodes stand in.
pub record MpscQueue {ℓ} (T : Type ℓ) : Type ℓ where
  pub memory : ℕ → Node T
  pub allocated : ℕ
  pub tail : ℕ
  pub head : ℕ

is_none : Option ℕ → Bool
is_none none = true
is_none (some n) = false

module _ {ℓ} {T : Type ℓ} where
  abbrev pub new_node : T → Node T
  new_node item = record { item = item; next = none; live = true }

  -- The constructor: one sentinel, which both pointers name.
  pub create : T → MpscQueue T
  create default = record {
    memory = update (λ _. record (new_node default) { live = false }) 0 (new_node default);
    allocated = 1;
    tail = 0;
    head = 0;
  }

  -- `new Node{value}` and `tail_.exchange(new_node)`
  abbrev pub exchange : MpscQueue T → T → MpscQueue T
  exchange q value = record q {
    memory = update q.memory q.allocated (new_node value);
    allocated = q.allocated + 1;
    tail = q.allocated;
  }

  -- `prev->next.store(node)`
  abbrev pub link : MpscQueue T → ℕ → ℕ → MpscQueue T
  link q prev node = record q {
    memory = update q.memory prev (record (q.memory prev) { next = some node });
  }

  pub push : MpscQueue T → T → Option (MpscQueue T)
  push q value =
      let r = exchange q value in
      if (r.memory q.tail).live then some (link r q.tail q.allocated) else none

  -- `out = std::move(next->data); head_ = next; delete old_head`
  abbrev pub advance : MpscQueue T → ℕ → MpscQueue T
  advance q next = record q {
    memory = update q.memory q.head (record (q.memory q.head) { live = false });
    head = next;
  }

  take_next : MpscQueue T → Option ℕ → Option (Bool × Option T × MpscQueue T)
  take_next q none = some (false, none, q)
  take_next q (some next) =
      if (q.memory next).live then some (true, some (q.memory next).item, advance q next) else none

  -- The result, and what is moved to `out`.
  pub pop : MpscQueue T → Option (Bool × Option T × MpscQueue T)
  unfolding take_next
  pop q = if (q.memory q.head).live then take_next q (q.memory q.head).next else none

  pub empty : MpscQueue T → Option Bool
  unfolding is_none
  empty q = if (q.memory q.head).live then some (is_none (q.memory q.head).next) else none

  -- `while (pop(ignored)) {}` on fuel, and `delete head_`.
  pub drain : ℕ → MpscQueue T → Option (MpscQueue T)
  drain zero q = none
  drain (suc fuel) q = elim (pop q) [
    | none ↦ none
    | some (popped, out, r) ↦ elim popped [ true ↦ drain fuel r | false ↦ some r ]
  ]

  pub destroy : ℕ → MpscQueue T → Option (ℕ → Node T)
  unfolding drain
  destroy fuel q = elim (drain fuel q) [
    | none ↦ none
    | some r ↦
        if (r.memory r.head).live
        then some (update r.memory r.head (record (r.memory r.head) { live = false }))
        else none
  ]
