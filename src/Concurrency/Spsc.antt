-- ===== src/Concurrency/Spsc.antt =====
-- src/concurrency/spsc_queue.h: the ring buffer between one producer and one consumer. Here the
-- methods run one at a time; `Steps` takes each access to shared memory for a step of its own.
-- `Align` only places the fields in memory, and has no counterpart.
pub mod Ghost
pub mod Inv
pub mod Sequential
pub mod Refine
mod Tests
pub mod Steps
use Prim.Native.Nat.{bit_and}
use f1_telemetry.Prelude.{
  ℕ, ◌+◌, ◌-◌, ◌%◌, ◌^◌, Bool, true, false, Option, none, some, List, if◌then◌else◌, ◌==◌, set,
  get_elem?, replicate, [], ◌∷◌,
}
use f1_telemetry.Concurrency.Fifo.{Op, put, get, Reply}

-- The fields of `SpscQueue<T, Capacity>`; `Capacity` is `2 ^ k`, as its second assertion demands.
pub record SpscQueue {ℓ} (T : Type ℓ) : Type ℓ where
  pub tail : ℕ
  pub head_cache : ℕ
  pub head : ℕ
  pub tail_cache : ℕ
  pub buffer : List T

-- `std::size_t` addition and subtraction.
abbrev pub add_size : ℕ → ℕ → ℕ
add_size a b = (a + b) % 2 ^ 64

abbrev pub sub_size : ℕ → ℕ → ℕ
sub_size a b = (a + 2 ^ 64 - b) % 2 ^ 64

-- `Capacity - 1`
abbrev pub mask : ℕ → ℕ
mask k = 2 ^ k - 1

-- `(i + 1) & MASK`
unfoldable pub next_index : ℕ → ℕ → ℕ
next_index k i = bit_and (add_size i 1) (mask k)

module _ {ℓ} {T : Type ℓ} where
  -- The member initialisers; every slot holds the default value of `T`.
  pub fresh : ℕ → T → SpscQueue T
  fresh k default = record {
    tail = 0;
    head_cache = 0;
    head = 0;
    tail_cache = 0;
    buffer = replicate (2 ^ k) default;
  }

  pub empty : SpscQueue T → Bool
  empty q = q.head == q.tail

  pub size_approx : ℕ → SpscQueue T → ℕ
  size_approx k q = bit_and (sub_size q.tail q.head) (mask k)

  -- The end of `push`: the slot is written, and the new tail published.
  abbrev pub commit_push : ℕ → SpscQueue T → T → SpscQueue T
  commit_push k q item = record q { buffer = set q.buffer q.tail item; tail = next_index k q.tail }

  -- Both overloads of `push`; they differ in how the item is moved.
  pub push : ℕ → SpscQueue T → T → Bool × SpscQueue T
  push k q item =
      let next = next_index k q.tail in
      let refreshed : SpscQueue T = record q { head_cache = q.head } in
      if next == q.head_cache
      then (if next == refreshed.head_cache
          then (false, refreshed)
          else (true, commit_push k refreshed item))
      else (true, commit_push k q item)

  -- The end of `pop`: the new head is published.
  abbrev pub commit_pop : ℕ → SpscQueue T → SpscQueue T
  commit_pop k q = record q { head = next_index k q.head }

  -- The option is what `out` receives: `none` where `pop` returns false before the assignment, or
  -- for a read outside the buffer, which `Inv` rules out.
  pub pop : ℕ → SpscQueue T → Bool × Option T × SpscQueue T
  pop k q =
      let refreshed : SpscQueue T = record q { tail_cache = q.tail } in
      if q.head == q.tail_cache
      then (if q.head == refreshed.tail_cache
          then (false, none, refreshed)
          else (true, get_elem? q.buffer q.head, commit_pop k refreshed))
      else (true, get_elem? q.buffer q.head, commit_pop k q)

  -- A client's calls in order, with what each of them shows.
  pub run : ℕ → SpscQueue T → List (Op T) → List (Reply T)
  run k q [] = []
  run k q (put x ∷ ops) = let (done, q') = push k q x in (done, none) ∷ run k q' ops
  run k q (get ∷ ops) = let (done, out, q') = pop k q in (done, out) ∷ run k q' ops
