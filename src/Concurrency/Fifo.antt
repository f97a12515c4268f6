-- ===== src/Concurrency/Fifo.antt =====
-- What a bounded queue promises: a first-in first-out list that takes at most `cap` items. It is
-- the specification of src/concurrency/spsc_queue.h.
use f1_telemetry.Prelude.{
  ℕ, ◌≡◌, ap, Bool, true, false, Option, none, some, List, [], ◌∷◌, ◌++◌, ltb, if◌then◌else◌,
  length,
}

pub data Op {ℓ} (T : Type ℓ) : Type ℓ where
  put : T → Op T
  get : Op T

-- What a call shows: its Boolean result, and what it left in `out`.
abbrev pub Reply {ℓ} : Type ℓ → Type ℓ
Reply T = Bool × Option T

module _ {ℓ} {T : Type ℓ} where
  unfoldable pub offer : ℕ → List T → T → Bool × List T
  offer cap xs x = if ltb (length xs) cap then (true, xs ++ x ∷ []) else (false, xs)

  pub offer_lem :
      (cap : ℕ) (xs : List T) (x : T) (b : Bool)
      → ltb (length xs) cap ≡ b
      → offer cap xs x ≡ (b, (if b then xs ++ x ∷ [] else xs))
  unfolding offer
  offer_lem cap xs x true e = ap (λ c. if c then (true, xs ++ x ∷ []) else (false, xs)) e
  offer_lem cap xs x false e = ap (λ c. if c then (true, xs ++ x ∷ []) else (false, xs)) e

  unfoldable pub poll : List T → Bool × Option T × List T
  poll [] = (false, none, [])
  poll (x ∷ xs) = (true, some x, xs)

  unfoldable pub run : ℕ → List T → List (Op T) → List (Reply T)
  run cap xs [] = []
  run cap xs (put x ∷ ops) = let (done, xs') = offer cap xs x in (done, none) ∷ run cap xs' ops
  run cap xs (get ∷ ops) = let (done, out, xs') = poll xs in (done, out) ∷ run cap xs' ops
