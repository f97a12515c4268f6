-- ===== src/Prelude/Result.antt =====
-- What a call that may throw comes to.
pub data Exception : Type 0 where
  logic_error runtime_error : Exception

-- The same for a call that changes the state `S`, which an exception leaves as it is by then.
pub data Outcome {ℓ} (S : Type ℓ) : Type ℓ where
  returned : S → Outcome S
  thrown : Exception → S → Outcome S

pub data Result {ℓ} (A : Type ℓ) : Type ℓ where
  ok : A → Result A
  throws : Exception → Result A
