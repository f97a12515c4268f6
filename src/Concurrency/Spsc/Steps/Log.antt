-- ===== src/Concurrency/Spsc/Steps/Log.antt =====
-- The values that `head_` and `tail_` of src/concurrency/spsc_queue.h have had, and what a load returns.
use mathlib.Core.Option.{some-injective}
use native.Mathlib.Nat.{zero-mod}
use native.Mathlib.Decide.{dec_lt}
use f1_telemetry.Prelude.{
  ℕ, ◌+◌, ◌%◌, ◌^◌, ◌≤◌, ◌≡◌, refl, sym, ap, subst, ◌∙◌, some, List, [], ◌∷◌, ◌++◌, arith, length,
  length-append, get_elem?, get_elem?-append_left, get_elem?-append_last, get_elem?-bound,
}

-- The values that an index of a ring of 2^k slots has had, after `n` items.
pub record Log (k : ℕ) (values : List ℕ) (n : ℕ) : Type 0 where
  pub values_length : length values ≡ n + 1
  pub value_at : (j : ℕ) → j ≤ n → get_elem? values j ≡ some (j % 2 ^ k)

pub Log-start : (k : ℕ) → Log k (0 ∷ []) 0
Log-start k = record {
  values_length = refl;
  value_at = λ j h.
      subst (λ i. get_elem? (0 ∷ []) i ≡ some (i % 2 ^ k)) (omega (arith, h))
        (ap some (sym (zero-mod (2 ^ k))));
}

pub Log-append :
    (k : ℕ) (values : List ℕ) (n v : ℕ)
    → v ≡ (n + 1) % 2 ^ k
    → Log k values n
    → Log k (values ++ v ∷ []) (n + 1)
Log-append k values n v e h = record {
  values_length = omega (arith, length-append values (v ∷ []), h.values_length);
  value_at = λ j low. elim (dec_lt j (length values)) [
    | yes old ↦
        get_elem?-append_left values (v ∷ []) j old
        ∙ h.value_at j (omega (arith, h.values_length, old))
    | no new ↦
        let last : j ≡ n + 1 = omega (arith, low, h.values_length, new) in
        get_elem?-append_last values v j (omega (arith, h.values_length, last))
        ∙ ap some (e ∙ ap (λ (i : ℕ). i % 2 ^ k) (sym last))
  ];
}

-- What a load returns.
pub Log-load :
    (k : ℕ) (values : List ℕ) (n j v : ℕ)
    → Log k values n
    → get_elem? values j ≡ some v
    → (j ≤ n) × (v ≡ j % 2 ^ k)
Log-load k values n j v h e =
    let low : j ≤ n = omega (arith, get_elem?-bound values j v e, h.values_length) in
    (low, some-injective _ _ (sym e ∙ h.value_at j low))
