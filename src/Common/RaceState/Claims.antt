-- ===== src/Common/RaceState/Claims.antt =====
-- Claims of the fastest lap of src/common/race_state.h, one after the other.
use mathlib.Core.Bool.{false≢true}
use f1_telemetry.Prelude.{
  ℕ, zero, suc, ◌≡◌, ◌⊎◌, inl, inr, refl, sym, ap, subst, ◌∙◌, true, false, List, [], ◌∷◌, ◌++◌,
  arith, All, Bool-cases, if◌then◌else◌,
}
use f1_telemetry.Prelude.Int.{ℤ}
use f1_telemetry.Float.{Float, ◌≺◌, IsOrdered}
use f1_telemetry.Common.RaceState.{RaceState, claim_loop, try_claim_fastest_lap, run_claims}

module _ {F : Type 0} ⦃f : Float F⦄ where
  claim_loop-failures :
      (n : ℕ) (s : RaceState F) (driver : ℤ) (lap : F)
      → claim_loop n s driver lap s.fastest_lap_ms ≡ claim_loop 0 s driver lap s.fastest_lap_ms
  unfolding claim_loop
  claim_loop-failures zero s driver lap = refl
  claim_loop-failures (suc n) s driver lap = ground (arith, claim_loop-failures n s driver lap)

  -- However often the weak exchange fails spuriously, a claim succeeds exactly when the lap is faster
  -- than the fastest so far; it then records both the time and the driver, and otherwise changes
  -- nothing.
  pub claim_exact :
      (failures : ℕ) (s : RaceState F) (driver : ℤ) (lap : F)
      → try_claim_fastest_lap failures s driver lap ≡ (
        lap ≺ s.fastest_lap_ms,
        (if lap ≺ s.fastest_lap_ms
            then record s { fastest_lap_ms = lap; fastest_lap_holder = driver }
            else s),
      )
  unfolding try_claim_fastest_lap
  claim_exact failures s driver lap = rw (claim_loop-failures failures s driver lap) (ground arith)

  -- The lap of a claim is not faster than the given time.
  abbrev pub NotFaster : F → ℤ × F → Type 0
  NotFaster ms (driver, lap) = (lap ≺ ms) ≡ false

  -- After the claims, the state is as before them, and no lap beat its time; or it names one of the
  -- claims, its time beat the time before, and no lap of any claim beat it.
  abbrev pub Fastest : RaceState F → List (ℤ × F) → RaceState F → Type 0
  Fastest s claims t =
      (t ≡ s) × All (NotFaster s.fastest_lap_ms) claims
      ⊎ (before : List (ℤ × F)) × (after : List (ℤ × F)) × (claims
          ≡ before ++ (t.fastest_lap_holder, t.fastest_lap_ms) ∷ after)
        × ((t.fastest_lap_ms ≺ s.fastest_lap_ms) ≡ true)
        × All (NotFaster t.fastest_lap_ms) claims

  module _ (laws : IsOrdered F) where
    not-lt_of_lt : (a b : F) → (a ≺ b) ≡ true → (b ≺ a) ≡ false
    not-lt_of_lt a b h = laws.not-lt_of_le a b (laws.le_of_lt a b h)

    not-lt-lt : (a b c : F) → (a ≺ b) ≡ false → (c ≺ b) ≡ true → (a ≺ c) ≡ false
    not-lt-lt a b c n h = elim (Bool-cases (a ≺ c)) [
      | inl faster ↦ absurd (false≢true (sym n ∙ laws.lt_trans a c b faster h))
      | inr not_faster ↦ not_faster
    ]

    claimed : RaceState F → ℤ → F → RaceState F
    claimed s driver lap = record s { fastest_lap_ms = lap; fastest_lap_holder = driver }

    claim_won :
        (s : RaceState F) (driver : ℤ) (lap : F)
        → (lap ≺ s.fastest_lap_ms) ≡ true
        → (try_claim_fastest_lap 0 s driver lap).1 ≡ claimed s driver lap
    unfolding claimed
    claim_won s driver lap h = rw (claim_exact 0 s driver lap, h)

    claim_lost :
        (s : RaceState F) (driver : ℤ) (lap : F)
        → (lap ≺ s.fastest_lap_ms) ≡ false
        → (try_claim_fastest_lap 0 s driver lap).1 ≡ s
    claim_lost s driver lap h = rw (claim_exact 0 s driver lap, h)

    after_success :
        (s t : RaceState F) (driver : ℤ) (lap : F) (claims : List (ℤ × F))
        → (lap ≺ s.fastest_lap_ms) ≡ true
        → Fastest (claimed s driver lap) claims t
        → Fastest s ((driver, lap) ∷ claims) t
    unfolding claimed
    after_success s t driver lap claims h (inl (e, none_faster)) =
        subst (Fastest s ((driver, lap) ∷ claims)) (sym e)
          (inr ([], claims, refl, h, (laws.lt_irrefl lap, none_faster)))
    after_success s t driver lap claims h (inr (before, after, e, beat, none_faster)) = inr (
      (driver, lap) ∷ before,
      after,
      ap (◌∷◌ (driver, lap)) e,
      laws.lt_trans t.fastest_lap_ms lap s.fastest_lap_ms beat h,
      (not-lt_of_lt t.fastest_lap_ms lap beat, none_faster),
    )

    after_failure :
        (s t : RaceState F) (driver : ℤ) (lap : F) (claims : List (ℤ × F))
        → (lap ≺ s.fastest_lap_ms) ≡ false
        → Fastest s claims t
        → Fastest s ((driver, lap) ∷ claims) t
    after_failure s t driver lap claims h (inl (e, none_faster)) = inl (e, (h, none_faster))
    after_failure s t driver lap claims h (inr (before, after, e, beat, none_faster)) = inr (
      (driver, lap) ∷ before,
      after,
      ap (◌∷◌ (driver, lap)) e,
      beat,
      (not-lt-lt lap s.fastest_lap_ms t.fastest_lap_ms h beat, none_faster),
    )

    -- Claims made one after the other, under the laws of the order of `float`: either none of the laps
    -- is faster than the fastest before them, and nothing changes; or the recorded driver and time are
    -- those of one of the claims, the time is faster than the one before, and no lap of any of the
    -- claims is faster.
    pub run_claims-Fastest :
        (s : RaceState F) (claims : List (ℤ × F)) → Fastest s claims (run_claims s claims)
    unfolding run_claims
    run_claims-Fastest s [] = inl (refl, tt)
    run_claims-Fastest s ((driver, lap) ∷ claims) =
        let goal = λ (q : RaceState F). Fastest s ((driver, lap) ∷ claims) (run_claims q claims) in
        elim (Bool-cases (lap ≺ s.fastest_lap_ms)) [
          | inl faster ↦
              let best = claimed s driver lap in
              subst goal (sym (claim_won s driver lap faster)) (
                after_success s (run_claims best claims) driver lap claims faster
                  (run_claims-Fastest best claims))
          | inr slower ↦ subst goal (sym (claim_lost s driver lap slower)) (
              after_failure s (run_claims s claims) driver lap claims slower
                (run_claims-Fastest s claims))
        ]
