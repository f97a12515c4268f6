-- ===== src/Main/Whole/Fastest.antt =====
-- The fastest lap that the lap time consumer of src/main.cpp has claimed, apart from the other fields of
-- the race state.
use f1_telemetry.Prelude.{
  ◌≡◌, ◌⊎◌, inl, inr, refl, ap, subst, ◌∙◌, true, List, [], ◌∷◌, ◌++◌, arith, All,
}
use f1_telemetry.Prelude.Int.{ℤ, pos, negsuc}
use f1_telemetry.Float.{Float, ◌≺◌, IsOrdered}
use f1_telemetry.Common.Text.{c_str}
use f1_telemetry.Common.Types.{TelemetryFrame}
use f1_telemetry.Common.SeasonData.{driver_index_of}
use f1_telemetry.Common.RaceState.{RaceState, new_race, run_claims}
use f1_telemetry.Common.RaceState.Claims.{claim_exact, Fastest, NotFaster, run_claims-Fastest}
use f1_telemetry.Simulation.LapTimeConsumer.{claim_index, claim_frame}
use f1_telemetry.Simulation.LapTimeConsumer.Claimed.{
  claim_in, claims_of, claims_of-append, run_claims_frame,
}

module _ {F : Type 0} ⦃f : Float F⦄ where
  -- The same fastest lap.
  abbrev pub SameLap : RaceState F → RaceState F → Type 0
  SameLap a b =
      (a.fastest_lap_ms ≡ b.fastest_lap_ms) × (a.fastest_lap_holder ≡ b.fastest_lap_holder)

  claim_index-SameLap :
      (a b : RaceState F) (z : ℤ) (lap : F)
      → SameLap a b
      → SameLap (claim_index a z lap) (claim_index b z lap)
  claim_index-SameLap a b (pos i) lap h =
      ground (arith, h, claim_exact 0 a (pos i) lap, claim_exact 0 b (pos i) lap)
  claim_index-SameLap a b (negsuc n) lap h = h

  pub claim_frame-SameLap :
      (a b : RaceState F) (frame : TelemetryFrame F)
      → SameLap a b
      → SameLap (claim_frame a frame) (claim_frame b frame)
  unfolding claim_frame
  claim_frame-SameLap a b frame h = ground (
    arith,
    h,
    claim_index-SameLap a b (driver_index_of (c_str frame.driver_id)) frame.lap_time_ms h,
  )

  pub run_claims-append :
      (xs ys : List (ℤ × F)) (race : RaceState F)
      → run_claims race (xs ++ ys) ≡ run_claims (run_claims race xs) ys
  unfolding run_claims
  run_claims-append [] ys race = refl
  run_claims-append ((driver, lap) ∷ xs) ys race = run_claims-append xs ys _

  pub run_claims-SameLap :
      (frames : List (TelemetryFrame F)) (a b : RaceState F)
      → SameLap a b
      → SameLap (run_claims a (claims_of frames)) (run_claims b (claims_of frames))
  unfolding claims_of run_claims
  run_claims-SameLap [] a b h = h
  run_claims-SameLap (x ∷ frames) a b h = rw (run_claims_frame a x (claims_of frames)) (
      rw (run_claims_frame b x (claims_of frames)) (
        run_claims-SameLap frames (claim_frame a x) (claim_frame b x)
          (claim_frame-SameLap a b x h)))

  pub claim_next :
      (race : RaceState F) (taken : List (TelemetryFrame F)) (x : TelemetryFrame F)
      → run_claims race (claims_of (taken ++ x ∷ []))
        ≡ claim_frame (run_claims race (claims_of taken)) x
  unfolding claims_of run_claims
  claim_next race taken x =
      ap (run_claims race) (claims_of-append taken (x ∷ []))
      ∙ run_claims-append (claims_of taken) (claim_in x ++ []) race
      ∙ run_claims_frame (run_claims race (claims_of taken)) x []

  -- The race state names the fastest of the claims, or none is faster than the largest `float`.
  abbrev pub FastestOf : List (ℤ × F) → RaceState F → Type 0
  FastestOf claims race =
      (race.fastest_lap_holder ≡ negsuc 0)
        × (race.fastest_lap_ms ≡ f.max_value)
        × All (NotFaster f.max_value) claims
      ⊎ (before : List (ℤ × F)) × (after : List (ℤ × F)) × (claims
          ≡ before ++ (race.fastest_lap_holder, race.fastest_lap_ms) ∷ after)
        × ((race.fastest_lap_ms ≺ f.max_value) ≡ true)
        × All (NotFaster race.fastest_lap_ms) claims

  pub FastestOf-claims :
      (laws : IsOrdered F) (claims : List (ℤ × F)) → FastestOf claims (run_claims new_race claims)
  unfolding new_race
  FastestOf-claims laws claims = as_state (run_claims-Fastest laws new_race claims)
    where
      as_state : {t : RaceState F} → Fastest new_race claims t → FastestOf claims t
      as_state (inl (e, slower)) = inl (
        ap (λ (r : RaceState F). r.fastest_lap_holder) e,
        ap (λ (r : RaceState F). r.fastest_lap_ms) e,
        slower,
      )
      as_state (inr h) = inr h

  pub FastestOf-same :
      (claims : List (ℤ × F)) (a b : RaceState F)
      → SameLap a b
      → FastestOf claims b
      → FastestOf claims a
  FastestOf-same claims a b (ms, holder) (inl (none_yet, largest, slower)) =
      inl (holder ∙ none_yet, ms ∙ largest, slower)
  FastestOf-same claims a b (ms, holder) (inr h) = inr (
      subst
        (λ (p : ℤ × F).
          (before : List (ℤ × F)) × (after : List (ℤ × F)) × (claims ≡ before ++ p ∷ after)
          × ((p.1 ≺ f.max_value) ≡ true)
          × All (NotFaster p.1) claims)
        {x = (b.fastest_lap_holder, b.fastest_lap_ms)} (cc (ms, holder)) h)
