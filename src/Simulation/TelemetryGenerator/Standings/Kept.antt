-- ===== src/Simulation/TelemetryGenerator/Standings/Kept.antt =====
-- What holds of every driver after a `tick` of src/simulation/telemetry_generator.cpp.
use f1_telemetry.Prelude.{ℕ, ◌+◌, Bool, false, List, [], ◌∷◌, length, All, All-append, All-set}
use f1_telemetry.Float.{Float}
use f1_telemetry.Common.Types.{DriverState, TrackProfile, default_state}
use f1_telemetry.Simulation.TelemetryGenerator.{TelemetryGenerator, advance, advance_all}
use f1_telemetry.Simulation.TelemetryGenerator.Standings.{
  placed, assign_from, with_drs, drs_from, place_all, update_positions_and_drs, tick,
}

module _ {F : Type 0} ⦃f : Float F⦄ (P : DriverState F → Type 0) where
  -- The assignments of positions, gaps and DRS keep the property.
  abbrev pub KeptByRanking : Type 0
  KeptByRanking =
      ((track : TrackProfile F) (p : ℕ) (leader s : DriverState F)
        → P s
        → P (placed track p leader s))
      × ((s : DriverState F) (drs : Bool) → P s → P (with_drs s drs))

  All-assign_from :
      (track : TrackProfile F) (first p : ℕ) (idx : List ℕ) (states : List (DriverState F))
      → KeptByRanking
      → All P states
      → All P (assign_from track first p idx states)
  unfolding assign_from
  All-assign_from track first p [] states kept all = all
  All-assign_from track first p (i ∷ idx) states kept all =
      All-assign_from track first (p + 1) idx _ kept
        (All-set P states i _ (default_state 0) all (kept.0 track p _ _))

  All-drs_from :
      (prev : ℕ) (idx : List ℕ) (states : List (DriverState F))
      → KeptByRanking
      → All P states
      → All P (drs_from prev idx states)
  unfolding drs_from
  All-drs_from prev [] states kept all = all
  All-drs_from prev (i ∷ idx) states kept all =
      All-drs_from i idx _ kept (All-set P states i _ (default_state 0) all (kept.1 _ _))

  All-place_all :
      (track : TrackProfile F) (idx : List ℕ) (states : List (DriverState F))
      → KeptByRanking
      → All P states
      → All P (place_all track idx states)
  unfolding place_all
  All-place_all track [] states kept all = all
  All-place_all track (first ∷ idx) states kept all = All-drs_from first idx _ kept (
      All-set P _ first _ (default_state 0)
        (All-assign_from track first 0 (first ∷ idx) states kept all) (kept.1 _ false))

module _ {F : Type 0} ⦃f : Float F⦄ (P Q : DriverState F → Type 0) {G : Type 0}
    (sample : G → F × G) where
  -- `tick` makes of a driver with the first property one with the second.
  abbrev pub MadeByAdvance : Type 0
  MadeByAdvance =
      (track : TrackProfile F) (s : DriverState F) (now : ℕ) (rng : G) (lap : ℕ) (over : Bool)
      → P s
      → Q (advance sample track s now rng lap over).0

  All-advance_all :
      (rest : List (DriverState F)) (g : TelemetryGenerator F G) (clock : ℕ → ℕ)
      → MadeByAdvance
      → All Q g.states
      → All P rest
      → All Q (advance_all sample g rest clock).states
  unfolding advance_all
  All-advance_all [] g clock made done all = done
  All-advance_all (s ∷ rest) g clock made done (here, all) =
      All-advance_all rest _ clock made
        (All-append Q g.states _ done
          (made g.track s (clock (length rest)) g.rng g.race_lap g.race_finished here, tt))
        all

  pub All-tick :
      (g : TelemetryGenerator F G) (clock : ℕ → ℕ)
      → MadeByAdvance
      → KeptByRanking Q
      → All P g.states
      → All Q (tick sample g clock).states
  unfolding tick update_positions_and_drs
  All-tick g clock made kept all =
      All-place_all Q g.track _ _ kept
        (All-advance_all g.states (record g { states = [] }) clock made tt all)

pub All-ranking :
    {F : Type 0} ⦃f : Float F⦄ (P : DriverState F → Type 0)
    → (track : TrackProfile F) (states : List (DriverState F)) → KeptByRanking P
    → All P states
    → All P (update_positions_and_drs track states)
unfolding update_positions_and_drs
All-ranking P track states kept all = All-place_all P track _ states kept all
