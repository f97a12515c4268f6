-- ===== src/Main/Published.antt =====
-- The standings that src/main.cpp publishes after a tick.
use f1_telemetry.Prelude.{
  ◌++◌, ℕ, zero, suc, ◌+◌, ◌<◌, ◌≤◌, ◌≡◌, ◌⊎◌, inl, inr, refl, subst, Bool, false, none, some, List,
  [], ◌∷◌, arith, length, All, Bool-cases, ◌==◌, ==_iff,
}
use f1_telemetry.Prelude.Int.{pos}
use f1_telemetry.Prelude.Result.{ok, returned}
use f1_telemetry.Float.{Float}
use f1_telemetry.Common.RaceState.{set_lap}
use f1_telemetry.Common.Types.{DriverState, TrackProfile}
use f1_telemetry.Common.Leaderboard.{Leaderboard, update, at, at_position}
use f1_telemetry.Common.Leaderboard.Position.{at_position-FirstAt}
use f1_telemetry.Simulation.TelemetryGenerator.Standings.{driver_at}
use f1_telemetry.Simulation.TelemetryGenerator.Standings.Positions.{Placed, Ranked}
use f1_telemetry.Simulation.TelemetryGenerator.Standings.Sorted.{All-unsort, InOrder, sort-InOrder}
use f1_telemetry.Main.{Program, publish, jobs_of, sorted_standings, by_position}

module _ {F : Type 0} ⦃f : Float F⦄ where
  All-driver_at :
      (P : DriverState F → Type 0) (states : List (DriverState F)) (i : ℕ)
      → i < length states
      → All P states
      → P (driver_at states i)
  All-driver_at P [] i h all = absurd (omega (arith, h))
  All-driver_at P (s ∷ states) zero h (here, all) = here
  All-driver_at P (s ∷ states) (suc i) h (here, all) =
      All-driver_at P states i (omega (arith, h)) all

  -- The order reaches every position from p + 1 to p and its length.
  pub driver_for :
      (idx : List ℕ) (states : List (DriverState F)) (p q : ℕ)
      → All (λ i. i < length states) idx
      → Placed p idx states
      → p < q
      → q ≤ p + length idx
      → (i : ℕ) × (i < length states) × ((driver_at states i).position ≡ q)
  driver_for [] states p q below placed l u = absurd (omega (arith, l, u))
  driver_for (i ∷ idx) states p q (here, below) (at_p, placed) l u =
      elim (Bool-cases (p + 1 == q)) [
        | inl e ↦ (i, here, omega (arith, at_p, (==_iff (p + 1) q).0 e))
        | inr n ↦
            driver_for idx states (p + 1) q below placed (ground (arith, l, n)) (omega (arith, u))
      ]

  -- If the standings hold a driver at the position, `at_position` finds one.
  found_at :
      (b : Leaderboard F) (q now : ℕ) (states : List (DriverState F)) (i : ℕ)
      → b.standings ≡ sorted_standings states
      → i < length states
      → (driver_at states i).position ≡ q
      → (at_position b (pos q) now).position ≡ q
  unfolding sorted_standings
  found_at b q now states i e below here = elim (at_position-FirstAt b (pos q) now) [
    | inl (same, nobody) ↦
        let nobody_sorted = subst (All (λ s. at s (pos q) ≡ false)) e nobody in
        let nobody_at =
          All-driver_at (λ s. at s (pos q) ≡ false) states i below
            (All-unsort by_position (λ s. at s (pos q) ≡ false) states nobody_sorted) in
        absurd (ground (arith, nobody_at, here))
    | inr (before, after, split, there, first) ↦ (==_iff _ q).0 there
  ]

  -- A call of `update` by the writer, or the first.
  update_own :
      (b : Leaderboard F) (tid : ℕ) (standings : List (DriverState F))
      → (b.writer_id ≡ none) ⊎ (b.writer_id ≡ some tid)
      → update b tid standings ≡ ok (record { standings = standings; writer_id = some tid })
  unfolding update
  update_own b tid standings h = ground (arith, h)

  -- The program that `publish` leaves for the writer.
  abbrev pub published : Program F → ℕ → List (DriverState F) → ℕ → Bool → Bool → Program F
  published p tid states lap checks_idle weather_idle = record p {
    leaderboard = record { standings = sorted_standings states; writer_id = some tid };
    race_state = set_lap p.race_state lap;
    tick_counter = p.tick_counter + 1;
    jobs = p.jobs ++ jobs_of (p.tick_counter + 1) states lap checks_idle weather_idle;
  }

  pub publish_own :
      (p : Program F) (tid : ℕ) (states : List (DriverState F)) (lap : ℕ)
      (checks_idle weather_idle : Bool)
      → (p.leaderboard.writer_id ≡ none) ⊎ (p.leaderboard.writer_id ≡ some tid)
      → publish p tid states lap checks_idle weather_idle
        ≡ returned (published p tid states lap checks_idle weather_idle)
  unfolding publish
  publish_own p tid states lap checks_idle weather_idle own =
      ground (arith, update_own p.leaderboard tid (sorted_standings states) own)

  -- The published standings are in the order of the positions, and `at_position` finds a driver of each
  -- position from 1 to their number.
  abbrev pub Published : ℕ → List (DriverState F) → Leaderboard F → Type 0
  Published tid states board =
      (board.writer_id ≡ some tid)
      × (board.standings ≡ sorted_standings states)
      × InOrder by_position board.standings
      × ((q now : ℕ) → 0 < q → q ≤ length states → (at_position board (pos q) now).position ≡ q)

  pub published-Published :
      (p : Program F) (tid : ℕ) (states : List (DriverState F)) (lap : ℕ)
      (checks_idle weather_idle : Bool) (track : TrackProfile F)
      → Ranked track states
      → Published tid states (published p tid states lap checks_idle weather_idle).leaderboard
  unfolding sorted_standings
  published-Published p tid states lap checks_idle weather_idle track
        (idx, long, below, distinct, placed, order) =
      let board = (published p tid states lap checks_idle weather_idle).leaderboard in
      (
        refl,
        refl,
        sort-InOrder by_position (λ a b h. ground arith) states,
        λ q now l u.
            (let (i, within, here) =
                driver_for idx states 0 q below placed l (omega (arith, u, long)) in
              found_at board q now states i refl within here),
      )
