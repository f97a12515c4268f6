-- ===== src/Main/Display/Live.antt =====
-- The loop of the main thread in src/main.cpp.
use f1_telemetry.Prelude.{
  ℕ, zero, suc, ◌+◌, ◌*◌, ◌≤◌, ◌≡◌, inl, inr, refl, some, [], ◌++◌, arith, ltb, Bool-cases,
}
use f1_telemetry.Float.{Float}
use f1_telemetry.Common.Text.{Text, text}
use f1_telemetry.Main.Display.{
  View, live, newline, print_snapshot, safety_timeout, title, report, console,
}
use f1_telemetry.Common.Leaderboard.{Leaderboard}
use f1_telemetry.Common.RaceState.{RaceState, end_race}
use f1_telemetry.RaceControl.Penalty.{PenaltyEnforcer}

module _ {F R : Type 0} ⦃f : Float F⦄ (fixed : ℕ → F → Text) (start : ℕ)
    (views : ℕ → View F R) where
  live_from :
      (fuel k : ℕ)
      → ((j : ℕ) → (views j).now + 500000000 ≤ (views (j + 1)).now)
      → 122 ≤ fuel + k
      → k ≤ 121
      → start + k * 500000000 ≤ (views k).now
      → (printed : Text) × (live fixed fuel start views k ≡ some printed)
  unfolding live
  live_from zero k sleeps enough within late = absurd (omega (arith, enough, within))
  live_from (suc fuel) k sleeps enough within late = elim (Bool-cases (views k).race_finished) [
    | inl over ↦ ([], rw (over) refl)
    | inr more ↦ elim (Bool-cases (ltb (start + safety_timeout) (views k).now)) [
      | inl hit ↦ (
        newline ++ (text "[safety timeout hit -- stopping early]" ++ newline),
        rw (more, hit) refl,
      )
      | inr early ↦
          let (later, done) =
            live_from fuel (k + 1) sleeps (omega (arith, enough))
              (ground (arith, early, late, within)) (omega (arith, sleeps k, late)) in
          (
            print_snapshot fixed (views k).standings (views k).lap (views k).weather
                  (views k).penalty
                ++ later,
            rw (more, early, done) refl,
          )
    ]
  ]

  -- Where each turn of the loop of `main` sleeps 500 ms at least by the clock, the loop ends, whatever the
  -- other threads do: at its 122nd turn at the latest, since more than 60 s have passed then. So `main`
  -- prints its title, what the loop prints, and the report.
  pub live_ends :
      (race : RaceState F) (board : Leaderboard F) (penalty : PenaltyEnforcer)
      → start ≤ (views 0).now
      → ((k : ℕ) → (views k).now + 500000000 ≤ (views (k + 1)).now)
      → (printed : Text) × (console fixed 122 start views race board penalty
          ≡ some (title ++ (printed ++ report fixed (end_race race) board penalty)))
  unfolding console
  live_ends race board penalty begins sleeps =
      let (printed, done) =
        live_from 122 0 sleeps (omega arith) (omega arith) (omega (arith, begins)) in
      (printed, rw (done, console) refl)
