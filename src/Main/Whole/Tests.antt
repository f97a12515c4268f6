-- ===== src/Main/Whole/Tests.antt =====
-- A race of nine ticks on fixed-point values, in which the check of the ninth finds a violation, and one of
-- fifty laps.
use f1_telemetry.Prelude.{
  ap, ◌∙◌, suc, ℕ, ◌<◌, ◌≤◌, ◌≡◌, refl, true, some, List, [], ◌∷◌, ◌++◌, arith, length, drop,
  get_or,
}
use f1_telemetry.Prelude.Int.{pos, ◌*ℤ◌, ◌+ℤ◌, ◌-ℤ◌}
use f1_telemetry.Prelude.Result.{returned}
use f1_telemetry.Float.Fixed.{Fixed, fixed_float, Fixed-IsOrdered}
use f1_telemetry.Common.Types.{
  DriverState, default_frame, default_state, TrackProfile, TelemetryFrame,
}
use f1_telemetry.Common.SeasonData.{
  default_track, drivers, car_for_driver, car_rows, cars, driver_rows, profile_of, DriverRow,
}
use f1_telemetry.Common.Leaderboard.{new_board}
use f1_telemetry.Common.RaceState.{new_race}
use f1_telemetry.Common.Text.{memcpy, text_eq}
use f1_telemetry.RaceControl.Penalty.{new_enforcer, penalty_state}
use f1_telemetry.RaceControl.Weather.{new_weather}
use f1_telemetry.RaceControl.Penalty.Tally.{tally}
use f1_telemetry.RaceControl.Penalty.Issued.{penalties, violations}
use f1_telemetry.RaceControl.Penalty.Run.{Verdict}
use f1_telemetry.RaceControl.TrackLimits.{exceeded, check_driver}
use f1_telemetry.Simulation.LapTimeConsumer.{capacity_log}
use f1_telemetry.Simulation.TelemetryGenerator.{
  new_generator, advance_all, grid_from, advance, grid_state, drive, speed_of, max_speed,
  complete_lap, handle_pit, record_lap, should_pit, total_laps,
}
use f1_telemetry.Simulation.TelemetryGenerator.Standings.{
  tick, driver_at, update_positions_and_drs, place_all, order_of, stable_sort, insert_stable,
  race_distance, assign_from, drs_from, gap_of,
}
use f1_telemetry.Main.{Program, publish}
use f1_telemetry.Main.Published.{Published}
use f1_telemetry.Main.Whole.{
  CallbackAt, LimitsAt, Step, Reach, start, limits_idle, weather_idle, checked, popped, handled,
  polled, race_ended, consumer_stopped,
}
use f1_telemetry.Main.Whole.Finish.{final_lap}
use f1_telemetry.Main.Whole.Invariant.{batch_of}
use f1_telemetry.Main.Whole.Safety.{events_once, penalty_live}
use f1_telemetry.Main.Whole.Standing.{Shown, standings_live}
use f1_telemetry.Main.Display.{penalty_name}
use f1_telemetry.Main.Whole.Shown.{ShownAs, penalty_shown}
use f1_telemetry.Concurrency.Spsc.Refine.{Holds}
use f1_telemetry.Simulation.LapTimeConsumer.Claimed.{claims_of}
use f1_telemetry.Main.Whole.Fastest.{FastestOf}
use f1_telemetry.Main.Whole.Frames.{fastest_live}
use f1_telemetry.Main.Whole.Stopped.{fastest_final}
use f1_telemetry.Main.Whole.Ends.{During, work, enforcing, call_ends}
use f1_telemetry.Main.Whole.Rounds.{
  to_ticked, sample, ring, Race, lights, ticked, shown, Reached, to_shown, rounds, running,
  to_rounds,
}

head-drop : (l : List (DriverState Fixed)) (n : ℕ) → length l ≡ suc n → l ≡ driver_at l 0 ∷ drop 1 l
head-drop [] n e = absurd (omega (arith, e))
head-drop (x ∷ l) n e = refl

-- The ninth tick submits a check of the limits, whose first driver has a violation.
abbrev ninth : Race
ninth = shown (ticked (rounds default_track 8))

abbrev first_driver : DriverState Fixed
first_driver = driver_at ninth.generator.states 0

abbrev lap : ℕ
lap = ninth.generator.race_lap

abbrev found : Race
found = checked sample sample ninth first_driver (drop 1 ninth.generator.states) lap 7

abbrev taken : Race
taken = popped found [] (exceeded first_driver lap 7) []

abbrev enforced : Race
enforced =
    handled sample sample
      (record taken { callback = CallbackAt.processing (exceeded first_driver lap 7 ∷ []) })
      (exceeded first_driver lap 7) [] 8

submits : ninth.limits ≡ LimitsAt.checking ninth.generator.states lap
unfolding lights start new_generator new_board tick advance_all update_positions_and_drs place_all
    order_of stable_sort grid_from drivers insert_stable race_distance default_track advance
    grid_state drive speed_of max_speed car_for_driver new_race car_rows cars driver_rows profile_of
    memcpy text_eq default_frame default_state ◌*ℤ◌ ◌+ℤ◌ ◌-ℤ◌ new_enforcer new_weather assign_from
    drs_from gap_of complete_lap handle_pit record_lap should_pit
submits = refl

twenty : length ninth.generator.states ≡ 20
unfolding lights start new_generator new_board tick advance_all update_positions_and_drs place_all
    order_of stable_sort grid_from drivers insert_stable race_distance default_track advance
    grid_state drive speed_of max_speed car_for_driver new_race car_rows cars driver_rows profile_of
    memcpy text_eq default_frame default_state ◌*ℤ◌ ◌+ℤ◌ ◌-ℤ◌ new_enforcer new_weather assign_from
    drs_from gap_of complete_lap handle_pit record_lap should_pit
twenty = refl

quiet : ninth.program.events ≡ []
unfolding lights start new_generator new_board tick advance_all update_positions_and_drs place_all
    order_of stable_sort grid_from drivers insert_stable race_distance default_track advance
    grid_state drive speed_of max_speed car_for_driver new_race car_rows cars driver_rows profile_of
    memcpy text_eq default_frame default_state ◌*ℤ◌ ◌+ℤ◌ ◌-ℤ◌ new_enforcer new_weather assign_from
    drs_from gap_of complete_lap handle_pit record_lap should_pit
quiet = refl

shown_ninth : Reached default_track ninth
shown_ninth =
    let r = to_rounds default_track 8 (omega arith) in
    to_shown default_track (rounds default_track 8) r.here
      (running default_track 8 _ (omega arith) r) r.own r.reached

violation_found : Reached default_track found
violation_found = Reach.next shown_ninth (
    Step.checks first_driver (drop 1 ninth.generator.states) lap 7
      (submits ∙ ap (λ l. LimitsAt.checking l lap) (head-drop ninth.generator.states 19 twenty)))

queued : found.program.events ≡ exceeded first_driver lap 7 ∷ []
unfolding lights start new_generator new_board tick advance_all update_positions_and_drs place_all
    order_of stable_sort grid_from drivers insert_stable race_distance default_track advance
    grid_state drive speed_of max_speed car_for_driver new_race car_rows cars driver_rows profile_of
    memcpy text_eq default_frame default_state ◌*ℤ◌ ◌+ℤ◌ ◌-ℤ◌ new_enforcer new_weather assign_from
    drs_from gap_of complete_lap handle_pit record_lap should_pit check_driver
queued = refl

violation_enforced : Reached default_track enforced
unfolding lights start
violation_enforced =
    Reach.next
      (Reach.next
        (Reach.next violation_found (Step.pops [] (exceeded first_driver lap 7) [] refl queued))
        (Step.drained (exceeded first_driver lap 7 ∷ []) refl))
      (Step.handles (exceeded first_driver lap 7) [] 8 refl)

events_once_example :
    enforced.processed ++ (batch_of enforced.callback ++ enforced.program.events) ≡ enforced.pushed
unfolding lights start
events_once_example =
    events_once sample sample ring default_track 42 (λ i. i) 1 2 5 enforced violation_enforced

abbrev row_at : ℕ → DriverRow
row_at i = get_or driver_rows i (record {
  id = [];
  name = [];
  team = [];
  aggression = 0;
  consistency = 0;
  tire_mgmt = 0;
  risk_tolerance = 0;
})

penalty_live_example :
    Verdict
      (violations 0 enforced.processed)
      (penalties 0 enforced.pushed)
      (tally enforced.program.penalty 0)
unfolding lights start
penalty_live_example =
    penalty_live sample sample ring default_track 42 (λ i. i) 1 2 5 enforced 0 (omega arith)
      violation_enforced

tick_after : Reached default_track (ticked (rounds default_track 8))
tick_after =
    let r = to_rounds default_track 8 (omega arith) in
    to_ticked default_track (rounds default_track 8) r.here
      (running default_track 8 _ (omega arith) r) r.reached

standings_live_example :
    Shown sample sample 5 (ticked (rounds default_track 8)).program.leaderboard
    × ((ticked (rounds default_track 8)).callback ≡ CallbackAt.ticked
        → (p : Program Fixed) × (publish
              (rounds default_track 8).program
              5
              (ticked (rounds default_track 8)).generator.states
              (ticked (rounds default_track 8)).generator.race_lap
              (limits_idle (rounds default_track 8).limits)
              (weather_idle (rounds default_track 8).weather_job)
            ≡ returned p)
          × Published 5 (ticked (rounds default_track 8)).generator.states p.leaderboard)
unfolding lights start
standings_live_example =
    standings_live sample sample ring default_track 42 (λ i. i) 1 2 Fixed-IsOrdered 5
      (ticked (rounds default_track 8)) tick_after

one_pop : Step sample sample 5 found taken
one_pop = Step.pops [] (exceeded first_driver lap 7) [] refl queued

call_ends_example :
    (1 ≤ work sample sample found)
    × (enforcing taken.callback ≡ true
        → (u : Race) × Step sample sample 5 taken u
          × (work sample sample u < work sample sample taken))
call_ends_example =
    call_ends sample sample 5 1 found taken (During.then_step During.enter refl one_pop)

-- On a track of no length every tick is a lap.
abbrev dot : TrackProfile Fixed
dot = record default_track { length_km = some (pos 0) }

abbrev flag : Race
flag = shown (ticked (rounds dot 49))

flag_falls : flag.generator.race_finished ≡ true
unfolding lights start new_generator new_board tick advance_all update_positions_and_drs place_all
    order_of stable_sort grid_from drivers insert_stable race_distance default_track advance
    grid_state drive speed_of max_speed car_for_driver new_race car_rows cars driver_rows profile_of
    memcpy text_eq default_frame default_state ◌*ℤ◌ ◌+ℤ◌ ◌-ℤ◌ new_enforcer new_weather assign_from
    drs_from gap_of complete_lap handle_pit record_lap should_pit
flag_falls = refl

final_lap_example : total_laps < flag.program.race_state.current_lap
unfolding lights start
final_lap_example =
    final_lap sample sample ring dot 42 (λ i. i) 1 2 5 flag flag_falls refl
      (let r = to_rounds dot 49 (omega arith) in
        to_shown dot (rounds dot 49) r.here (running dot 49 _ (omega arith) r) r.own r.reached)

-- The first driver has one violation so far.
penalty_shown_example :
    ShownAs
      (violations 0 enforced.processed)
      (penalty_name (penalty_state enforced.program.penalty (row_at 0).id))
unfolding lights start driver_rows
penalty_shown_example =
    penalty_shown sample sample ring default_track 42 (λ i. i) 1 2 5 enforced 0 (row_at 0) refl
      (omega arith) violation_enforced

-- The consumer takes one of the frames of the ninth tick.
abbrev consumed : Race
consumed = polled enforced

fastest_live_example :
    (frames : List (TelemetryFrame Fixed)) × Holds capacity_log consumed.generator.queue frames
    × (consumed.taken ++ frames ≡ consumed.admitted)
    × FastestOf (claims_of consumed.taken) consumed.program.race_state
unfolding lights start
fastest_live_example =
    fastest_live sample sample default_track 42 (λ i. i) 1 2 Fixed-IsOrdered 5 consumed
      (Reach.polls violation_enforced)

-- The main thread ends the race there.
abbrev over : Race
over = race_ended consumed

fastest_final_example :
    (last : Race) × (consumer_stopped 2048 over ≡ some last)
    × Holds capacity_log last.generator.queue []
    × FastestOf (claims_of over.admitted) last.program.race_state
unfolding lights start
fastest_final_example =
    fastest_final sample sample default_track 42 (λ i. i) 1 2 Fixed-IsOrdered 5 over
      (Reach.ends (Reach.polls violation_enforced))
