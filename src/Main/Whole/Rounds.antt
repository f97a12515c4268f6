-- ===== src/Main/Whole/Rounds.antt =====
-- Runs of src/main.cpp on fixed-point values: rounds of a tick and its callback, with nothing to enforce.
use mathlib.Core.List.{append_assoc, append-nil}
use f1_telemetry.Simulation.TelemetryGenerator.Standings.{tick, run, update_positions_and_drs}
use f1_telemetry.Simulation.TelemetryGenerator.{TelemetryGenerator, advance_all, new_generator}
use f1_telemetry.Common.Types.{TelemetryFrame, DriverState, default_frame, TrackProfile}
use f1_telemetry.Prelude.{
  ◌++◌, sym, ap, ◌∙◌, List, ◌∷◌, length, zero, suc, ℕ, ◌+◌, ◌<◌, ◌≤◌, ◌≡◌, ◌⊎◌, inl, inr, refl,
  false, none, some, [], arith, Bool-cases, subst,
}
use f1_telemetry.Prelude.Int.{pos}
use f1_telemetry.Float.Fixed.{Fixed, fixed_float}
use f1_telemetry.Common.Leaderboard.{new_board}
use f1_telemetry.Concurrency.Spsc.{fresh}
use f1_telemetry.Simulation.LapTimeConsumer.{capacity_log, FrameQueue}
use f1_telemetry.Main.Published.{published, publish_own}
use f1_telemetry.Main.Whole.{
  System, CallbackAt, Step, Reach, start, limits_idle, weather_idle, submitted, admitted_by,
}
use f1_telemetry.Simulation.TelemetryGenerator.Standings.Race.{advance_all-track}
use f1_telemetry.Simulation.TelemetryGenerator.Standings.Laps.{OnLap, tick-OnLap, race_laps}

abbrev pub sample : ℕ → Fixed × ℕ
sample n = (some (pos 0), n + 1)

abbrev pub ring : FrameQueue Fixed
ring = fresh capacity_log default_frame

abbrev pub Race : Type 0
Race = System Fixed ℕ ℕ

unfoldable pub lights : TrackProfile Fixed → Race
lights track = start sample sample ring track 42 (λ i. i) 1 2

abbrev pub ticked : Race → Race
ticked s = record s {
  generator = tick sample s.generator (λ n. 1000 + n);
  left = [];
  callback = CallbackAt.ticked;
  admitted =
      s.admitted
      ++ admitted_by sample sample (record (s.generator) { states = [] }) s.generator.states
          (λ n. 1000 + n);
}

-- In the loop of the tick.
abbrev in_loop :
    Race
    → TelemetryGenerator Fixed ℕ
    → List (DriverState Fixed)
    → List (TelemetryFrame Fixed)
    → Race
in_loop s g left admitted = record s {
  generator = g;
  left = left;
  callback = CallbackAt.ticking;
  admitted = admitted;
}

abbrev pub shown : Race → Race
shown s = submitted s (
    published s.program 5 s.generator.states s.generator.race_lap (limits_idle s.limits)
      (weather_idle s.weather_job))

abbrev pub round : Race → Race
round s = record (shown (ticked s)) { callback = CallbackAt.between }

abbrev pub Owned : Race → Type 0
Owned s = (s.program.leaderboard.writer_id ≡ none) ⊎ (s.program.leaderboard.writer_id ≡ some 5)

abbrev pub Reached : TrackProfile Fixed → Race → Type 0
Reached track s = Reach sample sample 5 (lights track) s

admitted-split :
    (g : TelemetryGenerator Fixed ℕ) (x : DriverState Fixed) (rest : List (DriverState Fixed))
    (clock : ℕ → ℕ)
    → admitted_by sample sample g (x ∷ rest) clock
      ≡ admitted_by sample sample g (x ∷ []) (λ n. clock (length rest))
        ++ admitted_by sample sample
            (advance_all sample g (x ∷ []) (λ n. clock (length rest)))
            rest
            clock
unfolding admitted_by advance_all
admitted-split g x rest clock = ground arith

-- All the rounds of the loop.
to_looped :
    (track : TrackProfile Fixed) (s : Race) (rest : List (DriverState Fixed))
    (g : TelemetryGenerator Fixed ℕ) (admitted : List (TelemetryFrame Fixed)) (clock : ℕ → ℕ)
    → Reached track (in_loop s g rest admitted)
    → Reached track (
        in_loop s
          (advance_all sample g rest clock)
          []
          (admitted ++ admitted_by sample sample g rest clock))
unfolding advance_all admitted_by
to_looped track s [] g admitted clock r =
    subst (λ a. Reached track (in_loop s g [] a)) (sym (append-nil admitted)) r
to_looped track s (x ∷ rest) g admitted clock r =
    let now = clock (length rest) in
    let g' = advance_all sample g (x ∷ []) (λ n. now) in
    let first = admitted_by sample sample g (x ∷ []) (λ n. now) in
    let step = Reach.next r (Step.advances x rest now refl refl) in
    subst (λ a. Reached track (in_loop s (advance_all sample g' rest clock) [] a))
      (append_assoc admitted first _
        ∙ ap (λ a. admitted ++ a) (sym (admitted-split g x rest clock)))
      (to_looped track s rest g' (admitted ++ first) clock step)

pub to_ticked :
    (track : TrackProfile Fixed) (s : Race)
    → s.callback ≡ CallbackAt.between
    → s.generator.race_finished ≡ false
    → Reached track s
    → Reached track (ticked s)
unfolding tick
to_ticked track s here more r =
    let started = record (s.generator) { states = [] } in
    let moved = advance_all sample started s.generator.states (λ n. 1000 + n) in
    let ranked = λ (t : TrackProfile Fixed). record (ticked s) {
      generator = record moved { states = update_positions_and_drs t moved.states };
    } in
    let looped =
      to_looped track s s.generator.states started s.admitted (λ n. 1000 + n)
        (Reach.next r (Step.starts here more)) in
    subst (λ t. Reached track (ranked t))
      (advance_all-track sample s.generator.states started (λ n. 1000 + n))
      (Reach.next looped (Step.ranks refl refl))

pub to_shown :
    (track : TrackProfile Fixed) (s : Race)
    → s.callback ≡ CallbackAt.between
    → s.generator.race_finished ≡ false
    → Owned s
    → Reached track s
    → Reached track (shown (ticked s))
to_shown track s here more own r = Reach.next (to_ticked track s here more r) (
    Step.publishes _ refl
      (publish_own s.program 5 (ticked s).generator.states (ticked s).generator.race_lap _ _ own))

abbrev pub rounds : TrackProfile Fixed → ℕ → Race
rounds track zero = lights track
rounds track (suc n) = round (rounds track n)

-- Between two rounds, after `n` of them.
pub record Round (track : TrackProfile Fixed) (n : ℕ) (s : Race) : Type 0 where
  pub reached : Reached track s
  pub here : s.callback ≡ CallbackAt.between
  pub quiet : s.program.events ≡ []
  pub own : Owned s
  pub laps : OnLap sample (1 + n) s.generator

pub running :
    (track : TrackProfile Fixed) (n : ℕ) (s : Race)
    → n < 50
    → Round track n s
    → s.generator.race_finished ≡ false
running track n s h r =
    let (within, few, late) = r.laps in
    elim (Bool-cases s.generator.race_finished) [
      | inl over ↦ absurd (omega (arith, few, late over, h))
      | inr more ↦ more
    ]

to_round :
    (track : TrackProfile Fixed) (n : ℕ) (s : Race)
    → n < 50
    → Round track n s
    → Round track (suc n) (round s)
to_round track n s h r = record {
  reached =
      Reach.next
        (Reach.next (to_shown track s r.here (running track n s h r) r.own r.reached)
          (Step.drained [] refl))
        (Step.returns refl);
  here = refl;
  quiet = r.quiet;
  own = inr refl;
  laps =
      subst (λ m. OnLap sample m (ticked s).generator) {x = 1 + n + 1} (omega arith)
        (tick-OnLap sample s.generator (λ n. 1000 + n) (1 + n) r.laps);
}

pub to_rounds : (track : TrackProfile Fixed) (n : ℕ) → n ≤ 50 → Round track n (rounds track n)
unfolding lights start new_board new_generator run
to_rounds track zero h = record {
  reached = Reach.begin;
  here = refl;
  quiet = refl;
  own = inl refl;
  laps = race_laps sample ring track 42 (λ i. i) [];
}
to_rounds track (suc n) h =
    to_round track n (rounds track n) (omega (arith, h)) (to_rounds track n (omega (arith, h)))
