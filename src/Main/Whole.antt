-- ===== src/Main/Whole.antt =====
-- src/main.cpp while the race runs: the generator's thread, which ticks and runs the callback, the pool's
-- workers, which run one check of the track limits and one update of the weather at most, and the thread
-- of the lap time consumer, with its stop at the end; the main thread ends the race. Each push of an event
-- or a frame, each pop and each look at a future is a step of its own.
pub mod Added
pub mod Invariant
pub mod Balance
pub mod Safety
pub mod Standing
pub mod Ends
pub mod Finish
pub mod Shown
pub mod Fastest
pub mod Frames
pub mod Stopped
pub mod Rounds
mod Tests
use f1_telemetry.Prelude.{
  ℕ, ◌+◌, ◌%◌, ◌≡◌, Bool, true, false, ◌&&◌, List, [], ◌∷◌, ◌++◌, ◌==◌, if◌then◌else◌, length,
  Option, none, some,
}
use f1_telemetry.Prelude.Result.{returned}
use f1_telemetry.Float.{Float}
use f1_telemetry.Concurrency.Spsc.{push, pop}
use f1_telemetry.Simulation.TelemetryGenerator.{
  advance, TelemetryGenerator, new_generator, advance_all,
}
use f1_telemetry.Simulation.LapTimeConsumer.{capacity_log, poll_once, drain, FrameQueue}
use f1_telemetry.Common.Types.{TelemetryFrame, DriverState, RaceControlEvent, TrackProfile}
use f1_telemetry.Common.Leaderboard.{new_board}
use f1_telemetry.Common.RaceState.{new_race, start_race, end_race}
use f1_telemetry.RaceControl.{EventQueue}
use f1_telemetry.RaceControl.Penalty.{new_enforcer, process_event}
use f1_telemetry.RaceControl.Weather.{WeatherSystem, new_weather}
use f1_telemetry.RaceControl.Weather
use f1_telemetry.RaceControl.TrackLimits.{check_driver}
use f1_telemetry.Simulation.TelemetryGenerator.Standings.{update_positions_and_drs}
use f1_telemetry.Main.{Program, publish}

-- The job behind `track_limits_future`, with the drivers that its loop has left.
pub data LimitsAt (F : Type 0) : Type 0 where
  idle : LimitsAt F  -- no future, or a ready one
  checking : (left : List (DriverState F)) (lap : ℕ) → LimitsAt F

-- The job behind `weather_future`.
pub data WeatherAt : Type 0 where
  idle : WeatherAt
  updating : (lap : ℕ) → WeatherAt

-- Where the generator's thread stands.
pub data CallbackAt : Type 0 where
  between : CallbackAt  -- between two ticks
  ticking : CallbackAt  -- in the loop of `tick` over the drivers
  ticked : CallbackAt  -- before the callback
  draining : (batch : List RaceControlEvent) → CallbackAt  -- in the first loop of `process_events`
  processing : (batch : List RaceControlEvent) → CallbackAt  -- in the second, with what is left

-- `left` are the drivers that the loop of `tick` has still to advance, while the generator's `states` are those
-- done. With the events pushed so far, those that the enforcer has processed, the frames that got into the
-- ring, and those that the consumer has taken.
pub record System (F G R : Type 0) : Type 0 where
  pub generator : TelemetryGenerator F G
  pub program : Program F
  pub limits_rng : R
  pub weather : WeatherSystem R
  pub limits : LimitsAt F
  pub weather_job : WeatherAt
  pub callback : CallbackAt
  pub left : List (DriverState F)
  pub pushed : List RaceControlEvent
  pub processed : List RaceControlEvent
  pub admitted : List (TelemetryFrame F)
  pub taken : List (TelemetryFrame F)

abbrev pub limits_idle : {F : Type 0} → LimitsAt F → Bool
limits_idle LimitsAt.idle = true
limits_idle (LimitsAt.checking left lap) = false

abbrev pub weather_idle : WeatherAt → Bool
weather_idle WeatherAt.idle = true
weather_idle (WeatherAt.updating lap) = false

module _ {F G R : Type 0} where
  -- The events of the queue, and those that were added to them.
  abbrev pub with_events : System F G R → EventQueue → List RaceControlEvent → System F G R
  with_events s events added = record s {
    program = record (s.program) { events = events };
    pushed = s.pushed ++ added;
  }

  -- After the tick, the callback has run up to `process_events`, with the program `p` at that point:
  -- where a future was idle in its turn, its job is submitted.
  abbrev pub submitted : System F G R → Program F → System F G R
  submitted s p = record s {
    program = p;
    limits =
        if p.tick_counter % 9 == 0 && limits_idle s.limits
        then LimitsAt.checking s.generator.states s.generator.race_lap
        else s.limits;
    weather_job =
        if weather_idle s.weather_job
        then WeatherAt.updating s.generator.race_lap
        else s.weather_job;
    callback = CallbackAt.draining [];
  }

  abbrev pub popped :
      System F G R → List RaceControlEvent → RaceControlEvent → EventQueue → System F G R
  popped s batch e events = record s {
    program = record (s.program) { events = events };
    callback = CallbackAt.draining (batch ++ e ∷ []);
  }

-- What a pop has put into `frame`, if it returns true.
abbrev pub taken_out : {T : Type 0} → Bool → Option T → List T
taken_out true (some x) = x ∷ []
taken_out _ _ = []

module _ {F G R : Type 0} ⦃f : Float F⦄ where
  -- `lap_consumer.stop()`: with the stop requested, the second loop of the consumer on fuel.
  abbrev pub consumer_stopped : ℕ → System F G R → Option (System F G R)
  consumer_stopped fuel s = elim (drain fuel s.generator.queue s.program.race_state) [
    | none ↦ none
    | some (queue, race) ↦ some (record s {
      generator = record (s.generator) { queue = queue };
      program = record (s.program) { race_state = race };
    })
  ]

  -- `race_state.end_race()` of the main thread, after its loop.
  abbrev pub race_ended : System F G R → System F G R
  race_ended s = record s {
    program = record (s.program) { race_state = end_race s.program.race_state };
  }

  -- A turn of the consumer's loop.
  abbrev pub polled : System F G R → System F G R
  polled s =
      let (popped, out, r) = pop capacity_log s.generator.queue in
      let (queue, race) = poll_once s.generator.queue s.program.race_state in
      record s {
        generator = record (s.generator) { queue = queue };
        program = record (s.program) { race_state = race };
        taken = s.taken ++ taken_out popped out;
      }

module _ {F G R : Type 0} ⦃f : Float F⦄ (sample : G → F × G) (draw : R → F × R) where
  -- The declarations of `main`.
  unfoldable pub start : FrameQueue F → TrackProfile F → G → (ℕ → ℕ) → R → R → System F G R
  start queue track seed clock limits_seed weather_seed = record {
    generator = new_generator queue track seed clock;
    program = record {
      leaderboard = new_board;
      race_state = start_race new_race;
      tick_counter = 0;
      jobs = [];
      penalty = new_enforcer;
      events = [];
    };
    limits_rng = limits_seed;
    weather = new_weather weather_seed;
    limits = LimitsAt.idle;
    weather_job = WeatherAt.idle;
    callback = CallbackAt.between;
    left = [];
    pushed = [];
    processed = [];
    admitted = [];
    taken = [];
  }

  -- The frames of `advance_all` that get into the ring.
  unfoldable pub admitted_by :
      TelemetryGenerator F G → List (DriverState F) → (ℕ → ℕ) → List (TelemetryFrame F)
  admitted_by g [] clock = []
  admitted_by g (state ∷ rest) clock =
      let (next, rng, lap, over) =
        advance sample g.track state (clock (length rest)) g.rng g.race_lap g.race_finished in
      let (pushed, queue) = push capacity_log g.queue next.latest_frame in
      let h = record g {
        queue = queue;
        states = g.states ++ next ∷ [];
        rng = rng;
        race_lap = lap;
        race_finished = over;
      } in
      let more = admitted_by h rest clock in if pushed then next.latest_frame ∷ more else more

  abbrev pub tick_started : System F G R → System F G R
  tick_started s = record s {
    generator = record (s.generator) { states = [] };
    left = s.generator.states;
    callback = CallbackAt.ticking;
  }

  -- A round of the loop, when the clock reads `now`.
  abbrev pub driver_advanced :
      System F G R → DriverState F → List (DriverState F) → ℕ → System F G R
  driver_advanced s state left now = record s {
    generator = advance_all sample s.generator (state ∷ []) (λ n. now);
    left = left;
    admitted = s.admitted ++ admitted_by s.generator (state ∷ []) (λ n. now);
  }

  abbrev pub drivers_ranked : System F G R → System F G R
  drivers_ranked s = record s {
    generator = record (s.generator) {
      states = update_positions_and_drs s.generator.track s.generator.states;
    };
    callback = CallbackAt.ticked;
  }

  -- What the enforcer, the monitor and the weather add to the queue.
  abbrev pub announced : System F G R → RaceControlEvent → ℕ → List RaceControlEvent
  announced s e now = (process_event s.program.penalty [] e now).1

  abbrev pub exceeded : System F G R → DriverState F → ℕ → ℕ → List RaceControlEvent
  exceeded s driver lap now = (check_driver draw s.limits_rng [] driver lap now).1

  abbrev pub changed : System F G R → ℕ → ℕ → List RaceControlEvent
  changed s lap now = (Weather.update draw s.weather [] lap now).1

  abbrev pub handled : System F G R → RaceControlEvent → List RaceControlEvent → ℕ → System F G R
  handled s e batch now =
      let (penalty, events) = process_event s.program.penalty s.program.events e now in
      let t = with_events s events (announced s e now) in
      record t {
        program = record (t.program) { penalty = penalty };
        callback = CallbackAt.processing batch;
        processed = s.processed ++ e ∷ [];
      }

  abbrev pub checked : System F G R → DriverState F → List (DriverState F) → ℕ → ℕ → System F G R
  checked s driver left lap now =
      let (rng, events) = check_driver draw s.limits_rng s.program.events driver lap now in
      record (with_events s events (exceeded s driver lap now)) {
        limits_rng = rng;
        limits = LimitsAt.checking left lap;
      }

  abbrev pub updated : System F G R → ℕ → ℕ → System F G R
  updated s lap now =
      let (weather, events) = Weather.update draw s.weather s.program.events lap now in
      record (with_events s events (changed s lap now)) {
        weather = weather;
        weather_job = WeatherAt.idle;
      }

  -- The generator's thread is thread `tid`; `now` is what the clock reads.
  pub data Step (tid : ℕ) (s : System F G R) : System F G R → Type 0 where
    starts :
        s.callback ≡ CallbackAt.between
        → s.generator.race_finished ≡ false
        → Step tid s (tick_started s)
    advances :
        (state : DriverState F) (left : List (DriverState F)) (now : ℕ)
        → s.callback ≡ CallbackAt.ticking
        → s.left ≡ state ∷ left
        → Step tid s (driver_advanced s state left now)
    ranks : s.callback ≡ CallbackAt.ticking → s.left ≡ [] → Step tid s (drivers_ranked s)
    publishes :
        (p : Program F)
        → s.callback ≡ CallbackAt.ticked
        → publish s.program tid s.generator.states s.generator.race_lap
            (limits_idle s.limits)
            (weather_idle s.weather_job)
          ≡ returned p
        → Step tid s (submitted s p)
    pops :
        (batch : List RaceControlEvent) (e : RaceControlEvent) (events : EventQueue)
        → s.callback ≡ CallbackAt.draining batch
        → s.program.events ≡ e ∷ events
        → Step tid s (popped s batch e events)
    -- A pop returns false: the queue is empty, or a push is not linked yet. The latter stands for any moment
    -- here, since a push is one step.
    drained :
        (batch : List RaceControlEvent)
        → s.callback ≡ CallbackAt.draining batch
        → Step tid s (record s { callback = CallbackAt.processing batch })
    handles :
        (e : RaceControlEvent) (batch : List RaceControlEvent) (now : ℕ)
        → s.callback ≡ CallbackAt.processing (e ∷ batch)
        → Step tid s (handled s e batch now)
    returns :
        s.callback ≡ CallbackAt.processing []
        → Step tid s (record s { callback = CallbackAt.between })
    checks :
        (driver : DriverState F) (left : List (DriverState F)) (lap now : ℕ)
        → s.limits ≡ LimitsAt.checking (driver ∷ left) lap
        → Step tid s (checked s driver left lap now)
    checks_end :
        (lap : ℕ)
        → s.limits ≡ LimitsAt.checking [] lap
        → Step tid s (record s { limits = LimitsAt.idle })
    updates :
        (lap now : ℕ) → s.weather_job ≡ WeatherAt.updating lap → Step tid s (updated s lap now)

  -- The states that some interleaving reaches from the start of a race.
  pub data Reach (tid : ℕ) (s₀ : System F G R) : System F G R → Type 0 where
    begin : Reach tid s₀ s₀
    next : {s t : System F G R} → Reach tid s₀ s → Step tid s t → Reach tid s₀ t
    polls : {s : System F G R} → Reach tid s₀ s → Reach tid s₀ (polled s)
    ends : {s : System F G R} → Reach tid s₀ s → Reach tid s₀ (race_ended s)
