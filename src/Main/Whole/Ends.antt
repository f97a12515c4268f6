-- ===== src/Main/Whole/Ends.antt =====
-- The call of `process_events` while the jobs of the pool push events.
use f1_telemetry.Prelude.{
  ℕ, suc, ◌+◌, ◌*◌, ◌<◌, ◌≤◌, ◌≡◌, refl, ap, Bool, true, false, [], ◌∷◌, arith, length,
  length-append,
}
use f1_telemetry.Float.{Float}
use f1_telemetry.Common.Types.{DriverState}
use f1_telemetry.RaceControl.{EventQueue}
use f1_telemetry.RaceControl.Weather.{WeatherSystem, update}
use f1_telemetry.RaceControl.TrackLimits.{check_driver}
use f1_telemetry.Main.Whole.Added.{check_driver-added, update-added}
use f1_telemetry.Main.Whole.{System, CallbackAt, LimitsAt, WeatherAt, Step, polled}

-- In one of the two loops of `process_events`.
abbrev pub enforcing : CallbackAt → Bool
enforcing CallbackAt.between = false
enforcing CallbackAt.ticking = false
enforcing CallbackAt.ticked = false
enforcing (CallbackAt.draining batch) = true
enforcing (CallbackAt.processing batch) = true

module _ {F : Type 0} where
  -- What the jobs have still to do, at three units for each event that they may push.
  abbrev limits_work : LimitsAt F → ℕ
  limits_work LimitsAt.idle = 0
  limits_work (LimitsAt.checking left lap) = 1 + 3 * length left

abbrev weather_work : WeatherAt → ℕ
weather_work WeatherAt.idle = 0
weather_work (WeatherAt.updating lap) = 3

-- And the call itself: the queue counts only until it is drained.
abbrev call_work : CallbackAt → EventQueue → ℕ
call_work CallbackAt.between events = 0
call_work CallbackAt.ticking events = 0
call_work CallbackAt.ticked events = 0
call_work (CallbackAt.draining batch) events = 2 * length events + length batch + 2
call_work (CallbackAt.processing batch) events = length batch + 1

module _ {F G R : Type 0} ⦃f : Float F⦄ (sample : G → F × G) (draw : R → F × R) where
  abbrev pub work : System F G R → ℕ
  work s = call_work s.callback s.program.events + limits_work s.limits + weather_work s.weather_job

  check_driver-one :
      (rng : R) (s : DriverState F) (lap now : ℕ)
      → length (check_driver draw rng [] s lap now).1 ≤ 1
  unfolding check_driver
  check_driver-one rng s lap now = ground arith

  update-one : (w : WeatherSystem R) (lap now : ℕ) → length (update draw w [] lap now).1 ≤ 1
  unfolding update
  update-one w lap now = ground arith

  check_driver-length :
      (rng : R) (events : EventQueue) (s : DriverState F) (lap now : ℕ)
      → length (check_driver draw rng events s lap now).1 ≤ length events + 1
  check_driver-length rng events s lap now = rw (check_driver-added draw rng events s lap now) (
      omega (
        arith,
        length-append events (check_driver draw rng [] s lap now).1,
        check_driver-one rng s lap now,
      ))

  update-length :
      (w : WeatherSystem R) (events : EventQueue) (lap now : ℕ)
      → length (update draw w events lap now).1 ≤ length events + 1
  update-length w events lap now =
      rw (update-added draw w events lap now)
        (omega (arith, length-append events (update draw w [] lap now).1, update-one w lap now))

  -- More events in the queue cost the call two units each at most.
  call_work-more :
      (c : CallbackAt) (events after : EventQueue)
      → length after ≤ length events + 1
      → call_work c after ≤ call_work c events + 2
  call_work-more CallbackAt.between events after h = omega arith
  call_work-more CallbackAt.ticking events after h = omega arith
  call_work-more CallbackAt.ticked events after h = omega arith
  call_work-more (CallbackAt.draining batch) events after h = omega arith
  call_work-more (CallbackAt.processing batch) events after h = omega arith

  Step-work :
      (tid : ℕ) {s t : System F G R}
      → Step sample draw tid s t
      → enforcing s.callback ≡ true
      → work t < work s
  Step-work tid {s} (Step.starts e more) busy = absurd (ground (arith, e, busy))
  Step-work tid {s} (Step.advances state left now e rest) busy = absurd (ground (arith, e, busy))
  Step-work tid {s} (Step.ranks e none_left) busy = absurd (ground (arith, e, busy))
  Step-work tid {s} (Step.publishes p e there) busy = absurd (ground (arith, e, busy))
  Step-work tid {s} (Step.pops batch e events at_draining queued) busy = omega (
    arith,
    ap (λ c. call_work c s.program.events) at_draining,
    ap (λ (l : EventQueue). length l) queued,
    length-append batch (e ∷ []),
  )
  Step-work tid {s} (Step.drained batch e) busy =
      omega (arith, ap (λ c. call_work c s.program.events) e)
  Step-work tid {s} (Step.handles e batch now here) busy =
      omega (arith, ap (λ c. call_work c s.program.events) here)
  Step-work tid {s} (Step.returns e) busy = omega (arith, ap (λ c. call_work c s.program.events) e)
  Step-work tid {s} (Step.checks driver left lap now e) busy = omega (
    arith,
    ap limits_work e,
    call_work-more s.callback s.program.events _
        (check_driver-length s.limits_rng s.program.events driver lap now),
  )
  Step-work tid {s} (Step.checks_end lap e) busy = omega (arith, ap limits_work e)
  Step-work tid {s} (Step.updates lap now e) busy = omega (
    arith,
    ap weather_work e,
    call_work-more s.callback s.program.events _ (update-length s.weather s.program.events lap now),
  )

  -- `n` steps of any threads but the consumer of the frames, each from a state in the call, with any
  -- number of its turns between them.
  pub data During (tid : ℕ) (s : System F G R) : ℕ → System F G R → Type 0 where
    enter : During tid s 0 s
    then_step :
        {n : ℕ} {t u : System F G R}
        → During tid s n t
        → enforcing t.callback ≡ true
        → Step sample draw tid t u
        → During tid s (suc n) u
    meanwhile : {n : ℕ} {t : System F G R} → During tid s n t → During tid s n (polled t)

  bounded : (tid : ℕ) {s t : System F G R} {n : ℕ} → During tid s n t → n + work t ≤ work s
  bounded tid During.enter = omega arith
  bounded tid (During.then_step {n} {t} {u} r busy step) =
      omega (arith, bounded tid r, Step-work tid step busy)
  bounded tid (During.meanwhile r) = bounded tid r

  -- The generator's thread has a step to take.
  unblocked :
      (tid : ℕ) (s : System F G R) (c : CallbackAt) (events : EventQueue)
      → s.callback ≡ c
      → s.program.events ≡ events
      → enforcing c ≡ true
      → (u : System F G R) × Step sample draw tid s u
  unblocked tid s CallbackAt.between events e q busy = absurd (ground (arith, busy))
  unblocked tid s CallbackAt.ticking events e q busy = absurd (ground (arith, busy))
  unblocked tid s CallbackAt.ticked events e q busy = absurd (ground (arith, busy))
  unblocked tid s (CallbackAt.draining batch) [] e q busy = (_, Step.drained batch e)
  unblocked tid s (CallbackAt.draining batch) (x ∷ events) e q busy =
      (_, Step.pops batch x events e q)
  unblocked tid s (CallbackAt.processing []) events e q busy = (_, Step.returns e)
  unblocked tid s (CallbackAt.processing (x ∷ batch)) events e q busy =
      (_, Step.handles x batch 0 e)

  -- A call of `process_events` ends though the jobs push events meanwhile: no run of steps of all the
  -- threads but the consumer of the frames, whose turns may fall between them, stays in the call for more
  -- than `work` steps of the state it starts from, and in every state of the call that a run reaches the
  -- generator's thread has a step to take, which leaves less work.
  pub call_ends :
      (tid n : ℕ) (s t : System F G R)
      → During tid s n t
      → (n ≤ work s)
        × (enforcing t.callback ≡ true
            → (u : System F G R) × Step sample draw tid t u × (work u < work t))
  call_ends tid n s t r = (
    omega (arith, bounded tid r),
    λ busy.
        (let (u, step) = unblocked tid t t.callback t.program.events refl refl busy in
          (u, step, Step-work tid step busy)),
  )
