-- ===== src/Main/Whole/Balance.antt =====
-- What each step of the running program does to the events that src/race_control has to deal with.
use mathlib.Core.List.{append_assoc}
use f1_telemetry.Prelude.{ℕ, ◌≡◌, refl, sym, ap, subst, ◌∙◌, Bool, List, [], ◌∷◌, ◌++◌, arith, All}
use f1_telemetry.Prelude.Result.{returned}
use f1_telemetry.Float.{Float}
use f1_telemetry.Common.Types.{RaceControlEvent, DriverState, TrackProfile}
use f1_telemetry.RaceControl.{EventQueue}
use f1_telemetry.RaceControl.Penalty.{PenaltyEnforcer, process_event}
use f1_telemetry.RaceControl.Penalty.Issued.{Framed, penalties}
use f1_telemetry.Simulation.LapTimeConsumer.{FrameQueue}
use f1_telemetry.Main.{Program, publish}
use f1_telemetry.Main.Whole.{System, CallbackAt, Step, Reach, start}
use f1_telemetry.Main.Whole.Invariant.{
  Ledger, batch_of, start-Ledger, pushes-Ledger, handles-Ledger,
}
use f1_telemetry.Main.Whole.Added.{
  check_driver-added, check_driver-Framed, check_driver-penalties, update-added, update-Framed,
  update-penalties, process_event-added, process_event-Framed, process_event-penalty,
}

-- The callback leaves the enforcer and the queue alone until it calls `process_events`.
pub publish_keeps :
    {F : Type 0}
    → (q : Program F) (tid : ℕ) (states : List (DriverState F)) (lap : ℕ)
      (checks_idle weather_idle : Bool)
    → (p : Program F) → publish q tid states lap checks_idle weather_idle ≡ returned p
    → (p.penalty ≡ q.penalty) × (p.events ≡ q.events)
unfolding publish
publish_keeps q tid states lap checks_idle weather_idle p e = ground (arith, e)

-- Events that announce no penalty arrive behind what waits in the queue.
arrives-Ledger :
    {penalty : PenaltyEnforcer} {pushed processed : List RaceControlEvent}
    (batch : List RaceControlEvent) (events after : EventQueue) (added : List RaceControlEvent)
    → after ≡ events ++ added
    → All Framed added
    → ((i : ℕ) → penalties i added ≡ 0)
    → Ledger penalty (batch ++ events) pushed processed
    → Ledger penalty (batch ++ after) (pushed ++ added) processed
arrives-Ledger {penalty} {pushed} {processed} batch events after added e framed plain h =
    subst (λ w. Ledger penalty w (pushed ++ added) processed)
      (append_assoc batch events added ∙ ap (λ l. batch ++ l) (sym e))
      (pushes-Ledger added framed plain h)

module _ {F G R : Type 0} ⦃f : Float F⦄ (sample : G → F × G) (draw : R → F × R) where
  abbrev pub Balanced : System F G R → Type 0
  Balanced s =
      Ledger s.program.penalty (batch_of s.callback ++ s.program.events) s.pushed s.processed

  -- The same waiting events, with the callback elsewhere.
  moves :
      (s : System F G R) {c : CallbackAt} (d : CallbackAt)
      → s.callback ≡ c
      → batch_of c ++ s.program.events ≡ batch_of d ++ s.program.events
      → Balanced s
      → Ledger s.program.penalty (batch_of d ++ s.program.events) s.pushed s.processed
  moves s {c} d e same h =
      subst (λ w. Ledger s.program.penalty w s.pushed s.processed)
        (ap (λ x. batch_of x ++ s.program.events) e ∙ same) h

  handled-Balanced :
      (s : System F G R) (e : RaceControlEvent) (batch : List RaceControlEvent) (now : ℕ)
      → Ledger s.program.penalty (e ∷ batch ++ s.program.events) s.pushed s.processed
      → Ledger
          (process_event s.program.penalty s.program.events e now).0
          (batch ++ (process_event s.program.penalty s.program.events e now).1)
          (s.pushed ++ (process_event s.program.penalty [] e now).1)
          (s.processed ++ e ∷ [])
  handled-Balanced s e batch now h =
      let penalty = s.program.penalty in
      let events = s.program.events in
      let added = (process_event penalty [] e now).1 in
      rw (process_event-penalty penalty events e now) (
        subst
          (λ w.
            Ledger (process_event penalty [] e now).0 w (s.pushed ++ added) (s.processed ++ e ∷ []))
          (append_assoc batch events added
            ∙ ap (λ l. batch ++ l) (sym (process_event-added penalty events e now)))
          (handles-Ledger e now (process_event-Framed penalty e now) h))

  pub Step-Balanced :
      (tid : ℕ) {s t : System F G R} → Step sample draw tid s t → Balanced s → Balanced t
  Step-Balanced tid {s} (Step.starts e more) h = moves s CallbackAt.ticking e refl h
  Step-Balanced tid {s} (Step.advances state left now e rest) h = h
  Step-Balanced tid {s} (Step.ranks e none_left) h = moves s CallbackAt.ticked e refl h
  Step-Balanced tid {s} (Step.publishes p e published) h =
      let (same, events) =
        publish_keeps s.program tid s.generator.states s.generator.race_lap _ _ p published in
      subst (λ q. Ledger q p.events s.pushed s.processed) (sym same)
        (subst (λ l. Ledger s.program.penalty l s.pushed s.processed) (sym events)
          (moves s (CallbackAt.draining []) e refl h))
  Step-Balanced tid {s} (Step.pops batch e events at_draining queued) h =
      subst (λ w. Ledger s.program.penalty w s.pushed s.processed)
        (ap (λ x. batch_of x ++ s.program.events) at_draining
          ∙ ap (λ l. batch ++ l) queued
          ∙ sym (append_assoc batch (e ∷ []) events))
        h
  Step-Balanced tid {s} (Step.drained batch e) h = moves s (CallbackAt.processing batch) e refl h
  Step-Balanced tid {s} (Step.handles e batch now here) h =
      handled-Balanced s e batch now (moves s (CallbackAt.processing (e ∷ batch)) here refl h)
  Step-Balanced tid {s} (Step.returns e) h = moves s (CallbackAt.between) e refl h
  Step-Balanced tid {s} (Step.checks driver left lap now e) h =
      arrives-Ledger (batch_of s.callback) s.program.events _ _
        (check_driver-added draw s.limits_rng s.program.events driver lap now)
        (check_driver-Framed draw s.limits_rng driver lap now)
        (check_driver-penalties draw s.limits_rng driver lap now) h
  Step-Balanced tid {s} (Step.checks_end lap e) h = h
  Step-Balanced tid {s} (Step.updates lap now e) h =
      arrives-Ledger (batch_of s.callback) s.program.events _ _
        (update-added draw s.weather s.program.events lap now)
        (update-Framed draw s.weather lap now) (update-penalties draw s.weather lap now) h

  pub Reach-Balanced :
      (tid : ℕ) {s₀ t : System F G R} → Balanced s₀ → Reach sample draw tid s₀ t → Balanced t
  Reach-Balanced tid h Reach.begin = h
  Reach-Balanced tid h (Reach.next r step) = Step-Balanced tid step (Reach-Balanced tid h r)
  Reach-Balanced tid h (Reach.polls r) = Reach-Balanced tid h r
  Reach-Balanced tid h (Reach.ends r) = Reach-Balanced tid h r

  pub start-Balanced :
      (queue : FrameQueue F) (track : TrackProfile F) (seed : G) (clock : ℕ → ℕ)
      (limits_seed weather_seed : R)
      → Balanced (start sample draw queue track seed clock limits_seed weather_seed)
  unfolding start
  start-Balanced queue track seed clock limits_seed weather_seed = start-Ledger
