-- ===== src/RaceControl/Penalty/Refine.antt =====
-- src/race_control/penalty_enforcer.cpp: the arrays do for each driver what the driver's tally says.
use mathlib.Core.Bool.{false≢true}
use f1_telemetry.Prelude.{
  ℕ, ◌<◌, ◌≡◌, ◌≢◌, inl, inr, refl, sym, ap, subst, ◌∙◌, Bool, true, false, List, [], ◌∷◌, ◌++◌,
  arith, length, length-set, get_or-set_self, get_or-set_ne, set, set-get_or, Bool-cases, ◌==◌,
  ==_iff, if◌then◌else◌,
}
use f1_telemetry.Prelude.Int.{ℤ, pos, negsuc}
use f1_telemetry.Common.Text.{c_str}
use f1_telemetry.Common.Types.{RaceControlEvent, PenaltyState}
use f1_telemetry.Common.SeasonData.{driver_index_of}
use f1_telemetry.Common.SeasonData.Roster.{driver_index_of-bound}
use f1_telemetry.RaceControl.{EventQueue, pop_all}
use f1_telemetry.RaceControl.Penalty.{
  PenaltyEnforcer, issue, warn, warn_driver, process_event, process_batch, process_events,
  announcement,
}
use f1_telemetry.RaceControl.Penalty.Tally.{
  Tally, tally, tally_batch, warned, due, violation, is_index,
}

-- Each array has its 20 entries.
abbrev pub WellFormed : PenaltyEnforcer → Type 0
WellFormed p = (length p.warnings ≡ 20) × (length p.states ≡ 20) × (length p.extra_pit_time ≡ 20)

-- The enforcer with the tally of driver `i` replaced.
abbrev pub put_tally : PenaltyEnforcer → ℕ → Tally → PenaltyEnforcer
put_tally p i t = record {
  warnings = set p.warnings i t.warnings;
  states = set p.states i t.state;
  extra_pit_time = set p.extra_pit_time i t.extra;
}

tally-put_self :
    (p : PenaltyEnforcer) (i : ℕ) (t : Tally)
    → WellFormed p
    → i < 20
    → tally (put_tally p i t) i ≡ t
tally-put_self p i t (w, s, x) h = rw (
  get_or-set_self p.warnings i t.warnings 0 (omega arith),
  get_or-set_self p.states i t.state PenaltyState.clear (omega arith),
  get_or-set_self p.extra_pit_time i t.extra 0 (omega arith),
)

tally-put_ne :
    (p : PenaltyEnforcer) (i j : ℕ) (t : Tally) → i ≢ j → tally (put_tally p i t) j ≡ tally p j
tally-put_ne p i j t h = rw (
  get_or-set_ne p.warnings i j t.warnings 0 h,
  get_or-set_ne p.states i j t.state PenaltyState.clear h,
  get_or-set_ne p.extra_pit_time i j t.extra 0 h,
)

put-WellFormed :
    (p : PenaltyEnforcer) (i : ℕ) (t : Tally) → WellFormed p → WellFormed (put_tally p i t)
put-WellFormed p i t (w, s, x) = (length-set _ i _ ∙ w, length-set _ i _ ∙ s, length-set _ i _ ∙ x)

-- The queue with the penalty announced, if it is due.
abbrev pub announced : Bool → EventQueue → RaceControlEvent → ℕ → EventQueue
announced true events e now = events ++ announcement e now ∷ []
announced false events e now = events

pub warn_lem :
    (p : PenaltyEnforcer) (events : EventQueue) (i : ℕ) (e : RaceControlEvent) (now : ℕ)
    → warn p events i e now
      ≡ (put_tally p i (warned (tally p i)), announced (due (tally p i)) events e now)
unfolding warn issue
warn_lem p events i e now =
    ground (arith, set-get_or p.states i PenaltyState.clear, set-get_or p.extra_pit_time i 0)

put-tally :
    (p : PenaltyEnforcer) (i j : ℕ) (t : Tally)
    → WellFormed p
    → j < 20
    → tally (put_tally p j t) i ≡ (if j == i then t else tally p i)
put-tally p i j t wf h = elim (Bool-cases (j == i)) [
  | inl same ↦
      let here : tally (put_tally p j t) i ≡ t =
        subst (λ k. tally (put_tally p j t) k ≡ t) ((==_iff j i).0 same)
          (tally-put_self p j t wf h) in
      here ∙ sym (ap (λ b. if b then t else tally p i) same)
  | inr other ↦
      tally-put_ne p j i t (λ e. false≢true (sym other ∙ (==_iff j i).1 e))
      ∙ sym (ap (λ b. if b then t else tally p i) other)
]

-- What the event does to the tally of driver `i`, who has the index `z` or not.
abbrev pub touched : Bool → Tally → Tally
touched mine t = if mine then warned t else t

warn_driver-tally :
    (p : PenaltyEnforcer) (events : EventQueue) (z : ℤ) (e : RaceControlEvent) (now i : ℕ)
    → WellFormed p
    → ((j : ℕ) → z ≡ pos j → j < 20)
    → tally (warn_driver p events z e now).0 i ≡ touched (is_index z i) (tally p i)
unfolding warn_driver
warn_driver-tally p events (negsuc n) e now i wf bound = refl
warn_driver-tally p events (pos j) e now i wf bound =
    rw (warn_lem p events j e now, put-tally p i j (warned (tally p j)) wf (bound j refl)) (own j i)
  where
    own :
        (j i : ℕ)
        → (if j == i then warned (tally p j) else tally p i) ≡ touched (j == i) (tally p i)
    own j i = ground (arith, ==_iff j i)

warn_driver-WellFormed :
    (p : PenaltyEnforcer) (events : EventQueue) (z : ℤ) (e : RaceControlEvent) (now : ℕ)
    → WellFormed p
    → WellFormed (warn_driver p events z e now).0
unfolding warn_driver
warn_driver-WellFormed p events (negsuc n) e now wf = wf
warn_driver-WellFormed p events (pos j) e now wf =
    subst (λ r. WellFormed r.0) (sym (warn_lem p events j e now))
      (put-WellFormed p j (warned (tally p j)) wf)

pub process_event-tally :
    (p : PenaltyEnforcer) (events : EventQueue) (e : RaceControlEvent) (now i : ℕ)
    → WellFormed p
    → tally (process_event p events e now).0 i ≡ touched (violation i e) (tally p i)
unfolding process_event
process_event-tally p events e now i wf = ground (
  arith,
  warn_driver-tally p events (driver_index_of (c_str e.driver_id)) e now i wf
      (driver_index_of-bound (c_str e.driver_id)),
)

pub process_event-WellFormed :
    (p : PenaltyEnforcer) (events : EventQueue) (e : RaceControlEvent) (now : ℕ)
    → WellFormed p
    → WellFormed (process_event p events e now).0
unfolding process_event
process_event-WellFormed p events e now wf =
    ground (arith, warn_driver-WellFormed p events (driver_index_of (c_str e.driver_id)) e now wf)

process_batch-tally :
    (p : PenaltyEnforcer) (events : EventQueue) (batch : List RaceControlEvent) (clock : ℕ → ℕ)
    → WellFormed p
    → WellFormed (process_batch p events batch clock).0
      × ((i : ℕ) → tally (process_batch p events batch clock).0 i ≡ tally_batch i (tally p i) batch)
unfolding process_batch tally_batch
process_batch-tally p events [] clock wf = (wf, λ i. refl)
process_batch-tally p events (e ∷ batch) clock wf =
    let next = process_event p events e (clock (length batch)) in
    let (wf', rest) =
      process_batch-tally next.0 next.1 batch clock
        (process_event-WellFormed p events e (clock (length batch)) wf) in
    (
      wf',
      λ i.
          rest i
          ∙ ap (λ t. tally_batch i t batch)
              (process_event-tally p events e (clock (length batch)) i wf),
    )

pub pop_all_lem : (events : EventQueue) → pop_all events ≡ (events, [])
unfolding pop_all
pop_all_lem [] = refl
pop_all_lem (ev ∷ events) = rw (pop_all_lem events)

-- For every driver of the roster, `process_events` does to the driver's warnings, state and extra
-- pit time what the queued events ask for in their order: one more warning for each of the
-- driver's violations, and with the third warning of a driver without a penalty, the penalty. The
-- arrays keep their 20 entries.
pub process_events_refines :
    (p : PenaltyEnforcer) (events : EventQueue) (clock : ℕ → ℕ)
    → WellFormed p
    → WellFormed (process_events p events clock).0
      × ((i : ℕ) → tally (process_events p events clock).0 i ≡ tally_batch i (tally p i) events)
unfolding process_events
process_events_refines p events clock wf =
    rw (pop_all_lem events) (process_batch-tally p [] events clock wf)
