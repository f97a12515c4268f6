-- ===== src/RaceControl/Penalty/Issued.antt =====
-- How many penalties src/race_control/penalty_enforcer.cpp announces for a driver.
use f1_telemetry.Prelude.{
  ℕ, ◌+◌, ◌≤◌, ◌≡◌, inl, inr, refl, ap, Bool, true, false, List, [], ◌∷◌, ◌++◌, arith, length, All,
  All-append, Bool-cases, ◌==◌, ==_iff, if◌then◌else◌,
}
use f1_telemetry.Prelude.Int.{ℤ, pos, negsuc}
use f1_telemetry.Common.Text.{c_str, blank_id, memcpy-whole}
use f1_telemetry.Common.Types.{RaceControlEvent, EventType}
use f1_telemetry.Common.SeasonData.{driver_index_of}
use f1_telemetry.RaceControl.{EventQueue}
use f1_telemetry.RaceControl.Penalty.{
  PenaltyEnforcer, process_event, process_batch, process_events, warn_driver, announcement,
}
use f1_telemetry.RaceControl.Penalty.Tally.{tally, due, violation, is_index}
use f1_telemetry.RaceControl.Penalty.Refine.{announced, warn_lem, pop_all_lem}

abbrev is_penalty : EventType → Bool
is_penalty EventType.penalty_issued = true
is_penalty _ = false

-- The event announces a penalty of driver `i` of the roster.
abbrev pub penalises : ℕ → RaceControlEvent → Bool
penalises i e =
    if is_penalty e.type then is_index (driver_index_of (c_str e.driver_id)) i else false

abbrev pub count : (RaceControlEvent → Bool) → List RaceControlEvent → ℕ
count test [] = 0
count test (e ∷ events) = (if test e then 1 else 0) + count test events

unfoldable pub penalties : ℕ → List RaceControlEvent → ℕ
penalties i events = count (penalises i) events

unfoldable pub violations : ℕ → List RaceControlEvent → ℕ
violations i events = count (violation i) events

-- `driver_id` has its four bytes.
abbrev pub Framed : RaceControlEvent → Type 0
Framed e = length e.driver_id ≡ 4

pub count-append :
    (test : RaceControlEvent → Bool) (es fs : List RaceControlEvent)
    → count test (es ++ fs) ≡ count test es + count test fs
count-append test [] fs = omega arith
count-append test (e ∷ es) fs = omega (arith, count-append test es fs)

pub count-length :
    (test : RaceControlEvent → Bool) (es : List RaceControlEvent) → count test es ≤ length es
count-length test [] = omega arith
count-length test (e ∷ es) = ground (arith, count-length test es)

penalises-announcement :
    (i : ℕ) (e : RaceControlEvent) (now : ℕ)
    → Framed e
    → penalises i (announcement e now) ≡ is_index (driver_index_of (c_str e.driver_id)) i
penalises-announcement i e now framed =
    ap (λ id. is_index (driver_index_of (c_str id)) i) (memcpy-whole blank_id e.driver_id framed)

-- One penalty more if the event is a violation by a driver to whom a penalty is due.
abbrev one_if : Bool → ℕ
one_if b = if b then 1 else 0

abbrev pub issued_by : Bool → Bool → ℕ
issued_by mine is_due = if mine then one_if is_due else 0

penalties-announced :
    (b : Bool) (events : EventQueue) (i : ℕ) (e : RaceControlEvent) (now : ℕ)
    → Framed e
    → penalties i (announced b events e now)
      ≡ penalties i events + issued_by (is_index (driver_index_of (c_str e.driver_id)) i) b
unfolding penalties
penalties-announced false events i e now framed = ground arith
penalties-announced true events i e now framed = ground (
  arith,
  count-append (penalises i) events (announcement e now ∷ []),
  penalises-announcement i e now framed,
)

warn_driver-penalties :
    (p : PenaltyEnforcer) (events : EventQueue) (z : ℤ) (e : RaceControlEvent) (now i : ℕ)
    → Framed e
    → driver_index_of (c_str e.driver_id) ≡ z
    → penalties i (warn_driver p events z e now).1
      ≡ penalties i events + issued_by (is_index z i) (due (tally p i))
unfolding warn_driver
warn_driver-penalties p events (negsuc n) e now i framed h = omega arith
warn_driver-penalties p events (pos j) e now i framed h =
    rw (warn_lem p events j e now, penalties-announced (due (tally p j)) events i e now framed, h)
      (ap (λ k. penalties i events + k) (own j i))
  where
    own : (j i : ℕ) → issued_by (j == i) (due (tally p j)) ≡ issued_by (j == i) (due (tally p i))
    own j i = elim (Bool-cases (j == i)) [
      | inl same ↦ ap (λ k. issued_by (j == i) (due (tally p k))) ((==_iff j i).0 same)
      | inr other ↦ rw other
    ]

pub process_event-penalties :
    (p : PenaltyEnforcer) (events : EventQueue) (e : RaceControlEvent) (now i : ℕ)
    → Framed e
    → penalties i (process_event p events e now).1
      ≡ penalties i events + issued_by (violation i e) (due (tally p i))
unfolding process_event
process_event-penalties p events e now i framed = ground (
  arith,
  warn_driver-penalties p events (driver_index_of (c_str e.driver_id)) e now i framed refl,
)

abbrev pub IsPenalty : RaceControlEvent → Type 0
IsPenalty e = e.type ≡ EventType.penalty_issued

warn_driver-IsPenalty :
    (p : PenaltyEnforcer) (events : EventQueue) (z : ℤ) (e : RaceControlEvent) (now : ℕ)
    → All IsPenalty events
    → All IsPenalty (warn_driver p events z e now).1
unfolding warn_driver
warn_driver-IsPenalty p events (negsuc n) e now all = all
warn_driver-IsPenalty p events (pos j) e now all =
    rw (warn_lem p events j e now) (when_due (due (tally p j)))
  where
    when_due : (b : Bool) → All IsPenalty (announced b events e now)
    when_due true = All-append IsPenalty events (announcement e now ∷ []) all (refl, tt)
    when_due false = all

process_event-IsPenalty :
    (p : PenaltyEnforcer) (events : EventQueue) (e : RaceControlEvent) (now : ℕ)
    → All IsPenalty events
    → All IsPenalty (process_event p events e now).1
unfolding process_event
process_event-IsPenalty p events e now all =
    ground (arith, warn_driver-IsPenalty p events (driver_index_of (c_str e.driver_id)) e now all)

process_batch-IsPenalty :
    (p : PenaltyEnforcer) (events : EventQueue) (batch : List RaceControlEvent) (clock : ℕ → ℕ)
    → All IsPenalty events
    → All IsPenalty (process_batch p events batch clock).1
unfolding process_batch
process_batch-IsPenalty p events [] clock all = all
process_batch-IsPenalty p events (e ∷ batch) clock all =
    let (q, pushed) = process_event p events e (clock (length batch)) in
    process_batch-IsPenalty q pushed batch clock
      (process_event-IsPenalty p events e (clock (length batch)) all)

process_batch-ignored :
    (p : PenaltyEnforcer) (events : EventQueue) (batch : List RaceControlEvent) (clock : ℕ → ℕ)
    → All IsPenalty batch
    → process_batch p events batch clock ≡ (p, events)
unfolding process_batch process_event
process_batch-ignored p events [] clock all = refl
process_batch-ignored p events (e ∷ batch) clock (here, all) =
    rw here (process_batch-ignored p events batch clock all)

-- When `process_events` returns, the queue holds its own announcements of penalties and nothing
-- else: they outlive the call. If nobody else takes them, the next call takes all of them out of the
-- queue and does nothing for them.
announcements_left :
    (p : PenaltyEnforcer) (events : EventQueue) (clock next_clock : ℕ → ℕ)
    → let (q, left) = process_events p events clock in
      All IsPenalty left × (process_events q left next_clock ≡ (q, []))
unfolding process_events
announcements_left p events clock next_clock = rw (pop_all_lem events) (
    let (q, left) = process_batch p [] events clock in
    let all : All IsPenalty left = process_batch-IsPenalty p [] events clock tt in
    (all, rw (pop_all_lem left) (process_batch-ignored q [] left next_clock all)))
