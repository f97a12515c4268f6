-- ===== src/Main/Whole/Added.antt =====
-- What the parts of src/race_control add to the queue that they share: how the events stand there, that
-- their ids have four bytes, and which of them announce penalties.
use mathlib.Core.List.{append-nil}
use f1_telemetry.Prelude.{ℕ, ◌≡◌, refl, sym, Bool, true, false, [], ◌++◌, arith, All}
use f1_telemetry.Prelude.Int.{ℤ, pos, negsuc}
use f1_telemetry.Float.{Float}
use f1_telemetry.Common.Text.{blank_id, length-memcpy, c_str}
use f1_telemetry.Common.Types.{RaceControlEvent, DriverState}
use f1_telemetry.Common.SeasonData.{driver_index_of}
use f1_telemetry.RaceControl.{EventQueue}
use f1_telemetry.RaceControl.Penalty.{PenaltyEnforcer, process_event, warn_driver}
use f1_telemetry.RaceControl.Penalty.Tally.{tally, due}
use f1_telemetry.RaceControl.Penalty.Refine.{warn_lem, announced}
use f1_telemetry.RaceControl.Penalty.Issued.{Framed, penalties}
use f1_telemetry.RaceControl.TrackLimits.{check_driver}
use f1_telemetry.RaceControl.Weather.{WeatherSystem, update}

module _ {F R : Type 0} ⦃f : Float F⦄ (draw : R → F × R) where
  pub check_driver-added :
      (rng : R) (events : EventQueue) (s : DriverState F) (lap now : ℕ)
      → (check_driver draw rng events s lap now).1
        ≡ events ++ (check_driver draw rng [] s lap now).1
  unfolding check_driver
  check_driver-added rng events s lap now = ground (arith, append-nil events)

  pub check_driver-Framed :
      (rng : R) (s : DriverState F) (lap now : ℕ)
      → All Framed (check_driver draw rng [] s lap now).1
  unfolding check_driver
  check_driver-Framed rng s lap now = ground (arith, length-memcpy blank_id s.profile.id 3)

  pub check_driver-penalties :
      (rng : R) (s : DriverState F) (lap now i : ℕ)
      → penalties i (check_driver draw rng [] s lap now).1 ≡ 0
  unfolding check_driver penalties
  check_driver-penalties rng s lap now i = ground arith

  pub update-added :
      (w : WeatherSystem R) (events : EventQueue) (lap now : ℕ)
      → (update draw w events lap now).1 ≡ events ++ (update draw w [] lap now).1
  unfolding update
  update-added w events lap now = ground (arith, append-nil events)

  pub update-Framed : (w : WeatherSystem R) (lap now : ℕ) → All Framed (update draw w [] lap now).1
  unfolding update
  update-Framed w lap now = ground arith

  pub update-penalties :
      (w : WeatherSystem R) (lap now i : ℕ) → penalties i (update draw w [] lap now).1 ≡ 0
  unfolding update penalties
  update-penalties w lap now i = ground arith

warn_driver-added :
    (p : PenaltyEnforcer) (events : EventQueue) (z : ℤ) (e : RaceControlEvent) (now : ℕ)
    → ((warn_driver p events z e now).1 ≡ events ++ (warn_driver p [] z e now).1)
      × ((warn_driver p events z e now).0 ≡ (warn_driver p [] z e now).0)
unfolding warn_driver
warn_driver-added p events (negsuc n) e now = (sym (append-nil events), refl)
warn_driver-added p events (pos j) e now =
    rw (warn_lem p events j e now, warn_lem p [] j e now) (split (due (tally p j)), refl)
  where
    split : (b : Bool) → announced b events e now ≡ events ++ announced b [] e now
    split true = refl
    split false = sym (append-nil events)

pub process_event-added :
    (p : PenaltyEnforcer) (events : EventQueue) (e : RaceControlEvent) (now : ℕ)
    → (process_event p events e now).1 ≡ events ++ (process_event p [] e now).1
unfolding process_event
process_event-added p events e now = ground (
  arith,
  append-nil events,
  (warn_driver-added p events (driver_index_of (c_str e.driver_id)) e now).0,
)

warn_driver-Framed :
    (p : PenaltyEnforcer) (z : ℤ) (e : RaceControlEvent) (now : ℕ)
    → All Framed (warn_driver p [] z e now).1
unfolding warn_driver
warn_driver-Framed p (negsuc n) e now = tt
warn_driver-Framed p (pos j) e now = rw (warn_lem p [] j e now) (when_due (due (tally p j)))
  where
    when_due : (b : Bool) → All Framed (announced b [] e now)
    when_due true = (length-memcpy blank_id e.driver_id 4, tt)
    when_due false = tt

pub process_event-Framed :
    (p : PenaltyEnforcer) (e : RaceControlEvent) (now : ℕ) → All Framed (process_event p [] e now).1
unfolding process_event
process_event-Framed p e now =
    ground (arith, warn_driver-Framed p (driver_index_of (c_str e.driver_id)) e now)

-- What the enforcer does with an event does not depend on the queue.
pub process_event-penalty :
    (p : PenaltyEnforcer) (events : EventQueue) (e : RaceControlEvent) (now : ℕ)
    → (process_event p events e now).0 ≡ (process_event p [] e now).0
unfolding process_event
process_event-penalty p events e now =
    ground (arith, (warn_driver-added p events (driver_index_of (c_str e.driver_id)) e now).1)
