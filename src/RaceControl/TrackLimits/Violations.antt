-- ===== src/RaceControl/TrackLimits/Violations.antt =====
-- The events of src/race_control/track_limits.cpp: whom they name, and what the penalty enforcer
-- makes of them.
use mathlib.Core.List.{append_assoc, append-nil}
use f1_telemetry.Prelude.{
  ℕ, zero, suc, ◌≡◌, refl, sym, ap, ◌∙◌, Bool, not, List, [], ◌∷◌, ◌++◌, map, arith, length, some,
  get_elem?, ◌==◌, if◌then◌else◌,
}
use f1_telemetry.Float.{Float, ◌≺◌, ◌⊕◌, ◌⊗◌, ◌⊘◌}
use f1_telemetry.Common.Text.{text, to_string_ℤ, length-memcpy, memcpy, blank_id, c_str}
use f1_telemetry.Common.Types.{RaceControlEvent, EventType, DriverState}
use f1_telemetry.Common.SeasonData.{DriverRow, driver_rows, driver_index_of}
use f1_telemetry.Common.SeasonData.Roster.{frame_id_indexed}
use f1_telemetry.RaceControl.{EventQueue}
use f1_telemetry.RaceControl.TrackLimits.{exceeded, check_driver, check}
use f1_telemetry.RaceControl.Penalty.Tally.{violation, is_index}
use f1_telemetry.RaceControl.Penalty.Issued.{Framed}

abbrev keep : {A : Type 0} → (A → Bool) → List A → List A
keep test [] = []
keep test (x ∷ xs) = if test x then x ∷ keep test xs else keep test xs

abbrev pair_up : {A B : Type 0} → List A → List B → List (A × B)
pair_up [] bs = []
pair_up (a ∷ as') [] = []
pair_up (a ∷ as') (b ∷ bs) = (a, b) ∷ pair_up as' bs

-- The event without its time.
abbrev pub strip : RaceControlEvent → RaceControlEvent
strip e = record e { timestamp = 0 }

module _ {F : Type 0} ⦃f : Float F⦄ where
  abbrev pub on_track : List (DriverState F) → List (DriverState F)
  on_track states = keep (λ s. not s.in_pit) states

  -- The coin shows less than 0.004 times the aggression, times one and the wear of the tires, times the
  -- speed over 280 km/h.
  abbrev offends : DriverState F × F → Bool
  offends (s, coin) = coin ≺ (
      f.decimal 4 3
      ⊗ s.profile.aggression
      ⊗ (f.decimal 10 1 ⊕ s.latest_frame.tire_wear)
      ⊗ (s.latest_frame.speed_kph ⊘ f.decimal 2800 1))

  -- The report of a driver over the limits, without its time.
  abbrev pub report : ℕ → DriverState F → RaceControlEvent
  report lap s = record {
    type = EventType.track_limits;
    driver_id = memcpy blank_id s.profile.id 3;
    lap = lap;
    message =
        s.profile.id
        ++ text " exceeded track limits (S"
        ++ to_string_ℤ s.latest_frame.sector
        ++ text ")";
    timestamp = 0;
  }

  module _ {G : Type 0} (draw : G → F × G) where
    -- The next values, and the generator after them.
    unfoldable pub coins : ℕ → G → List F
    coins zero rng = []
    coins (suc n) rng = (draw rng).0 ∷ coins n (draw rng).1

    unfoldable pub advance : ℕ → G → G
    advance zero rng = rng
    advance (suc n) rng = advance n (draw rng).1

    -- The drivers on the track who exceed the limits, if they are given the next coins in order.
    unfoldable pub offenders : G → List (DriverState F) → List (DriverState F)
    offenders rng states =
        map (λ o. o.0)
          (keep offends (pair_up (on_track states) (coins (length (on_track states)) rng)))

    -- What the loop must leave for the drivers.
    abbrev Checked : G → EventQueue → List (DriverState F) → ℕ → G × EventQueue → Type 0
    Checked rng events states lap (after, pushed) =
        (after ≡ advance (length (on_track states)) rng)
        × (map strip pushed ≡ map strip events ++ map (report lap) (offenders rng states))

    map-strip_append : (xs ys : EventQueue) → map strip (xs ++ ys) ≡ map strip xs ++ map strip ys
    map-strip_append [] ys = refl
    map-strip_append (x ∷ xs) ys = ap (◌∷◌ (strip x)) (map-strip_append xs ys)

    Checked-cons :
        (rng : G) (events : EventQueue) (s : DriverState F) (states : List (DriverState F))
        (lap now : ℕ) (result : G × EventQueue)
        → (let (after, pushed) = check_driver draw rng events s lap now in
            Checked after pushed states lap result)
        → Checked rng events (s ∷ states) lap result
    unfolding check_driver coins advance offenders
    Checked-cons rng events s states lap now result h = ground (
      arith,
      h,
      map-strip_append events (exceeded s lap now ∷ []),
      append_assoc (map strip events) (report lap s ∷ [])
          (map (report lap) (offenders (draw rng).1 states)),
    )

    -- `check` draws one coin for each driver who is not in the pits, in order. It adds to the queue
    -- one TRACK_LIMITS event, with the driver's id, lap and sector, for each of them whose coin shows less
    -- than 0.004 times the driver's aggression, times one plus the wear of the tires, times the speed over
    -- 280 km/h, in the drivers' order, and no other event.
    pub check_refines :
        (rng : G) (events : EventQueue) (states : List (DriverState F)) (lap : ℕ) (clock : ℕ → ℕ)
        → let (after, pushed) = check draw rng events states lap clock in
          (after ≡ advance (length (on_track states)) rng)
          × (map strip pushed ≡ map strip events ++ map (report lap) (offenders rng states))
    unfolding check advance offenders coins
    check_refines rng events [] lap clock = (refl, sym (append-nil (map strip events)))
    check_refines rng events (s ∷ states) lap clock =
        let (after, pushed) = check_driver draw rng events s lap (clock (length states)) in
        Checked-cons rng events s states lap (clock (length states))
          (check draw after pushed states lap clock) (check_refines after pushed states lap clock)

  -- The event that `check` pushes for a driver of the roster has a `driver_id` of four bytes, and the
  -- penalty enforcer counts it as a violation of that driver and of no other.
  exceeded_counted :
      (s : DriverState F) (lap now i j : ℕ) (r : DriverRow)
      → get_elem? driver_rows i ≡ some r
      → s.profile.id ≡ r.id
      → Framed (exceeded s lap now) × (violation j (exceeded s lap now) ≡ (i == j))
  exceeded_counted s lap now i j r here e = (
    length-memcpy blank_id s.profile.id 3,
    ap (λ z. is_index z j)
        (ap (λ id. driver_index_of (c_str (memcpy blank_id id 3))) e ∙ frame_id_indexed i r here),
  )
