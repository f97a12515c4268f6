-- ===== src/Simulation/TelemetryGenerator/Standings/Positions.antt =====
-- The positions that src/simulation/telemetry_generator.cpp assigns.
use f1_telemetry.Prelude.{
  ℕ, ◌+◌, ◌<◌, ◌≡◌, ◌≢◌, refl, sym, ap, ap₂, subst, ◌∙◌, Bool, false, List, [], ◌∷◌, length,
  length-set, All, set, get_or-set_self, get_or-set_ne, get_or-set_keeps,
}
use f1_telemetry.Float.{Float, IsOrdered}
use f1_telemetry.Common.Types.{DriverState, TrackProfile, default_state}
use f1_telemetry.Simulation.TelemetryGenerator.Standings.{
  iota, stable_sort, driver_at, race_distance, ahead, placed, assign_from, with_drs, drs_from,
  order_of, place_all, update_positions_and_drs,
}
use f1_telemetry.Simulation.TelemetryGenerator.Standings.Sorted.{
  Distinct, All-sort, length-sort, InOrder, InOrder-congr, sort-InOrder, sort-Distinct, iota-below,
  iota-Distinct, length-iota,
}

module _ {F : Type 0} ⦃f : Float F⦄ where
  -- From place `p` on, the drivers at the indices have the positions p + 1, p + 2 and so on.
  abbrev pub Placed : ℕ → List ℕ → List (DriverState F) → Type 0
  Placed p [] states = Unit
  Placed p (i ∷ idx) states = ((driver_at states i).position ≡ p + 1) × Placed (p + 1) idx states

  Placed-congr :
      (p : ℕ) (idx : List ℕ) (states after : List (DriverState F))
      → ((j : ℕ) → (driver_at after j).position ≡ (driver_at states j).position)
      → Placed p idx states
      → Placed p idx after
  Placed-congr p [] states after same h = tt
  Placed-congr p (i ∷ idx) states after same (here, h) =
      (same i ∙ here, Placed-congr (p + 1) idx states after same h)

  -- A measure that neither the position, the gap nor the DRS changes.
  abbrev Steady : {B : Type 0} → (DriverState F → B) → Type 0
  Steady g =
      ((track : TrackProfile F) (p : ℕ) (leader s : DriverState F)
        → g (placed track p leader s) ≡ g s)
      × ((s : DriverState F) (drs : Bool) → g (with_drs s drs) ≡ g s)

  assign_from-Steady :
      {B : Type 0} (g : DriverState F → B) (track : TrackProfile F) (first p : ℕ) (idx : List ℕ)
      (states : List (DriverState F)) (j : ℕ)
      → Steady g
      → g (driver_at (assign_from track first p idx states) j) ≡ g (driver_at states j)
  unfolding assign_from
  assign_from-Steady g track first p [] states j steady = refl
  assign_from-Steady g track first p (i ∷ idx) states j steady =
      assign_from-Steady g track first (p + 1) idx _ j steady
      ∙ get_or-set_keeps g states i j _ (default_state 0) (steady.0 track p _ (driver_at states i))

  drs_from-kept :
      {B : Type 0} (g : DriverState F → B) (prev : ℕ) (idx : List ℕ) (states : List (DriverState F))
      (j : ℕ)
      → ((s : DriverState F) (drs : Bool) → g (with_drs s drs) ≡ g s)
      → g (driver_at (drs_from prev idx states) j) ≡ g (driver_at states j)
  unfolding drs_from
  drs_from-kept g prev [] states j steady = refl
  drs_from-kept g prev (i ∷ idx) states j steady =
      drs_from-kept g i idx _ j steady
      ∙ get_or-set_keeps g states i j _ (default_state 0) (steady (driver_at states i) _)

  -- The drivers whose indices are not in the rest of the order keep what they have.
  assign_from-other :
      (track : TrackProfile F) (first p : ℕ) (idx : List ℕ) (states : List (DriverState F)) (j : ℕ)
      → All (λ i. j ≢ i) idx
      → driver_at (assign_from track first p idx states) j ≡ driver_at states j
  unfolding assign_from
  assign_from-other track first p [] states j out = refl
  assign_from-other track first p (i ∷ idx) states j (ne, out) =
      assign_from-other track first (p + 1) idx _ j out
      ∙ get_or-set_ne states i j _ (default_state 0) (λ e. ne (sym e))

  assign_from-Placed :
      (track : TrackProfile F) (first p : ℕ) (idx : List ℕ) (states : List (DriverState F))
      → Distinct idx
      → All (λ i. i < length states) idx
      → Placed p idx (assign_from track first p idx states)
  unfolding assign_from
  assign_from-Placed track first p [] states distinct below = tt
  assign_from-Placed track first p (i ∷ idx) states (new, distinct) (here, below) =
      let s = placed track p (driver_at states first) (driver_at states i) in
      (
        ap (λ (t : DriverState F). t.position)
            (assign_from-other track first (p + 1) idx (set states i s) i new
              ∙ get_or-set_self states i s (default_state 0) here),
        assign_from-Placed track first (p + 1) idx (set states i s) distinct
            (subst (λ n. All (λ k. k < n) idx) (sym (length-set states i s)) below),
      )

  place_all-Placed :
      (track : TrackProfile F) (idx : List ℕ) (states : List (DriverState F))
      → Distinct idx
      → All (λ i. i < length states) idx
      → Placed 0 idx (place_all track idx states)
  unfolding place_all
  place_all-Placed track [] states distinct below = tt
  place_all-Placed track (first ∷ idx) states distinct below =
      let assigned = assign_from track first 0 (first ∷ idx) states in
      Placed-congr 0 (first ∷ idx) assigned (place_all track (first ∷ idx) states)
        (λ j.
          drs_from-kept (λ t. t.position) first idx _ j (λ s drs. refl)
          ∙ get_or-set_keeps (λ (t : DriverState F). t.position) assigned first j _
              (default_state 0) refl)
        (assign_from-Placed track first 0 (first ∷ idx) states distinct below)

  place_all-Steady :
      {B : Type 0} (g : DriverState F → B) (track : TrackProfile F) (idx : List ℕ)
      (states : List (DriverState F)) (j : ℕ)
      → Steady g
      → g (driver_at (place_all track idx states) j) ≡ g (driver_at states j)
  unfolding place_all
  place_all-Steady g track [] states j steady = refl
  place_all-Steady g track (first ∷ idx) states j steady =
      drs_from-kept g first idx _ j steady.1
      ∙ get_or-set_keeps g _ first j _ (default_state 0) (steady.1 _ false)
      ∙ assign_from-Steady g track first 0 (first ∷ idx) states j steady

  length-assign_from :
      (track : TrackProfile F) (first p : ℕ) (idx : List ℕ) (states : List (DriverState F))
      → length (assign_from track first p idx states) ≡ length states
  unfolding assign_from
  length-assign_from track first p [] states = refl
  length-assign_from track first p (i ∷ idx) states =
      length-assign_from track first (p + 1) idx _ ∙ length-set states i _

  length-drs_from :
      (prev : ℕ) (idx : List ℕ) (states : List (DriverState F))
      → length (drs_from prev idx states) ≡ length states
  unfolding drs_from
  length-drs_from prev [] states = refl
  length-drs_from prev (i ∷ idx) states = length-drs_from i idx _ ∙ length-set states i _

  length-place_all :
      (track : TrackProfile F) (idx : List ℕ) (states : List (DriverState F))
      → length (place_all track idx states) ≡ length states
  unfolding place_all
  length-place_all track [] states = refl
  length-place_all track (first ∷ idx) states =
      length-drs_from first idx _
      ∙ length-set _ first _
      ∙ length-assign_from track first 0 (first ∷ idx) states

  race_distance-Steady : (track : TrackProfile F) → Steady (race_distance track)
  unfolding race_distance
  race_distance-Steady track = (λ t p leader s. refl, λ s drs. refl)

  -- There is an order of all the drivers, each once, such that the first has position 1, the second
  -- position 2 and so on, and no driver of the order has a greater race distance than the one
  -- before.
  abbrev pub Ranked : TrackProfile F → List (DriverState F) → Type 0
  Ranked track states =
      (idx : List ℕ) × (length idx ≡ length states)
      × All (λ i. i < length states) idx
      × Distinct idx
      × Placed 0 idx states
      × InOrder (ahead track states) idx

  -- Under the laws of the order of `float`, `update_positions_and_drs` keeps the drivers, their number
  -- and their race distances, and ranks them: there is an order of all of them, each once, in which
  -- the positions are 1, 2 and so on, and nobody has a greater race distance than the driver before.
  pub positions-Ranked :
      (laws : IsOrdered F) (track : TrackProfile F) (states : List (DriverState F))
      → let after = update_positions_and_drs track states in
        (length after ≡ length states)
        × ((i : ℕ) → (driver_at after i).profile ≡ (driver_at states i).profile)
        × ((i : ℕ)
            → race_distance track (driver_at after i) ≡ race_distance track (driver_at states i))
        × Ranked track after
  unfolding update_positions_and_drs order_of
  positions-Ranked laws track states =
      let n = length states in
      let before = ahead track states in
      let idx = stable_sort before (iota 0 n) in
      let after = place_all track idx states in
      let long : length after ≡ n = length-place_all track idx states in
      let below : All (λ i. i < n) idx = All-sort before (λ i. i < n) (iota 0 n) (iota-below n) in
      let distinct = sort-Distinct before (iota 0 n) (iota-Distinct 0 n) in
      let far : ((i : ℕ)
          → race_distance track (driver_at after i) ≡ race_distance track (driver_at states i)) =
        λ i.
          place_all-Steady (race_distance track) track idx states i (race_distance-Steady track) in
      (
        long,
        λ i.
            place_all-Steady (λ (s : DriverState F). s.profile) track idx states i
              (λ t p leader s. refl, λ s drs. refl),
        far,
        (
          idx,
          length-sort before (iota 0 n) ∙ length-iota 0 n ∙ sym long,
          subst (λ m. All (λ i. i < m) idx) (sym long) below,
          distinct,
          place_all-Placed track idx states distinct below,
          InOrder-congr before (ahead track after) idx (λ i j. sym (ap₂ f.lt (far j) (far i)))
              (sort-InOrder before (λ i j h. laws.not-lt_of_le _ _ (laws.le_of_lt _ _ h))
                (iota 0 n)),
        ),
      )
