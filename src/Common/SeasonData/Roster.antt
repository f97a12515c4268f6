-- ===== src/Common/SeasonData/Roster.antt =====
-- The look-ups of src/common/season_data.h over the whole roster.
use f1_telemetry.Prelude.{
  ℕ, zero, suc, ◌+◌, ◌<◌, ◌≡◌, ◌↔◌, inl, inr, refl, subst, some, List, [], ◌∷◌, arith, get_elem?,
  get_elem?-bound, All, All-at, Bool-cases,
}
use f1_telemetry.Prelude.Int.{pos}
use f1_telemetry.Float.{Float}
use f1_telemetry.Common.Text.{Text, text_eq, text_eq_iff, memcpy, c_str, blank_id}
use f1_telemetry.Common.SeasonData.{
  DriverRow, driver_rows, car_rows, driver_index_of, index_from, car_for_driver, car_from, cars,
  profile_of, car_of,
}

abbrev AllFrom : (ℕ → DriverRow → Type 0) → ℕ → List DriverRow → Type 0
AllFrom P i [] = Unit
AllFrom P i (r ∷ rows) = P i r × AllFrom P (suc i) rows

AllFrom-at :
    (P : ℕ → DriverRow → Type 0) (start : ℕ) (rows : List DriverRow) (i : ℕ) (r : DriverRow)
    → AllFrom P start rows
    → get_elem? rows i ≡ some r
    → P (i + start) r
AllFrom-at P start [] i r all e = absurd (ground arith)
AllFrom-at P start (x ∷ rows) zero r (here, all) e = ground arith
AllFrom-at P start (x ∷ rows) (suc i) r (here, all) e =
    ground (arith, AllFrom-at P (suc start) rows i r all e)

Indexed : ℕ → DriverRow → Type 0
Indexed i r =
    (driver_index_of (c_str (memcpy blank_id r.id 3)) ≡ pos i) × (driver_index_of r.id ≡ pos i)

roster-Indexed : AllFrom Indexed 0 driver_rows
unfolding driver_rows driver_index_of index_from text_eq memcpy c_str Indexed
roster-Indexed = ground arith

-- The driver of the list with the index has the id.
abbrev pub RowAt : List DriverRow → ℕ → Text → Type 0
RowAt rows i id = (r : DriverRow) × (get_elem? rows i ≡ some r) × (r.id ≡ id)

index_from_below :
    (start : ℕ) (rows : List DriverRow) (id : Text) (i : ℕ)
    → index_from start rows id ≡ pos i
    → (j : ℕ) × (i ≡ j + start) × RowAt rows j id
unfolding index_from
index_from_below start [] id i h = absurd (ground arith)
index_from_below start (r ∷ rows) id i h = elim (Bool-cases (text_eq r.id id)) [
  | inl same ↦ (0, ground arith, (r, refl, (text_eq_iff r.id id).0 same))
  | inr other ↦
      let (j, sum, row) = index_from_below (start + 1) rows id i (ground arith) in
      (suc j, omega arith, row)
]

row-Indexed : (i : ℕ) (r : DriverRow) → get_elem? driver_rows i ≡ some r → Indexed i r
row-Indexed i r here =
    subst (λ k. Indexed k r) {x = i + 0} {y = i} (omega arith)
      (AllFrom-at Indexed 0 driver_rows i r roster-Indexed here)

pub indexed :
    (i : ℕ) (r : DriverRow) → get_elem? driver_rows i ≡ some r → driver_index_of r.id ≡ pos i
unfolding Indexed
indexed i r here = (row-Indexed i r here).1

-- `driver_index` and `driver_index_of` give an index exactly when the driver of the roster with that
-- index has the id: no two drivers share an id, and any other id is not found.
driver_index_of_iff : (id : Text) (i : ℕ) → (driver_index_of id ≡ pos i) ↔ RowAt driver_rows i id
unfolding driver_index_of
driver_index_of_iff id i = (
  λ h.
      let (j, sum, row) = index_from_below 0 driver_rows id i h in
      subst (λ k. RowAt driver_rows k id) {x = j} {y = i} (omega arith) row,
  λ (r, here, e). subst (λ t. driver_index_of t ≡ pos i) e (indexed i r here),
)

-- A driver's id, copied into a `char[4]` the way every component copies it, and read back, is found
-- at the driver's own index.
pub frame_id_indexed :
    (i : ℕ) (r : DriverRow)
    → get_elem? driver_rows i ≡ some r
    → driver_index_of (c_str (memcpy blank_id r.id 3)) ≡ pos i
unfolding Indexed
frame_id_indexed i r here = (row-Indexed i r here).0

pub driver_index_of-bound : (id : Text) (i : ℕ) → driver_index_of id ≡ pos i → i < 20
unfolding driver_rows
driver_index_of-bound id i h =
    let (r, here, e) = (driver_index_of_iff id i).0 h in get_elem?-bound driver_rows i r here

module _ (F : Type 0) ⦃f : Float F⦄ where
  RightCar : DriverRow → Type 0
  RightCar r = (car_for_driver {F = F} (profile_of r)).team ≡ r.team

  All-RightCar : All RightCar driver_rows
  unfolding RightCar car_for_driver cars car_rows driver_rows text_eq car_from car_of profile_of
  All-RightCar = ground arith

  -- Every driver of the roster drives a car of the driver's own team: the fallback of
  -- `car_for_driver` is never taken for one.
  car_for_driver_team :
      (i : ℕ) (r : DriverRow)
      → get_elem? driver_rows i ≡ some r
      → (car_for_driver {F = F} (profile_of r)).team ≡ r.team
  unfolding RightCar
  car_for_driver_team i r here = All-at RightCar driver_rows i r All-RightCar here
