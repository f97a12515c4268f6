-- ===== src/Main/Display/Table.antt =====
-- The rows that src/main.cpp prints of a snapshot, read back.
use mathlib.Core.List.{append_assoc}
use mathlib.Core.Option.{none-ne-some, some-injective}
use f1_telemetry.Prelude.{
  ℕ, zero, suc, ◌+◌, ◌≤◌, ◌<◌, ◌≡◌, inl, inr, refl, sym, ap, subst, ◌∙◌, Bool, true, false, ◌&&◌,
  some, List, [], ◌∷◌, ◌++◌, arith, length, length-append, take, map, get_elem?, All, ltb, ◌==◌,
  if◌then◌else◌, Bool-cases,
}
use f1_telemetry.Prelude.Int.{ℤ, pos}
use f1_telemetry.Float.{Float, ◌⊗◌}
use f1_telemetry.Common.Text.{
  Text, text, to_string_ℤ, Ends, Ends-append, to_string-Ends, to_string-length,
}
use f1_telemetry.Common.Types.{DriverState, DriverProfile, PenaltyState}
use f1_telemetry.Common.SeasonData.{drivers, driver_rows}
use f1_telemetry.RaceControl.Penalty.{PenaltyEnforcer, penalty_state}
use f1_telemetry.Main.Contract.{Rows, Counted}
use f1_telemetry.Main.Display.{
  Row, print_row, penalty_name, newline, row_of, format_gap, print_rows, top_rows,
}
use f1_telemetry.Main.Display.Columns.{is_blank, trim, line, Fits, RowFits, read_row, read-print}

trim_end : (u : Text) (c : ℕ) → (c == 32) ≡ false → trim (u ++ c ∷ []) ≡ u ++ c ∷ []
unfolding trim
trim_end [] c plain = rw plain refl
trim_end (b ∷ u) c plain = rw (trim_end u c plain) (inner u)
  where
    inner :
        (v : Text)
        → (if (b == 32) && is_blank (v ++ c ∷ []) then [] else b ∷ (v ++ c ∷ []))
          ≡ b ∷ (v ++ c ∷ [])
    inner [] = ground arith
    inner (d ∷ v) = ground arith

trim-Ends : (t : Text) → Ends t → trim t ≡ t
trim-Ends t (u, c, e, plain) = ap trim e ∙ trim_end u c plain ∙ sym e

-- A number and its unit, in a column.
unit-Fits :
    (n : ℕ) (z : ℤ) (unit : Text)
    → Ends unit
    → length (to_string_ℤ z) + length unit ≤ n
    → Fits n (to_string_ℤ z ++ unit)
unit-Fits n z unit ends room = (
  omega (arith, room, length-append (to_string_ℤ z) unit),
  trim-Ends _ (Ends-append (to_string_ℤ z) unit ends),
)

pen-line :
    (p : PenaltyState) (t : Text) → line (penalty_name p ++ (newline ++ t)) ≡ (penalty_name p, t)
unfolding line
pen-line PenaltyState.clear t = refl
pen-line PenaltyState.pending t = refl
pen-line PenaltyState.serving t = refl
pen-line PenaltyState.served t = refl

-- Reads as many rows as there are steps, with what follows them.
unfoldable pub read_rows : ℕ → Text → List Row × Text
read_rows zero t = ([], t)
read_rows (suc n) t =
    let (row, after) = read_row t in let (rows, rest) = read_rows n after in (row ∷ rows, rest)

module _ {F : Type 0} ⦃f : Float F⦄ (fixed : ℕ → F → Text) where
  NameFits : DriverProfile F → Type 0
  NameFits p = Fits 6 p.id × Fits 15 p.team

  roster-NameFits : All NameFits drivers
  unfolding NameFits drivers driver_rows trim
  roster-NameFits = ground arith

  NameFits-at :
      (i : ℕ) (p : DriverProfile F) (l : List (DriverProfile F))
      → All NameFits l
      → get_elem? l i ≡ some p
      → NameFits p
  unfolding NameFits
  NameFits-at i p [] all h = absurd (none-ne-some _ h)
  NameFits-at zero p (q ∷ l) (here, all) h =
      subst (λ r. Fits 6 r.id × Fits 15 r.team) (some-injective _ _ h) here
  NameFits-at (suc i) p (q ∷ l) (here, all) h = NameFits-at i p l all h

  -- The driver is one of the season's, and the numbers have room in their columns.
  pub record Legible (s : DriverState F) : Type 0 where
    pub number : ℕ
    pub of_roster : get_elem? drivers number ≡ some s.profile
    pub place_short : s.position < 100
    pub speed_short : length (to_string_ℤ (f.to_int s.latest_frame.speed_kph)) ≤ 6
    pub tires_short :
        length (to_string_ℤ (f.to_int (s.latest_frame.tire_wear ⊗ f.of_int (pos 100)))) ≤ 6
    pub fuel_short : length (to_string_ℤ (f.to_int s.latest_frame.fuel_kg)) ≤ 5
    pub gap_short : length (fixed 1 s.latest_frame.gap_to_leader) ≤ 7

  gap-Fits :
      (gap : F) (leads : Bool) → length (fixed 1 gap) ≤ 7 → Fits 8 (format_gap fixed gap leads)
  unfolding format_gap trim
  gap-Fits gap true h = (omega arith, refl)
  gap-Fits gap false h = (
    omega (arith, h, length-append (fixed 1 gap) (text "s")),
    trim-Ends _ (fixed 1 gap, 115, refl, ground arith),
  )

  drs-Fits : (on : Bool) → Fits 5 (if on then text "DRS" else [])
  unfolding trim
  drs-Fits true = (omega arith, refl)
  drs-Fits false = (omega arith, refl)

  pit-Fits : (on : Bool) → Fits 5 (if on then text "PIT" else [])
  unfolding trim
  pit-Fits true = (omega arith, refl)
  pit-Fits false = (omega arith, refl)

  row-RowFits :
      (penalty : PenaltyEnforcer) (s : DriverState F) → Legible s → RowFits (row_of fixed penalty s)
  unfolding row_of NameFits
  row-RowFits penalty s h =
      let (id, team) = NameFits-at h.number s.profile drivers roster-NameFits h.of_roster in
      record {
        place_fits = (
          omega (arith, to_string-length s.position h.place_short),
          trim-Ends _ (to_string-Ends s.position),
        );
        drv_fits = id;
        team_fits = team;
        speed_fits =
            unit-Fits 9 (f.to_int s.latest_frame.speed_kph) (text "kph")
              (107 ∷ 112 ∷ [], 104, refl, ground arith) (omega (arith, h.speed_short));
        tires_fits =
            unit-Fits 7 (f.to_int (s.latest_frame.tire_wear ⊗ f.of_int (pos 100))) (text "%")
              ([], 37, refl, ground arith) (omega (arith, h.tires_short));
        fuel_fits =
            unit-Fits 7 (f.to_int s.latest_frame.fuel_kg) (text "kg")
              (107 ∷ [], 103, refl, ground arith) (omega (arith, h.fuel_short));
        gap_fits = gap-Fits s.latest_frame.gap_to_leader (s.position == 1) h.gap_short;
        drs_fits = drs-Fits s.latest_frame.drs_active;
        pit_fits = pit-Fits s.latest_frame.in_pit;
        pen_line = pen-line (penalty_state penalty s.profile.id);
      }

  rows-read :
      (penalty : PenaltyEnforcer) (standings : List (DriverState F)) (rest : Text)
      → All Legible standings
      → read_rows (length standings) (print_rows fixed penalty standings ++ rest)
        ≡ (map (row_of fixed penalty) standings, rest)
  unfolding read_rows print_rows
  rows-read penalty [] rest all = refl
  rows-read penalty (s ∷ standings) rest (here, all) =
      rw
        (
          append_assoc (print_row (row_of fixed penalty s)) (print_rows fixed penalty standings)
              rest,
          read-print (row_of fixed penalty s) (print_rows fixed penalty standings ++ rest)
              (row-RowFits penalty s here),
          rows-read penalty standings rest all,
        )
        refl

  All-take :
      (P : DriverState F → Type 0) (n : ℕ) (l : List (DriverState F)) → All P l → All P (take n l)
  All-take P zero l all = tt
  All-take P (suc n) [] all = tt
  All-take P (suc n) (x ∷ l) (here, all) = (here, All-take P n l all)

  Counted-take :
      (n p : ℕ) (l : List (DriverState F))
      → Counted (λ (s : DriverState F). s.position) p l
      → Counted (λ (s : DriverState F). s.position) p (take n l)
  Counted-take zero p l c = tt
  Counted-take (suc n) p [] c = tt
  Counted-take (suc n) p (x ∷ l) (here, c) = (here, Counted-take n (p + 1) l c)

  length-take : (n : ℕ) (l : List (DriverState F)) → n ≤ length l → length (take n l) ≡ n
  length-take zero l h = refl
  length-take (suc n) [] h = absurd (omega (arith, h))
  length-take (suc n) (x ∷ l) h = ap suc (length-take n l (omega (arith, h)))

  top-length :
      (standings : List (DriverState F)) → 10 ≤ length standings → length (top_rows standings) ≡ 10
  unfolding top_rows
  top-length standings h = elim (Bool-cases (ltb (length standings) 10)) [
    | inl few ↦ absurd (ground (arith, few, h))
    | inr many ↦ rw many (length-take 10 standings h)
  ]

  -- Of standings in the order of their positions, with ten drivers or more, whose drivers are of the roster
  -- and whose numbers have room in their columns: ten rows are printed, for positions 1 to 10, and who
  -- reads them by the widths of the columns, whatever text follows, gets back what each row was made
  -- of for its driver, and the text that follows.
  pub table_reads :
      (penalty : PenaltyEnforcer) (standings : List (DriverState F)) (rest : Text)
      → Rows standings
      → All Legible standings
      → 10 ≤ length standings
      → (read_rows 10 (print_rows fixed penalty (top_rows standings) ++ rest)
          ≡ (map (row_of fixed penalty) (top_rows standings), rest))
        × (length (top_rows standings) ≡ 10)
        × Rows (top_rows standings)
  unfolding top_rows
  table_reads penalty standings rest counted legible enough =
      let n = if ltb (length standings) 10 then length standings else 10 in
      let ten = top-length standings enough in
      (
        subst
            (λ m.
              read_rows m (print_rows fixed penalty (top_rows standings) ++ rest)
              ≡ (map (row_of fixed penalty) (top_rows standings), rest))
            ten
            (rows-read penalty (top_rows standings) rest (All-take Legible n standings legible)),
        ten,
        Counted-take n 0 standings counted,
      )
