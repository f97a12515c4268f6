-- ===== src/Main/Display/Columns.antt =====
-- The columns of the table of src/main.cpp, read back.
use mathlib.Core.List.{append_assoc}
use f1_telemetry.Prelude.{
  ℕ, zero, suc, ◌-◌, ◌≤◌, ◌≡◌, refl, ap, ap₂, subst, ◌∙◌, Bool, true, false, ◌&&◌, [], ◌∷◌, ◌++◌,
  arith, length, length-append, length-replicate, replicate, take, drop, ◌==◌, if◌then◌else◌,
}
use f1_telemetry.Common.Text.{Text}
use f1_telemetry.Main.Display.{pad, Row, print_row, newline}

abbrev pub is_blank : Text → Bool
is_blank [] = true
is_blank (c ∷ t) = false

-- A text without the spaces at its end.
unfoldable pub trim : Text → Text
trim [] = []
trim (c ∷ t) = let rest = trim t in if c == 32 && is_blank rest then [] else c ∷ rest

-- The text up to a newline, and what follows the newline.
unfoldable pub line : Text → Text × Text
line [] = ([], [])
line (c ∷ t) = let (before, after) = line t in if c == 10 then ([], t) else (c ∷ before, after)

-- Reads a column of the given width, with what follows it.
unfoldable pub column : ℕ → Text → Text × Text
column n t = (trim (take n t), drop n t)

-- Reads a row by the widths of its columns, with what follows it.
unfoldable pub read_row : Text → Row × Text
read_row t₀ =
    let (place, t₁) = column 4 t₀ in
    let (drv, t₂) = column 6 t₁ in
    let (team, t₃) = column 15 t₂ in
    let (speed, t₄) = column 9 t₃ in
    let (tires, t₅) = column 7 t₄ in
    let (fuel, t₆) = column 7 t₅ in
    let (gap, t₇) = column 8 t₆ in
    let (drs, t₈) = column 5 t₇ in
    let (pit, t₉) = column 5 t₈ in
    let (pen, rest) = line t₉ in
    (
      record {
        place = place;
        drv = drv;
        team = team;
        speed = speed;
        tires = tires;
        fuel = fuel;
        gap = gap;
        drs = drs;
        pit = pit;
        pen = pen;
      },
      rest,
    )

-- The text has room in a column, and does not end in a space.
abbrev pub Fits : ℕ → Text → Type 0
Fits n t = (length t ≤ n) × (trim t ≡ t)

-- Each text has room in its column, and the last one is on one line.
pub record RowFits (r : Row) : Type 0 where
  pub place_fits : Fits 4 r.place
  pub drv_fits : Fits 6 r.drv
  pub team_fits : Fits 15 r.team
  pub speed_fits : Fits 9 r.speed
  pub tires_fits : Fits 7 r.tires
  pub fuel_fits : Fits 7 r.fuel
  pub gap_fits : Fits 8 r.gap
  pub drs_fits : Fits 5 r.drs
  pub pit_fits : Fits 5 r.pit
  pub pen_line : (t : Text) → line (r.pen ++ (newline ++ t)) ≡ (r.pen, t)

trim-spaces : (n : ℕ) → trim (replicate n 32) ≡ []
unfolding trim
trim-spaces zero = refl
trim-spaces (suc n) = rw (trim-spaces n) refl

trim-padded : (t : Text) (n : ℕ) → trim (t ++ replicate n 32) ≡ trim t
unfolding trim
trim-padded [] n = trim-spaces n
trim-padded (c ∷ t) n = rw (trim-padded t n) refl

take-all : (t rest : Text) → take (length t) (t ++ rest) ≡ t
take-all [] rest = refl
take-all (c ∷ t) rest = ap (◌∷◌ c) (take-all t rest)

drop-all : (t rest : Text) → drop (length t) (t ++ rest) ≡ rest
drop-all [] rest = refl
drop-all (c ∷ t) rest = drop-all t rest

length-pad : (n : ℕ) (t : Text) → length t ≤ n → length (pad n t) ≡ n
unfolding pad
length-pad n t h = omega (
  arith,
  h,
  length-append t (replicate (n - length t) 32),
  length-replicate {A = ℕ} (n - length t) 32,
)

-- A column is read back from what was printed into it.
column-pad : (n : ℕ) (t rest : Text) → Fits n t → column n (pad n t ++ rest) ≡ (t, rest)
unfolding pad column
column-pad n t rest (h, trimmed) =
    subst (λ m. column m (pad n t ++ rest) ≡ (t, rest)) (length-pad n t h)
      (ap₂ (λ (a b : Text). (trim a, b)) (take-all (pad n t) rest) (drop-all (pad n t) rest)
        ∙ ap (λ (a : Text). (a, rest)) (trim-padded t (n - length t) ∙ trimmed))

-- The text of a row and what follows, column by column.
row-append :
    (r : Row) (rest : Text)
    → print_row r ++ rest
      ≡ pad 4 r.place
        ++ (pad 6 r.drv
            ++ (pad 15 r.team
                ++ (pad 9 r.speed
                    ++ (pad 7 r.tires
                        ++ (pad 7 r.fuel
                            ++ (pad 8 r.gap
                                ++ (pad 5 r.drs
                                    ++ (pad 5 r.pit ++ (r.pen ++ (newline ++ rest))))))))))
unfolding print_row
row-append r rest = simp append_assoc

pub read-print : (r : Row) (rest : Text) → RowFits r → read_row (print_row r ++ rest) ≡ (r, rest)
unfolding read_row
read-print r rest h =
    let t₉ = r.pen ++ (newline ++ rest) in
    let t₈ = pad 5 r.pit ++ t₉ in
    let t₇ = pad 5 r.drs ++ t₈ in
    let t₆ = pad 8 r.gap ++ t₇ in
    let t₅ = pad 7 r.fuel ++ t₆ in
    let t₄ = pad 7 r.tires ++ t₅ in
    let t₃ = pad 9 r.speed ++ t₄ in
    let t₂ = pad 15 r.team ++ t₃ in
    let t₁ = pad 6 r.drv ++ t₂ in
    rw
      (
        row-append r rest,
        column-pad 4 r.place t₁ h.place_fits,
        column-pad 6 r.drv t₂ h.drv_fits,
        column-pad 15 r.team t₃ h.team_fits,
        column-pad 9 r.speed t₄ h.speed_fits,
        column-pad 7 r.tires t₅ h.tires_fits,
        column-pad 7 r.fuel t₆ h.fuel_fits,
        column-pad 8 r.gap t₇ h.gap_fits,
        column-pad 5 r.drs t₈ h.drs_fits,
        column-pad 5 r.pit t₉ h.pit_fits,
        h.pen_line rest,
      )
      refl
