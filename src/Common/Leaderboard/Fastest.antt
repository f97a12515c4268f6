-- ===== src/Common/Leaderboard/Fastest.antt =====
-- Whom `fastest_lap_holder` of src/common/leaderboard.h names.
use f1_telemetry.Prelude.{
  ◌≡◌, ◌⊎◌, inl, inr, refl, sym, ap, subst, true, false, List, [], ◌∷◌, ◌++◌, arith, All,
  Bool-cases, if◌then◌else◌,
}
use f1_telemetry.Float.{Float, ◌≺◌, IsOrdered}
use f1_telemetry.Common.Text.{Text}
use f1_telemetry.Common.Types.{DriverState}
use f1_telemetry.Common.Leaderboard.{Leaderboard, beats, holder_from, fastest_lap_holder}

module _ {F : Type 0} ⦃f : Float F⦄ where
  -- A driver of the list with a lap time above zero has none below the given time.
  abbrev pub NoneFaster : F → List (DriverState F) → Type 0
  NoneFaster best =
      All (λ s. ((f.decimal 0 1 ≺ s.best_lap_ms) ≡ false) ⊎ ((s.best_lap_ms ≺ best) ≡ false))

  -- The name is empty, and nobody has set a lap below the largest `float`; or it is that of a driver of
  -- the list with a lap time above zero and below that, and no lap of another is faster.
  abbrev pub FastestHolder : List (DriverState F) → Text → Type 0
  FastestHolder standings name =
      (name ≡ []) × NoneFaster f.max_value standings
      ⊎ (before : List (DriverState F)) × (s : DriverState F) × (after : List (DriverState F))
        × (standings ≡ before ++ s ∷ after)
        × (name ≡ s.profile.id)
        × ((f.decimal 0 1 ≺ s.best_lap_ms) ≡ true)
        × ((s.best_lap_ms ≺ f.max_value) ≡ true)
        × NoneFaster s.best_lap_ms standings

  -- The same with the test of the loop.
  abbrev Unbeaten : F → List (DriverState F) → Type 0
  Unbeaten best = All (λ s. beats s best ≡ false)

  abbrev Holder : List (DriverState F) → F → Text → Text → Type 0
  Holder standings best now name =
      (name ≡ now) × Unbeaten best standings
      ⊎ (before : List (DriverState F)) × (s : DriverState F) × (after : List (DriverState F))
        × (standings ≡ before ++ s ∷ after)
        × (name ≡ s.profile.id)
        × (beats s best ≡ true)
        × Unbeaten s.best_lap_ms standings

  module _ (laws : IsOrdered F) where
    beats_parts :
        (s : DriverState F) (best : F)
        → beats s best ≡ true
        → ((f.decimal 0 1 ≺ s.best_lap_ms) ≡ true) × ((s.best_lap_ms ≺ best) ≡ true)
    beats_parts s best h = ground arith

    beats_trans :
        (s t : DriverState F) (best : F)
        → beats s t.best_lap_ms ≡ true
        → beats t best ≡ true
        → beats s best ≡ true
    beats_trans s t best h k = ground (arith, laws.lt_trans s.best_lap_ms t.best_lap_ms best)

    not-beats_back :
        (s t : DriverState F) → beats s t.best_lap_ms ≡ true → beats t s.best_lap_ms ≡ false
    not-beats_back s t h = ground (
      arith,
      laws.le_of_lt s.best_lap_ms t.best_lap_ms,
      laws.not-lt_of_le s.best_lap_ms t.best_lap_ms,
    )

    not-beats_self : (s : DriverState F) → beats s s.best_lap_ms ≡ false
    not-beats_self s = ground (arith, laws.lt_irrefl s.best_lap_ms)

    not-beats_down :
        (s t : DriverState F) (best : F)
        → beats s best ≡ false
        → beats t best ≡ true
        → beats s t.best_lap_ms ≡ false
    not-beats_down s t best h k = ground (arith, laws.lt_trans s.best_lap_ms t.best_lap_ms best)

    taken :
        (s : DriverState F) (rest : List (DriverState F)) (best : F) (now name : Text)
        → beats s best ≡ true
        → Holder rest s.best_lap_ms s.profile.id name
        → Holder (s ∷ rest) best now name
    taken s rest best now name h (inl (e, none_beats)) =
        inr ([], s, rest, refl, e, h, (not-beats_self s, none_beats))
    taken s rest best now name h (inr (before, t, after, e, named, faster, none_beats)) = inr (
      s ∷ before,
      t,
      after,
      ap (◌∷◌ s) e,
      named,
      beats_trans t s best faster h,
      (not-beats_back t s faster, none_beats),
    )

    passed :
        (s : DriverState F) (rest : List (DriverState F)) (best : F) (now name : Text)
        → beats s best ≡ false
        → Holder rest best now name
        → Holder (s ∷ rest) best now name
    passed s rest best now name h (inl (e, none_beats)) = inl (e, (h, none_beats))
    passed s rest best now name h (inr (before, t, after, e, named, faster, none_beats)) = inr (
      s ∷ before,
      t,
      after,
      ap (◌∷◌ s) e,
      named,
      faster,
      (not-beats_down s t best h faster, none_beats),
    )

    holder_from_taken :
        (s : DriverState F) (rest : List (DriverState F)) (best : F) (now : Text)
        → beats s best ≡ true
        → holder_from (s ∷ rest) best now ≡ holder_from rest s.best_lap_ms s.profile.id
    unfolding holder_from
    holder_from_taken s rest best now h =
        ap
          (λ b.
            if b then holder_from rest s.best_lap_ms s.profile.id else holder_from rest best now)
          h

    holder_from_passed :
        (s : DriverState F) (rest : List (DriverState F)) (best : F) (now : Text)
        → beats s best ≡ false
        → holder_from (s ∷ rest) best now ≡ holder_from rest best now
    unfolding holder_from
    holder_from_passed s rest best now h =
        ap
          (λ b.
            if b then holder_from rest s.best_lap_ms s.profile.id else holder_from rest best now)
          h

    holder_from-Holder :
        (standings : List (DriverState F)) (best : F) (now : Text)
        → Holder standings best now (holder_from standings best now)
    unfolding holder_from
    holder_from-Holder [] best now = inl (refl, tt)
    holder_from-Holder (s ∷ rest) best now = elim (Bool-cases (beats s best)) [
      | inl h ↦ subst (Holder (s ∷ rest) best now) (sym (holder_from_taken s rest best now h)) (
          taken s rest best now (holder_from rest s.best_lap_ms s.profile.id) h
            (holder_from-Holder rest s.best_lap_ms s.profile.id))
      | inr n ↦
          subst (Holder (s ∷ rest) best now) (sym (holder_from_passed s rest best now n)) (
            passed s rest best now (holder_from rest best now) n (holder_from-Holder rest best now))
    ]

    not_beats_parts :
        (s : DriverState F) (best : F)
        → beats s best ≡ false
        → ((f.decimal 0 1 ≺ s.best_lap_ms) ≡ false) ⊎ ((s.best_lap_ms ≺ best) ≡ false)
    not_beats_parts s best h = elim (Bool-cases (f.decimal 0 1 ≺ s.best_lap_ms)) [
      | inl lap ↦ inr (ground (arith, h))
      | inr no_lap ↦ inl no_lap
    ]

    Unbeaten-NoneFaster :
        (best : F) (standings : List (DriverState F))
        → Unbeaten best standings
        → NoneFaster best standings
    Unbeaten-NoneFaster best [] all = tt
    Unbeaten-NoneFaster best (s ∷ rest) (here, all) =
        (not_beats_parts s best here, Unbeaten-NoneFaster best rest all)

    -- `fastest_lap_holder` is empty, and no driver with a lap time above zero has one below the largest
    -- `float`; or it is the id of a driver whose lap time is above zero and below the largest `float`, and
    -- no driver with a lap time above zero has a faster one.
    pub fastest_lap_holder-FastestHolder :
        (b : Leaderboard F) → FastestHolder b.standings (fastest_lap_holder b)
    unfolding fastest_lap_holder
    fastest_lap_holder-FastestHolder b = elim (holder_from-Holder b.standings f.max_value []) [
      | inl (e, none_beats) ↦ inl (e, Unbeaten-NoneFaster f.max_value b.standings none_beats)
      | inr (before, s, after, e, named, faster, none_beats) ↦
          let (lap, below) = beats_parts s f.max_value faster in
          inr (
            before,
            s,
            after,
            e,
            named,
            lap,
            below,
            Unbeaten-NoneFaster s.best_lap_ms b.standings none_beats,
          )
    ]
