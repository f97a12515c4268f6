-- ===== src/Common/Leaderboard/Position.antt =====
-- Whom `at_position` of src/common/leaderboard.h finds.
use f1_telemetry.Prelude.{
  ℕ, ◌≡◌, ◌⊎◌, inl, inr, refl, sym, subst, ap, Bool, true, false, List, [], ◌∷◌, ◌++◌, All,
  Bool-cases, if◌then◌else◌,
}
use f1_telemetry.Prelude.Int.{ℤ}
use f1_telemetry.Float.{Float}
use f1_telemetry.Common.Types.{DriverState, default_state}
use f1_telemetry.Common.Leaderboard.{Leaderboard, at, find_position, at_position}

module _ {F : Type 0} where
  -- Nobody is at the position, and it is the given driver; or it is the first of the list there.
  abbrev pub FirstAt : List (DriverState F) → ℤ → DriverState F → DriverState F → Type 0
  FirstAt standings p fallback found =
      (found ≡ fallback) × All (λ s. at s p ≡ false) standings
      ⊎ (before : List (DriverState F)) × (after : List (DriverState F)) × (standings
          ≡ before ++ found ∷ after)
        × (at found p ≡ true)
        × All (λ s. at s p ≡ false) before

  later :
      (s : DriverState F) (rest : List (DriverState F)) (p : ℤ) (fallback found : DriverState F)
      → at s p ≡ false
      → FirstAt rest p fallback found
      → FirstAt (s ∷ rest) p fallback found
  later s rest p fallback found n (inr (before, after, e, here, none_before)) =
      inr (s ∷ before, after, ap (◌∷◌ s) e, here, (n, none_before))
  later s rest p fallback found n (inl (e, none_here)) = inl (e, (n, none_here))

  chosen :
      (s : DriverState F) (rest : List (DriverState F)) (p : ℤ) (fallback : DriverState F)
      (b : Bool)
      → at s p ≡ b
      → find_position (s ∷ rest) p fallback ≡ (if b then s else find_position rest p fallback)
  unfolding find_position
  chosen s rest p fallback b e = ap (λ c. if c then s else find_position rest p fallback) e

  find_position-FirstAt :
      (standings : List (DriverState F)) (p : ℤ) (fallback : DriverState F)
      → FirstAt standings p fallback (find_position standings p fallback)
  unfolding find_position
  find_position-FirstAt [] p fallback = inl (refl, tt)
  find_position-FirstAt (s ∷ rest) p fallback = elim (Bool-cases (at s p)) [
    | inl here ↦
        subst (FirstAt (s ∷ rest) p fallback) (sym (chosen s rest p fallback true here))
          (inr ([], rest, refl, here, tt))
    | inr n ↦ subst (FirstAt (s ∷ rest) p fallback) (sym (chosen s rest p fallback false n)) (
        later s rest p fallback (find_position rest p fallback) n
          (find_position-FirstAt rest p fallback))
  ]

module _ {F : Type 0} ⦃f : Float F⦄ where
  -- `at_position` returns the first of the standings whose position is the one asked for, and a
  -- default driver when no driver of the standings has that position.
  pub at_position-FirstAt :
      (b : Leaderboard F) (p : ℤ) (now : ℕ)
      → FirstAt b.standings p (default_state now) (at_position b p now)
  unfolding at_position
  at_position-FirstAt b p now = find_position-FirstAt b.standings p (default_state now)
