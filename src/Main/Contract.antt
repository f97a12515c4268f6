-- ===== src/Main/Contract.antt =====
-- `std::sort` in src/main.cpp: what any sort within its contract gives for the positions of a tick.
use mathlib.Core.List.{Permᴰ}
use mathlib.Core.List.Permᴰ
use mathlib.Core.Option.{some-injective, none-ne-some}
use f1_telemetry.Prelude.{
  ℕ, zero, suc, ◌+◌, ◌<◌, ◌≤◌, ◌≡◌, ◌≢◌, inl, inr, refl, sym, ap, ap₂, subst, ◌∙◌, Bool, some, List,
  [], ◌∷◌, arith, length, get_elem?, Bool-cases, ltb, ◌==◌, ==_iff,
}
use f1_telemetry.Float.{Float}
use f1_telemetry.Common.Types.{DriverState, TrackProfile}
use f1_telemetry.Simulation.TelemetryGenerator.Standings.{stable_sort, insert_stable, driver_at}
use f1_telemetry.Simulation.TelemetryGenerator.Standings.Positions.{Ranked}
use f1_telemetry.Simulation.TelemetryGenerator.Standings.Sorted.{
  InOrder, insert-cases, sort-InOrder,
}
use f1_telemetry.Main.{sorted_standings, by_position}
use f1_telemetry.Main.Published.{driver_for}

module _ {A : Type 0} where
  Permᴰ-length : {l r : List A} → Permᴰ l r → length l ≡ length r
  Permᴰ-length Permᴰ.nil = refl
  Permᴰ-length (Permᴰ.cons e p) = ap suc (Permᴰ-length p)
  Permᴰ-length (Permᴰ.swap e d) = refl
  Permᴰ-length (Permᴰ.trans p q) = Permᴰ-length p ∙ Permᴰ-length q

  -- An element of the one list stands somewhere in the other.
  moved :
      {l r : List A}
      → Permᴰ l r
      → (k : ℕ) (a : A) → get_elem? l k ≡ some a
      → (j : ℕ) × (get_elem? r j ≡ some a)
  moved Permᴰ.nil k a h = absurd (none-ne-some _ h)
  moved (Permᴰ.cons e p) zero a h = (0, sym (ap some e) ∙ h)
  moved (Permᴰ.cons e p) (suc k) a h = let (j, there) = moved p k a h in (suc j, there)
  moved (Permᴰ.swap e d) zero a h = (1, sym (ap some e) ∙ h)
  moved (Permᴰ.swap e d) (suc zero) a h = (0, sym (ap some d) ∙ h)
  moved (Permᴰ.swap e d) (suc (suc k)) a h = (suc (suc k), h)
  moved (Permᴰ.trans p q) k a h = let (i, here) = moved p k a h in moved q i a here

  same_elements :
      (l r : List A)
      → length l ≡ length r
      → ((k : ℕ) (a : A) → get_elem? l k ≡ some a → get_elem? r k ≡ some a)
      → l ≡ r
  same_elements [] [] e h = refl
  same_elements [] (y ∷ r) e h = absurd (omega (arith, e))
  same_elements (x ∷ l) [] e h = absurd (omega (arith, e))
  same_elements (x ∷ l) (y ∷ r) e h =
      ap₂ ◌∷◌ (some-injective _ _ (sym (h 0 x refl)))
        (same_elements l r (omega (arith, e)) (λ k a g. h (suc k) a g))

  module _ (less : A → A → Bool) where
    insert-Permᴰ : (x : A) (ys : List A) → Permᴰ (x ∷ ys) (insert_stable less x ys)
    unfolding insert_stable
    insert-Permᴰ x [] = Permᴰ.refl (x ∷ [])
    insert-Permᴰ x (y ∷ ys) = elim (insert-cases less x y ys) [
      | inl (e, h) ↦
          subst (Permᴰ (x ∷ y ∷ ys)) (sym e)
            (Permᴰ.trans (Permᴰ.swap refl refl) (Permᴰ.cons refl (insert-Permᴰ x ys)))
      | inr (e, h) ↦ subst (Permᴰ (x ∷ y ∷ ys)) (sym e) (Permᴰ.refl (x ∷ y ∷ ys))
    ]

    pub sort-Permᴰ : (xs : List A) → Permᴰ xs (stable_sort less xs)
    unfolding stable_sort
    sort-Permᴰ [] = Permᴰ.nil
    sort-Permᴰ (x ∷ xs) =
        Permᴰ.trans (Permᴰ.cons refl (sort-Permᴰ xs)) (insert-Permᴰ x (stable_sort less xs))

  module _ (key : A → ℕ) where
    abbrev by_key : A → A → Bool
    by_key a b = ltb (key a) (key b)

    -- An element of the list has this key.
    abbrev Has : ℕ → List A → Type 0
    Has q l = (k : ℕ) × (a : A) × (get_elem? l k ≡ some a) × (key a ≡ q)

    -- The list has the keys p + 1 to p + m.
    abbrev Covers : ℕ → ℕ → List A → Type 0
    Covers p m l = (q : ℕ) → p < q → q ≤ p + m → Has q l

    -- Its keys are p + 1, p + 2 and so on.
    abbrev pub Counted : ℕ → List A → Type 0
    Counted p [] = Unit
    Counted p (x ∷ l) = (key x ≡ p + 1) × Counted (p + 1) l

    head_least :
        (x : A) (l : List A) (k : ℕ) (a : A)
        → InOrder by_key (x ∷ l)
        → get_elem? (x ∷ l) k ≡ some a
        → key x ≤ key a
    head_least x l zero a order h = omega (arith, ap key (some-injective _ _ h))
    head_least x [] (suc k) a order h = absurd (none-ne-some _ h)
    head_least x (y ∷ l) (suc k) a (below, order) h =
        let rest : key y ≤ key a = head_least y l k a order h in ground (arith, below, rest)

    in_tail : (x : A) (l : List A) (q : ℕ) → key x ≢ q → Has q (x ∷ l) → Has q l
    in_tail x l q other (zero, a, h, e) = absurd (other (ap key (some-injective _ _ h) ∙ e))
    in_tail x l q other (suc k, a, h, e) = (k, a, h, e)

    tail-InOrder : (x : A) (l : List A) → InOrder by_key (x ∷ l) → InOrder by_key l
    tail-InOrder x [] order = tt
    tail-InOrder x (y ∷ l) (below, order) = order

    head_covered :
        (x : A) (l : List A) (p m : ℕ)
        → InOrder by_key (x ∷ l)
        → Covers p (suc m) (x ∷ l)
        → key x ≤ p + 1
    head_covered x l p m order all =
        let (k, a, here, e) = all (p + 1) (omega arith) (omega arith) in
        omega (arith, head_least x l k a order here, e)

    Covers-length : (l : List A) (p m : ℕ) → InOrder by_key l → Covers p m l → m ≤ length l
    Covers-length [] p zero order all = omega arith
    Covers-length [] p (suc m) order all =
        let (k, a, here, e) = all (p + 1) (omega arith) (omega arith) in
        absurd (none-ne-some _ here)
    Covers-length (x ∷ l) p zero order all = omega arith
    Covers-length (x ∷ l) p (suc m) order all =
        let first = head_covered x l p m order all in
        let rest : (m ≤ length l) = Covers-length l (p + 1) m (tail-InOrder x l order) (λ q lo hi.
          in_tail x l q (λ e. absurd (omega (arith, e, first, lo)))
            (all q (omega (arith, lo)) (omega (arith, hi)))) in
        omega (arith, rest)

    -- As many elements as keys, in their order: each key once.
    Covers-Counted : (l : List A) (p : ℕ) → InOrder by_key l → Covers p (length l) l → Counted p l
    Covers-Counted [] p order all = tt
    Covers-Counted (x ∷ l) p order all =
        let most : (key x ≤ p + 1) = head_covered x l p (length l) order all in
        let first : (key x ≡ p + 1) = elim (Bool-cases (key x == p + 1)) [
          | inl same ↦ (==_iff (key x) (p + 1)).0 same
          | inr less ↦ absurd (
              omega (
                arith,
                Covers-length l p (suc (length l)) (tail-InOrder x l order) (λ q lo hi.
                    in_tail x l q (λ e. absurd (ground (arith, e, most, lo, less))) (all q lo hi)),
              ))
        ] in
        (
          first,
          Covers-Counted l (p + 1) (tail-InOrder x l order) (λ q lo hi.
              in_tail x l q (λ e. absurd (omega (arith, e, first, lo)))
                (all q (omega (arith, lo)) (omega (arith, hi)))),
        )

    Counted-at :
        (l : List A) (p k : ℕ) (a : A) → Counted p l → get_elem? l k ≡ some a → key a ≡ p + k + 1
    Counted-at [] p k a c h = absurd (none-ne-some _ h)
    Counted-at (x ∷ l) p zero a (here, c) h = omega (arith, here, ap key (some-injective _ _ h))
    Counted-at (x ∷ l) p (suc k) a (here, c) h = omega (arith, Counted-at l (p + 1) k a c h)

    Counted-unique : (l r : List A) (p : ℕ) → Permᴰ l r → Counted p l → Counted p r → l ≡ r
    Counted-unique l r p perm c d = same_elements l r (Permᴰ-length perm) (λ k a h.
        (let (j, there) = moved perm k a h in
          let same : (j ≡ k) = omega (arith, Counted-at l p k a c h, Counted-at r p j a d there) in
          subst (λ i. get_elem? r i ≡ some a) same there))

module _ {F : Type 0} ⦃f : Float F⦄ where
  has_driver :
      (states : List (DriverState F)) (i : ℕ)
      → i < length states
      → get_elem? states i ≡ some (driver_at states i)
  has_driver [] i h = absurd (omega (arith, h))
  has_driver (s ∷ states) zero h = refl
  has_driver (s ∷ states) (suc i) h = has_driver states i (omega (arith, h))

  -- Row k of the standings has position k + 1.
  abbrev pub Rows : List (DriverState F) → Type 0
  Rows standings = Counted (λ (s : DriverState F). s.position) 0 standings

  sorted-Rows :
      (track : TrackProfile F) (states sorted : List (DriverState F))
      → Ranked track states
      → Permᴰ states sorted
      → InOrder by_position sorted
      → Rows sorted
  sorted-Rows track states sorted (idx, long, below, distinct, placed, order) perm ordered =
      Covers-Counted (λ (s : DriverState F). s.position) sorted 0 ordered
        (λ q lo hi.
          (let (i, within, here) =
              driver_for idx states 0 q below placed lo
                (omega (arith, hi, long, Permᴰ-length perm)) in
            let (j, there) = moved perm i (driver_at states i) (has_driver states i within) in
            (j, driver_at states i, there, here)))

  -- For the generator's ranked states, `std::sort` has no choice: whatever permutation of the states in
  -- the order of the positions it leaves is `sorted_standings`, in which the row at index k has position
  -- k + 1.
  pub sort_contract :
      (track : TrackProfile F) (states sorted : List (DriverState F))
      → Ranked track states
      → Permᴰ states sorted
      → InOrder by_position sorted
      → (sorted ≡ sorted_standings states) × Rows sorted
  unfolding sorted_standings
  sort_contract track states sorted ranked perm ordered =
      let here = sorted-Rows track states sorted ranked perm ordered in
      let ours = sort-Permᴰ by_position states in
      let there =
        sorted-Rows track states (stable_sort by_position states) ranked ours
          (sort-InOrder by_position (λ a b h. ground arith) states) in
      (
        Counted-unique (λ (s : DriverState F). s.position) sorted (stable_sort by_position states) 0
            (Permᴰ.trans (Permᴰ.symm perm) ours) here there,
        here,
      )
