-- ===== src/Simulation/TelemetryGenerator/Standings/Sorted.antt =====
-- The order that `std::stable_sort` gives in src/simulation/telemetry_generator.cpp.
use f1_telemetry.Prelude.{
  ℕ, zero, suc, ◌+◌, ◌<◌, ◌≤◌, ◌≡◌, ◌≢◌, ◌⊎◌, inl, inr, refl, sym, ap, subst, ◌∙◌, Bool, true,
  false, List, [], ◌∷◌, arith, length, All,
}
use f1_telemetry.Simulation.TelemetryGenerator.Standings.{iota, insert_stable, stable_sort}

-- No element occurs twice.
abbrev pub Distinct : List ℕ → Type 0
Distinct [] = Unit
Distinct (x ∷ xs) = All (λ y. x ≢ y) xs × Distinct xs

module _ {A : Type 0} (less : A → A → Bool) where
  pub insert-cases :
      (x y : A) (ys : List A)
      → (insert_stable less x (y ∷ ys) ≡ y ∷ insert_stable less x ys) × (less y x ≡ true)
        ⊎ (insert_stable less x (y ∷ ys) ≡ x ∷ y ∷ ys) × (less y x ≡ false)
  unfolding insert_stable
  insert-cases x y ys = ground arith

  All-insert :
      (P : A → Type 0) (x : A) (ys : List A) → P x → All P ys → All P (insert_stable less x ys)
  unfolding insert_stable
  All-insert P x [] p all = (p, tt)
  All-insert P x (y ∷ ys) p (q, all) = elim (insert-cases x y ys) [
    | inl (e, h) ↦ subst (All P) (sym e) (q, All-insert P x ys p all)
    | inr (e, h) ↦ subst (All P) (sym e) (p, (q, all))
  ]

  pub All-sort : (P : A → Type 0) (xs : List A) → All P xs → All P (stable_sort less xs)
  unfolding stable_sort
  All-sort P [] all = tt
  All-sort P (x ∷ xs) (p, all) = All-insert P x (stable_sort less xs) p (All-sort P xs all)

  All-uninsert :
      (P : A → Type 0) (x : A) (ys : List A) → All P (insert_stable less x ys) → P x × All P ys
  unfolding insert_stable
  All-uninsert P x [] (p, all) = (p, tt)
  All-uninsert P x (y ∷ ys) all = elim (insert-cases x y ys) [
    | inl (e, h) ↦
        let (q, rest) = subst (All P) e all in
        let (p, others) = All-uninsert P x ys rest in (p, (q, others))
    | inr (e, h) ↦ let (p, (q, rest)) = subst (All P) e all in (p, (q, rest))
  ]

  -- What holds of all the sorted elements holds of all.
  pub All-unsort : (P : A → Type 0) (xs : List A) → All P (stable_sort less xs) → All P xs
  unfolding stable_sort
  All-unsort P [] all = tt
  All-unsort P (x ∷ xs) all =
      let (p, rest) = All-uninsert P x (stable_sort less xs) all in (p, All-unsort P xs rest)

  length-insert : (x : A) (ys : List A) → length (insert_stable less x ys) ≡ suc (length ys)
  unfolding insert_stable
  length-insert x [] = refl
  length-insert x (y ∷ ys) = elim (insert-cases x y ys) [
    | inl (e, h) ↦ ap length e ∙ ap suc (length-insert x ys)
    | inr (e, h) ↦ ap length e
  ]

  pub length-sort : (xs : List A) → length (stable_sort less xs) ≡ length xs
  unfolding stable_sort
  length-sort [] = refl
  length-sort (x ∷ xs) = length-insert x (stable_sort less xs) ∙ ap suc (length-sort xs)

  -- Each element is not behind the next.
  abbrev pub InOrder : List A → Type 0
  InOrder [] = Unit
  InOrder (x ∷ []) = Unit
  InOrder (x ∷ y ∷ ys) = (less y x ≡ false) × InOrder (y ∷ ys)

  module _ (asym : (x y : A) → less x y ≡ true → less y x ≡ false) where
    insert-InOrder : (x : A) (ys : List A) → InOrder ys → InOrder (insert_stable less x ys)
    unfolding insert_stable
    insert-InOrder x [] h = tt
    insert-InOrder x (y ∷ []) h = elim (insert-cases x y []) [
      | inl (e, l) ↦ subst InOrder (sym e) (asym y x l, tt)
      | inr (e, n) ↦ subst InOrder (sym e) (n, tt)
    ]
    insert-InOrder x (y ∷ z ∷ ys) (h, rest) = elim (insert-cases x y (z ∷ ys)) [
      | inr (e, n) ↦ subst InOrder (sym e) (n, (h, rest))
      | inl (e, l) ↦ elim (insert-cases x z ys) [
        | inl (d, m) ↦
            subst InOrder (sym (e ∙ ap (◌∷◌ y) d))
              (h, subst InOrder d (insert-InOrder x (z ∷ ys) rest))
        | inr (d, n) ↦ subst InOrder (sym (e ∙ ap (◌∷◌ y) d)) (asym y x l, (n, rest))
      ]
    ]

    pub sort-InOrder : (xs : List A) → InOrder (stable_sort less xs)
    unfolding stable_sort
    sort-InOrder [] = tt
    sort-InOrder (x ∷ xs) = insert-InOrder x (stable_sort less xs) (sort-InOrder xs)

pub InOrder-congr :
    (less less' : ℕ → ℕ → Bool) (idx : List ℕ)
    → ((i j : ℕ) → less i j ≡ less' i j)
    → InOrder less idx
    → InOrder less' idx
InOrder-congr less less' [] same h = tt
InOrder-congr less less' (i ∷ []) same h = tt
InOrder-congr less less' (i ∷ j ∷ idx) same (h, rest) =
    (sym (same j i) ∙ h, InOrder-congr less less' (j ∷ idx) same rest)

insert-Distinct :
    (less : ℕ → ℕ → Bool) (x : ℕ) (ys : List ℕ)
    → All (λ y. x ≢ y) ys
    → Distinct ys
    → Distinct (insert_stable less x ys)
unfolding insert_stable
insert-Distinct less x [] new h = (tt, tt)
insert-Distinct less x (y ∷ ys) (ne, new) (others, h) = elim (insert-cases less x y ys) [
  | inl (e, l) ↦
      subst Distinct (sym e) (
        All-insert less (λ z. y ≢ z) x ys (λ s. ne (sym s)) others,
        insert-Distinct less x ys new h,
      )
  | inr (e, n) ↦ subst Distinct (sym e) ((ne, new), (others, h))
]

pub sort-Distinct :
    (less : ℕ → ℕ → Bool) (xs : List ℕ) → Distinct xs → Distinct (stable_sort less xs)
unfolding stable_sort
sort-Distinct less [] h = tt
sort-Distinct less (x ∷ xs) (new, h) =
    insert-Distinct less x (stable_sort less xs) (All-sort less (λ y. x ≢ y) xs new)
      (sort-Distinct less xs h)

All-iota : (P : ℕ → Type 0) (i n : ℕ) → ((j : ℕ) → i ≤ j → j < i + n → P j) → All P (iota i n)
All-iota P i zero h = tt
All-iota P i (suc n) h = (
  h i (omega arith) (omega arith),
  All-iota P (i + 1) n (λ j l u. h j (omega arith) (omega arith)),
)

pub iota-below : (n : ℕ) → All (λ i. i < n) (iota 0 n)
iota-below n = All-iota (λ i. i < n) 0 n (λ j l u. omega arith)

pub iota-Distinct : (i n : ℕ) → Distinct (iota i n)
iota-Distinct i zero = tt
iota-Distinct i (suc n) =
    (All-iota (λ j. i ≢ j) (i + 1) n (λ j l u e. absurd (omega arith)), iota-Distinct (i + 1) n)

pub length-iota : (i n : ℕ) → length (iota i n) ≡ n
length-iota i zero = refl
length-iota i (suc n) = ap suc (length-iota (i + 1) n)
