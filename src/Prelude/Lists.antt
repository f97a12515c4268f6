-- ===== src/Prelude/Lists.antt =====
-- Lists measured and indexed by native numbers, under the library's names, and predicates on
-- all the elements of a list.
use Prim.Native.Nat.{ℕ, zero, suc, ◌+◌, ◌-◌, ◌≤◌, ◌<◌}
use mathlib.Core.Path.{◌≡◌, refl, sym, ap, subst, ap₂, ◌∙◌}
use mathlib.Core.Logic.{◌≢◌}
use mathlib.Core.List.{List, [], ◌∷◌, ◌++◌}
use mathlib.Core.Option.{Option, none, some, some-injective, none-ne-some}
use native.Mathlib.Omega.{arith}

module _ {ℓ} {A : Type ℓ} where
  abbrev pub length : List A → ℕ
  length [] = 0
  length (x ∷ xs) = suc (length xs)

  abbrev pub get_elem? : List A → ℕ → Option A
  get_elem? [] i = none
  get_elem? (x ∷ xs) zero = some x
  get_elem? (x ∷ xs) (suc i) = get_elem? xs i

  abbrev pub get_or : List A → ℕ → A → A
  get_or [] i d = d
  get_or (x ∷ xs) zero d = x
  get_or (x ∷ xs) (suc i) d = get_or xs i d

  -- A write out of bounds changes nothing.
  abbrev pub set : List A → ℕ → A → List A
  set [] i v = []
  set (x ∷ xs) zero v = v ∷ xs
  set (x ∷ xs) (suc i) v = x ∷ set xs i v

  abbrev pub take : ℕ → List A → List A
  take zero xs = []
  take (suc n) [] = []
  take (suc n) (x ∷ xs) = x ∷ take n xs

  abbrev pub drop : ℕ → List A → List A
  drop zero xs = xs
  drop (suc n) [] = []
  drop (suc n) (x ∷ xs) = drop n xs

  abbrev pub replicate : ℕ → A → List A
  replicate zero a = []
  replicate (suc n) a = a ∷ replicate n a

  -- A predicate on every element, and one on every element with its index.
  abbrev pub All {κ} : (A → Type κ) → List A → Type κ
  All P [] = Unit
  All P (x ∷ xs) = P x × All P xs

  pub length-append : (xs ys : List A) → length (xs ++ ys) ≡ length xs + length ys
  length-append [] ys = omega arith
  length-append (x ∷ xs) ys = omega (arith, length-append xs ys)

  pub length-replicate : (n : ℕ) (a : A) → length (replicate n a) ≡ n
  length-replicate zero a = refl
  length-replicate (suc n) a = ap suc (length-replicate n a)

  pub length-set : (xs : List A) (i : ℕ) (v : A) → length (set xs i v) ≡ length xs
  length-set [] i v = refl
  length-set (x ∷ xs) zero v = refl
  length-set (x ∷ xs) (suc i) v = ap suc (length-set xs i v)

  pub get_elem?-append_left :
      (xs ys : List A) (i : ℕ) → i < length xs → get_elem? (xs ++ ys) i ≡ get_elem? xs i
  get_elem?-append_left [] ys i h = absurd (omega arith)
  get_elem?-append_left (x ∷ xs) ys zero h = refl
  get_elem?-append_left (x ∷ xs) ys (suc i) h = get_elem?-append_left xs ys i (omega arith)

  pub get_elem?-append_last :
      (xs : List A) (y : A) (i : ℕ) → i ≡ length xs → get_elem? (xs ++ y ∷ []) i ≡ some y
  get_elem?-append_last [] y zero e = refl
  get_elem?-append_last [] y (suc i) e = absurd (omega arith)
  get_elem?-append_last (x ∷ xs) y zero e = absurd (omega arith)
  get_elem?-append_last (x ∷ xs) y (suc i) e = get_elem?-append_last xs y i (omega arith)

  pub get_elem?-set_self :
      (xs : List A) (i : ℕ) (v : A) → i < length xs → get_elem? (set xs i v) i ≡ some v
  get_elem?-set_self [] i v h = absurd (omega arith)
  get_elem?-set_self (x ∷ xs) zero v h = refl
  get_elem?-set_self (x ∷ xs) (suc i) v h = get_elem?-set_self xs i v (omega arith)

  pub get_elem?-set_ne :
      (xs : List A) (i j : ℕ) (v : A) → i ≢ j → get_elem? (set xs i v) j ≡ get_elem? xs j
  get_elem?-set_ne [] i j v h = refl
  get_elem?-set_ne (x ∷ xs) zero zero v h = absurd (h refl)
  get_elem?-set_ne (x ∷ xs) zero (suc j) v h = refl
  get_elem?-set_ne (x ∷ xs) (suc i) zero v h = refl
  get_elem?-set_ne (x ∷ xs) (suc i) (suc j) v h = get_elem?-set_ne xs i j v (λ e. h (ap suc e))

  pub get_or-set_self :
      (xs : List A) (i : ℕ) (v d : A) → i < length xs → get_or (set xs i v) i d ≡ v
  get_or-set_self [] i v d h = absurd (omega arith)
  get_or-set_self (x ∷ xs) zero v d h = refl
  get_or-set_self (x ∷ xs) (suc i) v d h = get_or-set_self xs i v d (omega arith)

  pub get_or-set_ne :
      (xs : List A) (i j : ℕ) (v d : A) → i ≢ j → get_or (set xs i v) j d ≡ get_or xs j d
  get_or-set_ne [] i j v d h = refl
  get_or-set_ne (x ∷ xs) zero zero v d h = absurd (h refl)
  get_or-set_ne (x ∷ xs) zero (suc j) v d h = refl
  get_or-set_ne (x ∷ xs) (suc i) zero v d h = refl
  get_or-set_ne (x ∷ xs) (suc i) (suc j) v d h = get_or-set_ne xs i j v d (λ e. h (ap suc e))

  -- A write that keeps a measure of its entry keeps the measure of every entry.
  pub get_or-set_keeps {κ} :
      {B : Type κ} (g : A → B) (xs : List A) (i j : ℕ) (v d : A)
      → g v ≡ g (get_or xs i d)
      → g (get_or (set xs i v) j d) ≡ g (get_or xs j d)
  get_or-set_keeps g [] i j v d h = refl
  get_or-set_keeps g (x ∷ xs) zero zero v d h = h
  get_or-set_keeps g (x ∷ xs) zero (suc j) v d h = refl
  get_or-set_keeps g (x ∷ xs) (suc i) zero v d h = refl
  get_or-set_keeps g (x ∷ xs) (suc i) (suc j) v d h = get_or-set_keeps g xs i j v d h

  -- Writing back what an entry holds changes nothing.
  pub set-get_or : (xs : List A) (i : ℕ) (d : A) → set xs i (get_or xs i d) ≡ xs
  set-get_or [] i d = refl
  set-get_or (x ∷ xs) zero d = refl
  set-get_or (x ∷ xs) (suc i) d = ap (◌∷◌ x) (set-get_or xs i d)

  -- A list that agrees with another at each of its indices is a prefix of it.
  pub append-drop_of_agree :
      (xs ys : List A)
      → length xs ≤ length ys
      → ((i : ℕ) → i < length xs → get_elem? xs i ≡ get_elem? ys i)
      → xs ++ drop (length xs) ys ≡ ys
  append-drop_of_agree [] ys h agree = refl
  append-drop_of_agree (x ∷ xs) [] h agree = absurd (omega arith)
  append-drop_of_agree (x ∷ xs) (y ∷ ys) h agree =
      ap₂ ◌∷◌ (some-injective _ _ (agree 0 (omega arith)))
        (append-drop_of_agree xs ys (omega arith) (λ i p. agree (suc i) (omega arith)))

  pub All-append {κ} : (P : A → Type κ) (xs ys : List A) → All P xs → All P ys → All P (xs ++ ys)
  All-append P [] ys p q = q
  All-append P (x ∷ xs) ys (p, ps) q = (p, All-append P xs ys ps q)

  -- A write in range of something that has the property if the entry had it; out of range it is none.
  pub All-set {κ} :
      (P : A → Type κ) (xs : List A) (i : ℕ) (v d : A)
      → All P xs
      → (P (get_or xs i d) → P v)
      → All P (set xs i v)
  All-set P [] i v d all keeps = tt
  All-set P (x ∷ xs) zero v d (here, all) keeps = (keeps here, all)
  All-set P (x ∷ xs) (suc i) v d (here, all) keeps = (here, All-set P xs i v d all keeps)

  pub All-parts {κ} : (P : A → Type κ) (xs ys : List A) → All P (xs ++ ys) → All P xs × All P ys
  All-parts P [] ys all = (tt, all)
  All-parts P (x ∷ xs) ys (here, all) =
      let (left, right) = All-parts P xs ys all in ((here, left), right)

  -- Out of range, a list of one value repeated still reads as that value.
  pub get_or-replicate : (n i : ℕ) (a : A) → get_or (replicate n a) i a ≡ a
  get_or-replicate zero i a = refl
  get_or-replicate (suc n) zero a = refl
  get_or-replicate (suc n) (suc i) a = get_or-replicate n i a

  pub All-at {κ} :
      (P : A → Type κ) (xs : List A) (i : ℕ) (x : A) → All P xs → get_elem? xs i ≡ some x → P x
  All-at P [] i x all e = absurd (none-ne-some x e)
  All-at P (y ∷ ys) zero x (here, all) e = subst P (some-injective _ _ e) here
  All-at P (y ∷ ys) (suc i) x (here, all) e = All-at P ys i x all e

  pub get_elem?-bound : (xs : List A) (i : ℕ) (x : A) → get_elem? xs i ≡ some x → i < length xs
  get_elem?-bound [] i x e = absurd (none-ne-some x e)
  get_elem?-bound (y ∷ ys) zero x e = omega arith
  get_elem?-bound (y ∷ ys) (suc i) x e = omega (arith, get_elem?-bound ys i x e)

  pub length-drop : (n : ℕ) (xs : List A) → length (drop n xs) ≡ length xs - n
  length-drop zero xs = omega arith
  length-drop (suc n) [] = omega arith
  length-drop (suc n) (x ∷ xs) = omega (arith, length-drop n xs)

  pub drop-append_le :
      (n : ℕ) (xs ys : List A) → n ≤ length xs → drop n (xs ++ ys) ≡ drop n xs ++ ys
  drop-append_le zero xs ys h = refl
  drop-append_le (suc n) [] ys h = absurd (omega arith)
  drop-append_le (suc n) (x ∷ xs) ys h = drop-append_le n xs ys (omega arith)

  pub drop-length : (xs : List A) → drop (length xs) xs ≡ []
  drop-length [] = refl
  drop-length (x ∷ xs) = drop-length xs

  -- The element at an index heads what is left from there on.
  pub drop-cons :
      (n : ℕ) (xs : List A)
      → n < length xs
      → (x : A) × (get_elem? xs n ≡ some x) × (drop n xs ≡ x ∷ drop (n + 1) xs)
  drop-cons n [] h = absurd (omega arith)
  drop-cons zero (x ∷ xs) h = (x, refl, refl)
  drop-cons (suc n) (x ∷ xs) h =
      let (y, here, rest) = drop-cons n xs (omega arith) in
      let next : drop (suc n + 1) (x ∷ xs) ≡ drop (n + 1) xs =
        ap (λ (t : ℕ). drop t (x ∷ xs)) {x = suc n + 1} {y = suc (n + 1)} (omega arith) in
      (y, here, rest ∙ ap (◌∷◌ y) (sym next))
