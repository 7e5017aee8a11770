-- ===== src/Prelude/Sort.antt =====
-- A stable sort by a strict order given as a test, as `list.sort` and `sorted`.
use mathlib.Core.Bool.{Bool, true, false, ◌||◌}
use Prim.Native.Nat.{◌+◌}
use mathlib.Core.List.Perm
use mathlib.Core.List.{List, [], ◌∷◌, Perm, map}
use mathlib.Core.Path.{◌≡◌, refl, ap, ◌∙◌, subst}
use mathlib.Core.Logic.{inl, inr}
use native.Mathlib.Omega.{arith}
use distributed_rate_limiter.Prelude.Tests.{if◌then◌else◌, Bool-cases, Eq, ◌==◌, beq_refl}
use distributed_rate_limiter.Prelude.Lists.{All, length, contains, Distinct}

module _ {ℓ} {A : Type ℓ} (lt : A → A → Bool) where
  -- `x` stood before the elements of the list, so it stays before its equals.
  pub insert_sorted : A → List A → List A
  insert_sorted x [] = x ∷ []
  insert_sorted x (y ∷ ys) =
      let later = y ∷ insert_sorted x ys in if lt y x then later else x ∷ y ∷ ys

  unfoldable pub sort : List A → List A
  unfolding insert_sorted
  sort [] = []
  sort (x ∷ xs) = insert_sorted x (sort xs)

  -- No element stands behind one that is greater.
  abbrev pub IsSorted : List A → Type 0
  IsSorted [] = Unit
  IsSorted (x ∷ xs) = All (λ y. lt y x ≡ false) xs × IsSorted xs

  insert_sorted-perm : (x : A) (xs : List A) → Perm (insert_sorted x xs) (x ∷ xs)
  unfolding insert_sorted
  insert_sorted-perm x [] = Perm.refl _
  insert_sorted-perm x (y ∷ ys) = elim (Bool-cases (lt y x)) [
    | inl h ↦ rw h (Perm.trans (Perm.cons y (insert_sorted-perm x ys)) (Perm.swap x y ys))
    | inr h ↦ rw h (Perm.refl _)
  ]

  pub sort-perm : (xs : List A) → Perm (sort xs) xs
  unfolding sort
  sort-perm [] = Perm.refl _
  sort-perm (x ∷ xs) = Perm.trans (insert_sorted-perm x (sort xs)) (Perm.cons x (sort-perm xs))

  module _ {κ} (P : A → Type κ) where
    All-insert_sorted : (x : A) (xs : List A) → P x → All P xs → All P (insert_sorted x xs)
    unfolding insert_sorted
    All-insert_sorted x [] h hs = (h, tt)
    All-insert_sorted x (y ∷ ys) h hs = ground (arith, All-insert_sorted x ys h hs.1)

    pub All-sort : (xs : List A) → All P xs → All P (sort xs)
    unfolding sort
    All-sort [] h = tt
    All-sort (x ∷ xs) h = All-insert_sorted x (sort xs) h.0 (All-sort xs h.1)

    All-of_insert_sorted : (x : A) (xs : List A) → All P (insert_sorted x xs) → P x × All P xs
    unfolding insert_sorted
    All-of_insert_sorted x [] h = h
    All-of_insert_sorted x (y ∷ ys) h = elim (Bool-cases (lt y x)) [
      | inl e ↦
          let k : P y × All P (insert_sorted x ys) = rw (e, insert_sorted) at h in
          let (px, rest) = All-of_insert_sorted x ys k.1 in (px, (k.0, rest))
      | inr e ↦ rw (e, insert_sorted) at h
    ]

    pub All-of_sort : (xs : List A) → All P (sort xs) → All P xs
    unfolding sort
    All-of_sort [] h = tt
    All-of_sort (x ∷ xs) h =
        let (px, rest) = All-of_insert_sorted x (sort xs) h in (px, All-of_sort xs rest)

  module _ (lt_asymm : (x y : A) → lt x y ≡ true → lt y x ≡ false)
      (le_trans : (x y z : A) → lt y x ≡ false → lt z y ≡ false → lt z x ≡ false) where
    All-le_trans :
        (x y : A) (zs : List A)
        → lt y x ≡ false
        → All (λ z. lt z y ≡ false) zs
        → All (λ z. lt z x ≡ false) zs
    All-le_trans x y [] h hs = tt
    All-le_trans x y (z ∷ zs) h hs = (le_trans x y z h hs.0, All-le_trans x y zs h hs.1)

    insert_sorted-IsSorted : (x : A) (xs : List A) → IsSorted xs → IsSorted (insert_sorted x xs)
    unfolding insert_sorted
    insert_sorted-IsSorted x [] h = (tt, tt)
    insert_sorted-IsSorted x (y ∷ ys) h = elim (Bool-cases (lt y x)) [
      | inl e ↦
          rw (e, insert_sorted)
            (
              All-insert_sorted (λ z. lt z y ≡ false) x ys (lt_asymm y x e) h.0,
              insert_sorted-IsSorted x ys h.1,
            )
      | inr e ↦ rw (e, insert_sorted) ((e, All-le_trans x y ys e h.0), h)
    ]

    pub sort-IsSorted : (xs : List A) → IsSorted (sort xs)
    unfolding sort
    sort-IsSorted [] = tt
    sort-IsSorted (x ∷ xs) = insert_sorted-IsSorted x (sort xs) (sort-IsSorted xs)

-- What sorting keeps, for elements with a decidable equality.
module _ {ℓ} {A : Type ℓ} ⦃e : Eq A⦄ (lt : A → A → Bool) where
  length-insert_sorted : (x : A) (xs : List A) → length (insert_sorted lt x xs) ≡ length xs + 1
  unfolding insert_sorted
  length-insert_sorted x [] = omega arith
  length-insert_sorted x (y ∷ ys) = ground (arith, length-insert_sorted x ys)

  pub length-sort : (xs : List A) → length (sort lt xs) ≡ length xs
  unfolding sort
  length-sort [] = refl
  length-sort (x ∷ xs) = omega (arith, length-insert_sorted x (sort lt xs), length-sort xs)

  contains-insert_sorted :
      (x : A) (xs : List A) (a : A) → contains (insert_sorted lt x xs) a ≡ (x == a || contains xs a)
  unfolding insert_sorted
  contains-insert_sorted x [] a = refl
  contains-insert_sorted x (y ∷ ys) a = ground (arith, contains-insert_sorted x ys a)

  pub contains-sort : (xs : List A) (a : A) → contains (sort lt xs) a ≡ contains xs a
  unfolding sort
  contains-sort [] a = refl
  contains-sort (x ∷ xs) a =
      ground (arith, contains-insert_sorted x (sort lt xs) a, contains-sort xs a)

  Distinct-insert_sorted :
      (x : A) (xs : List A) → contains xs x ≡ false → Distinct xs → Distinct (insert_sorted lt x xs)
  unfolding insert_sorted
  Distinct-insert_sorted x [] n d = (refl, tt)
  Distinct-insert_sorted x (y ∷ ys) n d = ground (
    arith,
    e.equals_iff x y,
    e.equals_iff y x,
    contains-insert_sorted x ys y,
    Distinct-insert_sorted x ys,
  )

  pub Distinct-sort : (xs : List A) → Distinct xs → Distinct (sort lt xs)
  unfolding sort
  Distinct-sort [] d = tt
  Distinct-sort (x ∷ xs) d =
      Distinct-insert_sorted x (sort lt xs) (rw contains-sort d.0) (Distinct-sort xs d.1)

-- What sorting keeps of a key of the elements.
module _ {ℓ κ} {A : Type ℓ} {K : Type κ} ⦃e : Eq K⦄ (lt : A → A → Bool) (key : A → K) where
  contains-map-insert_sorted :
      (x : A) (xs : List A) (k : K)
      → contains (map key (insert_sorted lt x xs)) k ≡ (key x == k || contains (map key xs) k)
  unfolding insert_sorted
  contains-map-insert_sorted x [] k = refl
  contains-map-insert_sorted x (y ∷ ys) k = ground (arith, contains-map-insert_sorted x ys k)

  pub contains-map-sort :
      (xs : List A) (k : K) → contains (map key (sort lt xs)) k ≡ contains (map key xs) k
  unfolding sort
  contains-map-sort [] k = refl
  contains-map-sort (x ∷ xs) k =
      ground (arith, contains-map-insert_sorted x (sort lt xs) k, contains-map-sort xs k)

  Distinct-map-insert_sorted :
      (x : A) (xs : List A)
      → contains (map key xs) (key x) ≡ false
      → Distinct (map key xs)
      → Distinct (map key (insert_sorted lt x xs))
  unfolding insert_sorted
  Distinct-map-insert_sorted x [] n d = (refl, tt)
  Distinct-map-insert_sorted x (y ∷ ys) n d = ground (
    arith,
    e.equals_iff (key x) (key y),
    e.equals_iff (key y) (key x),
    contains-map-insert_sorted x ys (key y),
    Distinct-map-insert_sorted x ys,
  )

  pub Distinct-map-sort : (xs : List A) → Distinct (map key xs) → Distinct (map key (sort lt xs))
  unfolding sort
  Distinct-map-sort [] d = tt
  Distinct-map-sort (x ∷ xs) d =
      Distinct-map-insert_sorted x (sort lt xs) (rw contains-map-sort d.0)
        (Distinct-map-sort xs d.1)

-- Under a total order a sorted list without repetitions is determined by what it holds.
module _ {ℓ} {A : Type ℓ} ⦃e : Eq A⦄ (lt : A → A → Bool)
    (lt_total : (x y : A) → lt x y ≡ false → lt y x ≡ false → x ≡ y) where
  of_contains {κ} : (P : A → Type κ) (xs : List A) (a : A) → All P xs → contains xs a ≡ true → P a
  of_contains P [] a h k = cc
  of_contains P (x ∷ xs) a h k = elim (Bool-cases (x == a)) [
    | inl here ↦ subst P ((e.equals_iff x a).0 here) h.0
    | inr there ↦ of_contains P xs a h.1 (ground arith)
  ]

  heads_equal :
      (x y : A) (xs ys : List A)
      → IsSorted lt (x ∷ xs)
      → IsSorted lt (y ∷ ys)
      → contains (y ∷ ys) x ≡ true
      → contains (x ∷ xs) y ≡ true
      → x ≡ y
  heads_equal x y xs ys sx sy cx cy = elim (Bool-cases (x == y)) [
    | inl here ↦ (e.equals_iff x y).0 here
    | inr there ↦
        lt_total x y
          (of_contains (λ z. lt z y ≡ false) ys x sy.0
            (ground (arith, e.equals_iff x y, e.equals_iff y x)))
          (of_contains (λ z. lt z x ≡ false) xs y sx.0 (ground arith))
  ]

  pub eq_of_contains :
      (xs ys : List A)
      → IsSorted lt xs
      → IsSorted lt ys
      → Distinct xs
      → Distinct ys
      → ((a : A) → contains xs a ≡ contains ys a)
      → xs ≡ ys
  eq_of_contains [] [] sx sy dx dy same = refl
  eq_of_contains [] (y ∷ ys) sx sy dx dy same = ground (arith, same y, beq_refl y)
  eq_of_contains (x ∷ xs) [] sx sy dx dy same = ground (arith, same x, beq_refl x)
  eq_of_contains (x ∷ xs) (y ∷ ys) sx sy dx dy same =
      let x≡y =
        heads_equal x y xs ys sx sy (ground (arith, same x, beq_refl x))
          (ground (arith, same y, beq_refl y)) in
      let rest : xs ≡ ys =
        eq_of_contains xs ys sx.1 sy.1 dx.1 dy.1
          (λ a. ground (arith, same a, x≡y, e.equals_iff x a, e.equals_iff y a, dx.0, dy.0)) in
      cc (x≡y, rest)

-- Two orders that agree on the elements of a list sort it alike.
module _ {ℓ} {A : Type ℓ} (lt lt' : A → A → Bool) where
  abbrev pub Agree : List A → Type 0
  Agree [] = Unit
  Agree (x ∷ xs) = All (λ y. lt y x ≡ lt' y x) xs × Agree xs

  insert_sorted-Agree :
      (x : A) (ys : List A)
      → All (λ y. lt y x ≡ lt' y x) ys
      → insert_sorted lt x ys ≡ insert_sorted lt' x ys
  unfolding insert_sorted
  insert_sorted-Agree x [] h = refl
  insert_sorted-Agree x (y ∷ ys) h =
      rw h.0
        (ap (λ later. if lt' y x then y ∷ later else x ∷ y ∷ ys) (insert_sorted-Agree x ys h.1))

  pub sort-Agree : (xs : List A) → Agree xs → sort lt xs ≡ sort lt' xs
  unfolding sort
  sort-Agree [] h = refl
  sort-Agree (x ∷ xs) h =
      insert_sorted-Agree x (sort lt xs) (All-sort lt (λ y. lt y x ≡ lt' y x) xs h.0)
      ∙ ap (insert_sorted lt' x) (sort-Agree xs h.1)
