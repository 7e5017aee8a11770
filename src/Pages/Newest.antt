-- ===== src/Pages/Newest.antt =====
-- Rows in the order newest first: where no two have one time, there is just one such order.
use distributed_rate_limiter.Prelude.{
  ℕ, suc, ◌+◌, ◌≤◌, ◌<◌, ◌≡◌, refl, sym, ap, ◌∙◌, subst, inl, inr, List, [], ◌∷◌, if◌then◌else◌,
  ◌==◌, nat_eq, All, All-map, length, ◌⊎◌, arith,
}

module _ {A : Type 0} where
  -- The same rows in another order. (The library's `Perm` is a truncation, out of which only propositions
  -- can be proved.)
  pub data Reordered : List A → List A → Type 0 where
    nil : Reordered [] []
    cons : (x : A) {xs ys : List A} → Reordered xs ys → Reordered (x ∷ xs) (x ∷ ys)
    swap : (x y : A) (xs : List A) → Reordered (x ∷ y ∷ xs) (y ∷ x ∷ xs)
    trans : {xs ys zs : List A} → Reordered xs ys → Reordered ys zs → Reordered xs zs

  pub same_rows : (xs : List A) → Reordered xs xs
  same_rows [] = nil
  same_rows (x ∷ xs) = cons x (same_rows xs)

  Reordered-back : (xs ys : List A) → Reordered xs ys → Reordered ys xs
  Reordered-back _ _ nil = nil
  Reordered-back _ _ (cons x d) = cons x (Reordered-back _ _ d)
  Reordered-back _ _ (swap x y xs) = swap y x xs
  Reordered-back _ _ (trans d₁ d₂) = trans (Reordered-back _ _ d₂) (Reordered-back _ _ d₁)

  pub All-Reordered : (P : A → Type 0) (xs ys : List A) → Reordered xs ys → All P xs → All P ys
  All-Reordered P _ _ nil h = h
  All-Reordered P _ _ (cons x d) h = (h.0, All-Reordered P _ _ d h.1)
  All-Reordered P _ _ (swap x y xs) h = (h.1.0, (h.0, h.1.1))
  All-Reordered P _ _ (trans d₁ d₂) h = All-Reordered P _ _ d₂ (All-Reordered P _ _ d₁ h)

  pub length-Reordered : (xs ys : List A) → Reordered xs ys → length xs ≡ length ys
  length-Reordered _ _ nil = refl
  length-Reordered _ _ (cons x d) = ap suc (length-Reordered _ _ d)
  length-Reordered _ _ (swap x y xs) = refl
  length-Reordered _ _ (trans d₁ d₂) = length-Reordered _ _ d₁ ∙ length-Reordered _ _ d₂

  module _ (time : A → ℕ) where
    -- How many rows have this time.
    abbrev pub count : ℕ → List A → ℕ
    count t [] = 0
    count t (x ∷ xs) = (if time x == t then 1 else 0) + count t xs

    -- `ORDER BY created_at DESC`: no row stands before a newer one.
    abbrev pub IsNewestFirst : List A → Type 0
    IsNewestFirst [] = Unit
    IsNewestFirst (x ∷ xs) = All (λ y. time y ≤ time x) xs × IsNewestFirst xs

    abbrev IsDescending : List A → Type 0
    IsDescending [] = Unit
    IsDescending (x ∷ xs) = All (λ y. time y < time x) xs × IsDescending xs

    count-Reordered : (t : ℕ) (xs ys : List A) → Reordered xs ys → count t xs ≡ count t ys
    count-Reordered t _ _ nil = refl
    count-Reordered t _ _ (cons x d) =
        ap (λ n. (if time x == t then 1 else 0) + n) (count-Reordered t _ _ d)
    count-Reordered t _ _ (swap x y xs) = omega arith
    count-Reordered t _ _ (trans d₁ d₂) = count-Reordered t _ _ d₁ ∙ count-Reordered t _ _ d₂

    All-older :
        (k : ℕ) (xs : List A) → count k xs ≤ 0 → All (λ y. time y ≤ k) xs → All (λ y. time y < k) xs
    All-older k [] none h = tt
    All-older k (x ∷ xs) none h =
        let rest = All-older k xs (ground arith) h.1 in (grind arith, rest)

    strictly : (xs : List A) → ((t : ℕ) → count t xs ≤ 1) → IsNewestFirst xs → IsDescending xs
    strictly [] few h = tt
    strictly (x ∷ xs) few h = (
      All-older (time x) xs (let k = few (time x) in grind (arith, k)) h.0,
      strictly xs (λ t. let k = few t in omega (arith, k)) h.1,
    )

    -- What holds of all of the one holds of all of the other.
    abbrev Alike : List A → List A → Type 1
    Alike xs ys = (P : A → Type 0) → All P xs → All P ys

    tail-Alike :
        (x : A) (xs : List A) (y : A) (ys : List A)
        → time x ≡ time y
        → All (λ z. time z < time y) ys
        → Alike (x ∷ xs) (y ∷ ys)
        → Alike xs ys
    tail-Alike x xs y ys same older alike P h =
        let all : All (λ z. (time z ≡ time x) ⊎ P z) (y ∷ ys) =
          alike (λ z. (time z ≡ time x) ⊎ P z) (inl refl, All-map (λ z p. inr p) xs h) in
        All-apart ys older all.1
      where
        All-apart :
            (zs : List A)
            → All (λ z. time z < time y) zs
            → All (λ z. (time z ≡ time x) ⊎ P z) zs
            → All P zs
        All-apart [] h k = tt
        All-apart (z ∷ zs) h (inl e, k) = absurd (omega (arith, h.0, e, same))
        All-apart (z ∷ zs) h (inr p, k) = (p, All-apart zs h.1 k)

    descending_unique :
        (xs ys : List A) → Alike xs ys → Alike ys xs → IsDescending xs → IsDescending ys → xs ≡ ys
    descending_unique [] [] to from h k = refl
    descending_unique [] (y ∷ ys) to from h k = absurd (to (λ _. ⊥) tt).0
    descending_unique (x ∷ xs) [] to from h k = absurd (from (λ _. ⊥) tt).0
    descending_unique (x ∷ xs) (y ∷ ys) to from h k =
        let below =
          (to (λ z. time z ≤ time x) (omega arith, All-map (λ z p. omega (arith, p)) xs h.0)).0 in
        let above =
          (from (λ z. time z ≤ time y) (omega arith, All-map (λ z p. omega (arith, p)) ys k.0)).0 in
        let same : time x ≡ time y = omega (arith, below, above) in
        let head : y ≡ x =
          (to (λ z. time z ≡ time x → z ≡ x)
              (λ _. refl, All-map (λ z p e. absurd (omega (arith, p, e))) xs h.0)).0
            (sym same) in
        let rest =
          descending_unique xs ys (tail-Alike x xs y ys same k.0 to)
            (tail-Alike y ys x xs (sym same) h.0 from) h.1 k.1 in
        ap (λ z. z ∷ xs) (sym head) ∙ ap (λ zs. y ∷ zs) rest

    -- Two orders of the same rows, newest first, agree where no two rows have one time.
    pub newest_first_unique :
        (rows xs ys : List A)
        → ((t : ℕ) → count t rows ≤ 1)
        → Reordered rows xs
        → Reordered rows ys
        → IsNewestFirst xs
        → IsNewestFirst ys
        → xs ≡ ys
    newest_first_unique rows xs ys few d e h k =
        descending_unique xs ys
          (λ P p. All-Reordered P rows ys e (All-Reordered P xs rows (Reordered-back rows xs d) p))
          (λ P p. All-Reordered P rows xs d (All-Reordered P ys rows (Reordered-back rows ys e) p))
          (strictly xs (λ t. subst (λ n. n ≤ 1) (count-Reordered t rows xs d) (few t)) h)
          (strictly ys (λ t. subst (λ n. n ≤ 1) (count-Reordered t rows ys e) (few t)) k)
