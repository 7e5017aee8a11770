-- ===== src/Store/Rows.antt =====
-- Writes to one row of a table, and what a query then finds.
use distributed_rate_limiter.Store.{RuleRow, GroupRow, same_id, unique_by, set_where}
use distributed_rate_limiter.Prelude.{
  String, ◌≡◌, refl, sym, ap, subst, inl, inr, Bool, true, false, not, none, some, List, [], ◌∷◌,
  ◌++◌, map, arith, if◌then◌else◌, ◌==◌, nat_eq, string_eq, Bool-cases, all, find, All,
}

some_eq {ℓ} : {A : Type ℓ} {a b : A} → some a ≡ some b → a ≡ b
some_eq h = cc

-- A row that is found passes the test, and what holds of all rows holds of it.
pub of_find {ℓ κ} :
    {A : Type ℓ} (P : A → Type κ) (p : A → Bool) (xs : List A) (a : A)
    → All P xs
    → find p xs ≡ some a
    → P a × (p a ≡ true)
of_find P p [] a h e = cc
of_find P p (x ∷ xs) a h e = elim (Bool-cases (p x)) [
  | inl t ↦ subst (λ y. P y × (p y ≡ true)) (some_eq (rw t at e)) (h.0, t)
  | inr f ↦ of_find P p xs a h.1 (rw f at e)
]

pub not_any {ℓ} :
    {A : Type ℓ} (p : A → Bool) (xs : List A) → find p xs ≡ none → All (λ x. p x ≡ false) xs
not_any p [] h = tt
not_any p (x ∷ xs) h = elim (Bool-cases (p x)) [
  | inl e ↦ absurd (let bad : some x ≡ none = rw e at h in cc)
  | inr e ↦ (e, not_any p xs (rw e at h))
]

-- The other rows have another id.
pub other_ids :
    (r : RuleRow) (rs : List RuleRow) (id : String)
    → all (λ s. not (same_id r s)) rs ≡ true
    → (r.id == id) ≡ true
    → All (λ s. (s.id == id) ≡ false) rs
other_ids r [] id h e = tt
other_ids r (s ∷ rs) id h e = (
  ground (
    arith,
    string_eq.equals_iff r.id id,
    string_eq.equals_iff s.id id,
    string_eq.equals_iff r.id s.id,
  ),
  other_ids r rs id (ground arith) e,
)

pub set_none {ℓ} :
    {A : Type ℓ} (p : A → Bool) (f : A → A) (xs : List A)
    → All (λ x. p x ≡ false) xs
    → set_where p f xs ≡ xs
set_none p f [] h = refl
set_none p f (x ∷ xs) h = rw h.0 (λ i. x ∷ set_none p f xs h.1 i)

-- A write to the row of an id keeps what holds of all rows, if the new row has it too.
pub All-set_row {κ} :
    (P : RuleRow → Type κ) (f : RuleRow → RuleRow) (id : String) (rs : List RuleRow) (r : RuleRow)
    → unique_by same_id rs ≡ true
    → find (λ s. s.id == id) rs ≡ some r
    → All P rs
    → P (f r)
    → All P (set_where (λ s. s.id == id) f rs)
All-set_row P f id [] r u e h new = tt
All-set_row P f id (s ∷ rs) r u e h new = elim (Bool-cases (s.id == id)) [
  | inl t ↦
      let same : r ≡ s = sym (some_eq (rw t at e)) in
      rw t (
        subst (λ k. P (f k)) same new,
        rw (set_none (λ k. k.id == id) f rs (other_ids s rs id (ground arith) t)) h.1,
      )
  | inr n ↦ rw n (h.0, All-set_row P f id rs r (ground arith) (rw n at e) h.1 new)
]

pub All-append {ℓ κ} :
    {A : Type ℓ} (P : A → Type κ) (xs ys : List A) → All P xs → All P ys → All P (xs ++ ys)
All-append P [] ys h k = k
All-append P (x ∷ xs) ys h k = (h.0, All-append P xs ys h.1 k)

pub All-to {ℓ κ μ} :
    {A : Type ℓ} {B : Type κ} (P : B → Type μ) (f : A → B) (xs : List A)
    → All (λ x. P (f x)) xs
    → All P (map f xs)
All-to P f [] h = tt
All-to P f (x ∷ xs) h = (h.0, All-to P f xs h.1)

pub All-units {ℓ} : {A : Type ℓ} (xs : List A) → All (λ _. Unit {0}) xs
All-units [] = tt
All-units (x ∷ xs) = (tt, All-units xs)

-- A group that is found by an id is found by its own.
pub find_own :
    (gs : List GroupRow) (id : String) (g : GroupRow)
    → find (λ k. k.id == id) gs ≡ some g
    → find (λ k. k.id == g.id) gs ≡ some g
find_own gs id g h =
    let own : g.id ≡ id =
      (string_eq.equals_iff g.id id).0
        (of_find (λ _. Unit {0}) (λ (j : GroupRow). j.id == id) gs g (All-units gs) h).1 in
    subst (λ i. find (λ k. k.id == i) gs ≡ some g) (sym own) h

-- A write to the row that a test finds is found by that test, and by no other.
pub find-set_same {ℓ} :
    {A : Type ℓ} (p : A → Bool) (f : A → A) (xs : List A) (a : A)
    → ((x : A) → p (f x) ≡ p x)
    → find p xs ≡ some a
    → find p (set_where p f xs) ≡ some (f a)
find-set_same p f [] a keeps h = cc
find-set_same p f (x ∷ xs) a keeps h = elim (Bool-cases (p x)) [
  | inl t ↦ rw (t, keeps x, t) (λ i. some (f (some_eq (rw t at h) i)))
  | inr n ↦ rw (n, n) (find-set_same p f xs a keeps (rw n at h))
]

pub find-set_other {ℓ} :
    {A : Type ℓ} (p q : A → Bool) (f : A → A) (xs : List A)
    → ((x : A) → p (f x) ≡ p x)
    → ((x : A) → q x ≡ true → p x ≡ false)
    → find p (set_where q f xs) ≡ find p xs
find-set_other p q f [] keeps other = refl
find-set_other p q f (x ∷ xs) keeps other = elim (Bool-cases (q x)) [
  | inl t ↦ rw (t, keeps x, other x t) (find-set_other p q f xs keeps other)
  | inr n ↦ rw n (ap (λ o. if p x then some x else o) (find-set_other p q f xs keeps other))
]
