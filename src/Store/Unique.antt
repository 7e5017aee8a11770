-- ===== src/Store/Unique.antt =====
-- A table in which no two rows clash, and a write to one of its rows.
use distributed_rate_limiter.Store.{RuleRow, same_id, unique_by, set_where}
use distributed_rate_limiter.Store.Rows.{other_ids, set_none}
use distributed_rate_limiter.Prelude.{
  String, ◌≡◌, refl, sym, subst, inl, inr, Bool, true, false, not, some, List, [], ◌∷◌, ◌==◌,
  nat_eq, string_eq, arith, Bool-cases, all, find, All,
}

pub some_eq {ℓ} : {A : Type ℓ} {a b : A} → some a ≡ some b → a ≡ b
some_eq h = cc

-- A test that the new row passes too.
pub all-set {ℓ} :
    {A : Type ℓ} (q p : A → Bool) (f : A → A) (xs : List A)
    → all q xs ≡ true
    → ((x : A) → p x ≡ true → q x ≡ true → q (f x) ≡ true)
    → all q (set_where p f xs) ≡ true
all-set q p f [] h new = refl
all-set q p f (x ∷ xs) h new = elim (Bool-cases (p x)) [
  | inl t ↦ rw t (ground (arith, new x t, all-set q p f xs))
  | inr n ↦ rw n (ground (arith, all-set q p f xs))
]

-- The new row clashes with no row of another id.
abbrev pub NoClash : (RuleRow → RuleRow → Bool) → RuleRow → String → RuleRow → Type 0
NoClash clash new id s = (s.id == id) ≡ false → (clash new s ≡ false) × (clash s new ≡ false)

all-new :
    (clash : RuleRow → RuleRow → Bool) (new : RuleRow) (id : String) (rs : List RuleRow)
    → All (NoClash clash new id) rs
    → All (λ s. (s.id == id) ≡ false) rs
    → all (λ s. not (clash new s)) rs ≡ true
all-new clash new id [] h o = refl
all-new clash new id (s ∷ rs) h o = rw (h.0 o.0).0 (all-new clash new id rs h.1 o.1)

all-old :
    (clash : RuleRow → RuleRow → Bool) (f : RuleRow → RuleRow) (id : String) (x r : RuleRow)
    (rs : List RuleRow)
    → unique_by same_id rs ≡ true
    → find (λ s. s.id == id) rs ≡ some r
    → clash x (f r) ≡ false
    → all (λ s. not (clash x s)) rs ≡ true
    → all (λ s. not (clash x s)) (set_where (λ s. s.id == id) f rs) ≡ true
all-old clash f id x r [] u e n h = refl
all-old clash f id x r (s ∷ rs) u e n h = elim (Bool-cases (s.id == id)) [
  | inl t ↦
      let same : s ≡ r = some_eq (rw t at e) in
      let new : clash x (f s) ≡ false = subst (λ k. clash x (f k) ≡ false) (sym same) n in
      rw (t, new, set_none (λ k. k.id == id) f rs (other_ids s rs id (ground arith) t))
        (ground (arith, h))
  | inr o ↦ rw o (ground (arith, h, all-old clash f id x r rs (ground arith) (rw o at e) n))
]

-- A write to the row of an id leaves a table without clashes, if the new row has none.
pub unique_by-set_row :
    (clash : RuleRow → RuleRow → Bool) (f : RuleRow → RuleRow) (id : String) (rs : List RuleRow)
    (r : RuleRow)
    → unique_by same_id rs ≡ true
    → find (λ s. s.id == id) rs ≡ some r
    → All (NoClash clash (f r) id) rs
    → unique_by clash rs ≡ true
    → unique_by clash (set_where (λ s. s.id == id) f rs) ≡ true
unique_by-set_row clash f id [] r u e h c = refl
unique_by-set_row clash f id (x ∷ rs) r u e h c = elim (Bool-cases (x.id == id)) [
  | inl t ↦
      let same : x ≡ r = some_eq (rw t at e) in
      let others = other_ids x rs id (ground arith) t in
      let fresh = all-new clash (f r) id rs h.1 others in
      let new : all (λ s. not (clash (f x) s)) rs ≡ true =
        subst (λ k. all (λ s. not (clash (f k) s)) rs ≡ true) (sym same) fresh in
      rw (t, set_none (λ k. k.id == id) f rs others, new) (ground arith)
  | inr n ↦
      let found : find (λ s. s.id == id) rs ≡ some r = rw n at e in
      rw (n, all-old clash f id x r rs (ground arith) found (h.0 n).1 (ground arith))
        (unique_by-set_row clash f id rs r (ground arith) found h.1 (ground arith))
]
