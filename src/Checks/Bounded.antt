-- ===== src/Checks/Bounded.antt =====
-- What a body is that the schema of `POST /check` accepts.
use distributed_rate_limiter.Checks.{
  RawCheck, identifier_value, identifier_values, type_set, validate_check,
}
use distributed_rate_limiter.Errors.{Error, validation_error}
use distributed_rate_limiter.Identifier.{IdentifierType, value, members, identifier_eq}
use distributed_rate_limiter.Limiter.{Pair}
use distributed_rate_limiter.Limiter.Keys.{DistinctTypes}
use distributed_rate_limiter.Service.{CheckRequest}
use distributed_rate_limiter.Prelude.{
  suc, Eq, ◌≤◌, String, ◌≡◌, refl, sym, ◌∙◌, subst, inl, inr, Bool, true, false, not, ◌||◌, Option,
  none, some, List, [], ◌∷◌, map, if◌then◌else◌, ltb, ◌==◌, nat_eq, string_eq, find, contains,
  length, All, Distinct, Bool-cases, Result, ok, raise, raise_if, raise_if-eq-ok, >>=-eq-ok,
  ok-injective, arith,
}

-- The pair of an entry: its type by the value of the enum, and its text, which is not empty.
pub record IsEntry (entry : String × String) (p : Pair) : Type 0 where
  pub type_text : value p.0 ≡ entry.0
  pub text : p.1 ≡ entry.1
  pub not_empty : (p.1 == "") ≡ false

-- The pairs of the entries, one for one and in order.
abbrev pub AreEntries : List (String × String) → List Pair → Type 0
AreEntries [] [] = Unit
AreEntries (e ∷ es) (p ∷ ps) = IsEntry e p × AreEntries es ps
AreEntries _ _ = ⊥

find-passes {ℓ} :
    {A : Type ℓ} (test : A → Bool) (xs : List A) (a : A) → find test xs ≡ some a → test a ≡ true
find-passes test [] a h = cc
find-passes {A = A} test (x ∷ xs) a h = elim (Bool-cases (test x)) [
  | inl t ↦ subst (λ b. test b ≡ true) (some_injective (rw t at h)) t
  | inr n ↦ find-passes test xs a (rw n at h)
]
  where
    some_injective : {b c : A} → ◌≡◌ {A = Option A} (some b) (some c) → b ≡ c
    some_injective e = cc

identifier_value-IsEntry :
    (entry : String × String) (p : Pair) → identifier_value entry ≡ ok p → IsEntry entry p
unfolding identifier_value
identifier_value-IsEntry (type_text, text) p h =
    by_type (find (λ t. value t == type_text) members) refl h
  where
    by_type :
        (o : Option IdentifierType)
        → find (λ t. value t == type_text) members ≡ o
        → ◌≡◌ {A = Result Error Pair}
            (elim o [
              | none ↦ raise validation_error
              | some t ↦ if text == "" then raise validation_error else ok (t, text)
            ])
            (ok p)
        → IsEntry (type_text, text) p
    by_type none e k = cc
    by_type (some t) e k = elim (Bool-cases (text == "")) [
      | inl empty ↦ absurd (let bad = rw empty at k in cc bad)
      | inr full ↦ subst (IsEntry (type_text, text)) (ok-injective (rw full at k)) (record {
        type_text =
            (string_eq.equals_iff (value t) type_text).0
              (find-passes (λ s. value s == type_text) members t e);
        text = refl;
        not_empty = full;
      })
    ]

identifier_values-AreEntries :
    (entries : List (String × String)) (pairs : List Pair)
    → identifier_values entries ≡ ok pairs
    → AreEntries entries pairs
unfolding identifier_values
identifier_values-AreEntries [] pairs h = subst (AreEntries []) (ok-injective h) tt
identifier_values-AreEntries (entry ∷ entries) pairs h =
    let (p, first, h₁) = >>=-eq-ok (identifier_value entry) _ h in
    let (rest, later, h₂) = >>=-eq-ok (identifier_values entries) _ h₁ in
    subst (AreEntries (entry ∷ entries)) (ok-injective h₂)
      (identifier_value-IsEntry entry p first, identifier_values-AreEntries entries rest later)

module _ {ℓ} {A : Type ℓ} ⦃e : Eq A⦄ where
  contains-type_set : (ts : List A) (t : A) → contains (type_set ts) t ≡ contains ts t
  unfolding type_set
  contains-type_set [] t = refl
  contains-type_set (s ∷ ts) t = ground (arith, e.equals_iff s t, contains-type_set ts t)

  length-type_set : (ts : List A) → length (type_set ts) ≤ length ts
  unfolding type_set
  length-type_set [] = omega arith
  length-type_set (t ∷ ts) = ground (arith, length-type_set ts)

  -- Where the set is as long as the list, the list repeats nothing.
  Distinct-of_type_set : (ts : List A) → length (type_set ts) ≡ length ts → Distinct ts
  unfolding type_set
  Distinct-of_type_set [] h = tt
  Distinct-of_type_set (t ∷ ts) h = elim (Bool-cases (contains (type_set ts) t)) [
    | inl again ↦
        let short : length (type_set ts) ≡ suc (length ts) = rw (again, type_set) at h in
        absurd (omega (arith, length-type_set ts))
    | inr first ↦
        let same : suc (length (type_set ts)) ≡ suc (length ts) = rw (first, type_set) at h in
        (sym (contains-type_set ts t) ∙ first, Distinct-of_type_set ts (omega arith))
  ]

-- A body that is accepted.
pub record IsBounded (raw : RawCheck) (payload : CheckRequest) : Type 0 where
  pub endpoint : payload.endpoint ≡ raw.endpoint
  pub endpoint_given : (payload.endpoint == "") ≡ false
  pub entries : AreEntries raw.identifiers payload.identifiers
  pub at_least_one : 1 ≤ length payload.identifiers
  pub at_most_three : length payload.identifiers ≤ 3
  pub distinct : DistinctTypes payload.identifiers

neither : (a b : Bool) → (a || b) ≡ false → (a ≡ false) × (b ≡ false)
neither a b h = ground arith

DistinctTypes-of_Distinct :
    (pairs : List Pair) → Distinct (map (λ p. p.0) pairs) → DistinctTypes pairs
DistinctTypes-of_Distinct [] d = tt
DistinctTypes-of_Distinct (p ∷ pairs) d = (apart pairs d.0, DistinctTypes-of_Distinct pairs d.1)
  where
    apart :
        (ps : List Pair)
        → contains (map (λ q. q.0) ps) p.0 ≡ false
        → All (λ q. (q.0 == p.0) ≡ false) ps
    apart [] h = tt
    apart (q ∷ ps) h =
        let (other, rest) = neither (q.0 == p.0) (contains (map (λ r. r.0) ps) p.0) h in
        (other, apart ps rest)

-- A body that the schema accepts names an endpoint and has between one and three identifiers, one for each
-- entry of the body and in its order, each with the type that the entry names and its value, which is not
-- empty; no type stands twice.
pub validate_check-IsBounded :
    (raw : RawCheck) (payload : CheckRequest)
    → validate_check raw ≡ ok payload
    → IsBounded raw payload
unfolding validate_check
validate_check-IsBounded raw payload h =
    let (u, named, h₁) = >>=-eq-ok (raise_if (raw.endpoint == "") validation_error) _ h in
    let (pairs, read, h₂) = >>=-eq-ok (identifier_values raw.identifiers) _ h₁ in
    let (v, sized, h₃) =
      >>=-eq-ok (raise_if (ltb (length pairs) 1 || ltb 3 (length pairs)) validation_error) _ h₂ in
    let types_seen = map (λ (p : Pair). p.0) pairs in
    let (t, single, h₄) =
      >>=-eq-ok
        (raise_if (not (length (type_set types_seen) == length types_seen)) validation_error) _
        h₃ in
    let not_sized =
      raise_if-eq-ok (ltb (length pairs) 1 || ltb 3 (length pairs)) validation_error sized in
    let not_single =
      raise_if-eq-ok (not (length (type_set types_seen) == length types_seen)) validation_error
        single in
    subst (IsBounded raw) (ok-injective h₄) (record {
      endpoint = refl;
      endpoint_given = raise_if-eq-ok (raw.endpoint == "") validation_error named;
      entries = identifier_values-AreEntries raw.identifiers pairs read;
      at_least_one = ground (arith, not_sized);
      at_most_three = ground (arith, not_sized);
      distinct =
          DistinctTypes-of_Distinct pairs
            (Distinct-of_type_set types_seen (ground (arith, not_single)));
    })
