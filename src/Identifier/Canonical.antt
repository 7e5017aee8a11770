-- ===== src/Identifier/Canonical.antt =====
-- The canonical form of a rule's identifier types (model/rule_identifier_type.py).
use distributed_rate_limiter.Identifier.RuleTypes.{
  RawType, raw_value, members, value, global, dedupe, canonical, normalize_identifier_types,
  max_identifiers_per_rule,
}
use distributed_rate_limiter.Prelude.Sort.{
  sort, IsSorted, sort-IsSorted, All-sort, length-sort, contains-sort, Distinct-sort,
  eq_of_contains,
}
use distributed_rate_limiter.Prelude.{
  Distinct-append_one, ◌≤◌, String, ◌≡◌, sym, ap, ◌∙◌, subst, inl, inr, true, ◌||◌, List, [], ◌∷◌,
  ◌++◌, map, arith, if◌then◌else◌, ◌==◌, nat_eq, string_eq, pair_eq, Bool-cases, length, All,
  contains, Distinct, contains-append, ok, >>=-eq-ok, ok-injective, str_ltb, join, str_ltb_asymm,
  str_le_trans, str_ltb_total,
}

abbrev IsKnown : String → Type 0
IsKnown s = contains (map value members) s ≡ true

-- What the loop of `normalize_identifier_types` returns, from what it had collected.
record Collected (raws : List RawType) (values out : List String) : Type 0 where
  distinct : Distinct values → Distinct out
  known : All IsKnown values → All IsKnown out
  same : (s : String) → contains out s ≡ (contains values s || contains (map raw_value raws) s)

All-append_one {ℓ κ} :
    {A : Type ℓ} (P : A → Type κ) (xs : List A) (a : A) → All P xs → P a → All P (xs ++ a ∷ [])
All-append_one P [] a h p = (p, tt)
All-append_one P (x ∷ xs) a h p = (h.0, All-append_one P xs a h.1 p)

abbrev append_new : List String → String → List String
append_new values s = if contains values s then values else values ++ s ∷ []

append_new-Distinct :
    (values : List String) (s : String) → Distinct values → Distinct (append_new values s)
append_new-Distinct values s d = elim (Bool-cases (contains values s)) [
  | inl h ↦ rw h d
  | inr h ↦ rw h (Distinct-append_one values s d h)
]

append_new-IsKnown :
    (values : List String) (s : String)
    → IsKnown s
    → All IsKnown values
    → All IsKnown (append_new values s)
append_new-IsKnown values s k ks = elim (Bool-cases (contains values s)) [
  | inl h ↦ rw h ks
  | inr h ↦ rw h (All-append_one IsKnown values s ks k)
]

contains-append_new :
    (values : List String) (s t : String)
    → contains (append_new values s) t ≡ (contains values t || s == t)
contains-append_new values s t =
    ground (arith, contains-append values (s ∷ []) t, string_eq.equals_iff s t)

dedupe-IsKnown :
    (raw : RawType) (raws : List RawType) (values out : List String)
    → dedupe (raw ∷ raws) values ≡ ok out
    → IsKnown (raw_value raw) × (dedupe raws (append_new values (raw_value raw)) ≡ ok out)
unfolding dedupe
dedupe-IsKnown raw raws values out h =
    elim (Bool-cases (contains (map value members) (raw_value raw))) [
      | inl k ↦ (k, rw k at h)
      | inr k ↦ absurd (ground arith)
    ]

dedupe-Collected :
    (raws : List RawType) (values out : List String)
    → dedupe raws values ≡ ok out
    → Collected raws values out
unfolding dedupe
dedupe-Collected [] values out h =
    subst (Collected [] values) (ok-injective h)
      (record { distinct = λ d. d; known = λ k. k; same = λ s. ground arith })
dedupe-Collected (raw ∷ raws) values out h =
    let (known, rest) = dedupe-IsKnown raw raws values out h in
    let s = raw_value raw in
    let ih = dedupe-Collected raws (append_new values s) out rest in
    record {
      distinct = λ d. ih.distinct (append_new-Distinct values s d);
      known = λ ks. ih.known (append_new-IsKnown values s known ks);
      same = λ t. ground (arith, ih.same t, contains-append_new values s t);
    }

-- What a rule stores: one to three known types, each once, in order; `global` only alone.
pub record IsCanonical (raws : List RawType) (types : List String) (signature : String)
    : Type 0 where
  pub some_type : 1 ≤ length types
  pub bounded : length types ≤ max_identifiers_per_rule
  pub sorted : IsSorted str_ltb types
  pub distinct : Distinct types
  pub known : All IsKnown types
  pub same : (s : String) → contains types s ≡ contains (map raw_value raws) s
  pub global_alone : contains types (value global) ≡ true → length types ≡ 1
  pub joined : signature ≡ join "+" types

record Checked (values types : List String) (signature : String) : Type 0 where
  sorted : types ≡ sort str_ltb values
  joined : signature ≡ join "+" types
  some_type : 1 ≤ length values
  bounded : length values ≤ max_identifiers_per_rule
  global_alone : contains values (value global) ≡ true → length values ≡ 1

canonical-Checked :
    (values types : List String) (signature : String)
    → canonical values ≡ ok (types, signature)
    → Checked values types signature
unfolding canonical
canonical-Checked [] types signature h = cc
canonical-Checked (v ∷ vs) types signature h = record {
  sorted = ground arith;
  joined = ground arith;
  some_type = omega arith;
  bounded = ground arith;
  global_alone = ground arith;
}

pub normalize-IsCanonical :
    (raws : List RawType) (types : List String) (signature : String)
    → normalize_identifier_types raws ≡ ok (types, signature)
    → IsCanonical raws types signature
unfolding normalize_identifier_types
normalize-IsCanonical raws types signature h =
    let (values, looped, checked) = >>=-eq-ok (dedupe raws []) canonical h in
    let c = canonical-Checked values types signature checked in
    let d = dedupe-Collected raws [] values looped in
    let size : length types ≡ length values = rw c.sorted (length-sort str_ltb values) in
    let inside = λ (s : String).
      let sorted : contains types s ≡ contains values s =
        rw c.sorted (contains-sort str_ltb values s) in
      sorted in
    record {
      some_type = omega (arith, size, c.some_type);
      bounded = omega (arith, size, c.bounded);
      sorted = rw c.sorted (sort-IsSorted str_ltb str_ltb_asymm str_le_trans values);
      distinct = rw c.sorted (Distinct-sort str_ltb values (d.distinct tt));
      known = rw c.sorted (All-sort str_ltb IsKnown values (d.known tt));
      same = λ s. inside s ∙ d.same s;
      global_alone = λ g. size ∙ c.global_alone (sym (inside (value global)) ∙ g);
      joined = c.joined;
    }

-- Two accepted lists that ask for the same types, in whatever order and however often, are stored
-- under one list of types and one signature.
pub normalize_unique :
    (raws raws' : List RawType) (types types' : List String) (signature signature' : String)
    → normalize_identifier_types raws ≡ ok (types, signature)
    → normalize_identifier_types raws' ≡ ok (types', signature')
    → ((s : String) → contains (map raw_value raws) s ≡ contains (map raw_value raws') s)
    → (types ≡ types') × (signature ≡ signature')
normalize_unique raws raws' types types' signature signature' h h' same =
    let c = normalize-IsCanonical raws types signature h in
    let c' = normalize-IsCanonical raws' types' signature' h' in
    let equal : types ≡ types' =
      eq_of_contains str_ltb str_ltb_total types types' c.sorted c'.sorted c.distinct c'.distinct
        (λ s. c.same s ∙ same s ∙ sym (c'.same s)) in
    (equal, c.joined ∙ ap (join "+") equal ∙ sym c'.joined)
