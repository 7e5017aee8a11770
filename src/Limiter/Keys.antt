-- ===== src/Limiter/Keys.antt =====
-- The key of a caller does not depend on the order in which the identifiers are given.
use distributed_rate_limiter.Identifier
use distributed_rate_limiter.Identifier.{IdentifierType, client_id, members, identifier_eq}
use distributed_rate_limiter.Limiter.{Hasher, Pair, pair_lt, named, digest, build_client_identifier}
use distributed_rate_limiter.Prelude.Sort.{
  sort, sort-IsSorted, contains-sort, Distinct-sort, eq_of_contains, Agree, sort-Agree,
}
use distributed_rate_limiter.Prelude.{
  ◌≡◌, refl, sym, ap, ◌∙◌, inl, inr, Bool, true, false, some, List, [], ◌∷◌, map, if◌then◌else◌,
  ◌==◌, string_eq, pair_eq, arith, Bool-cases, find, contains, Distinct, All, All-map, join,
  str_ltb, str_ltb_asymm, str_le_trans, str_ltb_total,
}

find-value :
    (t : IdentifierType) → find (λ u. Identifier.value u == Identifier.value t) members ≡ some t
unfolding Identifier.value
find-value client_id = refl
find-value _ = refl

-- The values of two types are different.
value_injective : (t u : IdentifierType) → Identifier.value t ≡ Identifier.value u → t ≡ u
value_injective t u h =
    some_injective
      (sym (find-value t) ∙ ap (λ s. find (λ k. Identifier.value k == s) members) h ∙ find-value u)
  where
    some_injective : some t ≡ some u → t ≡ u
    some_injective e = cc

-- By the type, and then by the value.
abbrev full_lt : Pair → Pair → Bool
full_lt p q =
    if str_ltb (Identifier.value p.0) (Identifier.value q.0)
    then true
    else if str_ltb (Identifier.value q.0) (Identifier.value p.0)
    then false
    else str_ltb p.1 q.1

full_lt_asymm : (p q : Pair) → full_lt p q ≡ true → full_lt q p ≡ false
full_lt_asymm p q h = ground (
  arith,
  str_ltb_asymm (Identifier.value p.0) (Identifier.value q.0),
  str_ltb_asymm (Identifier.value q.0) (Identifier.value p.0),
  str_ltb_asymm p.1 q.1,
)

full_le_trans : (p q r : Pair) → full_lt q p ≡ false → full_lt r q ≡ false → full_lt r p ≡ false
full_le_trans p q r h k =
    let a = Identifier.value p.0 in
    let b = Identifier.value q.0 in
    let c = Identifier.value r.0 in
    ground (
      arith,
      str_le_trans a b c,
      str_le_trans b c a,
      str_le_trans c a b,
      str_ltb_asymm a b,
      str_ltb_asymm b a,
      str_ltb_asymm b c,
      str_ltb_asymm c b,
      str_ltb_asymm a c,
      str_ltb_asymm c a,
      str_le_trans p.1 q.1 r.1,
    )

full_lt_total : (p q : Pair) → full_lt p q ≡ false → full_lt q p ≡ false → p ≡ q
full_lt_total p q h k =
    let types : p.0 ≡ q.0 =
      value_injective p.0 q.0 (
        str_ltb_total (Identifier.value p.0) (Identifier.value q.0) (ground arith)
          (ground arith)) in
    let values : p.1 ≡ q.1 = str_ltb_total p.1 q.1 (ground arith) (ground arith) in
    λ i. (types i, values i)

-- No type stands twice.
abbrev pub DistinctTypes : List Pair → Type 0
DistinctTypes [] = Unit
DistinctTypes (p ∷ pairs) = All (λ q. (q.0 == p.0) ≡ false) pairs × DistinctTypes pairs

pair_lt_agrees : (p q : Pair) → (q.0 == p.0) ≡ false → pair_lt q p ≡ full_lt q p
pair_lt_agrees p q other = by_test (str_ltb (Identifier.value q.0) (Identifier.value p.0)) refl
  where
    by_test :
        (b : Bool)
        → str_ltb (Identifier.value q.0) (Identifier.value p.0) ≡ b
        → pair_lt q p ≡ full_lt q p
    by_test true e = ground (arith, e)
    by_test false e = elim (Bool-cases (str_ltb (Identifier.value p.0) (Identifier.value q.0))) [
      | inl t ↦ ground (arith, e, t)
      | inr n ↦ absurd (
          let same =
            value_injective q.0 p.0
              (str_ltb_total (Identifier.value q.0) (Identifier.value p.0) e n) in
          let bad : true ≡ false = sym ((identifier_eq.equals_iff q.0 p.0).1 same) ∙ other in cc)
    ]

DistinctTypes-Agree : (pairs : List Pair) → DistinctTypes pairs → Agree pair_lt full_lt pairs
DistinctTypes-Agree [] d = tt
DistinctTypes-Agree (p ∷ pairs) d =
    (All-map (pair_lt_agrees p) pairs d.0, DistinctTypes-Agree pairs d.1)

not_contained :
    (p : Pair) (pairs : List Pair)
    → All (λ q. (q.0 == p.0) ≡ false) pairs
    → contains pairs p ≡ false
not_contained p [] h = refl
not_contained p (q ∷ pairs) h = ground (arith, h.0, not_contained p pairs h.1)

DistinctTypes-Distinct : (pairs : List Pair) → DistinctTypes pairs → Distinct pairs
DistinctTypes-Distinct [] d = tt
DistinctTypes-Distinct (p ∷ pairs) d = (not_contained p pairs d.0, DistinctTypes-Distinct pairs d.1)

-- Two requests with the same pairs of identifier and value, each type once, have the same key, in whatever
-- order they give them and whatever the hash is.
pub build_client_identifier_unordered :
    (h : Hasher) (pairs others : List Pair)
    → DistinctTypes pairs
    → DistinctTypes others
    → ((p : Pair) → contains pairs p ≡ contains others p)
    → build_client_identifier h pairs ≡ build_client_identifier h others
unfolding build_client_identifier
build_client_identifier_unordered h pairs others d e same =
    let sorted : sort full_lt pairs ≡ sort full_lt others =
      eq_of_contains full_lt full_lt_total (sort full_lt pairs) (sort full_lt others)
        (sort-IsSorted full_lt full_lt_asymm full_le_trans pairs)
        (sort-IsSorted full_lt full_lt_asymm full_le_trans others)
        (Distinct-sort full_lt pairs (DistinctTypes-Distinct pairs d))
        (Distinct-sort full_lt others (DistinctTypes-Distinct others e))
        (λ p. contains-sort full_lt pairs p ∙ same p ∙ sym (contains-sort full_lt others p)) in
    ap
      (λ ps. record {
        key_signature = join "+" (map (λ (p : Pair). Identifier.value p.0) ps);
        digest = digest h (map named ps);
      })
      (sort-Agree pair_lt full_lt pairs (DistinctTypes-Agree pairs d)
        ∙ sorted
        ∙ sym (sort-Agree pair_lt full_lt others (DistinctTypes-Agree others e)))
