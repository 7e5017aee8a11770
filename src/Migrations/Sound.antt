-- ===== src/Migrations/Sound.antt =====
-- The tables of a fresh database are sound.
use distributed_rate_limiter.Admin.Keeps.{IsSound}
use distributed_rate_limiter.Migrations.{
  PlainRule, add_group_columns, own_rule, upgrade_rules, upgrade_head, create_clients,
  scope_by_client, seed_algorithm_rows, bulk_insert, member_row, group_ids, group_row, collect_rows,
}
use distributed_rate_limiter.Migrations.Fresh.{
  fresh, own_rules, members, scopes_apart, unique_by-coarser, upgrade_rules-ok, seed_groups-ok,
}
use distributed_rate_limiter.Params.{Params, int}
use distributed_rate_limiter.Prelude.Int.{pos}
use distributed_rate_limiter.Params.Overrides.{compute_effective_params}
use distributed_rate_limiter.Prelude.Dict
use distributed_rate_limiter.Prelude.Sort.{sort}
use distributed_rate_limiter.Store.{
  RuleRow, GroupRow, Collation, unique_by, same_id, group_exists, exists_in, names_unique,
  is_consistent,
}
use distributed_rate_limiter.Store.Governed.{Governed, GovernedBy, OfGroup, IsMember, IsGoverned}
use distributed_rate_limiter.Store.Checks.{meets_checks}
use distributed_rate_limiter.Validation.{every}
use distributed_rate_limiter.Prelude.{
  text_length, ℕ, suc, zero, String, ◌≡◌, refl, sym, ap, ◌∙◌, subst, inl, inr, Bool, true, false,
  not, Option, none, some, List, [], ◌∷◌, ◌++◌, map, all, any, find, ◌==◌, nat_eq, string_eq, arith,
  All, Bool-cases, str_ltb, join, ok,
}

abbrev range : ℕ → ℕ → List ℕ
range start zero = []
range start (suc n) = start ∷ range (suc start) n

abbrev head_of : {A : Type 0} → List A → Option A
head_of [] = none
head_of (x ∷ xs) = some x

abbrev pub tail_of : {A : Type 0} → List A → List A
tail_of [] = []
tail_of (x ∷ xs) = xs

unique_by-map :
    {A B : Type 0} (clash : B → B → Bool) (f : A → B) (xs : List A)
    → unique_by clash (map f xs) ≡ unique_by (λ x y. clash (f x) (f y)) xs
unique_by-map clash f [] = refl
unique_by-map {A = A} clash f (x ∷ xs) = cc (all-map xs, unique_by-map clash f xs)
  where
    all-map :
        (ys : List A)
        → all (λ z. not (clash (f x) z)) (map f ys) ≡ all (λ y. not (clash (f x) (f y))) ys
    all-map [] = refl
    all-map (y ∷ ys) = cc (all-map ys)

-- A rule that is made of its group's columns and its own overrides.
inherits :
    (g : GroupRow) (r : RuleRow) (own : Params)
    → r ≡ record r {
      client_id = g.client_id;
      algorithm_id = g.algorithm_id;
      identifier_types = g.identifier_types;
      identifier_signature = g.identifier_signature;
      priority = g.priority;
      overrides = some own;
      params = compute_effective_params g.params own;
    }
    → IsMember g r
inherits g r own e = record {
  client = ap (λ s. s.client_id) e;
  algorithm = ap (λ s. s.algorithm_id) e;
  types = ap (λ s. s.identifier_types) e;
  signature = ap (λ s. s.identifier_signature) e;
  priority = ap (λ s. s.priority) e;
  own = own;
  has_own = ap (λ s. s.overrides) e;
  merged = ap (λ s. s.params) e;
}

-- The rules that have their own parameters are standalone.
own-Governed :
    (gs : List GroupRow) (client_pk : String) (rules : List PlainRule)
    → All (Governed gs) (map (own_rule client_pk) (add_group_columns rules))
own-Governed gs client_pk [] = tt
own-Governed gs client_pk (r ∷ rules) = (refl, own-Governed gs client_pk rules)

map-append : {A B : Type 0} (f : A → B) (xs ys : List A) → map f (xs ++ ys) ≡ map f xs ++ map f ys
map-append f [] ys = refl
map-append f (x ∷ xs) ys = ap (λ zs. f x ∷ zs) (map-append f xs ys)

All-append : {A : Type 0} (P : A → Type 0) (xs ys : List A) → All P xs → All P ys → All P (xs ++ ys)
All-append P [] ys h k = k
All-append P (x ∷ xs) ys h k = (h.0, All-append P xs ys h.1 k)

found-any :
    (p : GroupRow → Bool) (gs : List GroupRow) (r : RuleRow)
    → OfGroup (find p gs) r
    → any p gs ≡ true
found-any p [] r h = absurd h
found-any p (g ∷ gs) r h = elim (Bool-cases (p g)) [
  | inl t ↦ rw t refl
  | inr n ↦ rw n (found-any p gs r (rw n at h))
]

exists-Governed :
    (gs : List GroupRow) (gid : Option String) (r : RuleRow)
    → GovernedBy gs gid r
    → exists_in gs gid r.overrides ≡ true
exists-Governed gs none r h = rw h refl
exists-Governed gs (some gid) r h = found-any (λ g. g.id == gid) gs r h

all_exist :
    (gs : List GroupRow) (rules : List RuleRow)
    → All (Governed gs) rules
    → all (group_exists gs) rules ≡ true
all_exist gs [] h = refl
all_exist gs (r ∷ rules) h = rw (exists-Governed gs r.group_id r h.0) (all_exist gs rules h.1)

module _ (uuid : ℕ → String) (distinct : (i j : ℕ) → uuid i ≡ uuid j → i ≡ j) where
  pub uuid_differ : (i j : ℕ) → (i == j) ≡ false → (uuid i == uuid j) ≡ false
  uuid_differ i j h =
      ground (arith, distinct i j, string_eq.equals_iff (uuid i) (uuid j), nat_eq.equals_iff i j)

  pub uuid_same : (i : ℕ) → (uuid i == uuid i) ≡ true
  uuid_same i = ground (arith, string_eq.equals_iff (uuid i) (uuid i))

  rule_ids_apart : unique_by same_id (fresh uuid).rules ≡ true
  unfolding upgrade_rules seed_algorithm_rows bulk_insert Dict.get sort str_ltb join member_row
      group_ids
  rule_ids_apart =
      let numbers = range 5 28 ++ range 35 5 in
      sym (unique_by-map (λ a b. a == b) (λ (r : RuleRow). r.id) (fresh uuid).rules)
      ∙ (unique_by-map (λ a b. a == b) uuid numbers
          ∙ unique_by-coarser (λ i j. uuid i == uuid j) (λ i j. i == j) uuid_differ numbers refl)

  members-Governed : All (Governed (fresh uuid).groups) (map (own_rule (uuid 40)) (members uuid))
  unfolding upgrade_rules seed_algorithm_rows bulk_insert Dict.get sort str_ltb join member_row
      group_ids group_row compute_effective_params Dict.insert collect_rows
  members-Governed =
      let first : find (λ (g : GroupRow). g.id == uuid 33) (fresh uuid).groups
          ≡ head_of (fresh uuid).groups =
        rw (uuid_same 33) refl in
      let second : find (λ (g : GroupRow). g.id == uuid 34) (fresh uuid).groups
          ≡ head_of (tail_of (fresh uuid).groups) =
        rw (uuid_differ 33 34 refl, uuid_same 34) refl in
      let of_first : (r : RuleRow)
          → OfGroup (head_of (fresh uuid).groups) r
          → OfGroup (find (λ (g : GroupRow). g.id == uuid 33) (fresh uuid).groups) r =
        λ r k. subst (λ o. OfGroup o r) (sym first) k in
      let of_second : (r : RuleRow)
          → OfGroup (head_of (tail_of (fresh uuid).groups)) r
          → OfGroup (find (λ (g : GroupRow). g.id == uuid 34) (fresh uuid).groups) r =
        λ r k. subst (λ o. OfGroup o r) (sym second) k in
      (
        of_first _ (inherits _ _ [] refl),
        (
          of_first _ (inherits _ _ (("capacity", int (pos 100)) ∷ []) refl),
          (
            of_first _ (inherits _ _ [] refl),
            (
              of_second _ (inherits _ _ [] refl),
              (of_second _ (inherits _ _ (("limit", int (pos 500)) ∷ []) refl), tt),
            ),
          ),
        ),
      )

  group_ids_apart : unique_by (λ (g h : GroupRow). g.id == h.id) (fresh uuid).groups ≡ true
  unfolding group_row collect_rows group_ids seed_algorithm_rows bulk_insert Dict.get
  group_ids_apart = rw (uuid_differ 33 34 refl) refl

  fresh-IsGoverned : IsGoverned (fresh uuid)
  fresh-IsGoverned =
      subst (All (Governed (fresh uuid).groups))
        (sym (map-append (own_rule (uuid 40)) (add_group_columns (own_rules uuid)) (members uuid)))
        (All-append (Governed (fresh uuid).groups)
          (map (own_rule (uuid 40)) (add_group_columns (own_rules uuid)))
          (map (own_rule (uuid 40)) (members uuid))
          (own-Governed (fresh uuid).groups (uuid 40) (own_rules uuid)) members-Governed)

  module _ (col : Collation)
      (lower_premium : col.sql_lower "premium-endpoints" ≡ "premium-endpoints")
      (lower_admin : col.sql_lower "admin-endpoints" ≡ "admin-endpoints") where
    lower_names_apart : names_unique col (fresh uuid) ≡ true
    unfolding group_row collect_rows group_ids seed_algorithm_rows bulk_insert Dict.get
    lower_names_apart = rw (lower_premium, lower_admin, uuid_same 40) refl

    pub fresh-IsSound : IsSound col (fresh uuid)
    unfolding is_consistent
    fresh-IsSound = (
      rw
          (
            rule_ids_apart,
            scopes_apart uuid,
            all_exist (fresh uuid).groups (fresh uuid).rules fresh-IsGoverned,
            lower_names_apart,
          )
          group_ids_apart,
      fresh-IsGoverned,
    )

    pub upgrade_head-fresh : upgrade_head col uuid ≡ ok (fresh uuid)
    unfolding upgrade_head scope_by_client create_clients meets_checks every text_length
    upgrade_head-fresh = rw (upgrade_rules-ok uuid) (
        rw (seed_groups-ok col lower_premium lower_admin uuid)
          (rw (scopes_apart uuid) (rw lower_names_apart refl)))
