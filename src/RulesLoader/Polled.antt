-- ===== src/RulesLoader/Polled.antt =====
-- Which rows of the table a poll lets a request be limited by.
use distributed_rate_limiter.Auth.Issue.{Has}
use distributed_rate_limiter.Identifier.Sets.{Types}
use distributed_rate_limiter.RulesCache.{Rule, Cache, load_all, get_candidates, sort_key_lt}
use distributed_rate_limiter.RulesCache.Index.{
  is_candidate, is_global_of, get_candidates-load_all, get_global-load_all,
}
use distributed_rate_limiter.RulesLoader.{
  serialized_with, serialize_rule, serialize_rules, fetch_all_rules_from_db, load_rules_into_cache,
}
use distributed_rate_limiter.Service.{Warned, resolve_rule}
use distributed_rate_limiter.Service.Resolve.{
  OnSome, matches, find-All, rule-resolve_rule, resolve_rule-BelongsTo, or_global-OnSome,
}
use distributed_rate_limiter.Store.{Db, AlgorithmRow, RuleRow, get_algorithm_by_id}
use distributed_rate_limiter.Prelude.Sort.{All-sort}
use distributed_rate_limiter.Prelude.{
  ℕ, String, ◌≡◌, refl, sym, ◌∙◌, subst, inl, inr, Bool, Option, none, some, List, [], ◌∷◌, nat_eq,
  string_eq, pair_eq, Bool-cases, Option-cases, find_last, All, All-map, All-map-keep, ok,
  >>=-eq-ok, ok-injective,
}

-- A rule of the cache that was made of a row.
abbrev pub IsOf : Db → Rule → RuleRow → Type 0
IsOf db r row = serialize_rule db row ≡ ok r

serialize_rules-Has :
    (db : Db) (rows : List RuleRow) (rules : List Rule)
    → serialize_rules db rows ≡ ok rules
    → All (λ r. Has (IsOf db r) rows) rules
unfolding serialize_rules
serialize_rules-Has db [] rules h = subst (All (λ r. Has (IsOf db r) [])) (ok-injective h) tt
serialize_rules-Has db (row ∷ rows) rules h =
    let (r, first, h₁) = >>=-eq-ok (serialize_rule db row) _ h in
    let (rest, looped, h₂) = >>=-eq-ok (serialize_rules db rows) _ h₁ in
    subst (All (λ r. Has (IsOf db r) (row ∷ rows))) (ok-injective h₂)
      (inl first, All-map (λ k m. inr m) rest (serialize_rules-Has db rows rest looped))

find_last-All {ℓ κ} :
    {A : Type ℓ} (P : A → Type κ) (p : A → Bool) (xs : List A)
    → All P xs
    → OnSome P (find_last p xs)
find_last-All P p [] h = tt
find_last-All P p (x ∷ xs) h = elim (Option-cases (find_last p xs)) [
  | inl e ↦ rw e (elim (Bool-cases (p x)) [ inl t ↦ rw t h.0 | inr f ↦ rw f tt ])
  | inr (y, e) ↦ rw e (subst (OnSome P) e (find_last-All P p xs h.1))
]

-- A rule that is resolved after a load is one that was loaded.
resolve_rule-All :
    (P : Rule → Type 0) (now : ℕ) (rules : List Rule) (before : Cache) (client_pk endpoint : String)
    (provided : Types) (w : Warned) (r : Rule)
    → All P rules
    → (resolve_rule (some (load_all now rules before)) client_pk endpoint provided w).rule ≡ some r
    → P r
resolve_rule-All P now rules before client_pk endpoint provided w r held h =
    let c = load_all now rules before in
    subst (OnSome P) (sym (rule-resolve_rule c client_pk endpoint provided w) ∙ h) (
      or_global-OnSome P _ _
        (find-All P (matches provided) (get_candidates client_pk endpoint c) (
          rw get_candidates-load_all (
            All-sort sort_key_lt P _
              (All-map-keep P (is_candidate (client_pk, endpoint)) rules held))))
        (rw get_global-load_all (find_last-All P (is_global_of (client_pk, endpoint)) rules held)))

-- The row that limits a request: an active rule of the client, at the endpoint, with its parameters.
pub record Limits (client_pk endpoint : String) (r : Rule) (row : RuleRow) : Type 0 where
  pub client : row.client_id ≡ client_pk
  pub place : row.endpoint ≡ endpoint
  pub active : row.status ≡ "active"
  pub id : r.id ≡ row.id
  pub params : r.params ≡ row.params
  pub version : r.version ≡ row.version

record Copied (r : Rule) (row : RuleRow) : Type 0 where
  pub client : r.client_pk ≡ row.client_id
  pub place : r.endpoint ≡ row.endpoint
  pub status : r.status ≡ row.status
  pub id : r.id ≡ row.id
  pub params : r.params ≡ row.params
  pub version : r.version ≡ row.version

serialized_with-Copied :
    (r : Rule) (row : RuleRow) (o : Option AlgorithmRow)
    → serialized_with row o ≡ ok r
    → Copied r row
unfolding serialized_with
serialized_with-Copied r row none h = cc
serialized_with-Copied r row (some a) h =
    subst (λ k. Copied k row) (ok-injective h)
      (record {
        client = refl;
        place = refl;
        status = refl;
        id = refl;
        params = refl;
        version = refl;
      })

serialize_rule-Copied : (db : Db) (r : Rule) (row : RuleRow) → IsOf db r row → Copied r row
unfolding serialize_rule
serialize_rule-Copied db r row h =
    serialized_with-Copied r row (get_algorithm_by_id row.algorithm_id db) h

Has-map_of {ℓ} :
    {A : Type ℓ} {P Q : A → Type 0} (f : (a : A) → P a → Q a) (xs : List A) → Has P xs → Has Q xs
Has-map_of f [] h = absurd h
Has-map_of f (x ∷ xs) (inl h) = inl (f x h)
Has-map_of f (x ∷ xs) (inr h) = inr (Has-map_of f xs h)

-- Once a poll has read the tables, a rule that is resolved for a request is made of a row that is active, of
-- the client that asks, at the endpoint asked for, and with that row's parameters and version.
pub resolve_rule-Limits :
    (now : ℕ) (db : Db) (before after : Cache) (client_pk endpoint : String) (provided : Types)
    (w : Warned) (r : Rule)
    → load_rules_into_cache now db before ≡ ok after
    → (resolve_rule (some after) client_pk endpoint provided w).rule ≡ some r
    → Has (Limits client_pk endpoint r) db.rules
unfolding load_rules_into_cache fetch_all_rules_from_db
resolve_rule-Limits now db before after client_pk endpoint provided w r loaded h =
    let (rules, fetched, h₁) = >>=-eq-ok (serialize_rules db db.rules) _ loaded in
    let resolved =
      subst (λ c. (resolve_rule (some c) client_pk endpoint provided w).rule ≡ some r)
        (sym (ok-injective h₁)) h in
    let own = resolve_rule-BelongsTo now rules before client_pk endpoint provided w r resolved in
    Has-map_of
      (λ row made.
        let copy = serialize_rule-Copied db r row made in
        record {
          client = sym copy.client ∙ own.client;
          place = sym copy.place ∙ own.place;
          active = sym copy.status ∙ own.active;
          id = copy.id;
          params = copy.params;
          version = copy.version;
        })
      db.rules
      (resolve_rule-All (λ k. Has (IsOf db k) db.rules) now rules before client_pk endpoint provided
        w r (serialize_rules-Has db db.rules rules fetched) resolved)
