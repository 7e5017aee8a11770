-- ===== src/Migrations/Enforced.antt =====
-- Every rule of a fresh database is loaded and enforced.
use distributed_rate_limiter.Admin.{Request, handle_all}
use distributed_rate_limiter.Admin.Keeps.{IsSound}
use distributed_rate_limiter.Identifier.RuleTypes.{text, normalize_identifier_types}
use distributed_rate_limiter.Migrations.{MigrationError}
use distributed_rate_limiter.Migrations.Built.{Builds, fits}
use distributed_rate_limiter.Params.{Runtime, build_algorithm_config}
use distributed_rate_limiter.Prelude.Dict
use distributed_rate_limiter.RulesCache.{Rule}
use distributed_rate_limiter.RulesLoader.{serialize_rule, engine_types_of}
use distributed_rate_limiter.Store.Checks.{meets_checks}
use distributed_rate_limiter.Store.{Db, RuleRow, Collation, is_some}
use distributed_rate_limiter.Prelude.{
  ℕ, suc, zero, String, ◌≡◌, Bool, true, false, ◌&&◌, List, [], ◌∷◌, map, ltb, string_eq, nat_eq,
  All, Result, ok,
}

-- The poll serializes the rule, with identifier types that requests have, and its limiter is built.
pub record IsEnforceable (rt : Runtime) (db : Db) (r : RuleRow) : Type 0 where
  pub rule : Rule
  pub serialized : serialize_rule db r ≡ ok rule
  pub mapped : is_some rule.engine_identifier_types ≡ true
  pub builds : Builds (build_algorithm_config rt rule.algorithm_name rule.params)

abbrev algorithm_name : ℕ → String
algorithm_name zero = "FixedWindow"
algorithm_name (suc zero) = "SlidingWindowLog"
algorithm_name (suc (suc zero)) = "SlidingWindowCounter"
algorithm_name (suc (suc (suc zero))) = "TokenBucket"
algorithm_name _ = "LeakyBucket"

-- The place of each rule's algorithm among the seeds.
abbrev places : List ℕ
places =
    3 ∷ 3 ∷ 0 ∷ 0 ∷ 1 ∷ 4 ∷ 4 ∷ 2 ∷ 2 ∷ 0 ∷ 3 ∷ 3 ∷ 3 ∷ 2 ∷ 2 ∷ 2 ∷ 4 ∷ 1 ∷ 1 ∷ 0 ∷ 0 ∷ 0 ∷ 0 ∷ 3
    ∷ 4 ∷ 2 ∷ 0 ∷ 1 ∷ 3 ∷ 3 ∷ 3 ∷ 0 ∷ 0 ∷ []

abbrev is_enforceable : ℕ → RuleRow → Bool
is_enforceable k r =
    ltb k 5 && (is_some (engine_types_of r.identifier_types) && fits (algorithm_name k) r.params)

abbrev all_enforceable : List ℕ → List RuleRow → Bool
all_enforceable [] [] = true
all_enforceable [] (r ∷ rows) = false
all_enforceable (k ∷ ks) [] = false
all_enforceable (k ∷ ks) (r ∷ rows) = is_enforceable k r && all_enforceable ks rows

abbrev first_or : String → List String → String
first_or s [] = s
first_or s (t ∷ ts) = t

-- The identifier types and the signature of every rule are in the canonical form.
abbrev pub AreCanonical : List RuleRow → Type 0
AreCanonical rows =
    map (λ r. normalize_identifier_types (map text r.identifier_types)) rows
    ≡ map (λ r. ok (r.identifier_types, r.identifier_signature)) rows

-- The tables that a migration made.
pub record IsReady (rt : Runtime) (col : Collation) (requests : List Request)
    (r : Result MigrationError Db) : Type 0 where
  pub db : Db
  pub upgraded : r ≡ ok db
  pub checked : All (λ c. meets_checks c ≡ true) db.clients
  pub sound : IsSound col db
  pub canonical : AreCanonical db.rules
  pub enforceable : All (IsEnforceable rt db) db.rules
  pub kept : IsSound col (handle_all rt col requests db)
