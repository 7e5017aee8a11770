-- ===== src/Migrations/Tables.antt =====
-- The tables of rules and groups as the revisions of alembic/versions create and change them, their unique
-- indexes and checks, and what the seeds share. A table has the columns of its revision.
use distributed_rate_limiter.Params.{Params}
use distributed_rate_limiter.Prelude.Dict
use distributed_rate_limiter.Prelude.Dict.{Dict}
use distributed_rate_limiter.Prelude.Int.{ℤ}
use distributed_rate_limiter.Store.{AlgorithmRow, Collation}
use distributed_rate_limiter.Prelude.{
  map, ℕ, suc, String, Bool, not, ◌&&◌, Option, none, some, List, [], ◌∷◌, contains, ltb, leb, ◌==◌,
  string_eq, length, Result, ok, raise, ◌>>=◌, raise_if,
}

pub data MigrationError : Type 0 where
  key_error : String → MigrationError
  integrity_error : MigrationError

-- The columns that the table of rules has from 0003 on.
pub record RuleColumns : Type 0 where
  pub id : String
  pub endpoint : String
  pub algorithm_id : String
  pub params : Params
  pub status : String
  pub priority : ℤ
  pub version : ℕ
  pub created_by : String

-- The table of 0003, of 0006, of 0007, of 0008, and of 0010.
pub record ValuedRule : Type 0 where
  pub columns : RuleColumns
  pub identifier_type : String
  pub identifier_value : Option String

pub record TypedRule : Type 0 where
  pub columns : RuleColumns
  pub identifier_type : String

pub record WideRule : Type 0 where
  pub columns : RuleColumns
  pub identifier_type : String
  pub identifier_types : List String
  pub identifier_signature : String

pub record PlainRule : Type 0 where
  pub columns : RuleColumns
  pub identifier_types : List String
  pub identifier_signature : String

pub record GroupedRule : Type 0 where
  pub rule : PlainRule
  pub group_id : Option String
  pub overrides : Option Params

-- The table of 0010.
pub record UnownedGroup : Type 0 where
  pub id : String
  pub name : String
  pub description : Option String
  pub algorithm_id : String
  pub identifier_types : List String
  pub identifier_signature : String
  pub params : Params
  pub priority : ℤ
  pub created_by : String

-- `d[key]`
unfoldable pub item : {A : Type 0} → String → Dict String A → Result MigrationError A
item k d = elim (Dict.get k d) [ none ↦ raise (key_error k) | some v ↦ ok v ]

-- One row for each element, with the next identifier.
unfoldable pub bulk_insert :
    {A B : Type 0}
    → (ℕ → String)
    → (String → A → Result MigrationError B)
    → ℕ
    → List A
    → Result MigrationError (List B)
bulk_insert uuid row n [] = ok []
bulk_insert uuid row n (x ∷ xs) = do
  first ← row (uuid n) x
  rest ← bulk_insert uuid row (suc n) xs
  ok (first ∷ rest)

abbrev pub demand : Bool → Result MigrationError (Unit {0})
demand holds = raise_if (not holds) integrity_error

abbrev pub or_blank : Option String → String
or_blank none = ""
or_blank (some s) = s

abbrev pub is_active_row : RuleColumns → Bool
is_active_row r = r.status == "active"

abbrev pub same_place : RuleColumns → RuleColumns → Bool
same_place r s = is_active_row r && (is_active_row s && r.endpoint == s.endpoint)

-- `ux_rules_active_scope` as 0003, 0006 and 0007 create it.
abbrev pub same_value : ValuedRule → ValuedRule → Bool
same_value r s =
    same_place r.columns s.columns
    && (r.identifier_type == s.identifier_type
        && or_blank r.identifier_value == or_blank s.identifier_value)

abbrev pub same_type : TypedRule → TypedRule → Bool
same_type r s = same_place r.columns s.columns && r.identifier_type == s.identifier_type

abbrev pub same_signature : PlainRule → PlainRule → Bool
same_signature r s =
    same_place r.columns s.columns && r.identifier_signature == s.identifier_signature

-- `cardinality(identifier_types) BETWEEN 1 AND 3`, and `global` only alone.
abbrev pub types_allowed : List String → Bool
types_allowed types =
    leb 1 (length types)
    && (leb (length types) 3 && not (contains types "global" && ltb 1 (length types)))

unfoldable pub collect_rows :
    {A B : Type 0} → (A → Result MigrationError B) → List A → Result MigrationError (List B)
collect_rows row [] = ok []
collect_rows row (x ∷ xs) = do first ← row x; rest ← collect_rows row xs; ok (first ∷ rest)

-- `ux_rule_groups_name_ci` as 0010 creates it.
abbrev pub same_lower_name : Collation → UnownedGroup → UnownedGroup → Bool
same_lower_name col g h = col.sql_lower g.name == col.sql_lower h.name

-- `dict(… "SELECT name, id FROM algorithms" …)`
abbrev pub algorithm_ids : List AlgorithmRow → Dict String String
algorithm_ids = map (λ a. (a.name, a.id))

abbrev pub sample_columns : String → String → String → Params → ℤ → RuleColumns
sample_columns id endpoint algorithm_id params priority = record {
  id = id;
  endpoint = endpoint;
  algorithm_id = algorithm_id;
  params = params;
  status = "active";
  priority = priority;
  version = 1;
  created_by = "seed_migration";
}
