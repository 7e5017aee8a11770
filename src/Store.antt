-- ===== src/Store.antt =====
-- The rows of the tables (model/*.py), the queries on them (repositories/*.py), and the commit of a
-- transaction under the constraints of alembic/versions.
pub mod Rows
pub mod Unique
pub mod Scopes
pub mod Governed
pub mod Checks
use distributed_rate_limiter.Errors.{Error, PyError, uncaught}
use distributed_rate_limiter.Params.{Params, Value, null, boolean, int, float, text, json}
use distributed_rate_limiter.Prelude.Int.{ℤ, pos, negsuc}
use distributed_rate_limiter.Prelude.{
  ℕ, ◌*◌, ◌%◌, ◌^◌, ltb, String, Bool, true, false, not, ◌&&◌, Option, none, some, List, [], ◌∷◌,
  ◌++◌, map, if◌then◌else◌, ◌==◌, nat_eq, string_eq, keep, all, any, find, Result, ok, raise,
}

pub record ClientRow : Type 0 where
  pub id : String
  pub client_id : String
  pub name : String
  pub description : Option String
  pub status : String
  pub scopes : List String

-- Times are numbers on one clock.
pub record SecretRow : Type 0 where
  pub id : String
  pub client_pk : String
  pub secret_hash : String
  pub secret_hint : String
  pub expires_at : Option ℕ
  pub revoked_at : Option ℕ

pub record AlgorithmRow : Type 0 where
  pub id : String
  pub name : String

pub record GroupRow : Type 0 where
  pub id : String
  pub client_id : String
  pub name : String
  pub description : Option String
  pub algorithm_id : String
  pub identifier_types : List String
  pub identifier_signature : String
  pub params : Params
  pub priority : ℤ
  pub created_by : String
  pub updated_by : Option String

-- `client_id` is the primary key of the client, not its slug.
pub record RuleRow : Type 0 where
  pub id : String
  pub client_id : String
  pub endpoint : String
  pub identifier_types : List String
  pub identifier_signature : String
  pub algorithm_id : String
  pub params : Params
  pub status : String
  pub priority : ℤ
  pub version : ℕ
  pub created_by : String
  pub updated_by : Option String
  pub group_id : Option String
  pub overrides : Option Params

pub record Db : Type 0 where
  pub clients : List ClientRow
  pub secrets : List SecretRow
  pub algorithms : List AlgorithmRow
  pub groups : List GroupRow
  pub rules : List RuleRow

-- `lower` of Postgres and of Python, and which texts a column of Postgres takes: one of that name, and JSONB.
pub record Collation : Type 0 where
  pub sql_lower : String → String
  pub py_lower : String → String
  pub takes_text : String → String → Bool
  pub takes_json : String → Bool

abbrev pub is_some {ℓ} : {A : Type ℓ} → Option A → Bool
is_some none = false
is_some (some _) = true

abbrev pub is_active : RuleRow → Bool
is_active r = r.status == "active"

unfoldable pub get_client_by_client_id : String → Db → Option ClientRow
get_client_by_client_id slug db = find (λ c. c.client_id == slug) db.clients

unfoldable pub get_algorithm_by_id : String → Db → Option AlgorithmRow
get_algorithm_by_id id db = find (λ a. a.id == id) db.algorithms

unfoldable pub get_algorithm_by_name : String → Db → Option AlgorithmRow
get_algorithm_by_name name db = find (λ a. a.name == name) db.algorithms

unfoldable pub get_rule_by_id : String → Db → Option RuleRow
get_rule_by_id id db = find (λ r. r.id == id) db.rules

unfoldable pub get_group_by_id : String → Db → Option GroupRow
get_group_by_id id db = find (λ g. g.id == id) db.groups

-- `exclude_id is None or Rule.id != exclude_id`
abbrev pub is_other : Option String → String → Bool
is_other none id = true
is_other (some excluded) id = not (id == excluded)

abbrev pub holds_scope : String → String → String → RuleRow → Bool
holds_scope client_pk endpoint signature r =
    r.client_id == client_pk
    && (r.endpoint == endpoint && (r.identifier_signature == signature && is_active r))

unfoldable pub find_active_conflict : String → String → String → Option String → Db → Option RuleRow
find_active_conflict client_pk endpoint signature exclude_id db =
    find (λ r. holds_scope client_pk endpoint signature r && is_other exclude_id r.id) db.rules

abbrev pub in_group : String → RuleRow → Bool
in_group gid r = elim r.group_id [ none ↦ false | some g ↦ g == gid ]

unfoldable pub list_by_group : String → Db → List RuleRow
list_by_group gid db = keep (in_group gid) db.rules

unfoldable pub get_by_name_ci : Collation → String → String → Option String → Db → Option GroupRow
get_by_name_ci col client_pk name exclude_id db =
    find
      (λ g.
        g.client_id == client_pk
        && (col.sql_lower g.name == col.py_lower name && is_other exclude_id g.id))
      db.groups

-- No two elements clash.
abbrev pub unique_by {ℓ} : {A : Type ℓ} → (A → A → Bool) → List A → Bool
unique_by clash [] = true
unique_by clash (x ∷ xs) = all (λ y. not (clash x y)) xs && unique_by clash xs

-- `ux_rules_active_scope`
abbrev pub same_scope : RuleRow → RuleRow → Bool
same_scope r s = is_active r && holds_scope r.client_id r.endpoint r.identifier_signature s

abbrev pub same_id : RuleRow → RuleRow → Bool
same_id r s = r.id == s.id

-- `ux_rule_groups_name_ci`
abbrev pub same_name : Collation → GroupRow → GroupRow → Bool
same_name col g h = g.client_id == h.client_id && col.sql_lower g.name == col.sql_lower h.name

-- The foreign key of `rules.group_id`, and `ck_rules_overrides_requires_group`.
abbrev pub exists_in : List GroupRow → Option String → Option Params → Bool
exists_in groups none overrides = not (is_some overrides)
exists_in groups (some gid) overrides = any (λ g. g.id == gid) groups

abbrev pub group_exists : List GroupRow → RuleRow → Bool
group_exists groups r = exists_in groups r.group_id r.overrides

abbrev pub names_unique : Collation → Db → Bool
names_unique col db = unique_by (same_name col) db.groups

unfoldable pub is_consistent : Collation → Db → Bool
is_consistent col db =
    unique_by same_id db.rules
    && (unique_by same_scope db.rules
        && (all (group_exists db.groups) db.rules
            && (names_unique col db && unique_by (λ (g h : GroupRow). g.id == h.id) db.groups)))

-- What an `Integer` column holds.
abbrev pub is_int32 : ℤ → Bool
is_int32 (pos n) = ltb n (2 ^ 31)
is_int32 (negsuc n) = ltb n (2 ^ 31)

-- A double that is no infinity and no NaN, by its bits.
abbrev pub is_finite : ℕ → Bool
is_finite bits = ltb (bits % 2 ^ 63) (2047 * 2 ^ 52)

-- A JSONB column takes no `Infinity` and no `NaN`.
abbrev pub is_jsonb_value : Collation → Value → Bool
is_jsonb_value col null = true
is_jsonb_value col (boolean b) = true
is_jsonb_value col (int n) = true
is_jsonb_value col (float bits) = is_finite bits
is_jsonb_value col (text s) = col.takes_json s
is_jsonb_value col (json s) = col.takes_json s

abbrev pub is_jsonb : Collation → Params → Bool
is_jsonb col params = all (λ e. col.takes_json e.0 && is_jsonb_value col e.1) params

abbrev pub takes_some : Collation → String → Option String → Bool
takes_some col column none = true
takes_some col column (some s) = col.takes_text column s

abbrev pub is_storable_rule : Collation → RuleRow → Bool
is_storable_rule col r =
    is_int32 r.priority
    && (is_int32 (pos r.version)
        && (is_jsonb col r.params
            && (elim r.overrides [ none ↦ true | some overrides ↦ is_jsonb col overrides ]
                && (col.takes_text "endpoint" r.endpoint
                    && (col.takes_text "created_by" r.created_by
                        && takes_some col "updated_by" r.updated_by)))))

abbrev pub is_storable_group : Collation → GroupRow → Bool
is_storable_group col g =
    is_int32 g.priority
    && (is_jsonb col g.params
        && (col.takes_text "name" g.name
            && (takes_some col "description" g.description
                && (col.takes_text "created_by" g.created_by
                    && takes_some col "updated_by" g.updated_by))))

-- The columns of the tables take the values of the rows.
unfoldable pub is_storable : Collation → Db → Bool
is_storable col db = all (is_storable_rule col) db.rules && all (is_storable_group col) db.groups

-- What a service has prepared when it commits: the writes of its session, the error that it raises
-- for an IntegrityError (given the tables that were refused), and what it returns.
pub record Plan (A : Type 0) : Type 0 where
  pub writes : Db → Db
  pub on_conflict : Db → Error
  pub result : A

-- The commit: the writes are made on the tables as they then stand, or rolled back. A value that its
-- column does not take is refused with an error that no service handles.
unfoldable pub commit : {A : Type 0} → Collation → Plan A → Db → Result Error A × Db
commit col p db =
    let after = p.writes db in
    if not (is_storable col after)
    then (raise (uncaught PyError.data_error), db)
    else (if is_consistent col after
        then (ok p.result, after)
        else (raise (p.on_conflict after), db))

-- A method of a service: it raises before it commits, or commits.
unfoldable pub run : {A : Type 0} → Collation → Result Error (Plan A) → Db → Result Error A × Db
unfolding commit
run col (raise e) db = (raise e, db)
run col (ok p) db = commit col p db

abbrev pub set_where {ℓ} : {A : Type ℓ} → (A → Bool) → (A → A) → List A → List A
set_where p f = map (λ x. if p x then f x else x)

unfoldable pub set_rule : String → (RuleRow → RuleRow) → Db → Db
set_rule id f db = record db { rules = set_where (λ r. r.id == id) f db.rules }

unfoldable pub set_group : String → (GroupRow → GroupRow) → Db → Db
set_group id f db = record db { groups = set_where (λ g. g.id == id) f db.groups }

unfoldable pub add_rule : RuleRow → Db → Db
add_rule r db = record db { rules = db.rules ++ r ∷ [] }

unfoldable pub add_group : GroupRow → Db → Db
add_group g db = record db { groups = db.groups ++ g ∷ [] }

unfoldable pub remove_rule : String → Db → Db
remove_rule id db = record db { rules = keep (λ r. not (r.id == id)) db.rules }

unfoldable pub remove_group : String → Db → Db
remove_group id db = record db { groups = keep (λ g. not (g.id == id)) db.groups }
