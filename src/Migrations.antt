-- ===== src/Migrations.antt =====
-- The tables that a fresh database has after `alembic upgrade head`: the revisions 0002 to 0013 of
-- alembic/versions in order, with the indexes and checks that each creates or inserts under. `uuid` are
-- the identifiers that are drawn, in order.
pub mod Tables
pub mod Seeds
pub mod Groups
pub mod Fresh
pub mod Sound
pub mod Built
pub mod Enforced
use distributed_rate_limiter.Migrations.Seeds.{
  SampleRule, sample_rule, CompositeRule, composite_rule, seed_algorithms, sample_rules,
  composite_sample_rules,
}
pub use distributed_rate_limiter.Migrations.Tables.{
  key_error, integrity_error, MigrationError, RuleColumns, ValuedRule, TypedRule, WideRule,
  PlainRule, GroupedRule, UnownedGroup, demand, or_blank, is_active_row, same_place, same_value,
  same_type, same_signature, types_allowed, same_lower_name, algorithm_ids, sample_columns,
}
pub use distributed_rate_limiter.Migrations.Groups.{add_group_columns, group_name, group_index}
unfoldable pub use distributed_rate_limiter.Migrations.Groups.{
  group_ids, group_row, member_of_group, member_row, seed_groups,
}
unfoldable pub use distributed_rate_limiter.Migrations.Tables.{item, bulk_insert, collect_rows}
use distributed_rate_limiter.Store.Checks.{meets_checks}
use distributed_rate_limiter.Prelude.Dict
use distributed_rate_limiter.Prelude.Sort.{sort}
use distributed_rate_limiter.Store.{
  Db, ClientRow, AlgorithmRow, GroupRow, RuleRow, Collation, unique_by, same_scope, same_name,
}
use distributed_rate_limiter.Prelude.{
  ℕ, String, none, some, List, [], ◌∷◌, ◌++◌, map, all, ◌==◌, string_eq, find, Result, ok, raise,
  ◌>>=◌, ◌>>◌, str_ltb, join,
}

-- 0002
unfoldable pub seed_algorithm_rows : (ℕ → String) → ℕ → Result MigrationError (List AlgorithmRow)
unfolding bulk_insert
seed_algorithm_rows uuid n =
    bulk_insert uuid (λ id a. ok (record { id = id; name = a.name })) n seed_algorithms

-- 0005
unfoldable pub sample_row :
    List AlgorithmRow → String → SampleRule → Result MigrationError ValuedRule
unfolding item
sample_row algorithms id
      (sample_rule endpoint identifier_type identifier_value algorithm_name params priority) =
    do
      algorithm_id ← item algorithm_name (algorithm_ids algorithms)
      ok (record {
        columns = sample_columns id endpoint algorithm_id params priority;
        identifier_type = identifier_type;
        identifier_value = identifier_value;
      })

unfoldable pub seed_rules :
    (ℕ → String) → ℕ → List AlgorithmRow → Result MigrationError (List ValuedRule)
unfolding bulk_insert sample_row
seed_rules uuid n algorithms = do
  rows ← bulk_insert uuid (sample_row algorithms) n sample_rules
  demand (unique_by same_value rows)
  ok rows

-- 0006
unfoldable pub drop_identifier_value : List ValuedRule → Result MigrationError (List TypedRule)
drop_identifier_value rules = do
  let rows : List TypedRule =
      map (λ r. record { columns = r.columns; identifier_type = r.identifier_type }) rules
  demand (unique_by same_type rows)
  ok rows

abbrev pub without_type : WideRule → PlainRule
without_type r = record {
  columns = r.columns;
  identifier_types = r.identifier_types;
  identifier_signature = r.identifier_signature;
}

-- 0007
unfoldable pub expand_identifiers : List TypedRule → Result MigrationError (List WideRule)
expand_identifiers rules = do
  let rows : List WideRule =
      map
        (λ r. record {
          columns = r.columns;
          identifier_type = r.identifier_type;
          identifier_types = r.identifier_type ∷ [];
          identifier_signature = r.identifier_type;
        })
        rules
  demand (all (λ r. types_allowed r.identifier_types) rows)
  demand (unique_by same_signature (map without_type rows))
  ok rows

-- 0008
abbrev pub drop_identifier_type : List WideRule → List PlainRule
drop_identifier_type = map without_type

-- 0009
unfoldable pub composite_row :
    List AlgorithmRow → String → CompositeRule → Result MigrationError PlainRule
unfolding item
composite_row algorithms id (composite_rule endpoint types algorithm_name params priority) = do
  algorithm_id ← item algorithm_name (algorithm_ids algorithms)
  ok (record {
    columns = sample_columns id endpoint algorithm_id params priority;
    identifier_types = sort str_ltb types;
    identifier_signature = join "+" (sort str_ltb types);
  })

unfoldable pub seed_composite_rules :
    (ℕ → String) → ℕ → List AlgorithmRow → List PlainRule → Result MigrationError (List PlainRule)
unfolding bulk_insert composite_row
seed_composite_rules uuid n algorithms rules = do
  rows ← bulk_insert uuid (composite_row algorithms) n composite_sample_rules
  demand (all (λ r. types_allowed r.identifier_types) rows)
  demand (unique_by same_signature (rules ++ rows))
  ok (rules ++ rows)

-- 0012
abbrev pub default_client : String → ClientRow
default_client id = record {
  id = id;
  client_id = "default";
  name = "Default client";
  description = some "Seeded owner of every pre-Phase-6 rule/group";
  status = "active";
  scopes = "check" ∷ [];
}

-- 0012: the client is inserted under the CHECKs of its table.
unfoldable pub create_clients : String → Result MigrationError (List ClientRow)
create_clients id = do demand (meets_checks (default_client id)); ok (default_client id ∷ [])

-- 0013
abbrev pub own_rule : String → GroupedRule → RuleRow
own_rule client_pk r = record {
  id = r.rule.columns.id;
  client_id = client_pk;
  endpoint = r.rule.columns.endpoint;
  identifier_types = r.rule.identifier_types;
  identifier_signature = r.rule.identifier_signature;
  algorithm_id = r.rule.columns.algorithm_id;
  params = r.rule.columns.params;
  status = r.rule.columns.status;
  priority = r.rule.columns.priority;
  version = r.rule.columns.version;
  created_by = r.rule.columns.created_by;
  updated_by = none;
  group_id = r.group_id;
  overrides = r.overrides;
}

abbrev pub own_group : String → UnownedGroup → GroupRow
own_group client_pk g = record {
  id = g.id;
  client_id = client_pk;
  name = g.name;
  description = g.description;
  algorithm_id = g.algorithm_id;
  identifier_types = g.identifier_types;
  identifier_signature = g.identifier_signature;
  params = g.params;
  priority = g.priority;
  created_by = g.created_by;
  updated_by = none;
}

-- `SELECT id FROM clients WHERE client_id = 'default'`
abbrev pub default_pk : List ClientRow → Result MigrationError String
default_pk clients = elim (find (λ c. c.client_id == "default") clients) [
  | none ↦ raise integrity_error
  | some c ↦ ok c.id
]

unfoldable pub scope_by_client :
    Collation
    → List ClientRow
    → List AlgorithmRow
    → List UnownedGroup
    → List GroupedRule
    → Result MigrationError Db
scope_by_client col clients algorithms groups rules = do
  client_pk ← default_pk clients
  let rule_rows = map (own_rule client_pk) rules
  let group_rows = map (own_group client_pk) groups
  demand (unique_by same_scope rule_rows)
  demand (unique_by (same_name col) group_rows)
  ok (record {
    clients = clients;
    secrets = [];
    algorithms = algorithms;
    groups = group_rows;
    rules = rule_rows;
  })

-- 0002 to 0009: the algorithms and the rules of their own.
unfoldable pub upgrade_rules :
    (ℕ → String) → Result MigrationError (List AlgorithmRow × List PlainRule)
unfolding seed_algorithm_rows seed_rules drop_identifier_value expand_identifiers
    seed_composite_rules
upgrade_rules uuid = do
  algorithms ← seed_algorithm_rows uuid 0
  valued ← seed_rules uuid 5 algorithms
  typed ← drop_identifier_value valued
  wide ← expand_identifiers typed
  rules ← seed_composite_rules uuid 28 algorithms (drop_identifier_type wide)
  ok (algorithms, rules)

-- `alembic upgrade head` on a database without tables.
unfoldable pub upgrade_head : Collation → (ℕ → String) → Result MigrationError Db
unfolding upgrade_rules seed_groups create_clients scope_by_client
upgrade_head col uuid = do
  upgraded ← upgrade_rules uuid
  grouped ← seed_groups col uuid 33 upgraded.0 (add_group_columns upgraded.1)
  clients ← create_clients (uuid 40)
  scope_by_client col clients upgraded.0 grouped.0 grouped.1
