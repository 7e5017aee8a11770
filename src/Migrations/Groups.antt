-- ===== src/Migrations/Groups.antt =====
-- 0010_create_rule_groups.py and 0011_seed_sample_rule_groups.py of alembic/versions: the seeds of groups and
-- of their members.
use distributed_rate_limiter.Migrations.Seeds.{
  SampleGroup, sample_group, SampleMember, sample_member, sample_groups, sample_members,
}
use distributed_rate_limiter.Migrations.Tables.{
  MigrationError, PlainRule, GroupedRule, UnownedGroup, demand, same_signature, types_allowed,
  same_lower_name, algorithm_ids, sample_columns, item, bulk_insert, collect_rows,
}
use distributed_rate_limiter.Params.Overrides.{compute_effective_params}
use distributed_rate_limiter.Prelude.Dict.{Dict}
use distributed_rate_limiter.Prelude.Sort.{sort}
use distributed_rate_limiter.Store.{AlgorithmRow, Collation, unique_by, is_some}
use distributed_rate_limiter.Prelude.{
  Bool, not, ◌||◌, ℕ, suc, ◌+◌, String, none, some, List, [], ◌∷◌, ◌++◌, map, all, string_eq,
  length, Result, ok, ◌>>=◌, ◌>>◌, str_ltb, join,
}

-- 0010
abbrev pub add_group_columns : List PlainRule → List GroupedRule
add_group_columns = map (λ r. record { rule = r; group_id = none; overrides = none })

-- 0011
abbrev pub group_name : SampleGroup → String
group_name (sample_group name description algorithm_name types params priority) = name

-- `{name: uuid.uuid4() for …}`
unfoldable pub group_ids : (ℕ → String) → ℕ → List SampleGroup → Dict String String
group_ids uuid n [] = []
group_ids uuid n (g ∷ groups) = (group_name g, uuid n) ∷ group_ids uuid (suc n) groups

abbrev pub group_index : List SampleGroup → Dict String SampleGroup
group_index = map (λ g. (group_name g, g))

unfoldable pub group_row :
    List AlgorithmRow → Dict String String → SampleGroup → Result MigrationError UnownedGroup
unfolding item
group_row algorithms ids (sample_group name description algorithm_name types params priority) = do
  id ← item name ids
  algorithm_id ← item algorithm_name (algorithm_ids algorithms)
  ok (record {
    id = id;
    name = name;
    description = some description;
    algorithm_id = algorithm_id;
    identifier_types = sort str_ltb types;
    identifier_signature = join "+" (sort str_ltb types);
    params = params;
    priority = priority;
    created_by = "seed_migration";
  })

unfoldable pub member_of_group :
    List AlgorithmRow
    → Dict String String
    → String
    → SampleMember
    → SampleGroup
    → Result MigrationError GroupedRule
unfolding item
member_of_group algorithms ids id (sample_member name endpoint overrides)
      (sample_group own_name description algorithm_name types params priority) =
    do
      algorithm_id ← item algorithm_name (algorithm_ids algorithms)
      group_id ← item name ids
      ok (record {
        rule = record {
          columns =
              sample_columns id endpoint algorithm_id (compute_effective_params params overrides)
                priority;
          identifier_types = sort str_ltb types;
          identifier_signature = join "+" (sort str_ltb types);
        };
        group_id = some group_id;
        overrides = some overrides;
      })

unfoldable pub member_row :
    List AlgorithmRow
    → Dict String String
    → String
    → SampleMember
    → Result MigrationError GroupedRule
unfolding item member_of_group
member_row algorithms ids id (sample_member name endpoint overrides) = do
  group ← item name (group_index sample_groups)
  member_of_group algorithms ids id (sample_member name endpoint overrides) group

-- `ck_rules_overrides_requires_group`
abbrev pub overrides_allowed : GroupedRule → Bool
overrides_allowed r = not (is_some r.overrides) || is_some r.group_id

unfoldable pub seed_groups :
    Collation
    → (ℕ → String)
    → ℕ
    → List AlgorithmRow
    → List GroupedRule
    → Result MigrationError (List UnownedGroup × List GroupedRule)
unfolding bulk_insert group_ids group_row collect_rows member_row
seed_groups col uuid n algorithms rules = do
  let ids = group_ids uuid n sample_groups
  groups ← collect_rows (group_row algorithms ids) sample_groups
  demand (all (λ g. types_allowed g.identifier_types) groups)
  demand (unique_by (same_lower_name col) groups)
  members ← bulk_insert uuid (member_row algorithms ids) (n + length sample_groups) sample_members
  demand (all (λ r. types_allowed r.rule.identifier_types) members)
  demand (all overrides_allowed members)
  demand (unique_by same_signature (map (λ r. r.rule) (rules ++ members)))
  ok (groups, rules ++ members)
