-- ===== src/Migrations/Fresh.antt =====
-- What `alembic upgrade head` makes of a fresh database.
use distributed_rate_limiter.Migrations.{
  MigrationError, PlainRule, group_row, member_row, collect_rows, UnownedGroup, GroupedRule,
  bulk_insert, upgrade_rules, seed_groups, add_group_columns, own_rule, own_group, default_client,
  seed_algorithm_rows, group_ids,
}
use distributed_rate_limiter.Migrations.Seeds.{sample_groups, sample_members}
use distributed_rate_limiter.Prelude.Dict
use distributed_rate_limiter.Prelude.Sort.{sort}
use distributed_rate_limiter.Store.{Db, AlgorithmRow, RuleRow, Collation, unique_by, same_scope}
use distributed_rate_limiter.Prelude.{
  ℕ, String, ◌≡◌, refl, Bool, true, false, List, [], ◌∷◌, map, Result, ok, raise, ◌==◌, string_eq,
  join, str_ltb, ◌++◌, ◌&&◌, not, all, nat_eq, arith,
}

abbrev pub or_nothing : {A : Type 0} → Result MigrationError (List A) → List A
or_nothing (ok rows) = rows
or_nothing (raise e) = []

abbrev pub seconds : {A B : Type 0} → Result MigrationError (List A × List B) → List B
seconds (ok (xs, ys)) = ys
seconds (raise e) = []

abbrev pub algorithms : (ℕ → String) → List AlgorithmRow
algorithms uuid = or_nothing (seed_algorithm_rows uuid 0)

abbrev pub own_rules : (ℕ → String) → List PlainRule
own_rules uuid = seconds (upgrade_rules uuid)

pub upgrade_rules-ok :
    (uuid : ℕ → String) → upgrade_rules uuid ≡ ok (algorithms uuid, own_rules uuid)
unfolding upgrade_rules seed_algorithm_rows bulk_insert Dict.get sort str_ltb join
upgrade_rules-ok uuid = refl

abbrev pub groups : (ℕ → String) → List UnownedGroup
groups uuid =
    or_nothing
      (collect_rows (group_row (algorithms uuid) (group_ids uuid 33 sample_groups)) sample_groups)

abbrev pub members : (ℕ → String) → List GroupedRule
members uuid = or_nothing (
    bulk_insert uuid (member_row (algorithms uuid) (group_ids uuid 33 sample_groups)) 35
      sample_members)

abbrev pub all_rules : (ℕ → String) → List GroupedRule
all_rules uuid = add_group_columns (own_rules uuid) ++ members uuid

-- The tables of a fresh database.
abbrev pub fresh : (ℕ → String) → Db
fresh uuid = record {
  clients = default_client (uuid 40) ∷ [];
  secrets = [];
  algorithms = algorithms uuid;
  groups = map (own_group (uuid 40)) (groups uuid);
  rules = map (own_rule (uuid 40)) (all_rules uuid);
}

module _ (col : Collation) (lower_premium : col.sql_lower "premium-endpoints" ≡ "premium-endpoints")
    (lower_admin : col.sql_lower "admin-endpoints" ≡ "admin-endpoints") where
  pub seed_groups-ok :
      (uuid : ℕ → String)
      → seed_groups col uuid 33 (algorithms uuid) (add_group_columns (own_rules uuid))
        ≡ ok (groups uuid, all_rules uuid)
  unfolding seed_groups upgrade_rules seed_algorithm_rows bulk_insert Dict.get sort str_ltb join
  seed_groups-ok uuid = rw (lower_premium, lower_admin) refl

abbrev same_place_and_signature : RuleRow → RuleRow → Bool
same_place_and_signature r s =
    s.endpoint == r.endpoint && s.identifier_signature == r.identifier_signature

-- Rows that no coarser test takes for the same.
pub unique_by-coarser :
    {A : Type 0} (strong weak : A → A → Bool)
    → ((x y : A) → weak x y ≡ false → strong x y ≡ false)
    → (xs : List A) → unique_by weak xs ≡ true
    → unique_by strong xs ≡ true
unique_by-coarser strong weak finer [] h = refl
unique_by-coarser {A = A} strong weak finer (x ∷ xs) h =
    ground (arith, none_clash xs, unique_by-coarser strong weak finer xs)
  where
    none_clash :
        (ys : List A) → all (λ y. not (weak x y)) ys ≡ true → all (λ y. not (strong x y)) ys ≡ true
    none_clash [] k = refl
    none_clash (y ∷ ys) k = ground (arith, finer x y, none_clash ys)

pub scopes_apart : (uuid : ℕ → String) → unique_by same_scope (fresh uuid).rules ≡ true
unfolding upgrade_rules seed_algorithm_rows bulk_insert Dict.get sort str_ltb join member_row
    group_ids
scopes_apart uuid =
    unique_by-coarser same_scope same_place_and_signature (λ x y h. ground arith) (fresh uuid).rules
      refl
