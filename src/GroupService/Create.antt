-- ===== src/GroupService/Create.antt =====
-- `RuleGroupService.create_group`.
use distributed_rate_limiter.Errors.{
  Error, Conflict, algorithm_not_found, group_name_conflict, group_member_conflict,
  members_write_race,
}
use distributed_rate_limiter.GroupService.{
  GroupCreate, Prepared, check_endpoints, prepare, member_rules, add_rules,
}
use distributed_rate_limiter.Params.{Runtime}
use distributed_rate_limiter.Params.Overrides.{validate_overrides_or_raise}
use distributed_rate_limiter.RuleService.{
  or_raise, normalized_identifier_types, resolve_client_or_raise,
}
use distributed_rate_limiter.Store.{
  Db, GroupRow, Collation, Plan, is_some, get_algorithm_by_id, get_by_name_ci, names_unique,
  add_group,
}
use distributed_rate_limiter.Prelude.{
  ℕ, String, none, List, [], ◌∷◌, if◌then◌else◌, Result, ok, raise, ◌>>=◌, ◌>>◌, raise_if,
}

unfoldable pub new_group : String → String → List String → String → GroupCreate → GroupRow
new_group id client_pk types signature request = record {
  id = id;
  client_id = client_pk;
  name = request.name;
  description = request.description;
  algorithm_id = request.algorithm_id;
  identifier_types = types;
  identifier_signature = signature;
  params = request.params;
  priority = request.priority;
  created_by = request.created_by;
  updated_by = none;
}

-- Behind the loop: with a conflict nothing is written. A name that another request took meanwhile is
-- met by the flush, whose IntegrityError is not caught here.
unfoldable pub plan_members :
    Collation
    → GroupRow
    → (ℕ → String)
    → List Conflict × List Prepared
    → Result Error (Plan GroupRow)
unfolding member_rules add_rules
plan_members col g new_ids (c ∷ conflicts, prepared) = raise (group_member_conflict (c ∷ conflicts))
plan_members col g new_ids ([], prepared) = ok (record {
  writes = λ db. add_rules (member_rules g new_ids 0 prepared) (add_group g db);
  on_conflict = λ db. if names_unique col db then members_write_race else Error.integrity_error;
  result = g;
})

unfoldable pub plan_create_group :
    Runtime → Collation → String → (ℕ → String) → GroupCreate → Db → Result Error (Plan GroupRow)
unfolding check_endpoints new_group plan_members resolve_client_or_raise
plan_create_group rt col new_id new_ids request db = do
  client ← resolve_client_or_raise request.client_id db
  algorithm ←
      or_raise (get_algorithm_by_id request.algorithm_id db)
        (algorithm_not_found request.algorithm_id)
  (types, signature) ← normalized_identifier_types request.identifier_types
  base ← validate_overrides_or_raise rt algorithm.name request.params []
  raise_if (is_some (get_by_name_ci col client.id request.name none db))
      (group_name_conflict request.name)
  check_endpoints request.members []
  found ← prepare rt algorithm.name request.params client.id signature request.members db
  plan_members col (new_group new_id client.id types signature request) new_ids found
