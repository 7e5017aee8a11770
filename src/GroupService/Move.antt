-- ===== src/GroupService/Move.antt =====
-- `RuleGroupService.detach_rule` and `move_to_group`.
use distributed_rate_limiter.Errors.{
  Error, rule_not_found, rule_not_in_group, algorithm_name_not_found, rule_group_not_found,
  cross_client_operation, scope_conflict,
}
use distributed_rate_limiter.GroupService.{MoveToGroup, DetachRule}
use distributed_rate_limiter.Params.{Params, Runtime, build_algorithm_config}
use distributed_rate_limiter.Params.Overrides.{or_invalid, validate_overrides_or_raise}
use distributed_rate_limiter.RuleService.{or_raise, or_else, algorithm_of}
use distributed_rate_limiter.Store.{
  Db, GroupRow, RuleRow, Plan, is_some, get_rule_by_id, get_group_by_id, get_algorithm_by_name,
  find_active_conflict, set_rule,
}
use distributed_rate_limiter.Prelude.{
  ◌+◌, String, not, ◌&&◌, none, some, [], ◌==◌, nat_eq, string_eq, Result, ok, ◌>>=◌, ◌>>◌,
  raise_if,
}

unfoldable pub assign_detached : RuleRow → String → Params → RuleRow → RuleRow
assign_detached seen algorithm_id params r = record r {
  group_id = none;
  overrides = none;
  algorithm_id = algorithm_id;
  params = params;
  version = seen.version + 1;
}

unfoldable pub plan_detach_rule : Runtime → String → DetachRule → Db → Result Error (Plan RuleRow)
plan_detach_rule rt id request db = do
  rule ← or_raise (get_rule_by_id id db) (rule_not_found id)
  raise_if (not (is_some rule.group_id)) (rule_not_in_group id)
  algorithm ←
      or_raise (get_algorithm_by_name request.algorithm db)
        (algorithm_name_not_found request.algorithm)
  config ← or_invalid algorithm.name (build_algorithm_config rt algorithm.name request.params)
  ok (record {
    writes = set_rule id (assign_detached rule algorithm.id request.params);
    on_conflict = λ _. Error.integrity_error;
    result = assign_detached rule algorithm.id request.params rule;
  })

unfoldable pub assign_moved : RuleRow → GroupRow → Params → Params → String → RuleRow → RuleRow
assign_moved seen g overrides merged updated_by r = record r {
  group_id = some g.id;
  algorithm_id = g.algorithm_id;
  identifier_types = g.identifier_types;
  identifier_signature = g.identifier_signature;
  priority = g.priority;
  overrides = some overrides;
  params = merged;
  updated_by = some updated_by;
  version = seen.version + 1;
}

-- The check of the new scope, where the signature changes.
unfoldable pub check_target : RuleRow → GroupRow → Db → Result Error (Unit {0})
check_target rule g db =
    raise_if
      (not (g.identifier_signature == rule.identifier_signature)
        && is_some (
            find_active_conflict rule.client_id rule.endpoint g.identifier_signature (some rule.id)
              db))
      (scope_conflict rule.endpoint g.identifier_signature)

unfoldable pub plan_move_to_group :
    Runtime → String → MoveToGroup → Db → Result Error (Plan RuleRow)
unfolding check_target
plan_move_to_group rt id request db = do
  rule ← or_raise (get_rule_by_id id db) (rule_not_found id)
  g ← or_raise (get_group_by_id request.group_id db) (rule_group_not_found request.group_id)
  raise_if (not (rule.client_id == g.client_id)) (cross_client_operation id request.group_id)
  let overrides = or_else request.overrides []
  algorithm ← algorithm_of g db
  merged ← validate_overrides_or_raise rt algorithm.name g.params overrides
  check_target rule g db
  ok (record {
    writes = set_rule id (assign_moved rule g overrides merged request.updated_by);
    on_conflict = λ _. scope_conflict rule.endpoint g.identifier_signature;
    result = assign_moved rule g overrides merged request.updated_by rule;
  })
