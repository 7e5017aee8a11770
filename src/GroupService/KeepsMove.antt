-- ===== src/GroupService/KeepsMove.antt =====
-- `detach_rule` and `move_to_group` keep the invariant of groups.
use distributed_rate_limiter.Errors.{
  rule_not_found, rule_not_in_group, algorithm_name_not_found, rule_group_not_found,
  cross_client_operation,
}
use distributed_rate_limiter.GroupService.{MoveToGroup, DetachRule}
use distributed_rate_limiter.GroupService.Move.{
  assign_detached, plan_detach_rule, assign_moved, check_target, plan_move_to_group,
}
use distributed_rate_limiter.Params.{Runtime, build_algorithm_config}
use distributed_rate_limiter.Params.Merge.{validate_overrides-Merged}
use distributed_rate_limiter.Params.Overrides.{or_invalid, validate_overrides_or_raise}
use distributed_rate_limiter.RuleService.{or_raise, or_else, algorithm_of}
use distributed_rate_limiter.RuleService.Plans.{or_raise-eq-ok}
use distributed_rate_limiter.Store.{
  Db, RuleRow, Plan, is_some, same_id, unique_by, get_rule_by_id, get_group_by_id,
  get_algorithm_by_name, set_rule,
}
use distributed_rate_limiter.Store.Governed.{OfGroup, Governed, IsGoverned}
use distributed_rate_limiter.Store.Rows.{find_own, All-set_row}
use distributed_rate_limiter.Prelude.{
  raise_if-eq-ok, String, ◌≡◌, refl, sym, subst, true, not, [], ◌==◌, nat_eq, string_eq, arith, ok,
  raise_if, >>=-eq-ok, ok-injective,
}

-- A rule that leaves its group keeps every rule governed.
pub detach_rule-IsGoverned :
    (rt : Runtime) (id : String) (request : DetachRule) (db : Db) (p : Plan RuleRow)
    → unique_by same_id db.rules ≡ true
    → IsGoverned db
    → plan_detach_rule rt id request db ≡ ok p
    → IsGoverned (p.writes db)
unfolding plan_detach_rule assign_detached get_rule_by_id set_rule
detach_rule-IsGoverned rt id request db p ids governed h =
    let (rule, found, h₁) = >>=-eq-ok (or_raise (get_rule_by_id id db) (rule_not_found id)) _ h in
    let (u, grouped, h₂) =
      >>=-eq-ok (raise_if (not (is_some rule.group_id)) (rule_not_in_group id)) _ h₁ in
    let (algorithm, known, h₃) =
      >>=-eq-ok
        (or_raise (get_algorithm_by_name request.algorithm db)
          (algorithm_name_not_found request.algorithm))
        _ h₂ in
    let (config, valid, h₄) =
      >>=-eq-ok
        (or_invalid algorithm.name (build_algorithm_config rt algorithm.name request.params)) _
        h₃ in
    subst (λ (q : Plan RuleRow). IsGoverned (q.writes db)) (ok-injective h₄)
      (All-set_row (Governed db.groups) (assign_detached rule algorithm.id request.params) id
        db.rules rule ids (or_raise-eq-ok _ _ found) governed refl)

-- A rule that moves to a group of its client keeps every rule governed.
pub move_to_group-IsGoverned :
    (rt : Runtime) (id : String) (request : MoveToGroup) (db : Db) (p : Plan RuleRow)
    → unique_by same_id db.rules ≡ true
    → IsGoverned db
    → plan_move_to_group rt id request db ≡ ok p
    → IsGoverned (p.writes db)
unfolding plan_move_to_group assign_moved get_rule_by_id get_group_by_id set_rule
move_to_group-IsGoverned rt id request db p ids governed h =
    let (rule, found, h₁) = >>=-eq-ok (or_raise (get_rule_by_id id db) (rule_not_found id)) _ h in
    let (g, known, h₂) =
      >>=-eq-ok
        (or_raise (get_group_by_id request.group_id db) (rule_group_not_found request.group_id)) _
        h₁ in
    let (u, same_client, h₃) =
      >>=-eq-ok
        (raise_if (not (rule.client_id == g.client_id))
          (cross_client_operation id request.group_id))
        _ h₂ in
    let overrides = or_else request.overrides [] in
    let (algorithm, loaded, h₄) = >>=-eq-ok (algorithm_of g db) _ h₃ in
    let (merged, valid, h₅) =
      >>=-eq-ok (validate_overrides_or_raise rt algorithm.name g.params overrides) _ h₄ in
    let (v, free, h₆) = >>=-eq-ok (check_target rule g db) _ h₅ in
    let own = find_own db.groups request.group_id g (or_raise-eq-ok _ _ known) in
    let different = raise_if-eq-ok (not (rule.client_id == g.client_id)) _ same_client in
    subst (λ (q : Plan RuleRow). IsGoverned (q.writes db)) (ok-injective h₆)
      (All-set_row (Governed db.groups) (assign_moved rule g overrides merged request.updated_by) id
        db.rules rule ids (or_raise-eq-ok _ _ found) governed
        (subst (λ o. OfGroup o (assign_moved rule g overrides merged request.updated_by rule))
          (sym own)
          (record {
            client =
                (string_eq.equals_iff rule.client_id g.client_id).0 (ground (arith, different));
            algorithm = refl;
            types = refl;
            signature = refl;
            priority = refl;
            own = overrides;
            has_own = refl;
            merged =
                (validate_overrides-Merged rt algorithm.name g.params overrides merged
                  valid).effective;
          })))
