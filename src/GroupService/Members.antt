-- ===== src/GroupService/Members.antt =====
-- `RuleGroupService.add_members`.
use distributed_rate_limiter.Errors.{Error, Conflict, rule_group_not_found, members_write_race}
use distributed_rate_limiter.GroupService.{
  MemberInput, Prepared, check_endpoints, prepare, member_rules, add_rules,
}
use distributed_rate_limiter.Params.{Params, Runtime}
use distributed_rate_limiter.RuleService.{or_raise, or_else, algorithm_of}
use distributed_rate_limiter.Store.{Db, GroupRow, RuleRow, Collation, Plan, get_group_by_id, run}
use distributed_rate_limiter.Prelude.{ℕ, String, List, [], ◌∷◌, map, Result, ok, raise, ◌>>=◌, ◌>>◌}

pub record MemberDiff : Type 0 where
  pub endpoint : String
  pub rule_id : String
  pub overrides : Params

pub record AddMembersResponse : Type 0 where
  pub created : List MemberDiff
  pub conflicts : List Conflict

abbrev pub diff_entry : RuleRow → MemberDiff
diff_entry r = record { endpoint = r.endpoint; rule_id = r.id; overrides = or_else r.overrides [] }

unfoldable pub plan_add_members : GroupRow → (ℕ → String) → List Prepared → Plan AddMembersResponse
unfolding member_rules add_rules
plan_add_members g new_ids prepared = record {
  writes = add_rules (member_rules g new_ids 0 prepared);
  on_conflict = λ _. members_write_race;
  result = record { created = map diff_entry (member_rules g new_ids 0 prepared); conflicts = [] };
}

-- What the loop found: with a conflict the session is rolled back, and the conflicts are the reply.
unfoldable pub write_members :
    Collation
    → (ℕ → String)
    → Result Error (GroupRow × (List Conflict × List Prepared))
    → Db
    → Result Error AddMembersResponse × Db
unfolding plan_add_members
write_members col new_ids (raise e) db = (raise e, db)
write_members col new_ids (ok (g, (c ∷ conflicts, prepared))) db =
    (ok (record { created = []; conflicts = c ∷ conflicts }), db)
write_members col new_ids (ok (g, ([], prepared))) db =
    run col (ok (plan_add_members g new_ids prepared)) db

unfoldable pub find_members :
    Runtime
    → String
    → List MemberInput
    → Db
    → Result Error (GroupRow × (List Conflict × List Prepared))
unfolding check_endpoints
find_members rt gid members db = do
  g ← or_raise (get_group_by_id gid db) (rule_group_not_found gid)
  check_endpoints members []
  algorithm ← algorithm_of g db
  found ← prepare rt algorithm.name g.params g.client_id g.identifier_signature members db
  ok (g, found)

-- The queries see `seen`; the commit is made on `db`.
unfoldable pub add_members :
    Runtime
    → Collation
    → (ℕ → String)
    → String
    → List MemberInput
    → Db
    → Db
    → Result Error AddMembersResponse × Db
unfolding find_members write_members
add_members rt col new_ids gid members seen db =
    write_members col new_ids (find_members rt gid members seen) db
