-- ===== src/GroupService/Base.antt =====
-- `RuleGroupService.update_group` and `delete_group`.
use distributed_rate_limiter.Errors.{Error, rule_group_not_found, group_name_conflict}
use distributed_rate_limiter.GroupService.{GroupUpdate}
use distributed_rate_limiter.Params.{Params, Runtime}
use distributed_rate_limiter.Params.Overrides.{validate_overrides_or_raise}
use distributed_rate_limiter.RuleService.{or_raise, or_else, algorithm_of}
use distributed_rate_limiter.Store.{
  Db, GroupRow, RuleRow, Collation, Plan, is_some, get_group_by_id, get_by_name_ci, list_by_group,
  set_group, remove_group,
}
use distributed_rate_limiter.Prelude.Dict
use distributed_rate_limiter.Prelude.Dict.{Dict}
use distributed_rate_limiter.Prelude.{
  ℕ, ◌+◌, String, Bool, not, ◌&&◌, Option, none, some, List, [], ◌∷◌, map, if◌then◌else◌, ◌==◌,
  nat_eq, string_eq, keep, contains, Result, ok, ◌>>=◌, ◌>>◌, raise_if,
}

-- The new params and version of a member.
abbrev pub Recomputed : Type 0
Recomputed = Params × ℕ

module _ (rt : Runtime) where
  -- Every member's overrides on the new parameters, before anything is written.
  unfoldable pub recompute : String → Params → List RuleRow → Result Error (Dict String Recomputed)
  recompute algorithm params [] = ok []
  recompute algorithm params (m ∷ members) = do
    merged ← validate_overrides_or_raise rt algorithm params (or_else m.overrides [])
    rest ← recompute algorithm params members
    ok ((m.id, (merged, m.version + 1)) ∷ rest)

unfoldable pub assign_group : GroupUpdate → GroupRow → GroupRow
assign_group request g = record g {
  name = or_else request.name g.name;
  description = if is_some request.description then request.description else g.description;
  priority = or_else request.priority g.priority;
  params = or_else request.params g.params;
  updated_by = some request.updated_by;
}

unfoldable pub assign_member : GroupUpdate → Recomputed → RuleRow → RuleRow
assign_member request (params, version) r = record r {
  params = params;
  priority = or_else request.priority r.priority;
  updated_by = some request.updated_by;
  version = version;
}

abbrev pub write_new : GroupUpdate → Option Recomputed → RuleRow → RuleRow
write_new request none r = r
write_new request (some new) r = assign_member request new r

-- The UPDATE of each member, by its id.
unfoldable pub write_member : GroupUpdate → Dict String Recomputed → RuleRow → RuleRow
write_member request recomputed r = write_new request (Dict.get r.id recomputed) r

unfoldable pub write_base : String → GroupUpdate → Dict String Recomputed → Db → Db
unfolding assign_group write_member
write_base gid request recomputed db =
    let groups = (set_group gid (assign_group request) db).groups in
    record db { groups = groups; rules = map (write_member request recomputed) db.rules }

-- `data.name is not None and data.name != group.name`
unfoldable pub is_new_name : Option String → String → Bool
is_new_name none name = Bool.false
is_new_name (some n) name = not (n == name)

unfoldable pub plan_update_group :
    Runtime → Collation → String → GroupUpdate → Db → Result Error (Plan GroupRow)
unfolding recompute write_base is_new_name
plan_update_group rt col gid request db = do
  g ← or_raise (get_group_by_id gid db) (rule_group_not_found gid)
  let name = or_else request.name g.name
  raise_if
      (is_new_name request.name g.name
        && is_some (get_by_name_ci col g.client_id name (some gid) db))
      (group_name_conflict name)
  algorithm ← algorithm_of g db
  recomputed ← recompute rt algorithm.name (or_else request.params g.params) (list_by_group gid db)
  ok (record {
    writes = write_base gid request recomputed;
    on_conflict = λ _. Error.integrity_error;
    result = assign_group request g;
  })

abbrev pub detached : RuleRow → RuleRow
detached r = record r { group_id = none; overrides = none }

-- With mode "delete" the members go too; with any other they become standalone rules.
unfoldable pub release : String → List String → Db → Db
release mode ids db =
    if mode == "delete"
    then record db { rules = keep (λ r. not (contains ids r.id)) db.rules }
    else record db { rules = map (λ r. if contains ids r.id then detached r else r) db.rules }

unfoldable pub plan_delete_group : String → String → Db → Result Error (Plan (Unit {0}))
unfolding release
plan_delete_group gid mode db = do
  g ← or_raise (get_group_by_id gid db) (rule_group_not_found gid)
  let ids = map (λ (r : RuleRow). r.id) (list_by_group gid db)
  ok (record {
    writes = λ now. remove_group gid (release mode ids now);
    on_conflict = λ _. Error.integrity_error;
    result = tt;
  })
