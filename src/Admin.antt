-- ===== src/Admin.antt =====
-- The administration of rules and groups as a whole: the methods of rule_service.py and
-- rule_group_service.py as requests, each its own transaction, one after the other.
pub mod Keeps
pub mod Enforced
use distributed_rate_limiter.Errors.{Error}
use distributed_rate_limiter.GroupService.{
  MemberInput, GroupCreate, GroupUpdate, MoveToGroup, DetachRule,
}
use distributed_rate_limiter.GroupService.Base.{plan_update_group, plan_delete_group}
use distributed_rate_limiter.GroupService.Create.{plan_create_group}
use distributed_rate_limiter.GroupService.Members
use distributed_rate_limiter.GroupService.Move.{plan_detach_rule, plan_move_to_group}
use distributed_rate_limiter.Params.{Runtime}
use distributed_rate_limiter.RuleService.{
  RuleCreate, RuleUpdate, plan_create_rule, plan_update_rule, plan_delete_rule,
}
use distributed_rate_limiter.Store.{Db, Collation, run}
use distributed_rate_limiter.Prelude.{
  ℕ, String, Option, none, some, List, [], ◌∷◌, Result, ok, raise,
}

-- The ids that the database gives to new rows are part of a request.
pub data Request : Type 0 where
  create_rule : (new_id : String) (request : RuleCreate) → Request
  update_rule : (id : String) (request : RuleUpdate) → Request
  delete_rule : (id : String) → Request
  create_group : (new_id : String) (new_ids : ℕ → String) (request : GroupCreate) → Request
  update_group : (gid : String) (request : GroupUpdate) → Request
  delete_group : (gid : String) (mode : String) → Request
  add_members : (new_ids : ℕ → String) (gid : String) (members : List MemberInput) → Request
  detach_rule : (id : String) (request : DetachRule) → Request
  move_to_group : (id : String) (request : MoveToGroup) → Request

abbrev pub error_of : {A : Type 0} → Result Error A → Option Error
error_of (ok a) = none
error_of (raise e) = some e

abbrev pub outcome : {A : Type 0} → Result Error A × Db → Option Error × Db
outcome (reply, db) = (error_of reply, db)

-- One request: what it raises, and the tables behind it.
unfoldable pub handle : Runtime → Collation → Request → Db → Option Error × Db
handle rt col (create_rule new_id request) db =
    outcome (run col (plan_create_rule rt new_id request db) db)
handle rt col (update_rule id request) db = outcome (run col (plan_update_rule rt id request db) db)
handle rt col (delete_rule id) db = outcome (run col (plan_delete_rule id db) db)
handle rt col (create_group new_id new_ids request) db =
    outcome (run col (plan_create_group rt col new_id new_ids request db) db)
handle rt col (update_group gid request) db =
    outcome (run col (plan_update_group rt col gid request db) db)
handle rt col (delete_group gid mode) db = outcome (run col (plan_delete_group gid mode db) db)
handle rt col (add_members new_ids gid members) db =
    outcome (Members.add_members rt col new_ids gid members db db)
handle rt col (detach_rule id request) db = outcome (run col (plan_detach_rule rt id request db) db)
handle rt col (move_to_group id request) db =
    outcome (run col (plan_move_to_group rt id request db) db)

unfoldable pub handle_all : Runtime → Collation → List Request → Db → Db
unfolding handle
handle_all rt col [] db = db
handle_all rt col (q ∷ requests) db = handle_all rt col requests (handle rt col q db).1
