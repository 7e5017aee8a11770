-- ===== src/Admin/Keeps.antt =====
-- The invariants of the administration.
use distributed_rate_limiter.Admin.{
  Request, create_rule, update_rule, delete_rule, create_group, update_group, delete_group,
  add_members, detach_rule, move_to_group, handle, handle_all,
}
use distributed_rate_limiter.Errors.{Error, Conflict}
use distributed_rate_limiter.GroupService.Base.{plan_update_group, plan_delete_group}
use distributed_rate_limiter.GroupService.Create.{plan_create_group}
use distributed_rate_limiter.GroupService.KeepsBase.{update_group-IsGoverned}
use distributed_rate_limiter.GroupService.KeepsDelete.{delete_group-IsGoverned}
use distributed_rate_limiter.GroupService.KeepsMembers.{
  create_group-IsGoverned, add_members-IsGoverned,
}
use distributed_rate_limiter.GroupService.KeepsMove.{
  detach_rule-IsGoverned, move_to_group-IsGoverned,
}
use distributed_rate_limiter.GroupService.{Prepared}
use distributed_rate_limiter.GroupService.Members
use distributed_rate_limiter.GroupService.Members.{find_members, write_members, plan_add_members}
use distributed_rate_limiter.GroupService.Move.{plan_detach_rule, plan_move_to_group}
use distributed_rate_limiter.Params.{Runtime}
use distributed_rate_limiter.RuleService.{plan_create_rule, plan_update_rule, plan_delete_rule}
use distributed_rate_limiter.RuleService.Keeps.{
  create_rule-IsGoverned, update_rule-IsGoverned, delete_rule-IsGoverned,
}
use distributed_rate_limiter.Store.{
  Db, GroupRow, Collation, Plan, is_consistent, same_id, unique_by, is_storable, run, commit,
}
use distributed_rate_limiter.Store.Governed.{IsGoverned}
use distributed_rate_limiter.Prelude.{
  Bool-cases, inl, inr, ℕ, String, ◌≡◌, refl, subst, true, arith, List, [], ◌∷◌, Result, ok, raise,
  ok-injective,
}

-- The tables meet their constraints, and every rule is governed.
abbrev pub IsSound : Collation → Db → Type 0
IsSound col db = (is_consistent col db ≡ true) × IsGoverned db

-- A transaction leaves sound tables if its writes keep the rules governed.
run-IsSound :
    {A : Type 0} (col : Collation) (r : Result Error (Plan A)) (db : Db)
    → IsSound col db
    → ((p : Plan A) → r ≡ ok p → is_consistent col (p.writes db) ≡ true → IsGoverned (p.writes db))
    → IsSound col (run col r db).1
unfolding run commit
run-IsSound col (raise e) db sound keeps = sound
run-IsSound {A = A} col (ok p) db sound keeps = elim (Bool-cases (is_storable col (p.writes db))) [
  | inl s ↦ elim (Bool-cases (is_consistent col (p.writes db))) [
    | inl e ↦ rw (s, e) (e, keeps p refl e)
    | inr e ↦ rw (s, e) sound
  ]
  | inr s ↦ rw s sound
]

unique_ids :
    (col : Collation) (db : Db) → is_consistent col db ≡ true → unique_by same_id db.rules ≡ true
unfolding is_consistent
unique_ids col db h = ground arith

write_members-IsSound :
    (col : Collation) (new_ids : ℕ → String)
    (found : Result Error (GroupRow × (List Conflict × List Prepared))) (db : Db)
    → IsSound col db
    → ((g : GroupRow) (conflicts : List Conflict) (prepared : List Prepared)
        → found ≡ ok (g, (conflicts, prepared))
        → IsGoverned ((plan_add_members g new_ids prepared).writes db))
    → IsSound col (write_members col new_ids found db).1
unfolding write_members
write_members-IsSound col new_ids (raise e) db sound keeps = sound
write_members-IsSound col new_ids (ok (g, (c ∷ conflicts, prepared))) db sound keeps = sound
write_members-IsSound col new_ids (ok (g, ([], prepared))) db sound keeps =
    run-IsSound col (ok (plan_add_members g new_ids prepared)) db sound (λ p e valid.
      subst (λ q. IsGoverned (q.writes db)) (ok-injective e) (keeps g [] prepared refl))

-- Every request, accepted or refused, leaves sound tables.
pub handle-IsSound :
    (rt : Runtime) (col : Collation) (q : Request) (db : Db)
    → IsSound col db
    → IsSound col (handle rt col q db).1
unfolding handle Members.add_members
handle-IsSound rt col (create_rule new_id request) db sound =
    run-IsSound col (plan_create_rule rt new_id request db) db sound
      (λ p h valid. create_rule-IsGoverned rt new_id request db p sound.1 h)
handle-IsSound rt col (update_rule id request) db sound =
    run-IsSound col (plan_update_rule rt id request db) db sound
      (λ p h valid. update_rule-IsGoverned rt id request db p (unique_ids col db sound.0) sound.1 h)
handle-IsSound rt col (delete_rule id) db sound =
    run-IsSound col (plan_delete_rule id db) db sound
      (λ p h valid. delete_rule-IsGoverned id db p sound.1 h)
handle-IsSound rt col (create_group new_id new_ids request) db sound =
    run-IsSound col (plan_create_group rt col new_id new_ids request db) db sound
      (λ p h valid. create_group-IsGoverned rt col new_id new_ids request db p sound.1 h valid)
handle-IsSound rt col (update_group gid request) db sound =
    run-IsSound col (plan_update_group rt col gid request db) db sound (λ p h valid.
      update_group-IsGoverned rt col gid request db p (unique_ids col db sound.0) sound.1 h)
handle-IsSound rt col (delete_group gid mode) db sound =
    run-IsSound col (plan_delete_group gid mode db) db sound
      (λ p h valid. delete_group-IsGoverned gid mode db p sound.1 h)
handle-IsSound rt col (add_members new_ids gid members) db sound =
    write_members-IsSound col new_ids (find_members rt gid members db) db sound
      (λ g conflicts prepared h.
        add_members-IsGoverned rt new_ids gid members db g conflicts prepared sound.1 h)
handle-IsSound rt col (detach_rule id request) db sound =
    run-IsSound col (plan_detach_rule rt id request db) db sound
      (λ p h valid. detach_rule-IsGoverned rt id request db p (unique_ids col db sound.0) sound.1 h)
handle-IsSound rt col (move_to_group id request) db sound =
    run-IsSound col (plan_move_to_group rt id request db) db sound (λ p h valid.
      move_to_group-IsGoverned rt id request db p (unique_ids col db sound.0) sound.1 h)

-- Sound tables: no two rules or groups with one id, no two active rules with one client, endpoint and signature,
-- no two groups of a client with one name, and every rule either standalone, without overrides, or with a group that
-- exists, whose client, algorithm, identifier types and priority it has, and whose parameters merged with its own
-- overrides are its parameters. From sound tables any sequence of requests on rules and groups, accepted or refused,
-- one after the other, leaves sound tables.
pub handle_all-IsSound :
    (rt : Runtime) (col : Collation) (requests : List Request) (db : Db)
    → IsSound col db
    → IsSound col (handle_all rt col requests db)
unfolding handle_all
handle_all-IsSound rt col [] db sound = sound
handle_all-IsSound rt col (q ∷ requests) db sound =
    handle_all-IsSound rt col requests (handle rt col q db).1 (handle-IsSound rt col q db sound)
