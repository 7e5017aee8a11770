-- ===== src/GroupService/KeepsBase.antt =====
-- `update_group` keeps the invariant of groups.
use distributed_rate_limiter.GroupService.Entries.{
  recomputed_of, updated_rule, updated_in, updated_out,
}
use distributed_rate_limiter.GroupService.Updated.{update_group-GroupWritten}
use distributed_rate_limiter.GroupService.{GroupUpdate}
use distributed_rate_limiter.GroupService.Base.{assign_group, assign_member, plan_update_group}
use distributed_rate_limiter.Params.{Params, Runtime}
use distributed_rate_limiter.Params.Overrides.{compute_effective_params}
use distributed_rate_limiter.RuleService.{or_else}
use distributed_rate_limiter.Store.{
  Db, GroupRow, RuleRow, Collation, Plan, same_id, in_group, unique_by, set_where,
}
use distributed_rate_limiter.Store.Governed.{IsMember, OfGroup, GovernedBy, Governed, IsGoverned}
use distributed_rate_limiter.Store.Rows.{find-set_same, find-set_other, All-to}
use distributed_rate_limiter.Prelude.{
  String, ◌≡◌, refl, sym, ap, subst, inl, inr, Bool, true, false, Option, none, some, List, [],
  if◌then◌else◌, ◌==◌, nat_eq, string_eq, arith, Bool-cases, find, All, All-map, ok,
}

-- A member of the group is a member of it as it is then; other rules keep their group.
updated_rule-GovernedBy :
    (request : GroupUpdate) (gid : String) (g : GroupRow) (groups : List GroupRow) (r : RuleRow)
    (o : Option String)
    → find (λ k. k.id == gid) groups ≡ some g
    → r.group_id ≡ o
    → GovernedBy groups o r
    → GovernedBy
        (set_where (λ k. k.id == gid) (assign_group request) groups)
        o
        (updated_rule request (or_else request.params g.params) gid r)
unfolding assign_group assign_member
updated_rule-GovernedBy request gid g groups r none found e m = rw e m
updated_rule-GovernedBy request gid g groups r (some k) found e m = elim (Bool-cases (k == gid)) [
  | inl t ↦
      subst (OfGroup _) (sym (updated_in request (or_else request.params g.params) gid r (rw e t)))
        (of_member ((string_eq.equals_iff k gid).0 t) m)
  | inr n ↦
      let same =
        find-set_other (λ j. j.id == k) (λ j. j.id == gid) (assign_group request) groups (λ j. refl)
          (λ j same. ground (
            arith,
            string_eq.equals_iff j.id gid,
            string_eq.equals_iff j.id k,
            string_eq.equals_iff k gid,
          )) in
      subst (OfGroup _) (sym (updated_out request (or_else request.params g.params) gid r (rw e n)))
        (subst (λ o. OfGroup o r) (sym same) m)
]
  where
    new_member :
        IsMember g r
        → IsMember
            (assign_group request g)
            (assign_member request (recomputed_of (or_else request.params g.params) r) r)
    new_member m = record {
      client = m.client;
      algorithm = m.algorithm;
      types = m.types;
      signature = m.signature;
      priority = ap (or_else request.priority) m.priority;
      own = m.own;
      has_own = m.has_own;
      merged =
          ap (λ o. compute_effective_params (or_else request.params g.params) (or_else o []))
            m.has_own;
    }

    of_member :
        k ≡ gid
        → OfGroup (find (λ j. j.id == k) groups) r
        → OfGroup
            (find (λ j. j.id == k) (set_where (λ j. j.id == gid) (assign_group request) groups))
            (assign_member request (recomputed_of (or_else request.params g.params) r) r)
    of_member same m =
        let here : find (λ j. j.id == k) groups ≡ some g =
          subst (λ i. find (λ j. j.id == i) groups ≡ some g) (sym same) found in
        let there =
          find-set_same (λ j. j.id == gid) (assign_group request) groups g (λ j. refl) found in
        subst
          (λ i.
            OfGroup
              (find (λ j. j.id == i) (set_where (λ j. j.id == gid) (assign_group request) groups))
              (assign_member request (recomputed_of (or_else request.params g.params) r) r))
          (sym same)
          (subst
            (λ o.
              OfGroup o
                (assign_member request (recomputed_of (or_else request.params g.params) r) r))
            (sym there) (new_member (subst (λ o. OfGroup o r) here m)))

-- An accepted change of a group keeps every rule governed.
pub update_group-IsGoverned :
    (rt : Runtime) (col : Collation) (gid : String) (request : GroupUpdate) (db : Db)
    (p : Plan GroupRow)
    → unique_by same_id db.rules ≡ true
    → IsGoverned db
    → plan_update_group rt col gid request db ≡ ok p
    → IsGoverned (p.writes db)
unfolding assign_member
update_group-IsGoverned rt col gid request db p ids governed h =
    let u = update_group-GroupWritten rt col gid request db p ids h in
    let params = or_else request.params u.group.params in
    subst (λ gs. All (Governed gs) (p.writes db).rules) (sym u.groups)
      (subst (All (Governed (set_where (λ k. k.id == gid) (assign_group request) db.groups)))
        (sym u.rules)
        (All-to _ (updated_rule request params gid) db.rules (
          All-map
            (λ r m.
              same_group r params _
                (updated_rule-GovernedBy request gid u.group db.groups r r.group_id u.found refl m))
            db.rules governed)))
  where
    same_group :
        (r : RuleRow) (params : Params) (groups : List GroupRow)
        → GovernedBy groups r.group_id (updated_rule request params gid r)
        → Governed groups (updated_rule request params gid r)
    same_group r params groups =
        subst (λ o. GovernedBy groups o (updated_rule request params gid r))
          (by_test (in_group gid r))
      where
        by_test :
            (b : Bool)
            → r.group_id
              ≡ (if b then assign_member request (recomputed_of params r) r else r).group_id
        by_test true = refl
        by_test false = refl
