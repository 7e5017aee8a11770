-- ===== src/GroupService/Updated.antt =====
-- What an accepted `update_group` does to the tables.
use distributed_rate_limiter.GroupService.Entries.{
  recomputed_of, recompute-entries, get-entries, updated_rule, write_member-entries,
}
use distributed_rate_limiter.Errors.{group_name_conflict, rule_group_not_found}
use distributed_rate_limiter.GroupService.{GroupUpdate}
use distributed_rate_limiter.GroupService.Base.{
  recompute, assign_group, assign_member, write_member, write_base, is_new_name, plan_update_group,
}
use distributed_rate_limiter.Params.{Params, Runtime}
use distributed_rate_limiter.Params.Overrides.{compute_effective_params}
use distributed_rate_limiter.RuleService.{or_raise, or_else, algorithm_of}
use distributed_rate_limiter.RuleService.Plans.{or_raise-eq-ok}
use distributed_rate_limiter.Store.{
  Db, GroupRow, RuleRow, Collation, Plan, is_some, same_id, in_group, unique_by, set_where,
  get_group_by_id, get_by_name_ci, list_by_group, set_group,
}
use distributed_rate_limiter.Prelude.{
  ◌+◌, String, ◌≡◌, refl, sym, ap, if◌then◌else◌, none, Option, ◌∙◌, true, some, List, [], ◌∷◌, map,
  ◌&&◌, ◌==◌, nat_eq, string_eq, keep, find, All, All-map, ok, >>=-eq-ok, ok-injective, raise_if,
}

-- What the change makes of the group, and of a member of it, whose group has these parameters then.
abbrev pub changed_group : GroupUpdate → GroupRow → GroupRow
changed_group request g = record {
  id = g.id;
  client_id = g.client_id;
  name = or_else request.name g.name;
  description = elim request.description [ none ↦ g.description | some text ↦ some text ];
  algorithm_id = g.algorithm_id;
  identifier_types = g.identifier_types;
  identifier_signature = g.identifier_signature;
  params = or_else request.params g.params;
  priority = or_else request.priority g.priority;
  created_by = g.created_by;
  updated_by = some request.updated_by;
}

abbrev pub changed_member : GroupUpdate → Params → RuleRow → RuleRow
changed_member request params r = record {
  id = r.id;
  client_id = r.client_id;
  endpoint = r.endpoint;
  identifier_types = r.identifier_types;
  identifier_signature = r.identifier_signature;
  algorithm_id = r.algorithm_id;
  params = compute_effective_params params (or_else r.overrides []);
  status = r.status;
  priority = or_else request.priority r.priority;
  version = r.version + 1;
  created_by = r.created_by;
  updated_by = some request.updated_by;
  group_id = r.group_id;
  overrides = r.overrides;
}

pub record GroupUpdated (gid : String) (request : GroupUpdate) (db : Db) (p : Plan GroupRow)
    : Type 0 where
  pub group : GroupRow
  pub found : find (λ k. k.id == gid) db.groups ≡ some group
  pub groups :
      (p.writes db).groups ≡ map (λ k. if k.id == gid then changed_group request k else k) db.groups
  pub rules :
      (p.writes db).rules
      ≡ map
          (λ r.
            if in_group gid r
            then changed_member request (or_else request.params group.params) r
            else r)
          db.rules
  pub result : p.result ≡ changed_group request group

-- What the plan writes, in terms of the assignments.
pub record GroupWritten (gid : String) (request : GroupUpdate) (db : Db) (p : Plan GroupRow)
    : Type 0 where
  pub group : GroupRow
  pub found : find (λ k. k.id == gid) db.groups ≡ some group
  pub groups : (p.writes db).groups ≡ set_where (λ k. k.id == gid) (assign_group request) db.groups
  pub rules :
      (p.writes db).rules
      ≡ map (updated_rule request (or_else request.params group.params) gid) db.rules
  pub result : p.result ≡ assign_group request group

map-All {ℓ κ} :
    {A : Type ℓ} {B : Type κ} (f g : A → B) (xs : List A)
    → All (λ x. f x ≡ g x) xs
    → map f xs ≡ map g xs
map-All f g [] h = refl
map-All f g (x ∷ xs) h = λ i. h.0 i ∷ map-All f g xs h.1 i

given_description :
    (o d : Option String)
    → (if is_some o then o else d) ≡ (elim o [ none ↦ d | some text ↦ some text ])
given_description none d = refl
given_description (some text) d = refl

assign_group-changed :
    (request : GroupUpdate) (g : GroupRow) → assign_group request g ≡ changed_group request g
unfolding assign_group
assign_group-changed request g =
    ap (λ d. record (changed_group request g) { description = d })
      (given_description request.description g.description)

assign_member-changed :
    (request : GroupUpdate) (params : Params) (r : RuleRow)
    → assign_member request (recomputed_of params r) r ≡ changed_member request params r
unfolding assign_member
assign_member-changed request params r = refl

pub update_group-GroupWritten :
    (rt : Runtime) (col : Collation) (gid : String) (request : GroupUpdate) (db : Db)
    (p : Plan GroupRow)
    → unique_by same_id db.rules ≡ true
    → plan_update_group rt col gid request db ≡ ok p
    → GroupWritten gid request db p
unfolding plan_update_group write_base get_group_by_id list_by_group set_group
update_group-GroupWritten rt col gid request db p ids h =
    let (g, known, h₁) =
      >>=-eq-ok (or_raise (get_group_by_id gid db) (rule_group_not_found gid)) _ h in
    let name = or_else request.name g.name in
    let (u, free, h₂) =
      >>=-eq-ok
        (raise_if
          (is_new_name request.name g.name
            && is_some (get_by_name_ci col g.client_id name (some gid) db))
          (group_name_conflict name))
        _ h₁ in
    let (algorithm, loaded, h₃) = >>=-eq-ok (algorithm_of g db) _ h₂ in
    let params = or_else request.params g.params in
    let (d, looped, h₄) =
      >>=-eq-ok (recompute rt algorithm.name params (list_by_group gid db)) _ h₃ in
    let same = ok-injective h₄ in
    let entry =
      recompute-entries rt algorithm.name params (keep (in_group gid) db.rules) d looped in
    record {
      group = g;
      found = or_raise-eq-ok _ _ known;
      groups = (λ i. ((sym same i).writes db).groups);
      rules =
          (λ i. ((sym same i).writes db).rules)
          ∙ map-All (write_member request d) (updated_rule request params gid) db.rules (
              All-map (λ r e. write_member-entries request params gid r d (rw entry e)) db.rules
                (get-entries (recomputed_of params) (in_group gid) db.rules ids));
      result = λ i. (sym same i).result;
    }

-- An accepted change of a group, where no two rules have one id, gives the group the name, description, priority
-- and parameters that the request has, and every member of it these parameters with the member's own overrides,
-- the priority that the request has and the next version; where the request has none of a kind the old one stays.
-- Of the group and its members nothing else changes but who wrote them last, and every other rule and every other
-- group is left as it was.
pub update_group-GroupUpdated :
    (rt : Runtime) (col : Collation) (gid : String) (request : GroupUpdate) (db : Db)
    (p : Plan GroupRow)
    → unique_by same_id db.rules ≡ true
    → plan_update_group rt col gid request db ≡ ok p
    → GroupUpdated gid request db p
update_group-GroupUpdated rt col gid request db p ids h =
    let w = update_group-GroupWritten rt col gid request db p ids h in
    let params = or_else request.params w.group.params in
    record {
      group = w.group;
      found = w.found;
      groups =
          w.groups
          ∙ ap (λ (f : GroupRow → GroupRow). map (λ k. if k.id == gid then f k else k) db.groups)
              (λ i k. assign_group-changed request k i);
      rules =
          w.rules
          ∙ ap (λ (f : RuleRow → RuleRow). map (λ r. if in_group gid r then f r else r) db.rules)
              (λ i r. assign_member-changed request params r i);
      result = w.result ∙ assign_group-changed request w.group;
    }
