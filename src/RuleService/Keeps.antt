-- ===== src/RuleService/Keeps.antt =====
-- The rule service keeps the invariant of groups.
use distributed_rate_limiter.Errors.{PyError, uncaught}
use distributed_rate_limiter.Params.{Params, Runtime}
use distributed_rate_limiter.Params.Merge.{validate_overrides-Merged}
use distributed_rate_limiter.Params.Overrides.{
  compute_effective_params, validate_overrides_or_raise,
}
use distributed_rate_limiter.RuleService.{
  RuleUpdate, RuleCreate, or_raise, algorithm_of, get_rule, grouped_params, new_params_of, assign,
  plan_create_rule, plan_update_rule, plan_delete_rule, resolve_client_or_raise,
  validate_params_or_raise, normalized_identifier_types,
}
use distributed_rate_limiter.RuleService.Plans.{
  or_raise-eq-ok, update_plan, Allowed, check_update-Allowed,
}
use distributed_rate_limiter.Store.{
  Db, GroupRow, RuleRow, Plan, same_id, unique_by, get_rule_by_id, get_group_by_id, set_rule,
  add_rule, remove_rule,
}
use distributed_rate_limiter.Store.Governed.{IsMember, GovernedBy, OfGroup, Governed, IsGoverned}
use distributed_rate_limiter.Store.Rows.{of_find, All-set_row, All-append}
use distributed_rate_limiter.Prelude.{
  String, ◌≡◌, refl, sym, ap, ◌∙◌, subst, ◌⊎◌, inl, inr, true, not, Option, none, some, [], ◌∷◌,
  ◌==◌, nat_eq, string_eq, find, ok, >>=-eq-ok, ok-injective, All-map-keep,
}

-- What a change of parameters does to a member.
grouped_params-merged :
    (rt : Runtime) (gid : String) (overrides new_params : Option Params) (db : Db) (g : GroupRow)
    → get_group_by_id gid db ≡ some g
    → grouped_params rt gid overrides db ≡ ok new_params
    → ((overrides ≡ none) × (new_params ≡ none))
      ⊎ ((o : Params) × (overrides ≡ some o)
          × (new_params ≡ some (compute_effective_params g.params o)))
unfolding grouped_params
grouped_params-merged rt gid none new_params db g found h = inl (refl, sym (ok-injective h))
grouped_params-merged rt gid (some o) new_params db g found h =
    let (g', found', h₁) =
      >>=-eq-ok (or_raise (get_group_by_id gid db) (uncaught PyError.attribute_error)) _ h in
    let (a, loaded, h₂) = >>=-eq-ok (algorithm_of g' db) _ h₁ in
    let (merged, valid, h₃) = >>=-eq-ok (validate_overrides_or_raise rt a.name g'.params o) _ h₂ in
    let same : g' ≡ g = cc (or_raise-eq-ok _ _ found', found) in
    let effective = (validate_overrides-Merged rt a.name g'.params o merged valid).effective in
    inr (
      o,
      refl,
      sym (ok-injective h₃)
          ∙ ap some (effective ∙ ap (λ (k : GroupRow). compute_effective_params k.params o) same),
    )

-- The assignments to a rule that is the member of a group.
assign-IsMember :
    (rt : Runtime) (gid : String) (rule : RuleRow) (request : RuleUpdate)
    (new_params : Option Params) (db : Db) (g : GroupRow)
    → rule.group_id ≡ some gid
    → Allowed rule request
    → get_group_by_id gid db ≡ some g
    → grouped_params rt gid request.overrides db ≡ ok new_params
    → IsMember g rule
    → IsMember g (assign rule request new_params rule)
unfolding assign
assign-IsMember rt gid rule request new_params db g e allowed found computed m =
    elim (grouped_params-merged rt gid request.overrides new_params db g found computed) [
      | inl (kept, same) ↦ record {
        client = m.client;
        algorithm = rw e m.algorithm;
        types = m.types;
        signature = m.signature;
        priority = rw e m.priority;
        own = m.own;
        has_own = rw (e, kept) m.has_own;
        merged = rw same m.merged;
      }
      | inr (o, given, new) ↦ record {
        client = m.client;
        algorithm = rw e m.algorithm;
        types = m.types;
        signature = m.signature;
        priority = rw e m.priority;
        own = o;
        has_own = rw (e, given) refl;
        merged = rw new refl;
      }
    ]

assign-OfGroup :
    (rt : Runtime) (gid : String) (rule : RuleRow) (request : RuleUpdate)
    (new_params : Option Params) (db : Db) (o : Option GroupRow)
    → rule.group_id ≡ some gid
    → Allowed rule request
    → get_group_by_id gid db ≡ o
    → grouped_params rt gid request.overrides db ≡ ok new_params
    → OfGroup o rule
    → OfGroup o (assign rule request new_params rule)
assign-OfGroup rt gid rule request new_params db none e allowed found computed m = m
assign-OfGroup rt gid rule request new_params db (some g) e allowed found computed m =
    assign-IsMember rt gid rule request new_params db g e allowed found computed m

assign-GovernedBy :
    (rt : Runtime) (rule : RuleRow) (request : RuleUpdate) (new_params : Option Params) (db : Db)
    (o : Option String)
    → rule.group_id ≡ o
    → Allowed rule request
    → new_params_of rt rule request db ≡ ok new_params
    → GovernedBy db.groups o rule
    → GovernedBy db.groups o (assign rule request new_params rule)
unfolding new_params_of assign get_group_by_id
assign-GovernedBy rt rule request new_params db none e allowed computed governed = rw e governed
assign-GovernedBy rt rule request new_params db (some gid) e allowed computed governed =
    assign-OfGroup rt gid rule request new_params db (find (λ g. g.id == gid) db.groups) e allowed
      refl (rw e at computed) governed

-- An accepted update of a rule keeps every rule governed, where no other request writes meanwhile.
pub update_rule-IsGoverned :
    (rt : Runtime) (id : String) (request : RuleUpdate) (db : Db) (p : Plan RuleRow)
    → unique_by same_id db.rules ≡ true
    → IsGoverned db
    → plan_update_rule rt id request db ≡ ok p
    → IsGoverned (p.writes db)
unfolding get_rule_by_id set_rule
update_rule-IsGoverned rt id request db p ids governed h =
    let u = update_plan rt id request db p h in
    let (at_rule, e) =
      of_find (Governed db.groups) (λ r. r.id == id) db.rules u.rule governed u.found in
    subst (λ w. IsGoverned (w db)) (sym u.writes)
      (All-set_row (Governed db.groups) (assign u.rule request u.new_params) id db.rules u.rule ids
        u.found governed
        (unfold assign in
          assign-GovernedBy rt u.rule request u.new_params db u.rule.group_id refl
            (check_update-Allowed id u.rule request u.allowed) u.computed at_rule))

pub create_rule-IsGoverned :
    (rt : Runtime) (new_id : String) (request : RuleCreate) (db : Db) (p : Plan RuleRow)
    → IsGoverned db
    → plan_create_rule rt new_id request db ≡ ok p
    → IsGoverned (p.writes db)
unfolding plan_create_rule add_rule
create_rule-IsGoverned rt new_id request db p governed h =
    let (client, found, h₁) = >>=-eq-ok (resolve_client_or_raise request.client_id db) _ h in
    let (u, valid, h₂) =
      >>=-eq-ok (validate_params_or_raise rt request.algorithm_id request.params db) _ h₁ in
    let (types, normal, h₃) =
      >>=-eq-ok (normalized_identifier_types request.identifier_types) _ h₂ in
    subst (λ (q : Plan RuleRow). IsGoverned (q.writes db)) (ok-injective h₃)
      (All-append (Governed db.groups) db.rules (_ ∷ []) governed (refl, tt))

pub delete_rule-IsGoverned :
    (id : String) (db : Db) (p : Plan (Unit {0}))
    → IsGoverned db
    → plan_delete_rule id db ≡ ok p
    → IsGoverned (p.writes db)
unfolding plan_delete_rule remove_rule
delete_rule-IsGoverned id db p governed h =
    let (rule, found, h₁) = >>=-eq-ok (get_rule id db) _ h in
    subst (λ (q : Plan Unit). IsGoverned (q.writes db)) (ok-injective h₁)
      (All-map-keep (Governed db.groups) (λ r. not (r.id == id)) db.rules governed)
