-- ===== src/RuleService/Plans.antt =====
-- What an accepted plan of the rule service consists of.
use distributed_rate_limiter.Errors.{Error}
use distributed_rate_limiter.Params.{Params, Runtime}
use distributed_rate_limiter.RuleService.{
  RuleUpdate, or_else, or_raise, get_rule, check_update, new_params_of, check_scope, assign,
  plan_update_rule,
}
use distributed_rate_limiter.Store.{Db, RuleRow, Plan, is_some, get_rule_by_id, set_rule}
use distributed_rate_limiter.Prelude.{
  ℕ, String, ◌≡◌, sym, true, false, Option, none, some, arith, nat_eq, string_eq, ok, >>=-eq-ok,
  ok-injective,
}

pub or_raise-eq-ok {ℓ} :
    {A : Type ℓ} (o : Option A) (e : Error) {a : A} → or_raise o e ≡ ok a → o ≡ some a
or_raise-eq-ok none e h = cc
or_raise-eq-ok (some b) e h = cc

pub record UpdatePlan (rt : Runtime) (id : String) (request : RuleUpdate) (db : Db)
    (p : Plan RuleRow) : Type 0 where
  pub rule : RuleRow
  pub new_params : Option Params
  pub found : get_rule_by_id id db ≡ some rule
  pub allowed : check_update id rule request ≡ ok tt
  pub computed : new_params_of rt rule request db ≡ ok new_params
  pub free : check_scope rule (or_else request.status rule.status) db ≡ ok tt
  pub writes : p.writes ≡ set_rule id (assign rule request new_params)
  pub result : p.result ≡ assign rule request new_params rule

pub update_plan :
    (rt : Runtime) (id : String) (request : RuleUpdate) (db : Db) (p : Plan RuleRow)
    → plan_update_rule rt id request db ≡ ok p
    → UpdatePlan rt id request db p
unfolding plan_update_rule
update_plan rt id request db p h =
    let (rule, found, h₁) = >>=-eq-ok (get_rule id db) _ h in
    let (u, allowed, h₂) = >>=-eq-ok (check_update id rule request) _ h₁ in
    let (new_params, computed, h₃) = >>=-eq-ok (new_params_of rt rule request db) _ h₂ in
    let (v, free, h₄) = >>=-eq-ok (check_scope rule (or_else request.status rule.status) db) _ h₃ in
    let same = ok-injective h₄ in
    record {
      rule = rule;
      new_params = new_params;
      found = unfold get_rule in or_raise-eq-ok (get_rule_by_id id db) _ found;
      allowed = allowed;
      computed = computed;
      free = free;
      writes = λ i. (sym same i).writes;
      result = λ i. (sym same i).result;
    }

-- The guards that an accepted update has passed.
pub record Allowed (rule : RuleRow) (request : RuleUpdate) : Type 0 where
  pub version_ok : (v : ℕ) → request.expected_version ≡ some v → v ≡ rule.version
  pub not_managed :
      is_some rule.group_id ≡ true
      → (request.algorithm_id ≡ none) × (request.params ≡ none) × (request.priority ≡ none)
  pub no_overrides : is_some rule.group_id ≡ false → request.overrides ≡ none

pub check_update-Allowed :
    (id : String) (rule : RuleRow) (request : RuleUpdate)
    → check_update id rule request ≡ ok tt
    → Allowed rule request
unfolding check_update
check_update-Allowed id rule request h = record {
  version_ok = λ v e. ground (arith, nat_eq.equals_iff v rule.version);
  not_managed = λ g. (ground arith, ground arith, ground arith);
  no_overrides = λ g. ground arith;
}
