-- ===== src/RuleService/Updates.antt =====
-- What an accepted update of a rule does to the table.
use distributed_rate_limiter.Params.{Runtime}
use distributed_rate_limiter.RuleService.{RuleUpdate, assign, plan_update_rule}
use distributed_rate_limiter.RuleService.Plans.{update_plan, check_update-Allowed}
use distributed_rate_limiter.Store.{Db, RuleRow, Plan, get_rule_by_id, set_rule}
use distributed_rate_limiter.Store.Rows.{find-set_same, find-set_other}
use distributed_rate_limiter.Prelude.{
  ℕ, ◌+◌, String, ◌≡◌, refl, sym, ap, ◌∙◌, false, some, arith, ◌==◌, nat_eq, string_eq, ok,
}

pub record Updated (id : String) (request : RuleUpdate) (db : Db) (p : Plan RuleRow) : Type 0 where
  pub before : RuleRow
  pub found : get_rule_by_id id db ≡ some before
  pub expected : (v : ℕ) → request.expected_version ≡ some v → v ≡ before.version
  pub next_version : p.result.version ≡ before.version + 1
  pub same_scope :
      (p.result.client_id ≡ before.client_id)
      × (p.result.endpoint ≡ before.endpoint)
      × (p.result.identifier_signature ≡ before.identifier_signature)
  pub stored : get_rule_by_id id (p.writes db) ≡ some p.result
  pub others :
      (j : String) → (j == id) ≡ false → get_rule_by_id j (p.writes db) ≡ get_rule_by_id j db

-- An accepted update has found its rule at the version that the request expects, if it expects one; the rule
-- that it returns has the next version and the same client, endpoint and signature, and is the one that is then
-- stored under the id, while every other rule is as it was.
pub update_rule-Updated :
    (rt : Runtime) (id : String) (request : RuleUpdate) (db : Db) (p : Plan RuleRow)
    → plan_update_rule rt id request db ≡ ok p
    → Updated id request db p
unfolding get_rule_by_id set_rule assign
update_rule-Updated rt id request db p h =
    let u = update_plan rt id request db p h in
    let f = assign u.rule request u.new_params in
    let writes : p.writes db ≡ set_rule id f db = ap (λ w. w db) u.writes in
    record {
      before = u.rule;
      found = u.found;
      expected = (check_update-Allowed id u.rule request u.allowed).version_ok;
      next_version = ap (λ (r : RuleRow). r.version) u.result;
      same_scope = (
        ap (λ (r : RuleRow). r.client_id) u.result,
        ap (λ (r : RuleRow). r.endpoint) u.result,
        ap (λ (r : RuleRow). r.identifier_signature) u.result,
      );
      stored =
          ap (λ d. get_rule_by_id id d) writes
          ∙ find-set_same (λ (r : RuleRow). r.id == id) f db.rules u.rule (λ r. refl) u.found
          ∙ ap some (sym u.result);
      others = λ j other.
          ap (λ d. get_rule_by_id j d) writes
          ∙ find-set_other (λ (r : RuleRow). r.id == j) (λ (r : RuleRow). r.id == id) f db.rules
              (λ r. refl)
              (λ r same. ground (
                arith,
                string_eq.equals_iff r.id id,
                string_eq.equals_iff r.id j,
                string_eq.equals_iff j id,
              ));
    }
