-- ===== src/Examples/Polls.antt =====
-- Tests and examples of the rules loader, and of the rules that limit a request after a poll.
use distributed_rate_limiter.Examples.Groups.{
  db, merged, as_written, db-is_consistent, db-IsGoverned,
}
use distributed_rate_limiter.Admin.{delete_rule, handle_all}
use distributed_rate_limiter.Admin.Enforced.{resolve_rule-Governed}
use distributed_rate_limiter.Examples.{runtime, nothing_warned, by_user}
use distributed_rate_limiter.Auth.Issue.{Has}
use distributed_rate_limiter.Identifier.{user_id}
use distributed_rate_limiter.Identifier.RuleTypes
use distributed_rate_limiter.Identifier.Sets.{frozenset, subset}
use distributed_rate_limiter.Prelude.Dict
use distributed_rate_limiter.Prelude.Int.{pos}
use distributed_rate_limiter.Prelude.Sort.{sort}
use distributed_rate_limiter.RuleService.{plan_delete_rule}
use distributed_rate_limiter.RulesCache.{
  Rule, get_candidates, candidates_at, sort_candidates, add_rules, is_usable, add_rule, init,
  load_all,
}
use distributed_rate_limiter.RulesLoader.{load_rules_into_cache}
use distributed_rate_limiter.RulesLoader.Polled.{Limits, resolve_rule-Limits}
use distributed_rate_limiter.Service.{resolve_rule, scan}
use distributed_rate_limiter.Store.{
  is_storable, remove_rule, run, is_consistent, get_rule_by_id, get_algorithm_by_id,
}
use distributed_rate_limiter.Store.Governed.{Governed}
use distributed_rate_limiter.Prelude.{◌≡◌, refl, some, List, [], ◌∷◌, nat_eq, string_eq, ok}

abbrev pub cached_rules : List Rule
cached_rules =
    record by_user { params = merged; priority = pos 100 }
    ∷ record by_user { id = "r2"; endpoint = "/read"; priority = pos 100 }
    ∷ []

load_db : load_rules_into_cache 0 db init ≡ ok (load_all 0 cached_rules init)
unfolding load_rules_into_cache get_algorithm_by_id RuleTypes.rule_to_engine_identifier_type
    frozenset
load_db = refl

resolve_paying :
    (resolve_rule
      (some (load_all 0 cached_rules init))
      "c1"
      "/pay"
      (user_id ∷ [])
      nothing_warned).rule
    ≡ some (record by_user { params = merged; priority = pos 100 })
unfolding resolve_rule scan get_candidates candidates_at Dict.get load_all sort_candidates add_rules
    is_usable add_rule Dict.insert sort subset
resolve_paying = refl

resolve_rule-Limits_example :
    Has (Limits "c1" "/pay" (record by_user { params = merged; priority = pos 100 })) db.rules
resolve_rule-Limits_example =
    resolve_rule-Limits 0 db init (load_all 0 cached_rules init) "c1" "/pay" (user_id ∷ [])
      nothing_warned (record by_user { params = merged; priority = pos 100 }) load_db resolve_paying

abbrev after_deletion : List Rule
after_deletion = record by_user { params = merged; priority = pos 100 } ∷ []

load_later :
    load_rules_into_cache 0 (handle_all runtime as_written (delete_rule "r2" ∷ []) db) init
    ≡ ok (load_all 0 after_deletion init)
unfolding load_rules_into_cache handle_all run is_storable plan_delete_rule get_rule_by_id
    is_consistent remove_rule get_algorithm_by_id RuleTypes.rule_to_engine_identifier_type frozenset
load_later = refl

resolve_later :
    (resolve_rule
      (some (load_all 0 after_deletion init))
      "c1"
      "/pay"
      (user_id ∷ [])
      nothing_warned).rule
    ≡ some (record by_user { params = merged; priority = pos 100 })
unfolding resolve_rule scan get_candidates candidates_at Dict.get load_all sort_candidates add_rules
    is_usable add_rule Dict.insert sort subset
resolve_later = refl

resolve_rule-Governed_example :
    Has
      (λ row.
        Limits "c1" "/pay" (record by_user { params = merged; priority = pos 100 }) row
        × Governed (handle_all runtime as_written (delete_rule "r2" ∷ []) db).groups row)
      (handle_all runtime as_written (delete_rule "r2" ∷ []) db).rules
resolve_rule-Governed_example =
    resolve_rule-Governed runtime as_written (delete_rule "r2" ∷ []) db 0 init
      (load_all 0 after_deletion init) "c1" "/pay" (user_id ∷ []) nothing_warned
      (record by_user { params = merged; priority = pos 100 }) (db-is_consistent, db-IsGoverned)
      load_later resolve_later
