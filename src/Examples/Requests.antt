-- ===== src/Examples/Requests.antt =====
-- Tests and examples of the service.
use distributed_rate_limiter.RulesCache.{
  add_rule, sort_candidates, add_rules, load_all, is_usable, candidates_at, init, engine_types,
  sort_key_lt, get_candidates, get_global,
}
use distributed_rate_limiter.Service.{
  build_limiter_for_rule, project, is_current, resolve_rule, scan, or_global, choose, decide_limit,
}
use distributed_rate_limiter.Prelude.Dict
use distributed_rate_limiter.Limiter.{check, create, RateLimitResult, Limiter}
use distributed_rate_limiter.Params.{build_algorithm_config, Value, token_bucket, caught}
use distributed_rate_limiter.Prelude.Sort.{sort}
use distributed_rate_limiter.Examples.{
  to_millis, by_user, for_all, rules, loaded, nothing_warned, service, identifiers, answers,
}
use distributed_rate_limiter.Errors.{PyError}
use distributed_rate_limiter.Identifier.{user_id, region}
use distributed_rate_limiter.Identifier.Sets.{subset}
use distributed_rate_limiter.Prelude.Int.{ℤ, pos, negsuc}
use distributed_rate_limiter.RulesCache.Index.{is_candidate}
use distributed_rate_limiter.Service.Resolve.{
  matches, BelongsTo, rule-resolve_rule, resolve_rule-BelongsTo,
}
use distributed_rate_limiter.RulesCache.Resolution.{Precedes}
use distributed_rate_limiter.Service.Specific.{resolve_rule-least, resolve_rule-fallback}
use distributed_rate_limiter.Service.Warnings.{unwarned, resolve_rule-quiet, resolve_rule-fresh}
use distributed_rate_limiter.Service.Decision.{IsUnreachable, call_of, decide_limit-degraded_iff}
use distributed_rate_limiter.Prelude.{
  ◌≡◌, refl, ◌↔◌, true, false, none, some, [], ◌∷◌, nat_eq, string_eq, pair_eq, list_eq, find, All,
  Result, ok, raise,
}

rule-resolve_rule_example :
    (resolve_rule (some loaded) "c1" "/pay" (user_id ∷ []) nothing_warned).rule
    ≡ or_global
        (find (matches (user_id ∷ [])) (get_candidates "c1" "/pay" loaded))
        (get_global "c1" "/pay" loaded)
rule-resolve_rule_example = rule-resolve_rule loaded "c1" "/pay" (user_id ∷ []) nothing_warned

resolve_by_user :
    (resolve_rule (some loaded) "c1" "/pay" (user_id ∷ []) nothing_warned).rule ≡ some by_user
unfolding resolve_rule scan get_candidates candidates_at Dict.get load_all sort_candidates add_rules
    is_usable add_rule Dict.insert sort sort_key_lt subset
resolve_by_user = refl

resolve_global :
    (resolve_rule (some loaded) "c1" "/pay" (region ∷ []) nothing_warned).rule ≡ some for_all
unfolding resolve_rule scan get_candidates candidates_at Dict.get load_all sort_candidates add_rules
    is_usable add_rule Dict.insert sort sort_key_lt subset get_global
resolve_global = refl

resolve_rule-BelongsTo_example : BelongsTo "c1" "/pay" by_user
resolve_rule-BelongsTo_example =
    resolve_rule-BelongsTo 0 rules init "c1" "/pay" (user_id ∷ []) nothing_warned by_user
      resolve_by_user

resolve_rule-least_example :
    (subset (engine_types by_user) (user_id ∷ []) ≡ true)
    × All
        (λ q.
          is_candidate ("c1", "/pay") q ≡ true
          → subset (engine_types q) (user_id ∷ []) ≡ true
          → Precedes by_user q)
        rules
resolve_rule-least_example =
    resolve_rule-least 0 rules init "c1" "/pay" (user_id ∷ []) nothing_warned by_user
      resolve_by_user refl

resolve_rule-fallback_example :
    All
      (λ q. is_candidate ("c1", "/pay") q ≡ true → subset (engine_types q) (region ∷ []) ≡ false)
      rules
resolve_rule-fallback_example =
    resolve_rule-fallback 0 rules init "c1" "/pay" (region ∷ []) nothing_warned for_all
      resolve_global refl

resolve_rule-quiet_example :
    (resolve_rule
      (some loaded)
      "c1"
      "/pay"
      (user_id ∷ [])
      (resolve_rule (some loaded) "c1" "/pay" (user_id ∷ []) nothing_warned).warned).logged
    ≡ []
resolve_rule-quiet_example = resolve_rule-quiet loaded "c1" "/pay" (user_id ∷ []) nothing_warned

not_current : is_current loaded.generation nothing_warned.generation ≡ false
not_current = refl

resolve_rule-fresh_example :
    (resolve_rule
      (some (load_all 1 rules loaded))
      "c1"
      "/pay"
      (region ∷ [])
      (resolve_rule (some loaded) "c1" "/pay" (region ∷ []) nothing_warned).warned).logged
    ≡ (resolve_rule (some (load_all 1 rules loaded)) "c1" "/pay" (region ∷ []) unwarned).logged
resolve_rule-fresh_example =
    resolve_rule-fresh 1 rules loaded "c1" "/pay" (region ∷ []) nothing_warned "c1" "/pay"
      (region ∷ [])

abbrev bucket_of_user : Limiter
bucket_of_user = record { config = token_bucket (pos 10) 2; scope = "rule:r1" }

choose_bucket : choose service "c1" (some by_user) identifiers ≡ ok (bucket_of_user, identifiers)
unfolding choose build_limiter_for_rule build_algorithm_config Dict.get create project
choose_bucket = refl

abbrev allowed_result : RateLimitResult
allowed_result = record {
  allowed = true;
  limit = pos 10;
  remaining = pos 9;
  retry_after_ms = none;
  reset_at_ms = some (pos 500);
  degraded = false;
}

decide_bucket :
    decide_limit service answers "q1" "c1" (some by_user) identifiers ≡ ok allowed_result
unfolding decide_limit build_limiter_for_rule build_algorithm_config Dict.get create check
decide_bucket = refl

decide_limit-degraded_iff_example :
    (allowed_result.degraded ≡ true)
    ↔ IsUnreachable (
        answers
          (call_of service answers "q1" "c1" (some by_user) identifiers bucket_of_user identifiers))
decide_limit-degraded_iff_example =
    decide_limit-degraded_iff service answers "q1" "c1" (some by_user) identifiers bucket_of_user
      identifiers allowed_result choose_bucket decide_bucket

type_error_caught :
    (e : PyError)
    → ◌≡◌ {A = Result PyError ℤ} (raise PyError.type_error) (raise e)
    → caught e ≡ true
unfolding caught
type_error_caught (PyError.overflow_error) h = cc
type_error_caught (PyError.runtime_error) h = cc
type_error_caught (PyError.data_error) h = cc
type_error_caught (PyError.response_error) h = cc
type_error_caught (PyError.redis_error) h = cc
type_error_caught (PyError.attribute_error) h = cc
type_error_caught _ h = refl

pub millis-IsCaught : (v : Value) (e : PyError) → to_millis v ≡ raise e → caught e ≡ true
unfolding caught
millis-IsCaught (Value.int (pos n)) e h = cc
millis-IsCaught (Value.int (negsuc n)) e h = type_error_caught e h
millis-IsCaught (Value.float n) e h = cc
millis-IsCaught _ e h = type_error_caught e h
