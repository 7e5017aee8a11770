-- ===== src/Service/Decision.antt =====
-- The decision of `check_rate_limit`: the limiter, its key, and the policy on failures of Redis.
use distributed_rate_limiter.Limiter.{
  RateLimitResult, Call, Reply, values, connection_error, timeout_error, script_error, Limiter,
  check, read_reply, limiter_call, Pair, build_client_identifier, identifier_key,
}
use distributed_rate_limiter.RulesCache.{Rule}
use distributed_rate_limiter.Service.{Env, choose, fail_open, decide_limit}
use distributed_rate_limiter.Prelude.{
  String, ◌≡◌, sym, ap, ◌↔◌, true, false, Option, List, nat_eq, string_eq, pair_eq, list_eq, ok,
  ok-injective,
}

-- Redis could not be reached.
abbrev pub IsUnreachable : Reply → Type 0
IsUnreachable connection_error = Unit
IsUnreachable timeout_error = Unit
IsUnreachable _ = ⊥

degraded_of_reply :
    (reply : Reply) (result : RateLimitResult)
    → fail_open (read_reply reply) ≡ ok result
    → (result.degraded ≡ true) ↔ IsUnreachable reply
unfolding fail_open read_reply
degraded_of_reply (values a b c d e) result h = (
  λ t. let f : false ≡ result.degraded = ap (λ r. r.degraded) (ok-injective h) in cc,
  λ u. absurd u,
)
degraded_of_reply connection_error result h =
    (λ t. tt, λ u. sym (ap (λ r. r.degraded) (ok-injective h)))
degraded_of_reply timeout_error result h =
    (λ t. tt, λ u. sym (ap (λ r. r.degraded) (ok-injective h)))
degraded_of_reply script_error result h = cc

module _ (env : Env) (redis : Call → Reply) (request_id client_pk : String) (matched : Option Rule)
    (pairs : List Pair) where
  -- The call that a decision makes, once a limiter and the pairs of its key are chosen.
  abbrev pub call_of : Limiter → List Pair → Call
  call_of l projected =
      limiter_call l (identifier_key (build_client_identifier env.hasher projected)) request_id

  -- A result is marked `degraded` exactly where Redis could not be reached by the one call that the
  -- decision makes, on the key of the chosen limiter and pairs.
  pub decide_limit-degraded_iff :
      (l : Limiter) (projected : List Pair) (result : RateLimitResult)
      → choose env client_pk matched pairs ≡ ok (l, projected)
      → decide_limit env redis request_id client_pk matched pairs ≡ ok result
      → (result.degraded ≡ true) ↔ IsUnreachable (redis (call_of l projected))
  unfolding decide_limit check
  decide_limit-degraded_iff l projected result chosen h =
      degraded_of_reply (redis (call_of l projected)) result (rw (chosen, decide_limit) at h)
