-- ===== src/Service.antt =====
-- services/rate_limiter_service.py: from a check request to a decision.
pub mod Resolve
pub mod Specific
pub mod Warnings
pub mod Decision
pub mod FailOpen
use distributed_rate_limiter.Errors.{Error, PyError, uncaught, invalid_identifier_value}
use distributed_rate_limiter.Identifier.{identifier_eq}
use distributed_rate_limiter.Identifier.Sets.{Types, frozenset, subset, difference}
use distributed_rate_limiter.Limiter.{
  RateLimitResult, Call, Reply, Outage, connection, timeout, response, Limiter, create, check,
  Hasher, Pair, build_client_identifier, identifier_key,
}
use distributed_rate_limiter.Params.{Runtime, AlgorithmConfig, build_algorithm_config, caught}
use distributed_rate_limiter.Prelude.Int.{negsuc}
use distributed_rate_limiter.RulesCache.{Rule, Cache, engine_types, get_candidates, get_global}
use distributed_rate_limiter.Validation.{Parsers, validate_and_normalize}
use distributed_rate_limiter.Prelude.{
  ℕ, ◌+◌, String, ◌⧺◌, Bool, true, false, Option, none, some, List, [], ◌∷◌, map, if◌then◌else◌,
  ◌==◌, nat_eq, string_eq, pair_eq, list_eq, keep, contains, Result, ok, raise, ◌>>=◌, ◌>>◌,
}

-- `_warned_missing_component` as a list, and the generation that it belongs to (-1 is `none`).
pub record Warned : Type 0 where
  pub pairs : List (String × Types)
  pub generation : Option ℕ

abbrev pub is_current : ℕ → Option ℕ → Bool
is_current g none = false
is_current g (some n) = g == n

unfoldable pub reset_if_new_generation : ℕ → Warned → Warned
reset_if_new_generation g w =
    if is_current g w.generation then w else record { pairs = []; generation = some g }

-- A warning: a rule, and the types of it that the request lacks. Sets of types are kept in one
-- order, so equal sets are equal lists.
abbrev pub Missing : Type 0
Missing = String × Types

pub record Scan : Type 0 where
  pub found : Option Rule
  pub warned : List Missing
  -- The warnings logged by this scan.
  pub logged : List Missing

abbrev pub missing : Types → Rule → Missing
missing provided r = (r.id, difference (engine_types r) provided)

-- `_warned_missing_component.add`, and the log of what was not in it.
unfoldable pub note : Missing → List Missing → List Missing
note m warned = if contains warned m then warned else m ∷ warned

unfoldable pub log_new : Missing → List Missing → List Missing → List Missing
log_new m warned logged = if contains warned m then logged else m ∷ logged

-- The loop of `_resolve_rule` over the candidates.
unfoldable pub scan : Types → List Rule → List Missing → Scan
scan provided [] warned = record { found = none; warned = warned; logged = [] }
scan provided (r ∷ rs) warned =
    let rest = scan provided rs (note (missing provided r) warned) in
    if subset (engine_types r) provided
    then record { found = some r; warned = warned; logged = [] }
    else record rest { logged = log_new (missing provided r) warned rest.logged }

pub record Resolution : Type 0 where
  pub rule : Option Rule
  pub warned : Warned
  pub logged : List Missing

unfoldable pub or_global : Option Rule → Option Rule → Option Rule
or_global (some r) global = some r
or_global none global = global

unfoldable pub resolve_rule : Option Cache → String → String → Types → Warned → Resolution
unfolding or_global reset_if_new_generation
resolve_rule none client_pk endpoint provided w = record { rule = none; warned = w; logged = [] }
resolve_rule (some c) client_pk endpoint provided w =
    let w' = reset_if_new_generation c.generation w in
    let s = scan provided (get_candidates client_pk endpoint c) w'.pairs in
    record {
      rule = or_global s.found (get_global client_pk endpoint c);
      warned = record w' { pairs = s.warned };
      logged = s.logged;
    }

-- dto/rate_limit_check_request.py
pub record CheckRequest : Type 0 where
  pub endpoint : String
  pub identifiers : List Pair

-- The fields of the service, and the parameters of the model.
pub record Env : Type 0 where
  pub default_config : AlgorithmConfig
  pub rules_cache : Option Cache
  pub hasher : Hasher
  pub runtime : Runtime
  pub parsers : Parsers
  pub registered : List String

-- `except InvalidIdentifierValue as exc: raise InvalidIdentifierValue(…, index=index)`
unfoldable pub with_index : ℕ → Error → Error
with_index i (invalid_identifier_value t reason _) = invalid_identifier_value t reason (some i)
with_index i e = e

unfoldable pub at_index {ℓ} : {A : Type ℓ} → ℕ → Result Error A → Result Error A
unfolding with_index
at_index i (ok a) = ok a
at_index i (raise e) = raise (with_index i e)

unfoldable pub validate_pairs : Parsers → ℕ → List Pair → Result Error (List Pair)
validate_pairs py i [] = ok []
validate_pairs py i ((t, raw) ∷ pairs) = do
  normalized ← at_index i (validate_and_normalize py t raw)
  rest ← validate_pairs py (i + 1) pairs
  ok ((t, normalized) ∷ rest)

-- The pairs that make the key: those of the rule's types, or all for a global rule.
unfoldable pub project : Rule → List Pair → List Pair
project r pairs = if r.is_global then pairs else keep (λ p. contains (engine_types r) p.0) pairs

abbrev pub degraded_result : RateLimitResult
degraded_result = record {
  allowed = true;
  limit = negsuc 0;
  remaining = negsuc 0;
  retry_after_ms = none;
  reset_at_ms = none;
  degraded = true;
}

-- The policy on failures of Redis.
unfoldable pub fail_open : Result Outage RateLimitResult → Result Error RateLimitResult
fail_open (ok result) = ok result
fail_open (raise connection) = ok degraded_result
fail_open (raise timeout) = ok degraded_result
fail_open (raise response) = raise (uncaught PyError.response_error)

module _ (env : Env) where
  unfoldable pub limiter_of_config :
      Rule → Result PyError AlgorithmConfig → Result Error (Option Limiter)
  limiter_of_config r (ok config) = do
    l ← create env.registered config ("rule:" ⧺ r.id)
    ok (some l)
  limiter_of_config r (raise e) = if caught e then ok none else raise (uncaught e)

  unfoldable pub build_limiter_for_rule : Rule → Result Error (Option Limiter)
  unfolding limiter_of_config
  build_limiter_for_rule r =
      limiter_of_config r (build_algorithm_config env.runtime r.algorithm_name r.params)

  unfoldable pub build_default_limiter : String → Result Error Limiter
  build_default_limiter client_pk =
      create env.registered env.default_config ("client:" ⧺ (client_pk ⧺ ":__default__"))

  unfoldable pub with_default :
      String → Rule → List Pair → Option Limiter → Result Error (Limiter × List Pair)
  with_default client_pk r pairs (some l) = ok (l, project r pairs)
  with_default client_pk r pairs none = do l ← build_default_limiter client_pk; ok (l, pairs)

  -- The limiter to check against, and the pairs of its key.
  unfoldable pub choose : String → Option Rule → List Pair → Result Error (Limiter × List Pair)
  unfolding with_default
  choose client_pk none pairs = do l ← build_default_limiter client_pk; ok (l, pairs)
  choose client_pk (some r) pairs = do
    built ← build_limiter_for_rule r
    with_default client_pk r pairs built

  unfoldable pub decide_limit :
      (Call → Reply) → String → String → Option Rule → List Pair → Result Error RateLimitResult
  unfolding choose fail_open
  decide_limit redis request_id client_pk matched pairs = do
    (l, projected) ← choose client_pk matched pairs
    let key = identifier_key (build_client_identifier env.hasher projected)
    fail_open (check redis l key request_id)

  -- Behind the validation: the result, and the warnings remembered.
  unfoldable pub check_validated :
      (Call → Reply)
      → String
      → String
      → String
      → Warned
      → Result Error (List Pair)
      → Result Error RateLimitResult × Warned
  unfolding decide_limit resolve_rule
  check_validated redis request_id client_pk endpoint w (raise e) = (raise e, w)
  check_validated redis request_id client_pk endpoint w (ok pairs) =
      let provided = frozenset (map (λ p. p.0) pairs) in
      let res = resolve_rule env.rules_cache client_pk endpoint provided w in
      (decide_limit redis request_id client_pk res.rule pairs, res.warned)

  unfoldable pub check_rate_limit :
      (Call → Reply)
      → String
      → String
      → CheckRequest
      → Warned
      → Result Error RateLimitResult × Warned
  unfolding check_validated validate_pairs
  check_rate_limit redis request_id client_pk payload w =
      check_validated redis request_id client_pk payload.endpoint w
        (validate_pairs env.parsers 0 payload.identifiers)
