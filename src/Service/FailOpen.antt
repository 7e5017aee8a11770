-- ===== src/Service/FailOpen.antt =====
-- While Redis cannot be reached every valid request is let through, whatever the rules hold.
use distributed_rate_limiter.Errors.{PyError, value_error}
use distributed_rate_limiter.Limiter.{
  Call, Reply, connection_error, timeout_error, Limiter, create, check, read_reply, script_name,
  Pair,
}
use distributed_rate_limiter.Params.{
  Value, Params, Runtime, AlgorithmConfig, token_bucket, fixed_window, sliding_window_log,
  sliding_window_counter, leaky_bucket, get_item, positive_int, positive_float, windowed, bucket,
  build_algorithm_config, caught,
}
use distributed_rate_limiter.Prelude.Dict
use distributed_rate_limiter.Prelude.Int.{ℤ, pos, ltb_ℤ}
use distributed_rate_limiter.RulesCache.{Rule}
use distributed_rate_limiter.Service.{
  Env, Warned, CheckRequest, limiter_of_config, build_limiter_for_rule, build_default_limiter,
  project, with_default, choose, degraded_result, fail_open, decide_limit, check_validated,
  validate_pairs, check_rate_limit, resolve_rule,
}
use distributed_rate_limiter.Service.Decision.{IsUnreachable}
use distributed_rate_limiter.Service.Resolve.{OnSome}
use distributed_rate_limiter.Identifier.Sets.{Types}
use distributed_rate_limiter.Prelude.{
  ℕ, String, ◌⧺◌, ◌≡◌, refl, sym, ap, ◌∙◌, ok-injective, subst, inl, inr, Bool, true, false, Option,
  none, some, List, if◌then◌else◌, ◌==◌, nat_eq, string_eq, pair_eq, Option-cases, list_eq,
  contains, Result, ok, raise, ◌>>=◌,
}

-- `int(window_seconds * 1000)` raises nothing but what `_build_limiter_for_rule` catches, where the parameters have
-- a window. It is false for an infinite window in Python: OverflowError is not caught.
abbrev pub is_caught {ℓ} : {A : Type ℓ} → Result PyError A → Bool
is_caught (ok a) = true
is_caught (raise e) = caught e

abbrev pub converts : Runtime → Params → Bool
converts rt params = elim (Dict.get "window_seconds" params) [
  | none ↦ true
  | some v ↦ is_caught (rt.to_millis v)
]

get_item-found :
    (k : String) (params : Params) (v : Value)
    → get_item k params ≡ ok v
    → Dict.get k params ≡ some v
unfolding get_item
get_item-found k params v h = by_value (Dict.get k params) h
  where
    by_value :
        (o : Option Value)
        → ◌≡◌ {A = Result PyError Value}
            (elim o [ none ↦ raise (PyError.key_error k) | some w ↦ ok w ])
            (ok v)
        → o ≡ some v
    by_value none e = cc
    by_value (some w) e = ap some (ok-injective e)

-- What a computation raises is caught by `_build_limiter_for_rule`.
record IsCaught {ℓ} {A : Type ℓ} (r : Result PyError A) : Type ℓ where
  raised : (e : PyError) → r ≡ raise e → caught e ≡ true

IsCaught-ok {ℓ} : {A : Type ℓ} (a : A) → IsCaught (ok a)
IsCaught-ok a = record { raised = λ e h. cc }

raise-injective {ℓ} :
    {A : Type ℓ} {x y : PyError} → ◌≡◌ {A = Result PyError A} (raise x) (raise y) → x ≡ y
raise-injective h = cc

IsCaught-raise {ℓ} : {A : Type ℓ} (e : PyError) → caught e ≡ true → IsCaught {A = A} (raise e)
IsCaught-raise {A = A} e k = record {
  raised = λ e' h. subst (λ x. caught x ≡ true) (raise-injective {A = A} h) k;
}

IsCaught-bind {ℓ κ} :
    {A : Type ℓ} {B : Type κ} (m : Result PyError A) (f : A → Result PyError B)
    → IsCaught m
    → ((a : A) → m ≡ ok a → IsCaught (f a))
    → IsCaught (m >>= f)
IsCaught-bind (ok a) f km kf = kf a refl
IsCaught-bind (raise e) f km kf = IsCaught-raise e (km.raised e refl)

IsCaught-if {ℓ} :
    {A : Type ℓ} (b : Bool) (r s : Result PyError A)
    → IsCaught r
    → IsCaught s
    → IsCaught (if b then r else s)
IsCaught-if true r s kr ks = kr
IsCaught-if false r s kr ks = ks

IsCaught-get_item : (k : String) (params : Params) → IsCaught (get_item k params)
unfolding get_item caught
IsCaught-get_item k params = elim (Option-cases (Dict.get k params)) [
  | inl e ↦ rw (e, get_item) (IsCaught-raise (PyError.key_error k) refl)
  | inr (v, e) ↦ rw (e, get_item) (IsCaught-ok v)
]

IsCaught-positive_int : (o : Option ℤ) → IsCaught (positive_int o)
unfolding positive_int caught
IsCaught-positive_int none = IsCaught-raise value_error refl
IsCaught-positive_int (some n) =
    IsCaught-if (ltb_ℤ (pos 0) n) (ok n) (raise value_error) (IsCaught-ok n)
      (IsCaught-raise value_error refl)

module _ (rt : Runtime) where
  IsCaught-positive_float : (o : Option ℕ) → IsCaught (positive_float rt o)
  unfolding positive_float caught
  IsCaught-positive_float none = IsCaught-raise value_error refl
  IsCaught-positive_float (some n) =
      IsCaught-if (rt.is_positive n) (ok n) (raise value_error) (IsCaught-ok n)
        (IsCaught-raise value_error refl)

  IsCaught-bucket :
      (make : ℤ → ℕ → AlgorithmConfig) (key : String) (params : Params)
      → IsCaught (bucket rt make key params)
  unfolding bucket
  IsCaught-bucket make key params =
      IsCaught-bind (get_item "capacity" params) _ (IsCaught-get_item "capacity" params)
        λ capacity _. IsCaught-bind (get_item key params) _ (IsCaught-get_item key params) λ rate _.
          IsCaught-bind (positive_int (rt.to_int capacity)) _
            (IsCaught-positive_int (rt.to_int capacity))
            λ size _.
              IsCaught-bind (positive_float rt (rt.to_float rate)) _
                (IsCaught-positive_float (rt.to_float rate))
                λ speed _. IsCaught-ok (make size speed)

  millis-IsCaught :
      (params : Params) (seconds : Value)
      → converts rt params ≡ true
      → get_item "window_seconds" params ≡ ok seconds
      → IsCaught (rt.to_millis seconds)
  millis-IsCaught params seconds h k =
      let found : Dict.get "window_seconds" params ≡ some seconds =
        get_item-found "window_seconds" params seconds k in
      let test : is_caught (rt.to_millis seconds) ≡ true =
        sym (ap (λ o. elim o [ none ↦ true | some v ↦ is_caught (rt.to_millis v) ]) found) ∙ h in
      record { raised = λ e raised. sym (ap is_caught raised) ∙ test }

  module _ (params : Params) (convertible : converts rt params ≡ true) where
    IsCaught-windowed : (make : ℤ → ℤ → AlgorithmConfig) → IsCaught (windowed rt make params)
    unfolding windowed
    IsCaught-windowed make =
        IsCaught-bind (get_item "limit" params) _ (IsCaught-get_item "limit" params) λ limit _.
          IsCaught-bind (get_item "window_seconds" params) _
            (IsCaught-get_item "window_seconds" params)
            λ seconds read.
              IsCaught-bind (rt.to_millis seconds) _
                (millis-IsCaught params seconds convertible read)
                λ millis _.
                  IsCaught-bind (positive_int (some millis)) _ (IsCaught-positive_int (some millis))
                    λ window _.
                      IsCaught-bind (positive_int (rt.to_int limit)) _
                        (IsCaught-positive_int (rt.to_int limit))
                        λ requests _. IsCaught-ok (make window requests)

    IsCaught-build : (name : String) → IsCaught (build_algorithm_config rt name params)
    unfolding build_algorithm_config caught
    IsCaught-build name = IsCaught-if (name == "FixedWindow") _ _ (IsCaught-windowed fixed_window) (
        IsCaught-if (name == "SlidingWindowLog") _ _ (IsCaught-windowed sliding_window_log) (
          IsCaught-if (name == "SlidingWindowCounter") _ _
            (IsCaught-windowed sliding_window_counter)
            (IsCaught-if (name == "TokenBucket") _ _
              (IsCaught-bucket token_bucket "refill_rate" params)
              (IsCaught-if (name == "LeakyBucket") _ _
                (IsCaught-bucket leaky_bucket "leak_rate" params)
                (IsCaught-raise (PyError.unsupported_rule_algorithm name) refl)))))

module _ (env : Env)
    (registered : (config : AlgorithmConfig)
      → contains env.registered (script_name config) ≡ true) where
  create_ok :
      (config : AlgorithmConfig) (scope : String)
      → create env.registered config scope ≡ ok (record { config = config; scope = scope })
  unfolding create
  create_ok config scope = rw (registered config, create)

  limiter_of_config_ok :
      (r : Rule) (built : Result PyError AlgorithmConfig)
      → IsCaught built
      → (l : Option Limiter) × (limiter_of_config env r built ≡ ok l)
  unfolding limiter_of_config
  limiter_of_config_ok r (ok config) k =
      (some (record { config = config; scope = "rule:" ⧺ r.id }), rw create_ok)
  limiter_of_config_ok r (raise e) k = (none, rw (k.raised e refl))

  with_default_ok :
      (client_pk : String) (r : Rule) (pairs : List Pair) (l : Option Limiter)
      → (out : Limiter × List Pair) × (with_default env client_pk r pairs l ≡ ok out)
  unfolding with_default build_default_limiter
  with_default_ok client_pk r pairs (some l) = ((l, project r pairs), refl)
  with_default_ok client_pk r pairs none = (
    (
      record { config = env.default_config; scope = "client:" ⧺ (client_pk ⧺ ":__default__") },
      pairs,
    ),
    rw create_ok,
  )

  choose_ok :
      (client_pk : String) (matched : Option Rule) (pairs : List Pair)
      → OnSome (λ r. converts env.runtime r.params ≡ true) matched
      → (out : Limiter × List Pair) × (choose env client_pk matched pairs ≡ ok out)
  unfolding choose build_default_limiter build_limiter_for_rule
  choose_ok client_pk none pairs convertible = (
    (
      record { config = env.default_config; scope = "client:" ⧺ (client_pk ⧺ ":__default__") },
      pairs,
    ),
    rw create_ok,
  )
  choose_ok client_pk (some r) pairs convertible =
      let (l, built) =
        limiter_of_config_ok r (build_algorithm_config env.runtime r.algorithm_name r.params)
          (IsCaught-build env.runtime r.params convertible r.algorithm_name) in
      let (out, chosen) = with_default_ok client_pk r pairs l in (out, rw built chosen)

  unreachable-fail_open :
      (reply : Reply) → IsUnreachable reply → fail_open (read_reply reply) ≡ ok degraded_result
  unfolding fail_open read_reply
  unreachable-fail_open connection_error u = refl
  unreachable-fail_open timeout_error u = refl
  unreachable-fail_open (Reply.values a b c d e) u = absurd u
  unreachable-fail_open Reply.script_error u = absurd u

  decide_limit-fails_open :
      (redis : Call → Reply) (request_id client_pk : String) (matched : Option Rule)
      (pairs : List Pair)
      → OnSome (λ r. converts env.runtime r.params ≡ true) matched
      → ((call : Call) → IsUnreachable (redis call))
      → decide_limit env redis request_id client_pk matched pairs ≡ ok degraded_result
  unfolding decide_limit check
  decide_limit-fails_open redis request_id client_pk matched pairs convertible down =
      let (out, chosen) = choose_ok client_pk matched pairs convertible in
      rw chosen (unreachable-fail_open (redis _) (down _))

  -- With the scripts registered, and a window that converts in every rule that the cache resolves for the
  -- client, a request whose identifiers are valid is allowed and marked `degraded` whenever Redis answers
  -- no call.
  pub check_rate_limit-fails_open :
      (redis : Call → Reply) (request_id client_pk : String) (payload : CheckRequest) (w : Warned)
      (pairs : List Pair)
      → ((provided : Types)
          → OnSome
              (λ r. converts env.runtime r.params ≡ true)
              (resolve_rule env.rules_cache client_pk payload.endpoint provided w).rule)
      → ((call : Call) → IsUnreachable (redis call))
      → validate_pairs env.parsers 0 payload.identifiers ≡ ok pairs
      → (check_rate_limit env redis request_id client_pk payload w).0 ≡ ok degraded_result
  unfolding check_rate_limit check_validated
  check_rate_limit-fails_open redis request_id client_pk payload w pairs convertible down valid =
      rw valid (decide_limit-fails_open redis request_id client_pk _ pairs (convertible _) down)
