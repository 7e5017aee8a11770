-- ===== src/Fallback/Positive.antt =====
-- What the fallback is that is loaded.
use distributed_rate_limiter.Errors.{PyError}
use distributed_rate_limiter.Params.{
  Value, Params, Runtime, AlgorithmConfig, token_bucket, fixed_window, sliding_window_log,
  sliding_window_counter, leaky_bucket,
}
use distributed_rate_limiter.Params.Config.{IsPositive, positive_int-lt, positive_float-lt}
use distributed_rate_limiter.Fallback.{
  Section, ConfigFile, no_file, not_yaml, document, EndpointConfig, required, identifier_type_of,
  int_field, float_field, validate_windowed, validate_bucket, algorithm_config, model_validate,
  or_config_error, load_rate_limiter_settings,
}
use distributed_rate_limiter.Prelude.Dict
use distributed_rate_limiter.Prelude.Int.{ℤ, pos, ltb_ℤ}
use distributed_rate_limiter.Prelude.{
  ℕ, String, ◌≡◌, ap, subst, Bool, true, false, Option, if◌then◌else◌, ◌==◌, string_eq, Result, ok,
  raise, >>=-eq-ok, ok-injective,
}

or_config_error-ok :
    (r : Result PyError EndpointConfig) (e : EndpointConfig) → or_config_error r ≡ ok e → r ≡ ok e
or_config_error-ok (ok d) e h = ap ok (ok-injective h)
or_config_error-ok (raise p) e h = cc

module _ (rt : Runtime) where
  int_field-lt :
      (key : String) (params : Params) (n : ℤ)
      → int_field rt key params ≡ ok n
      → ltb_ℤ (pos 0) n ≡ true
  unfolding int_field
  int_field-lt key params n h =
      let (v, given, k) = >>=-eq-ok (required (Dict.get key params)) _ h in
      positive_int-lt rt (rt.to_int v) n k

  float_field-lt :
      (key : String) (params : Params) (x : ℕ)
      → float_field rt key params ≡ ok x
      → rt.is_positive x ≡ true
  unfolding float_field
  float_field-lt key params x h =
      let (v, given, k) = >>=-eq-ok (required (Dict.get key params)) _ h in
      positive_float-lt rt (rt.to_float v) x k

  validate_windowed-IsPositive :
      (make : ℤ → ℤ → AlgorithmConfig) (params : Params) (c : AlgorithmConfig)
      → ((w n : ℤ) → ltb_ℤ (pos 0) w ≡ true → ltb_ℤ (pos 0) n ≡ true → IsPositive rt (make w n))
      → validate_windowed rt make params ≡ ok c
      → IsPositive rt c
  unfolding validate_windowed
  validate_windowed-IsPositive make params c shape h =
      let (w, window, h₁) = >>=-eq-ok (int_field rt "window_size_ms" params) _ h in
      let (n, requests, h₂) = >>=-eq-ok (int_field rt "max_requests" params) _ h₁ in
      subst (IsPositive rt) (ok-injective h₂) (
        shape w n (int_field-lt "window_size_ms" params w window)
          (int_field-lt "max_requests" params n requests))

  validate_bucket-IsPositive :
      (make : ℤ → ℕ → AlgorithmConfig) (key : String) (params : Params) (c : AlgorithmConfig)
      → ((n : ℤ) (x : ℕ)
          → ltb_ℤ (pos 0) n ≡ true
          → rt.is_positive x ≡ true
          → IsPositive rt (make n x))
      → validate_bucket rt make key params ≡ ok c
      → IsPositive rt c
  unfolding validate_bucket
  validate_bucket-IsPositive make key params c shape h =
      let (n, capacity, h₁) = >>=-eq-ok (int_field rt "capacity" params) _ h in
      let (x, rate, h₂) = >>=-eq-ok (float_field rt key params) _ h₁ in
      subst (IsPositive rt) (ok-injective h₂)
        (shape n x (int_field-lt "capacity" params n capacity) (float_field-lt key params x rate))

  -- A result of a choice, where both branches have a property.
  of_if :
      (b : Bool) (r s : Result PyError AlgorithmConfig) (c : AlgorithmConfig)
      → (r ≡ ok c → IsPositive rt c)
      → (s ≡ ok c → IsPositive rt c)
      → (if b then r else s) ≡ ok c
      → IsPositive rt c
  of_if true r s c k l h = k h
  of_if false r s c k l h = l h

  algorithm_config-IsPositive :
      (v : Value) (params : Params) (c : AlgorithmConfig)
      → algorithm_config rt v params ≡ ok c
      → IsPositive rt c
  unfolding algorithm_config
  algorithm_config-IsPositive (Value.text name) params c h =
      of_if (name == "TokenBucket") _ _ c
        (validate_bucket-IsPositive token_bucket "refill_rate_per_second" params c
          (λ n x p q. (p, q)))
        (of_if (name == "FixedWindow") _ _ c
          (validate_windowed-IsPositive fixed_window params c (λ w n p q. (p, q)))
          (of_if (name == "SlidingWindowLog") _ _ c
            (validate_windowed-IsPositive sliding_window_log params c (λ w n p q. (p, q)))
            (of_if (name == "SlidingWindowCounter") _ _ c
              (validate_windowed-IsPositive sliding_window_counter params c (λ w n p q. (p, q)))
              (of_if (name == "LeakyBucket") _ _ c
                (validate_bucket-IsPositive leaky_bucket "leak_rate_per_second" params c
                  (λ n x p q. (p, q)))
                (λ bad. cc bad)))))
        h
  algorithm_config-IsPositive Value.null params c h = cc
  algorithm_config-IsPositive (Value.boolean b) params c h = cc
  algorithm_config-IsPositive (Value.int n) params c h = cc
  algorithm_config-IsPositive (Value.float x) params c h = cc
  algorithm_config-IsPositive (Value.json s) params c h = cc

  model_validate-IsPositive :
      (default : Option Section) (e : EndpointConfig)
      → model_validate rt default ≡ ok e
      → IsPositive rt e.config
  unfolding model_validate
  model_validate-IsPositive default e h =
      let (section, a, h₁) = >>=-eq-ok (required default) _ h in
      let (type_value, b, h₂) = >>=-eq-ok (required section.identifier_type) _ h₁ in
      let (t, c, h₃) = >>=-eq-ok (identifier_type_of type_value) _ h₂ in
      let (params, d, h₄) = >>=-eq-ok (required section.config) _ h₃ in
      let (algorithm, f, h₅) = >>=-eq-ok (required (Dict.get "algorithm" params)) _ h₄ in
      let (config, g, h₆) = >>=-eq-ok (algorithm_config rt algorithm params) _ h₅ in
      subst (λ (k : EndpointConfig). IsPositive rt k.config) (ok-injective h₆)
        (algorithm_config-IsPositive algorithm params config g)

  -- A fallback that is loaded has only numbers greater than zero.
  pub load_rate_limiter_settings-IsPositive :
      (file : ConfigFile) (e : EndpointConfig)
      → load_rate_limiter_settings rt file ≡ ok e
      → IsPositive rt e.config
  unfolding load_rate_limiter_settings
  load_rate_limiter_settings-IsPositive no_file e h = cc
  load_rate_limiter_settings-IsPositive not_yaml e h = cc
  load_rate_limiter_settings-IsPositive (document default) e h =
      model_validate-IsPositive default e (or_config_error-ok (model_validate rt default) e h)
