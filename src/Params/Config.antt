-- ===== src/Params/Config.antt =====
-- What `build_algorithm_config` (services/rule_algorithm_mapper.py) accepts, and what it looks at.
use distributed_rate_limiter.Params.{
  Params, Runtime, AlgorithmConfig, token_bucket, fixed_window, sliding_window_log,
  sliding_window_counter, leaky_bucket, get_item, positive_int, positive_float, windowed, bucket,
  build_algorithm_config,
}
use distributed_rate_limiter.Prelude.Dict
use distributed_rate_limiter.Prelude.Int.{ℤ, pos, ltb_ℤ}
use distributed_rate_limiter.Prelude.{
  ℕ, String, ◌≡◌, refl, sym, subst, inl, inr, true, Option, none, some, List, [], ◌∷◌, ◌==◌, nat_eq,
  string_eq, pair_eq, Bool-cases, contains, ok, raise, >>=-eq-ok, ok-injective,
}

abbrev pub algorithm_names : List String
algorithm_names =
    "FixedWindow" ∷ "SlidingWindowLog" ∷ "SlidingWindowCounter" ∷ "TokenBucket" ∷ "LeakyBucket" ∷ []

module _ (rt : Runtime) where
  -- Every number of a configuration is greater than zero.
  abbrev pub IsPositive : AlgorithmConfig → Type 0
  IsPositive (token_bucket n x) = (ltb_ℤ (pos 0) n ≡ true) × (rt.is_positive x ≡ true)
  IsPositive (leaky_bucket n x) = (ltb_ℤ (pos 0) n ≡ true) × (rt.is_positive x ≡ true)
  IsPositive (fixed_window w n) = (ltb_ℤ (pos 0) w ≡ true) × (ltb_ℤ (pos 0) n ≡ true)
  IsPositive (sliding_window_log w n) = (ltb_ℤ (pos 0) w ≡ true) × (ltb_ℤ (pos 0) n ≡ true)
  IsPositive (sliding_window_counter w n) = (ltb_ℤ (pos 0) w ≡ true) × (ltb_ℤ (pos 0) n ≡ true)

  pub positive_int-lt : (o : Option ℤ) (n : ℤ) → positive_int o ≡ ok n → ltb_ℤ (pos 0) n ≡ true
  unfolding positive_int
  positive_int-lt none n h = cc
  positive_int-lt (some m) n h = elim (Bool-cases (ltb_ℤ (pos 0) m)) [
    | inl e ↦ subst (λ k. ltb_ℤ (pos 0) k ≡ true) (ok-injective (rw e at h)) e
    | inr e ↦ absurd (let bad : raise _ ≡ ok n = rw e at h in cc)
  ]

  pub positive_float-lt :
      (o : Option ℕ) (x : ℕ) → positive_float rt o ≡ ok x → rt.is_positive x ≡ true
  unfolding positive_float
  positive_float-lt none x h = cc
  positive_float-lt (some y) x h = elim (Bool-cases (rt.is_positive y)) [
    | inl e ↦ subst (λ k. rt.is_positive k ≡ true) (ok-injective (rw e at h)) e
    | inr e ↦ absurd (let bad : raise _ ≡ ok x = rw e at h in cc)
  ]

  windowed-IsPositive :
      (make : ℤ → ℤ → AlgorithmConfig) (params : Params) (c : AlgorithmConfig)
      → ((w n : ℤ) → ltb_ℤ (pos 0) w ≡ true → ltb_ℤ (pos 0) n ≡ true → IsPositive (make w n))
      → windowed rt make params ≡ ok c
      → IsPositive c
  unfolding windowed
  windowed-IsPositive make params c shape h =
      let (limit, got_limit, h₁) = >>=-eq-ok (get_item "limit" params) _ h in
      let (seconds, got_seconds, h₂) = >>=-eq-ok (get_item "window_seconds" params) _ h₁ in
      let (millis, got_millis, h₃) = >>=-eq-ok (rt.to_millis seconds) _ h₂ in
      let (window, got_window, h₄) = >>=-eq-ok (positive_int (some millis)) _ h₃ in
      let (requests, got_requests, h₅) = >>=-eq-ok (positive_int (rt.to_int limit)) _ h₄ in
      subst IsPositive (ok-injective h₅) (
        shape window requests (positive_int-lt (some millis) window got_window)
          (positive_int-lt (rt.to_int limit) requests got_requests))

  bucket-IsPositive :
      (make : ℤ → ℕ → AlgorithmConfig) (key : String) (params : Params) (c : AlgorithmConfig)
      → ((n : ℤ) (x : ℕ) → ltb_ℤ (pos 0) n ≡ true → rt.is_positive x ≡ true → IsPositive (make n x))
      → bucket rt make key params ≡ ok c
      → IsPositive c
  unfolding bucket
  bucket-IsPositive make key params c shape h =
      let (capacity, got_capacity, h₁) = >>=-eq-ok (get_item "capacity" params) _ h in
      let (rate, got_rate, h₂) = >>=-eq-ok (get_item key params) _ h₁ in
      let (size, got_size, h₃) = >>=-eq-ok (positive_int (rt.to_int capacity)) _ h₂ in
      let (speed, got_speed, h₄) = >>=-eq-ok (positive_float rt (rt.to_float rate)) _ h₃ in
      subst IsPositive (ok-injective h₄) (
        shape size speed (positive_int-lt (rt.to_int capacity) size got_size)
          (positive_float-lt (rt.to_float rate) speed got_speed))

  known_name :
      (k name : String)
      → contains algorithm_names k ≡ true
      → (name == k) ≡ true
      → contains algorithm_names name ≡ true
  known_name k name known e =
      subst (λ s. contains algorithm_names s ≡ true) (sym ((string_eq.equals_iff name k).0 e)) known

  -- A configuration is built only for one of the five algorithms, and then every number in it is
  -- greater than zero.
  pub build-IsPositive :
      (name : String) (params : Params) (c : AlgorithmConfig)
      → build_algorithm_config rt name params ≡ ok c
      → IsPositive c × (contains algorithm_names name ≡ true)
  unfolding build_algorithm_config
  build-IsPositive name params c h = elim (Bool-cases (name == "FixedWindow")) [
    | inl e ↦ (
      windowed-IsPositive fixed_window params c (λ w n p q. (p, q)) (rw e at h),
      known_name "FixedWindow" name refl e,
    )
    | inr e₁ ↦ elim (Bool-cases (name == "SlidingWindowLog")) [
      | inl e ↦ (
        windowed-IsPositive sliding_window_log params c (λ w n p q. (p, q)) (rw (e₁, e) at h),
        known_name "SlidingWindowLog" name refl e,
      )
      | inr e₂ ↦ elim (Bool-cases (name == "SlidingWindowCounter")) [
        | inl e ↦ (
          windowed-IsPositive sliding_window_counter params c (λ w n p q. (p, q))
              (rw (e₁, e₂, e) at h),
          known_name "SlidingWindowCounter" name refl e,
        )
        | inr e₃ ↦ elim (Bool-cases (name == "TokenBucket")) [
          | inl e ↦ (
            bucket-IsPositive token_bucket "refill_rate" params c (λ n x p q. (p, q))
                (rw (e₁, e₂, e₃, e) at h),
            known_name "TokenBucket" name refl e,
          )
          | inr e₄ ↦ elim (Bool-cases (name == "LeakyBucket")) [
            | inl e ↦ (
              bucket-IsPositive leaky_bucket "leak_rate" params c (λ n x p q. (p, q))
                  (rw (e₁, e₂, e₃, e₄, e) at h),
              known_name "LeakyBucket" name refl e,
            )
            | inr e₅ ↦ absurd (let bad : raise _ ≡ ok c = rw (e₁, e₂, e₃, e₄, e₅) at h in cc)
          ]
        ]
      ]
    ]
  ]

  -- The configuration depends on no parameter but the five that the engine knows; the others, such as
  -- `initial_tokens`, are ignored.
  pub build_ignores_others :
      (name : String) (p q : Params)
      → Dict.get "limit" p ≡ Dict.get "limit" q
      → Dict.get "window_seconds" p ≡ Dict.get "window_seconds" q
      → Dict.get "capacity" p ≡ Dict.get "capacity" q
      → Dict.get "refill_rate" p ≡ Dict.get "refill_rate" q
      → Dict.get "leak_rate" p ≡ Dict.get "leak_rate" q
      → build_algorithm_config rt name p ≡ build_algorithm_config rt name q
  unfolding build_algorithm_config
  build_ignores_others name p q e₁ e₂ e₃ e₄ e₅ = rw (e₁, e₂, e₃, e₄, e₅, get_item)
