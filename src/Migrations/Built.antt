-- ===== src/Migrations/Built.antt =====
-- The limiters of the rules that a fresh database has.
use distributed_rate_limiter.Errors.{PyError}
use distributed_rate_limiter.Params.{
  Runtime, Value, int, float, Params, AlgorithmConfig, windowed, bucket, get_item, positive_int,
  positive_float, build_algorithm_config,
}
use distributed_rate_limiter.Prelude.Dict
use distributed_rate_limiter.Prelude.Int.{ℤ, pos}
use distributed_rate_limiter.Prelude.{
  ℕ, suc, ◌*◌, ◌<◌, String, ◌≡◌, refl, inl, inr, Bool, true, false, ◌&&◌, Option, some,
  if◌then◌else◌, ltb, ◌==◌, string_eq, nat_eq, arith, Bool-cases, Result, ok,
}

-- What Python and pydantic do with the numbers of JSON: an integer is taken for an `int` field and a float
-- for a `float` field, a positive finite float is greater than zero, and `int(v * 1000)` of an integer is exact.
pub record TakesNumbers (rt : Runtime) : Type 0 where
  pub int_taken : (n : ℤ) → rt.to_int (int n) ≡ some n
  pub float_taken : (x : ℕ) → rt.to_float (float x) ≡ some x
  pub float_positive : (x : ℕ) → 0 < x → x < 9218868437227405312 → rt.is_positive x ≡ true
  pub millis_exact : (n : ℕ) → rt.to_millis (int (pos n)) ≡ ok (pos (n * 1000))

abbrev pub is_count : Option Value → Bool
is_count (some (int (pos (suc n)))) = true
is_count _ = false

abbrev pub is_rate : Option Value → Bool
is_rate (some (float x)) = ltb 0 x && ltb x 9218868437227405312
is_rate _ = false

count-suc : (v : Option Value) → is_count v ≡ true → (n : ℕ) × (v ≡ some (int (pos (suc n))))
count-suc (some (int (pos (suc n)))) h = (n, refl)
count-suc _ h = cc

rate-float :
    (v : Option Value)
    → is_rate v ≡ true
    → (x : ℕ) × (v ≡ some (float x)) × (0 < x) × (x < 9218868437227405312)
rate-float (some (float x)) h = (x, refl, ground arith, ground arith)
rate-float _ h = cc

abbrev pub counts : Params → Bool
counts params = is_count (Dict.get "limit" params) && is_count (Dict.get "window_seconds" params)

abbrev pub rates : String → Params → Bool
rates rate_key params = is_count (Dict.get "capacity" params) && is_rate (Dict.get rate_key params)

-- Parameters of the types that the algorithm's schema asks for, greater than zero.
abbrev pub fits : String → Params → Bool
fits name params =
    if name == "FixedWindow"
    then counts params
    else if name == "SlidingWindowLog"
    then counts params
    else if name == "SlidingWindowCounter"
    then counts params
    else if name == "TokenBucket"
    then rates "refill_rate" params
    else if name == "LeakyBucket"
    then rates "leak_rate" params
    else false

get_item-some :
    (k : String) (params : Params) {v : Value}
    → Dict.get k params ≡ some v
    → get_item k params ≡ ok v
unfolding get_item
get_item-some k params h = rw (h, get_item) refl

-- A limiter is built.
pub record Builds (r : Result PyError AlgorithmConfig) : Type 0 where
  pub config : AlgorithmConfig
  pub built : r ≡ ok config

module _ (rt : Runtime) (numbers : TakesNumbers rt) where
  windowed-numbers :
      (make : ℤ → ℤ → AlgorithmConfig) (params : Params) (l w : ℕ)
      → Dict.get "limit" params ≡ some (int (pos (suc l)))
      → Dict.get "window_seconds" params ≡ some (int (pos (suc w)))
      → windowed rt make params ≡ ok (make (pos (suc w * 1000)) (pos (suc l)))
  unfolding windowed positive_int
  windowed-numbers make params l w limit window =
      rw (get_item-some "limit" params limit, get_item-some "window_seconds" params window)
        (rw (numbers.millis_exact (suc w), numbers.int_taken (pos (suc l))) (ground arith))

  bucket-numbers :
      (make : ℤ → ℕ → AlgorithmConfig) (rate_key : String) (params : Params) (c x : ℕ)
      → Dict.get "capacity" params ≡ some (int (pos (suc c)))
      → Dict.get rate_key params ≡ some (float x)
      → rt.is_positive x ≡ true
      → bucket rt make rate_key params ≡ ok (make (pos (suc c)) x)
  unfolding bucket positive_int positive_float
  bucket-numbers make rate_key params c x capacity rate positive =
      rw (get_item-some "capacity" params capacity, get_item-some rate_key params rate)
        (rw (numbers.int_taken (pos (suc c)), numbers.float_taken x) (rw positive (ground arith)))

  windowed-Builds :
      (make : ℤ → ℤ → AlgorithmConfig) (params : Params)
      → counts params ≡ true
      → Builds (windowed rt make params)
  windowed-Builds make params h =
      let (l, limit) = count-suc (Dict.get "limit" params) (ground arith) in
      let (w, window) = count-suc (Dict.get "window_seconds" params) (ground arith) in
      record {
        config = make (pos (suc w * 1000)) (pos (suc l));
        built = windowed-numbers make params l w limit window;
      }

  bucket-Builds :
      (make : ℤ → ℕ → AlgorithmConfig) (rate_key : String) (params : Params)
      → rates rate_key params ≡ true
      → Builds (bucket rt make rate_key params)
  bucket-Builds make rate_key params h =
      let (c, capacity) = count-suc (Dict.get "capacity" params) (ground arith) in
      let (x, rate, above, below) = rate-float (Dict.get rate_key params) (ground arith) in
      record {
        config = make (pos (suc c)) x;
        built =
            bucket-numbers make rate_key params c x capacity rate
              (numbers.float_positive x above below);
      }

  pub build-Builds :
      (name : String) (params : Params)
      → fits name params ≡ true
      → Builds (build_algorithm_config rt name params)
  unfolding build_algorithm_config
  build-Builds name params h = elim (Bool-cases (name == "FixedWindow")) [
    | inl t ↦ rw t (windowed-Builds AlgorithmConfig.fixed_window params (rw t at h))
    | inr n₁ ↦ elim (Bool-cases (name == "SlidingWindowLog")) [
      | inl t ↦
          rw (n₁, t) (windowed-Builds AlgorithmConfig.sliding_window_log params (rw (n₁, t) at h))
      | inr n₂ ↦ elim (Bool-cases (name == "SlidingWindowCounter")) [
        | inl t ↦
            rw (n₁, n₂, t)
              (windowed-Builds AlgorithmConfig.sliding_window_counter params (rw (n₁, n₂, t) at h))
        | inr n₃ ↦ elim (Bool-cases (name == "TokenBucket")) [
          | inl t ↦
              rw (n₁, n₂, n₃, t)
                (bucket-Builds AlgorithmConfig.token_bucket "refill_rate" params
                  (rw (n₁, n₂, n₃, t) at h))
          | inr n₄ ↦ elim (Bool-cases (name == "LeakyBucket")) [
            | inl t ↦
                rw (n₁, n₂, n₃, n₄, t)
                  (bucket-Builds AlgorithmConfig.leaky_bucket "leak_rate" params
                    (rw (n₁, n₂, n₃, n₄, t) at h))
            | inr n₅ ↦ (let impossible : false ≡ true = rw (n₁, n₂, n₃, n₄, n₅) at h in absurd cc)
          ]
        ]
      ]
    ]
  ]
