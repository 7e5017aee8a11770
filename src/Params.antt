-- ===== src/Params.antt =====
-- model/rate_limiter_config.py and services/rule_algorithm_mapper.py: from a rule's algorithm name
-- and parameters to the configuration of a limiter.
pub mod Config
pub mod Overrides
pub mod Merge
use distributed_rate_limiter.Errors.{PyError, key_error, value_error, unsupported_rule_algorithm}
use distributed_rate_limiter.Prelude.Dict
use distributed_rate_limiter.Prelude.Dict.{Dict}
use distributed_rate_limiter.Prelude.Int.{ℤ, pos, ltb_ℤ}
use distributed_rate_limiter.Prelude.{
  ℕ, String, Bool, true, false, Option, none, some, if◌then◌else◌, ◌==◌, nat_eq, string_eq, pair_eq,
  Result, ok, raise, ◌>>=◌, ◌>>◌,
}

-- A JSON value, as the API and the JSONB columns hold it. A float is its 64-bit pattern, an array or
-- object its text: the program hands both on to Python and pydantic and does not look inside.
pub data Value : Type 0 where
  null : Value
  boolean : Bool → Value
  int : ℤ → Value
  float : ℕ → Value
  text json : String → Value

abbrev pub Params : Type 0
Params = Dict String Value

-- What the program takes from Python and pydantic: the coercions of an `int` and a `float` field
-- (`none` is a validation error), `gt=0` on a float, and `int(v * 1000)`.
pub record Runtime : Type 0 where
  pub to_int : Value → Option ℤ
  pub to_float : Value → Option ℕ
  pub is_positive : ℕ → Bool
  pub to_millis : Value → Result PyError ℤ

pub data AlgorithmConfig : Type 0 where
  -- capacity, refill_rate_per_second
  token_bucket : ℤ → ℕ → AlgorithmConfig
  -- window_size_ms, max_requests
  fixed_window sliding_window_log sliding_window_counter : ℤ → ℤ → AlgorithmConfig
  -- capacity, leak_rate_per_second
  leaky_bucket : ℤ → ℕ → AlgorithmConfig

-- `params[key]`
unfoldable pub get_item : String → Params → Result PyError Value
get_item k params = elim (Dict.get k params) [ none ↦ raise (key_error k) | some v ↦ ok v ]

-- An `int` field and a `float` field with `gt=0`.
unfoldable pub positive_int : Option ℤ → Result PyError ℤ
positive_int none = raise value_error
positive_int (some n) = if ltb_ℤ (pos 0) n then ok n else raise value_error

module _ (rt : Runtime) where
  unfoldable pub positive_float : Option ℕ → Result PyError ℕ
  positive_float none = raise value_error
  positive_float (some x) = if rt.is_positive x then ok x else raise value_error

  -- The three windowed classes: their keyword arguments in order, then the validation.
  unfoldable pub windowed : (ℤ → ℤ → AlgorithmConfig) → Params → Result PyError AlgorithmConfig
  unfolding get_item positive_int
  windowed make params = do
    limit ← get_item "limit" params
    window_seconds ← get_item "window_seconds" params
    window_size_ms ← rt.to_millis window_seconds
    window ← positive_int (some window_size_ms)
    requests ← positive_int (rt.to_int limit)
    ok (make window requests)

  unfoldable pub bucket :
      (ℤ → ℕ → AlgorithmConfig) → String → Params → Result PyError AlgorithmConfig
  unfolding get_item positive_int positive_float
  bucket make rate_key params = do
    capacity ← get_item "capacity" params
    rate ← get_item rate_key params
    size ← positive_int (rt.to_int capacity)
    speed ← positive_float (rt.to_float rate)
    ok (make size speed)

  unfoldable pub build_algorithm_config : String → Params → Result PyError AlgorithmConfig
  unfolding windowed bucket
  build_algorithm_config name params =
      if name == "FixedWindow"
      then windowed fixed_window params
      else if name == "SlidingWindowLog"
      then windowed sliding_window_log params
      else if name == "SlidingWindowCounter"
      then windowed sliding_window_counter params
      else if name == "TokenBucket"
      then bucket token_bucket "refill_rate" params
      else if name == "LeakyBucket"
      then bucket leaky_bucket "leak_rate" params
      else raise (unsupported_rule_algorithm name)

-- `except (UnsupportedRuleAlgorithmError, KeyError, TypeError, ValueError)`; a ValidationError of
-- pydantic is a ValueError, an OverflowError is not.
unfoldable pub caught : PyError → Bool
caught PyError.overflow_error = false
caught PyError.runtime_error = false
caught PyError.data_error = false
caught PyError.response_error = false
caught PyError.redis_error = false
caught PyError.attribute_error = false
caught _ = true
