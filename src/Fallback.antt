-- ===== src/Fallback.antt =====
-- core/config_loader.py and model/rate_limiter_config.py: the limiter that is used where no rule matches,
-- read from a YAML file once, at the start. The parser of YAML and the coercions of pydantic are parameters.
pub mod Positive
use distributed_rate_limiter.Errors.{PyError, value_error}
use distributed_rate_limiter.Identifier.{IdentifierType, value, members}
use distributed_rate_limiter.Params.{
  Value, Params, Runtime, AlgorithmConfig, token_bucket, fixed_window, sliding_window_log,
  sliding_window_counter, leaky_bucket, positive_int, positive_float,
}
use distributed_rate_limiter.Prelude.Dict
use distributed_rate_limiter.Prelude.Int.{ℤ}
use distributed_rate_limiter.Prelude.{
  ℕ, String, Option, none, some, if◌then◌else◌, ◌==◌, string_eq, find, Result, ok, raise, ◌>>=◌,
}

-- The node `default` of the document; `none` for a field that is missing, and for a `config` that is no mapping.
pub record Section : Type 0 where
  pub identifier_type : Option Value
  pub config : Option Params

-- What stands at the path: no file, a text that is not YAML, or a document, with `none` where it has no mapping
-- `default`.
pub data ConfigFile : Type 0 where
  no_file not_yaml : ConfigFile
  document : Option Section → ConfigFile

pub record EndpointConfig : Type 0 where
  pub identifier_type : IdentifierType
  pub config : AlgorithmConfig

-- Why the file is refused: FileNotFoundError, YAMLError, RateLimiterConfigError.
pub data ConfigError : Type 0 where
  file_not_found yaml_error invalid_config : ConfigError

-- A required field; a ValidationError is a ValueError.
unfoldable pub required {ℓ} : {A : Type ℓ} → Option A → Result PyError A
required none = raise value_error
required (some a) = ok a

-- A member of the enum, by its value.
unfoldable pub identifier_type_of : Value → Result PyError IdentifierType
unfolding required
identifier_type_of (Value.text s) = required (find (λ t. value t == s) members)
identifier_type_of _ = raise value_error

-- `except ValidationError`, which becomes a RateLimiterConfigError.
abbrev pub or_config_error : Result PyError EndpointConfig → Result ConfigError EndpointConfig
or_config_error (ok settings) = ok settings
or_config_error (raise e) = raise invalid_config

module _ (rt : Runtime) where
  unfoldable pub int_field : String → Params → Result PyError ℤ
  unfolding required positive_int
  int_field key params = do v ← required (Dict.get key params); positive_int (rt.to_int v)

  unfoldable pub float_field : String → Params → Result PyError ℕ
  unfolding required positive_float
  float_field key params = do v ← required (Dict.get key params); positive_float rt (rt.to_float v)

  -- The three classes with a window.
  unfoldable pub validate_windowed :
      (ℤ → ℤ → AlgorithmConfig) → Params → Result PyError AlgorithmConfig
  unfolding int_field
  validate_windowed make params = do
    window_size_ms ← int_field "window_size_ms" params
    max_requests ← int_field "max_requests" params
    ok (make window_size_ms max_requests)

  -- The two classes with a capacity and a rate.
  unfoldable pub validate_bucket :
      (ℤ → ℕ → AlgorithmConfig) → String → Params → Result PyError AlgorithmConfig
  unfolding int_field float_field
  validate_bucket make rate_key params = do
    capacity ← int_field "capacity" params
    rate ← float_field rate_key params
    ok (make capacity rate)

  -- The union with the discriminator `algorithm`.
  unfoldable pub algorithm_config : Value → Params → Result PyError AlgorithmConfig
  unfolding validate_windowed validate_bucket
  algorithm_config (Value.text name) params =
      if name == "TokenBucket"
      then validate_bucket token_bucket "refill_rate_per_second" params
      else if name == "FixedWindow"
      then validate_windowed fixed_window params
      else if name == "SlidingWindowLog"
      then validate_windowed sliding_window_log params
      else if name == "SlidingWindowCounter"
      then validate_windowed sliding_window_counter params
      else if name == "LeakyBucket"
      then validate_bucket leaky_bucket "leak_rate_per_second" params
      else raise value_error
  algorithm_config _ params = raise value_error

  -- `RateLimiterSettings.model_validate`
  unfoldable pub model_validate : Option Section → Result PyError EndpointConfig
  unfolding required identifier_type_of algorithm_config
  model_validate default = do
    section ← required default
    type_value ← required section.identifier_type
    identifier_type ← identifier_type_of type_value
    params ← required section.config
    algorithm ← required (Dict.get "algorithm" params)
    config ← algorithm_config algorithm params
    ok (record { identifier_type = identifier_type; config = config })

  unfoldable pub load_rate_limiter_settings : ConfigFile → Result ConfigError EndpointConfig
  unfolding model_validate
  load_rate_limiter_settings no_file = raise file_not_found
  load_rate_limiter_settings not_yaml = raise yaml_error
  load_rate_limiter_settings (document default) = or_config_error (model_validate default)
