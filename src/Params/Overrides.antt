-- ===== src/Params/Overrides.antt =====
-- services/group_params.py: the effective parameters of a grouped rule.
use distributed_rate_limiter.Errors.{
  Error, PyError, invalid_override_keys, invalid_rule_params, uncaught,
}
use distributed_rate_limiter.Params.{Params, Runtime, build_algorithm_config, caught}
use distributed_rate_limiter.Prelude.Dict
use distributed_rate_limiter.Prelude.Sort.{sort}
use distributed_rate_limiter.Prelude.{
  String, not, List, [], ◌∷◌, map, if◌then◌else◌, nat_eq, string_eq, pair_eq, keep, contains,
  Result, ok, raise, ◌>>=◌, str_ltb,
}

abbrev pub keys : Params → List String
keys = map (λ p. p.0)

-- `{**base_params, **overrides}`
unfoldable pub compute_effective_params : Params → Params → Params
compute_effective_params base [] = base
compute_effective_params base ((k, v) ∷ overrides) =
    compute_effective_params (Dict.insert k v base) overrides

-- `sorted(set(overrides) - set(base_params))`; a dict has no key twice.
unfoldable pub unknown_keys : Params → Params → List String
unknown_keys base overrides =
    sort str_ltb (keep (λ k. not (contains (keys base) k)) (keys overrides))

-- The `try` round `build_algorithm_config`, which both services share.
unfoldable pub or_invalid {ℓ} : {A : Type ℓ} → String → Result PyError A → Result Error A
or_invalid name (ok a) = ok a
or_invalid name (raise e) = raise (if caught e then invalid_rule_params name else uncaught e)

module _ (rt : Runtime) where
  unfoldable pub check_unknown : List String → String → Params → Result Error Params
  check_unknown (k ∷ ks) name merged = raise (invalid_override_keys (k ∷ ks))
  check_unknown [] name merged = do
    config ← or_invalid name (build_algorithm_config rt name merged)
    ok merged

  unfoldable pub validate_overrides_or_raise : String → Params → Params → Result Error Params
  validate_overrides_or_raise name base overrides =
      check_unknown (unknown_keys base overrides) name (compute_effective_params base overrides)
