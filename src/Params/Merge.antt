-- ===== src/Params/Merge.antt =====
-- The effective parameters of a grouped rule (services/group_params.py).
use distributed_rate_limiter.Errors.{PyError}
use distributed_rate_limiter.Params.{
  Value, Params, Runtime, AlgorithmConfig, build_algorithm_config,
}
use distributed_rate_limiter.Params.Overrides.{
  keys, compute_effective_params, unknown_keys, or_invalid, check_unknown,
  validate_overrides_or_raise,
}
use distributed_rate_limiter.Prelude.Dict
use distributed_rate_limiter.Prelude.Dict.{get-insert}
use distributed_rate_limiter.Prelude.Sort.{contains-sort}
use distributed_rate_limiter.Prelude.{
  String, ◌≡◌, refl, sym, ◌∙◌, false, not, ◌&&◌, ◌||◌, Option, none, some, List, [], ◌∷◌, arith,
  ◌==◌, nat_eq, string_eq, pair_eq, keep, contains, contains-keep, Distinct, Result, ok, raise,
  >>=-eq-ok, ok-injective, str_ltb,
}

abbrev pub or_else : Option Value → Option Value → Option Value
or_else none b = b
or_else (some a) b = some a

get-eq-none : (k : String) (d : Params) → contains (keys d) k ≡ false → Dict.get k d ≡ none
unfolding Dict.get
get-eq-none k [] h = refl
get-eq-none k ((j, v) ∷ d) h = ground (arith, get-eq-none k d)

-- The merge: an override wins, and any other parameter is the group's.
pub get-compute_effective_params :
    (base overrides : Params) (k : String)
    → Distinct (keys overrides)
    → Dict.get k (compute_effective_params base overrides)
      ≡ or_else (Dict.get k overrides) (Dict.get k base)
unfolding compute_effective_params Dict.get
get-compute_effective_params base [] k d = refl
get-compute_effective_params base ((j, v) ∷ overrides) k d = ground (
  arith,
  get-compute_effective_params (Dict.insert j v base) overrides k,
  get-insert j k v base,
  get-eq-none j overrides d.0,
  string_eq.equals_iff j k,
)

contains-keys-insert :
    (k j : String) (v : Value) (d : Params)
    → contains (keys (Dict.insert k v d)) j ≡ (contains (keys d) j || k == j)
unfolding Dict.insert
contains-keys-insert k j v [] = ground arith
contains-keys-insert k j v ((i, w) ∷ d) = ground (
  arith,
  string_eq.equals_iff i k,
  string_eq.equals_iff i j,
  string_eq.equals_iff k j,
  contains-keys-insert k j v d,
)

contains-keys-merge :
    (base overrides : Params) (k : String)
    → contains (keys (compute_effective_params base overrides)) k
      ≡ (contains (keys base) k || contains (keys overrides) k)
unfolding compute_effective_params
contains-keys-merge base [] k = ground arith
contains-keys-merge base ((j, v) ∷ overrides) k =
    ground (
      arith,
      contains-keys-merge (Dict.insert j v base) overrides k,
      contains-keys-insert j k v base,
    )

contains-unknown_keys :
    (base overrides : Params) (k : String)
    → contains (unknown_keys base overrides) k
      ≡ (contains (keys overrides) k && not (contains (keys base) k))
unfolding unknown_keys
contains-unknown_keys base overrides k =
    contains-sort str_ltb (keep (λ j. not (contains (keys base) j)) (keys overrides)) k
    ∙ contains-keep (λ j. not (contains (keys base) j)) (keys overrides) k

-- What an accepted set of overrides gives.
pub record Merged (rt : Runtime) (name : String) (base overrides merged : Params) : Type 0 where
  pub effective : merged ≡ compute_effective_params base overrides
  pub usable : (c : AlgorithmConfig) × (build_algorithm_config rt name merged ≡ ok c)
  pub same_keys : (k : String) → contains (keys merged) k ≡ contains (keys base) k

or_invalid-eq-ok {ℓ} :
    {A : Type ℓ} (name : String) (r : Result PyError A) {a : A}
    → or_invalid name r ≡ ok a
    → r ≡ ok a
unfolding or_invalid
or_invalid-eq-ok name (ok a) h = cc
or_invalid-eq-ok name (raise e) h = cc

checked :
    (rt : Runtime) (unknown : List String) (name : String) (merged out : Params)
    → check_unknown rt unknown name merged ≡ ok out
    → (unknown ≡ [])
      × (out ≡ merged)
      × ((c : AlgorithmConfig) × (build_algorithm_config rt name merged ≡ ok c))
unfolding check_unknown
checked rt (k ∷ ks) name merged out h = cc
checked rt [] name merged out h =
    let (c, built, returned) =
      >>=-eq-ok (or_invalid name (build_algorithm_config rt name merged)) (λ _. ok merged) h in
    (refl, sym (ok-injective returned), (c, or_invalid-eq-ok name _ built))

-- Accepted overrides: the result is the merge, the engine can build it, and it has the keys of the
-- group's parameters and no other.
pub validate_overrides-Merged :
    (rt : Runtime) (name : String) (base overrides merged : Params)
    → validate_overrides_or_raise rt name base overrides ≡ ok merged
    → Merged rt name base overrides merged
unfolding validate_overrides_or_raise
validate_overrides-Merged rt name base overrides merged h =
    let (none_unknown, same, (c, built)) =
      checked rt (unknown_keys base overrides) name (compute_effective_params base overrides) merged
        h in
    record {
      effective = same;
      usable = (c, rw same built);
      same_keys = λ k. rw same (
          ground (
            arith,
            contains-keys-merge base overrides k,
            contains-unknown_keys base overrides k,
            none_unknown,
          ));
    }
