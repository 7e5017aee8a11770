-- ===== src/Examples/Rules.antt =====
-- Tests and examples of the identifier types, the parameters and the rules cache.
use distributed_rate_limiter.Params.Overrides.{
  unknown_keys, check_unknown, or_invalid, compute_effective_params, validate_overrides_or_raise,
}
use distributed_rate_limiter.Examples.{runtime, bucket_params, by_user, rules, loaded}
use distributed_rate_limiter.Identifier.RuleTypes.{
  RawType, user_id, normalize_identifier_types, raw_value,
}
use distributed_rate_limiter.Identifier.RuleTypes
use distributed_rate_limiter.Identifier.Canonical.{normalize_unique}
use distributed_rate_limiter.Params.{
  Value, Params, AlgorithmConfig, token_bucket, build_algorithm_config,
}
use distributed_rate_limiter.Params.Config.{
  IsPositive, algorithm_names, build-IsPositive, build_ignores_others,
}
use distributed_rate_limiter.Params.Merge.{Merged, validate_overrides-Merged}
use distributed_rate_limiter.Prelude.Dict
use distributed_rate_limiter.Prelude.Int.{pos}
use distributed_rate_limiter.Prelude.Sort.{sort}
use distributed_rate_limiter.RulesCache
use distributed_rate_limiter.RulesCache.{init, get_candidates, get_global, upsert, sort_key_lt}
use distributed_rate_limiter.RulesCache.Index.{
  is_candidate, is_global_of, get_candidates-load_all, get_global-load_all, get-load_all,
}
use distributed_rate_limiter.RulesCache.Resolution.{
  IsVisible, get_candidates-IsVisible, get_candidates-IsRanked, IsRanked,
}
use distributed_rate_limiter.RulesCache.Updates.{IsKeyed, load_all-IsKeyed, get-upsert}
use distributed_rate_limiter.Prelude.{
  String, ◌≡◌, refl, true, false, some, List, [], ◌∷◌, ◌++◌, map, arith, if◌then◌else◌, ◌==◌,
  nat_eq, string_eq, pair_eq, list_eq, keep, find_last, All, contains, ok, str_ltb, join,
}

abbrev raws : List RawType
raws = RawType.member user_id ∷ RawType.text "ip" ∷ RawType.text "user_id" ∷ []

abbrev raws_again : List RawType
raws_again = RawType.text "ip" ∷ RawType.member user_id ∷ []

abbrev types : List String
types = "ip" ∷ "user_id" ∷ []

abbrev signature : String
signature = "ip+user_id"

normalize_raws : normalize_identifier_types raws ≡ ok (types, signature)
unfolding normalize_identifier_types sort join str_ltb
normalize_raws = refl

normalize_raws_again : normalize_identifier_types raws_again ≡ ok (types, signature)
unfolding normalize_identifier_types sort join str_ltb
normalize_raws_again = refl

same_types : (s : String) → contains (map raw_value raws) s ≡ contains (map raw_value raws_again) s
unfolding raw_value RuleTypes.value
same_types s = ground arith

normalize_unique_example : (types ≡ types) × (signature ≡ signature)
normalize_unique_example =
    normalize_unique raws raws_again types types signature signature normalize_raws
      normalize_raws_again same_types

abbrev bucket_config : AlgorithmConfig
bucket_config = token_bucket (pos 10) 2

build_bucket : build_algorithm_config runtime "TokenBucket" bucket_params ≡ ok bucket_config
unfolding build_algorithm_config Dict.get
build_bucket = refl

build-IsPositive_example :
    IsPositive runtime bucket_config × (contains algorithm_names "TokenBucket" ≡ true)
build-IsPositive_example =
    build-IsPositive runtime "TokenBucket" bucket_params bucket_config build_bucket

abbrev with_tokens : Params
with_tokens = bucket_params ++ ("initial_tokens", Value.int (pos 3)) ∷ []

get_of :
    (k : String)
    → (k == "initial_tokens") ≡ false
    → Dict.get k bucket_params ≡ Dict.get k with_tokens
unfolding Dict.get
get_of k h =
    ground (arith, string_eq.equals_iff "initial_tokens" k, string_eq.equals_iff k "initial_tokens")

build_ignores_others_example :
    build_algorithm_config runtime "TokenBucket" bucket_params
    ≡ build_algorithm_config runtime "TokenBucket" with_tokens
build_ignores_others_example =
    build_ignores_others runtime "TokenBucket" bucket_params with_tokens (get_of "limit" refl)
      (get_of "window_seconds" refl) (get_of "capacity" refl) (get_of "refill_rate" refl)
      (get_of "leak_rate" refl)

abbrev more : Params
more = ("capacity", Value.int (pos 20)) ∷ []

abbrev merged : Params
merged = ("capacity", Value.int (pos 20)) ∷ ("refill_rate", Value.int (pos 2)) ∷ []

validate_more : validate_overrides_or_raise runtime "TokenBucket" bucket_params more ≡ ok merged
unfolding validate_overrides_or_raise check_unknown unknown_keys sort or_invalid
    build_algorithm_config Dict.get compute_effective_params Dict.insert
validate_more = refl

validate_overrides-Merged_example : Merged runtime "TokenBucket" bucket_params more merged
validate_overrides-Merged_example =
    validate_overrides-Merged runtime "TokenBucket" bucket_params more merged validate_more

get_candidates-load_all_example :
    get_candidates "c1" "/pay" loaded ≡ sort sort_key_lt (keep (is_candidate ("c1", "/pay")) rules)
get_candidates-load_all_example = get_candidates-load_all 0 rules init "c1" "/pay"

get_global-load_all_example :
    get_global "c1" "/pay" loaded ≡ find_last (is_global_of ("c1", "/pay")) rules
get_global-load_all_example = get_global-load_all 0 rules init "c1" "/pay"

get-load_all_example : RulesCache.get "r2" loaded ≡ find_last (λ r. r.id == "r2") rules
get-load_all_example = get-load_all 0 rules init "r2"

get_candidates-IsVisible_example : All (IsVisible "c1" "/pay") (get_candidates "c1" "/pay" loaded)
get_candidates-IsVisible_example = get_candidates-IsVisible 0 rules init "c1" "/pay"

get_candidates-IsRanked_example : IsRanked (get_candidates "c1" "/pay" loaded)
get_candidates-IsRanked_example = get_candidates-IsRanked 0 rules init "c1" "/pay"

load_all-IsKeyed_example : IsKeyed loaded.rules_by_id
load_all-IsKeyed_example = load_all-IsKeyed 0 rules init

get-upsert_example :
    RulesCache.get "r2" (upsert 1 by_user loaded)
    ≡ (if by_user.id == "r2" then some by_user else RulesCache.get "r2" loaded)
get-upsert_example = get-upsert 1 by_user loaded "r2" (load_all-IsKeyed 0 rules init)
