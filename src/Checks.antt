-- ===== src/Checks.antt =====
-- api/v1/endpoints/rate_limit.py and dto/rate_limit_check_request.py: `POST /check`, from the bearer token and
-- the body to the decision.
pub mod Bounded
use distributed_rate_limiter.Auth.{Jwt, TokenService, AuthenticatedClient, require_scope}
use distributed_rate_limiter.Auth.Records.{ClientsCache}
use distributed_rate_limiter.Errors.{Error, validation_error}
use distributed_rate_limiter.Identifier.{value, members, identifier_eq}
use distributed_rate_limiter.Limiter.{RateLimitResult, Call, Reply, Pair}
use distributed_rate_limiter.Service.{Env, Warned, CheckRequest, check_rate_limit}
use distributed_rate_limiter.Prelude.{
  ℕ, String, Eq, not, ◌||◌, Option, none, some, List, [], ◌∷◌, map, if◌then◌else◌, ltb, ◌==◌,
  nat_eq, string_eq, find, contains, length, Result, ok, raise, ◌>>=◌, ◌>>◌, raise_if,
}

abbrev pub max_identifiers_per_check : ℕ
max_identifiers_per_check = 3

-- The body, as JSON of the right shape: each identifier is a type and a value, both texts.
pub record RawCheck : Type 0 where
  pub endpoint : String
  pub identifiers : List (String × String)

-- `IdentifierValueDTO`: a type is given by its value, and a value is not empty.
unfoldable pub identifier_value : String × String → Result Error Pair
identifier_value (type_text, text) = elim (find (λ t. value t == type_text) members) [
  | none ↦ raise validation_error
  | some t ↦ if text == "" then raise validation_error else ok (t, text)
]

unfoldable pub identifier_values : List (String × String) → Result Error (List Pair)
unfolding identifier_value
identifier_values [] = ok []
identifier_values (entry ∷ entries) = do
  pair ← identifier_value entry
  rest ← identifier_values entries
  ok (pair ∷ rest)

-- `set(types_seen)`, as a list without repetitions.
module _ {ℓ} {A : Type ℓ} ⦃e : Eq A⦄ where
  unfoldable pub type_set : List A → List A
  type_set [] = []
  type_set (t ∷ ts) = let rest = type_set ts in if contains rest t then rest else t ∷ rest

-- `RateLimitCheckRequestDTO`, with its validator `_no_duplicate_types`.
unfoldable pub validate_check : RawCheck → Result Error CheckRequest
unfolding identifier_values type_set
validate_check raw = do
  raise_if (raw.endpoint == "") validation_error
  pairs ← identifier_values raw.identifiers
  raise_if (ltb (length pairs) 1 || ltb max_identifiers_per_check (length pairs)) validation_error
  let types_seen = map (λ p. p.0) pairs
  raise_if (not (length (type_set types_seen) == length types_seen)) validation_error
  ok (record { endpoint = raw.endpoint; identifiers = pairs })

module _ (jwt : Jwt) (tokens : TokenService) (env : Env) (redis : Call → Reply) where
  unfoldable pub check_payload :
      String
      → AuthenticatedClient
      → Warned
      → Result Error CheckRequest
      → Result Error RateLimitResult × Warned
  check_payload request_id client w (raise e) = (raise e, w)
  check_payload request_id client w (ok payload) =
      check_rate_limit env redis request_id client.pk payload w

  -- Behind the dependency `require_scope("check")`, whose error comes before those of the body.
  unfoldable pub check_as :
      String
      → RawCheck
      → Warned
      → Result Error AuthenticatedClient
      → Result Error RateLimitResult × Warned
  unfolding check_payload validate_check
  check_as request_id raw w (raise e) = (raise e, w)
  check_as request_id raw w (ok client) = check_payload request_id client w (validate_check raw)

  -- The endpoint, on the bearer token (`none` for a header without one).
  unfoldable pub check_endpoint :
      ℕ
      → Option String
      → ClientsCache
      → String
      → RawCheck
      → Warned
      → Result Error RateLimitResult × Warned
  unfolding check_as
  check_endpoint now credentials clients request_id raw w =
      check_as request_id raw w (require_scope jwt tokens "check" now credentials clients)
