-- ===== src/Auth.antt =====
-- services/auth_service.py, core/security/tokens.py, core/security/auth_dependency.py,
-- services/clients_cache.py and services/clients_loader.py: from the credentials of a client to a token,
-- and from a token to the scopes of a request. The library `jwt` is a parameter.
pub mod Words
pub mod Records
pub mod Issue
pub mod Access
pub mod Tokens
pub mod Endpoint
pub mod Credentials
use distributed_rate_limiter.Clients.{verify_secret, list_active_secrets}
use distributed_rate_limiter.Errors.{
  Error, PyError, invalid_client, invalid_scope, authentication_error, authorization_error,
}
use distributed_rate_limiter.Store.{Db, ClientRow, get_client_by_client_id}
use distributed_rate_limiter.Auth.Words.{split}
use distributed_rate_limiter.Prelude.Dict
use distributed_rate_limiter.Prelude.Dict.{Dict}
use distributed_rate_limiter.Prelude.Sort.{sort}
use distributed_rate_limiter.Prelude.{
  ℕ, ◌+◌, String, not, Option, none, some, List, [], ◌∷◌, if◌then◌else◌, ◌==◌, string_eq, keep, all,
  any, contains, str_ltb, join, Result, ok, raise, ◌>>=◌, ◌>>◌, raise_if,
}
use distributed_rate_limiter.Auth.Records.{ClientRecord, ClientsCache, get_by_client_id}

-- `set(xs)`, as a list without repetitions.
unfoldable pub to_set : List String → List String
to_set [] = []
to_set (x ∷ xs) = let rest = to_set xs in if contains xs x then rest else x ∷ rest

-- `sorted(set(xs))`
unfoldable pub sorted_set : List String → List String
unfolding to_set
sorted_set xs = sort str_ltb (to_set xs)

-- `_resolve_scopes`
unfoldable pub resolve_scopes : ClientRow → Option (List String) → Result Error (List String)
unfolding sorted_set
resolve_scopes client none = ok (sorted_set client.scopes)
resolve_scopes client (some requested) =
    if all (contains client.scopes) requested
    then ok (sorted_set requested)
    else raise (invalid_scope (sorted_set (keep (λ s. not (contains client.scopes s)) requested)))

pub record Claims : Type 0 where
  pub iss : String
  pub aud : String
  pub sub : String
  pub scope : String
  pub iat : ℕ
  pub exp : ℕ
  pub jti : String

infixr 5 ◌and_then◌
abbrev pub ◌and_then◌ {ℓ κ} : {A : Type ℓ} {B : Type κ} → Option A → (A → Option B) → Option B
none and_then f = none
some a and_then f = f a

-- What the service uses of the library. `decode` is given the time, the key, the issuer, the audience
-- and the leeway; it and `get_unverified_header` return `none` for an `InvalidTokenError`.
pub record Jwt : Type 0 where
  pub encode : Claims → String → String → String
  pub get_unverified_header : String → Option (Option String)
  pub decode : ℕ → String → String → String → String → ℕ → Option Claims

abbrev pub clock_skew_leeway_seconds : ℕ
clock_skew_leeway_seconds = 30

pub record TokenService : Type 0 where
  pub signing_keys : Dict String String
  pub active_kid : String
  pub issuer : String
  pub audience : String
  pub ttl_seconds : ℕ

pub record TokenClaims : Type 0 where
  pub client_id : String
  pub scopes : List String
  pub jti : String

module _ (jwt : Jwt) (service : TokenService) where
  -- `_signing_keys[_active_kid]`, which settings check at the start.
  unfoldable pub issue : ℕ → String → String → List String → Result Error (String × ℕ)
  issue now jti client_id scopes = elim (Dict.get service.active_kid service.signing_keys) [
    | none ↦ raise (Error.uncaught (PyError.key_error service.active_kid))
    | some key ↦ ok (
      jwt.encode
          (record {
            iss = service.issuer;
            aud = service.audience;
            sub = client_id;
            scope = join " " scopes;
            iat = now;
            exp = now + service.ttl_seconds;
            jti = jti;
          })
          key service.active_kid,
      service.ttl_seconds,
    )
  ]

  -- `scope_claim.split(" ") if scope_claim else []`
  unfoldable pub scopes_of : String → List String
  scopes_of claim = if claim == "" then [] else split claim

  unfoldable pub key_of : Option String → Option String
  key_of none = none
  key_of (some kid) = Dict.get kid service.signing_keys

  unfoldable pub token_claims : Claims → TokenClaims
  unfolding scopes_of
  token_claims c = record { client_id = c.sub; scopes = scopes_of c.scope; jti = c.jti }

  -- `jwt.decode` with the pinned issuer, audience and leeway.
  unfoldable pub decode_with : ℕ → String → String → Option TokenClaims
  unfolding token_claims
  decode_with now token key =
      jwt.decode now token key service.issuer service.audience clock_skew_leeway_seconds
      and_then λ c. some (token_claims c)

  -- `verify`: `none` for a TokenError.
  unfoldable pub verify : ℕ → String → Option TokenClaims
  unfolding decode_with key_of
  verify now token = jwt.get_unverified_header token and_then λ kid.
      key_of kid and_then λ key. decode_with now token key

  module _ (sha256 : String → String) where
    -- `issue_token`, for the client that was found.
    unfoldable pub issue_to :
        ℕ
        → String
        → String
        → Option (List String)
        → Db
        → Option ClientRow
        → Result Error (String × (ℕ × List String))
    unfolding resolve_scopes issue
    issue_to now jti client_secret requested db none = raise invalid_client
    issue_to now jti client_secret requested db (some client) = do
      raise_if (not (client.status == "active")) invalid_client
      raise_if
          (not (
            any (λ s. verify_secret sha256 client_secret s.secret_hash)
              (list_active_secrets now client.id db)))
          invalid_client
      granted ← resolve_scopes client requested
      issued ← issue now jti client.client_id granted
      ok (issued.0, (issued.1, granted))

    -- `AuthService.issue_token`
    unfoldable pub issue_token :
        ℕ
        → String
        → String
        → String
        → Option (List String)
        → Db
        → Result Error (String × (ℕ × List String))
    unfolding issue_to
    issue_token now jti client_id client_secret requested db =
        issue_to now jti client_secret requested db (get_client_by_client_id client_id db)

pub record AuthenticatedClient : Type 0 where
  pub pk : String
  pub client_id : String
  pub scopes : List String

-- The record of a verified token, and its effective scopes: `frozenset(claims) & frozenset(record)`.
unfoldable pub authorize :
    String → TokenClaims → Option ClientRecord → Result Error AuthenticatedClient
authorize scope claims none = raise authorization_error
authorize scope claims (some r) = do
  raise_if (not (r.status == "active")) authorization_error
  let effective = keep (contains r.scopes) claims.scopes
  raise_if (not (contains effective scope)) authorization_error
  ok (record { pk = r.pk; client_id = r.client_id; scopes = effective })

unfoldable pub authorized :
    String → Option TokenClaims → ClientsCache → Result Error AuthenticatedClient
unfolding authorize get_by_client_id
authorized scope none cache = raise authentication_error
authorized scope (some claims) cache =
    authorize scope claims (get_by_client_id claims.client_id cache)

-- `require_scope(scope)`, on the credentials of a bearer header: `none` for a missing or other header.
unfoldable pub require_scope :
    Jwt
    → TokenService
    → String
    → ℕ
    → Option String
    → ClientsCache
    → Result Error AuthenticatedClient
unfolding verify authorized
require_scope jwt service scope now none cache = raise authentication_error
require_scope jwt service scope now (some token) cache =
    authorized scope (verify jwt service now token) cache
