-- ===== src/Auth/Endpoint.antt =====
-- api/v1/endpoints/auth.py: the credentials of a token request. `b64decode` is the decoding of base64 and then
-- of UTF-8, `none` where either raises.
use Prim.Native.Char.{code}
use distributed_rate_limiter.Auth.{Jwt, TokenService, issue_token}
use distributed_rate_limiter.Auth.Words.{split}
use distributed_rate_limiter.Errors.{Error, invalid_request}
use distributed_rate_limiter.Store.{Db}
use distributed_rate_limiter.Prelude.{
  ℕ, String, not, ◌||◌, Option, none, some, List, if◌then◌else◌, ◌==◌, nat_eq, string_eq, Result,
  ok, raise, ◌>>=◌, ◌>>◌, raise_if,
}

-- `s[len(p):]` if `s.startswith(p)`
unfoldable pub without_prefix : String → String → Option String
without_prefix String.[] s = some s
without_prefix (String.◌∷◌ c p) String.[] = none
without_prefix (String.◌∷◌ c p) (String.◌∷◌ d s) =
    let rest = without_prefix p s in if code c == code d then rest else none

-- `s.partition(":")`, without the separator.
unfoldable pub partition : String → String × String
partition String.[] = (String.[], String.[])
partition (String.◌∷◌ c s) =
    let rest = partition s in if code c == 58 then (String.[], s) else (String.◌∷◌ c rest.0, rest.1)

abbrev pub malformed : Error
malformed = invalid_request "Malformed HTTP Basic Authorization header"

unfoldable pub credentials_of : Option String → Result Error (Option (String × String))
unfolding partition
credentials_of none = raise malformed
credentials_of (some decoded) =
    if (partition decoded).0 == "" || (partition decoded).1 == ""
    then raise malformed
    else ok (some (partition decoded))

abbrev pub header_of : Option String → Option String
header_of none = none
header_of (some authorization) = without_prefix "Basic " authorization

module _ (b64decode : String → Option String) where
  unfoldable pub decoded_of : Option String → Result Error (Option (String × String))
  unfolding credentials_of
  decoded_of none = ok none
  decoded_of (some encoded) = credentials_of (b64decode encoded)

  -- `_parse_basic_auth`
  unfoldable pub parse_basic_auth : Option String → Result Error (Option (String × String))
  unfolding decoded_of without_prefix
  parse_basic_auth authorization = decoded_of (header_of authorization)

  -- Basic or form fields, not both.
  unfoldable pub choose_credentials :
      Option (String × String) → Option String → Option String → Result Error (String × String)
  choose_credentials (some basic) none none = ok basic
  choose_credentials (some basic) client_id client_secret =
      raise (invalid_request "Supply credentials via either HTTP Basic or form fields, not both")
  choose_credentials none (some client_id) (some client_secret) = ok (client_id, client_secret)
  choose_credentials none client_id client_secret =
      raise (invalid_request "client_id and client_secret are required (form fields or HTTP Basic)")

  -- The text of the error for another grant, which quotes it, is left out.
  unfoldable pub resolve_credentials :
      String → Option String → Option String → Option String → Result Error (String × String)
  unfolding parse_basic_auth choose_credentials
  resolve_credentials grant_type client_id client_secret authorization = do
    raise_if (not (grant_type == "client_credentials")) (invalid_request "Unsupported grant_type")
    basic ← parse_basic_auth authorization
    choose_credentials basic client_id client_secret

  -- `scope.split(" ") if scope else None`
  unfoldable pub requested_scopes : Option String → Option (List String)
  requested_scopes none = none
  requested_scopes (some scope) = if scope == "" then none else some (split scope)

  -- `POST /auth/token`
  unfoldable pub token_endpoint :
      Jwt
      → TokenService
      → (String → String)
      → ℕ
      → String
      → String
      → Option String
      → Option String
      → Option String
      → Option String
      → Db
      → Result Error (String × (ℕ × List String))
  unfolding resolve_credentials requested_scopes
  token_endpoint jwt service sha256 now jti grant_type client_id client_secret scope authorization
        db =
      do
        (id, secret) ← resolve_credentials grant_type client_id client_secret authorization
        issue_token jwt service sha256 now jti id secret (requested_scopes scope) db
