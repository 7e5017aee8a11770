-- ===== src/Examples/Clients.antt =====
-- Tests and examples of the clients, their secrets and their tokens.
use distributed_rate_limiter.Auth.{
  Claims, Jwt, TokenService, AuthenticatedClient, issue, issue_token, require_scope,
}
use distributed_rate_limiter.Auth.Records.{
  ClientsCache, get_by_client_id, run_scheduled_clients_poll,
}
use distributed_rate_limiter.Auth.Access.{GivesAccess, require_scope-GivesAccess}
use distributed_rate_limiter.Auth.Issue.{Has, IsGranted, issue_token-IsGranted}
use distributed_rate_limiter.Auth.Tokens.{may_use, is_ok, require_scope-issue}
use distributed_rate_limiter.Clients.{count_active_secrets, list_active_secrets, verify_secret}
use distributed_rate_limiter.Clients.Handle.{
  ClientRequest, another_secret, revocation, handle_client, handle_clients,
}
use distributed_rate_limiter.Clients.Keeps.{handle_clients-IsCapped}
use distributed_rate_limiter.Clients.Owners.{IsCapped}
use distributed_rate_limiter.Clients.LastSecret.{handle_client-last_secret}
use distributed_rate_limiter.Auth.Endpoint.{parse_basic_auth, token_endpoint}
use distributed_rate_limiter.Auth.Credentials.{
  IsJudged, token_endpoint-IsJudged, parse_basic_auth-header,
}
use distributed_rate_limiter.Identifier.{user_id, ip_address, identifier_eq}
use distributed_rate_limiter.Limiter.{Hasher, Pair, build_client_identifier}
use distributed_rate_limiter.Limiter.Keys.{build_client_identifier_unordered}
use distributed_rate_limiter.Examples.Signing.{jwt, jwt-JwtLaws}
use distributed_rate_limiter.Auth.Words.{split}
use distributed_rate_limiter.Prelude.Dict
use distributed_rate_limiter.Prelude.Sort.{sort}
use distributed_rate_limiter.Prelude.{
  join, ℕ, Option, map, ◌⧺◌, pair_eq, ◌≤◌, String, ◌≡◌, refl, false, ◌&&◌, none, some, List, [],
  ◌∷◌, arith, contains, ok, nat_eq, string_eq,
}
use distributed_rate_limiter.Store.{Db, ClientRow, SecretRow, get_client_by_client_id}

abbrev acme : ClientRow
acme = record {
  id = "c1";
  client_id = "acme";
  name = "Acme";
  description = none;
  status = "active";
  scopes = "check" ∷ "admin" ∷ [];
}

abbrev old_secret : SecretRow
old_secret = record {
  id = "s1";
  client_pk = "c1";
  secret_hash = "tulip";
  secret_hint = "ulip";
  expires_at = some 50;
  revoked_at = none;
}

abbrev newer_secret : SecretRow
newer_secret = record old_secret {
  id = "s2";
  secret_hash = "daisy";
  secret_hint = "aisy";
  expires_at = none;
}

abbrev db : Db
db = record {
  clients = acme ∷ [];
  secrets = old_secret ∷ newer_secret ∷ [];
  algorithms = [];
  groups = [];
  rules = [];
}

abbrev pub empty : ClientsCache
empty = record { by_client_id = []; by_pk = []; ready = false; last_loaded_at = none }

-- A digest that is simple to follow.
abbrev pub plain : String → String
plain text = text

at_most_two : (pk : String) → count_active_secrets 10 pk db ≤ 2
unfolding count_active_secrets
at_most_two pk = ground arith

db-IsCapped : IsCapped 10 db
db-IsCapped = record { owned = (refl, (refl, tt)); capped = at_most_two }

abbrev in_a_day : List (ℕ × ClientRequest)
in_a_day = (20, revocation "acme" "s1") ∷ (30, another_secret "acme" "s3" "rose") ∷ []

handle_clients-IsCapped_example : IsCapped 30 (handle_clients plain in_a_day db)
handle_clients-IsCapped_example =
    handle_clients-IsCapped plain 10 in_a_day db (omega arith, (omega arith, tt)) db-IsCapped

one_left : 1 ≤ count_active_secrets 60 "c1" db
unfolding count_active_secrets
one_left = omega arith

handle_client-last_secret_example :
    1 ≤ count_active_secrets 60 "c1" (handle_client plain 60 (revocation "acme" "s2") db).1
handle_client-last_secret_example =
    handle_client-last_secret plain 60 "c1" (revocation "acme" "s2") db refl (λ e. refl, tt)
      one_left

abbrev pub tokens : TokenService
tokens = record {
  signing_keys = ("k1", "key") ∷ [];
  active_kid = "k1";
  issuer = "limiter";
  audience = "api";
  ttl_seconds = 600;
}

abbrev claims : Claims
claims = record {
  iss = "limiter";
  aud = "api";
  sub = "acme";
  scope = "check";
  iat = 10;
  exp = 610;
  jti = "j1";
}

abbrev token : String
token = jwt.encode claims "key" "k1"

abbrev checking : List String
checking = "check" ∷ []

issue_checking :
    issue_token jwt tokens plain 10 "j1" "acme" "daisy" (some checking) db
    ≡ ok (token, (600, checking))
unfolding issue_token get_client_by_client_id list_active_secrets verify_secret Dict.get join sort
issue_checking = refl

issue_token-IsGranted_example : IsGranted plain 10 "acme" "daisy" (some checking) db checking
issue_token-IsGranted_example =
    issue_token-IsGranted jwt tokens plain 10 "j1" "acme" "daisy" (some checking) db token 600
      checking issue_checking

issue_acme : issue jwt tokens 10 "j1" "acme" checking ≡ ok (token, 600)
unfolding issue Dict.get join
issue_acme = refl

abbrev polled : ClientsCache
polled = run_scheduled_clients_poll 5 (some (acme ∷ [])) empty

require_scope-issue_example :
    is_ok (require_scope jwt tokens "check" 600 (some token) polled)
    ≡ (contains checking "check" && may_use "check" (get_by_client_id "acme" polled))
require_scope-issue_example =
    require_scope-issue jwt jwt-JwtLaws tokens 10 600 "j1" "acme" token "check" checking 600 polled
      (refl, tt) issue_acme (omega arith) (omega arith)

-- A library that takes every token for the one above.
abbrev pub trusting : Jwt
trusting = record {
  encode = λ c key kid. kid;
  get_unverified_header = λ token. some (some "k1");
  decode = λ now token key iss aud leeway. some claims;
}

abbrev pub authenticated : AuthenticatedClient
authenticated = record { pk = "c1"; client_id = "acme"; scopes = checking }

require_checking : require_scope trusting tokens "check" 20 (some "t") polled ≡ ok authenticated
unfolding require_scope Dict.get run_scheduled_clients_poll Dict.insert split
require_checking = refl

require_scope-GivesAccess_example : Has (GivesAccess "check" authenticated) (acme ∷ [])
require_scope-GivesAccess_example =
    require_scope-GivesAccess trusting tokens "check" 5 20 (some "t") (acme ∷ []) empty
      authenticated require_checking

-- A decoding that is simple to follow.
abbrev decode_plain : String → Option String
decode_plain text = some text

abbrev basic_header : Option String
basic_header = some "Basic acme:daisy"

ask_token :
    token_endpoint decode_plain jwt tokens plain 10 "j1" "client_credentials" none none
      (some "check")
      basic_header
      db
    ≡ ok (token, (600, checking))
unfolding token_endpoint issue_token get_client_by_client_id list_active_secrets verify_secret split
    Dict.get join sort
ask_token = refl

token_endpoint-IsJudged_example :
    IsJudged decode_plain plain 10 "client_credentials" none none
      (some "check")
      basic_header
      db
      checking
token_endpoint-IsJudged_example =
    token_endpoint-IsJudged decode_plain jwt tokens plain 10 "j1" "client_credentials" none none
      (some "check") basic_header db token 600 checking ask_token

parse_basic_auth-header_example :
    parse_basic_auth decode_plain (some ("Basic " ⧺ "acme:daisy:1")) ≡ ok (some ("acme", "daisy:1"))
parse_basic_auth-header_example =
    parse_basic_auth-header decode_plain "acme:daisy:1" "acme" "daisy:1" refl refl refl refl

abbrev hashed : Hasher
hashed = record { dumps = λ pairs. join "," (map (λ p. p.1) pairs); hmac_hex = λ s. s }

abbrev ann_here : List Pair
ann_here = (user_id, "ann") ∷ (ip_address, "10.0.0.1") ∷ []

abbrev here_ann : List Pair
here_ann = (ip_address, "10.0.0.1") ∷ (user_id, "ann") ∷ []

same_pairs : (p : Pair) → contains ann_here p ≡ contains here_ann p
same_pairs p = ground arith

build_client_identifier_unordered_example :
    build_client_identifier hashed ann_here ≡ build_client_identifier hashed here_ann
build_client_identifier_unordered_example =
    build_client_identifier_unordered hashed ann_here here_ann ((refl, tt), (tt, tt))
      ((refl, tt), (tt, tt)) same_pairs
