-- ===== src/Auth/Credentials.antt =====
-- Which credentials a token request is judged by.
use Prim.Native.Char.{code}
use text.Mathlib.TextLemmas.{cons-append, nil-append}
use distributed_rate_limiter.Auth.{Jwt, TokenService}
use distributed_rate_limiter.Auth.Endpoint.{
  without_prefix, partition, malformed, credentials_of, decoded_of, parse_basic_auth,
  choose_credentials, resolve_credentials, requested_scopes, token_endpoint,
}
use distributed_rate_limiter.Auth.Issue.{IsGranted, issue_token-IsGranted}
use distributed_rate_limiter.Errors.{invalid_request}
use distributed_rate_limiter.Store.{Db}
use distributed_rate_limiter.Prelude.{
  raise_if-eq-ok, ℕ, String, ◌⧺◌, ◌≡◌, refl, ap, ◌∙◌, ◌⊎◌, inl, inr, Bool, false, not, ◌||◌, Option,
  none, some, List, if◌then◌else◌, ◌==◌, nat_eq, string_eq, arith, beq_refl, ok, raise, raise_if,
  >>=-eq-ok, ok-injective,
}

module _ (b64decode : String → Option String) where
  -- The credentials of the Basic header, with no form fields, or both form fields and no Basic header.
  abbrev pub IsSource : Option String → Option String → Option String → String → String → Type 0
  IsSource client_id client_secret authorization id secret =
      ((parse_basic_auth b64decode authorization ≡ ok (some (id, secret)))
        × (client_id ≡ none)
        × (client_secret ≡ none))
      ⊎ ((parse_basic_auth b64decode authorization ≡ ok none)
          × (client_id ≡ some id)
          × (client_secret ≡ some secret))

  choose_credentials-IsSource :
      (basic : Option (String × String)) (client_id client_secret authorization : Option String)
      (id secret : String)
      → parse_basic_auth b64decode authorization ≡ ok basic
      → choose_credentials b64decode basic client_id client_secret ≡ ok (id, secret)
      → IsSource client_id client_secret authorization id secret
  unfolding choose_credentials
  choose_credentials-IsSource (some basic) none none authorization id secret parsed h =
      inl (parsed ∙ ap (λ q. ok (some q)) (ok-injective h), refl, refl)
  choose_credentials-IsSource (some basic) none (some s) authorization id secret parsed h = cc
  choose_credentials-IsSource (some basic) (some c) client_secret authorization id secret parsed h =
      cc
  choose_credentials-IsSource none (some c) (some s) authorization id secret parsed h =
      let same = ok-injective h in inr (parsed, ap (λ q. some q.0) same, ap (λ q. some q.1) same)
  choose_credentials-IsSource none (some c) none authorization id secret parsed h = cc
  choose_credentials-IsSource none none client_secret authorization id secret parsed h = cc

  pub record IsJudged (sha256 : String → String) (now : ℕ) (grant_type : String)
      (client_id client_secret scope authorization : Option String) (db : Db)
      (granted : List String) : Type 0 where
    pub grant : grant_type ≡ "client_credentials"
    pub id : String
    pub secret : String
    pub source : IsSource client_id client_secret authorization id secret
    pub judged : IsGranted sha256 now id secret (requested_scopes b64decode scope) db granted

  -- The token endpoint gives a token only for the grant of client credentials, with the credentials either of
  -- the Basic header, and then no form field, or of both form fields, and then no Basic header; and only to a
  -- client to which the service issues one for just these credentials and the scopes asked for.
  pub token_endpoint-IsJudged :
      (jwt : Jwt) (service : TokenService) (sha256 : String → String) (now : ℕ)
      (jti grant_type : String) (client_id client_secret scope authorization : Option String)
      (db : Db) (token : String) (expires_in : ℕ) (granted : List String)
      → token_endpoint b64decode jwt service sha256 now jti grant_type client_id client_secret scope
          authorization db
        ≡ ok (token, (expires_in, granted))
      → IsJudged sha256 now grant_type client_id client_secret scope authorization db granted
  unfolding token_endpoint resolve_credentials
  token_endpoint-IsJudged jwt service sha256 now jti grant_type client_id client_secret scope
        authorization db token expires_in granted h =
      let (given, resolved, issued) =
        >>=-eq-ok (resolve_credentials b64decode grant_type client_id client_secret authorization) _
          h in
      let (u, supported, h₁) =
        >>=-eq-ok
          (raise_if (not (grant_type == "client_credentials"))
            (invalid_request "Unsupported grant_type"))
          _ resolved in
      let (basic, parsed, chosen) = >>=-eq-ok (parse_basic_auth b64decode authorization) _ h₁ in
      let not_other = raise_if-eq-ok (not (grant_type == "client_credentials")) _ supported in
      record {
        grant =
            (string_eq.equals_iff grant_type "client_credentials").0 (ground (arith, not_other));
        id = given.0;
        secret = given.1;
        source =
            choose_credentials-IsSource basic client_id client_secret authorization given.0 given.1
              parsed chosen;
        judged =
            issue_token-IsGranted jwt service sha256 now jti given.0 given.1
              (requested_scopes b64decode scope) db token expires_in granted issued;
      }

without_prefix-append : (p s : String) → without_prefix p (p ⧺ s) ≡ some s
unfolding without_prefix
without_prefix-append String.[] s = ap some (nil-append s)
without_prefix-append (String.◌∷◌ c p) s =
    rw (cons-append c p s, beq_refl (code c)) (without_prefix-append p s)

abbrev pub has_colon : String → Bool
has_colon String.[] = false
has_colon (String.◌∷◌ c s) = code c == 58 || has_colon s

partition-colon : (s : String) → partition (":" ⧺ s) ≡ ("", s)
unfolding partition
partition-colon s = rw (cons-append _ String.[] s, nil-append s) refl

partition-append :
    (id secret : String) → has_colon id ≡ false → partition (id ⧺ (":" ⧺ secret)) ≡ (id, secret)
unfolding partition
partition-append String.[] secret h = rw (nil-append (":" ⧺ secret)) (partition-colon secret)
partition-append (String.◌∷◌ c id) secret h =
    rw (cons-append c id (":" ⧺ secret)) (ground (arith, partition-append id secret))

-- A client that sends `Basic ` with the base64 of its id, a colon and its secret is read as just these, where the
-- id has no colon and neither is empty; the secret may have colons.
pub parse_basic_auth-header :
    (b64decode : String → Option String) (encoded id secret : String)
    → b64decode encoded ≡ some (id ⧺ (":" ⧺ secret))
    → has_colon id ≡ false
    → (id == "") ≡ false
    → (secret == "") ≡ false
    → parse_basic_auth b64decode (some ("Basic " ⧺ encoded)) ≡ ok (some (id, secret))
unfolding parse_basic_auth decoded_of credentials_of
parse_basic_auth-header b64decode encoded id secret decoded plain some_id some_secret =
    let present : (id == "" || secret == "") ≡ false = ground (arith, some_id, some_secret) in
    ap (decoded_of b64decode) (without_prefix-append "Basic " encoded)
    ∙ ap credentials_of decoded
    ∙ ap (λ q. if q.0 == "" || q.1 == "" then raise malformed else ok (some q))
        (partition-append id secret plain)
    ∙ ap (λ b. if b then raise malformed else ok (some (id, secret))) present
