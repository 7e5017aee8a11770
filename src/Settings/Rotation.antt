-- ===== src/Settings/Rotation.antt =====
-- Tokens across a change of the signing keys: core/security/tokens.py with the settings of two processes.
use distributed_rate_limiter.Auth.{Jwt, TokenService, clock_skew_leeway_seconds, issue, verify}
use distributed_rate_limiter.Auth.Tokens.{JwtLaws, is_word, signed, verify-signed}
use distributed_rate_limiter.Errors.{Error, PyError}
use distributed_rate_limiter.Settings.{Environ, Readers, Settings, reload}
use distributed_rate_limiter.Settings.Accepted.{reload-IsUsable}
use distributed_rate_limiter.Prelude.Dict
use distributed_rate_limiter.Prelude.Int.{pos}
use distributed_rate_limiter.Prelude.{
  ℕ, ◌+◌, ◌≤◌, ◌<◌, String, ◌≡◌, ap, ◌∙◌, Bool, true, Option, none, some, List, if◌then◌else◌,
  string_eq, All, Result, ok, raise,
}

-- The constructor of `TokenService`, for a lifetime that is not negative.
unfoldable pub token_service :
    (s : Settings) (ttl : ℕ) → s.auth_token_ttl_seconds ≡ pos ttl → TokenService
token_service s ttl lifetime = record {
  signing_keys = s.auth_jwt_signing_keys;
  active_kid = s.auth_jwt_active_kid;
  issuer = s.auth_jwt_issuer;
  audience = s.auth_jwt_audience;
  ttl_seconds = ttl;
}

pub issue-ok :
    (jwt : Jwt) (service : TokenService) (issued_at : ℕ) (jti client_id key : String)
    (scopes : List String)
    → Dict.get service.active_kid service.signing_keys ≡ some key
    → issue jwt service issued_at jti client_id scopes
      ≡ ok (signed jwt service issued_at jti client_id scopes key, service.ttl_seconds)
unfolding issue
issue-ok jwt service issued_at jti client_id key scopes held =
    ap
      (λ (o : Option String).
        let r : Result Error (String × ℕ) = elim o [
          | none ↦ raise (Error.uncaught (PyError.key_error service.active_kid))
          | some k ↦ ok (signed jwt service issued_at jti client_id scopes k, service.ttl_seconds)
        ] in
        r)
      held

-- What is said of a token: it is issued, and the later service verifies it exactly if the key was kept.
pub record Rotates (jwt : Jwt) (service later : TokenService) (issued_at now : ℕ)
    (jti client_id : String) (scopes : List String) (kept : Bool) : Type 0 where
  pub token : String
  pub issued : issue jwt service issued_at jti client_id scopes ≡ ok (token, service.ttl_seconds)
  pub verified :
      verify jwt later now token
      ≡ (if kept then some (record { client_id = client_id; scopes = scopes; jti = jti }) else none)

-- With settings that a reload accepts, a token is issued for every client and all scopes: the service never
-- misses its own key. A process with other settings, of the same issuer and audience, verifies the token
-- while it is valid, to that client and those scopes, if its signing keys have the old active key under the
-- old name, whichever key is active there; once the name is removed it does not. Lifetimes are not negative,
-- and scopes are words without a space.
pub issue-Rotates :
    (jwt : Jwt) (py : Readers) (environ : Environ) (before first second : Settings)
    (ttl later_ttl : ℕ) (lifetime : first.auth_token_ttl_seconds ≡ pos ttl)
    (later_lifetime : second.auth_token_ttl_seconds ≡ pos later_ttl) (issued_at now : ℕ)
    (jti client_id : String) (scopes : List String) (kept : Bool)
    → JwtLaws jwt
    → reload py environ before ≡ (first, ok tt)
    → second.auth_jwt_issuer ≡ first.auth_jwt_issuer
    → second.auth_jwt_audience ≡ first.auth_jwt_audience
    → Dict.get first.auth_jwt_active_kid second.auth_jwt_signing_keys
      ≡ (if kept then Dict.get first.auth_jwt_active_kid first.auth_jwt_signing_keys else none)
    → All (λ s. is_word s ≡ true) scopes
    → issued_at ≤ now + clock_skew_leeway_seconds
    → now < (issued_at + ttl) + clock_skew_leeway_seconds
    → Rotates jwt
        (token_service first ttl lifetime)
        (token_service second later_ttl later_lifetime)
        issued_at
        now
        jti
        client_id
        scopes
        kept
unfolding token_service
issue-Rotates jwt py environ before first second ttl later_ttl lifetime later_lifetime issued_at now
      jti client_id scopes kept laws accepted same_issuer same_audience keeps words started ends =
    let usable = reload-IsUsable py environ before first accepted in
    let service = token_service first ttl lifetime in
    record {
      token = signed jwt service issued_at jti client_id scopes usable.active_key;
      issued = issue-ok jwt service issued_at jti client_id usable.active_key scopes usable.active;
      verified =
          verify-signed jwt laws service (token_service second later_ttl later_lifetime) same_issuer
            same_audience issued_at now jti client_id usable.active_key scopes kept words
            (keeps ∙ ap (λ o. if kept then o else none) usable.active) started ends;
    }
