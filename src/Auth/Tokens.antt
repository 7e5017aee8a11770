-- ===== src/Auth/Tokens.antt =====
-- A token that was issued, presented again.
use distributed_rate_limiter.Auth.{
  Claims, Jwt, TokenService, TokenClaims, issue, scopes_of, key_of, token_claims, decode_with,
  ◌and_then◌, verify, authorize, authorized, require_scope, clock_skew_leeway_seconds,
}
use distributed_rate_limiter.Auth.Records.{ClientRecord, ClientsCache, get_by_client_id}
use distributed_rate_limiter.Auth.Words.{has_space, split, split-join}
use distributed_rate_limiter.Errors.{Error, PyError}
use Prim.Native.Char.{Char}
use text.Mathlib.TextLemmas.{cons-append}
use distributed_rate_limiter.Prelude.Dict
use distributed_rate_limiter.Prelude.{
  sym, ℕ, ◌+◌, ◌≤◌, ◌<◌, String, ◌⧺◌, ◌≡◌, refl, ap, ◌∙◌, subst, Bool, true, false, not, ◌&&◌,
  Option, none, some, List, [], ◌∷◌, if◌then◌else◌, arith, ◌==◌, string_eq, contains, contains-keep,
  All, All-map, Result, ok, raise, ok-injective, join,
}

-- What the documentation of the library says: the header names the key, and a token decodes to its claims
-- under the key that signed it, for the issuer and the audience that it names, while it is valid.
pub record JwtLaws (jwt : Jwt) : Type 0 where
  pub header :
      (claims : Claims) (key kid : String)
      → jwt.get_unverified_header (jwt.encode claims key kid) ≡ some (some kid)
  pub decoded :
      (claims : Claims) (key kid : String) (now leeway : ℕ)
      → claims.iat ≤ now + leeway
      → now < claims.exp + leeway
      → jwt.decode now (jwt.encode claims key kid) key claims.iss claims.aud leeway ≡ some claims

abbrev pub is_word : String → Bool
is_word s = not (s == "") && not (has_space s)

abbrev is_cons : String → Bool
is_cons String.[] = false
is_cons (String.◌∷◌ c s) = true

cons_not_empty : (c : Char) (s : String) → (String.◌∷◌ c s == "") ≡ false
cons_not_empty c s = by_test (String.◌∷◌ c s == "") refl
  where
    by_test : (b : Bool) → (String.◌∷◌ c s == "") ≡ b → b ≡ false
    by_test true e =
        absurd (
          let bad : true ≡ false = ap is_cons ((string_eq.equals_iff (String.◌∷◌ c s) "").0 e) in
          cc)
    by_test false e = refl

-- The scopes that were joined into a claim are found in it.
scopes_of-join :
    (jwt : Jwt) (service : TokenService) (scopes : List String)
    → All (λ s. is_word s ≡ true) scopes
    → scopes_of jwt service (join " " scopes) ≡ scopes
unfolding scopes_of join
scopes_of-join jwt service [] h = refl
scopes_of-join jwt service (s ∷ scopes) h =
    ap (λ b. if b then [] else split (join " " (s ∷ scopes)))
      (not_empty s scopes (ground (arith, h.0)))
    ∙ split-join s scopes (All-map (λ w k. ground (arith, k)) (s ∷ scopes) h)
  where
    not_empty :
        (s : String) (ss : List String) → (s == "") ≡ false → (join " " (s ∷ ss) == "") ≡ false
    not_empty s [] k = k
    not_empty String.[] (t ∷ ss) k = absurd (let bad : true ≡ false = k in cc)
    not_empty (String.◌∷◌ c s) (t ∷ ss) k =
        rw (cons-append c s (" " ⧺ join " " (t ∷ ss)))
          (cons_not_empty c (s ⧺ (" " ⧺ join " " (t ∷ ss))))

-- Whether a client may use a scope.
abbrev pub may_use : String → Option ClientRecord → Bool
may_use scope none = false
may_use scope (some r) = r.status == "active" && contains r.scopes scope

abbrev pub is_ok {ℓ κ} : {E : Type ℓ} {A : Type κ} → Result E A → Bool
is_ok (ok a) = true
is_ok (raise e) = false

authorize-may_use :
    (scope : String) (claims : TokenClaims) (o : Option ClientRecord)
    → is_ok (authorize scope claims o) ≡ (contains claims.scopes scope && may_use scope o)
unfolding authorize
authorize-may_use scope claims none = ground arith
authorize-may_use scope claims (some r) =
    ground (arith, contains-keep (contains r.scopes) claims.scopes scope)

-- The claims that `issue` signs.
abbrev pub claims_of : TokenService → ℕ → String → String → List String → Claims
claims_of service issued_at jti client_id scopes = record {
  iss = service.issuer;
  aud = service.audience;
  sub = client_id;
  scope = join " " scopes;
  iat = issued_at;
  exp = issued_at + service.ttl_seconds;
  jti = jti;
}

abbrev pub signed : Jwt → TokenService → ℕ → String → String → List String → String → String
signed jwt service issued_at jti client_id scopes key =
    jwt.encode (claims_of service issued_at jti client_id scopes) key service.active_kid

issue-signed :
    (jwt : Jwt) (service : TokenService) (issued_at : ℕ) (jti client_id token : String)
    (scopes : List String) (expires_in : ℕ)
    → issue jwt service issued_at jti client_id scopes ≡ ok (token, expires_in)
    → (key : String) × (Dict.get service.active_kid service.signing_keys ≡ some key)
      × (signed jwt service issued_at jti client_id scopes key ≡ token)
      × (service.ttl_seconds ≡ expires_in)
unfolding issue
issue-signed jwt service issued_at jti client_id token scopes expires_in h =
    by_key (Dict.get service.active_kid service.signing_keys) h
  where
    by_key :
        (o : Option String)
        → ◌≡◌ {A = Result Error (String × ℕ)}
            (elim o [
              | none ↦ raise (Error.uncaught (PyError.key_error service.active_kid))
              | some key ↦
                  ok (signed jwt service issued_at jti client_id scopes key, service.ttl_seconds)
            ])
            (ok (token, expires_in))
        → (key : String) × (o ≡ some key)
          × (signed jwt service issued_at jti client_id scopes key ≡ token)
          × (service.ttl_seconds ≡ expires_in)
    by_key none k = cc
    by_key (some key) k =
        (key, refl, ap (λ q. q.0) (ok-injective k), ap (λ q. q.1) (ok-injective k))

module _ (jwt : Jwt) (laws : JwtLaws jwt) (service later : TokenService)
    (same_issuer : later.issuer ≡ service.issuer)
    (same_audience : later.audience ≡ service.audience) where
  decoded_later :
      (issued_at now : ℕ) (jti client_id key : String) (scopes : List String)
      → All (λ s. is_word s ≡ true) scopes
      → issued_at ≤ now + clock_skew_leeway_seconds
      → now < (issued_at + service.ttl_seconds) + clock_skew_leeway_seconds
      → decode_with jwt later now (signed jwt service issued_at jti client_id scopes key) key
        ≡ some (record { client_id = client_id; scopes = scopes; jti = jti })
  unfolding decode_with token_claims
  decoded_later issued_at now jti client_id key scopes words started ends =
      let claims = claims_of service issued_at jti client_id scopes in
      let decodes = λ (iss aud : String).
        jwt.decode now (signed jwt service issued_at jti client_id scopes key) key iss aud
          clock_skew_leeway_seconds
        ≡ some claims in
      let decoded : decodes later.issuer later.audience =
        subst (λ iss. decodes iss later.audience) (sym same_issuer)
          (subst (decodes service.issuer) (sym same_audience) (
            laws.decoded claims key service.active_kid now clock_skew_leeway_seconds started
              ends)) in
      ap (λ o. o and_then λ c. some (token_claims jwt later c)) decoded
      ∙ ap (λ ss. some (record { client_id = client_id; scopes = ss; jti = jti }))
          (scopes_of-join jwt later scopes words)

  -- A later service verifies a token, while it is valid, if it has the key under the name that signed it.
  pub verify-signed :
      (issued_at now : ℕ) (jti client_id key : String) (scopes : List String) (kept : Bool)
      → All (λ s. is_word s ≡ true) scopes
      → Dict.get service.active_kid later.signing_keys ≡ (if kept then some key else none)
      → issued_at ≤ now + clock_skew_leeway_seconds
      → now < (issued_at + service.ttl_seconds) + clock_skew_leeway_seconds
      → verify jwt later now (signed jwt service issued_at jti client_id scopes key) ≡ (
          if kept
          then some (record { client_id = client_id; scopes = scopes; jti = jti })
          else none)
  unfolding verify key_of
  verify-signed issued_at now jti client_id key scopes kept words keeps started ends =
      let claims = claims_of service issued_at jti client_id scopes in
      let token = signed jwt service issued_at jti client_id scopes key in
      let by_kid = λ (o : Option String). o and_then λ k. decode_with jwt later now token k in
      ap
        (λ o.
          o and_then λ kid. key_of jwt later kid and_then λ k. decode_with jwt later now token k)
        (laws.header claims key service.active_kid)
      ∙ (ap by_kid keeps ∙ by_kept kept)
    where
      by_kept :
          (b : Bool)
          → ((if b then some key else none) and_then λ k.
              decode_with jwt later now (signed jwt service issued_at jti client_id scopes key) k)
            ≡ (if b
                then some (record { client_id = client_id; scopes = scopes; jti = jti })
                else none)
      by_kept true = decoded_later issued_at now jti client_id key scopes words started ends
      by_kept false = refl

module _ (jwt : Jwt) (laws : JwtLaws jwt) (service : TokenService) where
  -- A token of `issue` is verified, while it is valid, to the client and the scopes that it was issued for.
  pub verify-issue :
      (issued_at now : ℕ) (jti client_id token : String) (scopes : List String) (expires_in : ℕ)
      → All (λ s. is_word s ≡ true) scopes
      → issue jwt service issued_at jti client_id scopes ≡ ok (token, expires_in)
      → issued_at ≤ now + clock_skew_leeway_seconds
      → now < (issued_at + expires_in) + clock_skew_leeway_seconds
      → verify jwt service now token
        ≡ some (record { client_id = client_id; scopes = scopes; jti = jti })
  verify-issue issued_at now jti client_id token scopes expires_in words h started ends =
      let (key, held, same, ttl) =
        issue-signed jwt service issued_at jti client_id token scopes expires_in h in
      subst
        (λ t.
          verify jwt service now t
          ≡ some (record { client_id = client_id; scopes = scopes; jti = jti }))
        same
        (verify-signed jwt laws service service refl refl issued_at now jti client_id key scopes
          true words held started (rw ttl ends))

  -- A token that was issued for scopes, each a word without a space, passes for a scope, while it is valid and
  -- whatever the cache of clients then holds, exactly if it was issued for it and the cache has the client,
  -- as active and with that scope.
  pub require_scope-issue :
      (issued_at now : ℕ) (jti client_id token scope : String) (scopes : List String)
      (expires_in : ℕ) (cache : ClientsCache)
      → All (λ s. is_word s ≡ true) scopes
      → issue jwt service issued_at jti client_id scopes ≡ ok (token, expires_in)
      → issued_at ≤ now + clock_skew_leeway_seconds
      → now < (issued_at + expires_in) + clock_skew_leeway_seconds
      → is_ok (require_scope jwt service scope now (some token) cache)
        ≡ (contains scopes scope && may_use scope (get_by_client_id client_id cache))
  unfolding require_scope authorized
  require_scope-issue issued_at now jti client_id token scope scopes expires_in cache words h
        started ends =
      let claims : TokenClaims = record { client_id = client_id; scopes = scopes; jti = jti } in
      ap (λ o. is_ok (authorized scope o cache))
        (verify-issue issued_at now jti client_id token scopes expires_in words h started ends)
      ∙ authorize-may_use scope claims (get_by_client_id client_id cache)
