-- ===== src/Settings/Accepted.antt =====
-- What the settings are that a reload accepts.
use distributed_rate_limiter.Errors.{PyError, runtime_error}
use distributed_rate_limiter.Settings.{
  Environ, Entry, text, other, Decoded, object, not_object, Readers, Settings, Assignment,
  check_keys, keys_of, has_key, read_identifier_hash_secret, read_auth_jwt_signing_keys,
  read_auth_jwt_active_kid, read_signing_keys, set_attribute, run_assignments, assign_keys,
  assign_tokens, redis_settings, polling_settings, key_settings, token_settings, reload,
}
use distributed_rate_limiter.Prelude.Dict
use distributed_rate_limiter.Prelude.Dict.{Dict}
use distributed_rate_limiter.Prelude.Int.{ℤ}
use distributed_rate_limiter.Prelude.{
  raise_if-eq-ok, ◌≤◌, String, ◌≡◌, refl, ap, subst, true, false, not, Option, none, some, List, [],
  ◌∷◌, ◌++◌, ltb, ◌==◌, string_eq, text_length, All, Result, ok, raise, raise_if, >>=-eq-ok,
  ok-injective, arith,
}

-- A run of assignments that ended.
abbrev Ends : List Assignment → Settings → Settings → Type 0
Ends fs s t = run_assignments fs s ≡ (t, ok tt)

Ends-append :
    (fs gs : List Assignment) (s t : Settings)
    → Ends (fs ++ gs) s t
    → (u : Settings) × Ends fs s u × Ends gs u t
unfolding run_assignments
Ends-append [] gs s t h = (s, refl, h)
Ends-append (f ∷ fs) gs s t h = by_first (f s) (λ v. Ends-append fs gs v t) h
  where
    by_first :
        (r : Result PyError Settings)
        → ((v : Settings) → Ends (fs ++ gs) v t → (u : Settings) × Ends fs v u × Ends gs u t)
        → ◌≡◌ {A = Settings × Result PyError (Unit {0})}
            (elim r [ raise e ↦ (s, raise e) | ok v ↦ run_assignments (fs ++ gs) v ])
            (t, ok tt)
        → (u : Settings) × (◌≡◌ {A = Settings × Result PyError (Unit {0})}
            (elim r [ raise e ↦ (s, raise e) | ok v ↦ run_assignments fs v ])
            (u, ok tt))
          × Ends gs u t
    by_first (raise e) rest k = cc
    by_first (ok v) rest k = rest v k

-- What the settings hold, of the readings that they were assigned from.
record KeysAssigned (secret : Result PyError String) (keys : Result PyError (Dict String String))
    (kid : Dict String String → Result PyError String) (t : Settings) : Type 0 where
  secret_read : secret ≡ ok t.identifier_hash_secret
  keys_read : keys ≡ ok t.auth_jwt_signing_keys
  kid_read : kid t.auth_jwt_signing_keys ≡ ok t.auth_jwt_active_kid

assign_keys-KeysAssigned :
    (secret : Result PyError String) (keys : Result PyError (Dict String String))
    (kid : Dict String String → Result PyError String) (s t : Settings)
    → Ends (assign_keys secret keys kid) s t
    → KeysAssigned secret keys kid t
unfolding assign_keys run_assignments
assign_keys-KeysAssigned (raise e) keys kid s t h = cc
assign_keys-KeysAssigned (ok a) (raise e) kid s t h = cc
assign_keys-KeysAssigned (ok a) (ok k) kid s t h = by_kid (kid k) refl h
  where
    before : Settings
    before = record s { identifier_hash_secret = a; auth_jwt_signing_keys = k }

    by_kid :
        (r : Result PyError String)
        → kid k ≡ r
        → Ends
            ((λ v. set_attribute r (λ c u. record u { auth_jwt_active_kid = c }) v) ∷ [])
            before
            t
        → KeysAssigned (ok a) (ok k) kid t
    by_kid (raise e) read j = cc
    by_kid (ok c) read j =
        subst (KeysAssigned (ok a) (ok k) kid) (ap (λ p. p.0) j)
          (record { secret_read = refl; keys_read = refl; kid_read = read })

assign_tokens-KeysAssigned :
    (secret : Result PyError String) (keys : Result PyError (Dict String String))
    (kid : Dict String String → Result PyError String) (issuer audience : String)
    (ttl poll : Result PyError ℤ) (origins : List String) (s t : Settings)
    → KeysAssigned secret keys kid s
    → Ends (assign_tokens issuer audience ttl poll origins) s t
    → KeysAssigned secret keys kid t
unfolding assign_tokens run_assignments
assign_tokens-KeysAssigned secret keys kid issuer audience (raise e) poll origins s t k h = cc
assign_tokens-KeysAssigned secret keys kid issuer audience (ok n) (raise e) origins s t k h = cc
assign_tokens-KeysAssigned secret keys kid issuer audience (ok n) (ok m) origins s t k h =
    subst (KeysAssigned secret keys kid) (ap (λ p. p.0) h)
      (record { secret_read = k.secret_read; keys_read = k.keys_read; kid_read = k.kid_read })

-- The length of each key.
abbrev pub LongKeys : Dict String String → Type 0
LongKeys = All (λ p. 32 ≤ text_length p.1)

check_keys-LongKeys :
    (entries : Dict String Entry) (keys : Dict String String)
    → check_keys entries ≡ ok keys
    → LongKeys keys
unfolding check_keys
check_keys-LongKeys [] keys h = subst LongKeys (ok-injective h) tt
check_keys-LongKeys ((kid, other) ∷ entries) keys h = cc
check_keys-LongKeys ((kid, text key) ∷ entries) keys h =
    let (u, long, h₁) = >>=-eq-ok (raise_if (ltb (text_length key) 32) runtime_error) _ h in
    let (rest, checked, h₂) = >>=-eq-ok (check_keys entries) _ h₁ in
    let not_short = raise_if-eq-ok (ltb (text_length key) 32) _ long in
    subst LongKeys (ok-injective h₂)
      (ground (arith, not_short), check_keys-LongKeys entries rest checked)

keys_of-LongKeys :
    (o : Option Decoded) (keys : Dict String String) → keys_of o ≡ ok keys → LongKeys keys
unfolding keys_of
keys_of-LongKeys none keys h = cc
keys_of-LongKeys (some not_object) keys h = cc
keys_of-LongKeys (some (object [])) keys h = cc
keys_of-LongKeys (some (object (e ∷ entries))) keys h = check_keys-LongKeys (e ∷ entries) keys h

read_auth_jwt_signing_keys-LongKeys :
    (loads : String → Option Decoded) (o : Option String) (keys : Dict String String)
    → read_auth_jwt_signing_keys loads o ≡ ok keys
    → LongKeys keys
unfolding read_auth_jwt_signing_keys
read_auth_jwt_signing_keys-LongKeys loads none keys h = cc
read_auth_jwt_signing_keys-LongKeys loads (some raw) keys h =
    let (u, given, k) = >>=-eq-ok (raise_if (raw == "") runtime_error) _ h in
    keys_of-LongKeys (loads raw) keys k

read_identifier_hash_secret-long :
    (o : Option String) (secret : String)
    → read_identifier_hash_secret o ≡ ok secret
    → (o ≡ some secret) × (32 ≤ text_length secret)
unfolding read_identifier_hash_secret
read_identifier_hash_secret-long none secret h = cc
read_identifier_hash_secret-long (some raw) secret h = ground arith

read_auth_jwt_active_kid-has_key :
    (keys : Dict String String) (o : Option String) (kid : String)
    → read_auth_jwt_active_kid keys o ≡ ok kid
    → (o ≡ some kid) × (key : String) × (Dict.get kid keys ≡ some key)
unfolding read_auth_jwt_active_kid
read_auth_jwt_active_kid-has_key keys none kid h = cc
read_auth_jwt_active_kid-has_key keys (some raw) kid h =
    let (u, given, h₁) = >>=-eq-ok (raise_if (raw == "") runtime_error) _ h in
    let (v, known, h₂) = >>=-eq-ok (raise_if (not (has_key keys raw)) runtime_error) _ h₁ in
    let not_unknown = raise_if-eq-ok (not (has_key keys raw)) _ known in
    subst (λ k. (some raw ≡ some k) × (key : String) × (Dict.get k keys ≡ some key))
      (ok-injective h₂) (let (key, e) = found (Dict.get raw keys) not_unknown in (refl, key, e))
  where
    found :
        (o : Option String)
        → not (elim o [ none ↦ false | some _ ↦ true ]) ≡ false
        → (key : String) × (o ≡ some key)
    found none k = cc
    found (some key) k = (key, refl)

key_settings-AsRead :
    (py : Readers) (environ : Environ) (before mid after : Settings)
    → Ends (key_settings py environ) before mid
    → Ends (token_settings py environ) mid after
    → KeysAssigned
        (read_identifier_hash_secret (Dict.get "IDENTIFIER_HASH_SECRET" environ))
        (read_signing_keys py environ)
        (λ keys. read_auth_jwt_active_kid keys (Dict.get "AUTH_JWT_ACTIVE_KID" environ))
        after
unfolding key_settings token_settings
key_settings-AsRead py environ before mid after h k =
    assign_tokens-KeysAssigned _ _ _ _ _ _ _ _ mid after
      (assign_keys-KeysAssigned _ _ _ before mid h) k

-- Settings that the program can use.
pub record IsUsable (environ : Environ) (s : Settings) : Type 0 where
  pub secret : Dict.get "IDENTIFIER_HASH_SECRET" environ ≡ some s.identifier_hash_secret
  pub secret_long : 32 ≤ text_length s.identifier_hash_secret
  pub keys_long : LongKeys s.auth_jwt_signing_keys
  pub kid : Dict.get "AUTH_JWT_ACTIVE_KID" environ ≡ some s.auth_jwt_active_kid
  pub active_key : String
  pub active : Dict.get s.auth_jwt_active_kid s.auth_jwt_signing_keys ≡ some active_key

-- Settings that a reload accepts, whatever they were before, have the secret and the active key's name that
-- the environment gives, a secret and signing keys of at least 32 characters each, and the active key's name
-- is one of the signing keys.
pub reload-IsUsable :
    (py : Readers) (environ : Environ) (before s : Settings)
    → reload py environ before ≡ (s, ok tt)
    → IsUsable environ s
unfolding reload
reload-IsUsable py environ before s h =
    let (s₁, a, h₁) = Ends-append (redis_settings py environ) _ before s h in
    let (s₂, b, h₂) = Ends-append (polling_settings py environ) _ s₁ s h₁ in
    let (s₃, c, h₃) = Ends-append (key_settings py environ) (token_settings py environ) s₂ s h₂ in
    let read = key_settings-AsRead py environ s₂ s₃ s c h₃ in
    let (secret, secret_long) =
      read_identifier_hash_secret-long _ s.identifier_hash_secret read.secret_read in
    let (kid, key, active) =
      read_auth_jwt_active_kid-has_key s.auth_jwt_signing_keys _ s.auth_jwt_active_kid
        read.kid_read in
    record {
      secret = secret;
      secret_long = secret_long;
      keys_long =
          read_auth_jwt_signing_keys-LongKeys py.loads (Dict.get "AUTH_JWT_SIGNING_KEYS" environ)
            s.auth_jwt_signing_keys (unfold read_signing_keys in read.keys_read);
      kid = kid;
      active_key = key;
      active = active;
    }
