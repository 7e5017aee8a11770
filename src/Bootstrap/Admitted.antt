-- ===== src/Bootstrap/Admitted.antt =====
-- The first client is admitted: from the script to a token, and from the token to a request.
use distributed_rate_limiter.Auth.{
  Jwt, TokenService, clock_skew_leeway_seconds, issue_token, require_scope, sorted_set, issue_to,
  resolve_scopes,
}
use distributed_rate_limiter.Auth.Issue.{contains-sorted_set}
use distributed_rate_limiter.Auth.Records.{
  ClientRecord, ClientsCache, serialize_client, index_by, load_all, get_by_client_id,
  run_scheduled_clients_poll,
}
use distributed_rate_limiter.Auth.Tokens.{
  JwtLaws, is_word, signed, may_use, is_ok, require_scope-issue,
}
use distributed_rate_limiter.Bootstrap.{created, main, main_with}
use distributed_rate_limiter.Clients.{
  ClientCreate, new_client, new_secret, is_refused, is_live, add_client, insert_secret,
  verify_secret, hash_secret, list_active_secrets,
}
use distributed_rate_limiter.Store.Checks.{choices, meets_checks}
use distributed_rate_limiter.Prelude.Dict
use distributed_rate_limiter.Prelude.Dict.{Dict}
use distributed_rate_limiter.Settings.Rotation.{issue-ok}
use distributed_rate_limiter.Store.{Db, ClientRow, SecretRow, get_client_by_client_id}
use distributed_rate_limiter.Prelude.{
  ℕ, ◌+◌, ◌≤◌, ◌<◌, String, ◌≡◌, refl, sym, ap, ◌∙◌, inl, inr, Bool, true, false, ◌&&◌, none, some,
  List, [], ◌∷◌, ◌++◌, map, any, find, keep, contains, ◌==◌, string_eq, arith, All, Bool-cases,
  of_all-contains, ok,
}

module _ {A : Type 0} where
  find-append_one :
      (p : A → Bool) (xs : List A) (y : A)
      → find p xs ≡ none
      → p y ≡ true
      → find p (xs ++ y ∷ []) ≡ some y
  find-append_one p [] y h k = rw k refl
  find-append_one p (x ∷ xs) y h k = elim (Bool-cases (p x)) [
    | inl t ↦ absurd (let impossible : some x ≡ none = rw t at h in cc)
    | inr n ↦ rw n (find-append_one p xs y (rw n at h) k)
  ]

  any-keep-append_one :
      (p q : A → Bool) (xs : List A) (y : A)
      → p y ≡ true
      → q y ≡ true
      → any p (keep q (xs ++ y ∷ [])) ≡ true
  any-keep-append_one p q [] y h k = ground arith
  any-keep-append_one p q (x ∷ xs) y h k = ground (arith, any-keep-append_one p q xs y h k)

index_by-append_one :
    (key : ClientRecord → String) (cs : List ClientRecord) (c : ClientRecord)
    (d : Dict String ClientRecord)
    → index_by key (cs ++ c ∷ []) d ≡ Dict.insert (key c) c (index_by key cs d)
unfolding index_by
index_by-append_one key [] c d = refl
index_by-append_one key (x ∷ cs) c d = index_by-append_one key cs c (Dict.insert (key x) x d)

map-append_one :
    {A B : Type 0} (f : A → B) (xs : List A) (y : A) → map f (xs ++ y ∷ []) ≡ map f xs ++ f y ∷ []
map-append_one f [] y = refl
map-append_one f (x ∷ xs) y = ap (λ zs. f x ∷ zs) (map-append_one f xs y)

-- The last row of the clients is the one that the cache has under its name.
get-load_all :
    (now : ℕ) (rows : List ClientRow) (c : ClientRow)
    → get_by_client_id c.client_id (load_all now (map serialize_client (rows ++ c ∷ [])))
      ≡ some (serialize_client c)
unfolding get_by_client_id load_all serialize_client
get-load_all now rows c =
    ap (λ cs. Dict.get c.client_id (index_by (λ r. r.client_id) cs []))
      (map-append_one serialize_client rows c)
    ∙ (ap (Dict.get c.client_id) (
          index_by-append_one (λ r. r.client_id) (map serialize_client rows) (serialize_client c)
            [])
        ∙ (Dict.get-insert c.client_id c.client_id (serialize_client c)
              (index_by (λ r. r.client_id) (map serialize_client rows) [])
            ∙ ground (arith, string_eq.equals_iff c.client_id c.client_id)))

-- A scope that may be chosen is a word.
chosen-word : (s : String) → contains choices s ≡ true → is_word s ≡ true
chosen-word s h = of_all-contains is_word choices s refl h

words_of :
    (xs : List String)
    → ((s : String) → contains xs s ≡ true → contains choices s ≡ true)
    → All (λ s. is_word s ≡ true) xs
words_of [] h = tt
words_of (x ∷ xs) h = (
  chosen-word x (h x (ground (arith, string_eq.equals_iff x x))),
  words_of xs (λ s k. h s (ground arith)),
)

-- The tables that the script leaves, with the client last among the clients and its secret among the secrets.
abbrev pub after_main : (String → String) → String → String → String → ClientCreate → Db → Db
after_main sha256 id secret_id plaintext request db =
    insert_secret (new_secret sha256 secret_id id plaintext) (add_client (new_client id request) db)

-- The way of the first client: `token` is what it gets for the secret that was printed.
pub record IsAdmitted (sha256 : String → String) (jwt : Jwt) (service : TokenService)
    (id secret_id plaintext : String) (request : ClientCreate) (db : Db) (issued_at : ℕ)
    (jti : String) (polled now : ℕ) (scope : String) (cache : ClientsCache) : Type 0 where
  pub printed : main sha256 id secret_id plaintext request db ≡ (
    ok (created (new_client id request) plaintext),
    after_main sha256 id secret_id plaintext request db,
  )
  pub token : String
  pub granted : List String
  pub issued :
      issue_token jwt service sha256 issued_at jti request.client_id plaintext none
        (after_main sha256 id secret_id plaintext request db)
      ≡ ok (token, (service.ttl_seconds, granted))
  pub admitted :
      is_ok (
        require_scope jwt service scope now (some token) (
          run_scheduled_clients_poll polled
            (some (after_main sha256 id secret_id plaintext request db).clients)
            cache))
      ≡ contains request.scopes scope

module _ (sha256 : String → String) (id secret_id plaintext : String) (request : ClientCreate)
    (db : Db) (unknown : get_client_by_client_id request.client_id db ≡ none)
    (free : is_refused (new_client id request) db ≡ false) where
  abbrev after : Db
  after = after_main sha256 id secret_id plaintext request db

  main-created :
      main sha256 id secret_id plaintext request db
      ≡ (ok (created (new_client id request) plaintext), after)
  unfolding main main_with
  main-created = ap (main_with sha256 id secret_id plaintext request db) unknown ∙ rw free refl

  found-after : get_client_by_client_id request.client_id after ≡ some (new_client id request)
  unfolding get_client_by_client_id
  found-after =
      find-append_one (λ (c : ClientRow). c.client_id == request.client_id) db.clients
        (new_client id request) unknown
        (ground (arith, string_eq.equals_iff request.client_id request.client_id))

  verified-after :
      (now : ℕ)
      → any (λ s. verify_secret sha256 plaintext s.secret_hash) (list_active_secrets now id after)
        ≡ true
  unfolding verify_secret list_active_secrets new_secret hash_secret
  verified-after now =
      any-keep-append_one (λ (s : SecretRow). verify_secret sha256 plaintext s.secret_hash)
        (λ s. s.client_pk == id && is_live now s) db.secrets
        (new_secret sha256 secret_id id plaintext)
        (ground (arith, string_eq.equals_iff (sha256 plaintext) (sha256 plaintext)))
        (ground (arith, string_eq.equals_iff id id))

  module _ (jwt : Jwt) (service : TokenService) (key : String)
      (active : Dict.get service.active_kid service.signing_keys ≡ some key) where
    issue_token-after :
        (issued_at : ℕ) (jti : String)
        → issue_token jwt service sha256 issued_at jti request.client_id plaintext none after
          ≡ ok (
            signed jwt service issued_at jti request.client_id (sorted_set request.scopes) key,
            (service.ttl_seconds, sorted_set request.scopes),
          )
    unfolding issue_token issue_to resolve_scopes
    issue_token-after issued_at jti = rw found-after (
        rw (verified-after issued_at) (
          rw
            (issue-ok jwt service issued_at jti request.client_id key (sorted_set request.scopes)
              active)
            refl))

    words : All (λ s. is_word s ≡ true) (sorted_set request.scopes)
    unfolding meets_checks
    words = words_of (sorted_set request.scopes) (λ s k.
        of_all-contains (contains choices) request.scopes s (ground arith)
          (sym (contains-sorted_set request.scopes s) ∙ k))

    -- The script on tables that have neither the key nor the name of the new client, with a name and scopes
    -- that the table's checks accept, creates the client and prints a secret. For this secret the token
    -- endpoint's service, which has its active key, issues a token; and while the token is valid and after the
    -- clients are polled, the token passes for a scope exactly if the client was created with it.
    pub main-IsAdmitted :
        (issued_at now polled : ℕ) (jti scope : String) (cache : ClientsCache)
        → JwtLaws jwt
        → issued_at ≤ now + clock_skew_leeway_seconds
        → now < (issued_at + service.ttl_seconds) + clock_skew_leeway_seconds
        → IsAdmitted sha256 jwt service id secret_id plaintext request db issued_at jti polled now
            scope cache
    unfolding run_scheduled_clients_poll serialize_client
    main-IsAdmitted issued_at now polled jti scope cache laws started ends =
        let granted = sorted_set request.scopes in
        let token = signed jwt service issued_at jti request.client_id granted key in
        let polled_cache = load_all polled (map serialize_client after.clients) in
        record {
          printed = main-created;
          token = token;
          granted = granted;
          issued = issue_token-after issued_at jti;
          admitted =
              require_scope-issue jwt laws service issued_at now jti request.client_id token scope
                granted service.ttl_seconds polled_cache words
                (issue-ok jwt service issued_at jti request.client_id key granted active) started
                ends
              ∙ (ap (λ o. contains granted scope && may_use scope o)
                    (get-load_all polled db.clients (new_client id request))
                  ∙ (ap (λ b. b && contains request.scopes scope)
                        (contains-sorted_set request.scopes scope)
                      ∙ ground arith));
        }
