-- ===== src/Auth/Access.antt =====
-- What a bearer token gives access to.
use distributed_rate_limiter.Auth.{
  Jwt, TokenService, TokenClaims, AuthenticatedClient, verify, authorize, authorized, require_scope,
}
use distributed_rate_limiter.Auth.Records.{
  ClientRecord, ClientsCache, get_by_client_id, serialize_client, index_by, load_all,
  run_scheduled_clients_poll,
}
use distributed_rate_limiter.Auth.Issue.{Has}
use distributed_rate_limiter.Errors.{authorization_error}
use distributed_rate_limiter.Store.{ClientRow}
use distributed_rate_limiter.Prelude.Dict
use distributed_rate_limiter.Prelude.Dict.{Dict, get-insert}
use distributed_rate_limiter.Prelude.{
  raise_if-eq-ok, ℕ, String, ◌≡◌, refl, sym, ap, ◌∙◌, subst, ◌⊎◌, inl, inr, true, not, Option, none,
  some, List, [], ◌∷◌, map, if◌then◌else◌, arith, ◌==◌, string_eq, Bool-cases, keep, contains,
  contains-keep, ok, raise_if, >>=-eq-ok, ok-injective,
}

index_by-Has :
    (key : ClientRecord → String) (cs : List ClientRecord) (d : Dict String ClientRecord)
    (k : String) (r : ClientRecord)
    → Dict.get k (index_by key cs d) ≡ some r
    → Has (λ c. (c ≡ r) × (key c ≡ k)) cs ⊎ (Dict.get k d ≡ some r)
unfolding index_by
index_by-Has key [] d k r h = inr h
index_by-Has key (c ∷ cs) d k r h = elim (index_by-Has key cs (Dict.insert (key c) c d) k r h) [
  | inl later ↦ inl (inr later)
  | inr e ↦ elim (Bool-cases (key c == k)) [
    | inl t ↦ inl (
        inl (
          some_injective
              (sym (get-insert (key c) k c d ∙ ap (λ b. if b then some c else Dict.get k d) t) ∙ e),
          (string_eq.equals_iff (key c) k).0 t,
        ))
    | inr n ↦
        inr (sym (get-insert (key c) k c d ∙ ap (λ b. if b then some c else Dict.get k d) n) ∙ e)
  ]
]
  where
    some_injective : {a b : ClientRecord} → some a ≡ some b → a ≡ b
    some_injective e = cc

Has-serialized :
    (P : ClientRecord → Type 0) (Q : ClientRow → Type 0) (rows : List ClientRow)
    → ((c : ClientRow) → P (serialize_client c) → Q c)
    → Has P (map serialize_client rows)
    → Has Q rows
Has-serialized P Q [] f h = h
Has-serialized P Q (c ∷ rows) f (inl h) = inl (f c h)
Has-serialized P Q (c ∷ rows) f (inr h) = inr (Has-serialized P Q rows f h)

-- The row that gives access: of the authenticated client, active, with the scope.
pub record GivesAccess (scope : String) (a : AuthenticatedClient) (c : ClientRow) : Type 0 where
  pub pk : a.pk ≡ c.id
  pub client_id : a.client_id ≡ c.client_id
  pub active : c.status ≡ "active"
  pub registered : contains c.scopes scope ≡ true
  pub within : (s : String) → contains a.scopes s ≡ true → contains c.scopes s ≡ true

record Authorized (scope : String) (a : AuthenticatedClient) (r : ClientRecord) : Type 0 where
  pub pk : a.pk ≡ r.pk
  pub client_id : a.client_id ≡ r.client_id
  pub active : (r.status == "active") ≡ true
  pub held : contains a.scopes scope ≡ true
  pub within : (s : String) → contains a.scopes s ≡ true → contains r.scopes s ≡ true

authorize-Authorized :
    (scope : String) (claims : TokenClaims) (o : Option ClientRecord) (a : AuthenticatedClient)
    → authorize scope claims o ≡ ok a
    → (r : ClientRecord) × (o ≡ some r) × Authorized scope a r
unfolding authorize
authorize-Authorized scope claims none a h = cc
authorize-Authorized scope claims (some r) a h =
    let (u, is_active, h₁) =
      >>=-eq-ok (raise_if (not (r.status == "active")) authorization_error) _ h in
    let effective = keep (contains r.scopes) claims.scopes in
    let (v, allowed, h₂) =
      >>=-eq-ok (raise_if (not (contains effective scope)) authorization_error) _ h₁ in
    let not_inactive = raise_if-eq-ok (not (r.status == "active")) _ is_active in
    let not_missing = raise_if-eq-ok (not (contains effective scope)) _ allowed in
    (
      r,
      refl,
      subst (λ k. Authorized scope k r) (ok-injective h₂)
          (record {
            pk = refl;
            client_id = refl;
            active = ground (arith, not_inactive);
            held = ground (arith, not_missing);
            within = λ s k. ground (arith, contains-keep (contains r.scopes) claims.scopes s, k);
          }),
    )

require_scope-Authorized :
    (jwt : Jwt) (service : TokenService) (scope : String) (now : ℕ) (credentials : Option String)
    (cache : ClientsCache) (a : AuthenticatedClient)
    → require_scope jwt service scope now credentials cache ≡ ok a
    → (id : String) × (r : ClientRecord) × (get_by_client_id id cache ≡ some r)
      × Authorized scope a r
unfolding require_scope authorized
require_scope-Authorized jwt service scope now none cache a h = cc
require_scope-Authorized jwt service scope now (some token) cache a h =
    verified (verify jwt service now token) h
  where
    verified :
        (o : Option TokenClaims)
        → authorized scope o cache ≡ ok a
        → (id : String) × (r : ClientRecord) × (get_by_client_id id cache ≡ some r)
          × Authorized scope a r
    verified none k = cc
    verified (some claims) k =
        let (r, e, allowed) =
          authorize-Authorized scope claims (get_by_client_id claims.client_id cache) a k in
        (claims.client_id, r, e, allowed)

-- After a poll that read the rows of the clients, whatever token is given, a request passes only for a
-- client that the rows have as active and with the scope, and its scopes are among those of that row: a
-- client that was disabled or lost the scope has no more access.
pub require_scope-GivesAccess :
    (jwt : Jwt) (service : TokenService) (scope : String) (polled now : ℕ)
    (credentials : Option String) (rows : List ClientRow) (old : ClientsCache)
    (a : AuthenticatedClient)
    → require_scope jwt service scope now credentials
        (run_scheduled_clients_poll polled (some rows) old)
      ≡ ok a
    → Has (GivesAccess scope a) rows
unfolding run_scheduled_clients_poll load_all get_by_client_id serialize_client
require_scope-GivesAccess jwt service scope polled now credentials rows old a h =
    let cache = run_scheduled_clients_poll polled (some rows) old in
    let (id, r, found, allowed) =
      require_scope-Authorized jwt service scope now credentials cache a h in
    elim (index_by-Has (λ c. c.client_id) (map serialize_client rows) [] id r found) [
      | inl here ↦
          Has-serialized (λ c. (c ≡ r) × (c.client_id ≡ id)) (GivesAccess scope a) rows
            (λ c k.
              let same = subst (Authorized scope a) (sym k.0) allowed in
              record {
                pk = same.pk;
                client_id = same.client_id;
                active = (string_eq.equals_iff c.status "active").0 same.active;
                registered = same.within scope same.held;
                within = same.within;
              })
            here
      | inr absent ↦ absurd (unfold Dict.get in let bad : none ≡ some r = absent in cc)
    ]
