-- ===== src/Clients/Keeps.antt =====
-- What every request of the client service keeps: the bound on live secrets.
use distributed_rate_limiter.Clients.Owners.{
  owns, IsCapped, IsCappedAfter, later-IsCapped, owns-append, owns-last, owns-found, owns-set,
  count-none,
}
use distributed_rate_limiter.Clients.{
  ClientCreate, ClientUpdate, is_unexpired, revoke, count_active_secrets, list_active_secrets,
  create_client, get_client, get_secret_by_id, is_refused, insert_secret, add_client, new_client,
  new_secret, plan_update_client, plan_add_secret, plan_revoke_secret, then_commit, assign_client,
  max_active_secrets_per_client,
}
use distributed_rate_limiter.Clients.Caps.{is_live_of, one_if, count-append, count-revoke_le}
use distributed_rate_limiter.Clients.Handle.{
  ClientRequest, creation, change, another_secret, revocation, handle_client, handle_clients,
}
use distributed_rate_limiter.Errors.{
  Error, client_not_found, client_secret_not_found, last_active_secret, too_many_active_secrets,
  integrity_error,
}
use distributed_rate_limiter.RuleService.{or_raise}
use distributed_rate_limiter.RuleService.Plans.{or_raise-eq-ok}
use distributed_rate_limiter.Store.{
  Db, ClientRow, SecretRow, is_some, set_where, get_client_by_client_id,
}
use distributed_rate_limiter.Store.Rows.{All-append, All-to}
use distributed_rate_limiter.Store.Checks.{meets_checks}
use distributed_rate_limiter.Prelude.{
  raise_if-eq-ok, ℕ, ◌+◌, ◌≤◌, String, ◌≡◌, refl, subst, Bool, true, false, not, ◌&&◌, ◌||◌, [],
  ◌∷◌, if◌then◌else◌, leb, arith, ◌==◌, nat_eq, string_eq, length, keep, All-map, Result, ok, raise,
  raise_if, >>=-eq-ok, ok-injective, List,
}

module _ (sha256 : String → String) (now : ℕ) where
  create_client-IsCapped :
      (id secret_id plaintext : String) (request : ClientCreate) (db : Db)
      → IsCapped now db
      → IsCappedAfter now (create_client sha256 id secret_id plaintext request db db)
  unfolding create_client get_client_by_client_id count_active_secrets list_active_secrets
      new_secret
  create_client-IsCapped id secret_id plaintext request db c =
      by_test (is_some (get_client_by_client_id request.client_id db))
        (is_refused (new_client id request) db) refl
    where
      secret : SecretRow
      secret = new_secret sha256 secret_id id plaintext

      written : Db
      written = insert_secret secret (add_client (new_client id request) db)

      free : is_refused (new_client id request) db ≡ false → owns db.clients id ≡ false
      free n = ground arith

      new_count :
          (pk : String) (b : Bool)
          → is_refused (new_client id request) db ≡ false
          → (id == pk) ≡ b
          → length (keep (is_live_of now pk) db.secrets) + one_if (is_live_of now pk secret) ≤ 2
      new_count pk true n e =
          let same = (string_eq.equals_iff id pk).0 e in
          let zero : length (keep (is_live_of now pk) db.secrets) ≡ 0 =
            count-none now pk db.clients db.secrets
              (subst (λ k. owns db.clients k ≡ false) same (free n)) c.owned in
          rw zero (ground arith)
      new_count pk false n e = rw e (ground (arith, c.capped pk))

      by_test :
          (known taken : Bool)
          → is_refused (new_client id request) db ≡ taken
          → IsCappedAfter now (
              if◌then◌else◌ {A = Result Error (ClientRow × String) × Db}
                (known || taken)
                (raise (Error.client_id_conflict request.client_id), db)
                (ok (new_client id request, plaintext), written))
      by_test true taken n = c
      by_test false true n = c
      by_test false false n = record {
        owned =
            All-append (λ (s : SecretRow). owns written.clients s.client_pk ≡ true) db.secrets
              (secret ∷ [])
              (All-map (λ s h. owns-append db.clients (new_client id request) s.client_pk h)
                db.secrets c.owned)
              (owns-last db.clients (new_client id request), tt);
        capped = λ pk. rw (count-append now pk db.secrets secret) (new_count pk (id == pk) n refl);
      }

  add_secret-IsCapped :
      (slug secret_id plaintext : String) (db : Db)
      → IsCapped now db
      → (r : Result Error ((SecretRow × String) × (Db → Db)))
      → plan_add_secret sha256 now slug secret_id plaintext db ≡ r
      → IsCappedAfter now (then_commit r db)
  unfolding plan_add_secret get_client get_client_by_client_id count_active_secrets
      list_active_secrets new_secret
  add_secret-IsCapped slug secret_id plaintext db c (raise e) h = c
  add_secret-IsCapped slug secret_id plaintext db c (ok (a, writes)) h =
      let (client, known, h₁) =
        >>=-eq-ok (or_raise (get_client_by_client_id slug db) (client_not_found slug)) _ h in
      let full = leb max_active_secrets_per_client (count_active_secrets now client.id db) in
      let (u, room, h₂) = >>=-eq-ok (raise_if full (too_many_active_secrets slug)) _ h₁ in
      let below = raise_if-eq-ok full _ room in
      let secret = new_secret sha256 secret_id client.id plaintext in
      subst (λ (q : (SecretRow × String) × (Db → Db)). IsCapped now (q.1 db)) (ok-injective h₂)
        (record {
          owned =
              All-append (λ (s : SecretRow). owns db.clients s.client_pk ≡ true) db.secrets
                (secret ∷ []) c.owned
                (owns-found db.clients slug client (or_raise-eq-ok _ _ known), tt);
          capped = λ pk.
              rw (count-append now pk db.secrets secret)
                (by_test client.id pk (client.id == pk) refl below (c.capped pk));
        })
    where
      by_test :
          (owner pk : String) (b : Bool)
          → (owner == pk) ≡ b
          → leb 2 (length (keep (is_live_of now owner) db.secrets)) ≡ false
          → length (keep (is_live_of now pk) db.secrets) ≤ 2
          → length (keep (is_live_of now pk) db.secrets)
              + one_if (is_live_of now pk (new_secret sha256 secret_id owner plaintext))
            ≤ 2
      by_test owner pk true e below le =
          let same = (string_eq.equals_iff owner pk).0 e in
          let few : leb 2 (length (keep (is_live_of now pk) db.secrets)) ≡ false =
            subst (λ k. leb 2 (length (keep (is_live_of now k) db.secrets)) ≡ false) same below in
          rw e (ground (arith, few))
      by_test owner pk false e below le = rw e (ground (arith, le))

  update_client-IsCapped :
      (slug : String) (request : ClientUpdate) (db : Db)
      → IsCapped now db
      → (r : Result Error (ClientRow × (Db → Db))) → plan_update_client slug request db ≡ r
      → IsCappedAfter now (then_commit r db)
  unfolding plan_update_client count_active_secrets list_active_secrets
  update_client-IsCapped slug request db c (raise e) h = c
  update_client-IsCapped slug request db c (ok (a, writes)) h =
      let (client, known, h₁) = >>=-eq-ok (get_client slug db) _ h in
      let (v, met, h₂) =
        >>=-eq-ok (raise_if (not (meets_checks (assign_client request client))) integrity_error) _
          h₁ in
      subst (λ (q : ClientRow × (Db → Db)). IsCapped now (q.1 db)) (ok-injective h₂)
        (record {
          owned =
              All-map
                (λ s own.
                  owns-set (assign_client request) (λ k. k.id == client.id) db.clients s.client_pk
                    (λ k. refl) own)
                db.secrets c.owned;
          capped = c.capped;
        })

  revoke_secret-IsCapped :
      (slug secret_id : String) (db : Db)
      → IsCapped now db
      → (r : Result Error (Unit {0} × (Db → Db))) → plan_revoke_secret now slug secret_id db ≡ r
      → IsCappedAfter now (then_commit r db)
  unfolding plan_revoke_secret count_active_secrets list_active_secrets
  revoke_secret-IsCapped slug secret_id db c (raise e) h = c
  revoke_secret-IsCapped slug secret_id db c (ok (a, writes)) h =
      let (client, known, h₁) = >>=-eq-ok (get_client slug db) _ h in
      let (secret, found, h₂) =
        >>=-eq-ok (or_raise (get_secret_by_id secret_id db) (client_secret_not_found secret_id)) _
          h₁ in
      let (u, own, h₃) =
        >>=-eq-ok
          (raise_if (not (secret.client_pk == client.id)) (client_secret_not_found secret_id)) _
          h₂ in
      let (v, other, h₄) =
        >>=-eq-ok
          (raise_if
            (not (is_some secret.revoked_at)
              && (is_unexpired now secret.expires_at
                  && (client.status == "active" && leb (count_active_secrets now client.id db) 1)))
            (last_active_secret slug))
          _ h₃ in
      subst (λ (q : Unit {0} × (Db → Db)). IsCapped now (q.1 db)) (ok-injective h₄)
        (by_test (is_some secret.revoked_at))
    where
      written : Db
      written = record db { secrets = set_where (λ s. s.id == secret_id) (revoke now) db.secrets }

      same_owner : (s : SecretRow) → (revoke now s).client_pk ≡ s.client_pk
      same_owner s = unfold revoke in refl

      by_test : (b : Bool) → IsCapped now (if b then db else written)
      by_test true = c
      by_test false = record {
        owned =
            All-to (λ (s : SecretRow). owns db.clients s.client_pk ≡ true)
              (λ s. if s.id == secret_id then revoke now s else s) db.secrets
              (All-map (λ s own. kept s own (s.id == secret_id)) db.secrets c.owned);
        capped = λ pk. omega (arith, count-revoke_le now pk secret_id db.secrets, c.capped pk);
      }
        where
          kept :
              (s : SecretRow)
              → owns db.clients s.client_pk ≡ true
              → (b : Bool) → owns db.clients (if b then revoke now s else s).client_pk ≡ true
          kept s own true = rw (same_owner s) own
          kept s own false = own

  pub handle_client-IsCapped :
      (t : ℕ) (q : ClientRequest) (db : Db)
      → t ≤ now
      → IsCapped t db
      → IsCapped now (handle_client sha256 now q db).1
  unfolding handle_client
  handle_client-IsCapped t (creation id secret_id plaintext request) db h c =
      create_client-IsCapped id secret_id plaintext request db (later-IsCapped t now db h c)
  handle_client-IsCapped t (change slug request) db h c =
      update_client-IsCapped slug request db (later-IsCapped t now db h c) _ refl
  handle_client-IsCapped t (another_secret slug secret_id plaintext) db h c =
      add_secret-IsCapped slug secret_id plaintext db (later-IsCapped t now db h c) _ refl
  handle_client-IsCapped t (revocation slug secret_id) db h c =
      revoke_secret-IsCapped slug secret_id db (later-IsCapped t now db h c) _ refl

-- The requests come in the order of their times, the first one not before `t`.
abbrev pub IsOrdered : ℕ → List (ℕ × ClientRequest) → Type 0
IsOrdered t [] = Unit
IsOrdered t ((now, q) ∷ requests) = (t ≤ now) × IsOrdered now requests

abbrev pub last_time : ℕ → List (ℕ × ClientRequest) → ℕ
last_time t [] = t
last_time t ((now, q) ∷ requests) = last_time now requests

-- If every secret has its client and no client has more than two live secrets, that is so after any sequence of
-- requests of the client service, accepted or refused, one after the other at times that do not go back.
pub handle_clients-IsCapped :
    (sha256 : String → String) (t : ℕ) (requests : List (ℕ × ClientRequest)) (db : Db)
    → IsOrdered t requests
    → IsCapped t db
    → IsCapped (last_time t requests) (handle_clients sha256 requests db)
unfolding handle_clients
handle_clients-IsCapped sha256 t [] db ordered c = c
handle_clients-IsCapped sha256 t ((now, q) ∷ requests) db ordered c =
    handle_clients-IsCapped sha256 now requests (handle_client sha256 now q db).1 ordered.1
      (handle_client-IsCapped sha256 now t q db ordered.0 c)
