-- ===== src/Clients/LastSecret.antt =====
-- A client that is active is not locked out.
use distributed_rate_limiter.Clients.{
  assign_client, ClientUpdate, is_unexpired, revoke, count_active_secrets, list_active_secrets,
  create_client, get_client, get_secret_by_id, is_refused, insert_secret, add_client, new_client,
  new_secret, plan_update_client, plan_add_secret, plan_revoke_secret, then_commit,
  max_active_secrets_per_client,
}
use distributed_rate_limiter.Clients.Caps.{is_live_of, one_if, count-append, count-revoke}
use distributed_rate_limiter.Clients.Handle.{
  ClientRequest, creation, change, another_secret, revocation, handle_client,
}
use distributed_rate_limiter.Errors.{
  Error, client_not_found, client_secret_not_found, last_active_secret, too_many_active_secrets,
  integrity_error,
}
use distributed_rate_limiter.RuleService.{or_raise}
use distributed_rate_limiter.RuleService.Plans.{or_raise-eq-ok}
use distributed_rate_limiter.Store.{
  Db, ClientRow, SecretRow, is_some, unique_by, set_where, get_client_by_client_id,
}
use distributed_rate_limiter.Store.Rows.{of_find}
use distributed_rate_limiter.Store.Checks.{meets_checks}
use distributed_rate_limiter.Prelude.{
  raise_if-eq-ok, ℕ, ◌≤◌, String, ◌≡◌, refl, sym, ap, ◌∙◌, subst, Bool, true, false, not, ◌&&◌,
  ◌||◌, some, if◌then◌else◌, leb, arith, ◌==◌, nat_eq, string_eq, length, keep, find, All, Result,
  ok, raise, raise_if, >>=-eq-ok, ok-injective,
}

abbrev pub HasSecretAfter {ℓ} : {A : Type ℓ} → ℕ → String → A × Db → Type 0
HasSecretAfter now pk (reply, db) = 1 ≤ count_active_secrets now pk db

-- The client of a key, where there is one, is active.
abbrev pub IsActiveClient : String → Db → Type 0
IsActiveClient pk db = All (λ c. (c.id == pk) ≡ true → (c.status == "active") ≡ true) db.clients

module _ (now : ℕ) (pk : String) where
  more_secrets :
      (db : Db) (s : SecretRow)
      → 1 ≤ count_active_secrets now pk db
      → 1 ≤ count_active_secrets now pk (insert_secret s db)
  unfolding count_active_secrets list_active_secrets
  more_secrets db s h = rw (count-append now pk db.secrets s) (omega (arith, h))

  -- What the guard of a revocation leaves.
  revoked-HasSecret :
      (client : ClientRow) (secret : SecretRow) (secret_id : String) (db : Db)
      → unique_by (λ (j k : SecretRow). j.id == k.id) db.secrets ≡ true
      → find (λ k. k.id == secret_id) db.secrets ≡ some secret
      → ((client.id == pk) ≡ true → (client.status == "active") ≡ true)
      → (secret.client_pk == client.id) ≡ true
      → (not (is_some secret.revoked_at)
          && (is_unexpired now secret.expires_at
              && (client.status == "active" && leb (count_active_secrets now client.id db) 1)))
        ≡ false
      → 1 ≤ count_active_secrets now pk db
      → 1
        ≤ length
            (keep (is_live_of now pk) (set_where (λ k. k.id == secret_id) (revoke now) db.secrets))
  unfolding count_active_secrets list_active_secrets
  revoked-HasSecret client secret secret_id db ids found active own guard h =
      by_test (is_live_of now pk secret) refl
    where
      by_test :
          (b : Bool)
          → is_live_of now pk secret ≡ b
          → 1
            ≤ length (
                keep
                  (is_live_of now pk)
                  (set_where (λ k. k.id == secret_id) (revoke now) db.secrets))
      by_test false e =
          let counted = count-revoke now pk secret_id db.secrets secret ids found in
          let none_taken : one_if (is_live_of now pk secret) ≡ 0 = ap one_if e in
          omega (arith, counted, none_taken, h)
      by_test true e =
          let counted = count-revoke now pk secret_id db.secrets secret ids found in
          let one_taken : one_if (is_live_of now pk secret) ≡ 1 = ap one_if e in
          let same : client.id ≡ pk =
            sym ((string_eq.equals_iff secret.client_pk client.id).0 own)
            ∙ (string_eq.equals_iff secret.client_pk pk).0 (ground (arith, e)) in
          let many : leb (length (keep (is_live_of now client.id) db.secrets)) 1 ≡ false =
            ground (arith, e, guard, active ((string_eq.equals_iff client.id pk).1 same)) in
          let many_of : leb (length (keep (is_live_of now pk) db.secrets)) 1 ≡ false =
            subst (λ k. leb (length (keep (is_live_of now k) db.secrets)) 1 ≡ false) same many in
          let two : 2 ≤ length (keep (is_live_of now pk) db.secrets) = ground (arith, many_of) in
          omega (arith, counted, one_taken, two)

  revoke_secret-HasSecret :
      (slug secret_id : String) (db : Db)
      → unique_by (λ (j k : SecretRow). j.id == k.id) db.secrets ≡ true
      → IsActiveClient pk db
      → 1 ≤ count_active_secrets now pk db
      → (r : Result Error (Unit {0} × (Db → Db))) → plan_revoke_secret now slug secret_id db ≡ r
      → HasSecretAfter now pk (then_commit r db)
  unfolding plan_revoke_secret get_client get_secret_by_id get_client_by_client_id
  revoke_secret-HasSecret slug secret_id db ids active c (raise e) h = c
  revoke_secret-HasSecret slug secret_id db ids active c (ok (a, writes)) h =
      let (client, known, h₁) =
        >>=-eq-ok (or_raise (get_client_by_client_id slug db) (client_not_found slug)) _ h in
      let (secret, found, h₂) =
        >>=-eq-ok (or_raise (get_secret_by_id secret_id db) (client_secret_not_found secret_id)) _
          h₁ in
      let foreign = not (secret.client_pk == client.id) in
      let (u, own, h₃) = >>=-eq-ok (raise_if foreign (client_secret_not_found secret_id)) _ h₂ in
      let last =
        not (is_some secret.revoked_at)
        && (is_unexpired now secret.expires_at
            && (client.status == "active" && leb (count_active_secrets now client.id db) 1)) in
      let (v, other, h₄) = >>=-eq-ok (raise_if last (last_active_secret slug)) _ h₃ in
      let is_active =
        (of_find (λ (k : ClientRow). (k.id == pk) ≡ true → (k.status == "active") ≡ true)
          (λ k. k.client_id == slug) db.clients client active (or_raise-eq-ok _ _ known)).0 in
      let not_foreign = raise_if-eq-ok foreign _ own in
      let left =
        revoked-HasSecret client secret secret_id db ids (or_raise-eq-ok _ _ found) is_active
          (ground (arith, not_foreign)) (raise_if-eq-ok last _ other) c in
      subst (λ (q : Unit {0} × (Db → Db)). 1 ≤ count_active_secrets now pk (q.1 db))
        (ok-injective h₄) (by_test (is_some secret.revoked_at) left)
    where
      written : Db
      written = record db { secrets = set_where (λ s. s.id == secret_id) (revoke now) db.secrets }

      by_test :
          (b : Bool)
          → 1 ≤ length (keep (is_live_of now pk) written.secrets)
          → 1 ≤ count_active_secrets now pk (if b then db else written)
      by_test true left = c
      by_test false left = unfold count_active_secrets list_active_secrets in left

module _ (sha256 : String → String) (now : ℕ) (pk : String) where
  create_client-HasSecret :
      (known taken : Bool) (c : ClientRow) (s : SecretRow) (text slug : String) (db : Db)
      → 1 ≤ count_active_secrets now pk db
      → HasSecretAfter now pk (
          if◌then◌else◌ {A = Result Error (ClientRow × String) × Db}
            (known || taken)
            (raise (Error.client_id_conflict slug), db)
            (ok (c, text), insert_secret s (add_client c db)))
  create_client-HasSecret true taken c s text slug db h = h
  create_client-HasSecret false true c s text slug db h = h
  create_client-HasSecret false false c s text slug db h =
      more_secrets now pk (add_client c db) s (unfold count_active_secrets list_active_secrets in h)

  add_secret-HasSecret :
      (slug secret_id plaintext : String) (db : Db)
      → 1 ≤ count_active_secrets now pk db
      → (r : Result Error ((SecretRow × String) × (Db → Db)))
      → plan_add_secret sha256 now slug secret_id plaintext db ≡ r
      → HasSecretAfter now pk (then_commit r db)
  unfolding plan_add_secret
  add_secret-HasSecret slug secret_id plaintext db c (raise e) h = c
  add_secret-HasSecret slug secret_id plaintext db c (ok (a, writes)) h =
      let (client, known, h₁) = >>=-eq-ok (get_client slug db) _ h in
      let (u, room, h₂) =
        >>=-eq-ok
          (raise_if (leb max_active_secrets_per_client (count_active_secrets now client.id db))
            (too_many_active_secrets slug))
          _ h₁ in
      subst (λ (q : (SecretRow × String) × (Db → Db)). 1 ≤ count_active_secrets now pk (q.1 db))
        (ok-injective h₂)
        (more_secrets now pk db (new_secret sha256 secret_id client.id plaintext) c)

  update_client-HasSecret :
      (slug : String) (request : ClientUpdate) (db : Db)
      → 1 ≤ count_active_secrets now pk db
      → (r : Result Error (ClientRow × (Db → Db))) → plan_update_client slug request db ≡ r
      → HasSecretAfter now pk (then_commit r db)
  unfolding plan_update_client count_active_secrets list_active_secrets
  update_client-HasSecret slug request db c (raise e) h = c
  update_client-HasSecret slug request db c (ok (a, writes)) h =
      let (client, known, h₁) = >>=-eq-ok (get_client slug db) _ h in
      let (v, met, h₂) =
        >>=-eq-ok (raise_if (not (meets_checks (assign_client request client))) integrity_error) _
          h₁ in
      subst (λ (q : ClientRow × (Db → Db)). 1 ≤ count_active_secrets now pk (q.1 db))
        (ok-injective h₂) c

  -- Where no two secrets have one id, no request of the client service takes the last live secret of a
  -- client that is active.
  pub handle_client-last_secret :
      (q : ClientRequest) (db : Db)
      → unique_by (λ (j k : SecretRow). j.id == k.id) db.secrets ≡ true
      → IsActiveClient pk db
      → 1 ≤ count_active_secrets now pk db
      → 1 ≤ count_active_secrets now pk (handle_client sha256 now q db).1
  unfolding handle_client create_client
  handle_client-last_secret (creation id secret_id plaintext request) db ids active h =
      create_client-HasSecret (is_some (get_client_by_client_id request.client_id db))
        (is_refused (new_client id request) db) (new_client id request) _ plaintext
        request.client_id db h
  handle_client-last_secret (change slug request) db ids active h =
      update_client-HasSecret slug request db h _ refl
  handle_client-last_secret (another_secret slug secret_id plaintext) db ids active h =
      add_secret-HasSecret slug secret_id plaintext db h _ refl
  handle_client-last_secret (revocation slug secret_id) db ids active h =
      revoke_secret-HasSecret now pk slug secret_id db ids active h _ refl
