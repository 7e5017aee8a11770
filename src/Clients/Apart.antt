-- ===== src/Clients/Apart.antt =====
-- The client service leaves the rules and the groups alone.
use distributed_rate_limiter.Clients.{
  assign_client, max_active_secrets_per_client, is_unexpired, count_active_secrets,
  get_secret_by_id, is_refused, new_client, get_client, then_commit, plan_update_client, revoke,
  plan_revoke_secret, create_client, plan_add_secret,
}
use distributed_rate_limiter.Clients.Handle.{
  ClientRequest, creation, change, another_secret, revocation, handle_client,
}
use distributed_rate_limiter.Errors.{
  Error, client_secret_not_found, last_active_secret, too_many_active_secrets, integrity_error,
}
use distributed_rate_limiter.RuleService.{or_raise}
use distributed_rate_limiter.Store.{Db, is_some, set_where, get_client_by_client_id}
use distributed_rate_limiter.Store.Checks.{meets_checks}
use distributed_rate_limiter.Prelude.{
  ℕ, String, ◌≡◌, refl, subst, inl, inr, Bool, true, false, not, ◌&&◌, ◌||◌, if◌then◌else◌, leb,
  ◌==◌, string_eq, Bool-cases, Result, ok, raise, raise_if, >>=-eq-ok, ok-injective,
}

-- The same rules and groups.
pub record IsApart (before after : Db) : Type 0 where
  pub rules : after.rules ≡ before.rules
  pub groups : after.groups ≡ before.groups

unchanged : (db : Db) → IsApart db db
unchanged db = record { rules = refl; groups = refl }

then_commit-IsApart {ℓ} :
    {A : Type ℓ} (r : Result Error (A × (Db → Db))) (db : Db)
    → ((a : A) (writes : Db → Db) → r ≡ ok (a, writes) → IsApart db (writes db))
    → IsApart db (then_commit r db).1
then_commit-IsApart (ok (a, writes)) db h = h a writes refl
then_commit-IsApart (raise e) db h = unchanged db

-- What is returned at the end of a plan.
of_writes {ℓ} :
    {A : Type ℓ} (a b : A) (made writes : Db → Db) (db : Db)
    → ◌≡◌ {A = Result Error (A × (Db → Db))} (ok (b, made)) (ok (a, writes))
    → IsApart db (made db)
    → IsApart db (writes db)
of_writes {A = A} a b made writes db h k =
    subst (λ (p : A × (Db → Db)). IsApart db (p.1 db)) (ok-injective h) k

revoke-IsApart :
    (now : ℕ) (id : String) (revoked : Bool) (db : Db)
    → IsApart db (
        if revoked
        then db
        else record db { secrets = set_where (λ s. s.id == id) (revoke now) db.secrets })
revoke-IsApart now id true db = unchanged db
revoke-IsApart now id false db = record { rules = refl; groups = refl }

-- A request of the client service changes neither the rules nor the groups.
pub handle_client-IsApart :
    (sha256 : String → String) (now : ℕ) (q : ClientRequest) (db : Db)
    → IsApart db (handle_client sha256 now q db).1
unfolding handle_client create_client plan_update_client plan_add_secret plan_revoke_secret
handle_client-IsApart sha256 now (creation id secret_id plaintext request) db =
    elim (Bool-cases (
      is_some (get_client_by_client_id request.client_id db)
      || is_refused (new_client id request) db)) [
        | inl t ↦ rw t (unchanged db)
        | inr n ↦ rw n (record { rules = refl; groups = refl })
      ]
handle_client-IsApart sha256 now (change slug request) db =
    then_commit-IsApart (plan_update_client slug request db) db (λ a writes h.
      let (client, found, h₁) = >>=-eq-ok (get_client slug db) _ h in
      let (v, met, k) =
        >>=-eq-ok (raise_if (not (meets_checks (assign_client request client))) integrity_error) _
          h₁ in
      of_writes a _ _ writes db k (record { rules = refl; groups = refl }))
handle_client-IsApart sha256 now (another_secret slug secret_id plaintext) db =
    then_commit-IsApart (plan_add_secret sha256 now slug secret_id plaintext db) db (λ a writes h.
      let (client, found, h₁) = >>=-eq-ok (get_client slug db) _ h in
      let (u, few, k) =
        >>=-eq-ok
          (raise_if (leb max_active_secrets_per_client (count_active_secrets now client.id db))
            (too_many_active_secrets slug))
          _ h₁ in
      of_writes a _ _ writes db k (record { rules = refl; groups = refl }))
handle_client-IsApart sha256 now (revocation slug secret_id) db =
    then_commit-IsApart (plan_revoke_secret now slug secret_id db) db (λ a writes h.
      let (client, found, h₁) = >>=-eq-ok (get_client slug db) _ h in
      let (secret, known, h₂) =
        >>=-eq-ok (or_raise (get_secret_by_id secret_id db) (client_secret_not_found secret_id)) _
          h₁ in
      let (u, own, h₃) =
        >>=-eq-ok
          (raise_if (not (secret.client_pk == client.id)) (client_secret_not_found secret_id)) _
          h₂ in
      let (v, left, k) =
        >>=-eq-ok
          (raise_if
            (not (is_some secret.revoked_at)
              && (is_unexpired now secret.expires_at
                  && (client.status == "active" && leb (count_active_secrets now client.id db) 1)))
            (last_active_secret slug))
          _ h₃ in
      of_writes a _ _ writes db k (revoke-IsApart now secret_id (is_some secret.revoked_at) db))
