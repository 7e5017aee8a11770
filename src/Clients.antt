-- ===== src/Clients.antt =====
-- services/client_service.py: clients and their secrets. The queries of a method see `seen`; its commits
-- are made on `db`. `sha256` is the hex digest of hashlib, and the text of a new secret, which the
-- module `secrets` draws at random, is an argument.
pub mod Caps
pub mod Handle
pub mod Owners
pub mod Keeps
pub mod LastSecret
pub mod Apart
use distributed_rate_limiter.Errors.{
  Error, client_id_conflict, client_not_found, client_secret_not_found, last_active_secret,
  integrity_error, too_many_active_secrets,
}
use distributed_rate_limiter.RuleService.{or_else, or_raise}
use distributed_rate_limiter.Store.{
  Db, ClientRow, SecretRow, set_where, is_some, get_client_by_client_id,
}
use distributed_rate_limiter.Store.Checks.{meets_checks}
use distributed_rate_limiter.Prelude.{
  text_length, ℕ, zero, suc, ◌-◌, String, Bool, true, not, ◌&&◌, ◌||◌, Option, none, some, List, [],
  ◌∷◌, ◌++◌, if◌then◌else◌, ltb, leb, ◌==◌, nat_eq, string_eq, length, keep, any, find, Result, ok,
  raise, ◌>>=◌, ◌>>◌, raise_if,
}

pub record ClientCreate : Type 0 where
  pub client_id : String
  pub name : String
  pub description : Option String
  pub scopes : List String

pub record ClientUpdate : Type 0 where
  pub name : Option String
  pub description : Option String
  pub scopes : Option (List String)
  pub status : Option String

abbrev pub max_active_secrets_per_client : ℕ
max_active_secrets_per_client = 2

text_drop : ℕ → String → String
text_drop zero s = s
text_drop (suc n) String.[] = String.[]
text_drop (suc n) (String.◌∷◌ c s) = text_drop n s

-- `secret[-4:]`
unfoldable pub secret_hint : String → String
unfolding text_length text_drop
secret_hint secret = text_drop (text_length secret - 4) secret

-- `expires_at IS NULL OR expires_at > now`
abbrev pub is_unexpired : ℕ → Option ℕ → Bool
is_unexpired now none = true
is_unexpired now (some t) = ltb now t

abbrev pub is_live : ℕ → SecretRow → Bool
is_live now s = not (is_some s.revoked_at) && is_unexpired now s.expires_at

unfoldable pub list_active_secrets : ℕ → String → Db → List SecretRow
list_active_secrets now pk db = keep (λ s. s.client_pk == pk && is_live now s) db.secrets

unfoldable pub count_active_secrets : ℕ → String → Db → ℕ
unfolding list_active_secrets
count_active_secrets now pk db = length (list_active_secrets now pk db)

unfoldable pub get_secret_by_id : String → Db → Option SecretRow
get_secret_by_id id db = find (λ s. s.id == id) db.secrets

-- An INSERT of a client is refused where its key or its slug is taken, or a CHECK of the table is not met.
abbrev pub is_refused : ClientRow → Db → Bool
is_refused c db =
    any (λ k. k.id == c.id) db.clients
    || (any (λ k. k.client_id == c.client_id) db.clients || not (meets_checks c))

abbrev pub add_client : ClientRow → Db → Db
add_client c db = record db { clients = db.clients ++ c ∷ [] }

abbrev pub insert_secret : SecretRow → Db → Db
insert_secret s db = record db { secrets = db.secrets ++ s ∷ [] }

abbrev pub new_client : String → ClientCreate → ClientRow
new_client id request = record {
  id = id;
  client_id = request.client_id;
  name = request.name;
  description = request.description;
  status = "active";
  scopes = request.scopes;
}

unfoldable pub get_client : String → Db → Result Error ClientRow
get_client slug db = or_raise (get_client_by_client_id slug db) (client_not_found slug)

abbrev pub assign_client : ClientUpdate → ClientRow → ClientRow
assign_client request c = record c {
  name = or_else request.name c.name;
  description = if is_some request.description then request.description else c.description;
  scopes = or_else request.scopes c.scopes;
  status = or_else request.status c.status;
}

-- The commit of what a method has prepared, if it does not raise before.
abbrev pub then_commit {ℓ} : {A : Type ℓ} → Result Error (A × (Db → Db)) → Db → Result Error A × Db
then_commit (raise e) db = (raise e, db)
then_commit (ok (a, writes)) db = (ok a, writes db)

-- `update_client`, whose commit the CHECKs of the table may refuse.
unfoldable pub plan_update_client :
    String → ClientUpdate → Db → Result Error (ClientRow × (Db → Db))
unfolding get_client
plan_update_client slug request seen = do
  client ← get_client slug seen
  raise_if (not (meets_checks (assign_client request client))) integrity_error
  ok (
    assign_client request client,
    λ db. record db {
      clients = set_where (λ c. c.id == client.id) (assign_client request) db.clients;
    },
  )

unfoldable pub revoke : ℕ → SecretRow → SecretRow
revoke now s = record s { revoked_at = some now }

-- Up to the UPDATE: a secret that is revoked already is left as it is.
unfoldable pub plan_revoke_secret : ℕ → String → String → Db → Result Error (Unit {0} × (Db → Db))
unfolding get_client
plan_revoke_secret now slug secret_id seen = do
  client ← get_client slug seen
  secret ← or_raise (get_secret_by_id secret_id seen) (client_secret_not_found secret_id)
  raise_if (not (secret.client_pk == client.id)) (client_secret_not_found secret_id)
  raise_if
      (not (is_some secret.revoked_at)
        && (is_unexpired now secret.expires_at
            && (client.status == "active" && leb (count_active_secrets now client.id seen) 1)))
      (last_active_secret slug)
  ok (
    tt,
    λ db.
        if is_some secret.revoked_at
        then db
        else record db { secrets = set_where (λ s. s.id == secret_id) (revoke now) db.secrets },
  )

module _ (sha256 : String → String) where
  unfoldable pub hash_secret : String → String
  hash_secret secret = sha256 secret

  -- `hmac.compare_digest`
  unfoldable pub verify_secret : String → String → Bool
  unfolding hash_secret
  verify_secret secret secret_hash = hash_secret secret == secret_hash

  unfoldable pub new_secret : String → String → String → SecretRow
  unfolding hash_secret secret_hint
  new_secret id client_pk plaintext = record {
    id = id;
    client_pk = client_pk;
    secret_hash = hash_secret plaintext;
    secret_hint = secret_hint plaintext;
    expires_at = none;
    revoked_at = none;
  }

  -- Two commits: the client's, and then its first secret's.
  unfoldable pub create_client :
      String → String → String → ClientCreate → Db → Db → Result Error (ClientRow × String) × Db
  unfolding new_secret
  create_client id secret_id plaintext request seen db =
      if is_some (get_client_by_client_id request.client_id seen)
        || is_refused (new_client id request) db
      then (raise (client_id_conflict request.client_id), db)
      else (
        ok (new_client id request, plaintext),
        insert_secret (new_secret secret_id id plaintext) (add_client (new_client id request) db),
      )

  unfoldable pub plan_add_secret :
      ℕ → String → String → String → Db → Result Error ((SecretRow × String) × (Db → Db))
  unfolding get_client new_secret
  plan_add_secret now slug secret_id plaintext seen = do
    client ← get_client slug seen
    raise_if (leb max_active_secrets_per_client (count_active_secrets now client.id seen))
        (too_many_active_secrets slug)
    let secret = new_secret secret_id client.id plaintext
    ok ((secret, plaintext), insert_secret secret)
