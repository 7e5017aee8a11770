-- ===== src/Bootstrap.antt =====
-- scripts/create_client.py: the first client, written to the tables without the API.
pub mod Admitted
use distributed_rate_limiter.Clients.{
  ClientCreate, new_client, new_secret, is_refused, add_client, insert_secret,
}
use distributed_rate_limiter.Errors.{Error, integrity_error}
use distributed_rate_limiter.Store.{Db, ClientRow, get_client_by_client_id}
use distributed_rate_limiter.Prelude.{
  String, Option, none, some, if◌then◌else◌, nat_eq, string_eq, Result, ok, raise,
}

pub data Printed : Type 0 where
  already_exists : String → Printed
  created : ClientRow → String → Printed

-- `main` for the client that has the name already, or with two commits: the client's, and its secret's.
unfoldable pub main_with :
    (String → String)
    → String
    → String
    → String
    → ClientCreate
    → Db
    → Option ClientRow
    → Result Error Printed × Db
main_with sha256 id secret_id plaintext request db (some existing) =
    (ok (already_exists existing.id), db)
main_with sha256 id secret_id plaintext request db none =
    let client = new_client id request in
    if is_refused client db then (raise integrity_error, db) else (
      ok (created client plaintext),
      insert_secret (new_secret sha256 secret_id id plaintext) (add_client client db),
    )

unfoldable pub main :
    (String → String) → String → String → String → ClientCreate → Db → Result Error Printed × Db
unfolding main_with
main sha256 id secret_id plaintext request db =
    main_with sha256 id secret_id plaintext request db
      (get_client_by_client_id request.client_id db)
