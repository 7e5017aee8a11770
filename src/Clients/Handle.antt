-- ===== src/Clients/Handle.antt =====
-- The methods of the client service that write, as requests at a time, one after the other.
use distributed_rate_limiter.Admin.{outcome}
use distributed_rate_limiter.Clients.{
  ClientCreate, ClientUpdate, create_client, plan_update_client, plan_add_secret,
  plan_revoke_secret, then_commit,
}
use distributed_rate_limiter.Errors.{Error}
use distributed_rate_limiter.Store.{Db}
use distributed_rate_limiter.Prelude.{ℕ, String, Option, List, [], ◌∷◌}

-- The ids that the database gives to new rows, and the text of a new secret, are part of a request.
pub data ClientRequest : Type 0 where
  creation : (id secret_id plaintext : String) (request : ClientCreate) → ClientRequest
  change : (slug : String) (request : ClientUpdate) → ClientRequest
  another_secret : (slug secret_id plaintext : String) → ClientRequest
  revocation : (slug secret_id : String) → ClientRequest

module _ (sha256 : String → String) where
  unfoldable pub handle_client : ℕ → ClientRequest → Db → Option Error × Db
  handle_client now (creation id secret_id plaintext request) db =
      outcome (create_client sha256 id secret_id plaintext request db db)
  handle_client now (change slug request) db =
      outcome (then_commit (plan_update_client slug request db) db)
  handle_client now (another_secret slug secret_id plaintext) db =
      outcome (then_commit (plan_add_secret sha256 now slug secret_id plaintext db) db)
  handle_client now (revocation slug secret_id) db =
      outcome (then_commit (plan_revoke_secret now slug secret_id db) db)

  -- Requests at their times.
  unfoldable pub handle_clients : List (ℕ × ClientRequest) → Db → Db
  unfolding handle_client
  handle_clients [] db = db
  handle_clients ((now, q) ∷ requests) db = handle_clients requests (handle_client now q db).1
