-- ===== src/Auth/Records.antt =====
-- services/clients_cache.py and services/clients_loader.py: the clients in memory, and their poll.
use distributed_rate_limiter.Store.{ClientRow}
use distributed_rate_limiter.Prelude.Dict
use distributed_rate_limiter.Prelude.Dict.{Dict, values}
use distributed_rate_limiter.Prelude.{
  ℕ, String, Bool, true, Option, none, some, List, [], ◌∷◌, map, string_eq,
}

pub record ClientRecord : Type 0 where
  pub pk : String
  pub client_id : String
  pub status : String
  pub scopes : List String

pub record ClientsCache : Type 0 where
  pub by_client_id : Dict String ClientRecord
  pub by_pk : Dict String ClientRecord
  pub ready : Bool
  pub last_loaded_at : Option ℕ

-- `_serialize_client`, and the record that the cache makes of the dict.
unfoldable pub serialize_client : ClientRow → ClientRecord
serialize_client c = record {
  pk = c.id;
  client_id = c.client_id;
  status = c.status;
  scopes = c.scopes;
}

unfoldable pub index_by :
    (ClientRecord → String)
    → List ClientRecord
    → Dict String ClientRecord
    → Dict String ClientRecord
index_by key [] d = d
index_by key (c ∷ cs) d = index_by key cs (Dict.insert (key c) c d)

unfoldable pub load_all : ℕ → List ClientRecord → ClientsCache
unfolding index_by
load_all now clients =
    let by_client_id = index_by (λ c. c.client_id) clients [] in
    record {
      by_client_id = by_client_id;
      by_pk = index_by (λ c. c.pk) (values by_client_id) [];
      ready = true;
      last_loaded_at = some now;
    }

unfoldable pub get_by_client_id : String → ClientsCache → Option ClientRecord
get_by_client_id client_id cache = Dict.get client_id cache.by_client_id

unfoldable pub get_by_pk : String → ClientsCache → Option ClientRecord
get_by_pk pk cache = Dict.get pk cache.by_pk

-- `load_clients_into_cache`, under `_run_scheduled_clients_poll`: `none` for a fetch that raises.
unfoldable pub run_scheduled_clients_poll :
    ℕ → Option (List ClientRow) → ClientsCache → ClientsCache
unfolding load_all serialize_client
run_scheduled_clients_poll now none cache = cache
run_scheduled_clients_poll now (some rows) cache = load_all now (map serialize_client rows)
