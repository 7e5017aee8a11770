-- ===== src/Running/Kept.antt =====
-- What every step keeps: sound tables, and caches that are loads of tables that were read.
use distributed_rate_limiter.Admin.Keeps.{IsSound, handle-IsSound, handle_all-IsSound}
use distributed_rate_limiter.Auth.Records
use distributed_rate_limiter.Auth.Records.{
  ClientsCache, serialize_client, run_scheduled_clients_poll,
}
use distributed_rate_limiter.Boot.Started.{lifespan-IsStarted}
use distributed_rate_limiter.Clients.Apart.{IsApart, handle_client-IsApart}
use distributed_rate_limiter.Errors.{PyError}
use distributed_rate_limiter.RulesCache.{Cache, init}
use distributed_rate_limiter.RulesLoader.{load_rules_into_cache, or_old, run_scheduled_rules_poll}
use distributed_rate_limiter.Running.{
  World, read_by, read_db, Machine, Step, administer, administer_clients, rules_poll, clients_poll,
  failed_poll, check, reload_begins, reload_loads, reload_ends, Reach, start, later,
}
use distributed_rate_limiter.Store.{Db, ClientRow, Collation, is_consistent}
use distributed_rate_limiter.Prelude.{
  ℕ, ◌≡◌, refl, sym, ap, ◌∙◌, subst, Option, some, List, map, Result, ok, raise,
}

-- The cache is a load of the tables, at some time and over some cache.
pub record IsLoadOf (db : Db) (cache : Cache) : Type 0 where
  pub now : ℕ
  pub before : Cache
  pub loaded : load_rules_into_cache now db before ≡ ok cache

pub record HasClients (rows : List ClientRow) (cache : ClientsCache) : Type 0 where
  pub now : ℕ
  pub loaded : cache ≡ Records.load_all now (map serialize_client rows)

pub record AreLoads (col : Collation) (db rules_read : Db) (rules_cache : Cache)
    (clients_read : List ClientRow) (clients_cache : ClientsCache) : Type 0 where
  pub sound : IsSound col db
  pub read_sound : IsSound col rules_read
  pub rules : IsLoadOf rules_read rules_cache
  pub clients : HasClients clients_read clients_cache

abbrev pub Inv : Machine → World → Type 0
Inv m w =
    AreLoads m.collation w.db w.rules_read w.app.rules_cache w.clients_read w.app.clients_cache

IsApart-IsSound :
    (col : Collation) (before after : Db)
    → IsApart before after
    → IsSound col before
    → IsSound col after
unfolding is_consistent
IsApart-IsSound col before after apart sound =
    subst (λ rules. IsSound col (record before { rules = rules; groups = after.groups }))
      (sym apart.rules)
      (subst (λ groups. IsSound col (record before { groups = groups })) (sym apart.groups) sound)

poll-IsLoadOf :
    (now : ℕ) (db old : Db) (cache : Cache)
    → IsLoadOf old cache
    → IsLoadOf (read_db (some db) cache old now) (run_scheduled_rules_poll now (some db) cache)
unfolding run_scheduled_rules_poll
poll-IsLoadOf now db old cache loaded = by_load (load_rules_into_cache now db cache) refl
  where
    by_load :
        (r : Result PyError Cache)
        → load_rules_into_cache now db cache ≡ r
        → IsLoadOf (read_by r db old) (or_old r cache)
    by_load (ok c) e = record { now = now; before = cache; loaded = e }
    by_load (raise e) q = loaded

poll-IsSound :
    (col : Collation) (now : ℕ) (db old : Db) (cache : Cache)
    → IsSound col db
    → IsSound col old
    → IsSound col (read_db (some db) cache old now)
poll-IsSound col now db old cache s k = by_load (load_rules_into_cache now db cache)
  where
    by_load : (r : Result PyError Cache) → IsSound col (read_by r db old)
    by_load (ok c) = s
    by_load (raise e) = k

HasClients-of_rows :
    (o : Option (List ClientRow)) (now : ℕ) (rows found : List ClientRow) (cache : ClientsCache)
    → o ≡ some rows
    → o ≡ some found
    → cache ≡ Records.load_all now (map serialize_client found)
    → HasClients rows cache
HasClients-of_rows o now rows found cache e f h = record {
  now = now;
  loaded =
      h ∙ ap (λ rs. Records.load_all now (map serialize_client rs)) (some_injective (sym f ∙ e));
}
  where
    some_injective :
        {a b : List ClientRow} → ◌≡◌ {A = Option (List ClientRow)} (some a) (some b) → a ≡ b
    some_injective h = cc

IsLoadOf-of_db :
    (o : Option Db) (now : ℕ) (db found : Db) (cache : Cache)
    → o ≡ some db
    → o ≡ some found
    → load_rules_into_cache now found init ≡ ok cache
    → IsLoadOf db cache
IsLoadOf-of_db o now db found cache e f h =
    subst (λ d. IsLoadOf d cache) (some_injective (sym f ∙ e))
      (record { now = now; before = init; loaded = h })
  where
    some_injective : {a b : Db} → ◌≡◌ {A = Option Db} (some a) (some b) → a ≡ b
    some_injective h = cc

module _ (m : Machine) where
  Step-Inv : {w v : World} → Step m w v → Inv m w → Inv m v
  unfolding run_scheduled_clients_poll run_scheduled_rules_poll
  Step-Inv (administer w q) inv = record {
    sound = handle-IsSound m.runtime m.collation q w.db inv.sound;
    read_sound = inv.read_sound;
    rules = inv.rules;
    clients = inv.clients;
  }
  Step-Inv (administer_clients w now q) inv = record {
    sound =
        IsApart-IsSound m.collation w.db _ (handle_client-IsApart m.sha256 now q w.db) inv.sound;
    read_sound = inv.read_sound;
    rules = inv.rules;
    clients = inv.clients;
  }
  Step-Inv (rules_poll w now) inv = record {
    sound = inv.sound;
    read_sound =
        poll-IsSound m.collation now w.db w.rules_read w.app.rules_cache inv.sound inv.read_sound;
    rules = poll-IsLoadOf now w.db w.rules_read w.app.rules_cache inv.rules;
    clients = inv.clients;
  }
  Step-Inv (clients_poll w now) inv = record {
    sound = inv.sound;
    read_sound = inv.read_sound;
    rules = inv.rules;
    clients = record { now = now; loaded = refl };
  }
  Step-Inv (failed_poll w now) inv = inv
  Step-Inv (check w redis now credentials request_id raw) inv = inv
  Step-Inv (reload_begins w) inv = inv
  Step-Inv (reload_loads w before after f left text e read) inv = inv
  Step-Inv (reload_ends w before after left e) inv = inv

  -- In every world that can come of a start the tables are sound, and each cache is a load of what was last read.
  pub Reach-Inv : {w : World} → Reach m w → Inv m w
  Reach-Inv
        (start scripts jobs found app db requests sound distinct rules_read clients_read started) =
      let s = lifespan-IsStarted m.runtime m.settings scripts jobs found app distinct started in
      record {
        sound = handle_all-IsSound m.runtime m.collation requests db sound;
        read_sound = sound;
        rules =
            IsLoadOf-of_db found.rules_db found.rules_loaded_at db s.db app.rules_cache rules_read
              s.rules_read s.rules_loaded;
        clients =
            HasClients-of_rows found.client_rows found.clients_loaded_at _ s.rows app.clients_cache
              clients_read s.clients_read s.clients_loaded;
      }
  Reach-Inv (later r st) = Step-Inv st (Reach-Inv r)
