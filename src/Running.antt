-- ===== src/Running.antt =====
-- The process at work, from its start in main.py: requests of administrators, the two polls of
-- core/scheduler.py, reloads of the scripts and checks, in any order. A step is one transaction, one
-- poll, one check, or one upload of a script, between which other steps may come.
pub mod Kept
pub mod Served
use distributed_rate_limiter.Admin.{Request, handle, handle_all}
use distributed_rate_limiter.Admin.Keeps.{IsSound}
use distributed_rate_limiter.Auth.{Jwt, TokenService}
use distributed_rate_limiter.Auth.Records.{run_scheduled_clients_poll}
use distributed_rate_limiter.Boot.{Jobs, Surroundings, App, lifespan, service_of}
use distributed_rate_limiter.Checks.{RawCheck, check_endpoint}
use distributed_rate_limiter.Clients.Handle.{ClientRequest, handle_client}
use distributed_rate_limiter.Errors.{Error, PyError}
use distributed_rate_limiter.Limiter.{RateLimitResult, Call, Reply, Hasher}
use distributed_rate_limiter.Params.{Runtime}
use distributed_rate_limiter.RulesCache.{Cache}
use distributed_rate_limiter.RulesLoader.{load_rules_into_cache, run_scheduled_rules_poll}
use distributed_rate_limiter.Scripts.{ScriptFile, ScriptCache, path_lt}
use distributed_rate_limiter.Scripts.Reloaded.{stems}
use distributed_rate_limiter.Service.{Warned}
use distributed_rate_limiter.Settings.{Settings}
use distributed_rate_limiter.Store.{Db, ClientRow, Collation}
use distributed_rate_limiter.Validation.{Parsers}
use distributed_rate_limiter.Prelude.Dict
use distributed_rate_limiter.Prelude.Sort.{sort}
use distributed_rate_limiter.Prelude.{
  ℕ, String, ◌≡◌, Option, none, some, List, [], ◌∷◌, ◌++◌, string_eq, Distinct, Result, ok, raise,
}

-- The process, the tables, the reloads that are under way, each with the files that are left to it, and the
-- warnings that the service remembers. The last two fields are no state of the program: the tables as
-- the last load of the rules that succeeded read them, and the clients as the last load of these did.
pub record World : Type 0 where
  pub app : App
  pub db : Db
  pub reloads : List (List ScriptFile)
  pub warned : Warned
  pub rules_read : Db
  pub clients_read : List ClientRow

abbrev pub nothing_warned_yet : Warned
nothing_warned_yet = record { pairs = []; generation = none }

abbrev pub started_world : App → Db → Db → World
started_world app rules_db clients_db = record {
  app = app;
  db = clients_db;
  reloads = [];
  warned = nothing_warned_yet;
  rules_read = rules_db;
  clients_read = clients_db.clients;
}

-- The tables that a poll has read, if it did not raise.
abbrev pub read_by : Result PyError Cache → Db → Db → Db
read_by (ok cache) db old = db
read_by (raise e) db old = old

abbrev pub rows_read_by : Option (List ClientRow) → List ClientRow → List ClientRow
rows_read_by none old = old
rows_read_by (some rows) old = rows

abbrev pub read_db : Option Db → Cache → Db → ℕ → Db
read_db none cache old now = old
read_db (some db) cache old now = read_by (load_rules_into_cache now db cache) db old

abbrev pub with_scripts : ScriptCache → World → World
with_scripts scripts w = record w { app = record w.app { script_cache = scripts } }

-- The parameters of the process: what it takes from libraries, and the settings it was started with.
pub record Machine : Type 0 where
  pub runtime : Runtime
  pub collation : Collation
  pub parsers : Parsers
  pub hash_with : String → Hasher
  pub sha256 : String → String
  pub jwt : Jwt
  pub tokens : TokenService
  pub settings : Settings
  pub files : List ScriptFile

module _ (m : Machine) where
  -- `POST /check` in a state of the world: the answer, and the warnings remembered.
  unfoldable pub answer_check :
      (Call → Reply)
      → ℕ
      → Option String
      → String
      → RawCheck
      → World
      → Result Error RateLimitResult × Warned
  answer_check redis now credentials request_id raw w =
      check_endpoint m.jwt m.tokens (service_of m.runtime m.parsers m.hash_with w.app) redis now
        credentials w.app.clients_cache request_id raw w.warned

  -- `session` is the session of a poll: `none` where it fails.
  pub data Step : World → World → Type 0 where
    administer :
        (w : World) (q : Request)
        → Step w (record w { db = (handle m.runtime m.collation q w.db).1 })
    administer_clients :
        (w : World) (now : ℕ) (q : ClientRequest)
        → Step w (record w { db = (handle_client m.sha256 now q w.db).1 })
    rules_poll :
        (w : World) (now : ℕ)
        → Step w (record w {
          app = record w.app {
            rules_cache = run_scheduled_rules_poll now (some w.db) w.app.rules_cache;
          };
          rules_read = read_db (some w.db) w.app.rules_cache w.rules_read now;
        })
    clients_poll :
        (w : World) (now : ℕ)
        → Step w (record w {
          app = record w.app {
            clients_cache = run_scheduled_clients_poll now (some w.db.clients) w.app.clients_cache;
          };
          clients_read = rows_read_by (some w.db.clients) w.clients_read;
        })
    -- A poll whose session fails.
    failed_poll :
        (w : World) (now : ℕ)
        → Step w (record w {
          app = record w.app {
            rules_cache = run_scheduled_rules_poll now none w.app.rules_cache;
            clients_cache = run_scheduled_clients_poll now none w.app.clients_cache;
          };
        })
    check :
        (w : World) (redis : Call → Reply) (now : ℕ) (credentials : Option String)
        (request_id : String) (raw : RawCheck)
        → Step w (record w { warned = (answer_check redis now credentials request_id raw w).1 })
    -- `flush_and_reregister_scripts`: Redis has answered the flush; it has taken the text of the next
    -- file; nothing is left, or Redis or the disk has refused the next file.
    reload_begins :
        (w : World)
        → Step w (record (with_scripts [] w) { reloads = sort path_lt m.files ∷ w.reloads })
    reload_loads :
        (w : World) (before after : List (List ScriptFile)) (f : ScriptFile)
        (left : List ScriptFile) (text : String)
        → w.reloads ≡ before ++ (f ∷ left) ∷ after
        → f.text ≡ some text
        → Step w (record (with_scripts (Dict.insert f.stem text w.app.script_cache) w) {
          reloads = before ++ left ∷ after;
        })
    reload_ends :
        (w : World) (before after : List (List ScriptFile)) (left : List ScriptFile)
        → w.reloads ≡ before ++ left ∷ after
        → Step w (record w { reloads = before ++ after })

  -- The worlds that can come of a start, with the tables of the rules sound when they were read, and any
  -- requests of administrators between the two loads.
  pub data Reach : World → Type 0 where
    start :
        (scripts : ScriptCache) (jobs : Jobs) (found : Surroundings) (app : App) (db : Db)
        (requests : List Request)
        → IsSound m.collation db
        → Distinct (stems found.files)
        → found.rules_db ≡ some db
        → found.client_rows ≡ some (handle_all m.runtime m.collation requests db).clients
        → lifespan m.runtime m.settings scripts jobs found ≡ ok app
        → Reach (started_world app db (handle_all m.runtime m.collation requests db))
    later : {w v : World} → Reach w → Step w v → Reach v
