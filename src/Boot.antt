-- ===== src/Boot.antt =====
-- main.py's `lifespan`, with core/redis_client.py's `ping` and core/scheduler.py's `start_scheduler`: what
-- the process sets up, in order, before it answers a request. An exception anywhere ends the boot.
pub mod Started
pub mod Outages
use distributed_rate_limiter.Auth.Records
use distributed_rate_limiter.Auth.Records.{ClientsCache, serialize_client}
use distributed_rate_limiter.Errors.{Error, PyError}
use distributed_rate_limiter.Fallback.{
  ConfigFile, EndpointConfig, ConfigError, load_rate_limiter_settings,
}
use distributed_rate_limiter.Limiter.{Hasher}
use distributed_rate_limiter.Params.{Runtime}
use distributed_rate_limiter.RulesCache.{Cache, init}
use distributed_rate_limiter.RulesLoader.{load_rules_into_cache}
use distributed_rate_limiter.Scripts.{
  ScriptFile, ScriptCache, register_all_scripts, registered_names,
}
use distributed_rate_limiter.Service.{Env}
use distributed_rate_limiter.Settings.{Settings}
use distributed_rate_limiter.Store.{Db, ClientRow}
use distributed_rate_limiter.Validation.{Parsers}
use distributed_rate_limiter.Prelude.Dict
use distributed_rate_limiter.Prelude.Dict.{Dict}
use distributed_rate_limiter.Prelude.Int.{ℤ}
use distributed_rate_limiter.Prelude.{
  ℕ, String, Bool, false, not, Option, none, some, List, map, string_eq, Result, ok, raise, ◌>>=◌,
  ◌>>◌, raise_if,
}

-- `ping`: the answer to PING as a truth value, and False for a RedisError (`none`).
unfoldable pub ping : Option Bool → Bool
ping none = false
ping (some answer) = answer

-- The jobs of the scheduler by id, each with the seconds of its interval: one that has the id is replaced.
abbrev pub Jobs : Type 0
Jobs = Dict String ℤ

-- `start_scheduler`
unfoldable pub start_scheduler : Settings → Jobs → Jobs
start_scheduler s jobs =
    Dict.insert "clients_poll" s.clients_poll_interval_seconds
      (Dict.insert "rules_poll" s.rules_poll_interval_seconds jobs)

-- What the process finds: the answer to PING, the files of the scripts and which texts Redis takes, the
-- configuration at each path, and the tables as the two loads read them (`none` for a session that fails).
pub record Surroundings : Type 0 where
  pub answer : Option Bool
  pub accepts : String → Bool
  pub files : List ScriptFile
  pub config_at : String → ConfigFile
  pub rules_db : Option Db
  pub client_rows : Option (List ClientRow)
  pub rules_loaded_at : ℕ
  pub clients_loaded_at : ℕ

pub data BootError : Type 0 where
  -- `RuntimeError`: PING failed.
  redis_unreachable : BootError
  scripts_refused : Error → BootError
  config_refused : ConfigError → BootError
  -- `none` for an error of the database.
  rules_unreadable : Option PyError → BootError
  clients_unreadable : BootError

-- The parts of `app.state`, the scripts of the process and the jobs of its scheduler.
pub record App : Type 0 where
  pub settings : Settings
  pub fallback : EndpointConfig
  pub script_cache : ScriptCache
  pub rules_cache : Cache
  pub clients_cache : ClientsCache
  pub jobs : Jobs

abbrev pub or_boot_error {ℓ κ} :
    {E : Type ℓ} {A : Type κ} → (E → BootError) → Result E A → Result BootError A
or_boot_error wrap (ok a) = ok a
or_boot_error wrap (raise e) = raise (wrap e)

-- The cache of scripts, where all were registered.
abbrev pub scripts_of : ScriptCache × Result Error (List String) → Result BootError ScriptCache
scripts_of (cache, ok names) = ok cache
scripts_of (cache, raise e) = raise (BootError.scripts_refused e)

unfoldable pub first_rules : ℕ → Option Db → Result BootError Cache
first_rules now none = raise (BootError.rules_unreadable none)
first_rules now (some db) =
    or_boot_error (λ e. BootError.rules_unreadable (some e)) (load_rules_into_cache now db init)

-- `load_clients_into_cache`, on a new cache.
unfoldable pub first_clients : ℕ → Option (List ClientRow) → Result BootError ClientsCache
unfolding serialize_client Records.load_all
first_clients now none = raise BootError.clients_unreadable
first_clients now (some rows) = ok (Records.load_all now (map serialize_client rows))

-- `lifespan`, up to its `yield`. `scripts` and `jobs` are what an earlier start in this process has left.
unfoldable pub lifespan :
    Runtime → Settings → ScriptCache → Jobs → Surroundings → Result BootError App
unfolding ping first_rules first_clients start_scheduler
lifespan rt settings scripts jobs found = do
  raise_if (not (ping found.answer)) BootError.redis_unreachable
  script_cache ← scripts_of (register_all_scripts found.accepts found.files scripts)
  fallback ←
      or_boot_error BootError.config_refused
        (load_rate_limiter_settings rt (found.config_at settings.rate_limit_config_path))
  rules_cache ← first_rules found.rules_loaded_at found.rules_db
  clients_cache ← first_clients found.clients_loaded_at found.client_rows
  ok (record {
    settings = settings;
    fallback = fallback;
    script_cache = script_cache;
    rules_cache = rules_cache;
    clients_cache = clients_cache;
    jobs = start_scheduler settings jobs;
  })

-- The service of the app, as a request meets it: `hash_with` is HMAC under a secret.
unfoldable pub service_of : Runtime → Parsers → (String → Hasher) → App → Env
service_of rt parsers hash_with app = record {
  default_config = app.fallback.config;
  rules_cache = some app.rules_cache;
  hasher = hash_with app.settings.identifier_hash_secret;
  runtime = rt;
  parsers = parsers;
  registered = registered_names app.script_cache;
}
