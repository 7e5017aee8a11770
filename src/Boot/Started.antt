-- ===== src/Boot/Started.antt =====
-- What holds once the process has started.
use distributed_rate_limiter.Auth.Records
use distributed_rate_limiter.Auth.Records.{ClientsCache, serialize_client}
use distributed_rate_limiter.Boot.{
  ping, Jobs, start_scheduler, Surroundings, BootError, App, or_boot_error, scripts_of, first_rules,
  first_clients, lifespan,
}
use distributed_rate_limiter.Errors.{Error}
use distributed_rate_limiter.Fallback.{load_rate_limiter_settings}
use distributed_rate_limiter.Fallback.Positive.{load_rate_limiter_settings-IsPositive}
use distributed_rate_limiter.Params.{Runtime}
use distributed_rate_limiter.Params.Config.{IsPositive}
use distributed_rate_limiter.RulesCache
use distributed_rate_limiter.RulesCache.{Cache, init}
use distributed_rate_limiter.RulesLoader.{fetch_all_rules_from_db, load_rules_into_cache}
use distributed_rate_limiter.Scripts.{ScriptCache, register_all_scripts, registered_names}
use distributed_rate_limiter.Scripts.Reloaded.{stems, register_all_scripts-registered}
use distributed_rate_limiter.Settings.{Settings}
use distributed_rate_limiter.Store.{Db, ClientRow}
use distributed_rate_limiter.Prelude.Dict
use distributed_rate_limiter.Prelude.Dict.{get-insert}
use distributed_rate_limiter.Prelude.{
  ℕ, String, ◌≡◌, refl, sym, ap, ◌∙◌, subst, Bool, true, false, not, Option, none, some, List, map,
  string_eq, contains, Distinct, Result, ok, raise, raise_if, raise_if-eq-ok, >>=-eq-ok,
  ok-injective,
}

or_boot_error-ok {ℓ κ} :
    {E : Type ℓ} {A : Type κ} (wrap : E → BootError) (r : Result E A) (a : A)
    → or_boot_error wrap r ≡ ok a
    → r ≡ ok a
or_boot_error-ok wrap (ok b) a h = ap ok (ok-injective h)
or_boot_error-ok wrap (raise e) a h = cc

scripts_of-ok :
    (out : ScriptCache × Result Error (List String)) (cache : ScriptCache)
    → scripts_of out ≡ ok cache
    → (names : List String) × (out ≡ (cache, ok names))
scripts_of-ok (c, ok names) cache h = (names, ap (λ d. (d, ok names)) (ok-injective h))
scripts_of-ok (c, raise e) cache h = cc

pub record IsStarted (rt : Runtime) (s : Settings) (found : Surroundings) (app : App) : Type 0 where
  pub redis : found.answer ≡ some true
  pub scripts :
      (name : String)
      → contains (stems found.files) name ≡ true
      → contains (registered_names app.script_cache) name ≡ true
  pub positive : IsPositive rt app.fallback.config
  pub db : Db
  pub rules_read : found.rules_db ≡ some db
  pub rules_loaded : load_rules_into_cache found.rules_loaded_at db init ≡ ok app.rules_cache
  pub rules_ready : app.rules_cache.ready ≡ true
  pub rows : List ClientRow
  pub clients_read : found.client_rows ≡ some rows
  pub clients_loaded :
      app.clients_cache ≡ Records.load_all found.clients_loaded_at (map serialize_client rows)
  pub rules_poll : Dict.get "rules_poll" app.jobs ≡ some s.rules_poll_interval_seconds
  pub clients_poll : Dict.get "clients_poll" app.jobs ≡ some s.clients_poll_interval_seconds

answered : (o : Option Bool) → not (ping o) ≡ false → o ≡ some true
unfolding ping
answered none h = cc
answered (some true) h = refl
answered (some false) h = cc

first_rules-ok :
    (now : ℕ) (o : Option Db) (cache : Cache)
    → first_rules now o ≡ ok cache
    → (db : Db) × (o ≡ some db) × (load_rules_into_cache now db init ≡ ok cache)
unfolding first_rules
first_rules-ok now none cache h = cc
first_rules-ok now (some db) cache h = (db, refl, or_boot_error-ok _ _ cache h)

load_rules_into_cache-ready :
    (now : ℕ) (db : Db) (before cache : Cache)
    → load_rules_into_cache now db before ≡ ok cache
    → cache.ready ≡ true
unfolding load_rules_into_cache RulesCache.load_all
load_rules_into_cache-ready now db before cache h =
    let (rules, fetched, h₁) = >>=-eq-ok (fetch_all_rules_from_db db) _ h in
    ap (λ (c : Cache). c.ready) (sym (ok-injective h₁))

first_clients-ok :
    (now : ℕ) (o : Option (List ClientRow)) (cache : ClientsCache)
    → first_clients now o ≡ ok cache
    → (rows : List ClientRow) × (o ≡ some rows)
      × (cache ≡ Records.load_all now (map serialize_client rows))
unfolding first_clients
first_clients-ok now none cache h = cc
first_clients-ok now (some rows) cache h = (rows, refl, sym (ok-injective h))

jobs_started :
    (s : Settings) (jobs : Jobs)
    → (Dict.get "rules_poll" (start_scheduler s jobs) ≡ some s.rules_poll_interval_seconds)
      × (Dict.get "clients_poll" (start_scheduler s jobs) ≡ some s.clients_poll_interval_seconds)
unfolding start_scheduler
jobs_started s jobs = (
  get-insert "clients_poll" "rules_poll" s.clients_poll_interval_seconds _
      ∙ get-insert "rules_poll" "rules_poll" s.rules_poll_interval_seconds jobs,
  get-insert "clients_poll" "clients_poll" s.clients_poll_interval_seconds _,
)

module _ (rt : Runtime) (s : Settings) (scripts : ScriptCache) (jobs : Jobs) (found : Surroundings)
    (app : App) (distinct : Distinct (stems found.files))
    (started : lifespan rt s scripts jobs found ≡ ok app) where
  -- A start that ends, with files of different names for the scripts, has found a Redis that answers PING with
  -- yes, has registered the scripts of all files, has a fallback with only numbers greater than zero, has both
  -- caches loaded from what the tables held and the one of the rules marked as ready, and has a job for each
  -- poll at the interval of the settings, whatever an earlier start in the process has left.
  pub lifespan-IsStarted : IsStarted rt s found app
  unfolding lifespan
  lifespan-IsStarted =
      let (u, pinged, h₁) =
        >>=-eq-ok (raise_if (not (ping found.answer)) BootError.redis_unreachable) _ started in
      let (cache, uploaded, h₂) =
        >>=-eq-ok (scripts_of (register_all_scripts found.accepts found.files scripts)) _ h₁ in
      let (fallback, configured, h₃) =
        >>=-eq-ok
          (or_boot_error BootError.config_refused
            (load_rate_limiter_settings rt (found.config_at s.rate_limit_config_path)))
          _ h₂ in
      let (rules, ruled, h₄) = >>=-eq-ok (first_rules found.rules_loaded_at found.rules_db) _ h₃ in
      let (clients, known, h₅) =
        >>=-eq-ok (first_clients found.clients_loaded_at found.client_rows) _ h₄ in
      let (names, ended) =
        scripts_of-ok (register_all_scripts found.accepts found.files scripts) cache uploaded in
      let (db, read, loaded) = first_rules-ok found.rules_loaded_at found.rules_db rules ruled in
      let (rows, rows_read, made) =
        first_clients-ok found.clients_loaded_at found.client_rows clients known in
      let (rules_job, clients_job) = jobs_started s jobs in
      subst (IsStarted rt s found) (ok-injective h₅) (record {
        redis =
            answered found.answer
              (raise_if-eq-ok (not (ping found.answer)) BootError.redis_unreachable pinged);
        scripts =
            register_all_scripts-registered found.accepts found.files scripts cache names distinct
              ended;
        positive =
            load_rate_limiter_settings-IsPositive rt (found.config_at s.rate_limit_config_path)
              fallback (or_boot_error-ok BootError.config_refused _ fallback configured);
        db = db;
        rules_read = read;
        rules_loaded = loaded;
        rules_ready = load_rules_into_cache-ready found.rules_loaded_at db init rules loaded;
        rows = rows;
        clients_read = rows_read;
        clients_loaded = made;
        rules_poll = rules_job;
        clients_poll = clients_job;
      })
