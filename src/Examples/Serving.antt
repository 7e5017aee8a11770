-- ===== src/Examples/Serving.antt =====
-- Tests and examples of a start and of the process at work.
use distributed_rate_limiter.Examples.{runtime, parsers, hasher, identifiers, answers}
use distributed_rate_limiter.Examples.Clients.{trusting, tokens}
use distributed_rate_limiter.Examples.Environment.{settings}
use distributed_rate_limiter.Examples.Groups.{db, as_written, db-is_consistent, db-IsGoverned}
use distributed_rate_limiter.Admin.{delete_rule, handle, handle_all}
use distributed_rate_limiter.Auth.Records
use distributed_rate_limiter.Auth.Records.{serialize_client}
use distributed_rate_limiter.Examples.Polls.{cached_rules}
use distributed_rate_limiter.Boot.{Surroundings, App, lifespan, service_of}
use distributed_rate_limiter.Boot.Started.{IsStarted, lifespan-IsStarted}
use distributed_rate_limiter.Checks.{RawCheck, validate_check, check_endpoint}
use distributed_rate_limiter.Checks.Bounded.{IsBounded, validate_check-IsBounded}
use distributed_rate_limiter.Errors.{uncaught, runtime_error, script_registration_error}
use distributed_rate_limiter.Fallback.{Section, no_file, document, load_rate_limiter_settings}
use distributed_rate_limiter.Identifier.{user_id, ip_address, endpoint, value}
use distributed_rate_limiter.Limiter.{RateLimitResult, create, script_name, check as check_reply}
use distributed_rate_limiter.Params.{Value, fixed_window, build_algorithm_config}
use distributed_rate_limiter.RulesCache.{
  init, load_all, get_candidates, candidates_at, sort_candidates, add_rules, is_usable, add_rule,
  sort_key_lt, get_global,
}
use distributed_rate_limiter.RulesLoader.{load_rules_into_cache, run_scheduled_rules_poll}
use distributed_rate_limiter.Running.{
  World, started_world, Machine, Step, administer, rules_poll, reload_begins, Reach, start, later,
  answer_check,
}
use distributed_rate_limiter.Running.Served.{IsServed, answer_check-IsServed}
use distributed_rate_limiter.Scripts.{
  ScriptFile, register_all_scripts, flush_and_reregister_scripts,
}
use distributed_rate_limiter.Scripts.Reloaded.{stems, Reloads, flush_and_reregister_scripts-Reloads}
use distributed_rate_limiter.Service.{
  at_index, check_rate_limit, CheckRequest, scan, choose, build_limiter_for_rule, project,
  decide_limit, resolve_rule,
}
use distributed_rate_limiter.Store.{
  is_storable, get_algorithm_by_id, run, get_rule_by_id, is_consistent, remove_rule,
}
use distributed_rate_limiter.RuleService.{plan_delete_rule}
use distributed_rate_limiter.Auth.{require_scope}
use distributed_rate_limiter.Auth.Words.{split}
use distributed_rate_limiter.Identifier.Sets.{subset, frozenset}
use distributed_rate_limiter.Identifier.RuleTypes.{rule_to_engine_identifier_type}
use distributed_rate_limiter.Validation.{validate_and_normalize, size, every}
use distributed_rate_limiter.Prelude.Int.{pos}
use distributed_rate_limiter.Prelude.Sort.{sort}
use distributed_rate_limiter.Prelude.Dict
use distributed_rate_limiter.Prelude.{
  String, ◌≡◌, refl, Bool, true, false, not, none, some, List, [], ◌∷◌, map, ◌==◌, string_eq,
  str_ltb, Distinct, if◌then◌else◌, ok, raise,
}

abbrev file : String → ScriptFile
file stem = record { stem = stem; text = some stem }

abbrev files : List ScriptFile
files =
    file "token_bucket"
    ∷ file "fixed_window"
    ∷ file "sliding_window_log"
    ∷ file "sliding_window_counter"
    ∷ file "leaky_bucket"
    ∷ []

-- A Redis that refuses one script.
abbrev refuses_log : String → Bool
refuses_log text = not (text == "sliding_window_log")

reload_refused : flush_and_reregister_scripts refuses_log true files (("old", "text") ∷ []) ≡ (
  ("fixed_window", "fixed_window")
      ∷ ("leaky_bucket", "leaky_bucket")
      ∷ ("sliding_window_counter", "sliding_window_counter")
      ∷ [],
  raise (script_registration_error "sliding_window_log"),
)
unfolding flush_and_reregister_scripts Dict.insert sort str_ltb
reload_refused = refl

files_apart : Distinct (stems files)
files_apart = (refl, (refl, (refl, (refl, (refl, tt)))))

flush_and_reregister_scripts-Reloads_example :
    Reloads refuses_log files
      (("old", "text") ∷ [])
      true
      (flush_and_reregister_scripts refuses_log true files (("old", "text") ∷ []))
flush_and_reregister_scripts-Reloads_example =
    flush_and_reregister_scripts-Reloads refuses_log files (("old", "text") ∷ []) true files_apart

abbrev default_section : Section
default_section = record {
  identifier_type = some (Value.text "endpoint");
  config = some (
      ("algorithm", Value.text "FixedWindow")
      ∷ ("window_size_ms", Value.int (pos 60000))
      ∷ ("max_requests", Value.int (pos 100))
      ∷ []);
}

abbrev found : Surroundings
found = record {
  answer = some true;
  accepts = λ text. true;
  files = files;
  config_at = λ path.
      if path == "config/default_rate_limits.yml" then document (some default_section) else no_file;
  rules_db = some db;
  client_rows = some db.clients;
  rules_loaded_at = 1;
  clients_loaded_at = 2;
}

abbrev app : App
app = record {
  settings = settings;
  fallback = record { identifier_type = endpoint; config = fixed_window (pos 60000) (pos 100) };
  script_cache =
      ("fixed_window", "fixed_window")
      ∷ ("leaky_bucket", "leaky_bucket")
      ∷ ("sliding_window_counter", "sliding_window_counter")
      ∷ ("sliding_window_log", "sliding_window_log")
      ∷ ("token_bucket", "token_bucket")
      ∷ [];
  rules_cache = load_all 1 cached_rules init;
  clients_cache = Records.load_all 2 (map serialize_client db.clients);
  jobs = ("rules_poll", pos 900) ∷ ("clients_poll", pos 60) ∷ [];
}

start_app : lifespan runtime settings [] [] found ≡ ok app
unfolding lifespan register_all_scripts sort str_ltb load_rate_limiter_settings value Dict.get
    load_rules_into_cache get_algorithm_by_id Dict.insert rule_to_engine_identifier_type frozenset
start_app = refl

lifespan-IsStarted_example : IsStarted runtime settings found app
lifespan-IsStarted_example =
    lifespan-IsStarted runtime settings [] [] found app files_apart start_app

abbrev raw : RawCheck
raw = record {
  endpoint = "/pay";
  identifiers = ("user_id", "ann") ∷ ("ip_address", "10.0.0.1") ∷ [];
}

abbrev payload : CheckRequest
payload = record {
  endpoint = "/pay";
  identifiers = (user_id, "ann") ∷ (ip_address, "10.0.0.1") ∷ [];
}

validate_raw : validate_check raw ≡ ok payload
unfolding validate_check value
validate_raw = refl

validate_check-IsBounded_example : IsBounded raw payload
validate_check-IsBounded_example = validate_check-IsBounded raw payload validate_raw

abbrev machine : Machine
machine = record {
  runtime = runtime;
  collation = as_written;
  parsers = parsers;
  hash_with = λ secret. hasher;
  sha256 = λ s. s;
  jwt = trusting;
  tokens = tokens;
  settings = settings;
  files = files;
}

-- The world behind a step.
abbrev target : {w v : World} → Step machine w v → World
target {v = v} st = v

-- A rule is deleted, and then the rules are polled.
abbrev deleted : World
deleted = target (administer (started_world app db db) (delete_rule "r2"))

abbrev polled : World
polled = target (rules_poll deleted 5)

started_reached : Reach machine (started_world app db db)
unfolding handle_all
started_reached =
    start [] [] found app db [] (db-is_consistent, db-IsGoverned) files_apart refl refl start_app

polled_reached : Reach machine polled
polled_reached = later (later started_reached (administer _ (delete_rule "r2"))) (rules_poll _ 5)

abbrev allowed : RateLimitResult
allowed = record {
  allowed = true;
  limit = pos 10;
  remaining = pos 9;
  retry_after_ms = none;
  reset_at_ms = some (pos 500);
  degraded = false;
}

check_polled : (answer_check machine answers 20 (some "t") "q1" raw polled).0 ≡ ok allowed
unfolding answer_check check_endpoint require_scope Dict.get Records.load_all Dict.insert
    serialize_client split value validate_check check_rate_limit at_index validate_and_normalize
    size every service_of scan get_candidates candidates_at load_all sort_candidates add_rules
    is_usable add_rule sort sort_key_lt subset get_global frozenset rule_to_engine_identifier_type
    get_algorithm_by_id load_rules_into_cache run_scheduled_rules_poll handle run plan_delete_rule
    get_rule_by_id is_consistent is_storable remove_rule choose build_limiter_for_rule
    build_algorithm_config project decide_limit create check_reply script_name resolve_rule
check_polled = refl

answer_check-IsServed_example : IsServed machine answers "q1" raw polled allowed
answer_check-IsServed_example =
    answer_check-IsServed machine polled polled_reached answers 20 (some "t") "q1" raw allowed
      check_polled

-- While the scripts are reloaded a check that was allowed before raises, whatever Redis would answer.
check_reloading :
    (answer_check machine answers 20 (some "t") "q1" raw (target (reload_begins polled))).0
    ≡ raise (uncaught runtime_error)
unfolding answer_check check_endpoint require_scope Dict.get Records.load_all Dict.insert
    serialize_client split value validate_check check_rate_limit at_index validate_and_normalize
    size every service_of scan get_candidates candidates_at load_all sort_candidates add_rules
    is_usable add_rule sort sort_key_lt subset get_global frozenset rule_to_engine_identifier_type
    get_algorithm_by_id load_rules_into_cache run_scheduled_rules_poll handle run plan_delete_rule
    get_rule_by_id is_consistent is_storable remove_rule choose build_limiter_for_rule
    build_algorithm_config project decide_limit create check_reply script_name resolve_rule
check_reloading = refl
