-- ===== src/RulesLoader.antt =====
-- services/rules_loader.py, and the rules poll of core/scheduler.py: from the rows of the rules to the cache.
pub mod Polled
use distributed_rate_limiter.Errors.{PyError}
use distributed_rate_limiter.Identifier.{IdentifierType}
use distributed_rate_limiter.Identifier.RuleTypes.{rule_to_engine_identifier_type}
use distributed_rate_limiter.Identifier.Sets.{Types, frozenset}
use distributed_rate_limiter.RulesCache.{Rule, Cache, load_all}
use distributed_rate_limiter.Store.{Db, AlgorithmRow, RuleRow, get_algorithm_by_id}
use distributed_rate_limiter.Prelude.{
  ℕ, String, Option, none, some, List, [], ◌∷◌, ◌==◌, string_eq, Result, ok, raise, ◌>>=◌,
}

abbrev pub cons_if :
    Option IdentifierType → Option (List IdentifierType) → Option (List IdentifierType)
cons_if none rest = none
cons_if (some t) none = none
cons_if (some t) (some ts) = some (t ∷ ts)

-- The loop over the identifier types: `none` where one has no runtime mapping.
unfoldable pub engine_types_of : List String → Option (List IdentifierType)
engine_types_of [] = some []
engine_types_of (s ∷ ss) = cons_if (rule_to_engine_identifier_type s) (engine_types_of ss)

abbrev pub frozen : Option (List IdentifierType) → Option Types
frozen none = none
frozen (some ts) = some (frozenset ts)

-- The dict of a rule, with its eager-loaded algorithm; without one, `rule.algorithm` is None.
unfoldable pub serialized_with : RuleRow → Option AlgorithmRow → Result PyError Rule
unfolding engine_types_of
serialized_with r none = raise PyError.attribute_error
serialized_with r (some algorithm) = ok (record {
  id = r.id;
  client_pk = r.client_id;
  endpoint = r.endpoint;
  identifier_types = r.identifier_types;
  identifier_signature = r.identifier_signature;
  is_global = r.identifier_signature == "global";
  engine_identifier_types = frozen (engine_types_of r.identifier_types);
  algorithm_id = r.algorithm_id;
  algorithm_name = algorithm.name;
  params = r.params;
  status = r.status;
  priority = r.priority;
  version = r.version;
})

-- `_serialize_rule`
unfoldable pub serialize_rule : Db → RuleRow → Result PyError Rule
unfolding serialized_with
serialize_rule db r = serialized_with r (get_algorithm_by_id r.algorithm_id db)

unfoldable pub serialize_rules : Db → List RuleRow → Result PyError (List Rule)
unfolding serialize_rule
serialize_rules db [] = ok []
serialize_rules db (r ∷ rows) = do
  rule ← serialize_rule db r
  rest ← serialize_rules db rows
  ok (rule ∷ rest)

-- `fetch_all_rules_from_db`
unfoldable pub fetch_all_rules_from_db : Db → Result PyError (List Rule)
unfolding serialize_rules
fetch_all_rules_from_db db = serialize_rules db db.rules

-- `load_rules_into_cache`: it raises, or replaces all that the cache holds.
unfoldable pub load_rules_into_cache : ℕ → Db → Cache → Result PyError Cache
unfolding fetch_all_rules_from_db
load_rules_into_cache now db cache = do
  rules ← fetch_all_rules_from_db db
  ok (load_all now rules cache)

abbrev pub or_old {ℓ κ} : {E : Type ℓ} {A : Type κ} → Result E A → A → A
or_old (raise e) a = a
or_old (ok b) a = b

-- `_run_scheduled_rules_poll`: the cache stays where the load raises. `none` is a session that fails.
unfoldable pub run_scheduled_rules_poll : ℕ → Option Db → Cache → Cache
unfolding load_rules_into_cache
run_scheduled_rules_poll now none cache = cache
run_scheduled_rules_poll now (some db) cache = or_old (load_rules_into_cache now db cache) cache
