-- ===== src/RuleService.antt =====
-- services/rule_service.py: the methods on rules. Each has the tables that its queries see, and `run`
-- commits its plan on the tables as they then stand; run on one Db, it has no concurrent writer.
pub mod Plans
pub mod Keeps
pub mod Updates
pub mod Accepted
use distributed_rate_limiter.Errors.{
  Error, PyError, algorithm_not_found, client_not_found, rule_not_found, version_conflict,
  rule_managed_by_group, overrides_require_group, scope_conflict, invalid_identifier_types,
  uncaught,
}
use distributed_rate_limiter.Identifier.RuleTypes.{
  RuleIdentifierType, member, normalize_identifier_types,
}
use distributed_rate_limiter.Params.{Params, Runtime, build_algorithm_config}
use distributed_rate_limiter.Params.Overrides.{or_invalid, validate_overrides_or_raise}
use distributed_rate_limiter.Store.{
  Db, ClientRow, AlgorithmRow, GroupRow, RuleRow, Plan, is_some, get_client_by_client_id,
  get_algorithm_by_id, get_rule_by_id, get_group_by_id, find_active_conflict, set_rule, add_rule,
  remove_rule,
}
use distributed_rate_limiter.Prelude.Int.{ℤ}
use distributed_rate_limiter.Prelude.{
  ℕ, ◌+◌, String, not, ◌&&◌, ◌||◌, Option, none, some, List, map, if◌then◌else◌, ◌==◌, nat_eq,
  string_eq, Result, ok, raise, ◌>>=◌, ◌>>◌, raise_if,
}

-- dto/rule_dto.py
pub record RuleCreate : Type 0 where
  pub client_id : String
  pub endpoint : String
  pub identifier_types : List RuleIdentifierType
  pub algorithm_id : String
  pub params : Params
  pub priority : ℤ
  pub created_by : String

pub record RuleUpdate : Type 0 where
  pub algorithm_id : Option String
  pub params : Option Params
  pub priority : Option ℤ
  pub status : Option String
  pub overrides : Option Params
  pub updated_by : String
  pub expected_version : Option ℕ

abbrev pub or_else {ℓ} : {A : Type ℓ} → Option A → A → A
or_else none a = a
or_else (some b) a = b

-- `if x is None: raise e`
abbrev pub or_raise {ℓ} : {A : Type ℓ} → Option A → Error → Result Error A
or_raise none e = raise e
or_raise (some a) e = ok a

-- `normalized_identifier_types` of the requests: an exception of the helper passes through.
unfoldable pub normalized_identifier_types :
    List RuleIdentifierType → Result Error (List String × String)
normalized_identifier_types types = elim (normalize_identifier_types (map member types)) [
  | ok out ↦ ok out
  | raise e ↦ raise (invalid_identifier_types e)
]

unfoldable pub resolve_client_or_raise : String → Db → Result Error ClientRow
resolve_client_or_raise slug db = or_raise (get_client_by_client_id slug db) (client_not_found slug)

-- The group's algorithm, an attribute that the query loads with it.
unfoldable pub algorithm_of : GroupRow → Db → Result Error AlgorithmRow
algorithm_of g db =
    or_raise (get_algorithm_by_id g.algorithm_id db) (uncaught PyError.attribute_error)

unfoldable pub get_rule : String → Db → Result Error RuleRow
get_rule id db = or_raise (get_rule_by_id id db) (rule_not_found id)

-- The assignments at the end of `update_rule`.
unfoldable pub assign : RuleRow → RuleUpdate → Option Params → RuleRow → RuleRow
assign seen request new_params r =
    let grouped = is_some seen.group_id in
    record r {
      algorithm_id =
          if grouped then r.algorithm_id else or_else request.algorithm_id r.algorithm_id;
      priority = if grouped then r.priority else or_else request.priority r.priority;
      params = or_else new_params r.params;
      overrides = if grouped && is_some request.overrides then request.overrides else r.overrides;
      status = or_else request.status seen.status;
      updated_by = some request.updated_by;
      version = seen.version + 1;
    }

-- The guards of `update_rule`, before any parameter is looked at.
unfoldable pub check_update : String → RuleRow → RuleUpdate → Result Error (Unit {0})
check_update id rule request = do
  raise_if
      (is_some request.expected_version
        && not (or_else request.expected_version rule.version == rule.version))
      (version_conflict id (or_else request.expected_version rule.version) rule.version)
  raise_if
      (is_some rule.group_id
        && (is_some request.algorithm_id || (is_some request.params || is_some request.priority)))
      (rule_managed_by_group id)
  raise_if (not (is_some rule.group_id) && is_some request.overrides) (overrides_require_group id)

unfoldable pub check_scope : RuleRow → String → Db → Result Error (Unit {0})
check_scope rule status db =
    raise_if
      (status == "active"
        && is_some (
            find_active_conflict rule.client_id rule.endpoint rule.identifier_signature
              (some rule.id) db))
      (scope_conflict rule.endpoint rule.identifier_signature)

module _ (rt : Runtime) where
  unfoldable pub validate_params_or_raise : String → Params → Db → Result Error (Unit {0})
  validate_params_or_raise algorithm_id params db = do
    algorithm ← or_raise (get_algorithm_by_id algorithm_id db) (algorithm_not_found algorithm_id)
    config ← or_invalid algorithm.name (build_algorithm_config rt algorithm.name params)
    ok tt

  -- `create_rule`, up to its commit.
  unfoldable pub plan_create_rule : String → RuleCreate → Db → Result Error (Plan RuleRow)
  unfolding validate_params_or_raise resolve_client_or_raise
  plan_create_rule new_id request db = do
    client ← resolve_client_or_raise request.client_id db
    validate_params_or_raise request.algorithm_id request.params db
    (types, signature) ← normalized_identifier_types request.identifier_types
    let rule : RuleRow = record {
      id = new_id;
      client_id = client.id;
      endpoint = request.endpoint;
      identifier_types = types;
      identifier_signature = signature;
      algorithm_id = request.algorithm_id;
      params = request.params;
      status = "active";
      priority = request.priority;
      version = 1;
      created_by = request.created_by;
      updated_by = none;
      group_id = none;
      overrides = none;
    }
    ok (record {
      writes = add_rule rule;
      on_conflict = λ _. scope_conflict request.endpoint signature;
      result = rule;
    })

  -- The new parameters of a grouped rule: `none` where they stay.
  unfoldable pub grouped_params : String → Option Params → Db → Result Error (Option Params)
  grouped_params gid none db = ok none
  grouped_params gid (some overrides) db = do
    group ← or_raise (get_group_by_id gid db) (uncaught PyError.attribute_error)
    algorithm ← algorithm_of group db
    merged ← validate_overrides_or_raise rt algorithm.name group.params overrides
    ok (some merged)

  -- The new parameters of a standalone rule.
  unfoldable pub standalone_params : RuleRow → RuleUpdate → Db → Result Error (Option Params)
  unfolding validate_params_or_raise
  standalone_params rule request db =
      if is_some request.algorithm_id || is_some request.params
      then (do
        validate_params_or_raise (or_else request.algorithm_id rule.algorithm_id)
            (or_else request.params rule.params) db
        ok (some (or_else request.params rule.params)))
      else ok none

  unfoldable pub new_params_of : RuleRow → RuleUpdate → Db → Result Error (Option Params)
  unfolding grouped_params standalone_params
  new_params_of rule request db = elim rule.group_id [
    | none ↦ standalone_params rule request db
    | some gid ↦ grouped_params gid request.overrides db
  ]

  unfoldable pub plan_update_rule : String → RuleUpdate → Db → Result Error (Plan RuleRow)
  unfolding get_rule check_update new_params_of check_scope
  plan_update_rule id request db = do
    rule ← get_rule id db
    check_update id rule request
    new_params ← new_params_of rule request db
    check_scope rule (or_else request.status rule.status) db
    ok (record {
      writes = set_rule id (assign rule request new_params);
      on_conflict = λ _. scope_conflict rule.endpoint rule.identifier_signature;
      result = assign rule request new_params rule;
    })

unfoldable pub plan_delete_rule : String → Db → Result Error (Plan (Unit {0}))
unfolding get_rule
plan_delete_rule id db = do
  rule ← get_rule id db
  ok (record { writes = remove_rule id; on_conflict = λ _. Error.integrity_error; result = tt })
