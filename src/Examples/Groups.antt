-- ===== src/Examples/Groups.antt =====
-- Tests and examples of the services for rules and groups, and of the rules loader.
use distributed_rate_limiter.Admin.{
  Request, update_rule, delete_rule, update_group, delete_group, detach_rule, move_to_group,
  handle_all,
}
use distributed_rate_limiter.Admin.Keeps.{IsSound, handle_all-IsSound}
use distributed_rate_limiter.Errors.{Error, scope_conflict}
use distributed_rate_limiter.Examples.{runtime, bucket_params}
use distributed_rate_limiter.GroupService.{MemberInput, GroupUpdate, MoveToGroup}
use distributed_rate_limiter.GroupService.AllOrNothing.{IsAllOrNothing, add_members-IsAllOrNothing}
use distributed_rate_limiter.GroupService.Base.{plan_update_group, write_base, assign_group}
use distributed_rate_limiter.GroupService.Updated.{GroupUpdated, update_group-GroupUpdated}
use distributed_rate_limiter.GroupService.Members.{add_members}
use distributed_rate_limiter.GroupService.Move.{assign_moved}
use distributed_rate_limiter.Params.{Value, Params, build_algorithm_config}
use distributed_rate_limiter.Params.Overrides.{
  compute_effective_params, validate_overrides_or_raise, check_unknown, unknown_keys, or_invalid,
}
use distributed_rate_limiter.Prelude.Dict
use distributed_rate_limiter.Prelude.Int.{pos}
use distributed_rate_limiter.Prelude.Sort.{sort}
use distributed_rate_limiter.RuleService.{RuleUpdate, algorithm_of, assign, plan_update_rule}
use distributed_rate_limiter.RuleService.Updates.{Updated, update_rule-Updated}
use distributed_rate_limiter.Store.{
  Db, ClientRow, AlgorithmRow, GroupRow, RuleRow, Collation, Plan, is_consistent, set_rule,
  get_rule_by_id, get_group_by_id, get_by_name_ci, get_algorithm_by_id, list_by_group,
}
use distributed_rate_limiter.Store.Governed.{IsGoverned}
use distributed_rate_limiter.Prelude.{
  ℕ, String, ◌≡◌, refl, true, none, some, List, [], ◌∷◌, nat_eq, string_eq, ok,
}

abbrev pub acme : ClientRow
acme = record {
  id = "c1";
  client_id = "acme";
  name = "Acme";
  description = none;
  status = "active";
  scopes = "check" ∷ [];
}

abbrev pub token_bucket_row : AlgorithmRow
token_bucket_row = record { id = "a1"; name = "TokenBucket" }

abbrev payments : GroupRow
payments = record {
  id = "g1";
  client_id = "c1";
  name = "payments";
  description = none;
  algorithm_id = "a1";
  identifier_types = "user_id" ∷ [];
  identifier_signature = "user_id";
  params = bucket_params;
  priority = pos 100;
  created_by = "ops";
  updated_by = none;
}

abbrev own : Params
own = ("capacity", Value.int (pos 5)) ∷ []

abbrev pub merged : Params
merged = ("capacity", Value.int (pos 5)) ∷ ("refill_rate", Value.int (pos 2)) ∷ []

abbrev pub paying : RuleRow
paying = record {
  id = "r1";
  client_id = "c1";
  endpoint = "/pay";
  identifier_types = "user_id" ∷ [];
  identifier_signature = "user_id";
  algorithm_id = "a1";
  params = merged;
  status = "active";
  priority = pos 100;
  version = 1;
  created_by = "ops";
  updated_by = none;
  group_id = some "g1";
  overrides = some own;
}

abbrev pub reading : RuleRow
reading = record paying {
  id = "r2";
  endpoint = "/read";
  params = bucket_params;
  group_id = none;
  overrides = none;
}

abbrev pub db : Db
db = record {
  clients = acme ∷ [];
  secrets = [];
  algorithms = token_bucket_row ∷ [];
  groups = payments ∷ [];
  rules = paying ∷ reading ∷ [];
}

abbrev pub as_written : Collation
as_written = record {
  sql_lower = λ s. s;
  py_lower = λ s. s;
  takes_text = λ column s. true;
  takes_json = λ s. true;
}

pub db-is_consistent : is_consistent as_written db ≡ true
unfolding is_consistent
db-is_consistent = refl

pub db-IsGoverned : IsGoverned db
unfolding compute_effective_params Dict.insert
db-IsGoverned = (
  record {
    client = refl;
    algorithm = refl;
    types = refl;
    signature = refl;
    priority = refl;
    own = own;
    has_own = refl;
    merged = refl;
  },
  (refl, tt),
)

abbrev pausing : RuleUpdate
pausing = record {
  algorithm_id = none;
  params = none;
  priority = none;
  status = some "inactive";
  overrides = none;
  updated_by = "ops";
  expected_version = some 1;
}

abbrev raising : GroupUpdate
raising = record {
  name = some "all payments";
  description = none;
  params = none;
  priority = some (pos 200);
  updated_by = "ops";
}

abbrev requests : List Request
requests =
    update_rule "r1" pausing
    ∷ update_group "g1" raising
    ∷ move_to_group "r2" (record { group_id = "g1"; overrides = none; updated_by = "ops" })
    ∷ detach_rule "r1" (record { algorithm = "TokenBucket"; params = bucket_params })
    ∷ delete_group "g1" "detach"
    ∷ delete_rule "r2"
    ∷ []

handle_all-IsSound_example : IsSound as_written (handle_all runtime as_written requests db)
handle_all-IsSound_example =
    handle_all-IsSound runtime as_written requests db (db-is_consistent, db-IsGoverned)

abbrev pausing_plan : Plan RuleRow
pausing_plan = record {
  writes = set_rule "r1" (assign paying pausing none);
  on_conflict = λ _. scope_conflict "/pay" "user_id";
  result = assign paying pausing none paying;
}

plan_pausing : plan_update_rule runtime "r1" pausing db ≡ ok pausing_plan
unfolding plan_update_rule get_rule_by_id
plan_pausing = refl

update_rule-Updated_example : Updated "r1" pausing db pausing_plan
update_rule-Updated_example = update_rule-Updated runtime "r1" pausing db pausing_plan plan_pausing

abbrev raising_plan : Plan GroupRow
raising_plan = record {
  writes = write_base "g1" raising (("r1", (merged, 2)) ∷ []);
  on_conflict = λ _. Error.integrity_error;
  result = assign_group raising payments;
}

plan_raising : plan_update_group runtime as_written "g1" raising db ≡ ok raising_plan
unfolding plan_update_group validate_overrides_or_raise compute_effective_params
    build_algorithm_config Dict.get Dict.insert get_group_by_id get_by_name_ci algorithm_of
    get_algorithm_by_id list_by_group check_unknown unknown_keys sort or_invalid
plan_raising = refl

update_group-GroupUpdated_example : GroupUpdated "g1" raising db raising_plan
update_group-GroupUpdated_example =
    update_group-GroupUpdated runtime as_written "g1" raising db raising_plan refl plan_raising

abbrev new_members : List MemberInput
new_members =
    record { endpoint = "/refund"; overrides = own }
    ∷ record { endpoint = "/void"; overrides = [] }
    ∷ []

abbrev numbered : ℕ → String
numbered n = "r9"

add_members-IsAllOrNothing_example :
    IsAllOrNothing new_members db (add_members runtime as_written numbered "g1" new_members db db)
add_members-IsAllOrNothing_example =
    add_members-IsAllOrNothing runtime as_written numbered "g1" new_members db db

abbrev moving : MoveToGroup
moving = record { group_id = "g1"; overrides = none; updated_by = "ops" }

abbrev moving_plan : Plan RuleRow
moving_plan = record {
  writes = set_rule "r2" (assign_moved reading payments [] bucket_params "ops");
  on_conflict = λ _. scope_conflict "/read" "user_id";
  result = assign_moved reading payments [] bucket_params "ops" reading;
}
