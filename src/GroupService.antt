-- ===== src/GroupService.antt =====
-- services/rule_group_service.py: groups of rules. The requests (dto/rule_group_dto.py), and what
-- `create_group` and `add_members` share. The other methods are in the child modules.
pub mod Create
pub mod Members
pub mod Base
pub mod Move
pub mod KeepsMembers
pub mod Entries
pub mod Updated
pub mod KeepsBase
pub mod KeepsMove
pub mod KeepsDelete
pub mod AllOrNothing
pub mod Accepted
use distributed_rate_limiter.Errors.{Error, Conflict, duplicate_member_endpoint}
use distributed_rate_limiter.Identifier.RuleTypes.{RuleIdentifierType}
use distributed_rate_limiter.Params.{Params, Runtime}
use distributed_rate_limiter.Params.Overrides.{validate_overrides_or_raise}
use distributed_rate_limiter.Store.{Db, GroupRow, RuleRow, find_active_conflict}
use distributed_rate_limiter.Prelude.Int.{ℤ}
use distributed_rate_limiter.Prelude.{
  ℕ, ◌+◌, String, ◌⧺◌, Option, none, some, List, [], ◌∷◌, ◌++◌, if◌then◌else◌, nat_eq, string_eq,
  contains, Result, ok, raise, ◌>>=◌, ◌>>◌,
}

pub record MemberInput : Type 0 where
  pub endpoint : String
  pub overrides : Params

pub record GroupCreate : Type 0 where
  pub client_id : String
  pub name : String
  pub description : Option String
  pub algorithm_id : String
  pub identifier_types : List RuleIdentifierType
  pub params : Params
  pub priority : ℤ
  pub created_by : String
  pub members : List MemberInput

pub record GroupUpdate : Type 0 where
  pub name : Option String
  pub description : Option String
  pub params : Option Params
  pub priority : Option ℤ
  pub updated_by : String

pub record MoveToGroup : Type 0 where
  pub group_id : String
  pub overrides : Option Params
  pub updated_by : String

pub record DetachRule : Type 0 where
  pub algorithm : String
  pub params : Params

-- The loop over `endpoints_seen`.
unfoldable pub check_endpoints : List MemberInput → List String → Result Error (Unit {0})
check_endpoints [] seen = ok tt
check_endpoints (m ∷ members) seen =
    let rest = check_endpoints members (m.endpoint ∷ seen) in
    if contains seen m.endpoint then raise (duplicate_member_endpoint m.endpoint) else rest

-- (endpoint, overrides, merged)
pub record Prepared : Type 0 where
  pub endpoint : String
  pub overrides : Params
  pub merged : Params

unfoldable pub conflict_entry : String → RuleRow → Conflict
conflict_entry endpoint r = record {
  endpoint = endpoint;
  reason = "endpoint already has an active rule for " ⧺ r.identifier_signature;
  existing_rule_id = r.id;
  existing_group_id = r.group_id;
}

-- One member of the loop: its conflict or its preparation goes in front of those of the rest.
unfoldable pub sort_out :
    MemberInput
    → Params
    → Option RuleRow
    → List Conflict × List Prepared
    → List Conflict × List Prepared
unfolding conflict_entry
sort_out m merged none (conflicts, prepared) = (
  conflicts,
  record { endpoint = m.endpoint; overrides = m.overrides; merged = merged } ∷ prepared,
)
sort_out m merged (some r) (conflicts, prepared) =
    (conflict_entry m.endpoint r ∷ conflicts, prepared)

module _ (rt : Runtime) where
  -- The loop over the members: an override that is refused raises at once.
  unfoldable pub prepare :
      String
      → Params
      → String
      → String
      → List MemberInput
      → Db
      → Result Error (List Conflict × List Prepared)
  unfolding sort_out
  prepare algorithm params client_pk signature [] db = ok ([], [])
  prepare algorithm params client_pk signature (m ∷ members) db = do
    merged ← validate_overrides_or_raise rt algorithm params m.overrides
    let conflict = find_active_conflict client_pk m.endpoint signature none db
    rest ← prepare algorithm params client_pk signature members db
    ok (sort_out m merged conflict rest)

-- The rule of a new member: scope, algorithm, types and priority are the group's.
unfoldable pub member_rule : GroupRow → String → Prepared → RuleRow
member_rule g id p = record {
  id = id;
  client_id = g.client_id;
  endpoint = p.endpoint;
  identifier_types = g.identifier_types;
  identifier_signature = g.identifier_signature;
  algorithm_id = g.algorithm_id;
  params = p.merged;
  status = "active";
  priority = g.priority;
  version = 1;
  created_by = g.created_by;
  updated_by = none;
  group_id = some g.id;
  overrides = some p.overrides;
}

-- The database gives the ids: `new_ids n` to the n-th new rule.
unfoldable pub member_rules : GroupRow → (ℕ → String) → ℕ → List Prepared → List RuleRow
unfolding member_rule
member_rules g new_ids n [] = []
member_rules g new_ids n (p ∷ prepared) =
    member_rule g (new_ids n) p ∷ member_rules g new_ids (n + 1) prepared

unfoldable pub add_rules : List RuleRow → Db → Db
add_rules rows db = record db { rules = db.rules ++ rows }
