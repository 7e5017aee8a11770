-- ===== src/Store/Governed.antt =====
-- The invariant of groups: what a member has in common with its group.
use distributed_rate_limiter.Params.{Params}
use distributed_rate_limiter.Params.Overrides.{compute_effective_params}
use distributed_rate_limiter.Store.{Db, RuleRow, GroupRow}
use distributed_rate_limiter.Prelude.{
  String, ◌≡◌, Option, none, some, List, ◌==◌, string_eq, find, All,
}

-- The parameters of a member are the group's with its own overrides, and its client, algorithm,
-- identifier types and priority are the group's.
pub record IsMember (g : GroupRow) (r : RuleRow) : Type 0 where
  pub client : r.client_id ≡ g.client_id
  pub algorithm : r.algorithm_id ≡ g.algorithm_id
  pub types : r.identifier_types ≡ g.identifier_types
  pub signature : r.identifier_signature ≡ g.identifier_signature
  pub priority : r.priority ≡ g.priority
  pub own : Params
  pub has_own : r.overrides ≡ some own
  pub merged : r.params ≡ compute_effective_params g.params own

abbrev pub OfGroup : Option GroupRow → RuleRow → Type 0
OfGroup none r = ⊥
OfGroup (some g) r = IsMember g r

abbrev pub GovernedBy : List GroupRow → Option String → RuleRow → Type 0
GovernedBy groups none r = r.overrides ≡ none
GovernedBy groups (some gid) r = OfGroup (find (λ g. g.id == gid) groups) r

-- A rule is standalone, with no overrides, or a member of a group that exists.
abbrev pub Governed : List GroupRow → RuleRow → Type 0
Governed groups r = GovernedBy groups r.group_id r

abbrev pub IsGoverned : Db → Type 0
IsGoverned db = All (Governed db.groups) db.rules
