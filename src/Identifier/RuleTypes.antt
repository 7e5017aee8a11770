-- ===== src/Identifier/RuleTypes.antt =====
-- model/rule_identifier_type.py: the identifier types of a rule, their bridge to those of a request,
-- and the canonical form in which a rule stores them.
use distributed_rate_limiter.Identifier.{IdentifierType}
use distributed_rate_limiter.Prelude.{
  ℕ, String, ◌&&◌, Option, none, some, List, [], ◌∷◌, ◌++◌, map, ◌==◌, string_eq, ltb,
  if◌then◌else◌, length, contains, Result, ok, raise, ◌>>=◌, ◌>>◌, raise_if, str_ltb, join,
}
use distributed_rate_limiter.Prelude.Sort.{sort}

pub data RuleIdentifierType : Type 0 where
  global user_id api_key client_id ip tenant_id session_id device_id : RuleIdentifierType
  organization_id account_id region user_agent request_source : RuleIdentifierType
  subscription_tier webhook_id ip_range endpoint : RuleIdentifierType

unfoldable pub value : RuleIdentifierType → String
value global = "global"
value user_id = "user_id"
value api_key = "api_key"
value client_id = "client_id"
value ip = "ip"
value tenant_id = "tenant_id"
value session_id = "session_id"
value device_id = "device_id"
value organization_id = "organization_id"
value account_id = "account_id"
value region = "region"
value user_agent = "user_agent"
value request_source = "request_source"
value subscription_tier = "subscription_tier"
value webhook_id = "webhook_id"
value ip_range = "ip_range"
value endpoint = "endpoint"

abbrev pub members : List RuleIdentifierType
members =
    global ∷ user_id ∷ api_key ∷ client_id ∷ ip ∷ tenant_id ∷ session_id ∷ device_id
    ∷ organization_id ∷ account_id ∷ region ∷ user_agent ∷ request_source ∷ subscription_tier
    ∷ webhook_id ∷ ip_range ∷ endpoint ∷ []

abbrev pub max_identifiers_per_rule : ℕ
max_identifiers_per_rule = 3

-- `RULE_TO_ENGINE_IDENTIFIER_TYPE` on the members, then its `.get` on a stored text.
unfoldable pub to_engine : RuleIdentifierType → IdentifierType
to_engine global = IdentifierType.endpoint
to_engine user_id = IdentifierType.user_id
to_engine api_key = IdentifierType.api_key
to_engine client_id = IdentifierType.client_id
to_engine ip = IdentifierType.ip_address
to_engine tenant_id = IdentifierType.tenant_id
to_engine session_id = IdentifierType.session_id
to_engine device_id = IdentifierType.device_id
to_engine organization_id = IdentifierType.organization_id
to_engine account_id = IdentifierType.account_id
to_engine region = IdentifierType.region
to_engine user_agent = IdentifierType.user_agent
to_engine request_source = IdentifierType.request_source
to_engine subscription_tier = IdentifierType.subscription_tier
to_engine webhook_id = IdentifierType.webhook_id
to_engine ip_range = IdentifierType.ip_range
to_engine endpoint = IdentifierType.endpoint

find_member : List RuleIdentifierType → String → Option RuleIdentifierType
find_member [] s = none
find_member (t ∷ ts) s = let rest = find_member ts s in if value t == s then some t else rest

unfoldable pub rule_to_engine_identifier_type : String → Option IdentifierType
unfolding find_member value to_engine
rule_to_engine_identifier_type s = elim (find_member members s) [
  | none ↦ none
  | some t ↦ some (to_engine t)
]

pub data InvalidIdentifierTypesError : Type 0 where
  unknown_identifier_type : String → InvalidIdentifierTypesError
  no_identifier_type : InvalidIdentifierTypesError
  too_many_identifier_types : ℕ → InvalidIdentifierTypesError
  global_combined : InvalidIdentifierTypesError

-- An element of `raw_types`: a member of the enum, or a value of another type by its `str`.
pub data RawType : Type 0 where
  member : RuleIdentifierType → RawType
  text : String → RawType

unfoldable pub raw_value : RawType → String
raw_value (member t) = value t
raw_value (text s) = s

-- The loop: `values` in the order of their first occurrence; `seen` has the same elements.
unfoldable pub dedupe :
    List RawType → List String → Result InvalidIdentifierTypesError (List String)
dedupe [] values = ok values
dedupe (raw ∷ raws) values =
    let s = raw_value raw in
    let rest = dedupe raws (if contains values s then values else values ++ s ∷ []) in
    if contains (map value members) s then rest else raise (unknown_identifier_type s)

-- The checks behind the loop, and the canonical form.
unfoldable pub canonical : List String → Result InvalidIdentifierTypesError (List String × String)
canonical [] = raise no_identifier_type
canonical (v ∷ vs) = do
  let values = v ∷ vs
  raise_if (ltb max_identifiers_per_rule (length values))
      (too_many_identifier_types (length values))
  raise_if (contains values (value global) && ltb 1 (length values)) global_combined
  let sorted_types = sort str_ltb values
  ok (sorted_types, join "+" sorted_types)

unfoldable pub normalize_identifier_types :
    List RawType → Result InvalidIdentifierTypesError (List String × String)
unfolding dedupe canonical raw_value value
normalize_identifier_types raws = do values ← dedupe raws []; canonical values
