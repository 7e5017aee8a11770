-- ===== src/RulesCache.antt =====
-- services/rules_cache.py: the in-memory cache of rules, and the indexes by client and endpoint.
-- The lock is not modelled: a write swaps all structures at once, so a write is one step.
pub mod Index
pub mod Resolution
pub mod Updates
use distributed_rate_limiter.Identifier.Sets.{Types}
use distributed_rate_limiter.Params.{Params}
use distributed_rate_limiter.Prelude.Dict
use distributed_rate_limiter.Prelude.Dict.{Dict, values}
use distributed_rate_limiter.Prelude.Int.{ℤ, ltb_ℤ}
use distributed_rate_limiter.Prelude.Sort.{sort}
use distributed_rate_limiter.Prelude.{
  ℕ, ◌+◌, String, Bool, true, false, not, ◌&&◌, Option, none, some, List, [], ◌∷◌, ◌++◌,
  if◌then◌else◌, ltb, ◌==◌, nat_eq, string_eq, pair_eq, length, keep, str_ltb,
}

-- The plain dict of `_serialize_rule` (services/rules_loader.py).
pub record Rule : Type 0 where
  pub id : String
  pub client_pk : String
  pub endpoint : String
  pub identifier_types : List String
  pub identifier_signature : String
  pub is_global : Bool
  -- `none` where an identifier type has no runtime mapping.
  pub engine_identifier_types : Option Types
  pub algorithm_id : String
  pub algorithm_name : String
  pub params : Params
  pub status : String
  pub priority : ℤ
  pub version : ℕ

-- (client_pk, endpoint)
abbrev pub Scope : Type 0
Scope = String × String

abbrev pub scope : Rule → Scope
scope r = (r.client_pk, r.endpoint)

pub record Cache : Type 0 where
  pub rules_by_id : Dict String Rule
  pub candidates_by_scope : Dict Scope (List Rule)
  pub global_by_scope : Dict Scope Rule
  pub ready : Bool
  pub last_loaded_at : Option ℕ
  pub generation : ℕ

unfoldable pub init : Cache
init = record {
  rules_by_id = [];
  candidates_by_scope = [];
  global_by_scope = [];
  ready = false;
  last_loaded_at = none;
  generation = 0;
}

-- The types of a rule that has a runtime mapping. Only such rules are sorted and matched.
abbrev pub engine_types : Rule → Types
engine_types r = elim r.engine_identifier_types [ none ↦ [] | some ts ↦ ts ]

-- `a` sorts before `b` by `(-len(engine_identifier_types), -priority, identifier_signature)`.
unfoldable pub sort_key_lt : Rule → Rule → Bool
sort_key_lt a b =
    if ltb (length (engine_types b)) (length (engine_types a))
    then true
    else if ltb (length (engine_types a)) (length (engine_types b))
    then false
    else if ltb_ℤ b.priority a.priority
    then true
    else if ltb_ℤ a.priority b.priority
    then false
    else str_ltb a.identifier_signature b.identifier_signature

unfoldable pub is_usable : Rule → Bool
is_usable r =
    (r.status == "active") && elim r.engine_identifier_types [ none ↦ false | some _ ↦ true ]

-- `candidates_by_scope.get(scope, [])`
unfoldable pub candidates_at : Scope → Dict Scope (List Rule) → List Rule
candidates_at s d = elim (Dict.get s d) [ none ↦ [] | some rs ↦ rs ]

pub record Indexes : Type 0 where
  pub candidates : Dict Scope (List Rule)
  pub globals : Dict Scope Rule

-- One round of the loop over the usable rules.
unfoldable pub add_rule : Rule → Indexes → Indexes
add_rule r ix =
    if r.is_global then record ix { globals = Dict.insert (scope r) r ix.globals } else record ix {
      candidates =
          Dict.insert (scope r) (candidates_at (scope r) ix.candidates ++ r ∷ []) ix.candidates;
    }

unfoldable pub add_rules : List Rule → Indexes → Indexes
add_rules [] ix = ix
add_rules (r ∷ rs) ix = add_rules rs (add_rule r ix)

-- `for scope, candidates in …: candidates.sort(key=…)`
unfoldable pub sort_candidates : Dict Scope (List Rule) → Dict Scope (List Rule)
sort_candidates [] = []
sort_candidates ((s, rs) ∷ d) = (s, sort sort_key_lt rs) ∷ sort_candidates d

-- `{rule["id"]: rule for rule in rules}`, on top of what the dict holds.
unfoldable pub add_by_id : List Rule → Dict String Rule → Dict String Rule
add_by_id [] d = d
add_by_id (r ∷ rs) d = add_by_id rs (Dict.insert r.id r d)

unfoldable pub load_all : ℕ → List Rule → Cache → Cache
load_all now rules c =
    let ix = add_rules (keep is_usable rules) (record { candidates = []; globals = [] }) in
    record {
      rules_by_id = add_by_id rules [];
      candidates_by_scope = sort_candidates ix.candidates;
      global_by_scope = ix.globals;
      ready = true;
      last_loaded_at = some now;
      generation = c.generation + 1;
    }

unfoldable pub upsert : ℕ → Rule → Cache → Cache
upsert now r c = load_all now (values (Dict.insert r.id r c.rules_by_id)) c

unfoldable pub remove : ℕ → String → Cache → Cache
remove now id c = load_all now (values (Dict.remove id c.rules_by_id)) c

unfoldable pub get : String → Cache → Option Rule
get id c = Dict.get id c.rules_by_id

unfoldable pub get_candidates : String → String → Cache → List Rule
get_candidates client_pk endpoint c = candidates_at (client_pk, endpoint) c.candidates_by_scope

unfoldable pub get_global : String → String → Cache → Option Rule
get_global client_pk endpoint c = Dict.get (client_pk, endpoint) c.global_by_scope

-- A pair that `_log_ambiguous_ties` warns of: neighbours of equal specificity and priority.
unfoldable pub is_tie : Rule → Rule → Bool
is_tie a b =
    (length (engine_types a) == length (engine_types b))
    && not (ltb_ℤ a.priority b.priority)
    && not (ltb_ℤ b.priority a.priority)

-- The warnings for one scope, as the pairs of rule ids.
unfoldable pub ambiguous_ties : List Rule → List (String × String)
ambiguous_ties [] = []
ambiguous_ties (a ∷ []) = []
ambiguous_ties (a ∷ b ∷ rs) =
    let rest = ambiguous_ties (b ∷ rs) in if is_tie a b then (a.id, b.id) ∷ rest else rest
