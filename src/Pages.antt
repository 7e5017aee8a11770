-- ===== src/Pages.antt =====
-- The reads of the administration: `GET /rules`, `/groups` and `/clients` with their pages and filters
-- (api/v1/endpoints and repositories), a group with its members, and the algorithms. Rows carry no times in
-- this model, so the order of a query, newest first, is a parameter, one for each time that a query is run:
-- rows of one time may stand in another order the next time.
pub mod Complete
pub mod Newest
use distributed_rate_limiter.Errors.{
  Error, PyError, uncaught, validation_error, rule_group_not_found, algorithm_not_found,
}
use distributed_rate_limiter.Identifier.RuleTypes
use distributed_rate_limiter.Identifier.RuleTypes.{RuleIdentifierType}
use distributed_rate_limiter.Params.{Params}
use distributed_rate_limiter.Prelude.Int.{ℤ, pos, negsuc}
use distributed_rate_limiter.RuleService.{or_raise, resolve_client_or_raise}
use distributed_rate_limiter.Store.{
  Db, ClientRow, AlgorithmRow, GroupRow, RuleRow, Collation, get_algorithm_by_id, get_group_by_id,
  list_by_group,
}
use distributed_rate_limiter.Prelude.{
  ℕ, zero, suc, ◌-◌, ◌*◌, String, Bool, true, ◌&&◌, Option, none, some, List, [], ◌∷◌, map,
  if◌then◌else◌, ltb, ◌==◌, string_eq, keep, find, length, take, drop, Result, ok, raise, ◌>>=◌,
}

-- What the n-th run of a query gives for `ORDER BY created_at DESC`, then `ORDER BY name`, and LIKE with a pattern that may stand anywhere.
pub record Queries : Type 0 where
  pub newest_rules : ℕ → List RuleRow → List RuleRow
  pub newest_groups : ℕ → List GroupRow → List GroupRow
  pub newest_clients : ℕ → List ClientRow → List ClientRow
  pub algorithms_by_name : List AlgorithmRow → List AlgorithmRow
  pub like_contains : String → String → Bool

-- `Query(ge=1)`, and `Query(ge=1, le=100)`.
unfoldable pub page_number : ℤ → Result Error ℕ
page_number (pos zero) = raise validation_error
page_number (pos (suc n)) = ok (suc n)
page_number (negsuc n) = raise validation_error

unfoldable pub page_size_of : ℤ → Result Error ℕ
page_size_of (pos zero) = raise validation_error
page_size_of (pos (suc n)) = if ltb 100 (suc n) then raise validation_error else ok (suc n)
page_size_of (negsuc n) = raise validation_error

pub record Page (A : Type 0) : Type 0 where
  pub items : List A
  pub page : ℕ
  pub page_size : ℕ
  pub total : ℕ

-- `.offset((page - 1) * page_size).limit(page_size)`
unfoldable pub offset_limit {ℓ} : {A : Type ℓ} → ℕ → ℕ → List A → List A
offset_limit page page_size rows = take page_size (drop ((page - 1) * page_size) rows)

-- `if filter is not None: … where(column == filter)`
abbrev pub passes : Option String → String → Bool
passes none column = true
passes (some wanted) column = column == wanted

pub data RuleStatus : Type 0 where
  active inactive : RuleStatus

-- The parameters of `GET /rules`.
pub record RuleQuery : Type 0 where
  pub client_id : Option String
  pub endpoint : Option String
  pub identifier_type : Option RuleIdentifierType
  pub identifier_signature : Option String
  pub status : Option RuleStatus
  pub algorithm_id : Option String
  pub page : ℤ
  pub page_size : ℤ

abbrev pub type_filter : Option RuleIdentifierType → Option String
type_filter none = none
type_filter (some t) = some (RuleTypes.value t)

abbrev pub status_filter : Option RuleStatus → Option String
status_filter none = none
status_filter (some active) = some "active"
status_filter (some inactive) = some "inactive"

-- The conditions of `RuleRepository.list`, for the key of a client.
unfoldable pub rule_passes : Option String → RuleQuery → RuleRow → Bool
rule_passes client_pk q r =
    passes client_pk r.client_id
    && (passes q.endpoint r.endpoint
        && (passes (type_filter q.identifier_type) r.identifier_signature
            && (passes q.identifier_signature r.identifier_signature
                && (passes (status_filter q.status) r.status
                    && passes q.algorithm_id r.algorithm_id))))

-- A rule as it is shown: with the client's public name in place of its key.
pub record RuleResponse : Type 0 where
  pub rule : RuleRow
  pub client_id : String
  pub algorithm : AlgorithmRow

unfoldable pub client_of : String → Db → Result Error ClientRow
client_of pk db = or_raise (find (λ c. c.id == pk) db.clients) (uncaught PyError.attribute_error)

-- `None` does not pass for the summary of an algorithm: pydantic's ValidationError is a ValueError.
unfoldable pub shown_algorithm : String → Db → Result Error AlgorithmRow
shown_algorithm id db = or_raise (get_algorithm_by_id id db) (uncaught PyError.value_error)

unfoldable pub build_rule_response : Db → RuleRow → Result Error RuleResponse
unfolding client_of shown_algorithm
build_rule_response db r = do
  client ← client_of r.client_id db
  algorithm ← shown_algorithm r.algorithm_id db
  ok (record { rule = r; client_id = client.client_id; algorithm = algorithm })

unfoldable pub collect : {A B : Type 0} → (A → Result Error B) → List A → Result Error (List B)
collect f [] = ok []
collect f (x ∷ xs) = do first ← f x; rest ← collect f xs; ok (first ∷ rest)

-- `resolve_client_pk`, where a client is asked for.
unfoldable pub resolve_client_pk : Option String → Db → Result Error (Option String)
resolve_client_pk none db = ok none
resolve_client_pk (some slug) db = do client ← resolve_client_or_raise slug db; ok (some client.id)

module _ (queries : Queries) (nth : ℕ) where
  -- `RuleRepository.list`: the rows of the page, and how many there are of all pages.
  unfoldable pub list_rule_rows : Option String → RuleQuery → ℕ → ℕ → Db → List RuleRow × ℕ
  unfolding rule_passes
  list_rule_rows client_pk q page page_size db =
      let rows = keep (rule_passes client_pk q) db.rules in
      (offset_limit page page_size (queries.newest_rules nth rows), length rows)

  -- `GET /rules`
  unfoldable pub list_rules : RuleQuery → Db → Result Error (Page RuleResponse)
  unfolding page_number page_size_of resolve_client_pk list_rule_rows collect build_rule_response
  list_rules q db = do
    page ← page_number q.page
    page_size ← page_size_of q.page_size
    client_pk ← resolve_client_pk q.client_id db
    let listed = list_rule_rows client_pk q page page_size db
    items ← collect (build_rule_response db) listed.0
    ok (record { items = items; page = page; page_size = page_size; total = listed.1 })

-- A group as it is shown.
pub record GroupResponse : Type 0 where
  pub group : GroupRow
  pub client_id : String
  pub algorithm : AlgorithmRow

unfoldable pub build_rule_group_response : Db → GroupRow → Result Error GroupResponse
unfolding client_of shown_algorithm
build_rule_group_response db g = do
  client ← client_of g.client_id db
  algorithm ← shown_algorithm g.algorithm_id db
  ok (record { group = g; client_id = client.client_id; algorithm = algorithm })

pub record GroupListItem : Type 0 where
  pub response : GroupResponse
  pub member_count : ℕ

pub record GroupMember : Type 0 where
  pub rule_id : String
  pub endpoint : String
  pub overrides : Params
  pub params : Params
  pub is_active : Bool

-- `rule.overrides or {}`
abbrev pub or_empty : Option Params → Params
or_empty none = []
or_empty (some params) = params

abbrev pub group_member : RuleRow → GroupMember
group_member r = record {
  rule_id = r.id;
  endpoint = r.endpoint;
  overrides = or_empty r.overrides;
  params = r.params;
  is_active = r.status == "active";
}

-- `get_group_with_members`
unfoldable pub get_group_with_members : String → Db → Result Error (GroupRow × List GroupMember)
get_group_with_members gid db = do
  group ← or_raise (get_group_by_id gid db) (rule_group_not_found gid)
  ok (group, map group_member (list_by_group gid db))

-- `AlgorithmService.get_algorithm`
unfoldable pub get_algorithm : String → Db → Result Error AlgorithmRow
get_algorithm id db = or_raise (get_algorithm_by_id id db) (algorithm_not_found id)

module _ (queries : Queries) (nth : ℕ) (col : Collation) where
  -- `func.lower(name).contains(name_contains.lower())`, where a name is asked for.
  unfoldable pub name_passes : Option String → GroupRow → Bool
  name_passes none g = true
  name_passes (some wanted) g = queries.like_contains (col.sql_lower g.name) (col.py_lower wanted)

  -- `coalesce(member_count, 0)` of the join with the counts.
  unfoldable pub with_count : Db → GroupRow → Result Error GroupListItem
  unfolding build_rule_group_response
  with_count db g = do
    response ← build_rule_group_response db g
    ok (record { response = response; member_count = length (list_by_group g.id db) })

  -- `GET /groups`, on the client, the name, the page and its size.
  unfoldable pub list_groups :
      Option String → Option String → ℤ → ℤ → Db → Result Error (Page GroupListItem)
  unfolding page_number page_size_of resolve_client_pk name_passes collect with_count
  list_groups client_id name_contains page_asked size_asked db = do
    page ← page_number page_asked
    page_size ← page_size_of size_asked
    client_pk ← resolve_client_pk client_id db
    let rows = keep (λ g. passes client_pk g.client_id && name_passes name_contains g) db.groups
    items ← collect (with_count db) (offset_limit page page_size (queries.newest_groups nth rows))
    ok (record { items = items; page = page; page_size = page_size; total = length rows })

module _ (queries : Queries) (nth : ℕ) where
  -- `GET /clients`
  unfoldable pub list_clients : ℤ → ℤ → Db → Result Error (Page ClientRow)
  unfolding page_number page_size_of
  list_clients page_asked size_asked db = do
    page ← page_number page_asked
    page_size ← page_size_of size_asked
    ok (record {
      items = offset_limit page page_size (queries.newest_clients nth db.clients);
      page = page;
      page_size = page_size;
      total = length db.clients;
    })

-- `list_algorithms`
unfoldable pub list_algorithms : Queries → Db → List AlgorithmRow
list_algorithms queries db = queries.algorithms_by_name db.algorithms
