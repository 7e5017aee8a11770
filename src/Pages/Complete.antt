-- ===== src/Pages/Complete.antt =====
-- The pages of a list, one after the other, are the whole list, also where each page is a query of its own.
use distributed_rate_limiter.Errors.{Error}
use distributed_rate_limiter.Pages.{
  Queries, Page, RuleQuery, RuleResponse, rule_passes, resolve_client_pk, list_rules,
}
use distributed_rate_limiter.Pages.Newest.{Reordered, IsNewestFirst}
use distributed_rate_limiter.Prelude.Int.{pos}
use distributed_rate_limiter.Store.{Db, ClientRow, AlgorithmRow, RuleRow, get_algorithm_by_id}
use distributed_rate_limiter.Prelude.{
  ℕ, zero, suc, ◌≤◌, String, ◌≡◌, Option, some, List, [], ◌++◌, map, ◌==◌, string_eq, keep, find,
  All, Result, ok, raise,
}

-- The client and the algorithm of a rule are there, as the foreign keys demand.
pub record IsReferenced (db : Db) (r : RuleRow) : Type 0 where
  pub client : ClientRow
  pub has_client : find (λ (c : ClientRow). c.id == r.client_id) db.clients ≡ some client
  pub algorithm : AlgorithmRow
  pub has_algorithm : get_algorithm_by_id r.algorithm_id db ≡ some algorithm

abbrev pub shown : List RuleResponse → List RuleRow
shown = map (λ i. i.rule)

-- What a page shows; nothing for an error.
abbrev pub rows_shown : Result Error (Page RuleResponse) → List RuleRow
rows_shown (ok page) = shown page.items
rows_shown (raise e) = []

-- `ORDER BY created_at DESC`: the same rows, none before a newer one. In which order rows of one time stand is
-- left open.
pub record IsOrder (created_at : RuleRow → ℕ) (order : List RuleRow → List RuleRow) : Type 0 where
  pub reorders : (rows : List RuleRow) → Reordered rows (order rows)
  pub sorts : (rows : List RuleRow) → IsNewestFirst created_at (order rows)

-- The rows of the first pages, one after the other: each page is a run of the query.
abbrev pub rows_upto : Queries → RuleQuery → Db → ℕ → List RuleRow
rows_upto queries q db zero = []
rows_upto queries q db (suc n) =
    rows_upto queries q db n
    ++ rows_shown (list_rules queries n (record q { page = pos (suc n) }) db)

-- A page that is answered, with these rows and this total.
pub record IsPage (rows : List RuleRow) (total : ℕ) (r : Result Error (Page RuleResponse))
    : Type 0 where
  pub answer : Page RuleResponse
  pub answered : r ≡ ok answer
  pub same : shown answer.items ≡ rows
  pub counted : answer.total ≡ total

module _ (queries : Queries) (created_at : RuleRow → ℕ)
    (order : (n : ℕ) → IsOrder created_at (queries.newest_rules n)) (db : Db) (q : RuleQuery)
    (size : ℕ) (client_pk : Option String) (referenced : All (IsReferenced db) db.rules)
    (sized : q.page_size ≡ pos size) (few : 1 ≤ size) (many : size ≤ 100)
    (known : resolve_client_pk q.client_id db ≡ ok client_pk) where
  abbrev pub matching : List RuleRow
  matching = keep (rule_passes client_pk q) db.rules
