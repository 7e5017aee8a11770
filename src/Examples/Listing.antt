-- ===== src/Examples/Listing.antt =====
-- Tests and examples of the pages of the administration.
use distributed_rate_limiter.Examples.Groups.{db, paying}
use distributed_rate_limiter.Errors.{validation_error}
use distributed_rate_limiter.Pages.{Queries, RuleQuery, list_rules, offset_limit}
use distributed_rate_limiter.RuleService.{resolve_client_or_raise}
use distributed_rate_limiter.Store.{RuleRow, get_client_by_client_id, get_algorithm_by_id}
use distributed_rate_limiter.Pages.Complete.{rows_shown}
use distributed_rate_limiter.Prelude.Int.{pos}
use distributed_rate_limiter.Prelude.{
  ℕ, List, if◌then◌else◌, ltb, ◌==◌, ◌≡◌, refl, none, some, [], ◌∷◌, raise, string_eq, nat_eq,
  false,
}

abbrev created_at : RuleRow → ℕ
created_at r = if r.id == "r1" then 1 else 2

-- Rows of one time: the first stored first.
abbrev insert : RuleRow → List RuleRow → List RuleRow
insert r [] = r ∷ []
insert r (s ∷ rows) =
    let rest = insert r rows in if ltb (created_at r) (created_at s) then s ∷ rest else r ∷ s ∷ rows

abbrev newest : List RuleRow → List RuleRow
newest [] = []
newest (r ∷ rows) = insert r (newest rows)

abbrev queries : Queries
queries = record {
  newest_rules = λ n rows. newest rows;
  newest_groups = λ n rows. rows;
  newest_clients = λ n rows. rows;
  algorithms_by_name = λ rows. rows;
  like_contains = λ text pattern. false;
}

abbrev of_acme : RuleQuery
of_acme = record {
  client_id = some "acme";
  endpoint = none;
  identifier_type = none;
  identifier_signature = some "user_id";
  status = none;
  algorithm_id = none;
  page = pos 1;
  page_size = pos 1;
}

second_page : rows_shown (list_rules queries 1 (record of_acme { page = pos 2 }) db) ≡ paying ∷ []
unfolding list_rules resolve_client_or_raise get_client_by_client_id offset_limit
    get_algorithm_by_id
second_page = refl

page_zero : list_rules queries 0 (record of_acme { page = pos 0 }) db ≡ raise validation_error
unfolding list_rules
page_zero = refl

large_page :
    list_rules queries 0 (record of_acme { page_size = pos 101 }) db ≡ raise validation_error
unfolding list_rules
large_page = refl
