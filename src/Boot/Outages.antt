-- ===== src/Boot/Outages.antt =====
-- A request to a process that has started, while Redis is away.
use distributed_rate_limiter.Params.{Runtime}
use distributed_rate_limiter.Store.{RuleRow}
use distributed_rate_limiter.Service.FailOpen.{converts}
use distributed_rate_limiter.Settings.{Settings}
use distributed_rate_limiter.Prelude.{String, ◌≡◌, true, List, [], ◌∷◌, string_eq}

-- The scripts that the limiters look up.
abbrev pub script_names : List String
script_names =
    "token_bucket" ∷ "fixed_window" ∷ "sliding_window_log" ∷ "sliding_window_counter"
    ∷ "leaky_bucket" ∷ []

-- The window of a row converts, if the row is active and of the client at the endpoint.
abbrev pub Converts : Runtime → String → String → RuleRow → Type 0
Converts rt client_pk endpoint row =
    row.client_id ≡ client_pk
    → row.endpoint ≡ endpoint
    → row.status ≡ "active"
    → converts rt row.params ≡ true
