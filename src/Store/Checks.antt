-- ===== src/Store/Checks.antt =====
-- The CHECKs that alembic/versions/0012_create_clients.py puts on the table of clients.
use Prim.Native.Char.{code}
use distributed_rate_limiter.Store.{ClientRow}
use distributed_rate_limiter.Validation.{every, in_range}
use distributed_rate_limiter.Prelude.{
  ℕ, String, Bool, false, ◌&&◌, ◌||◌, List, [], ◌∷◌, all, contains, leb, ◌==◌, nat_eq, string_eq,
  text_length,
}

abbrev pub is_slug_start : ℕ → Bool
is_slug_start c = in_range 97 122 c || in_range 48 57 c

-- `ck_clients_client_id_format`: `^[a-z0-9][a-z0-9-]{2,62}$`
unfoldable pub is_client_id : String → Bool
unfolding every text_length
is_client_id String.[] = false
is_client_id (String.◌∷◌ c s) =
    is_slug_start (code c)
    && (leb 2 (text_length s)
        && (leb (text_length s) 62 && every (λ d. is_slug_start d || d == 45) s))

-- `ck_clients_status`
abbrev pub statuses : List String
statuses = "active" ∷ "disabled" ∷ []

-- `ck_clients_scopes_subset`
abbrev pub choices : List String
choices = "check" ∷ "admin" ∷ []

unfoldable pub meets_checks : ClientRow → Bool
unfolding is_client_id
meets_checks c =
    is_client_id c.client_id && (contains statuses c.status && all (contains choices) c.scopes)
