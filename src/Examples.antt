-- ===== src/Examples.antt =====
-- Data for the tests: rules of two clients, a service with simple parameters, and requests.
pub mod Rules
pub mod Requests
pub mod Groups
pub mod Polls
pub mod Clients
pub mod Signing
pub mod Environment
pub mod Serving
pub mod Listing
pub mod Fresh
pub mod First
use distributed_rate_limiter.Errors.{PyError, type_error}
use distributed_rate_limiter.Identifier.{user_id, ip_address}
use distributed_rate_limiter.Limiter.{Hasher, Call, Reply, values, timeout_error, Pair}
use distributed_rate_limiter.Params.{Value, Params, Runtime, fixed_window}
use distributed_rate_limiter.Prelude.Int.{ℤ, pos, negsuc}
use distributed_rate_limiter.RulesCache.{Rule, Cache, init, load_all}
use distributed_rate_limiter.Service.{Env, CheckRequest, Warned}
use distributed_rate_limiter.Validation.{Parsers, v4}
use distributed_rate_limiter.Prelude.{
  ℕ, ◌*◌, true, false, Option, none, some, List, [], ◌∷◌, map, ltb, nat_eq, string_eq, pair_eq,
  list_eq, Result, ok, raise, join,
}

-- Whole numbers only: a float is its value here.
abbrev to_int : Value → Option ℤ
to_int (Value.int n) = some n
to_int _ = none

abbrev to_float : Value → Option ℕ
to_float (Value.int (pos n)) = some n
to_float (Value.float n) = some n
to_float _ = none

abbrev pub to_millis : Value → Result PyError ℤ
to_millis (Value.int (pos n)) = ok (pos (n * 1000))
to_millis (Value.float n) = ok (pos (n * 1000))
to_millis _ = raise type_error

abbrev pub runtime : Runtime
runtime = record {
  to_int = to_int;
  to_float = to_float;
  is_positive = ltb 0;
  to_millis = to_millis;
}

abbrev pub bucket_params : Params
bucket_params = ("capacity", Value.int (pos 10)) ∷ ("refill_rate", Value.int (pos 2)) ∷ []

abbrev pub by_user : Rule
by_user = record {
  id = "r1";
  client_pk = "c1";
  endpoint = "/pay";
  identifier_types = "user_id" ∷ [];
  identifier_signature = "user_id";
  is_global = false;
  engine_identifier_types = some (user_id ∷ []);
  algorithm_id = "a1";
  algorithm_name = "TokenBucket";
  params = bucket_params;
  status = "active";
  priority = pos 0;
  version = 1;
}

abbrev pub by_user_and_ip : Rule
by_user_and_ip = record by_user {
  id = "r2";
  identifier_types = "ip" ∷ "user_id" ∷ [];
  identifier_signature = "ip+user_id";
  engine_identifier_types = some (ip_address ∷ user_id ∷ []);
}

abbrev pub for_all : Rule
for_all = record by_user {
  id = "r3";
  identifier_types = "global" ∷ [];
  identifier_signature = "global";
  is_global = true;
}

abbrev pub of_other : Rule
of_other = record by_user { id = "r4"; client_pk = "c2" }

abbrev pub rules : List Rule
rules = by_user ∷ by_user_and_ip ∷ for_all ∷ of_other ∷ []

abbrev pub loaded : Cache
loaded = load_all 0 rules init

abbrev pub nothing_warned : Warned
nothing_warned = record { pairs = []; generation = none }

abbrev pub hasher : Hasher
hasher = record { dumps = λ pairs. join "," (map (λ p. p.1) pairs); hmac_hex = λ s. s }

abbrev pub parsers : Parsers
parsers = record { lower = λ s. s; parse_address = λ s. some (v4 s); parse_network = λ s. some s }

abbrev pub service : Env
service = record {
  default_config = fixed_window (pos 60000) (pos 100);
  rules_cache = some loaded;
  hasher = hasher;
  runtime = runtime;
  parsers = parsers;
  registered =
      "token_bucket" ∷ "fixed_window" ∷ "sliding_window_log" ∷ "sliding_window_counter"
      ∷ "leaky_bucket" ∷ [];
}

abbrev pub identifiers : List Pair
identifiers = (user_id, "ann") ∷ []

abbrev pub request : CheckRequest
request = record { endpoint = "/pay"; identifiers = identifiers }

abbrev pub answers : Call → Reply
answers call = values (pos 1) (pos 10) (pos 9) (negsuc 0) (pos 500)

abbrev pub is_down : Call → Reply
is_down call = timeout_error
