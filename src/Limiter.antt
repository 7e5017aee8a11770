-- ===== src/Limiter.antt =====
-- The limiters (services/rate_limiter/*.py, services/factory.py), the lookup of their registered
-- scripts, and the identifier of a caller (model/identifier.py, core/key_hasher.py).
-- Redis is a parameter: the reply to a call of a script. JSON and HMAC are parameters too.
pub mod Keys
use distributed_rate_limiter.Errors.{Error, uncaught, runtime_error}
use distributed_rate_limiter.Identifier
use distributed_rate_limiter.Identifier.{IdentifierType}
use distributed_rate_limiter.Params.{
  AlgorithmConfig, token_bucket, fixed_window, sliding_window_log, sliding_window_counter,
  leaky_bucket,
}
use distributed_rate_limiter.Prelude.Int.{ℤ, pos, negsuc}
use distributed_rate_limiter.Prelude.Sort.{sort}
use distributed_rate_limiter.Prelude.{
  ℕ, zero, suc, String, ◌⧺◌, Bool, true, false, not, Option, none, some, List, [], ◌∷◌, map,
  if◌then◌else◌, nat_eq, string_eq, pair_eq, contains, Result, ok, raise, str_ltb, join,
}

-- model/rate_limit_result.py
pub record RateLimitResult : Type 0 where
  pub allowed : Bool
  pub limit : ℤ
  pub remaining : ℤ
  pub retry_after_ms : Option ℤ
  pub reset_at_ms : Option ℤ
  pub degraded : Bool

pub data Arg : Type 0 where
  int : ℤ → Arg
  float : ℕ → Arg
  text : String → Arg

-- One `EVALSHA`: the script's name, its key and its arguments.
pub record Call : Type 0 where
  pub script : String
  pub key : String
  pub args : List Arg

-- What Redis answers: allowed, limit, remaining, retry_after_ms, reset_at_ms; or it raises.
pub data Reply : Type 0 where
  values : ℤ → ℤ → ℤ → ℤ → ℤ → Reply
  connection_error timeout_error script_error : Reply

-- What `RateLimiter.check` can raise.
pub data Outage : Type 0 where
  connection timeout response : Outage

-- A limiter: its parameters and its Redis scope.
pub record Limiter : Type 0 where
  pub config : AlgorithmConfig
  pub scope : String

unfoldable pub script_name : AlgorithmConfig → String
script_name (token_bucket _ _) = "token_bucket"
script_name (fixed_window _ _) = "fixed_window"
script_name (sliding_window_log _ _) = "sliding_window_log"
script_name (sliding_window_counter _ _) = "sliding_window_counter"
script_name (leaky_bucket _ _) = "leaky_bucket"

-- The arguments of the script call; only the log takes a request id.
unfoldable pub script_args : AlgorithmConfig → String → List Arg
script_args (token_bucket capacity rate) request_id = int capacity ∷ float rate ∷ []
script_args (fixed_window window n) request_id = int window ∷ int n ∷ []
script_args (sliding_window_log window n) request_id = int window ∷ int n ∷ text request_id ∷ []
script_args (sliding_window_counter window n) request_id = int window ∷ int n ∷ []
script_args (leaky_bucket capacity rate) request_id = int capacity ∷ float rate ∷ []

-- `RateLimiterFactory.create`, with the `get_script` of the class's constructor.
unfoldable pub create : List String → AlgorithmConfig → String → Result Error Limiter
unfolding script_name
create registered config scope =
    if contains registered (script_name config)
    then ok (record { config = config; scope = scope })
    else raise (uncaught runtime_error)

-- `_key` and the call of `check`, for the key of a client identifier.
unfoldable pub limiter_call : Limiter → String → String → Call
unfolding script_name script_args
limiter_call l identifier_key request_id = record {
  script = script_name l.config;
  key = "rl:" ⧺ (script_name l.config ⧺ (":" ⧺ (l.scope ⧺ (":" ⧺ identifier_key))));
  args = script_args l.config request_id;
}

is_zero : ℤ → Bool
is_zero (pos zero) = true
is_zero _ = false

retry_of : ℤ → Option ℤ
retry_of (negsuc zero) = none
retry_of n = some n

-- `check`, on the reply to its call.
unfoldable pub read_reply : Reply → Result Outage RateLimitResult
unfolding is_zero retry_of
read_reply (values allowed limit remaining retry reset) = ok (record {
  allowed = not (is_zero allowed);
  limit = limit;
  remaining = remaining;
  retry_after_ms = retry_of retry;
  reset_at_ms = some reset;
  degraded = false;
})
read_reply connection_error = raise connection
read_reply timeout_error = raise timeout
read_reply script_error = raise response

unfoldable pub check : (Call → Reply) → Limiter → String → String → Result Outage RateLimitResult
unfolding limiter_call read_reply
check redis l identifier_key request_id =
    read_reply (redis (limiter_call l identifier_key request_id))

-- `json.dumps` of the pairs and HMAC-SHA256 in hexadecimal, under the secret of the process.
pub record Hasher : Type 0 where
  pub dumps : List (String × String) → String
  pub hmac_hex : String → String

-- `s[:n]`
unfoldable pub prefix : ℕ → String → String
prefix zero s = ""
prefix (suc n) String.[] = ""
prefix (suc n) (String.◌∷◌ c s) = String.◌∷◌ c (prefix n s)

abbrev pub text_pair_lt : String × String → String × String → Bool
text_pair_lt p q = str_ltb p.0 q.0

-- `KeyHasher.digest`
unfoldable pub digest : Hasher → List (String × String) → String
digest h pairs = prefix 32 (h.hmac_hex (h.dumps (sort text_pair_lt pairs)))

pub record ClientIdentifier : Type 0 where
  pub key_signature : String
  pub digest : String

unfoldable pub identifier_key : ClientIdentifier → String
identifier_key c = c.key_signature ⧺ (":" ⧺ c.digest)

abbrev pub Pair : Type 0
Pair = IdentifierType × String

abbrev pub pair_lt : Pair → Pair → Bool
pair_lt p q = str_ltb (Identifier.value p.0) (Identifier.value q.0)

abbrev pub named : Pair → String × String
named p = (Identifier.value p.0, p.1)

unfoldable pub build_client_identifier : Hasher → List Pair → ClientIdentifier
build_client_identifier h pairs =
    let sorted_pairs = sort pair_lt pairs in
    record {
      key_signature = join "+" (map (λ p. Identifier.value p.0) sorted_pairs);
      digest = digest h (map named sorted_pairs);
    }
