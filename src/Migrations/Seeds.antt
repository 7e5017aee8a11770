-- ===== src/Migrations/Seeds.antt =====
-- The data of the seeds of alembic/versions: 0002_seed_algorithms.py, 0005_seed_sample_rules.py,
-- 0009_seed_composite_sample_rules.py and 0011_seed_sample_rule_groups.py. A float is its 64-bit pattern.
use distributed_rate_limiter.Params.{Value, null, int, float, Params}
use distributed_rate_limiter.Prelude.Int.{ℤ, pos}
use distributed_rate_limiter.Prelude.{String, Option, none, some, List, [], ◌∷◌}

abbrev one : Value
one = float 4607182418800017408

abbrev two : Value
two = float 4611686018427387904

abbrev two_and_a_half : Value
two_and_a_half = float 4612811918334230528

abbrev three : Value
three = float 4613937818241073152

abbrev five : Value
five = float 4617315517961601024

abbrev eight : Value
eight = float 4620693217682128896

abbrev ten : Value
ten = float 4621819117588971520

abbrev fifteen : Value
fifteen = float 4624633867356078080

pub record SchemaProperty : Type 0 where
  pub value_type : String
  pub description : String
  pub default : Value

-- A row of `SEED_ALGORITHMS`, with its JSON schema of `params`, an object.
pub record SeedAlgorithm : Type 0 where
  pub name : String
  pub description : String
  pub properties : List (String × SchemaProperty)
  pub required : List String

abbrev seed_fixed_window : SeedAlgorithm
seed_fixed_window = record {
  name = "FixedWindow";
  description = "Fixed-size time windows with a max request count per window.";
  properties =
      (
        "limit",
        record {
          value_type = "integer";
          description = "max requests allowed per window";
          default = int (pos 100);
        },
      )
      ∷ (
        "window_seconds",
        record {
          value_type = "integer";
          description = "window duration, in seconds";
          default = int (pos 60);
        },
      )
      ∷ [];
  required = "limit" ∷ "window_seconds" ∷ [];
}

abbrev seed_sliding_window_log : SeedAlgorithm
seed_sliding_window_log = record {
  name = "SlidingWindowLog";
  description = "Logs each request timestamp; counts requests within a rolling window.";
  properties =
      (
        "limit",
        record {
          value_type = "integer";
          description = "max requests allowed in the trailing window";
          default = int (pos 100);
        },
      )
      ∷ (
        "window_seconds",
        record {
          value_type = "integer";
          description = "trailing window size, in seconds";
          default = int (pos 60);
        },
      )
      ∷ [];
  required = "limit" ∷ "window_seconds" ∷ [];
}

abbrev seed_sliding_window_counter : SeedAlgorithm
seed_sliding_window_counter = record {
  name = "SlidingWindowCounter";
  description = "Approximates a rolling window using weighted adjacent fixed windows.";
  properties =
      (
        "limit",
        record {
          value_type = "integer";
          description = "max requests allowed in the trailing window";
          default = int (pos 100);
        },
      )
      ∷ (
        "window_seconds",
        record {
          value_type = "integer";
          description = "trailing window size, in seconds";
          default = int (pos 60);
        },
      )
      ∷ [];
  required = "limit" ∷ "window_seconds" ∷ [];
}

abbrev seed_token_bucket : SeedAlgorithm
seed_token_bucket = record {
  name = "TokenBucket";
  description = "Refills at a fixed rate up to a burst capacity.";
  properties =
      (
        "capacity",
        record {
          value_type = "integer";
          description = "max tokens the bucket holds (= max burst size)";
          default = int (pos 100);
        },
      )
      ∷ (
        "refill_rate",
        record { value_type = "number"; description = "tokens added per second"; default = ten },
      )
      ∷ (
        "initial_tokens",
        record {
          value_type = "integer";
          description =
              "tokens present when the bucket is first created; defaults to `capacity` if omitted";
          default = null;
        },
      )
      ∷ [];
  required = "capacity" ∷ "refill_rate" ∷ [];
}

abbrev seed_leaky_bucket : SeedAlgorithm
seed_leaky_bucket = record {
  name = "LeakyBucket";
  description = "Requests fill a bucket that leaks at a constant rate.";
  properties =
      (
        "capacity",
        record {
          value_type = "integer";
          description = "max queued requests before overflow";
          default = int (pos 100);
        },
      )
      ∷ (
        "leak_rate",
        record {
          value_type = "number";
          description = "requests drained (processed) per second";
          default = ten;
        },
      )
      ∷ [];
  required = "capacity" ∷ "leak_rate" ∷ [];
}

abbrev pub seed_algorithms : List SeedAlgorithm
seed_algorithms =
    seed_fixed_window ∷ seed_sliding_window_log ∷ seed_sliding_window_counter ∷ seed_token_bucket
    ∷ seed_leaky_bucket ∷ []

-- endpoint, identifier_type, identifier_value, algorithm_name, params, priority
pub data SampleRule : Type 0 where
  sample_rule : String → String → Option String → String → Params → ℤ → SampleRule

abbrev pub sample_rules : List SampleRule
sample_rules =
    sample_rule "/api/v1/orders" "global" none "TokenBucket"
      (("capacity", int (pos 15)) ∷ ("refill_rate", five) ∷ []) (pos 100)
    ∷ sample_rule "/api/v1/orders" "api_key" (some "premium-partner") "TokenBucket"
        (("capacity", int (pos 40)) ∷ ("refill_rate", ten) ∷ []) (pos 10)
    ∷ sample_rule "/api/v1/search" "global" none "FixedWindow"
        (("limit", int (pos 10)) ∷ ("window_seconds", int (pos 2)) ∷ []) (pos 100)
    ∷ sample_rule "/api/v1/search" "ip" (some "203.0.113.7") "FixedWindow"
        (("limit", int (pos 8)) ∷ ("window_seconds", int (pos 1)) ∷ []) (pos 50)
    ∷ sample_rule "/api/v1/public-search" "global" none "SlidingWindowLog"
        (("limit", int (pos 10)) ∷ ("window_seconds", int (pos 1)) ∷ []) (pos 100)
    ∷ sample_rule "/api/v1/checkout" "global" none "LeakyBucket"
        (("capacity", int (pos 12)) ∷ ("leak_rate", three) ∷ []) (pos 100)
    ∷ sample_rule "/api/v1/checkout" "client_id" (some "flaky-client") "LeakyBucket"
        (("capacity", int (pos 5)) ∷ ("leak_rate", one) ∷ []) (pos 20)
    ∷ sample_rule "/api/v1/reports" "global" none "SlidingWindowCounter"
        (("limit", int (pos 20)) ∷ ("window_seconds", int (pos 10)) ∷ []) (pos 100)
    ∷ sample_rule "/api/v1/reports" "client_id" (some "vip-client") "SlidingWindowCounter"
        (("limit", int (pos 40)) ∷ ("window_seconds", int (pos 10)) ∷ []) (pos 10)
    ∷ sample_rule "/api/v1/login" "ip" (some "198.51.100.42") "FixedWindow"
        (("limit", int (pos 5)) ∷ ("window_seconds", int (pos 300)) ∷ []) (pos 100)
    ∷ sample_rule "/api/v1/orders" "user_id" (some "user-1001") "TokenBucket"
        (("capacity", int (pos 20)) ∷ ("refill_rate", five) ∷ []) (pos 15)
    ∷ sample_rule "/api/v1/orders" "organization_id" (some "org-42") "TokenBucket"
        (("capacity", int (pos 60)) ∷ ("refill_rate", fifteen) ∷ []) (pos 12)
    ∷ sample_rule "/api/v1/orders" "subscription_tier" (some "free-tier") "TokenBucket"
        (("capacity", int (pos 5)) ∷ ("refill_rate", one) ∷ []) (pos 30)
    ∷ sample_rule "/api/v1/reports" "tenant_id" (some "tenant-acme") "SlidingWindowCounter"
        (("limit", int (pos 100)) ∷ ("window_seconds", int (pos 60)) ∷ []) (pos 15)
    ∷ sample_rule "/api/v1/reports" "request_source" (some "internal-dashboard")
        "SlidingWindowCounter" (("limit", int (pos 200)) ∷ ("window_seconds", int (pos 10)) ∷ [])
        (pos 5)
    ∷ sample_rule "/api/v1/reports" "endpoint" (some "reports-v2") "SlidingWindowCounter"
        (("limit", int (pos 25)) ∷ ("window_seconds", int (pos 10)) ∷ []) (pos 25)
    ∷ sample_rule "/api/v1/checkout" "session_id" (some "sess-abcxyz") "LeakyBucket"
        (("capacity", int (pos 8)) ∷ ("leak_rate", two) ∷ []) (pos 15)
    ∷ sample_rule "/api/v1/public-search" "device_id" (some "device-9f2a") "SlidingWindowLog"
        (("limit", int (pos 15)) ∷ ("window_seconds", int (pos 1)) ∷ []) (pos 15)
    ∷ sample_rule "/api/v1/public-search" "user_agent" (some "bot-crawler/1.0") "SlidingWindowLog"
        (("limit", int (pos 3)) ∷ ("window_seconds", int (pos 5)) ∷ []) (pos 10)
    ∷ sample_rule "/api/v1/search" "account_id" (some "account-777") "FixedWindow"
        (("limit", int (pos 12)) ∷ ("window_seconds", int (pos 1)) ∷ []) (pos 15)
    ∷ sample_rule "/api/v1/search" "region" (some "us-east-1") "FixedWindow"
        (("limit", int (pos 20)) ∷ ("window_seconds", int (pos 1)) ∷ []) (pos 60)
    ∷ sample_rule "/api/v1/login" "ip_range" (some "198.51.100.0/24") "FixedWindow"
        (("limit", int (pos 50)) ∷ ("window_seconds", int (pos 300)) ∷ []) (pos 50)
    ∷ sample_rule "/api/v1/webhooks" "webhook_id" (some "webhook-555") "FixedWindow"
        (("limit", int (pos 30)) ∷ ("window_seconds", int (pos 60)) ∷ []) (pos 100)
    ∷ []

-- endpoint, identifier_types, algorithm_name, params, priority
pub data CompositeRule : Type 0 where
  composite_rule : String → List String → String → Params → ℤ → CompositeRule

abbrev pub composite_sample_rules : List CompositeRule
composite_sample_rules =
    composite_rule "/api/v1/orders" ("api_key" ∷ "ip" ∷ []) "TokenBucket"
      (("capacity", int (pos 25)) ∷ ("refill_rate", eight) ∷ []) (pos 50)
    ∷ composite_rule "/api/v1/checkout" ("client_id" ∷ "session_id" ∷ []) "LeakyBucket"
        (("capacity", int (pos 10)) ∷ ("leak_rate", two_and_a_half) ∷ []) (pos 50)
    ∷ composite_rule "/api/v1/reports" ("tenant_id" ∷ "user_id" ∷ []) "SlidingWindowCounter"
        (("limit", int (pos 150)) ∷ ("window_seconds", int (pos 60)) ∷ []) (pos 50)
    ∷ composite_rule "/api/v1/search" ("api_key" ∷ "ip" ∷ "user_id" ∷ []) "FixedWindow"
        (("limit", int (pos 15)) ∷ ("window_seconds", int (pos 2)) ∷ []) (pos 50)
    ∷ composite_rule "/api/v1/public-search" ("device_id" ∷ "user_agent" ∷ []) "SlidingWindowLog"
        (("limit", int (pos 6)) ∷ ("window_seconds", int (pos 1)) ∷ []) (pos 50)
    ∷ []

-- name, description, algorithm_name, identifier_types, params, priority
pub data SampleGroup : Type 0 where
  sample_group : String → String → String → List String → Params → ℤ → SampleGroup

abbrev pub sample_groups : List SampleGroup
sample_groups =
    sample_group "premium-endpoints"
      "Shared TokenBucket policy for premium-tier API endpoints, keyed by api_key." "TokenBucket"
      ("api_key" ∷ []) (("capacity", int (pos 50)) ∷ ("refill_rate", fifteen) ∷ []) (pos 50)
    ∷ sample_group "admin-endpoints"
        "Shared FixedWindow policy for internal admin endpoints, keyed by user_id." "FixedWindow"
        ("user_id" ∷ []) (("limit", int (pos 200)) ∷ ("window_seconds", int (pos 60)) ∷ []) (pos 50)
    ∷ []

-- group_name, endpoint, overrides
pub data SampleMember : Type 0 where
  sample_member : String → String → Params → SampleMember

abbrev pub sample_members : List SampleMember
sample_members =
    sample_member "premium-endpoints" "/api/v1/premium/dashboard" []
    ∷ sample_member "premium-endpoints" "/api/v1/premium/export" (("capacity", int (pos 100)) ∷ [])
    ∷ sample_member "premium-endpoints" "/api/v1/premium/reports" []
    ∷ sample_member "admin-endpoints" "/api/v1/admin/users" []
    ∷ sample_member "admin-endpoints" "/api/v1/admin/settings" (("limit", int (pos 500)) ∷ [])
    ∷ []
