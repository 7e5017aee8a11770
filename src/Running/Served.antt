-- ===== src/Running/Served.antt =====
-- What a check that is answered means, in every world that can come of a start.
use distributed_rate_limiter.Admin.Enforced.{Has-All}
use distributed_rate_limiter.Auth.{AuthenticatedClient, require_scope}
use distributed_rate_limiter.Auth.Access.{GivesAccess, require_scope-GivesAccess}
use distributed_rate_limiter.Auth.Issue.{Has}
use distributed_rate_limiter.Auth.Records.{run_scheduled_clients_poll}
use distributed_rate_limiter.Boot.{service_of}
use distributed_rate_limiter.Checks.{
  RawCheck, validate_check, check_payload, check_as, check_endpoint,
}
use distributed_rate_limiter.Checks.Bounded.{IsBounded, validate_check-IsBounded}
use distributed_rate_limiter.Errors.{Error}
use distributed_rate_limiter.Identifier.Sets.{Types, frozenset}
use distributed_rate_limiter.Limiter.{RateLimitResult, Call, Reply, Pair}
use distributed_rate_limiter.RulesCache.{Rule}
use distributed_rate_limiter.RulesLoader.Polled.{Limits, resolve_rule-Limits}
use distributed_rate_limiter.Running.{World, Machine, Reach, answer_check}
use distributed_rate_limiter.Running.Kept.{Reach-Inv}
use distributed_rate_limiter.Service.{
  CheckRequest, resolve_rule, decide_limit, check_validated, validate_pairs, check_rate_limit,
}
use distributed_rate_limiter.Store.{Db}
use distributed_rate_limiter.Store.Governed.{Governed}
use distributed_rate_limiter.Prelude.{
  ℕ, String, ◌≡◌, refl, sym, ap, ◌∙◌, Option, none, some, List, map, Result, ok, raise,
}

-- A rule that limits a request: an active row of the client and the endpoint, governed by its group.
abbrev pub Enforces : Db → String → String → Option Rule → Type 0
Enforces db client_pk endpoint none = Unit
Enforces db client_pk endpoint (some r) =
    Has (λ row. Limits client_pk endpoint r row × Governed db.groups row) db.rules

pub record IsServed (m : Machine) (redis : Call → Reply) (request_id : String) (raw : RawCheck)
    (w : World) (result : RateLimitResult) : Type 0 where
  pub client : AuthenticatedClient
  pub access : Has (GivesAccess "check" client) w.clients_read
  pub payload : CheckRequest
  pub bounded : IsBounded raw payload
  pub pairs : List Pair
  pub valid : validate_pairs m.parsers 0 payload.identifiers ≡ ok pairs
  pub rule : Option Rule
  pub enforced : Enforces w.rules_read client.pk payload.endpoint rule
  pub resolved :
      rule
      ≡ (resolve_rule
          (some w.app.rules_cache)
          client.pk
          payload.endpoint
          (frozenset (map (λ p. p.0) pairs))
          w.warned).rule
  pub decided :
      decide_limit
        (service_of m.runtime m.parsers m.hash_with w.app)
        redis
        request_id
        client.pk
        rule
        pairs
      ≡ ok result

module _ (m : Machine) (w : World) (reach : Reach m w) (redis : Call → Reply) (now : ℕ)
    (credentials : Option String) (request_id : String) (raw : RawCheck) where
  accessible :
      (client : AuthenticatedClient)
      → require_scope m.jwt m.tokens "check" now credentials w.app.clients_cache ≡ ok client
      → Has (GivesAccess "check" client) w.clients_read
  unfolding run_scheduled_clients_poll
  accessible client h =
      let c = (Reach-Inv m reach).clients in
      require_scope-GivesAccess m.jwt m.tokens "check" c.now now credentials w.clients_read
        w.app.clients_cache client
        (ap (require_scope m.jwt m.tokens "check" now credentials) (sym c.loaded) ∙ h)

  enforced_by :
      (client_pk endpoint : String) (provided : Types)
      → Enforces w.rules_read client_pk endpoint
          (resolve_rule (some w.app.rules_cache) client_pk endpoint provided w.warned).rule
  enforced_by client_pk endpoint provided =
      by_rule (resolve_rule (some w.app.rules_cache) client_pk endpoint provided w.warned).rule refl
    where
      by_rule :
          (o : Option Rule)
          → (resolve_rule (some w.app.rules_cache) client_pk endpoint provided w.warned).rule ≡ o
          → Enforces w.rules_read client_pk endpoint o
      by_rule none e = tt
      by_rule (some r) e =
          let inv = Reach-Inv m reach in
          Has-All (Limits client_pk endpoint r) (Governed w.rules_read.groups) w.rules_read.rules
            (resolve_rule-Limits inv.rules.now w.rules_read inv.rules.before w.app.rules_cache
              client_pk endpoint provided w.warned r inv.rules.loaded e)
            inv.read_sound.1

  served :
      (client : AuthenticatedClient) (payload : CheckRequest) (r : Result Error (List Pair))
      (result : RateLimitResult)
      → require_scope m.jwt m.tokens "check" now credentials w.app.clients_cache ≡ ok client
      → validate_check raw ≡ ok payload
      → validate_pairs m.parsers 0 payload.identifiers ≡ r
      → (check_validated
          (service_of m.runtime m.parsers m.hash_with w.app)
          redis
          request_id
          client.pk
          payload.endpoint
          w.warned
          r).0
        ≡ ok result
      → IsServed m redis request_id raw w result
  unfolding check_validated service_of
  served client payload (raise e) result authorized accepted validated h = cc
  served client payload (ok pairs) result authorized accepted validated h = record {
    client = client;
    access = accessible client authorized;
    payload = payload;
    bounded = validate_check-IsBounded raw payload accepted;
    pairs = pairs;
    valid = validated;
    rule = _;
    enforced = enforced_by client.pk payload.endpoint (frozenset (map (λ p. p.0) pairs));
    resolved = refl;
    decided = h;
  }

  accepted :
      (client : AuthenticatedClient) (r : Result Error CheckRequest) (result : RateLimitResult)
      → require_scope m.jwt m.tokens "check" now credentials w.app.clients_cache ≡ ok client
      → validate_check raw ≡ r
      → (check_payload m.jwt m.tokens
          (service_of m.runtime m.parsers m.hash_with w.app)
          redis
          request_id
          client
          w.warned
          r).0
        ≡ ok result
      → IsServed m redis request_id raw w result
  unfolding check_payload check_rate_limit service_of
  accepted client (raise e) result authorized read h = cc
  accepted client (ok payload) result authorized read h =
      served client payload (validate_pairs m.parsers 0 payload.identifiers) result authorized read
        refl h

  authenticated :
      (r : Result Error AuthenticatedClient) (result : RateLimitResult)
      → require_scope m.jwt m.tokens "check" now credentials w.app.clients_cache ≡ r
      → (check_as m.jwt m.tokens
          (service_of m.runtime m.parsers m.hash_with w.app)
          redis
          request_id
          raw
          w.warned
          r).0
        ≡ ok result
      → IsServed m redis request_id raw w result
  unfolding check_as
  authenticated (raise e) result read h = cc
  authenticated (ok client) result read h = accepted client (validate_check raw) result read refl h

  -- In every world that can come of a start with sound tables, by requests of administrators, polls that
  -- succeed or fail, reloads of the scripts and checks in any order, a check is answered only for a client
  -- that the last load of the clients had as active and with the scope `check`, and for a body within the
  -- bounds of the schema whose identifiers are valid; the answer is the decision for the rule that is
  -- resolved, and this rule, if there is one, is made of a row that is active, of that client, at the endpoint
  -- asked for, and governed by its group, in the tables as the last load of the rules read them.
  pub answer_check-IsServed :
      (result : RateLimitResult)
      → (answer_check m redis now credentials request_id raw w).0 ≡ ok result
      → IsServed m redis request_id raw w result
  unfolding answer_check check_endpoint
  answer_check-IsServed result h =
      authenticated (require_scope m.jwt m.tokens "check" now credentials w.app.clients_cache)
        result refl h
