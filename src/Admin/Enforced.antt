-- ===== src/Admin/Enforced.antt =====
-- What the administration of groups means for the requests that are limited.
use distributed_rate_limiter.Admin.{Request, handle_all}
use distributed_rate_limiter.Admin.Keeps.{IsSound, handle_all-IsSound}
use distributed_rate_limiter.Auth.Issue.{Has}
use distributed_rate_limiter.Identifier.Sets.{Types}
use distributed_rate_limiter.Params.{Runtime}
use distributed_rate_limiter.RulesCache.{Rule, Cache}
use distributed_rate_limiter.RulesLoader.{load_rules_into_cache}
use distributed_rate_limiter.RulesLoader.Polled.{Limits, resolve_rule-Limits}
use distributed_rate_limiter.Service.{Warned, resolve_rule}
use distributed_rate_limiter.Store.{Db, Collation}
use distributed_rate_limiter.Store.Governed.{Governed}
use distributed_rate_limiter.Prelude.{ℕ, String, ◌≡◌, inl, inr, some, List, [], ◌∷◌, All, ok}

pub Has-All {ℓ} :
    {A : Type ℓ} (P Q : A → Type 0) (xs : List A) → Has P xs → All Q xs → Has (λ x. P x × Q x) xs
Has-All P Q [] h k = h
Has-All P Q (x ∷ xs) (inl h) k = inl (h, k.0)
Has-All P Q (x ∷ xs) (inr h) k = inr (Has-All P Q xs h k.1)

-- From sound tables, after any sequence of requests on rules and groups and then a poll, the rule that limits a
-- request is made of an active row of the asking client, at the endpoint asked for, and that row is standalone or has
-- the client, the algorithm, the identifier types and the priority of its group, and the group's parameters as they
-- then are merged with its own overrides.
pub resolve_rule-Governed :
    (rt : Runtime) (col : Collation) (requests : List Request) (db : Db) (now : ℕ)
    (before after : Cache) (client_pk endpoint : String) (provided : Types) (w : Warned) (r : Rule)
    → IsSound col db
    → load_rules_into_cache now (handle_all rt col requests db) before ≡ ok after
    → (resolve_rule (some after) client_pk endpoint provided w).rule ≡ some r
    → Has
        (λ row.
          Limits client_pk endpoint r row × Governed (handle_all rt col requests db).groups row)
        (handle_all rt col requests db).rules
resolve_rule-Governed rt col requests db now before after client_pk endpoint provided w r sound
      loaded h =
    let later = handle_all rt col requests db in
    Has-All (Limits client_pk endpoint r) (Governed later.groups) later.rules
      (resolve_rule-Limits now later before after client_pk endpoint provided w r loaded h)
      (handle_all-IsSound rt col requests db sound).1
