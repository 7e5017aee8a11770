-- ===== src/Service/Resolve.antt =====
-- Which rule `_resolve_rule` finds.
use distributed_rate_limiter.Service.{note, Warned, Missing, missing, scan, or_global, resolve_rule}
use distributed_rate_limiter.Prelude.{
  All-map, ℕ, String, ◌≡◌, refl, sym, ap, ◌∙◌, subst, inl, inr, Bool, true, Option, none, some,
  List, [], ◌∷◌, arith, nat_eq, string_eq, pair_eq, Bool-cases, Option-cases, list_eq, find,
  find_last, All,
}
use distributed_rate_limiter.Identifier.Sets.{Types, subset}
use distributed_rate_limiter.RulesCache.{
  Rule, Cache, engine_types, is_usable, load_all, get_candidates, get_global,
}
use distributed_rate_limiter.RulesCache.Index.{is_global_of, get_global-load_all}
use distributed_rate_limiter.RulesCache.Resolution.{IsVisible, get_candidates-IsVisible}

abbrev pub matches : Types → Rule → Bool
matches provided r = subset (engine_types r) provided

found-scan :
    (provided : Types) (rs : List Rule) (warned : List Missing)
    → (scan provided rs warned).found ≡ find (matches provided) rs
unfolding scan
found-scan provided [] warned = refl
found-scan provided (r ∷ rs) warned =
    ground (arith, found-scan provided rs (note (missing provided r) warned))

-- The rule that is resolved is the first candidate all of whose types the request provides, else the
-- global rule, whatever was warned of before.
pub rule-resolve_rule :
    (c : Cache) (client_pk endpoint : String) (provided : Types) (w : Warned)
    → (resolve_rule (some c) client_pk endpoint provided w).rule
      ≡ or_global
          (find (matches provided) (get_candidates client_pk endpoint c))
          (get_global client_pk endpoint c)
unfolding resolve_rule
rule-resolve_rule c client_pk endpoint provided w =
    ap (λ o. or_global o (get_global client_pk endpoint c))
      (found-scan provided (get_candidates client_pk endpoint c) _)

-- A rule that the cache shows for a client and an endpoint: active, of that client, there.
pub record BelongsTo (client_pk endpoint : String) (r : Rule) : Type 0 where
  pub client : r.client_pk ≡ client_pk
  pub place : r.endpoint ≡ endpoint
  pub active : r.status ≡ "active"

IsVisible-BelongsTo :
    {client_pk endpoint : String} {r : Rule}
    → IsVisible client_pk endpoint r
    → BelongsTo client_pk endpoint r
IsVisible-BelongsTo v = record { client = v.client; place = v.place; active = v.active }

abbrev pub OnSome {ℓ κ} : {A : Type ℓ} → (A → Type κ) → Option A → Type κ
OnSome P none = Unit
OnSome P (some a) = P a

pub find-All {ℓ κ} :
    {A : Type ℓ} (P : A → Type κ) (p : A → Bool) (xs : List A) → All P xs → OnSome P (find p xs)
find-All P p [] h = tt
find-All P p (x ∷ xs) h = elim (Bool-cases (p x)) [
  | inl e ↦ rw e h.0
  | inr e ↦ rw e (find-All P p xs h.1)
]

pub find_last-holds {ℓ κ} :
    {A : Type ℓ} (P : A → Type κ) (p : A → Bool) (xs : List A)
    → ((a : A) → p a ≡ true → P a)
    → OnSome P (find_last p xs)
find_last-holds P p [] h = tt
find_last-holds P p (x ∷ xs) h = elim (Option-cases (find_last p xs)) [
  | inl e ↦ rw e (elim (Bool-cases (p x)) [ inl t ↦ rw t (h x t) | inr f ↦ rw f tt ])
  | inr (y, e) ↦ rw e (subst (OnSome P) e (find_last-holds P p xs h))
]

global-BelongsTo :
    (client_pk endpoint : String) (r : Rule)
    → is_global_of (client_pk, endpoint) r ≡ true
    → BelongsTo client_pk endpoint r
unfolding is_usable
global-BelongsTo client_pk endpoint r h = record {
  client = ground (arith, string_eq.equals_iff r.client_pk client_pk);
  place = ground (arith, string_eq.equals_iff r.endpoint endpoint);
  active = ground (arith, string_eq.equals_iff r.status "active");
}

pub or_global-OnSome :
    (P : Rule → Type 0) (o g : Option Rule) → OnSome P o → OnSome P g → OnSome P (or_global o g)
unfolding or_global
or_global-OnSome P none g h k = k
or_global-OnSome P (some r) g h k = h

-- Client isolation: whatever rules of whatever clients were loaded, and whatever the request
-- provides, a resolved rule is an active rule of the client that asks, at the endpoint asked for.
pub resolve_rule-BelongsTo :
    (now : ℕ) (rules : List Rule) (before : Cache) (client_pk endpoint : String) (provided : Types)
    (w : Warned) (r : Rule)
    → (resolve_rule (some (load_all now rules before)) client_pk endpoint provided w).rule ≡ some r
    → BelongsTo client_pk endpoint r
resolve_rule-BelongsTo now rules before client_pk endpoint provided w r h =
    let c = load_all now rules before in
    let P = BelongsTo client_pk endpoint in
    subst (OnSome P) (sym (rule-resolve_rule c client_pk endpoint provided w) ∙ h) (
      or_global-OnSome P _ _
        (find-All P (matches provided) (get_candidates client_pk endpoint c) (
          All-map (λ a. IsVisible-BelongsTo {r = a}) _
            (get_candidates-IsVisible now rules before client_pk endpoint)))
        (rw get_global-load_all (
          find_last-holds P (is_global_of (client_pk, endpoint)) rules
            (global-BelongsTo client_pk endpoint))))
