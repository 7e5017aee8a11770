-- ===== src/RulesCache/Resolution.antt =====
-- The order of the candidates, and what every candidate is.
use distributed_rate_limiter.Prelude.Int.{ltb_ℤ}
use distributed_rate_limiter.Prelude.{
  ◌⊎◌, ltb, length, ◌<◌, [], ◌∷◌, str_ltb, inr, inl, Bool-cases, All-map, ℕ, String, ◌≡◌, ◌≢◌, true,
  false, none, List, arith, nat_eq, string_eq, pair_eq, keep, All, All-keep, str_ltb_asymm,
  str_le_trans,
}
use distributed_rate_limiter.Prelude.Sort.{IsSorted, sort-IsSorted, All-sort}
use distributed_rate_limiter.RulesCache.{
  engine_types, Rule, Cache, sort_key_lt, is_usable, load_all, get_candidates,
}
use distributed_rate_limiter.RulesCache.Index.{is_candidate, get_candidates-load_all}

sort_key_lt-asymm : (a b : Rule) → sort_key_lt a b ≡ true → sort_key_lt b a ≡ false
unfolding sort_key_lt
sort_key_lt-asymm a b h =
    ground (arith, str_ltb_asymm a.identifier_signature b.identifier_signature)

pub sort_key_lt_irrefl : (a : Rule) → sort_key_lt a a ≡ false
sort_key_lt_irrefl a = elim (Bool-cases (sort_key_lt a a)) [
  | inl e ↦ sort_key_lt-asymm a a e
  | inr e ↦ e
]

sort_key_le_trans :
    (a b c : Rule) → sort_key_lt b a ≡ false → sort_key_lt c b ≡ false → sort_key_lt c a ≡ false
unfolding sort_key_lt
sort_key_le_trans a b c h k =
    ground
      (arith, str_le_trans a.identifier_signature b.identifier_signature c.identifier_signature)

-- A rule that a client may see at an endpoint.
pub record IsVisible (client_pk endpoint : String) (r : Rule) : Type 0 where
  pub client : r.client_pk ≡ client_pk
  pub place : r.endpoint ≡ endpoint
  pub active : r.status ≡ "active"
  pub mapped : r.engine_identifier_types ≢ none
  pub not_global : r.is_global ≡ false

is_candidate-IsVisible :
    (client_pk endpoint : String) (r : Rule)
    → is_candidate (client_pk, endpoint) r ≡ true
    → IsVisible client_pk endpoint r
unfolding is_usable
is_candidate-IsVisible client_pk endpoint r h = record {
  client = ground (arith, string_eq.equals_iff r.client_pk client_pk);
  place = ground (arith, string_eq.equals_iff r.endpoint endpoint);
  active = ground (arith, string_eq.equals_iff r.status "active");
  mapped = ground arith;
  not_global = ground arith;
}

-- Whatever a load held, each candidate that a client is shown at an endpoint is an active rule with a
-- runtime mapping, not global, of just that client and that endpoint.
pub get_candidates-IsVisible :
    (now : ℕ) (rules : List Rule) (c : Cache) (client_pk endpoint : String)
    → All (IsVisible client_pk endpoint) (get_candidates client_pk endpoint (load_all now rules c))
get_candidates-IsVisible now rules c client_pk endpoint = rw get_candidates-load_all (
    All-sort sort_key_lt (IsVisible client_pk endpoint) _ (
      All-map (is_candidate-IsVisible client_pk endpoint) _
        (All-keep (is_candidate (client_pk, endpoint)) rules)))

-- `a` may stand before `b`: it has more types, or as many and a higher priority, or also the same priority and
-- a signature that is not behind the other by code points.
abbrev pub Precedes : Rule → Rule → Type 0
Precedes a b =
    (length (engine_types b) < length (engine_types a))
    ⊎ ((length (engine_types a) ≡ length (engine_types b))
        × ((ltb_ℤ b.priority a.priority ≡ true)
            ⊎ ((ltb_ℤ b.priority a.priority ≡ false)
                × ((ltb_ℤ a.priority b.priority ≡ false)
                    × (str_ltb b.identifier_signature a.identifier_signature ≡ false)))))

-- Every rule may stand before all that follow it.
abbrev pub IsRanked : List Rule → Type 0
IsRanked [] = Unit
IsRanked (r ∷ rs) = All (Precedes r) rs × IsRanked rs

pub sort_key_lt-Precedes : (a b : Rule) → sort_key_lt b a ≡ false → Precedes a b
unfolding sort_key_lt
sort_key_lt-Precedes a b h =
    elim (Bool-cases (ltb (length (engine_types b)) (length (engine_types a)))) [
      | inl t ↦ inl (ground arith)
      | inr n ↦ inr (
          let shorter : ltb (length (engine_types a)) (length (engine_types b)) ≡ false =
            ground arith in
          let higher : ltb_ℤ a.priority b.priority ≡ false = ground arith in
          let same : length (engine_types a) ≡ length (engine_types b) = ground arith in
          (
            same,
            elim (Bool-cases (ltb_ℤ b.priority a.priority)) [
              | inl t ↦ inl t
              | inr m ↦ inr (m, (higher, ground arith))
            ],
          ))
    ]

sorted-IsRanked : (rs : List Rule) → IsSorted sort_key_lt rs → IsRanked rs
sorted-IsRanked [] h = tt
sorted-IsRanked (r ∷ rs) h =
    (All-map (λ q. sort_key_lt-Precedes r q) rs h.0, sorted-IsRanked rs h.1)

pub get_candidates-IsSorted :
    (now : ℕ) (rules : List Rule) (c : Cache) (client_pk endpoint : String)
    → IsSorted sort_key_lt (get_candidates client_pk endpoint (load_all now rules c))
get_candidates-IsSorted now rules c client_pk endpoint = rw get_candidates-load_all (
    sort-IsSorted sort_key_lt sort_key_lt-asymm sort_key_le_trans
      (keep (is_candidate (client_pk, endpoint)) rules))

-- After a load, whatever the cache held before, the candidates of a client at an endpoint stand with the most
-- types first, among as many types the highest priority first, and among equal priorities by signature.
pub get_candidates-IsRanked :
    (now : ℕ) (rules : List Rule) (c : Cache) (client_pk endpoint : String)
    → IsRanked (get_candidates client_pk endpoint (load_all now rules c))
get_candidates-IsRanked now rules c client_pk endpoint =
    sorted-IsRanked (get_candidates client_pk endpoint (load_all now rules c))
      (get_candidates-IsSorted now rules c client_pk endpoint)
