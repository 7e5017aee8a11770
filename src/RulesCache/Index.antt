-- ===== src/RulesCache/Index.antt =====
-- What the indexes of the cache hold after `load_all`, by a description that names no dict.
use distributed_rate_limiter.Prelude.{
  Option, ℕ, String, ◌≡◌, refl, sym, ap, ◌∙◌, ◌⊎◌, inl, inr, Bool, true, false, not, ◌&&◌, none,
  some, List, [], ◌∷◌, ◌++◌, arith, if◌then◌else◌, Eq, ◌==◌, nat_eq, string_eq, pair_eq, Bool-cases,
  keep, find_last,
}
use distributed_rate_limiter.RulesCache.{
  load_all, add_by_id, get_candidates, get_global, Cache, get, Rule, Scope, scope, Indexes,
  sort_key_lt, is_usable, candidates_at, add_rule, add_rules, sort_candidates,
}
use distributed_rate_limiter.Prelude.Dict
use distributed_rate_limiter.Prelude.Dict.{Dict, get-insert}
use distributed_rate_limiter.Prelude.Sort.{sort}
use mathlib.Core.List.{append-nil}

abbrev pub scope_eq : Eq Scope
scope_eq = pair_eq

-- The rules that may be candidates for a client and an endpoint, and the global ones.
abbrev pub is_candidate : Scope → Rule → Bool
is_candidate s r = is_usable r && (not r.is_global && scope r == s)

abbrev pub is_global_of : Scope → Rule → Bool
is_global_of s r = is_usable r && (r.is_global && scope r == s)

keep-keep {ℓ} :
    {A : Type ℓ} (p q : A → Bool) (xs : List A) → keep p (keep q xs) ≡ keep (λ x. q x && p x) xs
keep-keep p q [] = refl
keep-keep p q (x ∷ xs) = ground (arith, keep-keep p q xs)

append_one {ℓ} :
    {A : Type ℓ} (xs : List A) (y : A) (ys : List A) → (xs ++ y ∷ []) ++ ys ≡ xs ++ (y ∷ ys)
append_one [] y ys = refl
append_one (x ∷ xs) y ys = ap (◌∷◌ x) (append_one xs y ys)

candidates_at-insert :
    (k s : Scope) (rs : List Rule) (d : Dict Scope (List Rule))
    → candidates_at s (Dict.insert k rs d) ≡ (if k == s then rs else candidates_at s d)
unfolding candidates_at
candidates_at-insert k s rs d = ground (arith, get-insert k s rs d)

candidates_at-add_rule :
    (s : Scope) (r : Rule) (ix : Indexes)
    → candidates_at s (add_rule r ix).candidates
      ≡ candidates_at s ix.candidates ++ (if not r.is_global && scope r == s then r ∷ [] else [])
unfolding add_rule
candidates_at-add_rule s r ix = elim (Bool-cases r.is_global) [
  | inl g ↦ simp g (sym (append-nil _))
  | inr n ↦ simp n (
      candidates_at-insert (scope r) s (candidates_at (scope r) ix.candidates ++ r ∷ [])
        ix.candidates
      ∙ same_scope (Bool-cases (scope r == s)))
]
  where
    same_scope :
        (((scope r == s) ≡ true) ⊎ ((scope r == s) ≡ false))
        → (if scope r == s
            then candidates_at (scope r) ix.candidates ++ r ∷ []
            else candidates_at s ix.candidates)
          ≡ candidates_at s ix.candidates ++ (if scope r == s then r ∷ [] else [])
    same_scope (inl e) =
        rw e (
          ap (λ k. candidates_at k ix.candidates ++ r ∷ []) ((scope_eq.equals_iff (scope r) s).0 e))
    same_scope (inr e) = rw e (sym (append-nil _))

candidates_at-add_rules :
    (s : Scope) (rs : List Rule) (ix : Indexes)
    → candidates_at s (add_rules rs ix).candidates
      ≡ candidates_at s ix.candidates ++ keep (λ r. not r.is_global && scope r == s) rs
unfolding add_rules
candidates_at-add_rules s [] ix = sym (append-nil _)
candidates_at-add_rules s (r ∷ rs) ix =
    candidates_at-add_rules s rs (add_rule r ix)
    ∙ rw candidates_at-add_rule (elim (Bool-cases (not r.is_global && scope r == s)) [
      | inl e ↦ rw e (append_one (candidates_at s ix.candidates) r _)
      | inr e ↦ rw e (rw append-nil refl)
    ])

global_at-add_rules :
    (s : Scope) (rs : List Rule) (ix : Indexes)
    → Dict.get s (add_rules rs ix).globals
      ≡ elim (find_last (λ r. r.is_global && scope r == s) rs) [
        | none ↦ Dict.get s ix.globals
        | some r ↦ some r
      ]
unfolding add_rules add_rule
global_at-add_rules s [] ix = refl
global_at-add_rules s (r ∷ rs) ix =
    ground (arith, global_at-add_rules s rs (add_rule r ix), get-insert (scope r) s r ix.globals)

candidates_at-sort_candidates :
    (s : Scope) (d : Dict Scope (List Rule))
    → candidates_at s (sort_candidates d) ≡ sort sort_key_lt (candidates_at s d)
unfolding candidates_at sort_candidates Dict.get sort
candidates_at-sort_candidates s [] = refl
candidates_at-sort_candidates s ((k, rs) ∷ d) = ground (arith, candidates_at-sort_candidates s d)

find_last-keep {ℓ} :
    {A : Type ℓ} (p q : A → Bool) (xs : List A)
    → find_last p (keep q xs) ≡ find_last (λ x. q x && p x) xs
find_last-keep p q [] = refl
find_last-keep p q (x ∷ xs) = ground (arith, find_last-keep p q xs)

-- After a load the candidates of a client and an endpoint are the active, usable, non-global rules of
-- the load with just that client and endpoint, sorted; nothing of the cache before the load is left.
pub get_candidates-load_all :
    (now : ℕ) (rules : List Rule) (c : Cache) (client_pk endpoint : String)
    → get_candidates client_pk endpoint (load_all now rules c)
      ≡ sort sort_key_lt (keep (is_candidate (client_pk, endpoint)) rules)
unfolding get_candidates load_all
get_candidates-load_all now rules c client_pk endpoint =
    let s : Scope = (client_pk, endpoint) in
    let empty : Indexes = record { candidates = []; globals = [] } in
    candidates_at-sort_candidates s (add_rules (keep is_usable rules) empty).candidates
    ∙ ap (sort sort_key_lt) (
        candidates_at-add_rules s (keep is_usable rules) empty
        ∙ unfold candidates_at Dict.get in
          keep-keep (λ r. not r.is_global && scope r == s) is_usable rules)

-- After a load the global rule of a client and an endpoint is the last active, usable, global rule of
-- the load with that client and endpoint, and there is none where the load has none.
pub get_global-load_all :
    (now : ℕ) (rules : List Rule) (c : Cache) (client_pk endpoint : String)
    → get_global client_pk endpoint (load_all now rules c)
      ≡ find_last (is_global_of (client_pk, endpoint)) rules
unfolding get_global load_all
get_global-load_all now rules c client_pk endpoint =
    let s : Scope = (client_pk, endpoint) in
    global_at-add_rules s (keep is_usable rules) (record { candidates = []; globals = [] })
    ∙ unfold Dict.get in
      rw (find_last-keep (λ r. r.is_global && scope r == s) is_usable rules)
        (or_none (find_last (is_global_of s) rules))
  where
    or_none : (o : Option Rule) → ◌≡◌ {A = Option Rule} (elim o [ none ↦ none | some r ↦ some r ]) o
    or_none none = refl
    or_none (some r) = refl

get-add_by_id :
    (id : String) (rules : List Rule) (d : Dict String Rule)
    → Dict.get id (add_by_id rules d)
      ≡ elim (find_last (λ r. r.id == id) rules) [ none ↦ Dict.get id d | some r ↦ some r ]
unfolding add_by_id
get-add_by_id id [] d = refl
get-add_by_id id (r ∷ rs) d =
    ground (arith, get-add_by_id id rs (Dict.insert r.id r d), get-insert r.id id r d)

-- After a load a rule is found by its id exactly as the load had it last, whatever its status.
pub get-load_all :
    (now : ℕ) (rules : List Rule) (c : Cache) (id : String)
    → get id (load_all now rules c) ≡ find_last (λ r. r.id == id) rules
unfolding get load_all Dict.get
get-load_all now rules c id = get-add_by_id id rules [] ∙ ground arith
