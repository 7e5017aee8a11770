-- ===== src/Service/Specific.antt =====
-- The resolved rule is the most specific one, and the global rule is a last resort.
use distributed_rate_limiter.Identifier.Sets.{Types, subset}
use distributed_rate_limiter.Prelude.Sort.{IsSorted, All-of_sort}
use distributed_rate_limiter.RulesCache.{
  Rule, Cache, engine_types, sort_key_lt, load_all, get_candidates, get_global,
}
use distributed_rate_limiter.RulesCache.Index.{
  is_candidate, is_global_of, get_candidates-load_all, get_global-load_all,
}
use distributed_rate_limiter.RulesCache.Resolution.{
  Precedes, sort_key_lt-Precedes, get_candidates-IsVisible, get_candidates-IsSorted,
  sort_key_lt_irrefl,
}
use distributed_rate_limiter.Service.{Warned, or_global, resolve_rule}
use distributed_rate_limiter.Service.Resolve.{
  matches, rule-resolve_rule, OnSome, find-All, find_last-holds,
}
use distributed_rate_limiter.Prelude.{
  ℕ, String, ◌≡◌, refl, sym, ◌∙◌, subst, inl, inr, Bool, true, false, Option, none, some, List, [],
  ◌∷◌, arith, nat_eq, string_eq, pair_eq, Bool-cases, list_eq, keep, find, All, All-map,
}

All-of_keep {ℓ κ} :
    {A : Type ℓ} (P : A → Type κ) (p : A → Bool) (xs : List A)
    → All P (keep p xs)
    → All (λ x. p x ≡ true → P x) xs
All-of_keep P p [] h = tt
All-of_keep P p (x ∷ xs) h = elim (Bool-cases (p x)) [
  | inl e ↦ let k : P x × All P (keep p xs) = rw e at h in (λ _. k.0, All-of_keep P p xs k.1)
  | inr e ↦ (λ t. cc, All-of_keep P p xs (rw e at h))
]

some_eq : {a b : Rule} → some a ≡ some b → a ≡ b
some_eq h = cc

-- In a sorted list no match stands before the first one in the order.
find-least :
    (p : Rule → Bool) (xs : List Rule) (r : Rule)
    → IsSorted sort_key_lt xs
    → find p xs ≡ some r
    → (p r ≡ true) × All (λ q. p q ≡ true → sort_key_lt q r ≡ false) xs
find-least p [] r s h = cc
find-least p (x ∷ xs) r s h = elim (Bool-cases (p x)) [
  | inl e ↦
      let x≡r : x ≡ r = some_eq (rw e at h) in
      subst (λ k. (p k ≡ true) × All (λ q. p q ≡ true → sort_key_lt q k ≡ false) (x ∷ xs)) x≡r
        (e, (λ _. sort_key_lt_irrefl x, All-map (λ q k _. k) xs s.0))
  | inr e ↦ let (t, rest) = find-least p xs r s.1 (rw e at h) in (t, (λ k. cc, rest))
]

find-none : (p : Rule → Bool) (xs : List Rule) → find p xs ≡ none → All (λ q. p q ≡ false) xs
find-none p [] h = tt
find-none p (x ∷ xs) h = elim (Bool-cases (p x)) [
  | inl e ↦ absurd (let bad : some x ≡ none = rw e at h in cc)
  | inr e ↦ (e, find-none p xs (rw e at h))
]

not_both : (r : Rule) → r.is_global ≡ true → r.is_global ≡ false → ⊥
not_both r t f = cc

found_of_not_global :
    (o g : Option Rule) (r : Rule)
    → OnSome (λ a. a.is_global ≡ true) g
    → or_global o g ≡ some r
    → r.is_global ≡ false
    → o ≡ some r
unfolding or_global
found_of_not_global none g r k h n =
    absurd (not_both r (subst (OnSome (λ a. a.is_global ≡ true)) h k) n)
found_of_not_global (some a) g r k h n = h

none_of_global :
    (o g : Option Rule) (r : Rule)
    → OnSome (λ a. a.is_global ≡ false) o
    → or_global o g ≡ some r
    → r.is_global ≡ true
    → o ≡ none
unfolding or_global
none_of_global none g r k h t = refl
none_of_global (some a) g r k h t =
    absurd (not_both r t (subst (OnSome (λ b. b.is_global ≡ false)) h k))

module _ (now : ℕ) (rules : List Rule) (before : Cache) (client_pk endpoint : String)
    (provided : Types) (w : Warned) where
  abbrev cache : Cache
  cache = load_all now rules before

  abbrev candidates : List Rule
  candidates = get_candidates client_pk endpoint cache

  abbrev first : Option Rule
  first = find (matches provided) candidates

  global_is_global : OnSome (λ r. r.is_global ≡ true) (get_global client_pk endpoint cache)
  global_is_global = rw get_global-load_all (
      find_last-holds (λ r. r.is_global ≡ true) (is_global_of (client_pk, endpoint)) rules
        (λ r h. ground arith))

  candidates_not_global : OnSome (λ r. r.is_global ≡ false) first
  candidates_not_global =
      find-All (λ r. r.is_global ≡ false) (matches provided) candidates
        (All-map (λ r v. v.not_global) candidates
          (get_candidates-IsVisible now rules before client_pk endpoint))

  transfer :
      (P : Rule → Type 0)
      → All P candidates
      → All (λ q. is_candidate (client_pk, endpoint) q ≡ true → P q) rules
  transfer P h = All-of_keep P (is_candidate (client_pk, endpoint)) rules (
      All-of_sort sort_key_lt P _
        (subst (All P) (get_candidates-load_all now rules before client_pk endpoint) h))

  abbrev resolved : Option Rule
  resolved = (resolve_rule (some cache) client_pk endpoint provided w).rule

  -- A resolved rule that is not global has only types that the request provides; and every other candidate of
  -- the load of which that is true has fewer types, or as many and a lower priority, or also the same priority
  -- and a signature that is not before that of the resolved rule.
  pub resolve_rule-least :
      (r : Rule)
      → (resolve_rule (some (load_all now rules before)) client_pk endpoint provided w).rule
        ≡ some r
      → r.is_global ≡ false
      → (subset (engine_types r) provided ≡ true)
        × All
            (λ q.
              is_candidate (client_pk, endpoint) q ≡ true
              → subset (engine_types q) provided ≡ true
              → Precedes r q)
            rules
  resolve_rule-least r h not_global =
      let (t, least) =
        find-least (matches provided) candidates r
          (get_candidates-IsSorted now rules before client_pk endpoint)
          (found_of_not_global first (get_global client_pk endpoint cache) r global_is_global
            (sym (rule-resolve_rule cache client_pk endpoint provided w) ∙ h) not_global) in
      (
        t,
        transfer (λ q. matches provided q ≡ true → Precedes r q)
            (All-map (λ q before m. sort_key_lt-Precedes r q (before m)) candidates least),
      )

  -- The global rule is used only where no candidate of the load has all of its types provided.
  pub resolve_rule-fallback :
      (r : Rule)
      → (resolve_rule (some (load_all now rules before)) client_pk endpoint provided w).rule
        ≡ some r
      → r.is_global ≡ true
      → All
          (λ q.
            is_candidate (client_pk, endpoint) q ≡ true → subset (engine_types q) provided ≡ false)
          rules
  resolve_rule-fallback r h is_global =
      transfer (λ q. matches provided q ≡ false)
        (find-none (matches provided) candidates (
          none_of_global first (get_global client_pk endpoint cache) r candidates_not_global
            (sym (rule-resolve_rule cache client_pk endpoint provided w) ∙ h) is_global))
