-- ===== src/Service/Warnings.antt =====
-- The warnings of `_resolve_rule`: once for each rule and set of missing types, in each generation.
use distributed_rate_limiter.Prelude.{
  ◌∙◌, ap, false, none, Option, arith, ◌+◌, some, String, ℕ, ◌≡◌, refl, inl, inr, true, List, [],
  ◌∷◌, Eq, ◌==◌, nat_eq, string_eq, pair_eq, beq_refl, Bool-cases, list_eq, contains,
}
use distributed_rate_limiter.RulesCache.{load_all, get_candidates, Cache, Rule, engine_types}
use distributed_rate_limiter.Service.{
  is_current, Warned, reset_if_new_generation, resolve_rule, Missing, missing, note, log_new, scan,
}
use distributed_rate_limiter.Identifier.{identifier_eq}
use distributed_rate_limiter.Identifier.Sets.{Types, subset}

abbrev missing_eq : Eq Missing
missing_eq = pair_eq

abbrev Holds : List Missing → Missing → Type 0
Holds ws m = contains ws m ≡ true

note-grows : (n m : Missing) (ws : List Missing) → Holds ws m → Holds (note n ws) m
unfolding note
note-grows n m ws h = elim (Bool-cases (contains ws n)) [
  | inl e ↦ rw e h
  | inr e ↦ rw e (elim (Bool-cases (n == m)) [ inl t ↦ rw t | inr f ↦ rw f h ])
]

note-Holds : (n : Missing) (ws : List Missing) → Holds (note n ws) n
unfolding note
note-Holds n ws = elim (Bool-cases (contains ws n)) [
  | inl e ↦ rw e e
  | inr e ↦ rw e (rw (beq_refl n))
]

scan_grows :
    (provided : Types) (rs : List Rule) (ws : List Missing) (m : Missing)
    → Holds ws m
    → Holds (scan provided rs ws).warned m
unfolding scan
scan_grows provided [] ws m h = h
scan_grows provided (r ∷ rs) ws m h = elim (Bool-cases (subset (engine_types r) provided)) [
  | inl e ↦ rw e h
  | inr e ↦ rw e (
      scan_grows provided rs (note (missing provided r) ws) m
        (note-grows (missing provided r) m ws h))
]

-- Where all that a scan noted is known, a scan logs nothing.
scan_quiet :
    (provided : Types) (rs : List Rule) (ws known : List Missing)
    → ((m : Missing) → Holds (scan provided rs ws).warned m → Holds known m)
    → (scan provided rs known).logged ≡ []
unfolding scan note log_new
scan_quiet provided [] ws known h = refl
scan_quiet provided (r ∷ rs) ws known h = elim (Bool-cases (subset (engine_types r) provided)) [
  | inl e ↦ rw e
  | inr e ↦
      let m = missing provided r in
      let rest : (k : Missing) → Holds (scan provided rs (note m ws)).warned k → Holds known k =
        λ k. rw e at (h k) in
      let here : Holds known m = rest m (scan_grows provided rs (note m ws) m (note-Holds m ws)) in
      rw (e, here) (scan_quiet provided rs (note m ws) known rest)
]

reset_is_current :
    (g : ℕ) (w : Warned) → is_current g (reset_if_new_generation g w).generation ≡ true
unfolding reset_if_new_generation
reset_is_current g w = elim (Bool-cases (is_current g w.generation)) [
  | inl e ↦ simp e
  | inr e ↦ simp e (beq_refl g)
]

reset_of_current :
    (g : ℕ) (w : Warned) → is_current g w.generation ≡ true → reset_if_new_generation g w ≡ w
unfolding reset_if_new_generation
reset_of_current g w h = simp h

-- A request that is repeated before the next load logs no warning: what was to be warned of was
-- logged the first time or before, and is remembered.
pub resolve_rule-quiet :
    (c : Cache) (client_pk endpoint : String) (provided : Types) (w : Warned)
    → (resolve_rule
        (some c)
        client_pk
        endpoint
        provided
        (resolve_rule (some c) client_pk endpoint provided w).warned).logged
      ≡ []
unfolding resolve_rule
resolve_rule-quiet c client_pk endpoint provided w =
    let rs = get_candidates client_pk endpoint c in
    let w' = reset_if_new_generation c.generation w in
    let after : Warned = record w' { pairs = (scan provided rs w'.pairs).warned } in
    let same = reset_of_current c.generation after (reset_is_current c.generation w) in
    ap (λ (v : Warned). (scan provided rs v.pairs).logged) same
    ∙ scan_quiet provided rs w'.pairs after.pairs (λ m h. h)

-- The state of the warnings at the start of a service.
abbrev pub unwarned : Warned
unwarned = record { pairs = []; generation = none }

-- A service that has seen this cache last has not seen the one that a load makes of it.
not_current_after :
    (now : ℕ) (rules : List Rule) (c : Cache) (w : Warned)
    → is_current
        (load_all now rules c).generation
        (reset_if_new_generation c.generation w).generation
      ≡ false
unfolding load_all reset_if_new_generation
not_current_after now rules c w = elim (Bool-cases (is_current c.generation w.generation)) [
  | inl e ↦ rw e (by_generation w.generation e)
  | inr e ↦ rw e (ground (arith, nat_eq.equals_iff (c.generation + 1) c.generation))
]
  where
    by_generation :
        (g : Option ℕ) → is_current c.generation g ≡ true → is_current (c.generation + 1) g ≡ false
    by_generation none h = refl
    by_generation (some n) h =
        ground (arith, nat_eq.equals_iff c.generation n, nat_eq.equals_iff (c.generation + 1) n)

-- The warnings start afresh with every load: after a request to a cache, whatever had been warned of, and
-- then a load, a request logs the same warnings as it does in a service that has served no request yet.
pub resolve_rule-fresh :
    (now : ℕ) (rules : List Rule) (c : Cache) (client_pk endpoint : String) (provided : Types)
    (w : Warned) (later_pk later_endpoint : String) (later_provided : Types)
    → (resolve_rule
        (some (load_all now rules c))
        later_pk
        later_endpoint
        later_provided
        (resolve_rule (some c) client_pk endpoint provided w).warned).logged
      ≡ (resolve_rule
          (some (load_all now rules c))
          later_pk
          later_endpoint
          later_provided
          unwarned).logged
unfolding resolve_rule reset_if_new_generation
resolve_rule-fresh now rules c client_pk endpoint provided w later_pk later_endpoint
      later_provided =
    rw (not_current_after now rules c w) refl
