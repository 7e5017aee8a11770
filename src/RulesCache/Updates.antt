-- ===== src/RulesCache/Updates.antt =====
-- `upsert` and `remove`, and the invariant on which they rest: the dict is keyed by the rules' ids.
use distributed_rate_limiter.Prelude.Dict
use distributed_rate_limiter.Prelude.Dict.{Dict, values, get-insert, get-remove}
use distributed_rate_limiter.RulesCache
use distributed_rate_limiter.RulesCache.{Rule, Cache, add_by_id, load_all, upsert}
use distributed_rate_limiter.RulesCache.Index.{get-load_all}
use distributed_rate_limiter.Prelude.{
  ℕ, String, ◌≡◌, refl, ◌∙◌, inl, inr, none, some, List, [], ◌∷◌, arith, if◌then◌else◌, ◌==◌,
  nat_eq, string_eq, pair_eq, Bool-cases, find_last,
}

-- Each rule stands under its own id, and no id stands twice.
abbrev pub IsKeyed : Dict String Rule → Type 0
IsKeyed [] = Unit
IsKeyed ((k, r) ∷ d) = (k ≡ r.id) × (Dict.get k d ≡ none) × IsKeyed d

insert-IsKeyed : (r : Rule) (d : Dict String Rule) → IsKeyed d → IsKeyed (Dict.insert r.id r d)
unfolding Dict.insert
insert-IsKeyed r [] h = (refl, unfold Dict.get in refl, tt)
insert-IsKeyed r ((k, s) ∷ d) h = elim (Bool-cases (k == r.id)) [
  | inl e ↦ rw e ((string_eq.equals_iff k r.id).0 e, h.1, h.2)
  | inr e ↦ rw e (
    h.0,
    get-insert r.id k r d
        ∙ ground (arith, h.1, string_eq.equals_iff k r.id, string_eq.equals_iff r.id k),
    insert-IsKeyed r d h.2,
  )
]

remove-IsKeyed : (id : String) (d : Dict String Rule) → IsKeyed d → IsKeyed (Dict.remove id d)
unfolding Dict.remove
remove-IsKeyed id [] h = tt
remove-IsKeyed id ((k, s) ∷ d) h = elim (Bool-cases (k == id)) [
  | inl e ↦ rw e (remove-IsKeyed id d h.2)
  | inr e ↦ rw e (h.0, get-remove id k d ∙ ground (arith, h.1), remove-IsKeyed id d h.2)
]

add_by_id-IsKeyed :
    (rules : List Rule) (d : Dict String Rule) → IsKeyed d → IsKeyed (add_by_id rules d)
unfolding add_by_id
add_by_id-IsKeyed [] d h = h
add_by_id-IsKeyed (r ∷ rules) d h =
    add_by_id-IsKeyed rules (Dict.insert r.id r d) (insert-IsKeyed r d h)

-- After any load each rule stands in the cache under its own id, once.
pub load_all-IsKeyed :
    (now : ℕ) (rules : List Rule) (c : Cache) → IsKeyed (load_all now rules c).rules_by_id
unfolding load_all
load_all-IsKeyed now rules c = add_by_id-IsKeyed rules [] tt

find_last-values :
    (id : String) (d : Dict String Rule)
    → IsKeyed d
    → find_last (λ r. r.id == id) (values d) ≡ Dict.get id d
unfolding Dict.get
find_last-values id [] h = refl
find_last-values id ((k, r) ∷ d) h =
    ground
      (arith, find_last-values id d h.2, string_eq.equals_iff r.id id, string_eq.equals_iff k id)

-- After `upsert` the rule is found under its id, and every other id gives what it gave before.
pub get-upsert :
    (now : ℕ) (r : Rule) (c : Cache) (id : String)
    → IsKeyed c.rules_by_id
    → RulesCache.get id (upsert now r c) ≡ (if r.id == id then some r else RulesCache.get id c)
unfolding upsert RulesCache.get
get-upsert now r c id h =
    get-load_all now (values (Dict.insert r.id r c.rules_by_id)) c id
    ∙ find_last-values id (Dict.insert r.id r c.rules_by_id) (insert-IsKeyed r c.rules_by_id h)
    ∙ get-insert r.id id r c.rules_by_id

-- After `remove` nothing is found under the id, and every other id gives what it gave before.
pub get-remove_rule :
    (now : ℕ) (removed : String) (c : Cache) (id : String)
    → IsKeyed c.rules_by_id
    → RulesCache.get id (RulesCache.remove now removed c)
      ≡ (if removed == id then none else RulesCache.get id c)
unfolding RulesCache.remove RulesCache.get
get-remove_rule now removed c id h =
    get-load_all now (values (Dict.remove removed c.rules_by_id)) c id
    ∙ find_last-values id (Dict.remove removed c.rules_by_id)
        (remove-IsKeyed removed c.rules_by_id h)
    ∙ get-remove removed id c.rules_by_id
