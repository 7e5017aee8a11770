-- ===== src/Identifier/Sets.antt =====
-- `frozenset` of identifier types: kept in the order of the enum, so that equal sets are equal lists.
use distributed_rate_limiter.Identifier.{IdentifierType, client_id, members, identifier_eq}
use distributed_rate_limiter.Prelude.{
  contains-keep, of_all-contains, ◌≡◌, refl, Bool, true, not, List, keep, all, contains,
}

abbrev pub Types : Type 0
Types = List IdentifierType

-- `frozenset(xs)`
unfoldable pub frozenset : List IdentifierType → Types
frozenset xs = keep (contains xs) members

-- `a <= b`
unfoldable pub subset : Types → Types → Bool
subset a b = all (contains b) a

-- `a - b`
unfoldable pub difference : Types → Types → Types
difference a b = keep (λ t. not (contains b t)) a

contains-members : (t : IdentifierType) → contains members t ≡ true
contains-members client_id = refl
contains-members _ = refl

-- A set holds what the list that it was made from holds.
pub contains-frozenset :
    (xs : List IdentifierType) (t : IdentifierType) → contains (frozenset xs) t ≡ contains xs t
unfolding frozenset
contains-frozenset xs t = rw (contains-keep, contains-members)

pub contains-subset :
    (a b : Types) (t : IdentifierType)
    → subset a b ≡ true
    → contains a t ≡ true
    → contains b t ≡ true
unfolding subset
contains-subset a b t h k = of_all-contains (contains b) a t h k
