-- ===== src/Store/Scopes.antt =====
-- What a write to one rule leaves of the constraints.
use distributed_rate_limiter.Store.Unique.{some_eq, NoClash, unique_by-set_row}
use distributed_rate_limiter.Store.{
  Db, RuleRow, is_active, is_other, holds_scope, same_id, same_scope, unique_by, set_where,
  group_exists, find_active_conflict, Collation, is_consistent, get_rule_by_id, set_rule,
}
use distributed_rate_limiter.Store.Rows.{All-units, of_find, not_any, All-set_row}
use distributed_rate_limiter.Prelude.{
  String, ◌≡◌, refl, sym, ◌∙◌, subst, inl, inr, Bool, true, false, not, ◌&&◌, none, some, List, [],
  ◌∷◌, ◌==◌, nat_eq, string_eq, arith, Bool-cases, all, find, All, All-map,
}

-- Without an active conflict a row of the scope clashes with no other.
pub no_conflict-NoClash :
    (new : RuleRow) (id : String) (db : Db)
    → find_active_conflict new.client_id new.endpoint new.identifier_signature (some id) db ≡ none
    → All (NoClash same_scope new id) db.rules
unfolding find_active_conflict
no_conflict-NoClash new id db h =
    All-map (λ s free other. clash_free s free other) db.rules (not_any _ db.rules h)
  where
    clash_free :
        (s : RuleRow)
        → (holds_scope new.client_id new.endpoint new.identifier_signature s
            && is_other (some id) s.id)
          ≡ false
        → NoClash same_scope new id s
    clash_free s free other =
        let held : holds_scope new.client_id new.endpoint new.identifier_signature s ≡ false =
          ground arith in
        (
          ground arith,
          ground (
            arith,
            string_eq.equals_iff new.client_id s.client_id,
            string_eq.equals_iff s.client_id new.client_id,
            string_eq.equals_iff new.endpoint s.endpoint,
            string_eq.equals_iff s.endpoint new.endpoint,
            string_eq.equals_iff new.identifier_signature s.identifier_signature,
            string_eq.equals_iff s.identifier_signature new.identifier_signature,
          ),
        )

-- Nor does a row that is not active.
pub inactive-NoClash :
    (new : RuleRow) (id : String) (rs : List RuleRow)
    → is_active new ≡ false
    → All (NoClash same_scope new id) rs
inactive-NoClash new id [] h = tt
inactive-NoClash new id (s ∷ rs) h =
    (λ other. (ground arith, ground arith), inactive-NoClash new id rs h)

-- A row of a table without clashes clashes with no other.
pub unique-NoClash :
    (id : String) (rs : List RuleRow) (r : RuleRow)
    → unique_by same_scope rs ≡ true
    → find (λ s. s.id == id) rs ≡ some r
    → All (NoClash same_scope r id) rs
unique-NoClash id [] r u e = tt
unique-NoClash id (x ∷ rs) r u e = elim (Bool-cases (x.id == id)) [
  | inl t ↦
      let same : x ≡ r = some_eq (rw t at e) in
      subst (λ k. All (NoClash same_scope k id) (x ∷ rs)) same
        (λ other. absurd (let bad : true ≡ false = sym t ∙ other in cc), apart x rs (ground arith))
  | inr n ↦ (
    λ other. both x r (other_apart x rs r (ground arith) (rw n at e)),
    unique-NoClash id rs r (ground arith) (rw n at e),
  )
]
  where
    both :
        (x r : RuleRow)
        → same_scope x r ≡ false
        → (same_scope r x ≡ false) × (same_scope x r ≡ false)
    both x r h = (
      ground (
        arith,
        h,
        string_eq.equals_iff x.client_id r.client_id,
        string_eq.equals_iff r.client_id x.client_id,
        string_eq.equals_iff x.endpoint r.endpoint,
        string_eq.equals_iff r.endpoint x.endpoint,
        string_eq.equals_iff x.identifier_signature r.identifier_signature,
        string_eq.equals_iff r.identifier_signature x.identifier_signature,
      ),
      h,
    )

    apart :
        (x : RuleRow) (ys : List RuleRow)
        → all (λ y. not (same_scope x y)) ys ≡ true
        → All (NoClash same_scope x id) ys
    apart x [] h = tt
    apart x (y ∷ ys) h =
        let n : same_scope x y ≡ false = ground arith in
        (λ other. (n, (both x y n).0), apart x ys (ground arith))

    other_apart :
        (x : RuleRow) (ys : List RuleRow) (r : RuleRow)
        → all (λ y. not (same_scope x y)) ys ≡ true
        → find (λ s. s.id == id) ys ≡ some r
        → same_scope x r ≡ false
    other_apart x [] r h e = cc
    other_apart x (y ∷ ys) r h e = elim (Bool-cases (y.id == id)) [
      | inl t ↦
          let same : y ≡ r = some_eq (rw t at e) in
          subst (λ k. same_scope x k ≡ false) same (ground arith)
      | inr n ↦ other_apart x ys r (ground arith) (rw n at e)
    ]

of_all {ℓ} : {A : Type ℓ} (q : A → Bool) (xs : List A) → all q xs ≡ true → All (λ x. q x ≡ true) xs
of_all q [] h = tt
of_all q (x ∷ xs) h = (ground arith, of_all q xs (ground arith))

to_all {ℓ} : {A : Type ℓ} (q : A → Bool) (xs : List A) → All (λ x. q x ≡ true) xs → all q xs ≡ true
to_all q [] h = refl
to_all q (x ∷ xs) h = rw h.0 (to_all q xs h.1)

pub found-group_exists :
    (id : String) (db : Db) (r : RuleRow)
    → all (group_exists db.groups) db.rules ≡ true
    → find (λ s. s.id == id) db.rules ≡ some r
    → group_exists db.groups r ≡ true
found-group_exists id db r h e =
    (of_find (λ s. group_exists db.groups s ≡ true) (λ (s : RuleRow). s.id == id) db.rules r
      (of_all (group_exists db.groups) db.rules h) e).0

-- A write to one rule leaves the tables consistent, if the new row has the same id, a group that exists, and
-- no clash of its scope.
pub set_rule-is_consistent :
    (col : Collation) (id : String) (f : RuleRow → RuleRow) (db : Db) (r : RuleRow)
    → is_consistent col db ≡ true
    → get_rule_by_id id db ≡ some r
    → (f r).id ≡ r.id
    → All (NoClash same_scope (f r) id) db.rules
    → group_exists db.groups (f r) ≡ true
    → is_consistent col (set_rule id f db) ≡ true
unfolding is_consistent get_rule_by_id set_rule
set_rule-is_consistent col id f db r h e keeps free exists =
    let ids : unique_by same_id db.rules ≡ true = ground arith in
    let ids_after = unique_by-set_row same_id f id db.rules r ids e (no_same_id db.rules) ids in
    let scopes_after = unique_by-set_row same_scope f id db.rules r ids e free (ground arith) in
    let groups_after = to_all (group_exists db.groups) (set_where (λ s. s.id == id) f db.rules) (
      All-set_row (λ s. group_exists db.groups s ≡ true) f id db.rules r ids e
        (of_all (group_exists db.groups) db.rules (ground arith)) exists) in
    rw (ids_after, scopes_after, groups_after) (ground (arith, h))
  where
    own_id : (r.id == id) ≡ true
    own_id =
        (of_find (λ _. Unit {0}) (λ (s : RuleRow). s.id == id) db.rules r (All-units db.rules) e).1

    no_same_id : (rs : List RuleRow) → All (NoClash same_id (f r) id) rs
    no_same_id [] = tt
    no_same_id (s ∷ rs) = (
      λ other. (
        rw keeps (
            ground (
              arith,
              own_id,
              other,
              string_eq.equals_iff r.id s.id,
              string_eq.equals_iff r.id id,
              string_eq.equals_iff s.id id,
            )),
        rw keeps (
            ground (
              arith,
              own_id,
              other,
              string_eq.equals_iff s.id r.id,
              string_eq.equals_iff r.id id,
              string_eq.equals_iff s.id id,
            )),
      ),
      no_same_id rs,
    )
