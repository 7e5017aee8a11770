-- ===== src/GroupService/KeepsDelete.antt =====
-- `delete_group` keeps the invariant of groups.
use distributed_rate_limiter.Errors.{rule_group_not_found}
use distributed_rate_limiter.GroupService.Base.{detached, release, plan_delete_group}
use distributed_rate_limiter.RuleService.{or_raise}
use distributed_rate_limiter.Store.{
  Db, GroupRow, RuleRow, Plan, in_group, get_group_by_id, list_by_group, remove_group,
}
use distributed_rate_limiter.Store.Governed.{OfGroup, GovernedBy, Governed, IsGoverned}
use distributed_rate_limiter.Store.Rows.{All-to}
use distributed_rate_limiter.Prelude.{
  String, ◌≡◌, refl, sym, ap, subst, inl, inr, Bool, true, false, not, Option, none, some, List, [],
  ◌∷◌, map, if◌then◌else◌, ◌==◌, nat_eq, string_eq, arith, beq_refl, Bool-cases, keep, contains,
  find, All, All-map, ok, >>=-eq-ok, ok-injective,
}

-- The ids of the rows that pass a test.
ids_of : (RuleRow → Bool) → List RuleRow → List String
ids_of p rs = map (λ (r : RuleRow). r.id) (keep p rs)

contains-ids_of :
    (p : RuleRow → Bool) (rs : List RuleRow)
    → All (λ r. p r ≡ true → contains (ids_of p rs) r.id ≡ true) rs
unfolding ids_of
contains-ids_of p [] = tt
contains-ids_of p (y ∷ rs) = (
  λ h. ground (arith, beq_refl y.id),
  All-map (λ r f h. ground (arith, f h)) rs (contains-ids_of p rs),
)

find-keep_other {ℓ} :
    {A : Type ℓ} (p q : A → Bool) (xs : List A)
    → ((x : A) → q x ≡ false → p x ≡ false)
    → find p (keep q xs) ≡ find p xs
find-keep_other p q [] other = refl
find-keep_other p q (x ∷ xs) other = elim (Bool-cases (q x)) [
  | inl t ↦ rw t (ap (λ o. if p x then some x else o) (find-keep_other p q xs other))
  | inr n ↦ rw (n, other x n) (find-keep_other p q xs other)
]

All-keep_if {ℓ κ} :
    {A : Type ℓ} (P : A → Type κ) (q : A → Bool) (xs : List A)
    → All (λ x. q x ≡ true → P x) xs
    → All P (keep q xs)
All-keep_if P q [] h = tt
All-keep_if P q (x ∷ xs) h = elim (Bool-cases (q x)) [
  | inl t ↦ rw t (h.0 t, All-keep_if P q xs h.1)
  | inr n ↦ rw n (All-keep_if P q xs h.1)
]

module _ (gid : String) (groups : List GroupRow) where
  abbrev others : List GroupRow
  others = keep (λ (g : GroupRow). not (g.id == gid)) groups

  -- A rule outside the group keeps its own group.
  outside-GovernedBy :
      (r : RuleRow) (o : Option String)
      → r.group_id ≡ o
      → in_group gid r ≡ false
      → GovernedBy groups o r
      → GovernedBy others o r
  outside-GovernedBy r none e n m = m
  outside-GovernedBy r (some k) e n m =
      let other : (k == gid) ≡ false = rw e at n in
      subst (λ o. OfGroup o r)
        (sym (
          find-keep_other (λ (g : GroupRow). g.id == k) (λ (g : GroupRow). not (g.id == gid)) groups
            (λ g same. ground (
              arith,
              string_eq.equals_iff g.id gid,
              string_eq.equals_iff g.id k,
              string_eq.equals_iff k gid,
            ))))
        m

  not_removed-Governed :
      (ids : List String) (r : RuleRow)
      → (in_group gid r ≡ true → contains ids r.id ≡ true)
      → contains ids r.id ≡ false
      → Governed groups r
      → Governed others r
  not_removed-Governed ids r listed n m =
      outside-GovernedBy r r.group_id refl (ground (arith, listed)) m

  release-Governed :
      (ids : List String) (r : RuleRow)
      → (in_group gid r ≡ true → contains ids r.id ≡ true)
      → Governed groups r
      → Governed others (if contains ids r.id then detached r else r)
  release-Governed ids r listed m = by_test (contains ids r.id) refl
    where
      by_test : (b : Bool) → contains ids r.id ≡ b → Governed others (if b then detached r else r)
      by_test true e = refl
      by_test false e = not_removed-Governed ids r listed e m

both-Governed :
    (gid : String) (groups : List GroupRow) (ids : List String) (rs : List RuleRow)
    → All (λ r. in_group gid r ≡ true → contains ids r.id ≡ true) rs
    → All (Governed groups) rs
    → All (λ r. (in_group gid r ≡ true → contains ids r.id ≡ true) × Governed groups r) rs
both-Governed gid groups ids [] h k = tt
both-Governed gid groups ids (r ∷ rs) h k = ((h.0, k.0), both-Governed gid groups ids rs h.1 k.1)

release-IsGoverned :
    (gid mode : String) (db : Db)
    → IsGoverned db
    → IsGoverned (remove_group gid (release mode (ids_of (in_group gid) db.rules) db))
unfolding remove_group release
release-IsGoverned gid mode db governed = elim (Bool-cases (mode == "delete")) [
  | inl t ↦ rw t (
      All-keep_if (Governed (others gid db.groups)) (λ r. not (contains ids r.id)) db.rules
        (All-map (λ r h n. not_removed-Governed gid db.groups ids r h.0 (ground (arith, n)) h.1)
          db.rules listed))
  | inr n ↦ rw n (
      All-to (Governed (others gid db.groups)) (λ r. if contains ids r.id then detached r else r)
        db.rules (All-map (λ r h. release-Governed gid db.groups ids r h.0 h.1) db.rules listed))
]
  where
    ids : List String
    ids = ids_of (in_group gid) db.rules

    listed :
        All
          (λ r. (in_group gid r ≡ true → contains ids r.id ≡ true) × Governed db.groups r)
          db.rules
    listed =
        both-Governed gid db.groups ids db.rules (contains-ids_of (in_group gid) db.rules) governed

-- An accepted deletion of a group, of either mode, keeps every rule governed.
pub delete_group-IsGoverned :
    (gid mode : String) (db : Db) (p : Plan (Unit {0}))
    → IsGoverned db
    → plan_delete_group gid mode db ≡ ok p
    → IsGoverned (p.writes db)
unfolding plan_delete_group list_by_group ids_of
delete_group-IsGoverned gid mode db p governed h =
    let (g, known, h₁) =
      >>=-eq-ok (or_raise (get_group_by_id gid db) (rule_group_not_found gid)) _ h in
    subst (λ (q : Plan (Unit {0})). IsGoverned (q.writes db)) (ok-injective h₁)
      (release-IsGoverned gid mode db governed)
