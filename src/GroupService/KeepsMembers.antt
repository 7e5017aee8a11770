-- ===== src/GroupService/KeepsMembers.antt =====
-- `create_group` and `add_members` keep the invariant of groups.
use distributed_rate_limiter.Errors.{
  Conflict, algorithm_not_found, group_name_conflict, rule_group_not_found,
}
use distributed_rate_limiter.GroupService.{
  MemberInput, GroupCreate, Prepared, check_endpoints, sort_out, prepare, member_rules,
}
use distributed_rate_limiter.GroupService.Create.{new_group, plan_members, plan_create_group}
use distributed_rate_limiter.GroupService.Members.{find_members, plan_add_members}
use distributed_rate_limiter.Params.{Params, Runtime}
use distributed_rate_limiter.Params.Merge.{validate_overrides-Merged}
use distributed_rate_limiter.Params.Overrides.{
  compute_effective_params, validate_overrides_or_raise,
}
use distributed_rate_limiter.RuleService.{
  or_raise, algorithm_of, resolve_client_or_raise, normalized_identifier_types,
}
use distributed_rate_limiter.RuleService.Plans.{or_raise-eq-ok}
use distributed_rate_limiter.Store.{
  Db, GroupRow, RuleRow, Collation, Plan, unique_by, get_group_by_id, get_algorithm_by_id,
  find_active_conflict, add_group, is_consistent, is_some, get_by_name_ci,
}
use distributed_rate_limiter.Store.Governed.{GovernedBy, OfGroup, Governed, IsGoverned}
use distributed_rate_limiter.Store.Rows.{find_own, All-append}
use distributed_rate_limiter.Prelude.{
  ℕ, ◌+◌, String, ◌≡◌, refl, sym, ap, subst, Bool, true, false, not, Option, none, some, List, [],
  ◌∷◌, ◌++◌, arith, ◌==◌, nat_eq, string_eq, beq_refl, find, all, ok, >>=-eq-ok, ok-injective,
  raise_if, All, All-map,
}

abbrev pub MergedOn : Params → Prepared → Type 0
MergedOn params p = p.merged ≡ compute_effective_params params p.overrides

pub prepare-MergedOn :
    (rt : Runtime) (algorithm : String) (params : Params) (client_pk signature : String)
    (members : List MemberInput) (db : Db) (conflicts : List Conflict) (prepared : List Prepared)
    → prepare rt algorithm params client_pk signature members db ≡ ok (conflicts, prepared)
    → All (MergedOn params) prepared
unfolding prepare
prepare-MergedOn rt algorithm params client_pk signature [] db conflicts prepared h =
    subst (All (MergedOn params)) (ap (λ q. q.1) (ok-injective h)) tt
prepare-MergedOn rt algorithm params client_pk signature (m ∷ members) db conflicts prepared h =
    let (merged, valid, h₁) =
      >>=-eq-ok (validate_overrides_or_raise rt algorithm params m.overrides) _ h in
    let (rest, looped, h₂) =
      >>=-eq-ok (prepare rt algorithm params client_pk signature members db) _ h₁ in
    let ih =
      prepare-MergedOn rt algorithm params client_pk signature members db rest.0 rest.1 looped in
    let effective =
      (validate_overrides-Merged rt algorithm params m.overrides merged valid).effective in
    subst (All (MergedOn params)) (ap (λ q. q.1) (ok-injective h₂)) (
      sorted_out (find_active_conflict client_pk m.endpoint signature none db) rest.0 rest.1 ih
        effective)
  where
    sorted_out :
        (o : Option RuleRow) (cs : List Conflict) (ps : List Prepared)
        → All (MergedOn params) ps
        → {merged : Params} → merged ≡ compute_effective_params params m.overrides
        → All (MergedOn params) (sort_out m merged o (cs, ps)).1
    sorted_out none cs ps ih e = (e, ih)
    sorted_out (some r) cs ps ih e = ih

-- The rules of new members are members of their group, wherever that is found.
pub member_rules-Governed :
    (groups : List GroupRow) (g : GroupRow) (new_ids : ℕ → String) (n : ℕ)
    (prepared : List Prepared)
    → find (λ k. k.id == g.id) groups ≡ some g
    → All (MergedOn g.params) prepared
    → All (Governed groups) (member_rules g new_ids n prepared)
unfolding member_rules
member_rules-Governed groups g new_ids n [] found h = tt
member_rules-Governed groups g new_ids n (p ∷ prepared) found h = (
  rw found (record {
    client = refl;
    algorithm = refl;
    types = refl;
    signature = refl;
    priority = refl;
    own = p.overrides;
    has_own = refl;
    merged = h.0;
  }),
  member_rules-Governed groups g new_ids (n + 1) prepared found h.1,
)

pub find_new :
    (gs : List GroupRow) (g : GroupRow)
    → unique_by (λ (h k : GroupRow). h.id == k.id) (gs ++ g ∷ []) ≡ true
    → find (λ k. k.id == g.id) (gs ++ g ∷ []) ≡ some g
find_new [] g u = rw (beq_refl g.id)
find_new (x ∷ gs) g u = ground (arith, find_new gs g, other x gs (ground arith))
  where
    other :
        (x : GroupRow) (gs : List GroupRow)
        → all (λ k. not (x.id == k.id)) (gs ++ g ∷ []) ≡ true
        → (x.id == g.id) ≡ false
    other x [] h = ground arith
    other x (y ∷ gs) h = other x gs (ground arith)

find-append_found {ℓ} :
    {A : Type ℓ} (p : A → Bool) (xs ys : List A) (a : A)
    → find p xs ≡ some a
    → find p (xs ++ ys) ≡ some a
find-append_found p [] ys a h = cc
find-append_found p (x ∷ xs) ys a h = ground (arith, find-append_found p xs ys a)

-- A new group leaves the rules of the others governed.
pub Governed-add_group :
    (groups : List GroupRow) (g : GroupRow) (r : RuleRow)
    → Governed groups r
    → Governed (groups ++ g ∷ []) r
Governed-add_group groups g r h = by_id r.group_id h
  where
    by_found :
        (gid : String) (o : Option GroupRow)
        → find (λ k. k.id == gid) groups ≡ o
        → OfGroup o r
        → OfGroup (find (λ k. k.id == gid) (groups ++ g ∷ [])) r
    by_found gid none e m = absurd m
    by_found gid (some k) e m =
        rw (find-append_found (λ (k : GroupRow). k.id == gid) groups (g ∷ []) k e) m

    by_id : (o : Option String) → GovernedBy groups o r → GovernedBy (groups ++ g ∷ []) o r
    by_id none m = m
    by_id (some gid) m = by_found gid (find (λ k. k.id == gid) groups) refl m

plan_members-IsGoverned :
    (col : Collation) (g : GroupRow) (new_ids : ℕ → String) (conflicts : List Conflict)
    (prepared : List Prepared) (db : Db) (p : Plan GroupRow)
    → IsGoverned db
    → All (MergedOn g.params) prepared
    → plan_members col g new_ids (conflicts, prepared) ≡ ok p
    → is_consistent col (p.writes db) ≡ true
    → IsGoverned (p.writes db)
unfolding plan_members add_group is_consistent
plan_members-IsGoverned col g new_ids (c ∷ conflicts) prepared db p governed merged h valid = cc
plan_members-IsGoverned col g new_ids [] prepared db p governed merged h valid =
    let same = sym (ok-injective h) in
    let consistent =
      subst (λ (q : Plan GroupRow). is_consistent col (q.writes db) ≡ true) same valid in
    let groups = db.groups ++ g ∷ [] in
    subst (λ (q : Plan GroupRow). IsGoverned (q.writes db)) (ok-injective h)
      (All-append (Governed groups) db.rules (member_rules g new_ids 0 prepared)
        (All-map (Governed-add_group db.groups g) db.rules governed)
        (member_rules-Governed groups g new_ids 0 prepared (find_new db.groups g (ground arith))
          merged))

-- An accepted new group, committed, keeps every rule governed.
pub create_group-IsGoverned :
    (rt : Runtime) (col : Collation) (new_id : String) (new_ids : ℕ → String)
    (request : GroupCreate) (db : Db) (p : Plan GroupRow)
    → IsGoverned db
    → plan_create_group rt col new_id new_ids request db ≡ ok p
    → is_consistent col (p.writes db) ≡ true
    → IsGoverned (p.writes db)
unfolding plan_create_group
create_group-IsGoverned rt col new_id new_ids request db p governed h valid =
    let (client, known, h₁) = >>=-eq-ok (resolve_client_or_raise request.client_id db) _ h in
    let (algorithm, loaded, h₂) =
      >>=-eq-ok
        (or_raise (get_algorithm_by_id request.algorithm_id db)
          (algorithm_not_found request.algorithm_id))
        _ h₁ in
    let (types, normal, h₃) =
      >>=-eq-ok (normalized_identifier_types request.identifier_types) _ h₂ in
    let (base, valid_base, h₄) =
      >>=-eq-ok (validate_overrides_or_raise rt algorithm.name request.params []) _ h₃ in
    let (u, free, h₅) =
      >>=-eq-ok
        (raise_if (is_some (get_by_name_ci col client.id request.name none db))
          (group_name_conflict request.name))
        _ h₄ in
    let (v, distinct, h₆) = >>=-eq-ok (check_endpoints request.members []) _ h₅ in
    let (found, prepared, h₇) =
      >>=-eq-ok (prepare rt algorithm.name request.params client.id types.1 request.members db) _
        h₆ in
    plan_members-IsGoverned col (new_group new_id client.id types.0 types.1 request) new_ids found.0
      found.1 db p governed
      (prepare-MergedOn rt algorithm.name request.params client.id types.1 request.members db
        found.0 found.1 prepared)
      h₇ valid

-- New members keep every rule governed.
pub add_members-IsGoverned :
    (rt : Runtime) (new_ids : ℕ → String) (gid : String) (members : List MemberInput) (db : Db)
    (g : GroupRow) (conflicts : List Conflict) (prepared : List Prepared)
    → IsGoverned db
    → find_members rt gid members db ≡ ok (g, (conflicts, prepared))
    → IsGoverned ((plan_add_members g new_ids prepared).writes db)
unfolding find_members plan_add_members get_group_by_id
add_members-IsGoverned rt new_ids gid members db g conflicts prepared governed h =
    let (k, found, h₁) =
      >>=-eq-ok (or_raise (get_group_by_id gid db) (rule_group_not_found gid)) _ h in
    let (u, distinct, h₂) = >>=-eq-ok (check_endpoints members []) _ h₁ in
    let (algorithm, loaded, h₃) = >>=-eq-ok (algorithm_of k db) _ h₂ in
    let (out, looped, h₄) =
      >>=-eq-ok (prepare rt algorithm.name k.params k.client_id k.identifier_signature members db) _
        h₃ in
    let pair = ok-injective h₄ in
    let merged =
      prepare-MergedOn rt algorithm.name k.params k.client_id k.identifier_signature members db
        out.0 out.1 looped in
    let at_group = or_raise-eq-ok _ _ found in
    subst
      (λ (q : GroupRow × (List Conflict × List Prepared)).
        IsGoverned ((plan_add_members q.0 new_ids q.1.1).writes db))
      pair
      (All-append (Governed db.groups) db.rules (member_rules k new_ids 0 out.1) governed (
        member_rules-Governed db.groups k new_ids 0 out.1 (find_own db.groups gid k at_group)
          merged))
