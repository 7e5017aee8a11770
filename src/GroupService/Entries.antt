-- ===== src/GroupService/Entries.antt =====
-- What the loop of `update_group` computes for each member, and what is written by it.
use distributed_rate_limiter.GroupService.{GroupUpdate}
use distributed_rate_limiter.GroupService.Base.{
  Recomputed, recompute, assign_member, write_new, write_member,
}
use distributed_rate_limiter.Params.{Params, Runtime}
use distributed_rate_limiter.Params.Merge.{validate_overrides-Merged}
use distributed_rate_limiter.Params.Overrides.{
  compute_effective_params, validate_overrides_or_raise,
}
use distributed_rate_limiter.RuleService.{or_else}
use distributed_rate_limiter.Store.{RuleRow, same_id, in_group, unique_by}
use distributed_rate_limiter.Prelude.Dict
use distributed_rate_limiter.Prelude.Dict.{Dict}
use distributed_rate_limiter.Prelude.{
  ◌+◌, String, ◌≡◌, refl, sym, ap, ◌∙◌, Bool, true, false, not, none, some, List, [], ◌∷◌, map,
  if◌then◌else◌, nat_eq, string_eq, arith, beq_refl, keep, all, All, ok, >>=-eq-ok, ok-injective,
}

-- What the loop over the members computes for one of them.
abbrev pub recomputed_of : Params → RuleRow → Recomputed
recomputed_of params m = (compute_effective_params params (or_else m.overrides []), m.version + 1)

pub recompute-entries :
    (rt : Runtime) (algorithm : String) (params : Params) (members : List RuleRow)
    (d : Dict String Recomputed)
    → recompute rt algorithm params members ≡ ok d
    → d ≡ map (λ m. (m.id, recomputed_of params m)) members
unfolding recompute
recompute-entries rt algorithm params [] d h = sym (ok-injective h)
recompute-entries rt algorithm params (m ∷ members) d h =
    let own = or_else m.overrides [] in
    let (merged, valid, h₁) = >>=-eq-ok (validate_overrides_or_raise rt algorithm params own) _ h in
    let (rest, looped, h₂) = >>=-eq-ok (recompute rt algorithm params members) _ h₁ in
    let effective = (validate_overrides-Merged rt algorithm params own merged valid).effective in
    let ih = recompute-entries rt algorithm params members rest looped in
    sym (ok-injective h₂) ∙ (λ i. (m.id, (effective i, m.version + 1)) ∷ ih i)

module _ {V : Type 0} (f : RuleRow → V) (p : RuleRow → Bool) where
  abbrev entries : List RuleRow → Dict String V
  entries rs = map (λ (r : RuleRow). (r.id, f r)) (keep p rs)

  get-none :
      (x : RuleRow) (rs : List RuleRow)
      → all (λ y. not (same_id x y)) rs ≡ true
      → Dict.get x.id (entries rs) ≡ none
  unfolding Dict.get
  get-none x [] h = refl
  get-none x (y ∷ rs) h =
      ground (arith, string_eq.equals_iff x.id y.id, string_eq.equals_iff y.id x.id, get-none x rs)

  -- The entry of each row under its id.
  pub get-entries :
      (rs : List RuleRow)
      → unique_by same_id rs ≡ true
      → All (λ r. Dict.get r.id (entries rs) ≡ (if p r then some (f r) else none)) rs
  unfolding Dict.get
  get-entries [] h = tt
  get-entries (x ∷ rs) h = (
    ground (arith, beq_refl x.id, get-none x rs),
    skip rs (get-entries rs (ground arith)) (ground arith),
  )
    where
      skip :
          (ys : List RuleRow)
          → All (λ r. Dict.get r.id (entries rs) ≡ (if p r then some (f r) else none)) ys
          → all (λ y. not (same_id x y)) ys ≡ true
          → All (λ r. Dict.get r.id (entries (x ∷ rs)) ≡ (if p r then some (f r) else none)) ys
      skip [] g u = tt
      skip (y ∷ ys) g u = (ground (arith, g.0), skip ys g.1 (ground arith))

-- A row after an accepted `update_group`.
abbrev pub updated_rule : GroupUpdate → Params → String → RuleRow → RuleRow
updated_rule request params gid r =
    if in_group gid r then assign_member request (recomputed_of params r) r else r

pub updated_in :
    (request : GroupUpdate) (params : Params) (gid : String) (r : RuleRow)
    → in_group gid r ≡ true
    → updated_rule request params gid r ≡ assign_member request (recomputed_of params r) r
updated_in request params gid r t =
    ap (λ b. if b then assign_member request (recomputed_of params r) r else r) t

pub updated_out :
    (request : GroupUpdate) (params : Params) (gid : String) (r : RuleRow)
    → in_group gid r ≡ false
    → updated_rule request params gid r ≡ r
updated_out request params gid r n =
    ap (λ b. if b then assign_member request (recomputed_of params r) r else r) n

pub write_member-entries :
    (request : GroupUpdate) (params : Params) (gid : String) (r : RuleRow)
    (d : Dict String Recomputed)
    → Dict.get r.id d ≡ (if in_group gid r then some (recomputed_of params r) else none)
    → write_member request d r ≡ updated_rule request params gid r
unfolding write_member
write_member-entries request params gid r d h =
    ap (λ o. write_new request o r) h ∙ by_test (in_group gid r)
  where
    by_test :
        (b : Bool)
        → write_new request (if b then some (recomputed_of params r) else none) r
          ≡ (if b then assign_member request (recomputed_of params r) r else r)
    by_test true = refl
    by_test false = refl
