-- ===== src/GroupService/AllOrNothing.antt =====
-- `add_members` writes every member or none.
use distributed_rate_limiter.Errors.{Error, PyError, uncaught, Conflict, rule_group_not_found}
use distributed_rate_limiter.GroupService.{
  MemberInput, Prepared, check_endpoints, sort_out, prepare, member_rules, add_rules,
}
use distributed_rate_limiter.GroupService.Members.{
  AddMembersResponse, diff_entry, plan_add_members, write_members, find_members, add_members,
}
use distributed_rate_limiter.Params.{Params, Runtime}
use distributed_rate_limiter.Params.Overrides.{validate_overrides_or_raise}
use distributed_rate_limiter.RuleService.{or_raise, algorithm_of}
use distributed_rate_limiter.Store.{
  Db, GroupRow, RuleRow, Collation, is_consistent, is_storable, find_active_conflict,
  get_group_by_id, run, commit,
}
use distributed_rate_limiter.Prelude.{
  ℕ, ◌+◌, String, ◌≡◌, refl, sym, ap, ◌∙◌, Bool, true, false, not, Option, none, some, List, [],
  ◌∷◌, ◌++◌, map, if◌then◌else◌, Result, ok, raise, >>=-eq-ok, ok-injective,
}

-- Without a conflict every member is prepared.
prepare-all :
    (rt : Runtime) (algorithm : String) (params : Params) (client_pk signature : String)
    (members : List MemberInput) (db : Db) (conflicts : List Conflict) (prepared : List Prepared)
    → prepare rt algorithm params client_pk signature members db ≡ ok (conflicts, prepared)
    → conflicts ≡ []
    → map (λ (p : Prepared). p.endpoint) prepared ≡ map (λ (m : MemberInput). m.endpoint) members
unfolding prepare
prepare-all rt algorithm params client_pk signature [] db conflicts prepared h e =
    sym (ap (λ q. map (λ (p : Prepared). p.endpoint) q.1) (ok-injective h))
prepare-all rt algorithm params client_pk signature (m ∷ members) db conflicts prepared h e =
    let (merged, valid, h₁) =
      >>=-eq-ok (validate_overrides_or_raise rt algorithm params m.overrides) _ h in
    let (rest, looped, h₂) =
      >>=-eq-ok (prepare rt algorithm params client_pk signature members db) _ h₁ in
    let conflict = find_active_conflict client_pk m.endpoint signature none db in
    let same = ok-injective h₂ in
    sym (ap (λ q. map (λ (p : Prepared). p.endpoint) q.1) same)
    ∙ sorted_out merged conflict rest.0 rest.1
        (prepare-all rt algorithm params client_pk signature members db rest.0 rest.1 looped)
        (ap (λ q. q.0) same ∙ e)
  where
    sorted_out :
        (merged : Params) (o : Option RuleRow) (cs : List Conflict) (ps : List Prepared)
        → (cs ≡ []
            → map (λ (p : Prepared). p.endpoint) ps ≡ map (λ (m : MemberInput). m.endpoint) members)
        → (sort_out m merged o (cs, ps)).0 ≡ []
        → map (λ (p : Prepared). p.endpoint) (sort_out m merged o (cs, ps)).1
          ≡ map (λ (m : MemberInput). m.endpoint) (m ∷ members)
    sorted_out merged none cs ps ih k = ap (λ xs. m.endpoint ∷ xs) (ih k)
    sorted_out merged (some r) cs ps ih k = cc

endpoint-member_rules :
    (g : GroupRow) (new_ids : ℕ → String) (n : ℕ) (prepared : List Prepared)
    → map (λ (r : RuleRow). r.endpoint) (member_rules g new_ids n prepared)
      ≡ map (λ (p : Prepared). p.endpoint) prepared
unfolding member_rules
endpoint-member_rules g new_ids n [] = refl
endpoint-member_rules g new_ids n (p ∷ prepared) =
    ap (λ xs. p.endpoint ∷ xs) (endpoint-member_rules g new_ids (n + 1) prepared)

pub record AllWritten (members : List MemberInput) (response : AddMembersResponse) (db after : Db)
    : Type 0 where
  pub rows : List RuleRow
  pub rules : after.rules ≡ db.rules ++ rows
  pub endpoints :
      map (λ (r : RuleRow). r.endpoint) rows ≡ map (λ (m : MemberInput). m.endpoint) members
  pub created : response.created ≡ map diff_entry rows

abbrev NothingIf : List MemberInput → AddMembersResponse → List Conflict → Db → Db → Type 0
NothingIf members response [] db after = AllWritten members response db after
NothingIf members response (c ∷ cs) db after = (after ≡ db) × (response.created ≡ [])

-- An error or a conflict, and nothing is written; otherwise a rule for each member is.
abbrev pub IsAllOrNothing : List MemberInput → Db → Result Error AddMembersResponse × Db → Type 0
IsAllOrNothing members db (raise e, after) = after ≡ db
IsAllOrNothing members db (ok response, after) =
    NothingIf members response response.conflicts db after

write_members-IsAllOrNothing :
    (col : Collation) (new_ids : ℕ → String) (members : List MemberInput)
    (found : Result Error (GroupRow × (List Conflict × List Prepared))) (seen db : Db)
    → ((g : GroupRow) (prepared : List Prepared)
        → found ≡ ok (g, ([], prepared))
        → map (λ (p : Prepared). p.endpoint) prepared
          ≡ map (λ (m : MemberInput). m.endpoint) members)
    → IsAllOrNothing members db (write_members col new_ids found db)
unfolding write_members plan_add_members run commit
write_members-IsAllOrNothing col new_ids members (raise e) seen db all = refl
write_members-IsAllOrNothing col new_ids members (ok (g, (c ∷ conflicts, prepared))) seen db all =
    (refl, refl)
write_members-IsAllOrNothing col new_ids members (ok (g, ([], prepared))) seen db all =
    by_test (is_storable col ((plan_add_members g new_ids prepared).writes db))
      (is_consistent col ((plan_add_members g new_ids prepared).writes db))
  where
    by_test :
        (storable b : Bool)
        → IsAllOrNothing members db (
            if not storable
            then (raise (uncaught PyError.data_error), db)
            else (if b
                then (
                  ok (plan_add_members g new_ids prepared).result,
                  (plan_add_members g new_ids prepared).writes db,
                )
                else (raise ((plan_add_members g new_ids prepared).on_conflict db), db)))
    by_test false b = refl
    by_test true true = record {
      rows = member_rules g new_ids 0 prepared;
      rules = unfold add_rules in refl;
      endpoints = endpoint-member_rules g new_ids 0 prepared ∙ all g prepared refl;
      created = refl;
    }
    by_test true false = refl

-- All or nothing: an error or a reported conflict leaves the tables as they are, with nothing created;
-- otherwise exactly one new rule for each member of the request stands behind the rules that there were, in
-- the order of the request, and the reply lists just these. The tables may have changed since the queries.
pub add_members-IsAllOrNothing :
    (rt : Runtime) (col : Collation) (new_ids : ℕ → String) (gid : String)
    (members : List MemberInput) (seen db : Db)
    → IsAllOrNothing members db (add_members rt col new_ids gid members seen db)
unfolding add_members
add_members-IsAllOrNothing rt col new_ids gid members seen db =
    write_members-IsAllOrNothing col new_ids members (find_members rt gid members seen) seen db
      (λ g prepared h. all_prepared g [] prepared h refl)
  where
    all_prepared :
        (g : GroupRow) (conflicts : List Conflict) (prepared : List Prepared)
        → find_members rt gid members seen ≡ ok (g, (conflicts, prepared))
        → conflicts ≡ []
        → map (λ (p : Prepared). p.endpoint) prepared
          ≡ map (λ (m : MemberInput). m.endpoint) members
    all_prepared g conflicts prepared h e =
        unfold find_members in
        let (k, known, h₁) =
          >>=-eq-ok (or_raise (get_group_by_id gid seen) (rule_group_not_found gid)) _ h in
        let (u, distinct, h₂) = >>=-eq-ok (check_endpoints members []) _ h₁ in
        let (algorithm, loaded, h₃) = >>=-eq-ok (algorithm_of k seen) _ h₂ in
        let (out, looped, h₄) =
          >>=-eq-ok
            (prepare rt algorithm.name k.params k.client_id k.identifier_signature members seen) _
            h₃ in
        let same = ok-injective h₄ in
        sym (
          ap
            (λ (q : GroupRow × (List Conflict × List Prepared)).
              map (λ (p : Prepared). p.endpoint) q.1.1)
            same)
        ∙ prepare-all rt algorithm.name k.params k.client_id k.identifier_signature members seen
            out.0 out.1 looped
            (ap (λ (q : GroupRow × (List Conflict × List Prepared)). q.1.0) same ∙ e)
