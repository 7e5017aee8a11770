-- ===== src/RuleService/Accepted.antt =====
-- The checks of `update_rule` suffice: no constraint refuses what they accept.
use distributed_rate_limiter.Errors.{Error, PyError, uncaught}
use distributed_rate_limiter.Params.{Params}
use distributed_rate_limiter.Store.{
  Db, RuleRow, Collation, Plan, is_some, get_rule_by_id, is_consistent, is_storable, run, commit,
}
use distributed_rate_limiter.Store.Rows.{of_find, All-units}
use distributed_rate_limiter.Prelude.{
  String, ◌≡◌, refl, inl, inr, true, false, Option, none, some, if◌then◌else◌, ◌==◌, nat_eq,
  string_eq, Bool-cases, Result, ok, raise,
}

-- Only a value that a column does not take refuses the writes of a plan.
abbrev pub committed : {A : Type 0} → Collation → Plan A → Db → Result Error A × Db
committed col p db =
    if is_storable col (p.writes db)
    then (ok p.result, p.writes db)
    else (raise (uncaught PyError.data_error), db)

-- Tables that stay consistent are committed.
pub run-consistent :
    {A : Type 0} (col : Collation) (p : Plan A) (db : Db)
    → is_consistent col (p.writes db) ≡ true
    → run col (ok p) db ≡ committed col p db
unfolding run commit
run-consistent col p db h = elim (Bool-cases (is_storable col (p.writes db))) [
  | inl s ↦ rw s (rw h refl)
  | inr s ↦ rw s refl
]

pub is_none {ℓ} : {A : Type ℓ} (o : Option A) → is_some o ≡ false → o ≡ none
is_none none h = refl
is_none (some a) h = cc

pub found_id : (id : String) (db : Db) (r : RuleRow) → get_rule_by_id id db ≡ some r → r.id ≡ id
unfolding get_rule_by_id
found_id id db r h =
    (string_eq.equals_iff r.id id).0
      (of_find (λ _. Unit {0}) (λ (s : RuleRow). s.id == id) db.rules r (All-units db.rules) h).1
