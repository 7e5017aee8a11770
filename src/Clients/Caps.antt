-- ===== src/Clients/Caps.antt =====
-- The number of live secrets of a client.
use distributed_rate_limiter.Clients.{
  is_unexpired, is_live, revoke, count_active_secrets, list_active_secrets,
}
use distributed_rate_limiter.Store.{Db, SecretRow, unique_by, set_where}
use distributed_rate_limiter.Store.Rows.{set_none}
use distributed_rate_limiter.Prelude.{
  ℕ, ◌+◌, ◌≤◌, String, ◌≡◌, refl, ap, subst, inl, inr, Bool, true, false, not, ◌&&◌, Option, none,
  some, List, [], ◌∷◌, ◌++◌, map, if◌then◌else◌, arith, ◌==◌, string_eq, Bool-cases, length, keep,
  all, find, All,
}

length-keep_le {ℓ} :
    {A : Type ℓ} (p q : A → Bool) (f : A → A) (xs : List A)
    → ((x : A) → p (f x) ≡ true → q x ≡ true)
    → length (keep p (map f xs)) ≤ length (keep q xs)
length-keep_le p q f [] h = ground arith
length-keep_le p q f (x ∷ xs) h = ground (arith, h x, length-keep_le p q f xs h)

map-id {ℓ} : {A : Type ℓ} (xs : List A) → map (λ (x : A). x) xs ≡ xs
map-id [] = refl
map-id (x ∷ xs) = ap (λ ys. x ∷ ys) (map-id xs)

abbrev pub is_live_of : ℕ → String → SecretRow → Bool
is_live_of now pk s = s.client_pk == pk && is_live now s

-- Secrets only expire.
pub count_le :
    (t now : ℕ) (pk : String) (db : Db)
    → t ≤ now
    → count_active_secrets now pk db ≤ count_active_secrets t pk db
unfolding count_active_secrets list_active_secrets
count_le t now pk db h =
    subst (λ xs. length (keep (is_live_of now pk) xs) ≤ length (keep (is_live_of t pk) db.secrets))
      (map-id db.secrets)
      (length-keep_le (is_live_of now pk) (is_live_of t pk) (λ s. s) db.secrets
        (λ s live. ground (arith, unexpired s.expires_at)))
  where
    unexpired : (e : Option ℕ) → is_unexpired now e ≡ true → is_unexpired t e ≡ true
    unexpired none k = refl
    unexpired (some u) k = ground arith

-- A revocation makes no secret live.
pub count-revoke_le :
    (now : ℕ) (pk id : String) (ss : List SecretRow)
    → length (keep (is_live_of now pk) (set_where (λ s. s.id == id) (revoke now) ss))
      ≤ length (keep (is_live_of now pk) ss)
unfolding revoke
count-revoke_le now pk id ss =
    length-keep_le (is_live_of now pk) (is_live_of now pk)
      (λ s. if s.id == id then revoke now s else s) ss (λ s. by_test s (s.id == id))
  where
    by_test :
        (s : SecretRow) (b : Bool)
        → is_live_of now pk (if b then revoke now s else s) ≡ true
        → is_live_of now pk s ≡ true
    by_test s true h = ground arith
    by_test s false h = h

abbrev pub one_if : Bool → ℕ
one_if true = 1
one_if false = 0

-- A new secret counts for its own client.
pub count-append :
    (now : ℕ) (pk : String) (ss : List SecretRow) (s : SecretRow)
    → length (keep (is_live_of now pk) (ss ++ s ∷ []))
      ≡ length (keep (is_live_of now pk) ss) + one_if (is_live_of now pk s)
count-append now pk [] s = ground arith
count-append now pk (x ∷ ss) s = ground (arith, count-append now pk ss s)

other_ids :
    (s : SecretRow) (ss : List SecretRow) (id : String)
    → all (λ k. not (s.id == k.id)) ss ≡ true
    → (s.id == id) ≡ true
    → All (λ k. (k.id == id) ≡ false) ss
other_ids s [] id h e = tt
other_ids s (k ∷ ss) id h e = (
  ground (
    arith,
    string_eq.equals_iff s.id id,
    string_eq.equals_iff k.id id,
    string_eq.equals_iff s.id k.id,
  ),
  other_ids s ss id (ground arith) e,
)

-- A revocation takes one secret, where no two have one id.
pub count-revoke :
    (now : ℕ) (pk id : String) (ss : List SecretRow) (s : SecretRow)
    → unique_by (λ (j k : SecretRow). j.id == k.id) ss ≡ true
    → find (λ k. k.id == id) ss ≡ some s
    → length (keep (is_live_of now pk) (set_where (λ k. k.id == id) (revoke now) ss))
        + one_if (is_live_of now pk s)
      ≡ length (keep (is_live_of now pk) ss)
unfolding revoke
count-revoke now pk id [] s u h = cc
count-revoke now pk id (x ∷ ss) s u h = elim (Bool-cases (x.id == id)) [
  | inl t ↦
      let same : ◌≡◌ {A = Option SecretRow} (some x) (some s) = rw t at h in
      let rest = set_none (λ k. k.id == id) (revoke now) ss (other_ids x ss id (ground arith) t) in
      rw t (rw rest (taken ss x (ap is_live_or same)))
  | inr n ↦ rw n (ground (arith, count-revoke now pk id ss s (ground arith) (rw n at h)))
]
  where
    is_live_or : Option SecretRow → Bool
    is_live_or none = false
    is_live_or (some k) = is_live_of now pk k

    taken :
        (ss : List SecretRow) (x : SecretRow)
        → is_live_of now pk x ≡ is_live_of now pk s
        → length (
              if is_live_of now pk (revoke now x)
              then revoke now x ∷ keep (is_live_of now pk) ss
              else keep (is_live_of now pk) ss)
            + one_if (is_live_of now pk s)
          ≡ length (
              if is_live_of now pk x
              then x ∷ keep (is_live_of now pk) ss
              else keep (is_live_of now pk) ss)
    taken ss x e = rw⁻¹ e (by_parts (x.client_pk == pk) (is_live_of now pk x))
      where
        by_parts :
            (b c : Bool)
            → length (
                  if b && false
                  then revoke now x ∷ keep (is_live_of now pk) ss
                  else keep (is_live_of now pk) ss)
                + one_if c
              ≡ length (if c then x ∷ keep (is_live_of now pk) ss else keep (is_live_of now pk) ss)
        by_parts true true = ground arith
        by_parts true false = ground arith
        by_parts false true = ground arith
        by_parts false false = ground arith
