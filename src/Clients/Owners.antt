-- ===== src/Clients/Owners.antt =====
-- The clients that secrets belong to, and the bound on live secrets.
use distributed_rate_limiter.Clients.{count_active_secrets}
use distributed_rate_limiter.Clients.Caps.{is_live_of, count_le}
use distributed_rate_limiter.Store.{Db, ClientRow, SecretRow, set_where}
use distributed_rate_limiter.Prelude.{
  ℕ, ◌≤◌, String, ◌≡◌, refl, subst, Bool, true, false, some, List, [], ◌∷◌, ◌++◌, arith, ◌==◌,
  nat_eq, string_eq, length, keep, any, find, All,
}

abbrev pub owns : List ClientRow → String → Bool
owns clients pk = any (λ (c : ClientRow). c.id == pk) clients

-- Every secret has its client, and no client has more than two live secrets.
pub record IsCapped (now : ℕ) (db : Db) : Type 0 where
  pub owned : All (λ (s : SecretRow). owns db.clients s.client_pk ≡ true) db.secrets
  pub capped : (pk : String) → count_active_secrets now pk db ≤ 2

abbrev pub IsCappedAfter {ℓ} : {A : Type ℓ} → ℕ → A × Db → Type 0
IsCappedAfter now (reply, db) = IsCapped now db

pub later-IsCapped : (t now : ℕ) (db : Db) → t ≤ now → IsCapped t db → IsCapped now db
later-IsCapped t now db h c = record {
  owned = c.owned;
  capped = λ pk. omega (arith, count_le t now pk db h, c.capped pk);
}

pub owns-append :
    (clients : List ClientRow) (c : ClientRow) (pk : String)
    → owns clients pk ≡ true
    → owns (clients ++ c ∷ []) pk ≡ true
owns-append [] c pk h = cc
owns-append (x ∷ clients) c pk h = ground (arith, owns-append clients c pk)

pub owns-last : (clients : List ClientRow) (c : ClientRow) → owns (clients ++ c ∷ []) c.id ≡ true
owns-last [] c = ground (arith, string_eq.equals_iff c.id c.id)
owns-last (x ∷ clients) c = ground (arith, owns-last clients c)

pub owns-found :
    (clients : List ClientRow) (slug : String) (c : ClientRow)
    → find (λ k. k.client_id == slug) clients ≡ some c
    → owns clients c.id ≡ true
owns-found [] slug c h = cc
owns-found (x ∷ clients) slug c h =
    ground (arith, string_eq.equals_iff c.id c.id, owns-found clients slug c)

pub owns-set :
    (f : ClientRow → ClientRow) (p : ClientRow → Bool) (clients : List ClientRow) (pk : String)
    → ((c : ClientRow) → (f c).id ≡ c.id)
    → owns clients pk ≡ true
    → owns (set_where p f clients) pk ≡ true
owns-set f p [] pk keeps h = cc
owns-set f p (x ∷ clients) pk keeps h = ground (arith, keeps x, owns-set f p clients pk keeps)

-- A client that does not exist has no secret.
pub count-none :
    (now : ℕ) (pk : String) (clients : List ClientRow) (ss : List SecretRow)
    → owns clients pk ≡ false
    → All (λ (s : SecretRow). owns clients s.client_pk ≡ true) ss
    → length (keep (is_live_of now pk) ss) ≡ 0
count-none now pk clients [] n h = refl
count-none now pk clients (s ∷ ss) n h =
    let other : (s.client_pk == pk) ≡ false = by_test (s.client_pk == pk) refl in
    rw other (count-none now pk clients ss n h.1)
  where
    by_test : (b : Bool) → (s.client_pk == pk) ≡ b → b ≡ false
    by_test true e =
        let same = (string_eq.equals_iff s.client_pk pk).0 e in
        absurd (
          let bad : owns clients pk ≡ true = subst (λ k. owns clients k ≡ true) same h.0 in
          cc (bad, n))
    by_test false e = refl
