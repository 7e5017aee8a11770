-- ===== src/Auth/Issue.antt =====
-- Who is issued a token, and for what.
use distributed_rate_limiter.Auth.{
  Jwt, TokenService, to_set, sorted_set, resolve_scopes, issue, issue_to, issue_token,
}
use distributed_rate_limiter.Clients.{is_live, hash_secret, verify_secret, list_active_secrets}
use distributed_rate_limiter.Errors.{invalid_client}
use distributed_rate_limiter.Store.{Db, ClientRow, SecretRow, get_client_by_client_id}
use distributed_rate_limiter.Prelude.Sort.{IsSorted, sort-IsSorted, contains-sort, Distinct-sort}
use distributed_rate_limiter.Prelude.{
  raise_if-eq-ok, ℕ, String, ◌≡◌, refl, sym, ap, ◌∙◌, subst, ◌⊎◌, inl, inr, Bool, true, not, ◌&&◌,
  Option, none, some, List, [], ◌∷◌, arith, ◌==◌, string_eq, Bool-cases, keep, all, any, contains,
  Distinct, str_ltb, of_all-contains, ok, raise_if, >>=-eq-ok, ok-injective, str_ltb_asymm,
  str_le_trans,
}

contains-to_set : (xs : List String) (s : String) → contains (to_set xs) s ≡ contains xs s
unfolding to_set
contains-to_set [] s = refl
contains-to_set (x ∷ xs) s = ground (arith, string_eq.equals_iff x s, contains-to_set xs s)

Distinct-to_set : (xs : List String) → Distinct (to_set xs)
unfolding to_set
Distinct-to_set [] = tt
Distinct-to_set (x ∷ xs) = elim (Bool-cases (contains xs x)) [
  | inl t ↦ rw t (Distinct-to_set xs)
  | inr n ↦ rw n (rw (contains-to_set xs x) n, Distinct-to_set xs)
]

pub contains-sorted_set :
    (xs : List String) (s : String) → contains (sorted_set xs) s ≡ contains xs s
unfolding sorted_set
contains-sorted_set xs s = contains-sort str_ltb (to_set xs) s ∙ contains-to_set xs s

-- Some element of the list has a property.
abbrev pub Has {ℓ} : {A : Type ℓ} → (A → Type 0) → List A → Type 0
Has P [] = ⊥
Has P (x ∷ xs) = P x ⊎ Has P xs

pub any-keep-Has {ℓ} :
    {A : Type ℓ} (p q : A → Bool) (xs : List A)
    → any p (keep q xs) ≡ true
    → Has (λ x. (q x ≡ true) × (p x ≡ true)) xs
any-keep-Has p q [] h = cc
any-keep-Has p q (x ∷ xs) h = ground (arith, any-keep-Has p q xs)

-- A secret of the client that is live, and whose stored hash is that of the text.
abbrev pub IsSecretOf : (String → String) → ℕ → ClientRow → String → SecretRow → Type 0
IsSecretOf sha256 now c text s =
    ((s.client_pk ≡ c.id) × (is_live now s ≡ true)) × (sha256 text ≡ s.secret_hash)

abbrev pub asked : ClientRow → Option (List String) → List String
asked c none = c.scopes
asked c (some requested) = requested

pub record IsGranted (sha256 : String → String) (now : ℕ) (client_id client_secret : String)
    (requested : Option (List String)) (db : Db) (granted : List String) : Type 0 where
  pub client : ClientRow
  pub found : get_client_by_client_id client_id db ≡ some client
  pub active : client.status ≡ "active"
  pub secret : Has (IsSecretOf sha256 now client client_secret) db.secrets
  pub same : (s : String) → contains granted s ≡ contains (asked client requested) s
  pub registered : (s : String) → contains granted s ≡ true → contains client.scopes s ≡ true
  pub sorted : IsSorted str_ltb granted
  pub distinct : Distinct granted

resolve_scopes-asked :
    (c : ClientRow) (requested : Option (List String)) (granted : List String)
    → resolve_scopes c requested ≡ ok granted
    → (granted ≡ sorted_set (asked c requested))
      × ((s : String) → contains (asked c requested) s ≡ true → contains c.scopes s ≡ true)
unfolding resolve_scopes
resolve_scopes-asked c none granted h = (sym (ok-injective h), λ s k. k)
resolve_scopes-asked c (some requested) granted h =
    elim (Bool-cases (all (contains c.scopes) requested)) [
      | inl t ↦ (
        sym (ok-injective (rw t at h)),
        λ s k. of_all-contains (contains c.scopes) requested s t k,
      )
      | inr n ↦ absurd (let bad = rw n at h in cc bad)
    ]

Has-map {ℓ} :
    {A : Type ℓ} {P Q : A → Type 0} (f : (a : A) → P a → Q a) (xs : List A) → Has P xs → Has Q xs
Has-map f [] h = absurd h
Has-map f (x ∷ xs) (inl h) = inl (f x h)
Has-map f (x ∷ xs) (inr h) = inr (Has-map f xs h)

-- A token is issued only to a client that exists and is active, for a secret of it that is neither revoked
-- nor expired and has the hash of the one that was given; the granted scopes are those asked for, or all
-- that are registered where none is asked for, all of them registered, each once and in order.
pub issue_token-IsGranted :
    (jwt : Jwt) (service : TokenService) (sha256 : String → String) (now : ℕ)
    (jti client_id client_secret : String) (requested : Option (List String)) (db : Db)
    (token : String) (expires_in : ℕ) (granted : List String)
    → issue_token jwt service sha256 now jti client_id client_secret requested db
      ≡ ok (token, (expires_in, granted))
    → IsGranted sha256 now client_id client_secret requested db granted
unfolding issue_token issue_to list_active_secrets verify_secret hash_secret
issue_token-IsGranted jwt service sha256 now jti client_id client_secret requested db token
      expires_in granted h =
    found (get_client_by_client_id client_id db) refl h
  where
    found :
        (o : Option ClientRow)
        → get_client_by_client_id client_id db ≡ o
        → issue_to jwt service sha256 now jti client_secret requested db o
          ≡ ok (token, (expires_in, granted))
        → IsGranted sha256 now client_id client_secret requested db granted
    found none e k = cc
    found (some c) e k =
        let (u, is_active, k₁) =
          >>=-eq-ok (raise_if (not (c.status == "active")) invalid_client) _ k in
        let matching =
          any (λ (s : SecretRow). sha256 client_secret == s.secret_hash)
            (keep (λ s. s.client_pk == c.id && is_live now s) db.secrets) in
        let (v, known, k₂) = >>=-eq-ok (raise_if (not matching) invalid_client) _ k₁ in
        let (scopes, resolved, k₃) = >>=-eq-ok (resolve_scopes c requested) _ k₂ in
        let (issued, made, k₄) = >>=-eq-ok (issue jwt service now jti c.client_id scopes) _ k₃ in
        let same_scopes : scopes ≡ granted =
          ap (λ (q : String × (ℕ × List String)). q.1.1) (ok-injective k₄) in
        let not_inactive = raise_if-eq-ok (not (c.status == "active")) _ is_active in
        let not_unknown = raise_if-eq-ok (not matching) _ known in
        let (sorted_asked, registered) = resolve_scopes-asked c requested scopes resolved in
        let is_set : granted ≡ sorted_set (asked c requested) = sym same_scopes ∙ sorted_asked in
        let held : (s : String) → contains granted s ≡ contains (asked c requested) s =
          λ s. ap (λ xs. contains xs s) is_set ∙ contains-sorted_set (asked c requested) s in
        record {
          client = c;
          found = e;
          active = (string_eq.equals_iff c.status "active").0 (ground (arith, not_inactive));
          secret =
              Has-map
                (λ s q. (
                  (
                    (string_eq.equals_iff s.client_pk c.id).0 (ground (arith, q.0)),
                    ground (arith, q.0),
                  ),
                  (string_eq.equals_iff (sha256 client_secret) s.secret_hash).0 q.1,
                ))
                db.secrets
                (any-keep-Has (λ (s : SecretRow). sha256 client_secret == s.secret_hash)
                  (λ s. s.client_pk == c.id && is_live now s) db.secrets
                  (ground (arith, not_unknown)));
          same = held;
          registered = λ s g. registered s (sym (held s) ∙ g);
          sorted = subst (IsSorted str_ltb) (sym is_set) (
              unfold sorted_set in
              sort-IsSorted str_ltb str_ltb_asymm str_le_trans (to_set (asked c requested)));
          distinct = subst Distinct (sym is_set) (
              unfold sorted_set in
              Distinct-sort str_ltb (to_set (asked c requested))
                (Distinct-to_set (asked c requested)));
        }
