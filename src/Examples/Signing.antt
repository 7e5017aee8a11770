-- ===== src/Examples/Signing.antt =====
-- A library of tokens that signs by writing the key into the token, and its laws.
use Prim.Native.Char.{code}
use distributed_rate_limiter.Auth.{Claims, Jwt}
use distributed_rate_limiter.Auth.Tokens.{JwtLaws}
use distributed_rate_limiter.Prelude.{
  ℕ, suc, zero, ◌+◌, ◌≤◌, ◌<◌, String, ◌≡◌, refl, ap, ◌∙◌, Bool, true, ◌&&◌, none, some,
  if◌then◌else◌, ltb, leb, ◌==◌, nat_eq, string_eq, beq_refl, arith,
}

-- Each character behind a plus, and a stop.
write : String → String → String
write String.[] rest = String.◌∷◌ "." (String.◌∷◌ "." rest)
write (String.◌∷◌ c s) rest = String.◌∷◌ "+" (String.◌∷◌ c (write s rest))

write_number : ℕ → String → String
write_number zero rest = String.◌∷◌ "." rest
write_number (suc n) rest = String.◌∷◌ "+" (write_number n rest)

read : String → String × String
read String.[] = (String.[], String.[])
read (String.◌∷◌ c String.[]) = (String.[], String.[])
read (String.◌∷◌ c (String.◌∷◌ d t)) =
    let later = read t in if code c == 43 then (String.◌∷◌ d later.0, later.1) else (String.[], t)

read_number : String → ℕ × String
read_number String.[] = (0, String.[])
read_number (String.◌∷◌ c t) =
    let later = read_number t in if code c == 43 then (suc later.0, later.1) else (0, t)

read-write : (s rest : String) → read (write s rest) ≡ (s, rest)
unfolding read write
read-write String.[] rest = refl
read-write (String.◌∷◌ c s) rest = ap (λ q. (String.◌∷◌ c q.0, q.1)) (read-write s rest)

read-write_number : (n : ℕ) (rest : String) → read_number (write_number n rest) ≡ (n, rest)
unfolding read_number write_number
read-write_number zero rest = refl
read-write_number (suc n) rest = ap (λ q. (suc q.0, q.1)) (read-write_number n rest)

encode : Claims → String → String → String
encode c key kid = write kid (
    write key (
      write c.iss (
        write c.aud (
          write c.sub
            (write c.scope (write c.jti (write_number c.iat (write_number c.exp String.[]))))))))

abbrev is_valid : ℕ → ℕ → String → String → String → String → Claims → Bool
is_valid now leeway key signed_with iss aud c =
    (key == signed_with)
    && ((c.iss == iss)
        && ((c.aud == aud) && (leb c.iat (now + leeway) && ltb now (c.exp + leeway))))

read_claims : String → (String × String) × Claims
read_claims token =
    let kid = read token in
    let key = read kid.1 in
    let iss = read key.1 in
    let aud = read iss.1 in
    let sub = read aud.1 in
    let scope = read sub.1 in
    let jti = read scope.1 in
    let iat = read_number jti.1 in
    let exp = read_number iat.1 in
    (
      (kid.0, key.0),
      record {
        iss = iss.0;
        aud = aud.0;
        sub = sub.0;
        scope = scope.0;
        iat = iat.0;
        exp = exp.0;
        jti = jti.0;
      },
    )

read_claims-encode :
    (c : Claims) (key kid : String) → read_claims (encode c key kid) ≡ ((kid, key), c)
unfolding read_claims encode
read_claims-encode c key kid = simp (read-write, read-write_number)

pub jwt : Jwt
unfolding encode read_claims
jwt = record {
  encode = encode;
  get_unverified_header = λ token. some (some (read_claims token).0.0);
  decode = λ now token key iss aud leeway.
      let found = read_claims token in
      if is_valid now leeway key found.0.1 iss aud found.1 then some found.1 else none;
}

pub jwt-JwtLaws : JwtLaws jwt
unfolding jwt
jwt-JwtLaws = record {
  header = λ c key kid. ap (λ q. some (some q.0.0)) (read_claims-encode c key kid);
  decoded = λ c key kid now leeway started ends.
      ap (λ q. if is_valid now leeway key q.0.1 c.iss c.aud q.1 then some q.1 else none)
        (read_claims-encode c key kid)
      ∙ ap (λ b. if b then some c else none) (valid c key now leeway started ends);
}
  where
    valid :
        (c : Claims) (key : String) (now leeway : ℕ)
        → c.iat ≤ now + leeway
        → now < c.exp + leeway
        → is_valid now leeway key key c.iss c.aud c ≡ true
    valid c key now leeway started ends =
        ground (arith, beq_refl key, beq_refl c.iss, beq_refl c.aud)
