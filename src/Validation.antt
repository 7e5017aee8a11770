-- ===== src/Validation.antt =====
-- model/identifier_validation.py: the validators of identifier values. `str.lower` and the module
-- `ipaddress` are parameters.
use Prim.Native.Char.{code}
use distributed_rate_limiter.Errors.{Error, invalid_identifier_value}
use distributed_rate_limiter.Identifier.{
  IdentifierType, client_id, api_key, ip_address, user_id, tenant_id, session_id, device_id,
  organization_id, account_id, region, user_agent, request_source, subscription_tier, webhook_id,
  ip_range, endpoint,
}
use distributed_rate_limiter.Prelude.{
  ℕ, zero, suc, String, Bool, true, false, not, ◌&&◌, ◌||◌, Option, none, some, if◌then◌else◌, ltb,
  leb, ◌==◌, nat_eq, string_eq, pair_eq, Result, ok, raise,
}

-- An address by its canonical text; a v6 address with the v4 address that it maps, if it does.
pub data Address : Type 0 where
  v4 : String → Address
  v6 : String → Option String → Address

pub record Parsers : Type 0 where
  -- `raw.lower()`
  pub lower : String → String
  -- `ipaddress.ip_address(raw)`; `none` is its ValueError.
  pub parse_address : String → Option Address
  -- `str(ipaddress.ip_network(raw, strict=False))`
  pub parse_network : String → Option String

-- `len(raw)`, in characters.
unfoldable pub size : String → ℕ
size String.[] = 0
size (String.◌∷◌ c s) = suc (size s)

-- `all(p(ch) for ch in raw)`, over code points.
unfoldable pub every : (ℕ → Bool) → String → Bool
every p String.[] = true
every p (String.◌∷◌ c s) = p (code c) && every p s

abbrev pub in_range : ℕ → ℕ → ℕ → Bool
in_range lo hi n = leb lo n && leb n hi

-- `string.printable` without `string.whitespace`: the codes 33 to 126.
abbrev pub is_printable : ℕ → Bool
is_printable = in_range 33 126

abbrev pub is_control : ℕ → Bool
is_control c = ltb c 32 || c == 127

abbrev pub is_lower_or_digit : ℕ → Bool
is_lower_or_digit c = in_range 97 122 c || (in_range 48 57 c || (c == 95 || c == 45))

abbrev pub is_key_char : ℕ → Bool
is_key_char c = in_range 65 90 c || is_lower_or_digit c

-- `re.match(r"^[class]+$", s)`: `$` also matches before a newline at the end.
unfoldable pub matches_rest : (ℕ → Bool) → String → Bool
matches_rest p String.[] = true
matches_rest p (String.◌∷◌ c String.[]) = p (code c) || code c == 10
matches_rest p (String.◌∷◌ c (String.◌∷◌ d s)) = p (code c) && matches_rest p (String.◌∷◌ d s)

unfoldable pub matches : (ℕ → Bool) → String → Bool
unfolding matches_rest
matches p String.[] = false
matches p (String.◌∷◌ c s) = p (code c) && matches_rest p s

abbrev pub invalid : {A : Type 0} → IdentifierType → String → Result Error A
invalid t reason = raise (invalid_identifier_value t reason none)

abbrev pub has_size : ℕ → ℕ → String → Bool
has_size lo hi raw = in_range lo hi (size raw)

unfoldable pub generic_opaque_id : IdentifierType → String → Result Error String
generic_opaque_id t raw =
    if has_size 1 256 raw
    then (if every is_printable raw
        then ok raw
        else invalid t "must be printable ASCII with no whitespace")
    else invalid t "length must be between 1 and 256"

unfoldable pub validate_api_key : String → Result Error String
validate_api_key raw =
    if has_size 8 128 raw
    then (if matches is_key_char raw
        then ok raw
        else invalid api_key "must match ^[A-Za-z0-9_-]+$ (case-sensitive)")
    else invalid api_key "length must be between 8 and 128"

unfoldable pub address_text : Option Address → Result Error String
address_text none = invalid ip_address "not a valid IP address"
address_text (some (v4 s)) = ok s
address_text (some (v6 s none)) = ok s
address_text (some (v6 s (some mapped))) = ok mapped

unfoldable pub network_text : Option String → Result Error String
network_text none = invalid ip_range "not a valid IP network (CIDR)"
network_text (some s) = ok s

abbrev pub is_not_percent : ℕ → Bool
is_not_percent c = not (c == 37)

-- What is left of `^[class]{1,n+1}$` behind its first character.
unfoldable pub matches_upto : ℕ → (ℕ → Bool) → String → Bool
matches_upto n p String.[] = true
matches_upto zero p (String.◌∷◌ c String.[]) = code c == 10
matches_upto zero p (String.◌∷◌ c (String.◌∷◌ d s)) = false
matches_upto (suc n) p (String.◌∷◌ c String.[]) = p (code c) || code c == 10
matches_upto (suc n) p (String.◌∷◌ c (String.◌∷◌ d s)) =
    p (code c) && matches_upto n p (String.◌∷◌ d s)

-- `_SLUG_RE.match`
unfoldable pub matches_slug : String → Bool
unfolding matches_upto
matches_slug String.[] = false
matches_slug (String.◌∷◌ c s) = is_lower_or_digit (code c) && matches_upto 63 is_lower_or_digit s

unfoldable pub validate_user_agent : String → Result Error String
validate_user_agent raw =
    if has_size 1 512 raw
    then (if every (λ c. not (is_control c)) raw
        then ok raw
        else invalid user_agent "must not contain control characters")
    else invalid user_agent "length must be between 1 and 512"

module _ (py : Parsers) where
  unfoldable pub validate_ip_address : String → Result Error String
  unfolding address_text
  validate_ip_address raw =
      if has_size 1 45 raw
      then (if every is_not_percent raw
          then address_text (py.parse_address raw)
          else invalid ip_address "scoped/zone-id addresses are not supported")
      else invalid ip_address "length must be between 1 and 45"

  unfoldable pub validate_ip_range : String → Result Error String
  unfolding network_text
  validate_ip_range raw =
      if has_size 1 49 raw
      then (if every is_not_percent raw
          then network_text (py.parse_network raw)
          else invalid ip_range "scoped/zone-id addresses are not supported")
      else invalid ip_range "length must be between 1 and 49"

  unfoldable pub validate_slug : IdentifierType → String → Result Error String
  unfolding matches_slug
  validate_slug t raw =
      if has_size 1 64 raw
      then (if matches_slug (py.lower raw)
          then ok (py.lower raw)
          else invalid t "must be 1-64 alphanumeric/hyphen/underscore characters")
      else invalid t "length must be between 1 and 64"

  -- `_REGISTRY`, and the dispatch of `validate_and_normalize`.
  unfoldable pub validate_and_normalize : IdentifierType → String → Result Error String
  unfolding generic_opaque_id validate_api_key validate_ip_address validate_ip_range validate_slug
      validate_user_agent
  validate_and_normalize api_key raw = validate_api_key raw
  validate_and_normalize ip_address raw = validate_ip_address raw
  validate_and_normalize ip_range raw = validate_ip_range raw
  validate_and_normalize region raw = validate_slug region raw
  validate_and_normalize subscription_tier raw = validate_slug subscription_tier raw
  validate_and_normalize user_agent raw = validate_user_agent raw
  validate_and_normalize client_id raw = generic_opaque_id client_id raw
  validate_and_normalize user_id raw = generic_opaque_id user_id raw
  validate_and_normalize tenant_id raw = generic_opaque_id tenant_id raw
  validate_and_normalize session_id raw = generic_opaque_id session_id raw
  validate_and_normalize device_id raw = generic_opaque_id device_id raw
  validate_and_normalize organization_id raw = generic_opaque_id organization_id raw
  validate_and_normalize account_id raw = generic_opaque_id account_id raw
  validate_and_normalize request_source raw = generic_opaque_id request_source raw
  validate_and_normalize webhook_id raw = generic_opaque_id webhook_id raw
  validate_and_normalize endpoint raw = generic_opaque_id endpoint raw
