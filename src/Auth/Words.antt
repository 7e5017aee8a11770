-- ===== src/Auth/Words.antt =====
-- `str.split(" ")` and `" ".join(words)`.
use Prim.Native.Char.{Char, code}
use text.Mathlib.TextLemmas.{cons-append, nil-append}
use distributed_rate_limiter.Prelude.{
  String, ◌⧺◌, ◌≡◌, refl, ap, Bool, false, ◌||◌, List, [], ◌∷◌, if◌then◌else◌, ◌==◌, nat_eq, arith,
  All, join,
}

abbrev is_space : Char → Bool
is_space c = code c == 32

-- The words, where the first one goes on to the left.
abbrev pub on_first : Char → List String → List String
on_first c [] = String.◌∷◌ c String.[] ∷ []
on_first c (w ∷ ws) = String.◌∷◌ c w ∷ ws

unfoldable pub split : String → List String
split String.[] = String.[] ∷ []
split (String.◌∷◌ c s) =
    let rest = split s in if is_space c then String.[] ∷ rest else on_first c rest

abbrev pub has_space : String → Bool
has_space String.[] = false
has_space (String.◌∷◌ c s) = is_space c || has_space s

split-word : (w : String) → has_space w ≡ false → split w ≡ w ∷ []
unfolding split
split-word String.[] h = refl
split-word (String.◌∷◌ c s) h = ground (arith, split-word s)

split-space : (s : String) → split (" " ⧺ s) ≡ String.[] ∷ split s
unfolding split
split-space s = rw (cons-append _ String.[] s, nil-append s) refl

split-append : (w s : String) → has_space w ≡ false → split (w ⧺ (" " ⧺ s)) ≡ w ∷ split s
unfolding split
split-append String.[] s h = rw (nil-append (" " ⧺ s)) (split-space s)
split-append (String.◌∷◌ c w) s h =
    rw (cons-append c w (" " ⧺ s)) (ground (arith, split-append w s))

-- Words without a space are found again in their join.
pub split-join :
    (w : String) (ws : List String)
    → All (λ v. has_space v ≡ false) (w ∷ ws)
    → split (join " " (w ∷ ws)) ≡ w ∷ ws
unfolding join
split-join w [] h = split-word w h.0
split-join w (v ∷ vs) h =
    rw (split-append w (join " " (v ∷ vs)) h.0) (ap (λ xs. w ∷ xs) (split-join v vs h.1))
