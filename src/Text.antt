-- ===== src/Text.antt =====
-- Go's text operations that the program uses: strings.HasPrefix, slicing, strings.Split and
-- strings.SplitN on a one-byte ASCII separator. A text is the native `String`, a list of
-- characters; the separators and the prefix are ASCII, so cutting characters and cutting bytes give
-- the same parts.
pub mod Prefix
pub mod Split
pub mod Decimal
pub mod Host
use Prim.Native.Char.{Char, code}
use Prim.Native.String
use nginx_k8s_loadbalancer.Base.{
  ℕ, zero, suc, String, Bool, true, false, ◌&&◌, Option, none, some, List, [], ◌∷◌, nat_eq,
  if◌then◌else◌,
}

infixr 66 ◌⧺◌
abbrev pub ◌⧺◌ : String → String → String
s ⧺ t = String.◌++◌ s t

-- strings.HasPrefix(s, prefix)
unfoldable pub has_prefix : String → String → Bool
has_prefix s String.[] = true
has_prefix String.[] (String.◌∷◌ p ps) = false
has_prefix (String.◌∷◌ c s) (String.◌∷◌ p ps) = nat_eq (code c) (code p) && has_prefix s ps

-- s[n:], `none` where Go panics: the text is shorter than n.
unfoldable pub slice_from : ℕ → String → Option String
slice_from zero s = some s
slice_from (suc n) String.[] = none
slice_from (suc n) (String.◌∷◌ c s) = slice_from n s

-- Puts a character in front of the first part.
abbrev extend : Char → List String → List String
extend c [] = String.◌∷◌ c "" ∷ []
extend c (p ∷ ps) = String.◌∷◌ c p ∷ ps

-- strings.Split(s, sep)
unfoldable pub split : ℕ → String → List String
split sep String.[] = "" ∷ []
split sep (String.◌∷◌ c s) =
    let rest = split sep s in if nat_eq (code c) sep then "" ∷ rest else extend c rest

-- strings.SplitN(s, sep, 2)
unfoldable pub split_two : ℕ → String → List String
split_two sep String.[] = "" ∷ []
split_two sep (String.◌∷◌ c s) =
    let rest = split_two sep s in if nat_eq (code c) sep then "" ∷ s ∷ [] else extend c rest
