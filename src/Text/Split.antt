-- ===== src/Text/Split.antt =====
-- strings.Split cuts at every separator and nowhere else: joining the parts gives the text back,
-- and no part holds a separator.
use Prim.Native.Char.{Char, code}
use text.Mathlib.TextEquality.{Char-path}
use text.Mathlib.TextLemmas.{nil-append, cons-append}
use nginx_k8s_loadbalancer.Base.{
  ℕ, String, ◌≡◌, refl, ap, ◌∙◌, ◌≢◌, inl, inr, true, false, List, [], ◌∷◌, arith, nat_eq,
  Bool-cases, All,
}
use nginx_k8s_loadbalancer.Text.{◌⧺◌, extend, split}

-- strings.Join(parts, c) for a separator of one character.
abbrev pub join : Char → List String → String
join c [] = ""
join c (p ∷ []) = p
join c (p ∷ q ∷ ps) = p ⧺ String.◌∷◌ c "" ⧺ join c (q ∷ ps)

pub split-ne-nil : (sep : ℕ) (s : String) → split sep s ≢ []
unfolding split
split-ne-nil sep String.[] = cc
split-ne-nil sep (String.◌∷◌ c s) = ground (arith, split-ne-nil sep s)

join-extend :
    (c d : Char) (ps : List String) → ps ≢ [] → join c (extend d ps) ≡ String.◌∷◌ d (join c ps)
join-extend c d [] h = absurd (h refl)
join-extend c d (p ∷ []) h = refl
join-extend c d (p ∷ q ∷ ps) h = cons-append d p _

join-empty : (c : Char) (ps : List String) → ps ≢ [] → join c ("" ∷ ps) ≡ String.◌∷◌ c (join c ps)
join-empty c [] h = absurd (h refl)
join-empty c (p ∷ ps) h = nil-append _ ∙ cons-append c "" _ ∙ ap (String.◌∷◌ c) (nil-append _)

nat_eq_sound : (a b : ℕ) → nat_eq a b ≡ true → a ≡ b
nat_eq_sound a b h = ground arith

-- Joining the parts gives the text back, whatever the text.
pub join-split : (c : Char) (s : String) → join c (split (code c) s) ≡ s
unfolding split
join-split c String.[] = refl
join-split c (String.◌∷◌ d s) = elim (Bool-cases (nat_eq (code d) (code c))) [
  | inl cut ↦ rw cut (
      join-empty c (split (code c) s) (split-ne-nil (code c) s)
      ∙ ap (String.◌∷◌ c) (join-split c s)
      ∙ ap (λ x. String.◌∷◌ x s) (Char-path c d (nat_eq_sound _ _ (cut_sym d c cut))))
  | inr kept ↦ rw kept (
      join-extend c d (split (code c) s) (split-ne-nil (code c) s)
      ∙ ap (String.◌∷◌ d) (join-split c s))
]
  where
    cut_sym : (a b : Char) → nat_eq (code a) (code b) ≡ true → nat_eq (code b) (code a) ≡ true
    cut_sym a b h = ground arith

-- No character of the text has this code.
abbrev pub Lacks : ℕ → String → Type 0
Lacks sep String.[] = Unit
Lacks sep (String.◌∷◌ c s) = (code c ≢ sep) × Lacks sep s

extend-Lacks :
    (sep : ℕ) (c : Char) (ps : List String)
    → code c ≢ sep
    → All (Lacks sep) ps
    → All (Lacks sep) (extend c ps)
extend-Lacks sep c [] h k = ((h, tt), tt)
extend-Lacks sep c (p ∷ ps) h (k, ks) = ((h, k), ks)

-- No part holds the separator.
pub split-Lacks : (sep : ℕ) (s : String) → All (Lacks sep) (split sep s)
unfolding split
split-Lacks sep String.[] = (tt, tt)
split-Lacks sep (String.◌∷◌ c s) = elim (Bool-cases (nat_eq (code c) sep)) [
  | inl cut ↦ rw cut (tt, split-Lacks sep s)
  | inr kept ↦ rw kept (extend-Lacks sep c (split sep s) (differs kept) (split-Lacks sep s))
]
  where
    differs : nat_eq (code c) sep ≡ false → code c ≢ sep
    differs h = ground arith
