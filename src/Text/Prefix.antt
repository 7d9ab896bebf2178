-- ===== src/Text/Prefix.antt =====
-- A text with a prefix is that prefix and a rest, and slicing gives the rest.
use Prim.Native.Char.{code}
use Prim.Native.String.{◌∷◌}
use text.Mathlib.TextEquality.{Char-path}
use text.Mathlib.TextLemmas.{nil-append, cons-append}
use nginx_k8s_loadbalancer.Base.{
  ℕ, suc, String, ◌≡◌, refl, sym, ap, ap₂, Bool, true, false, ◌&&◌, some, arith, nat_eq,
}
use nginx_k8s_loadbalancer.Text.{◌⧺◌, has_prefix, slice_from}

-- The number of characters.
abbrev pub size : String → ℕ
size String.[] = 0
size (String.◌∷◌ c s) = suc (size s)

nat_eq_refl : (n : ℕ) → nat_eq n n ≡ true
nat_eq_refl n = ground arith

pub has_prefix-append : (p s : String) → has_prefix (p ⧺ s) p ≡ true
unfolding has_prefix
has_prefix-append String.[] s = refl
has_prefix-append (String.◌∷◌ c p) s =
    rw (cons-append, nat_eq_refl (code c)) (has_prefix-append p s)

pub slice_from-append : (p s : String) → slice_from (size p) (p ⧺ s) ≡ some s
unfolding slice_from
slice_from-append String.[] s = ap some (nil-append s)
slice_from-append (String.◌∷◌ c p) s = rw cons-append (slice_from-append p s)

nat_eq_sound : (a b : ℕ) → nat_eq a b ≡ true → a ≡ b
nat_eq_sound a b h = ground arith

both_true : (a b : Bool) → (a && b) ≡ true → (a ≡ true) × (b ≡ true)
both_true true b h = (refl, h)
both_true false b h = ground arith

pub has_prefix-split : (s p : String) → has_prefix s p ≡ true → (rest : String) × (s ≡ p ⧺ rest)
unfolding has_prefix
has_prefix-split s String.[] h = (s, sym (nil-append s))
has_prefix-split String.[] (String.◌∷◌ d p) h = cc
has_prefix-split (String.◌∷◌ c s) (String.◌∷◌ d p) h =
    let (same, more) = both_true (nat_eq (code c) (code d)) (has_prefix s p) h in
    let (rest, e) = has_prefix-split s p more in
    (rest, rw cons-append (ap₂ ◌∷◌ (Char-path c d (nat_eq_sound _ _ same)) e))
