-- ===== src/Text/Host.antt =====
-- Cutting a text at its last colon, as a reader of `host:port` does.
use Prim.Native.Char.{Char, code}
use text.Mathlib.TextLemmas.{nil-append, cons-append}
use nginx_k8s_loadbalancer.Base.{
  String, ◌≡◌, refl, Option, none, some, arith, nat_eq, if◌then◌else◌,
}
use nginx_k8s_loadbalancer.Text.{◌⧺◌}
use nginx_k8s_loadbalancer.Text.Split.{Lacks}

-- One more character in front: the last colon of the rest counts first.
abbrev cut_before : Char → String → Option (String × String) → Option (String × String)
cut_before c s none = if nat_eq (code c) b':' then some ("", s) else none
cut_before c s (some (a, b)) = some (String.◌∷◌ c a, b)

unfoldable pub cut_last_colon : String → Option (String × String)
cut_last_colon String.[] = none
cut_last_colon (String.◌∷◌ c s) = cut_before c s (cut_last_colon s)

pub cut_last_colon-eq-none : (s : String) → Lacks b':' s → cut_last_colon s ≡ none
unfolding cut_last_colon
cut_last_colon-eq-none String.[] h = refl
cut_last_colon-eq-none (String.◌∷◌ c s) (h, k) = rw (cut_last_colon-eq-none s k) (ground arith)

pub cut_last_colon-append :
    (s t : String) → Lacks b':' t → cut_last_colon (s ⧺ ":" ⧺ t) ≡ some (s, t)
unfolding cut_last_colon
cut_last_colon-append String.[] t h =
    rw (nil-append, cons-append, nil-append, cut_last_colon-eq-none t h)
cut_last_colon-append (String.◌∷◌ c s) t h = rw (cons-append, cut_last_colon-append s t h)
