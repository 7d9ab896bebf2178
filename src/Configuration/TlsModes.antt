-- ===== src/Configuration/TlsModes.antt =====
-- internal/configuration/tlsmodes.go: the five TLS modes and their names.
use nginx_k8s_loadbalancer.Base.{String, ◌≡◌, refl, ◌↔◌, some, [], ◌∷◌, arith, eq_iff}
use nginx_k8s_loadbalancer.Text.Decimal.{ℤ}
use nginx_k8s_loadbalancer.GoMap.{GoMap, lookup}

-- `other` is an int below the first or above the last constant.
pub data TlsMode : Type 0 where
  no_tls certificate_authority_tls certificate_authority_mutual_tls : TlsMode
  self_signed_tls self_signed_mutual_tls : TlsMode
  other : ℤ → TlsMode

abbrev pub no_tls_string : String
no_tls_string = "no-tls"

abbrev pub certificate_authority_tls_string : String
certificate_authority_tls_string = "ca-tls"

abbrev pub certificate_authority_mutual_tls_string : String
certificate_authority_mutual_tls_string = "ca-mtls"

abbrev pub self_signed_tls_string : String
self_signed_tls_string = "ss-tls"

abbrev pub self_signed_mutual_tls_string : String
self_signed_mutual_tls_string = "ss-mtls"

unfoldable pub tls_mode_map : GoMap TlsMode
tls_mode_map =
    (no_tls_string, no_tls)
    ∷ (certificate_authority_tls_string, certificate_authority_tls)
    ∷ (certificate_authority_mutual_tls_string, certificate_authority_mutual_tls)
    ∷ (self_signed_tls_string, self_signed_tls)
    ∷ (self_signed_mutual_tls_string, self_signed_mutual_tls)
    ∷ []

-- TLSMode.String
unfoldable pub to_string : TlsMode → String
to_string no_tls = no_tls_string
to_string certificate_authority_tls = certificate_authority_tls_string
to_string certificate_authority_mutual_tls = certificate_authority_mutual_tls_string
to_string self_signed_tls = self_signed_tls_string
to_string self_signed_mutual_tls = self_signed_mutual_tls_string
to_string (other z) = ""

abbrev pub IsNamed : TlsMode → Type 0
IsNamed (other z) = ⊥
IsNamed _ = Unit

lookup-to_string : (m : TlsMode) → IsNamed m → lookup (to_string m) tls_mode_map ≡ some m
unfolding lookup tls_mode_map to_string
lookup-to_string no_tls h = refl
lookup-to_string certificate_authority_tls h = refl
lookup-to_string certificate_authority_mutual_tls h = refl
lookup-to_string self_signed_tls h = refl
lookup-to_string self_signed_mutual_tls h = refl
lookup-to_string (other z) h = absurd h

to_string-lookup :
    (s : String) (m : TlsMode) → lookup s tls_mode_map ≡ some m → IsNamed m × (to_string m ≡ s)
unfolding lookup tls_mode_map to_string
to_string-lookup s m h = ground (
  arith,
  eq_iff no_tls_string s,
  eq_iff certificate_authority_tls_string s,
  eq_iff certificate_authority_mutual_tls_string s,
  eq_iff self_signed_tls_string s,
  eq_iff self_signed_mutual_tls_string s,
)

-- The map from names to modes and the function from modes to names are inverse to one another: a
-- text is mapped to a mode exactly when the mode is one of the five and the text is its name.
pub lookup-tls_mode_map_iff :
    (s : String) (m : TlsMode) → (lookup s tls_mode_map ≡ some m) ↔ (IsNamed m × (to_string m ≡ s))
lookup-tls_mode_map_iff s m =
    (to_string-lookup s m, λ (named, same). rw (← same) (lookup-to_string m named))
