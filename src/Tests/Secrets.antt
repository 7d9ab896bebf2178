-- ===== src/Tests/Secrets.antt =====
-- Runs of the callbacks of the certificates, and their theorems at them.
use nginx_k8s_loadbalancer.Base.{
  String, Member, false, ◌≡◌, refl, none, some, List, [], ◌∷◌, inl, inr, ap, ◌∙◌, ◌==◌,
  if◌then◌else◌,
}
use nginx_k8s_loadbalancer.Result.{ok, panic}
use nginx_k8s_loadbalancer.GoMap.{GoMap, lookup}
use nginx_k8s_loadbalancer.GoMap.Laws.{HasDistinctKeys, or_else}
use nginx_k8s_loadbalancer.Core.{SecretBytes}
use nginx_k8s_loadbalancer.Kubernetes.{Secret, Object, secret}
use nginx_k8s_loadbalancer.Certification.{
  Certificates, entry, nil_map, handle_add_event, handle_update_event,
}
use nginx_k8s_loadbalancer.Certification.Store.{
  entry-handle_add_event, entry-handle_update_event, handle_update_event-unknown,
}
use nginx_k8s_loadbalancer.Certification.Known.{Knows}
use nginx_k8s_loadbalancer.Certification.Runs.{
  Callback, added, changed, removed, calls, Informed, ended, adds, changes, removes, ignores, View,
  view, shows_added, shows_changed, shows_removed, calls-Informed,
}
use nginx_k8s_loadbalancer.Tests.Fixtures.{sample_certificates}

abbrev renewed : Secret
renewed = record { name = "nlk-client"; contents = ("tls.crt", record { bytes = 7 ∷ [] }) ∷ [] }

abbrev pub stranger : Secret
stranger = record { name = "other"; contents = ("tls.crt", record { bytes = 8 ∷ [] }) ∷ [] }

abbrev sample_store : GoMap (GoMap SecretBytes)
sample_store =
    ("nlk-ca", ("tls.crt", record { bytes = 1 ∷ 11 ∷ [] }) ∷ [])
    ∷ (
      "nlk-client",
      ("tls.crt", record { bytes = 2 ∷ [] }) ∷ ("tls.key", record { bytes = 3 ∷ [] }) ∷ [],
    )
    ∷ []

distinct : HasDistinctKeys renewed.contents
unfolding lookup
distinct = (refl, tt)

entry-handle_add_event_example :
    (c' : Certificates) × (handle_add_event (secret renewed) sample_certificates ≡ ok c')
    × ((name key : String)
        → entry name key c' ≡ (
            if renewed.name == name
            then lookup key renewed.contents
            else entry name key sample_certificates))
entry-handle_add_event_example =
    entry-handle_add_event sample_certificates renewed sample_store refl distinct

known :
    lookup renewed.name sample_store
    ≡ some (("tls.crt", record { bytes = 2 ∷ [] }) ∷ ("tls.key", record { bytes = 3 ∷ [] }) ∷ [])
unfolding lookup
known = refl

entry-handle_update_event_example :
    (c' : Certificates) × (handle_update_event Object.other (secret renewed) sample_certificates
      ≡ ok c')
    × ((name key : String)
        → entry name key c' ≡ (
            if renewed.name == name
            then or_else (lookup key renewed.contents) (entry name key sample_certificates)
            else entry name key sample_certificates))
entry-handle_update_event_example =
    entry-handle_update_event sample_certificates renewed sample_store refl Object.other _ known
      distinct

unknown : lookup stranger.name sample_store ≡ none
unfolding lookup
unknown = refl

handle_update_event-unknown_example :
    handle_update_event Object.other (secret stranger) sample_certificates ≡ panic nil_map
handle_update_event-unknown_example =
    handle_update_event-unknown sample_certificates stranger sample_store refl Object.other
      "tls.crt" (record { bytes = 8 ∷ [] }) [] unknown refl

-- A new Secret arrives, a known one is renewed, an object of another kind is seen, and the new
-- Secret goes.
abbrev secret_calls : List Callback
secret_calls =
    added (secret stranger)
    ∷ changed Object.other (secret renewed)
    ∷ added Object.other
    ∷ removed (secret stranger)
    ∷ []

abbrev secrets_seen : View → View
secrets_seen v = shows_removed stranger (shows_changed renewed (shows_added stranger v))

stranger_distinct : HasDistinctKeys stranger.contents
unfolding lookup
stranger_distinct = (refl, tt)

still_known :
    (name : String)
    → Member name ("nlk-client" ∷ [])
    → Member name ("other" ∷ "nlk-client" ∷ []) × ((stranger.name == name) ≡ false)
still_known name (inl e) = (inr (inl e), ap (λ n. stranger.name == n) e)
still_known name (inr nothing) = absurd nothing

client_found :
    (name : String)
    → Member name ("nlk-client" ∷ [])
    → (found : GoMap SecretBytes) × (lookup name sample_store ≡ some found)
client_found name (inl e) = (_, ap (λ n. lookup n sample_store) e ∙ known)
client_found name (inr nothing) = absurd nothing

secrets-Informed : Informed ("nlk-client" ∷ []) secret_calls secrets_seen
secrets-Informed = adds stranger stranger_distinct (
    changes Object.other renewed distinct (inr (inl refl))
      (ignores (added Object.other) tt (removes stranger still_known (ended ("nlk-client" ∷ [])))))

sample_certificates-Knows : Knows ("nlk-client" ∷ []) sample_certificates
sample_certificates-Knows = record { store = sample_store; made = refl; has = client_found }

calls-Informed_example :
    (c' : Certificates) × (calls secret_calls sample_certificates ≡ ok c')
    × ((name key : String) → entry name key c' ≡ secrets_seen (view sample_certificates) name key)
calls-Informed_example =
    calls-Informed ("nlk-client" ∷ []) secret_calls secrets_seen sample_certificates
      secrets-Informed sample_certificates-Knows
