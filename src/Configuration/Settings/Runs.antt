-- ===== src/Configuration/Settings/Runs.antt =====
-- Any sequence of the informer's callbacks, ours or not.
use nginx_k8s_loadbalancer.Base.{
  ◌≡◌, Option, refl, none, some, Option-cases, inl, inr, List, [], ◌∷◌, arith,
}
use nginx_k8s_loadbalancer.Result.{ok}
use nginx_k8s_loadbalancer.Exec.{Exec, ◌>>◌, pure}
use nginx_k8s_loadbalancer.Kubernetes.{ConfigMap, Object}
use nginx_k8s_loadbalancer.Certification.{Certificates}
use nginx_k8s_loadbalancer.Configuration.TlsModes.{TlsMode, IsNamed}
use nginx_k8s_loadbalancer.Configuration.Settings.{
  Process, is_our_config, update_hosts, apply_config, handle_update_event, handle_add_event,
  handle_delete_event,
}
use nginx_k8s_loadbalancer.Configuration.Settings.Updates.{
  IsOurs, NextMode, chosen, kept, apply_config-IsUpdated, is_our_config-IsOurs,
  IsOurs-is_our_config,
}

-- A call of one of the three callbacks.
pub data Callback : Type 0 where
  added : Object → Callback
  changed : Object → Object → Callback
  removed : Object → Callback

abbrev pub object_of : Callback → Object
object_of (added obj) = obj
object_of (changed old obj) = obj
object_of (removed obj) = obj

unfoldable pub call : Callback → Exec Process Unit
call (added obj) = handle_add_event obj
call (changed old obj) = handle_update_event (some old) obj
call (removed obj) = handle_delete_event obj

-- The calls in order, up to the first panic.
unfoldable pub calls : List Callback → Exec Process Unit
calls [] = pure tt
calls (cb ∷ cbs) = do call cb; calls cbs

-- The certificates are made and the mode is one of the five.
pub record IsReady (p : Process) : Type 0 where
  pub certificates : Certificates
  pub made : p.settings.certificates ≡ some certificates
  pub named : IsNamed p.settings.tls_mode

NextMode-IsNamed :
    {cm : ConfigMap} {before after : TlsMode}
    → NextMode cm before after
    → IsNamed before
    → IsNamed after
NextMode-IsNamed (chosen m named found) h = named
NextMode-IsNamed (kept nothing) h = h

-- What a callback leaves of the process: the Secrets, the settings of the synchronizer, and a mode
-- that is one of the five.
pub record KeepsSecrets (c : Certificates) (p p' : Process) : Type 0 where
  pub ready : IsReady p'
  pub secrets : ready.certificates.certificates ≡ c.certificates
  pub synchronizer : p'.settings.synchronizer ≡ p.settings.synchronizer

apply_config-KeepsSecrets :
    (cm : ConfigMap) (p : Process) (ready : IsReady p)
    → ((apply_config cm p).0 ≡ ok tt) × KeepsSecrets ready.certificates p (apply_config cm p).1
apply_config-KeepsSecrets cm p ready =
    let (done, updated) = apply_config-IsUpdated cm p ready.certificates ready.made in
    (
      done,
      record {
        ready = record {
          certificates = _;
          made = updated.keys ready.certificates ready.made;
          named = NextMode-IsNamed updated.mode ready.named;
        };
        secrets = refl;
        synchronizer = updated.synchronizer;
      },
    )

same_process : (p : Process) (ready : IsReady p) → KeepsSecrets ready.certificates p p
same_process p ready = record { ready = ready; secrets = refl; synchronizer = refl }

pub handle_update_event-KeepsSecrets :
    (old : Option Object) (obj : Object) (p : Process) (ready : IsReady p)
    → ((handle_update_event old obj p).0 ≡ ok tt)
      × KeepsSecrets ready.certificates p (handle_update_event old obj p).1
unfolding handle_update_event
handle_update_event-KeepsSecrets old obj p ready = elim (Option-cases (is_our_config obj)) [
  | inl foreign ↦ rw foreign (refl, same_process p ready)
  | inr (cm, ours) ↦ rw ours (apply_config-KeepsSecrets cm p ready)
]

-- Once the certificates are made and the mode is one of the five, a callback is no panic.
pub call-KeepsSecrets :
    (cb : Callback) (p : Process) (ready : IsReady p)
    → ((call cb p).0 ≡ ok tt) × KeepsSecrets ready.certificates p (call cb p).1
unfolding call handle_add_event handle_update_event handle_delete_event
call-KeepsSecrets (added obj) p ready = elim (Option-cases (is_our_config obj)) [
  | inl foreign ↦ rw foreign (refl, same_process p ready)
  | inr (cm, ours) ↦ rw (ours, ours) (apply_config-KeepsSecrets cm p ready)
]
call-KeepsSecrets (changed old obj) p ready =
    handle_update_event-KeepsSecrets (some old) obj p ready
call-KeepsSecrets (removed obj) p ready = elim (Option-cases (is_our_config obj)) [
  | inl foreign ↦ rw foreign (refl, same_process p ready)
  | inr (cm, ours) ↦ rw ours (
    refl,
    record {
      ready = record { certificates = ready.certificates; made = ready.made; named = ready.named };
      secrets = refl;
      synchronizer = refl;
    },
  )
]

-- From a process whose certificates are made and whose TLS mode is one of the five, no sequence of
-- callbacks, whatever the objects, panics, and both facts hold after it.
pub calls-IsReady :
    (cbs : List Callback) (p : Process)
    → IsReady p
    → ((calls cbs p).0 ≡ ok tt) × IsReady (calls cbs p).1
unfolding calls
calls-IsReady [] p ready = (refl, ready)
calls-IsReady (cb ∷ cbs) p ready =
    let (done, next) = call-KeepsSecrets cb p ready in
    rw done (calls-IsReady cbs (call cb p).1 next.ready)

-- Callbacks on objects that are not our ConfigMap change nothing.
pub call_foreign :
    (cb : Callback) (p : Process)
    → ((cm : ConfigMap) → ¬ IsOurs (object_of cb) cm)
    → call cb p ≡ (ok tt, p)
unfolding call handle_add_event handle_update_event handle_delete_event
call_foreign cb p foreign = elim (Option-cases (is_our_config (object_of cb))) [
  | inl missed ↦ unchanged cb p missed
  | inr (cm, ours) ↦ absurd (foreign cm (IsOurs-is_our_config (object_of cb) cm ours))
]
  where
    unchanged :
        (cb : Callback) (p : Process) → is_our_config (object_of cb) ≡ none → call cb p ≡ (ok tt, p)
    unchanged (added obj) p e = rw e
    unchanged (changed old obj) p e = rw e
    unchanged (removed obj) p e = rw e

-- Deleting our ConfigMap empties the list of hosts and changes nothing else.
pub call_removed :
    (obj : Object) (cm : ConfigMap) (p : Process)
    → IsOurs obj cm
    → call (removed obj) p
      ≡ (ok tt, record p { settings = record p.settings { nginx_plus_hosts = [] } })
unfolding call handle_delete_event update_hosts
call_removed obj cm p ours = rw (is_our_config-IsOurs obj cm ours)

apply_config_again :
    (cm : ConfigMap) (p : Process) (c : Certificates)
    → p.settings.certificates ≡ some c
    → (apply_config cm (apply_config cm p).1).1 ≡ (apply_config cm p).1
unfolding apply_config
apply_config_again cm p c made = ground arith

-- Once the certificates are made and the TLS mode is one of the five, a second update by the same
-- object, as a resync sends it, changes nothing that the first did not.
pub call_again :
    (old obj : Object) (p : Process)
    → IsReady p
    → (call (changed old obj) (call (changed old obj) p).1).1 ≡ (call (changed old obj) p).1
unfolding call handle_update_event
call_again old obj p ready = elim (Option-cases (is_our_config obj)) [
  | inl foreign ↦ rw foreign
  | inr (cm, ours) ↦ rw ours (apply_config_again cm p ready.certificates ready.made)
]
