-- ===== src/Certification/Noticed.antt =====
-- The callbacks that the informer of the Secrets may make, and the Secrets that are known after them.
use nginx_k8s_loadbalancer.Base.{String, ◌≡◌, refl, List, [], ◌∷◌, Member, ◌==◌, false}
use nginx_k8s_loadbalancer.Kubernetes.{Object, Secret, secret}
use nginx_k8s_loadbalancer.Result.{ok}
use nginx_k8s_loadbalancer.Certification.{Certificates}
use nginx_k8s_loadbalancer.Certification.Known.{
  Knows, handle_add_event-Knows, handle_update_event-Knows, handle_delete_event-Knows,
}
use nginx_k8s_loadbalancer.Certification.Runs.{
  Callback, added, changed, removed, object_of, call, calls, IsNoSecret, call-IsNoSecret,
}

-- The Secrets that are known after a callback.
pub data NextKnown (known : List String) : Callback → List String → Type 0 where
  ignores : (cb : Callback) → IsNoSecret (object_of cb) → NextKnown known cb known
  adds : (s : Secret) → NextKnown known (added (secret s)) (s.name ∷ known)
  changes :
      (old : Object) (s : Secret)
      → Member s.name known
      → NextKnown known (changed old (secret s)) known
  removes :
      (s : Secret) (left : List String)
      → ((name : String) → Member name left → Member name known × ((s.name == name) ≡ false))
      → NextKnown known (removed (secret s)) left

-- A callback of the Secrets that the informer may make is no panic, and leaves the Secrets known.
pub call-NextKnown :
    (known left : List String) (cb : Callback) (c : Certificates)
    → NextKnown known cb left
    → Knows known c
    → (c' : Certificates) × (call cb c ≡ ok c') × Knows left c'
unfolding call
call-NextKnown known left cb c (ignores cb' foreign) knows =
    (c, call-IsNoSecret cb c foreign, knows)
call-NextKnown known left cb c (adds s) knows = handle_add_event-Knows known c s knows
call-NextKnown known left cb c (changes old s member) knows =
    handle_update_event-Knows known c s knows old member
call-NextKnown known left cb c (removes s left' fewer) knows =
    handle_delete_event-Knows known c s knows left fewer

-- The same, after any number of callbacks.
pub data KnownAfter : List String → List Callback → List String → Type 0 where
  unnoticed : (known : List String) → KnownAfter known [] known
  noticed :
      {known next left : List String} {cbs : List Callback} (cb : Callback)
      → NextKnown known cb next
      → KnownAfter next cbs left
      → KnownAfter known (cb ∷ cbs) left

pub calls-KnownAfter :
    (known left : List String) (cbs : List Callback) (c : Certificates)
    → KnownAfter known cbs left
    → Knows known c
    → (c' : Certificates) × (calls cbs c ≡ ok c') × Knows left c'
unfolding calls
calls-KnownAfter known left cbs c (unnoticed same) knows = (c, refl, knows)
calls-KnownAfter known left cbs c (noticed {next} {cbs = rest} cb is after) knows =
    let (c1, called, knows1) = call-NextKnown known next cb c is knows in
    let (c2, done, knows2) = calls-KnownAfter next left rest c1 after knows1 in
    (c2, rw called done, knows2)
