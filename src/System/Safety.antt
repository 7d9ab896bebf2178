-- ===== src/System/Safety.antt =====
-- The running program never panics, and nothing on its queues or in work comes from elsewhere than
-- the Services.
use nginx_k8s_loadbalancer.Base.{String, ◌≡◌, refl, List, [], ◌∷◌}
use nginx_k8s_loadbalancer.Result.{Error, ok, refused}
use nginx_k8s_loadbalancer.Core.{Event, ServerUpdateEvent}
use nginx_k8s_loadbalancer.Kubernetes.{Cluster}
use nginx_k8s_loadbalancer.Certification.Runs as SecretRuns
use nginx_k8s_loadbalancer.Configuration.Settings.Runs as ConfigRuns
use nginx_k8s_loadbalancer.Authentication.{Crypto, TlsConfig}
use nginx_k8s_loadbalancer.WorkQueue.{WorkQueue, HoldsOnlyAdded, Ref}
use nginx_k8s_loadbalancer.Synchronization.World.{NginxPlus}
use nginx_k8s_loadbalancer.Observation.Watcher.{retrieve_node_ips}
use nginx_k8s_loadbalancer.Observation.Watcher.Callbacks.{Notice, Announces}
use nginx_k8s_loadbalancer.System.{
  Action, noticed, configured, certified, event_taken, change_taken, watch_ended, event_handled,
  change_sent, State, step, steps,
}
use nginx_k8s_loadbalancer.System.Invariant.{IsSound}
use nginx_k8s_loadbalancer.System.Moves.{
  Keeps, event_taken-Keeps, change_taken-Keeps, watch_ended-Keeps, lost-Keeps, announced-Keeps,
}
use nginx_k8s_loadbalancer.System.Turns.{event_handled-Keeps, change_sent-Keeps}
use nginx_k8s_loadbalancer.Certification.Noticed.{NextKnown}
use nginx_k8s_loadbalancer.System.Reconfigured.{certified-Keeps, configured-Keeps}

-- An action of a worker, or the end of the watch.
abbrev pub IsTurn : Action → Type 0
IsTurn (noticed cluster n) = ⊥
IsTurn (configured cb) = ⊥
IsTurn (certified cb) = ⊥
IsTurn _ = Unit

-- The actions that may follow while these Secrets are known, and the Secrets that are known after
-- them: any turn of a worker and any callback of the ConfigMaps' informer; a callback of the
-- Secrets' informer that changes a known Secret only; a callback of the Services' informer whose
-- list of nodes is refused, or that announces an Event that is expected.
pub data Possible (Expected : Event → Type 0)
    : List String → List Action → List String → Type 0 where
  ended : (known : List String) → Possible Expected known [] known
  turned :
      {known after : List String} {rest : List Action} (a : Action)
      → IsTurn a
      → Possible Expected known rest after
      → Possible Expected known (a ∷ rest) after
  reconfigured :
      {known after : List String} {rest : List Action} (cb : ConfigRuns.Callback)
      → Possible Expected known rest after
      → Possible Expected known (configured cb ∷ rest) after
  secret_noticed :
      {known left after : List String} {rest : List Action} (cb : SecretRuns.Callback)
      → NextKnown known cb left
      → Possible Expected left rest after
      → Possible Expected known (certified cb ∷ rest) after
  lost :
      {known after : List String} {rest : List Action} (cluster : Cluster) (n : Notice) (e : Error)
      → cluster.list_nodes ≡ refused e
      → Possible Expected known rest after
      → Possible Expected known (noticed cluster n ∷ rest) after
  announced :
      {known after : List String} {rest : List Action} (cluster : Cluster) (n : Notice)
      (ips : List String) (e : Event)
      → retrieve_node_ips cluster ≡ ok ips
      → Announces ips n e
      → Expected e
      → Possible Expected known rest after
      → Possible Expected known (noticed cluster n ∷ rest) after

module _ {Cert KeyPair W : Type 0} (crypto : Crypto Cert KeyPair)
    (plus : NginxPlus (TlsConfig Cert KeyPair) W) (events : WorkQueue (Ref Event))
    (wq : WorkQueue (Ref ServerUpdateEvent)) (held : HoldsOnlyAdded events)
    (holds : HoldsOnlyAdded wq) (Expected : Event → Type 0) where
  turn-Keeps :
      (a : Action) (known : List String) (s : State crypto plus events wq)
      → IsTurn a
      → IsSound held holds Expected known s
      → Keeps crypto plus events wq held holds Expected known a s
  turn-Keeps event_taken known s turn sound =
      event_taken-Keeps crypto plus events wq held holds Expected known s sound
  turn-Keeps change_taken known s turn sound =
      change_taken-Keeps crypto plus events wq held holds Expected known s sound
  turn-Keeps watch_ended known s turn sound =
      watch_ended-Keeps crypto plus events wq held holds Expected known s sound
  turn-Keeps (event_handled n) known s turn sound =
      event_handled-Keeps crypto plus events wq held holds Expected known s sound n
  turn-Keeps (change_sent n) known s turn sound =
      change_sent-Keeps crypto plus events wq held holds Expected known s sound n
  turn-Keeps (noticed cluster n) known s turn sound = absurd turn
  turn-Keeps (configured cb) known s turn sound = absurd turn
  turn-Keeps (certified cb) known s turn sound = absurd turn

  abbrev Sound : List String → State crypto plus events wq → List Action → Type 0
  Sound after s actions =
      ((steps crypto plus events wq actions s).0 ≡ ok tt)
      × IsSound held holds Expected after (steps crypto plus events wq actions s).1

  -- One action that keeps the program sound, followed by actions that do.
  then_Sound :
      (a : Action) (rest : List Action) (known after : List String)
      (s : State crypto plus events wq)
      → Keeps crypto plus events wq held holds Expected known a s
      → (IsSound held holds Expected known (step crypto plus events wq a s).1
          → Sound after (step crypto plus events wq a s).1 rest)
      → Sound after s (a ∷ rest)
  unfolding steps
  then_Sound a rest known after s (done, sound) later = rw done (later sound)

-- The actions of the goroutines may come in any order, with any number of workers, as long as the
-- informer of the Services announces Services or finds the nodes not to be listed, and that of the
-- Secrets changes known Secrets only. Then the running program, once sound, does not panic and stays
-- sound: it has certificates, one of the five TLS modes and room for a jitter; every Event that is
-- queued or in work is an expected one; every change that is queued or in work is a copy, with a
-- host, of a change that the translation of an expected Event asks for.
pub steps-IsSound :
    {Cert KeyPair W : Type 0} (crypto : Crypto Cert KeyPair)
    (plus : NginxPlus (TlsConfig Cert KeyPair) W) (events : WorkQueue (Ref Event))
    (wq : WorkQueue (Ref ServerUpdateEvent)) (held : HoldsOnlyAdded events)
    (holds : HoldsOnlyAdded wq) (Expected : Event → Type 0) (known after : List String)
    (actions : List Action) (s : State crypto plus events wq)
    → Possible Expected known actions after
    → IsSound held holds Expected known s
    → ((steps crypto plus events wq actions s).0 ≡ ok tt)
      × IsSound held holds Expected after (steps crypto plus events wq actions s).1
unfolding steps
steps-IsSound crypto plus events wq held holds Expected known after actions s (ended k) sound =
    (refl, sound)
steps-IsSound crypto plus events wq held holds Expected known after actions s
      (turned {rest} a turn more) sound =
    then_Sound crypto plus events wq held holds Expected a rest known after s
      (turn-Keeps crypto plus events wq held holds Expected a known s turn sound)
      (λ next. steps-IsSound crypto plus events wq held holds Expected known after rest _ more next)
steps-IsSound crypto plus events wq held holds Expected known after actions s
      (reconfigured {rest} cb more) sound =
    then_Sound crypto plus events wq held holds Expected (configured cb) rest known after s
      (configured-Keeps crypto plus events wq held holds Expected known s sound cb)
      (λ next. steps-IsSound crypto plus events wq held holds Expected known after rest _ more next)
steps-IsSound crypto plus events wq held holds Expected known after actions s
      (secret_noticed {left} {rest} cb next_known more) sound =
    then_Sound crypto plus events wq held holds Expected (certified cb) rest left after s
      (certified-Keeps crypto plus events wq held holds Expected known s sound cb left next_known)
      (λ next. steps-IsSound crypto plus events wq held holds Expected left after rest _ more next)
steps-IsSound crypto plus events wq held holds Expected known after actions s
      (lost {rest} cluster n e failed more) sound =
    then_Sound crypto plus events wq held holds Expected (noticed cluster n) rest known after s
      (lost-Keeps crypto plus events wq held holds Expected known s sound cluster n e failed)
      (λ next. steps-IsSound crypto plus events wq held holds Expected known after rest _ more next)
steps-IsSound crypto plus events wq held holds Expected known after actions s
      (announced {rest} cluster n ips e listed announces expected more) sound =
    then_Sound crypto plus events wq held holds Expected (noticed cluster n) rest known after s
      (announced-Keeps crypto plus events wq held holds Expected known s sound cluster n ips e
        listed announces expected)
      (λ next. steps-IsSound crypto plus events wq held holds Expected known after rest _ more next)
