-- ===== src/System/Start.antt =====
-- From the start of the program on: what run leaves is what the goroutines need.
use nginx_k8s_loadbalancer.Base.{inl, inr, String, ◌≡◌, sym, subst, List, [], arith}
use nginx_k8s_loadbalancer.Result.{ok}
use nginx_k8s_loadbalancer.Context.{waits}
use nginx_k8s_loadbalancer.Certification.Runs as SecretRuns
use nginx_k8s_loadbalancer.Certification.Noticed.{KnownAfter}
use nginx_k8s_loadbalancer.Core.{Event, ServerUpdateEvent}
use nginx_k8s_loadbalancer.KubernetesClient.{ClientLibrary}
use nginx_k8s_loadbalancer.Configuration.Settings.{new_settings}
use nginx_k8s_loadbalancer.Authentication.{Crypto, TlsConfig}
use nginx_k8s_loadbalancer.WorkQueue.{WorkQueue, HoldsOnlyAdded, Ref}
use nginx_k8s_loadbalancer.Synchronization.World.{NginxPlus}
use nginx_k8s_loadbalancer.Observation.Watcher.{HandlerInterface}
use nginx_k8s_loadbalancer.Main.{Program, IsStarted, run, run-IsStarted}
use nginx_k8s_loadbalancer.System.{Action, Goroutines, State, steps}
use nginx_k8s_loadbalancer.System.Invariant.{IsConfigured, IsSound}
use nginx_k8s_loadbalancer.System.Safety.{Possible, steps-IsSound}

-- Nothing is queued yet, and nothing is in work.
pub record IsIdle {T W : Type 0} {events : WorkQueue (Ref Event)}
    {wq : WorkQueue (Ref ServerUpdateEvent)} (held : HoldsOnlyAdded events)
    (holds : HoldsOnlyAdded wq) (s : Goroutines events.Queue wq.Queue T W) : Type 0 where
  pub no_event : (e : Ref Event) → ¬ held.Holds s.watcher.handler.event_queue e
  pub no_change : (r : Ref ServerUpdateEvent) → ¬ holds.Holds s.watcher.handler.synchronizer.queue r
  pub no_event_in_work : s.handling ≡ []
  pub no_change_in_work : s.sending ≡ []

IsStarted-IsConfigured :
    {H : Type 0} (known : List String) (handler : H) (p : Program H)
    → IsStarted known handler p
    → IsConfigured known p.process
unfolding new_settings
IsStarted-IsConfigured known handler p started = record {
  certificates = started.ready.certificates;
  made = started.ready.made;
  knows = started.knows;
  named = started.ready.named;
  jitter = rw (started.synchronizer) (omega arith);
}

IsIdle-IsSound :
    {T W : Type 0} {events : WorkQueue (Ref Event)} {wq : WorkQueue (Ref ServerUpdateEvent)}
    (held : HoldsOnlyAdded events) (holds : HoldsOnlyAdded wq) (Expected : Event → Type 0)
    (known : List String) (s : Goroutines events.Queue wq.Queue T W)
    → IsIdle held holds s
    → IsConfigured known s.process
    → IsSound held holds Expected known s
IsIdle-IsSound held holds Expected known s idle configured = record {
  configured = configured;
  expected = record {
    waiting = λ e there. absurd (idle.no_event e there);
    in_work = rw (idle.no_event_in_work) (λ e member. absurd member);
  };
  stemming = record {
    waiting = λ r there. absurd (idle.no_change r there);
    in_work = rw (idle.no_change_in_work) (λ r member. absurd member);
  };
}

-- From the settings that a run with no error leaves, with the Secrets that are known by then, and from idle queues and workers: the actions of
-- the goroutines may come in any order, with any number of workers, as long as the informer of the
-- Services announces Services or finds the nodes not to be listed, and that of the Secrets changes
-- known Secrets only; then the program does not panic, it stays configured, every Event that is
-- queued or in work is an expected one, and every change that is queued or in work is a copy, with a
-- host, of a change that the translation of an expected Event asks for.
pub run-steps-IsSound :
    {H Config Cert KeyPair W : Type 0} (library : ClientLibrary Config)
    (handler : HandlerInterface H) (p : Program H) (crypto : Crypto Cert KeyPair)
    (plus : NginxPlus (TlsConfig Cert KeyPair) W) (events : WorkQueue (Ref Event))
    (wq : WorkQueue (Ref ServerUpdateEvent)) (held : HoldsOnlyAdded events)
    (holds : HoldsOnlyAdded wq) (Expected : Event → Type 0) (callbacks : List SecretRuns.Callback)
    (known after : List String) (actions : List Action) (s : State crypto plus events wq)
    → KnownAfter [] callbacks known
    → (run library handler callbacks p).0 ≡ ok waits
    → s.process ≡ (run library handler callbacks p).1.process
    → IsIdle held holds s
    → Possible Expected known actions after
    → ((steps crypto plus events wq actions s).0 ≡ ok tt)
      × IsSound held holds Expected after (steps crypto plus events wq actions s).1
run-steps-IsSound library handler p crypto plus events wq held holds Expected callbacks known after
      actions s legal ran same idle possible =
    let started : IsStarted known p.watcher.handler (run library handler callbacks p).1 =
      elim (run-IsStarted library handler callbacks known p legal) [
        | inl (done, started) ↦ started
        | inr (e, failed) ↦ absurd (cc)
      ] in
    steps-IsSound crypto plus events wq held holds Expected known after actions s possible (
      IsIdle-IsSound held holds Expected known s idle
        (subst (IsConfigured known) (sym same) (IsStarted-IsConfigured known _ _ started)))
