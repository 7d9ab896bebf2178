-- ===== src/System/Outside.antt =====
-- Which of the goroutines' actions reach the world outside the program.
use nginx_k8s_loadbalancer.Base.{◌≡◌, refl, ap, ◌∙◌, Option, none, some, List, arith}
use nginx_k8s_loadbalancer.Result.{Result, ok, err, panic, wrapped}
use nginx_k8s_loadbalancer.Exec.{lift}
use nginx_k8s_loadbalancer.Exec.Rules.{bind_frame}
use nginx_k8s_loadbalancer.Core.{Event, ServerUpdateEvent}
use nginx_k8s_loadbalancer.Certification.Runs as SecretRuns
use nginx_k8s_loadbalancer.Certification.{Certificates}
use nginx_k8s_loadbalancer.Authentication.{Crypto, TlsConfig}
use nginx_k8s_loadbalancer.WorkQueue.{WorkQueue, Got, item, quit, blocked, Ref}
use nginx_k8s_loadbalancer.Synchronization.World.{World, NginxPlus}
use nginx_k8s_loadbalancer.Synchronization.Queueing.Frame.{add_events_frame}
use nginx_k8s_loadbalancer.Synchronization.Worker.{process}
use nginx_k8s_loadbalancer.Synchronization.Worker
use nginx_k8s_loadbalancer.Observation.Handler
use nginx_k8s_loadbalancer.Observation.Handler.{translating_failed, hand_over}
use nginx_k8s_loadbalancer.Observation.Watcher.{WatcherState}
use nginx_k8s_loadbalancer.Observation.Watcher.Callbacks.{Notice, added, removed, changed, notify}
use nginx_k8s_loadbalancer.Translation.{translate}
use nginx_k8s_loadbalancer.Kubernetes.{Cluster}
use nginx_k8s_loadbalancer.Configuration.Settings.{Settings}
use nginx_k8s_loadbalancer.Pipeline.{synchronizer}
use nginx_k8s_loadbalancer.System.{
  Action, noticed, configured, certified, event_taken, change_taken, watch_ended, event_handled,
  change_sent, State, step, take_at, HandlerPart, put_handler, put_world, handler_interface,
  finish_event, start_event, start_change, certify, put_certificates,
}

-- The actions in which no change is sent.
abbrev pub IsSilent : Action → Type 0
IsSilent (change_sent n) = ⊥
IsSilent _ = Unit

module _ {Cert KeyPair W : Type 0} (crypto : Crypto Cert KeyPair)
    (plus : NginxPlus (TlsConfig Cert KeyPair) W) (events : WorkQueue (Ref Event))
    (wq : WorkQueue (Ref ServerUpdateEvent)) where
  abbrev pub world : State crypto plus events wq → World wq.Queue (TlsConfig Cert KeyPair) W
  world s = s.watcher.handler.synchronizer

  abbrev pub outside_of : Result (Unit {0}) × State crypto plus events wq → W
  outside_of (r, s) = (world s).outside

  abbrev synchronizer_of :
      Result (Unit {0}) × WatcherState (HandlerPart crypto plus events wq)
      → World wq.Queue (TlsConfig Cert KeyPair) W
  synchronizer_of (r, w) = w.handler.synchronizer

  -- A worker of the handler reaches nothing outside.
  handed_over_frame :
      (settings : Settings) (e : Event) (h : HandlerPart crypto plus events wq)
      → (Handler.handle_event (synchronizer wq settings) e h).1.synchronizer.outside
        ≡ h.synchronizer.outside
  unfolding Handler.handle_event
  handed_over_frame settings e h =
      bind_frame (λ (v : HandlerPart crypto plus events wq). v.synchronizer.outside)
        (lift (wrapped translating_failed (translate e))) (hand_over (synchronizer wq settings)) h
        refl (λ es. add_events_frame wq settings es h.synchronizer)

  concluded_event :
      (s : State crypto plus events wq) (x : Ref Event) (settings : Settings)
      (out : Result (Unit {0}) × HandlerPart crypto plus events wq)
      → outside_of (
          put_handler crypto plus events wq s
            (Handler.conclude events settings (synchronizer wq settings) x out))
        ≡ out.1.synchronizer.outside
  concluded_event s x settings (ok u, h) = refl
  concluded_event s x settings (err e, h) = refl
  concluded_event s x settings (panic p, h) = refl

  pub concluded_change :
      (s : State crypto plus events wq) (x : Ref ServerUpdateEvent) (settings : Settings)
      (out : Result (Unit {0}) × World wq.Queue (TlsConfig Cert KeyPair) W)
      → outside_of
          (put_world crypto plus events wq s (Worker.conclude crypto plus wq settings x out))
        ≡ out.1.outside
  concluded_change s x settings (ok u, w) = refl
  concluded_change s x settings (err e, w) = refl
  concluded_change s x settings (panic p, w) = refl

  finish_event_frame :
      (s : State crypto plus events wq) (o : Option (Ref Event × List (Ref Event)))
      → outside_of (finish_event crypto plus events wq s o) ≡ (world s).outside
  finish_event_frame s none = refl
  finish_event_frame s (some (x, left)) =
      concluded_event (record s { handling = left }) x s.process.settings
        (Handler.handle_event (synchronizer wq s.process.settings) x.value s.watcher.handler)
      ∙ handed_over_frame s.process.settings x.value s.watcher.handler

  notify_frame :
      (cluster : Cluster) (n : Notice) (w : WatcherState (HandlerPart crypto plus events wq))
      → synchronizer_of (
          notify (handler_interface events (World wq.Queue (TlsConfig Cert KeyPair) W)) cluster n w)
        ≡ w.handler.synchronizer
  unfolding notify Handler.add_rate_limited_event
  notify_frame cluster (added obj) w = ground arith
  notify_frame cluster (removed obj) w = ground arith
  notify_frame cluster (changed old obj) w = ground arith

  put_certificates_frame :
      (s : State crypto plus events wq) (r : Result Certificates)
      → outside_of (put_certificates crypto plus events wq s r) ≡ (world s).outside
  put_certificates_frame s (ok c) = refl
  put_certificates_frame s (err e) = refl
  put_certificates_frame s (panic p) = refl

  certify_frame :
      (s : State crypto plus events wq) (cb : SecretRuns.Callback) (o : Option Certificates)
      → outside_of (certify crypto plus events wq cb s o) ≡ (world s).outside
  certify_frame s cb none = refl
  certify_frame s cb (some c) = put_certificates_frame s (SecretRuns.call cb c)

  start_event_frame :
      (s : State crypto plus events wq) (g : Got events.Queue (Ref Event))
      → (world (start_event crypto plus events wq s g)).outside ≡ (world s).outside
  start_event_frame s (item x q) = refl
  start_event_frame s quit = refl
  start_event_frame s blocked = refl

  start_change_frame :
      (s : State crypto plus events wq) (g : Got wq.Queue (Ref ServerUpdateEvent))
      → (world (start_change crypto plus events wq s g)).outside ≡ (world s).outside
  start_change_frame s (item x q) = refl
  start_change_frame s quit = refl
  start_change_frame s blocked = refl

  -- No action but the sending of a change reaches the world outside.
  pub step_frame :
      (a : Action) (s : State crypto plus events wq)
      → IsSilent a
      → outside_of (step crypto plus events wq a s) ≡ (world s).outside
  unfolding step Handler.shut_down
  step_frame (noticed cluster n) s silent =
      ap (λ (w : World wq.Queue (TlsConfig Cert KeyPair) W). w.outside)
        (notify_frame cluster n s.watcher)
  step_frame (configured cb) s silent = refl
  step_frame (certified cb) s silent = certify_frame s cb s.process.settings.certificates
  step_frame event_taken s silent = start_event_frame s (events.get s.watcher.handler.event_queue)
  step_frame change_taken s silent = start_change_frame s (wq.get (world s).queue)
  step_frame watch_ended s silent = refl
  step_frame (event_handled n) s silent = finish_event_frame s (take_at n s.handling)
  step_frame (change_sent n) s silent = absurd silent
