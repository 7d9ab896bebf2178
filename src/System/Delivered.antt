-- ===== src/System/Delivered.antt =====
-- What NGINX Plus serves, while the goroutines run: it follows the changes that the workers of the
-- synchronizer send, in the order in which they send them.
use nginx_k8s_loadbalancer.Base.{
  ◌≡◌, ◌≢◌, refl, subst, Option, none, some, List, [], ◌∷◌, ◌++◌, All, String,
}
use nginx_k8s_loadbalancer.Result.{Result, ok, err, panic}
use nginx_k8s_loadbalancer.Exec.{continue}
use nginx_k8s_loadbalancer.Core.{Event, ServerUpdateEvent}
use nginx_k8s_loadbalancer.Authentication.{Crypto, TlsConfig}
use nginx_k8s_loadbalancer.WorkQueue.{WorkQueue, Ref}
use nginx_k8s_loadbalancer.Application.Upstreams.{Target, Table, SameServers, servers_of, target_of}
use nginx_k8s_loadbalancer.Synchronization.World.{NginxPlus}
use nginx_k8s_loadbalancer.Synchronization.Delivery.{handle_event}
use nginx_k8s_loadbalancer.Synchronization.Delivery.Calls.{IsUpdate}
use nginx_k8s_loadbalancer.Synchronization.Delivery.Upstreams.{handle_event-Delivers}
use nginx_k8s_loadbalancer.Synchronization.Upstreams.{ServesUpstreams}
use nginx_k8s_loadbalancer.Synchronization.Upstreams.Shows.{
  Try, Shows, untried, Delivers-Shows, Shows-last,
}
use nginx_k8s_loadbalancer.Synchronization.Worker.{process}
use nginx_k8s_loadbalancer.System.{
  Action, noticed, configured, certified, event_taken, change_taken, watch_ended, event_handled,
  change_sent, State, step, steps, take_at, finish_change,
}
use nginx_k8s_loadbalancer.System.Outside.{IsSilent, step_frame, concluded_change}

module _ {Cert KeyPair W : Type 0} (crypto : Crypto Cert KeyPair)
    (plus : NginxPlus (TlsConfig Cert KeyPair) W) (events : WorkQueue (Ref Event))
    (wq : WorkQueue (Ref ServerUpdateEvent)) where
  -- The change that an action sends, if it sends one, with what comes of it.
  abbrev sends :
      State crypto plus events wq
      → Option (Ref ServerUpdateEvent × List (Ref ServerUpdateEvent))
      → List Try
  sends s none = []
  sends s (some (x, left)) =
      (
        x.value,
        (handle_event crypto plus s.process.settings x.value s.watcher.handler.synchronizer).0,
      )
      ∷ []

  abbrev tried : Action → State crypto plus events wq → List Try
  tried (change_sent n) s = sends s (take_at n s.sending)
  tried _ s = []

  abbrev unless_ended : Result (Unit {0}) → List Try → List Try
  unless_ended (ok u) later = later
  unless_ended _ later = []

  -- The changes that the actions send, in order, up to the first panic.
  unfoldable pub tries : List Action → State crypto plus events wq → List Try
  tries [] s = []
  tries (a ∷ actions) s =
      let after = step crypto plus events wq a s in
      tried a s ++ unless_ended after.0 (tries actions after.1)

  module _ (laws : ServesUpstreams plus) where
    -- What NGINX Plus serves.
    abbrev pub served : State crypto plus events wq → Table
    served s = laws.serves s.watcher.handler.synchronizer.outside

    quiet :
        (a : Action) (s : State crypto plus events wq) (t : Target) {later : List Try}
        {l' : List String}
        → IsSilent a
        → Shows laws.naming t later (served (step crypto plus events wq a s).1 t) l'
        → Shows laws.naming t later (served s t) l'
    quiet a s t {later} {l'} silent shows =
        subst (λ w. Shows laws.naming t later (laws.serves w t) l')
          (step_frame crypto plus events wq a s silent) shows

    sent :
        (s : State crypto plus events wq) (t : Target) {later : List Try} {l' : List String}
        (o : Option (Ref ServerUpdateEvent × List (Ref ServerUpdateEvent)))
        → Shows laws.naming t later (served (finish_change crypto plus events wq s o).1 t) l'
        → Shows laws.naming t (sends s o ++ later) (served s t) l'
    unfolding process
    sent s t none shows = shows
    sent s t {later} {l'} (some (x, left)) shows =
        let settings = s.process.settings in
        let w = s.watcher.handler.synchronizer in
        let out = handle_event crypto plus settings x.value w in
        Delivers-Shows laws.naming t x.value (served s) (laws.serves out.1.outside) out.0
          (handle_event-Delivers crypto plus laws settings x.value w)
          (subst (λ o. Shows laws.naming t later (laws.serves o t) l')
            (concluded_change crypto plus events wq (record s { sending = left }) x settings out)
            shows)

    -- What one action does to the tables: only a change that is sent can write them.
    step-Shows :
        (a : Action) (s : State crypto plus events wq) (t : Target) {later : List Try}
        {l' : List String}
        → Shows laws.naming t later (served (step crypto plus events wq a s).1 t) l'
        → Shows laws.naming t (tried a s ++ later) (served s t) l'
    step-Shows (noticed cluster n) s t shows = quiet (noticed cluster n) s t tt shows
    step-Shows (configured cb) s t shows = quiet (configured cb) s t tt shows
    step-Shows (certified cb) s t shows = quiet (certified cb) s t tt shows
    step-Shows event_taken s t shows = quiet event_taken s t tt shows
    step-Shows change_taken s t shows = quiet change_taken s t tt shows
    step-Shows watch_ended s t shows = quiet watch_ended s t tt shows
    step-Shows (event_handled n) s t shows = quiet (event_handled n) s t tt shows
    step-Shows (change_sent n) s t shows = sent s t (take_at n s.sending) (unfold step in shows)

    -- The rest of the actions, if the first has not ended the program.
    rest_of :
        (r : Result (Unit {0})) (actions : List Action) (s : State crypto plus events wq)
        (t : Target)
        → Shows laws.naming t
            (tries actions s)
            (served s t)
            (served (steps crypto plus events wq actions s).1 t)
        → Shows laws.naming t
            (unless_ended r (tries actions s))
            (served s t)
            (served (continue r (λ _. steps crypto plus events wq actions) s).1 t)
    rest_of (ok u) actions s t shows = shows
    rest_of (err e) actions s t shows = untried (served s t)
    rest_of (panic p) actions s t shows = untried (served s t)

-- As long as NGINX Plus serves its upstreams as its API promises: whatever the goroutines do, from any
-- state and up to a panic if there is one, what an upstream of NGINX Plus shows in the end is what the
-- changes that were sent make of what it showed before, in the order in which they were sent: one that
-- succeeded set its servers, in any order, or took one out, or did nothing if its type is an unknown
-- one; one that failed may have left any servers in its own upstream; and no other upstream is written.
pub steps-Shows :
    {Cert KeyPair W : Type 0} (crypto : Crypto Cert KeyPair)
    (plus : NginxPlus (TlsConfig Cert KeyPair) W) (events : WorkQueue (Ref Event))
    (wq : WorkQueue (Ref ServerUpdateEvent)) (laws : ServesUpstreams plus) (t : Target)
    (actions : List Action) (s : State crypto plus events wq)
    → Shows laws.naming t
        (tries crypto plus events wq actions s)
        (served crypto plus events wq laws s t)
        (served crypto plus events wq laws (steps crypto plus events wq actions s).1 t)
unfolding tries steps
steps-Shows crypto plus events wq laws t [] s = untried (served crypto plus events wq laws s t)
steps-Shows crypto plus events wq laws t (a ∷ actions) s =
    let after = step crypto plus events wq a s in
    step-Shows crypto plus events wq laws a s t (
      rest_of crypto plus events wq laws after.0 actions after.1 t
        (steps-Shows crypto plus events wq laws t actions after.1))

-- It is the order of sending that counts, and not that of the Events, as long as NGINX Plus serves its
-- upstreams as its API promises: if the last change that was sent for an upstream is an addition or a
-- change, and succeeded, then in the end the upstream shows the servers of that change, in any order,
-- however old the Event is from which it stems.
pub steps-last :
    {Cert KeyPair W : Type 0} (crypto : Crypto Cert KeyPair)
    (plus : NginxPlus (TlsConfig Cert KeyPair) W) (events : WorkQueue (Ref Event))
    (wq : WorkQueue (Ref ServerUpdateEvent)) (laws : ServesUpstreams plus) (actions : List Action)
    (s : State crypto plus events wq) (e : ServerUpdateEvent) (earlier later : List Try)
    → tries crypto plus events wq actions s ≡ earlier ++ (e, ok tt) ∷ later
    → IsUpdate e.event_type
    → All (λ (x : Try). target_of laws.naming e ≢ target_of laws.naming x.0) later
    → SameServers
        (served crypto plus events wq laws
          (steps crypto plus events wq actions s).1
          (target_of laws.naming e))
        (servers_of laws.naming e)
steps-last crypto plus events wq laws actions s e earlier later sent kind away =
    Shows-last laws.naming (target_of laws.naming e) e _ _ earlier later refl kind away (
      subst
        (λ l.
          Shows laws.naming (target_of laws.naming e) l
            (served crypto plus events wq laws s (target_of laws.naming e))
            (served crypto plus events wq laws (steps crypto plus events wq actions s).1
              (target_of laws.naming e)))
        sent (steps-Shows crypto plus events wq laws (target_of laws.naming e) actions s))
