-- ===== src/System/Crew/Safety.antt =====
-- The program with its threads, from its start on: it never panics.
use nginx_k8s_loadbalancer.Base.{
  ℕ, ◌≤◌, String, ◌∙◌, ◌≡◌, refl, sym, ap, subst, List, [], ◌∷◌, length,
}
use nginx_k8s_loadbalancer.Result.{ok}
use nginx_k8s_loadbalancer.Context.{waits}
use nginx_k8s_loadbalancer.Certification.Runs as SecretRuns
use nginx_k8s_loadbalancer.Certification.Noticed.{KnownAfter}
use nginx_k8s_loadbalancer.Core.{Event, ServerUpdateEvent}
use nginx_k8s_loadbalancer.KubernetesClient.{ClientLibrary}
use nginx_k8s_loadbalancer.Authentication.{Crypto, TlsConfig}
use nginx_k8s_loadbalancer.WorkQueue.{WorkQueue, HoldsOnlyAdded, Ref}
use nginx_k8s_loadbalancer.Synchronization.World.{NginxPlus}
use nginx_k8s_loadbalancer.Synchronization.Worker
use nginx_k8s_loadbalancer.Observation.Handler
use nginx_k8s_loadbalancer.Observation.Watcher.{HandlerInterface}
use nginx_k8s_loadbalancer.Main.{Program, run}
use nginx_k8s_loadbalancer.System.{Action, event_taken, change_taken, event_handled, change_sent}
use nginx_k8s_loadbalancer.System.Invariant.{IsSound}
use nginx_k8s_loadbalancer.System.Start.{run-steps-IsSound}
use nginx_k8s_loadbalancer.System.Safety
use nginx_k8s_loadbalancer.System.Safety.{
  Possible, ended, turned, reconfigured, secret_noticed, lost, announced,
}
use nginx_k8s_loadbalancer.System.Crew.{
  Move, called, handler_turn, synchronizer_turn, CrewState, seen_as, moves,
}
use nginx_k8s_loadbalancer.System.Crew.Calls.{IsMove, Holds}
use nginx_k8s_loadbalancer.System.Crew.Runs.{
  Realizes, all_done, moved, passed, calls, moves-Realized,
}

-- The turn of a worker stands for such a turn.
handler_move : (n : ℕ) (a : Action) → IsMove (handler_turn n) a → Safety.IsTurn a
handler_move n event_taken is = tt
handler_move n (event_handled i) is = tt
handler_move n a is = absurd is

synchronizer_move : (n : ℕ) (a : Action) → IsMove (synchronizer_turn n) a → Safety.IsTurn a
synchronizer_move n change_taken is = tt
synchronizer_move n (change_sent i) is = tt
synchronizer_move n a is = absurd is

module _ (Expected : Event → Type 0) where
  -- After a possible action, whatever is possible from there.
  record After (known : List String) (a : Action) (rest : List Action) (after : List String)
      : Type 0 where
    next : List String
    then_rest : Possible Expected next rest after
    before :
        (others : List Action)
        → Possible Expected next others after
        → Possible Expected known (a ∷ others) after

  Possible-After :
      (known after : List String) (a : Action) (rest : List Action)
      → Possible Expected known (a ∷ rest) after
      → After known a rest after
  Possible-After known after a rest (turned _ turn more) = record {
    next = known;
    then_rest = more;
    before = λ others p. turned a turn p;
  }
  Possible-After known after a rest (reconfigured cb more) = record {
    next = known;
    then_rest = more;
    before = λ others p. reconfigured cb p;
  }
  Possible-After known after a rest (secret_noticed {left} cb knows more) = record {
    next = left;
    then_rest = more;
    before = λ others p. secret_noticed cb knows p;
  }
  Possible-After known after a rest (lost cluster n e failed more) = record {
    next = known;
    then_rest = more;
    before = λ others p. lost cluster n e failed p;
  }
  Possible-After known after a rest (announced cluster n ips e listed announces expected more) =
      record {
        next = known;
        then_rest = more;
        before = λ others p. announced cluster n ips e listed announces expected p;
      }

  -- Where the calls of informers are possible, so are the turns of the workers between them.
  Realizes-Possible :
      {ms : List Move} {actions : List Action} (known after : List String)
      → Realizes ms actions
      → Possible Expected known (calls ms) after
      → Possible Expected known actions after
  Realizes-Possible known after all_done possible = possible
  Realizes-Possible known after (moved {ms} {actions} (called b call) a is real) possible =
      let one = Possible-After known after b (calls ms) possible in
      subst (λ x. Possible Expected known (x ∷ actions) after) (sym is)
        (one.before actions (Realizes-Possible one.next after real one.then_rest))
  Realizes-Possible known after (moved (handler_turn n) a is real) possible =
      turned a (handler_move n a is) (Realizes-Possible known after real possible)
  Realizes-Possible known after (moved (synchronizer_turn n) a is real) possible =
      turned a (synchronizer_move n a is) (Realizes-Possible known after real possible)
  Realizes-Possible known after (passed (called b call) turn real) possible = absurd turn
  Realizes-Possible known after (passed (handler_turn n) turn real) possible =
      Realizes-Possible known after real possible
  Realizes-Possible known after (passed (synchronizer_turn n) turn real) possible =
      Realizes-Possible known after real possible

-- The program, from its start on, with as many workers as its settings have threads, and with any
-- Secrets that became known during the start: once run waits, having met no error, nothing that the workers do, in any order, and whatever NGINX Plus answers, makes
-- it panic, as long as the calls of the informers are possible ones: that of the Services announces
-- Services or finds the nodes not to be listed, and that of the Secrets changes known Secrets only. It
-- stays configured; every Event that is queued or in work is an expected one; every change that is
-- queued or in work is a copy, with a host, of a change that the translation of an expected Event asks
-- for; and no more Events and changes are in work than there are threads for them.
pub run-moves-IsSound :
    {H Config Cert KeyPair W : Type 0} (library : ClientLibrary Config)
    (handler : HandlerInterface H) (p : Program H) (crypto : Crypto Cert KeyPair)
    (plus : NginxPlus (TlsConfig Cert KeyPair) W) (events : WorkQueue (Ref Event))
    (wq : WorkQueue (Ref ServerUpdateEvent)) (held : HoldsOnlyAdded events)
    (holds : HoldsOnlyAdded wq) (Expected : Event → Type 0) (callbacks : List SecretRuns.Callback)
    (known after : List String) (ms : List Move) (c : CrewState crypto plus events wq)
    → KnownAfter [] callbacks known
    → (run library handler callbacks p).0 ≡ ok waits
    → c.process ≡ (run library handler callbacks p).1.process
    → c.handlers ≡ Handler.run c.process.settings
    → c.synchronizers ≡ Worker.run c.process.settings
    → ((e : Ref Event) → ¬ held.Holds c.watcher.handler.event_queue e)
    → ((r : Ref ServerUpdateEvent) → ¬ holds.Holds c.watcher.handler.synchronizer.queue r)
    → Possible Expected known (calls ms) after
    → ((moves crypto plus events wq ms c).0 ≡ ok tt)
      × (handling : List (Ref Event)) × (sending : List (Ref ServerUpdateEvent)) × Holds crypto plus
          events wq
          (moves crypto plus events wq ms c).1
          handling
          sending
      × IsSound held holds Expected after
          (seen_as crypto plus events wq (moves crypto plus events wq ms c).1 handling sending)
      × (length handling ≤ c.process.settings.handler.threads)
      × (length sending ≤ c.process.settings.synchronizer.threads)
run-moves-IsSound library handler p crypto plus events wq held holds Expected callbacks known after
      ms c legal ran same handlers synchronizers no_event no_change possible =
    let (actions, h, k, real, stepped, with_items, few, few') =
      moves-Realized crypto plus events wq c.process.settings c ms handlers synchronizers in
    let (done, sound) =
      run-steps-IsSound library handler p crypto plus events wq held holds Expected callbacks known
        after actions (seen_as crypto plus events wq c [] []) legal ran same
        (record {
          no_event = no_event;
          no_change = no_change;
          no_event_in_work = refl;
          no_change_in_work = refl;
        })
        (Realizes-Possible Expected known after real possible) in
    (
      sym (ap (λ r. r.0) stepped) ∙ done,
      h,
      k,
      with_items,
      subst (IsSound held holds Expected after) (ap (λ r. r.1) stepped) sound,
      few,
      few',
    )
