-- ===== src/Synchronization/Queueing.antt =====
-- AddEvents, AddEvent and fanOutEventToHosts of internal/synchronization/synchronizer.go.
pub mod FanOut
pub mod Enqueued
pub mod Frame
use nginx_k8s_loadbalancer.Base.{
  ℕ, zero, suc, ◌+◌, String, List, [], ◌∷◌, ◌++◌, ◌==◌, if◌then◌else◌,
}
use nginx_k8s_loadbalancer.Text.{◌⧺◌}
use nginx_k8s_loadbalancer.Text.Decimal.{decimal}
use nginx_k8s_loadbalancer.Result.{ok}
use nginx_k8s_loadbalancer.Exec.{Exec, ◌>>=◌, ◌>>◌, pure}
use nginx_k8s_loadbalancer.Core.{ServerUpdateEvent, with_id_and_host}
use nginx_k8s_loadbalancer.Configuration.Settings.{Settings}
use nginx_k8s_loadbalancer.WorkQueue.{WorkQueue, Ref}
use nginx_k8s_loadbalancer.Synchronization.Random.{random_string, random_milliseconds}
use nginx_k8s_loadbalancer.Synchronization.World.{World, on_random}

-- fmt.Sprintf(`[%d:%d]-[%s]-[%s]-[%s]`, hidx, eidx, random, upstream, host)
unfoldable pub event_id : ℕ → ℕ → String → String → String → String
event_id hidx eidx random upstream host =
    "[" ⧺ decimal hidx ⧺ ":" ⧺ decimal eidx ⧺ "]-[" ⧺ random ⧺ "]-[" ⧺ upstream ⧺ "]-[" ⧺ host ⧺ "]"

module _ {Q T W : Type 0} where
  -- A new pointer.
  unfoldable pub allocate : ServerUpdateEvent → Exec (World Q T W) (Ref ServerUpdateEvent)
  allocate e w = (ok (record { address = w.next; value = e }), record w { next = w.next + 1 })

  -- The inner loop, over the events from the index eidx on.
  unfoldable pub fan_out_to_host :
      ℕ → String → ℕ → List ServerUpdateEvent → Exec (World Q T W) (List (Ref ServerUpdateEvent))
  unfolding allocate event_id
  fan_out_to_host hidx host eidx [] = pure []
  fan_out_to_host hidx host eidx (event ∷ events) = do
    random ← on_random (random_string 12)
    updated ←
        allocate (with_id_and_host event (event_id hidx eidx random event.upstream_name host) host)
    later ← fan_out_to_host hidx host (suc eidx) events
    pure (updated ∷ later)

  -- The outer loop, over the hosts from the index hidx on.
  unfoldable pub fan_out_from :
      ℕ → List String → List ServerUpdateEvent → Exec (World Q T W) (List (Ref ServerUpdateEvent))
  unfolding fan_out_to_host
  fan_out_from hidx [] events = pure []
  fan_out_from hidx (host ∷ hosts) events = do
    here ← fan_out_to_host hidx host 0 events
    later ← fan_out_from (suc hidx) hosts events
    pure (here ++ later)

  unfoldable pub fan_out_event_to_hosts :
      Settings → List ServerUpdateEvent → Exec (World Q T W) (List (Ref ServerUpdateEvent))
  unfolding fan_out_from
  fan_out_event_to_hosts settings events = fan_out_from 0 settings.nginx_plus_hosts events

module _ (wq : WorkQueue (Ref ServerUpdateEvent)) {T W : Type 0} (settings : Settings) where
  enqueue_after : Ref ServerUpdateEvent → ℕ → Exec (World wq.Queue T W) Unit
  enqueue_after event after w = (ok tt, record w { queue = wq.add_after event after w.queue })

  unfoldable pub add_event : Ref ServerUpdateEvent → Exec (World wq.Queue T W) Unit
  unfolding enqueue_after
  add_event event w =
      if event.value.nginx_host == ""
      then (ok tt, w)
      else (do
        after ← on_random (
            random_milliseconds settings.synchronizer.min_milliseconds_jitter
              settings.synchronizer.max_milliseconds_jitter)
        enqueue_after event after)
          w

  unfoldable pub add_all : List (Ref ServerUpdateEvent) → Exec (World wq.Queue T W) Unit
  unfolding add_event
  add_all [] = pure tt
  add_all (event ∷ events) = do add_event event; add_all events

  -- AddEvents, by the hosts of the settings: without one, it only warns.
  unfoldable pub add_events_to :
      List String → List ServerUpdateEvent → Exec (World wq.Queue T W) Unit
  unfolding add_all fan_out_event_to_hosts
  add_events_to [] events = pure tt
  add_events_to (_ ∷ _) events = do
    updated ← fan_out_event_to_hosts settings events
    add_all updated

  unfoldable pub add_events : List ServerUpdateEvent → Exec (World wq.Queue T W) Unit
  unfolding add_events_to
  add_events events = add_events_to settings.nginx_plus_hosts events
