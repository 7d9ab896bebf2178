-- ===== src/Synchronization/Queueing/Enqueued.antt =====
-- What AddEvents of internal/synchronization/synchronizer.go puts on the queue.
use nginx_k8s_loadbalancer.Base.{
  ℕ, ◌+◌, ◌≤◌, ◌<◌, String, ◌≡◌, ◌≢◌, refl, subst, List, [], ◌∷◌, Bool-cases, inl, inr, arith, ◌==◌,
  eq_iff,
}
use nginx_k8s_loadbalancer.Result.{ok}
use nginx_k8s_loadbalancer.Core.{ServerUpdateEvent}
use nginx_k8s_loadbalancer.Configuration.Settings.{Settings}
use nginx_k8s_loadbalancer.WorkQueue.{WorkQueue, Ref}
use nginx_k8s_loadbalancer.Synchronization.Random.{random_milliseconds_bounds}
use nginx_k8s_loadbalancer.Synchronization.World.{World}
use nginx_k8s_loadbalancer.Synchronization.Queueing.{
  enqueue_after, add_event, add_all, add_events_to, add_events,
}
use nginx_k8s_loadbalancer.Synchronization.Queueing.FanOut.{
  FansOut, no_host, fan_out_event_to_hosts-FansOut,
}

-- From one queue to another by adding these events, in order: each with a delay in [min, max) of
-- its own, or not at all if it has no host.
pub data Enqueued (wq : WorkQueue (Ref ServerUpdateEvent)) (min max : ℕ)
    : List (Ref ServerUpdateEvent) → wq.Queue → wq.Queue → Type 0 where
  all_added : {q : wq.Queue} → Enqueued wq min max [] q q
  added :
      {rs : List (Ref ServerUpdateEvent)} {q q' : wq.Queue} (r : Ref ServerUpdateEvent) (ms : ℕ)
      → r.value.nginx_host ≢ ""
      → min ≤ ms
      → ms < max
      → Enqueued wq min max rs (wq.add_after r ms q) q'
      → Enqueued wq min max (r ∷ rs) q q'
  skipped :
      {rs : List (Ref ServerUpdateEvent)} {q q' : wq.Queue} (r : Ref ServerUpdateEvent)
      → r.value.nginx_host ≡ ""
      → Enqueued wq min max rs q q'
      → Enqueued wq min max (r ∷ rs) q q'

module _ (wq : WorkQueue (Ref ServerUpdateEvent)) {T W : Type 0} (settings : Settings)
    (jitter : settings.synchronizer.min_milliseconds_jitter
      < settings.synchronizer.max_milliseconds_jitter) where
  add_all-Enqueued :
      (rs : List (Ref ServerUpdateEvent)) (w : World wq.Queue T W)
      → (w' : World wq.Queue T W) × (add_all wq settings rs w ≡ (ok tt, w'))
        × Enqueued wq settings.synchronizer.min_milliseconds_jitter
            settings.synchronizer.max_milliseconds_jitter rs w.queue w'.queue
  unfolding add_all add_event enqueue_after
  add_all-Enqueued [] w = (w, refl, all_added)
  add_all-Enqueued (r ∷ rs) w = elim (Bool-cases (r.value.nginx_host == "")) [
    | inl h ↦
        let (w', done, e) = add_all-Enqueued rs w in
        (w', rw h done, skipped r ((eq_iff r.value.nginx_host "").0 h) e)
    | inr h ↦
        let (ms, drawn, lo, hi) =
          random_milliseconds_bounds settings.synchronizer.min_milliseconds_jitter
            settings.synchronizer.max_milliseconds_jitter w.random jitter in
        let (w', done, e) = add_all-Enqueued rs (record w {
          random = record w.random { drawn = w.random.drawn + 1 };
          queue = wq.add_after r ms w.queue;
        }) in
        (
          w',
          rw h (rw drawn done),
          added r ms (λ e. ground (arith, eq_iff r.value.nginx_host "")) lo hi e,
        )
  ]

  add_events_to-Enqueued :
      (hosts : List String) (es : List ServerUpdateEvent) (w : World wq.Queue T W)
      → settings.nginx_plus_hosts ≡ hosts
      → (rs : List (Ref ServerUpdateEvent)) × (w' : World wq.Queue T W) × (add_events_to wq settings
            hosts es w
          ≡ (ok tt, w'))
        × FansOut es hosts rs
        × Enqueued wq settings.synchronizer.min_milliseconds_jitter
            settings.synchronizer.max_milliseconds_jitter rs w.queue w'.queue
  unfolding add_events_to
  add_events_to-Enqueued [] es w h = ([], w, refl, no_host, all_added)
  add_events_to-Enqueued (host ∷ hosts) es w h =
      let (rs, w1, fanned, out, made) = fan_out_event_to_hosts-FansOut settings es w in
      let (w', done, e) = add_all-Enqueued rs w1 in
      (
        rs,
        w',
        rw fanned done,
        subst (λ hs. FansOut es hs rs) h out,
        subst
            (λ q.
              Enqueued wq settings.synchronizer.min_milliseconds_jitter
                settings.synchronizer.max_milliseconds_jitter rs q w'.queue)
            made.queue e,
      )

  -- With a minimum of the jitter below its maximum, AddEvents always returns, without an error or a
  -- panic: the queue got the copies of the changes for the configured hosts, in the order of the hosts
  -- and then of the changes, each with a delay in [min, max), except those of a host with an empty name.
  pub add_events-Enqueued :
      (es : List ServerUpdateEvent) (w : World wq.Queue T W)
      → (rs : List (Ref ServerUpdateEvent)) × (w' : World wq.Queue T W) × (add_events wq settings es
            w
          ≡ (ok tt, w'))
        × FansOut es settings.nginx_plus_hosts rs
        × Enqueued wq settings.synchronizer.min_milliseconds_jitter
            settings.synchronizer.max_milliseconds_jitter rs w.queue w'.queue
  unfolding add_events
  add_events-Enqueued es w = add_events_to-Enqueued settings.nginx_plus_hosts es w refl
