-- ===== src/Synchronization/Queueing/Frame.antt =====
-- AddEvents reaches nothing outside the program.
use nginx_k8s_loadbalancer.Base.{String, ◌≡◌, refl, ◌∙◌, List, [], ◌∷◌, ◌==◌, Bool-cases, inl, inr}
use nginx_k8s_loadbalancer.Exec.Rules.{bind_frame}
use nginx_k8s_loadbalancer.Core.{ServerUpdateEvent}
use nginx_k8s_loadbalancer.Configuration.Settings.{Settings}
use nginx_k8s_loadbalancer.WorkQueue.{WorkQueue, Ref}
use nginx_k8s_loadbalancer.Synchronization.World.{World, on_random}
use nginx_k8s_loadbalancer.Synchronization.Random.{random_milliseconds}
use nginx_k8s_loadbalancer.Synchronization.Queueing.{
  enqueue_after, add_event, add_all, add_events_to, add_events,
}
use nginx_k8s_loadbalancer.Synchronization.Queueing.FanOut.{fan_out_event_to_hosts-FansOut}

module _ (wq : WorkQueue (Ref ServerUpdateEvent)) {T W : Type 0} (settings : Settings) where
  abbrev outside : World wq.Queue T W → W
  outside w = w.outside

  add_event_frame :
      (e : Ref ServerUpdateEvent) (w : World wq.Queue T W)
      → outside (add_event wq settings e w).1 ≡ outside w
  unfolding add_event
  add_event_frame e w = elim (Bool-cases (e.value.nginx_host == "")) [
    | inl h ↦ rw h refl
    | inr h ↦ rw h (
        bind_frame outside
          (on_random (
            random_milliseconds settings.synchronizer.min_milliseconds_jitter
              settings.synchronizer.max_milliseconds_jitter))
          (enqueue_after wq settings e) w refl (λ after. unfold enqueue_after in refl))
  ]

  add_all_frame :
      (es : List (Ref ServerUpdateEvent)) (w : World wq.Queue T W)
      → outside (add_all wq settings es w).1 ≡ outside w
  unfolding add_all
  add_all_frame [] w = refl
  add_all_frame (e ∷ es) w =
      bind_frame outside (add_event wq settings e) (λ _. add_all wq settings es) w
        (add_event_frame e w) (λ _. add_all_frame es (add_event wq settings e w).1)

  add_events_to_frame :
      (hosts : List String) (es : List ServerUpdateEvent) (w : World wq.Queue T W)
      → outside (add_events_to wq settings hosts es w).1 ≡ outside w
  unfolding add_events_to
  add_events_to_frame [] es w = refl
  add_events_to_frame (host ∷ hosts) es w =
      let (rs, v, fanned, out, made) = fan_out_event_to_hosts-FansOut settings es w in
      rw fanned (add_all_frame rs v ∙ made.outside)

  -- The world outside is as it was, whatever comes of AddEvents.
  pub add_events_frame :
      (es : List ServerUpdateEvent) (w : World wq.Queue T W)
      → outside (add_events wq settings es w).1 ≡ outside w
  unfolding add_events
  add_events_frame es w = add_events_to_frame settings.nginx_plus_hosts es w
