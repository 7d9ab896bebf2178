-- ===== src/Observation/Handler/Drain.antt =====
-- The loop of the handler's worker ends: it takes one turn for each Event that its queue has to give.
use nginx_k8s_loadbalancer.Base.{ℕ, zero, suc, ◌<◌, ◌≡◌, refl, ap, [], inl, inr, ◌⊎◌, arith, length}
use nginx_k8s_loadbalancer.Core.{Event}
use nginx_k8s_loadbalancer.Configuration.Settings.{Settings}
use nginx_k8s_loadbalancer.WorkQueue.{WorkQueue, HasBacklog, Got-cases, Ref}
use nginx_k8s_loadbalancer.Base.Insertion.Arranged.{length-Inserted}
use nginx_k8s_loadbalancer.Synchronization.Worker.{waits, stopped}
use nginx_k8s_loadbalancer.Observation.Handler.{
  SynchronizerInterface, HandlerState, handle_next_event, worker,
}
use nginx_k8s_loadbalancer.Observation.Handler.Handover.{AcceptsAll, handle_next_event-Translates}

-- When no Event is added, and the synchronizer takes any changes, a worker of the handler that may
-- take more turns than its queue has Events to give either stops at a shutdown, or comes to wait
-- with nothing left on its queue to give; it does not panic.
pub handler_worker-Drains :
    (wq : WorkQueue (Ref Event)) (backlogs : HasBacklog wq) {S : Type 0} (settings : Settings)
    (sync : SynchronizerInterface S) (accepts : AcceptsAll sync) (fuel : ℕ)
    (h : HandlerState wq.Queue S)
    → length (backlogs.backlog h.event_queue) < fuel
    → (h' : HandlerState wq.Queue S) × (((worker wq settings sync fuel h ≡ waits h')
          × (backlogs.backlog h'.event_queue ≡ []))
        ⊎ (worker wq settings sync fuel h ≡ stopped h'))
unfolding worker
handler_worker-Drains wq backlogs settings sync accepts zero h enough = absurd (omega arith)
handler_worker-Drains wq backlogs settings sync accepts (suc fuel) h enough =
    elim (Got-cases (wq.get h.event_queue)) [
      | inl (x, q, got) ↦
          let (es, s', related, taken, turned) =
            handle_next_event-Translates wq settings sync accepts x q h got in
          let fewer = length-Inserted (backlogs.given x h.event_queue q got) in
          let same : length (backlogs.backlog (wq.done x q)) ≡ length (backlogs.backlog q) =
            ap length (backlogs.after_done x q) in
          rw turned (
            handler_worker-Drains wq backlogs settings sync accepts fuel
              (record { event_queue = wq.done x q; synchronizer = s' }) (omega arith))
      | inr (inl ended) ↦ (h, inr (unfold handle_next_event in rw ended refl))
      | inr (inr nothing) ↦ (
        h,
        inl (unfold handle_next_event in rw nothing refl, backlogs.at_rest h.event_queue nothing),
      )
    ]
