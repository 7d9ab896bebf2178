-- ===== src/Synchronization/Delivery/Upstreams.antt =====
-- The handling of a change does to the tables of NGINX Plus what it should.
use nginx_k8s_loadbalancer.Base.{◌≡◌, refl, sym, ap, ◌∙◌, subst, inl, inr, none, some, arith}
use nginx_k8s_loadbalancer.Result.{
  Error, Result, ok, err, panic, wrapped, Reply, replied, ok-injective, answered-eq-replied,
}
use nginx_k8s_loadbalancer.Exec.{wrap, continue}
use nginx_k8s_loadbalancer.Exec.Rules.{bind_frame, bind-eq-ok}
use nginx_k8s_loadbalancer.Core.{EventType, created, updated, deleted, other, ServerUpdateEvent}
use nginx_k8s_loadbalancer.Configuration.Settings.{Settings}
use nginx_k8s_loadbalancer.Authentication.{Crypto, TlsConfig}
use nginx_k8s_loadbalancer.Communication.{new_http_client}
use nginx_k8s_loadbalancer.Application
use nginx_k8s_loadbalancer.Application.{
  NginxClientInterface, AnyClient, Made, nginx, BorderClient, http, stream, null, update_failed,
  delete_failed, new_border_client, as_http_servers, as_stream_servers,
}
use nginx_k8s_loadbalancer.Application.Laws.{new_border_client_iff}
use nginx_k8s_loadbalancer.Base.Insertion.{Inserted}
use nginx_k8s_loadbalancer.Synchronization.World.{World, NginxPlus, on_transports, on_outside}
use nginx_k8s_loadbalancer.Synchronization.Delivery.{
  usable, build_border_client, handle_created_updated_event, handle_deleted_event, dispatch,
  handle_event, nginx_client, updating_failed, deleting_failed, border_client_failed,
  http_client_failed, nginx_client_failed,
}
use nginx_k8s_loadbalancer.Synchronization.Delivery.Calls.{IsUpdate}
use nginx_k8s_loadbalancer.Application.Upstreams.{target_of, Table, IsApiOf}
use nginx_k8s_loadbalancer.Application.Upstreams.Writes.{
  IsClientFor, Sets, Removes, update-Sets, delete-Removes,
}
use nginx_k8s_loadbalancer.Synchronization.Upstreams.{ServesUpstreams, Delivers}

wrapped-eq-ok : (f : Error → Error) (r : Result (Unit {0})) → wrapped f r ≡ ok tt → r ≡ ok tt
wrapped-eq-ok f (ok u) h = refl
wrapped-eq-ok f (err x) h = absurd (ground arith)
wrapped-eq-ok f (panic p) h = absurd (ground arith)

usable-eq-ok :
    {W : Type 0} (made : Made W) (b : BorderClient W) → usable made ≡ ok b → made ≡ (some b, none)
usable-eq-ok (client, some x) b h = absurd (ground arith)
usable-eq-ok (some c, none) b h = ap (λ (c : BorderClient _). (some c, none)) (ok-injective h)
usable-eq-ok (none, none) b h = absurd (ground arith)

module _ {Cert KeyPair W Q : Type 0} (crypto : Crypto Cert KeyPair)
    (plus : NginxPlus (TlsConfig Cert KeyPair) W) (laws : ServesUpstreams plus)
    (settings : Settings) (e : ServerUpdateEvent) (w : World Q (TlsConfig Cert KeyPair) W) where
  abbrev served : World Q (TlsConfig Cert KeyPair) W → Table
  served v = laws.serves v.outside

  -- Making a border client writes nothing, and the client is one for the change.
  build_served : served (build_border_client crypto plus settings e w).1 ≡ served w
  unfolding build_border_client nginx_client
  build_served =
      let made = wrap http_client_failed (on_transports (new_http_client crypto settings)) in
      let w' : World Q (TlsConfig Cert KeyPair) W = (made w).1 in
      bind_frame served made _ w refl (λ http.
        bind_frame served (nginx_client crypto plus settings e.nginx_host http) _ w'
          (laws.only_asks e.nginx_host http w'.transports w'.outside) (λ ngx. refl))

  made-IsClientFor :
      (api : NginxClientInterface W) (b : BorderClient W)
      → IsApiOf laws.naming laws.serves e.nginx_host api
      → new_border_client e.client_type (nginx api) ≡ (some b, none)
      → IsClientFor laws.naming laws.serves e b
  made-IsClientFor api b mine made =
      let (c, same, which) = (new_border_client_iff e.client_type (nginx api) (some b)).0 made in
      let api_is : api ≡ c = cc in
      elim which [
        | inl (kind, e') ↦
            let made_is : b ≡ stream api = cc in
            subst (IsClientFor laws.naming laws.serves e) (sym made_is) (kind, mine)
        | inr (kind, e') ↦
            let made_is : b ≡ http api = cc in
            subst (IsClientFor laws.naming laws.serves e) (sym made_is) (kind, mine)
      ]

  -- The client that is made is one for the change.
  build-IsClientFor :
      (b : BorderClient W)
      → (build_border_client crypto plus settings e w).0 ≡ ok b
      → IsClientFor laws.naming laws.serves e b
  unfolding build_border_client nginx_client
  build-IsClientFor b h =
      let made = wrap http_client_failed (on_transports (new_http_client crypto settings)) in
      let v : World Q (TlsConfig Cert KeyPair) W = (made w).1 in
      let (client, got, later) = bind-eq-ok made _ w h in
      let (ngx, answered_by, last) =
        bind-eq-ok (nginx_client crypto plus settings e.nginx_host client) _ v later in
      let fits = usable-eq-ok (new_border_client e.client_type ngx) b last in
      let (api, is_nginx, which) = (new_border_client_iff e.client_type ngx (some b)).0 fits in
      let reply = plus.new_nginx_client e.nginx_host client v.transports v.outside in
      let replied_with : reply.0 ≡ replied (nginx api) =
        answered-eq-replied nginx_client_failed reply.0 ngx answered_by ∙ ap replied is_nginx in
      made-IsClientFor api b
        (laws.reached e.nginx_host client v.transports v.outside reply.1 api
          (ap (λ (r : Reply (AnyClient W)). (r, reply.1)) replied_with))
        (subst (λ a. new_border_client e.client_type a ≡ (some b, none)) is_nginx fits)

  -- What comes of a call, once the border client is made or not.
  abbrev UpdateSets : Result (Unit {0}) × World Q (TlsConfig Cert KeyPair) W → Type 0
  UpdateSets (r, v) =
      Sets laws.naming (target_of laws.naming e) e.upstream_servers r (served w) (served v)

  abbrev DeleteRemoves : Result (Unit {0}) × World Q (TlsConfig Cert KeyPair) W → Type 0
  DeleteRemoves (r, v) =
      Removes laws.naming (target_of laws.naming e) e.upstream_servers r (served w) (served v)

  updating-Sets :
      (r : Result (BorderClient W)) (v : World Q (TlsConfig Cert KeyPair) W)
      → ((b : BorderClient W) → r ≡ ok b → IsClientFor laws.naming laws.serves e b)
      → served v ≡ served w
      → UpdateSets (
          continue
            (wrapped border_client_failed r)
            (λ b. wrap (updating_failed e.client_type) (on_outside (Application.update b e)))
            v)
  updating-Sets (ok b) v mine kept =
      let sets = update-Sets laws.naming laws.serves e v.outside b (mine b refl) in
      record {
        writes_only = λ t ne. sets.writes_only t ne ∙ ap (λ (f : Table). f t) kept;
        set = λ h. sets.set (wrapped-eq-ok (updating_failed e.client_type) _ h);
      }
  updating-Sets (err x) v mine kept = record {
    writes_only = λ t ne. ap (λ (f : Table). f t) kept;
    set = λ h. absurd (ground arith);
  }
  updating-Sets (panic p) v mine kept = record {
    writes_only = λ t ne. ap (λ (f : Table). f t) kept;
    set = λ h. absurd (ground arith);
  }

  deleting-Removes :
      (r : Result (BorderClient W)) (v : World Q (TlsConfig Cert KeyPair) W)
      → ((b : BorderClient W) → r ≡ ok b → IsClientFor laws.naming laws.serves e b)
      → served v ≡ served w
      → DeleteRemoves (
          continue
            (wrapped border_client_failed r)
            (λ b. wrap (deleting_failed e.client_type) (on_outside (Application.delete b e)))
            v)
  deleting-Removes (ok b) v mine kept =
      let removes = delete-Removes laws.naming laws.serves e v.outside b (mine b refl) in
      record {
        writes_only = λ t ne. removes.writes_only t ne ∙ ap (λ (f : Table). f t) kept;
        removed = λ h.
            let (s, rest, named, one) =
              removes.removed (wrapped-eq-ok (deleting_failed e.client_type) _ h) in
            (
              s,
              rest,
              named,
              subst
                  (λ (f : Table).
                    Inserted (laws.naming.listed_as s.host)
                      (laws.serves (Application.delete b e v.outside).1 (target_of laws.naming e))
                      (f (target_of laws.naming e)))
                  kept one,
            );
      }
  deleting-Removes (err x) v mine kept = record {
    writes_only = λ t ne. ap (λ (f : Table). f t) kept;
    removed = λ h. absurd (ground arith);
  }
  deleting-Removes (panic p) v mine kept = record {
    writes_only = λ t ne. ap (λ (f : Table). f t) kept;
    removed = λ h. absurd (ground arith);
  }

  abbrev HandlingDelivers : Result (Unit {0}) × World Q (TlsConfig Cert KeyPair) W → Type 0
  HandlingDelivers (r, v) = Delivers laws.naming e r (served w) (served v)

  update-Delivers :
      (out : Result (Unit {0}) × World Q (TlsConfig Cert KeyPair) W)
      → IsUpdate e.event_type
      → UpdateSets out
      → HandlingDelivers out
  update-Delivers out kind sets = record {
    writes_only = sets.writes_only;
    set = λ h _. sets.set h;
    removed = λ h gone. absurd (subst IsUpdate gone kind);
    ignored = λ n unknown. absurd (subst IsUpdate unknown kind);
  }

  dispatch-Delivers :
      (ty : EventType) → e.event_type ≡ ty → HandlingDelivers (dispatch crypto plus settings ty e w)
  unfolding dispatch handle_created_updated_event handle_deleted_event
  dispatch-Delivers created same =
      update-Delivers (handle_created_updated_event crypto plus settings e w)
        (subst IsUpdate (sym same) tt) (updating-Sets _ _ build-IsClientFor build_served)
  dispatch-Delivers updated same =
      update-Delivers (handle_created_updated_event crypto plus settings e w)
        (subst IsUpdate (sym same) tt) (updating-Sets _ _ build-IsClientFor build_served)
  dispatch-Delivers deleted same =
      let removes = deleting-Removes _ _ build-IsClientFor build_served in
      record {
        writes_only = removes.writes_only;
        set = λ h kind. absurd (subst IsUpdate same kind);
        removed = λ h _. removes.removed h;
        ignored = λ n unknown. absurd (ground arith);
      }
  dispatch-Delivers (other n) same = record {
    writes_only = λ t ne. refl;
    set = λ h kind. absurd (subst IsUpdate same kind);
    removed = λ h gone. absurd (ground arith);
    ignored = λ m unknown. refl;
  }

-- The handling of a change delivers it: no other upstream is written, whatever comes of it; when it
-- succeeds, an added or changed Service has set the servers of its upstream to those of the change,
-- and a deleted one has taken the first of the change's servers out of it, once; a change of an
-- unknown type writes nothing.
pub handle_event-Delivers :
    {Cert KeyPair W Q : Type 0} (crypto : Crypto Cert KeyPair)
    (plus : NginxPlus (TlsConfig Cert KeyPair) W) (laws : ServesUpstreams plus)
    (settings : Settings) (e : ServerUpdateEvent) (w : World Q (TlsConfig Cert KeyPair) W)
    → Delivers laws.naming e
        (handle_event crypto plus settings e w).0
        (laws.serves w.outside)
        (laws.serves (handle_event crypto plus settings e w).1.outside)
unfolding handle_event
handle_event-Delivers crypto plus laws settings e w =
    dispatch-Delivers crypto plus laws settings e w e.event_type refl
