-- ===== src/Translation/Relation.antt =====
-- What a translation should be, port by port, as a relation; the translator computes it for every
-- event, with no error and no panic.
use nginx_k8s_loadbalancer.Base.{
  String, ◌≡◌, refl, ap, ◌∙◌, false, List, [], ◌∷◌, ◌++◌, map, inl, inr, Bool-cases,
}
use nginx_k8s_loadbalancer.Text.{◌⧺◌, has_prefix}
use nginx_k8s_loadbalancer.Text.Prefix.{has_prefix-split, slice_from-append}
use nginx_k8s_loadbalancer.Result.{ok, or_panic}
use nginx_k8s_loadbalancer.Core.{
  ServicePort, EventType, created, updated, deleted, other, Event, UpstreamServer,
  ServerUpdateEvent,
}
use nginx_k8s_loadbalancer.Configuration.Constants.{nlk_prefix}
use nginx_k8s_loadbalancer.Translation.{
  filter_ports, fix_ingress_name, host_of, build_upstream_servers, get_client_type,
  single_server_events, events_for, build_server_update_events, translate,
}

-- The servers of a port: each node's address with the port's node port.
abbrev pub servers_at : List String → ServicePort → List UpstreamServer
servers_at node_ips port = map (λ ip. record { host = host_of ip port }) node_ips

abbrev pub change : EventType → String → String → List UpstreamServer → ServerUpdateEvent
change t name client_type servers = record {
  client_type = client_type;
  id = "";
  nginx_host = "";
  event_type = t;
  upstream_name = name;
  upstream_servers = servers;
}

-- The changes that one event makes to one upstream.
abbrev pub changes : EventType → String → String → List UpstreamServer → List ServerUpdateEvent
changes created name client_type servers = change created name client_type servers ∷ []
changes updated name client_type servers = change updated name client_type servers ∷ []
changes deleted name client_type servers =
    map (λ s. change deleted name client_type (s ∷ [])) servers
changes (other n) name client_type servers = []

pub data Translates (e : Event) : List ServicePort → List ServerUpdateEvent → Type 0 where
  finished : Translates e [] []
  ignored :
      {p : ServicePort} {ps : List ServicePort} {es : List ServerUpdateEvent}
      → has_prefix p.name nlk_prefix ≡ false
      → Translates e ps es
      → Translates e (p ∷ ps) es
  translated :
      {p : ServicePort} {ps : List ServicePort} {es : List ServerUpdateEvent} (name : String)
      → p.name ≡ nlk_prefix ⧺ name
      → Translates e ps es
      → Translates e (p ∷ ps) (
          changes e.event_type name
            (get_client_type p.name e.service.annotations)
            (servers_at e.node_ips p)
          ++ es)

fix_ingress_name-append : (name : String) → fix_ingress_name (nlk_prefix ⧺ name) ≡ ok name
unfolding fix_ingress_name
fix_ingress_name-append name =
    ap (λ o. or_panic o "slice bounds out of range") (slice_from-append "nlk-" name)

build_upstream_servers-eq-servers_at :
    (node_ips : List String) (p : ServicePort)
    → build_upstream_servers node_ips p ≡ servers_at node_ips p
unfolding build_upstream_servers
build_upstream_servers-eq-servers_at [] p = refl
build_upstream_servers-eq-servers_at (ip ∷ ips) p =
    ap (λ l. record { host = host_of ip p } ∷ l) (build_upstream_servers-eq-servers_at ips p)

single_server_events-eq-map :
    (name t : String) (servers : List UpstreamServer)
    → single_server_events name t servers ≡ changes deleted name t servers
unfolding single_server_events
single_server_events-eq-map name t [] = refl
single_server_events-eq-map name t (s ∷ servers) =
    ap (λ l. change deleted name t (s ∷ []) ∷ l) (single_server_events-eq-map name t servers)

events_for-eq-changes :
    (ty : EventType) (name t : String) (servers : List UpstreamServer)
    → events_for ty name t servers ≡ changes ty name t servers
unfolding events_for
events_for-eq-changes created name t servers = refl
events_for-eq-changes updated name t servers = refl
events_for-eq-changes deleted name t servers = single_server_events-eq-map name t servers
events_for-eq-changes (other n) name t servers = refl

build-cons :
    (e : Event) (p : ServicePort) (ps : List ServicePort) (name : String)
    (es : List ServerUpdateEvent)
    → fix_ingress_name p.name ≡ ok name
    → build_server_update_events ps e ≡ ok es
    → build_server_update_events (p ∷ ps) e
      ≡ ok (
          changes e.event_type name
            (get_client_type p.name e.service.annotations)
            (servers_at e.node_ips p)
          ++ es)
unfolding build_server_update_events
build-cons e p ps name es cut later =
    simp (cut, later, build_upstream_servers-eq-servers_at, events_for-eq-changes)

pub build-Translates :
    (e : Event) (ps : List ServicePort)
    → (es : List ServerUpdateEvent) × (build_server_update_events (filter_ports ps) e ≡ ok es)
      × Translates e ps es
unfolding filter_ports
build-Translates e [] = ([], unfold build_server_update_events in refl, finished)
build-Translates e (p ∷ ps) =
    let (es, computed, related) = build-Translates e ps in
    elim (Bool-cases (has_prefix p.name nlk_prefix)) [
      | inl prefixed ↦
          let (name, named) = has_prefix-split p.name nlk_prefix prefixed in
          (
            _,
            rw prefixed (
                build-cons e p (filter_ports ps) name es
                  (ap fix_ingress_name named ∙ fix_ingress_name-append name) computed),
            translated name named related,
          )
      | inr bare ↦ (es, rw bare computed, ignored bare related)
    ]

-- For every event the translator returns a list of changes, with no error and no panic; the list
-- has, for each port whose name is "nlk-" and an upstream's name, in the order of the ports, the
-- changes of that upstream: one with all servers for a Created or an Updated event, one for each
-- server for a Deleted event, none for an unknown type. Other ports contribute nothing.
pub translate-Translates :
    (e : Event)
    → (es : List ServerUpdateEvent) × (translate e ≡ ok es) × Translates e e.service.ports es
unfolding translate
translate-Translates e = build-Translates e e.service.ports
