-- ===== src/Translation/Counts.antt =====
-- What follows for the number and the shape of the changes.
use nginx_k8s_loadbalancer.Base.{
  ℕ, ◌*◌, ◌≡◌, refl, ap, true, List, [], ◌∷◌, map, arith, length, length-append, length-map, All,
  All-append, String,
}
use nginx_k8s_loadbalancer.Text.{◌⧺◌, has_prefix}
use nginx_k8s_loadbalancer.Text.Prefix.{has_prefix-append}
use nginx_k8s_loadbalancer.Result.{ok}
use nginx_k8s_loadbalancer.Core.{
  ServicePort, EventType, created, updated, deleted, other, Event, UpstreamServer,
  ServerUpdateEvent,
}
use nginx_k8s_loadbalancer.Configuration.Constants.{nlk_prefix}
use nginx_k8s_loadbalancer.Translation.{translate, filter_ports, get_client_type}
use nginx_k8s_loadbalancer.Translation.Relation.{
  Translates, finished, ignored, translated, changes, change, servers_at, translate-Translates,
}

-- The relation holds of every list that the translator returns.
pub translate-related :
    (e : Event) (es : List ServerUpdateEvent)
    → translate e ≡ ok es
    → Translates e e.service.ports es
translate-related e es h =
    let (out, computed, related) = translate-Translates e in
    let same : out ≡ es = cc in rw same at related

-- The number of changes that one port yields.
abbrev pub per_port : EventType → ℕ → ℕ
per_port created nodes = 1
per_port updated nodes = 1
per_port deleted nodes = nodes
per_port (other n) nodes = 0

length-changes :
    (ty : EventType) (name t : String) (servers : List UpstreamServer)
    → length (changes ty name t servers) ≡ per_port ty (length servers)
length-changes created name t servers = refl
length-changes updated name t servers = refl
length-changes deleted name t servers = length-map _ servers
length-changes (other n) name t servers = refl

length-servers_at : (ips : List String) (p : ServicePort) → length (servers_at ips p) ≡ length ips
length-servers_at ips p = length-map _ ips

-- A port that is named for an upstream has the prefix.
has_prefix_named :
    (p : ServicePort) (name : String)
    → p.name ≡ nlk_prefix ⧺ name
    → has_prefix p.name nlk_prefix ≡ true
has_prefix_named p name named = rw named (has_prefix-append nlk_prefix name)

length_of_Translates :
    {e : Event} {ps : List ServicePort} {es : List ServerUpdateEvent}
    → Translates e ps es
    → length es ≡ length (filter_ports ps) * per_port e.event_type (length e.node_ips)
unfolding filter_ports
length_of_Translates finished = omega arith
length_of_Translates (ignored bare r) = rw bare (length_of_Translates r)
length_of_Translates {e} (translated {p} {ps} {es} name named r) =
    let client_type = get_client_type p.name e.service.annotations in
    let servers = servers_at e.node_ips p in
    rw (has_prefix_named p name named) (
      omega (
        arith,
        length-append (changes e.event_type name client_type servers) es,
        length-changes e.event_type name client_type servers,
        ap (per_port e.event_type) (length-servers_at e.node_ips p),
        length_of_Translates r,
      ))

-- A translation of a Created or an Updated event yields one change for each port with the prefix, a
-- Deleted one as many as there are such ports and nodes, and an event of an unknown type none.
pub length-translate :
    (e : Event) (es : List ServerUpdateEvent)
    → translate e ≡ ok es
    → length es ≡ length (filter_ports e.service.ports) * per_port e.event_type (length e.node_ips)
length-translate e es h = length_of_Translates (translate-related e es h)

-- The shape of a change: its type is the event's, it has no host yet, and a deletion names exactly
-- one server.
abbrev pub IsChange : EventType → ServerUpdateEvent → Type 0
IsChange ty u =
    (u.event_type ≡ ty) × (u.nginx_host ≡ "") × (ty ≡ deleted → length u.upstream_servers ≡ 1)

deletions-IsChange :
    (name t : String) (servers : List UpstreamServer)
    → All (IsChange deleted) (map (λ s. change deleted name t (s ∷ [])) servers)
deletions-IsChange name t [] = tt
deletions-IsChange name t (s ∷ servers) =
    ((refl, refl, λ _. refl), deletions-IsChange name t servers)

changes-IsChange :
    (ty : EventType) (name t : String) (servers : List UpstreamServer)
    → All (IsChange ty) (changes ty name t servers)
changes-IsChange created name t servers = ((refl, refl, λ h. cc), tt)
changes-IsChange updated name t servers = ((refl, refl, λ h. cc), tt)
changes-IsChange deleted name t servers = deletions-IsChange name t servers
changes-IsChange (other n) name t servers = tt

pub Translates-IsChange :
    {e : Event} {ps : List ServicePort} {es : List ServerUpdateEvent}
    → Translates e ps es
    → All (IsChange e.event_type) es
Translates-IsChange finished = tt
Translates-IsChange (ignored bare r) = Translates-IsChange r
Translates-IsChange {e} (translated name named r) =
    All-append (IsChange e.event_type) _ _ (changes-IsChange e.event_type name _ _)
      (Translates-IsChange r)

-- Every change that a translation returns has the type of the event and no host, and a change of
-- type Deleted has exactly one server.
pub translate-IsChange :
    (e : Event) (es : List ServerUpdateEvent) → translate e ≡ ok es → All (IsChange e.event_type) es
translate-IsChange e es h = Translates-IsChange (translate-related e es h)
