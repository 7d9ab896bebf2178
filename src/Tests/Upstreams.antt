-- ===== src/Tests/Upstreams.antt =====
-- An NGINX Plus that keeps its tables in memory, and a run in which an older change overtakes a newer
-- one.
use nginx_k8s_loadbalancer.Base.{
  String, ◌≡◌, ◌≢◌, refl, ◌⊎◌, inl, inr, none, some, List, [], ◌∷◌, ◌++◌, map, Option, ◌==◌,
  if◌then◌else◌, Bool-cases, Option-cases, eq_iff, subst, sym, arith,
}
use nginx_k8s_loadbalancer.Base.Insertion.{Inserted, first, later}
use nginx_k8s_loadbalancer.Result.{Error, Reply, ok, replied}
use nginx_k8s_loadbalancer.Core.{UpstreamServer, ServerUpdateEvent, updated}
use nginx_k8s_loadbalancer.Configuration.Settings.{new_settings}
use nginx_k8s_loadbalancer.Authentication
use nginx_k8s_loadbalancer.Communication.{new_http_client}
use nginx_k8s_loadbalancer.Synchronization.Delivery.{handle_event}
use nginx_k8s_loadbalancer.Synchronization.Worker.{process}
use nginx_k8s_loadbalancer.Application.{
  NginxClientInterface, AnyClient, nginx, new_border_client, update, Updated,
}
use nginx_k8s_loadbalancer.Application.Upstreams.{
  Naming, Target, Target-cases, Table, SameServers, WritesOnly, at, IsApiOf, target_of,
}
use nginx_k8s_loadbalancer.Synchronization.World.{NginxPlus}
use nginx_k8s_loadbalancer.Synchronization.Upstreams.{ServesUpstreams}
use nginx_k8s_loadbalancer.Synchronization.Upstreams.Shows.{Shows}
use nginx_k8s_loadbalancer.System.{Action, change_taken, change_sent, State, step, steps, take_at}
use nginx_k8s_loadbalancer.System.Delivered.{tries, served, steps-Shows, steps-last}
use nginx_k8s_loadbalancer.Tests.Fixtures.{sample_crypto, sample_settings, update_of, server}
use nginx_k8s_loadbalancer.Tests.Synchronizer.{Config, sample_world}
use nginx_k8s_loadbalancer.Tests.Config.{first_process}
use nginx_k8s_loadbalancer.Tests.System.{event_queue, change_queue}

-- A table with one upstream written.
abbrev choose : {s t : Target} → (s ≡ t) ⊎ (s ≢ t) → List String → List String → List String
choose (inl same) new old = new
choose (inr other_one) new old = old

abbrev write : Target → List String → Table → Table
write target servers table t = choose (Target-cases t target) servers (table t)

choose_same :
    {s t : Target} (d : (s ≡ t) ⊎ (s ≢ t)) (new old : List String) → s ≡ t → choose d new old ≡ new
choose_same (inl same) new old h = refl
choose_same (inr ne) new old h = absurd (ne h)

choose_other :
    {s t : Target} (d : (s ≡ t) ⊎ (s ≢ t)) (new old : List String) → s ≢ t → choose d new old ≡ old
choose_other (inl same) new old h = absurd (h same)
choose_other (inr ne) new old h = refl

write_same :
    (target : Target) (servers : List String) (table : Table)
    → write target servers table target ≡ servers
write_same target servers table =
    choose_same (Target-cases target target) servers (table target) refl

write_other :
    (target : Target) (servers : List String) (table : Table)
    → WritesOnly target table (write target servers table)
write_other target servers table t ne = choose_other (Target-cases t target) servers (table t) ne

-- A list without the first server of this address, if there is one.
abbrev kept_before : String → Option (List String) → Option (List String)
kept_before y none = none
kept_before y (some l) = some (y ∷ l)

abbrev drop_server : String → List String → Option (List String)
drop_server x [] = none
drop_server x (y ∷ ys) =
    let rest = drop_server x ys in if y == x then some ys else kept_before y rest

drop_server-Inserted :
    (x : String) (l l' : List String) → drop_server x l ≡ some l' → Inserted x l' l
drop_server-Inserted x [] l' h = absurd (ground arith)
drop_server-Inserted x (y ∷ ys) l' h = elim (Bool-cases (y == x)) [
  | inl same ↦
      let here : y ≡ x = ground (arith, eq_iff y x) in
      let rest : ys ≡ l' = ground arith in
      subst (λ z. Inserted z l' (y ∷ ys)) here (subst (λ l. Inserted y l (y ∷ ys)) rest (first ys))
  | inr ne ↦ elim (Option-cases (drop_server x ys)) [
    | inl missing ↦ absurd (ground arith)
    | inr (l, found) ↦
        let rest : y ∷ l ≡ l' = ground arith in
        subst (λ m. Inserted x m (y ∷ ys)) rest (later y (drop_server-Inserted x ys l found))
  ]
]

abbrev removal : Target → Table → Option (List String) → Option Error × Table
removal target table none = (some "no such server", table)
removal target table (some l) = (none, write target l table)

abbrev updated_to : {S : Type 0} → List S → Updated S
updated_to servers = record { added = servers; deleted = []; updated = []; error = none }

abbrev table_api : String → NginxClientInterface Table
table_api host = record {
  delete_stream_server = λ upstream x table.
      removal (at host "stream" upstream) table (drop_server x (table (at host "stream" upstream)));
  update_stream_servers = λ upstream servers table.
      (updated_to servers, write (at host "stream" upstream) (map (λ s. s.server) servers) table);
  delete_http_server = λ upstream x table.
      removal (at host "http" upstream) table (drop_server x (table (at host "http" upstream)));
  update_http_servers = λ upstream servers table.
      (updated_to servers, write (at host "http" upstream) (map (λ s. s.server) servers) table);
}

removal-WritesOnly :
    (target : Target) (table : Table) (o : Option (List String))
    → WritesOnly target table (removal target table o).1
removal-WritesOnly target table none t ne = refl
removal-WritesOnly target table (some l) t ne = write_other target l table t ne

removal-Inserted :
    (target : Target) (table : Table) (x : String) (o : Option (List String))
    → drop_server x (table target) ≡ o
    → (removal target table o).0 ≡ none
    → Inserted x ((removal target table o).1 target) (table target)
removal-Inserted target table x none found done = absurd (ground arith)
removal-Inserted target table x (some l) found done =
    subst (λ m. Inserted x m (table target)) (sym (write_same target l table))
      (drop_server-Inserted x (table target) l found)

abbrev plain : Naming
plain = record { instance_at = λ host. host; listed_as = λ server. server }

written_same :
    (target : Target) (servers : List String) (table : Table)
    → SameServers (write target servers table target) servers
written_same target servers table =
    subst (λ l. SameServers l servers) (sym (write_same target servers table))
      (λ x. (λ h. h, λ h. h))

table_api-IsApiOf : (host : String) → IsApiOf plain (λ table. table) host (table_api host)
table_api-IsApiOf host = record {
  sets_http = λ upstream servers table done. written_same _ _ table;
  sets_stream = λ upstream servers table done. written_same _ _ table;
  deletes_http = λ upstream x table done. removal-Inserted _ table x _ refl done;
  deletes_stream = λ upstream x table done. removal-Inserted _ table x _ refl done;
  sets_one_http = λ upstream servers table. write_other _ _ table;
  sets_one_stream = λ upstream servers table. write_other _ _ table;
  deletes_one_http = λ upstream x table. removal-WritesOnly _ table _;
  deletes_one_stream = λ upstream x table. removal-WritesOnly _ table _;
}

abbrev table_plus : NginxPlus Config Table
table_plus = record {
  new_nginx_client = λ host client t table. (replied (nginx (table_api host)), table);
}

same_api :
    (api api' : NginxClientInterface Table) (w o : Table)
    → ◌≡◌ {A = Reply (AnyClient Table) × Table} (replied (nginx api), w) (replied (nginx api'), o)
    → api ≡ api'
same_api api api' w o h = cc

abbrev table_plus_laws : ServesUpstreams table_plus
table_plus_laws = record {
  naming = plain;
  serves = λ table. table;
  reached = λ host client t w o api h.
      subst (IsApiOf plain (λ table. table) host) (same_api (table_api host) api w o h)
        (table_api-IsApiOf host);
  only_asks = λ host client t table. refl;
}

-- Two changes of one upstream: the first node alone, and then, queued later, both nodes.
abbrev tea_change : List UpstreamServer → ServerUpdateEvent
tea_change servers = record (update_of updated "http" "tea" servers) {
  nginx_host = "https://10.1.1.4:9000/api";
}

abbrev older : ServerUpdateEvent
older = tea_change (server "10.0.0.1:30080" ∷ [])

abbrev newer : ServerUpdateEvent
newer = tea_change (server "10.0.0.1:30080" ∷ server "10.0.0.2:30080" ∷ [])

-- The delay of the newer one was the shorter.
abbrev overtaking : State sample_crypto table_plus event_queue change_queue
overtaking = record {
  process = record first_process { settings = sample_settings };
  watcher = record {
    informer = none;
    handler = record {
      event_queue = record { items = []; count = λ a. 0 };
      synchronizer = record {
        queue = record {
          items =
              record { address = 2; value = newer } ∷ record { address = 1; value = older } ∷ [];
          count = λ a. 0;
        };
        random = sample_world.random;
        next = 3;
        transports = sample_world.transports;
        outside = λ t. [];
      };
    };
    next = 0;
  };
  handling = [];
  sending = [];
}

abbrev both_sent : List Action
both_sent = change_taken ∷ change_sent 0 ∷ change_taken ∷ change_sent 0 ∷ []

both_tried :
    tries sample_crypto table_plus event_queue change_queue both_sent overtaking
    ≡ ((newer, ok tt) ∷ []) ++ (older, ok tt) ∷ []
unfolding tries step take_at new_http_client new_settings Authentication.new_tls_config process
    handle_event update new_border_client
both_tried = refl

-- The upstream is left with the servers of the older one, and both queues are at rest.
steps-last_example :
    SameServers
      (served sample_crypto table_plus event_queue change_queue table_plus_laws
        (steps sample_crypto table_plus event_queue change_queue both_sent overtaking).1
        (target_of plain older))
      ("10.0.0.1:30080" ∷ [])
steps-last_example =
    steps-last sample_crypto table_plus event_queue change_queue table_plus_laws both_sent
      overtaking older ((newer, ok tt) ∷ []) [] both_tried tt tt

steps-Shows_example :
    Shows plain
      (target_of plain older)
      (tries sample_crypto table_plus event_queue change_queue both_sent overtaking)
      (served sample_crypto table_plus event_queue change_queue table_plus_laws overtaking
        (target_of plain older))
      (served sample_crypto table_plus event_queue change_queue table_plus_laws
        (steps sample_crypto table_plus event_queue change_queue both_sent overtaking).1
        (target_of plain older))
steps-Shows_example =
    steps-Shows sample_crypto table_plus event_queue change_queue table_plus_laws
      (target_of plain older) both_sent overtaking
