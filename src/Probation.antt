-- ===== src/Probation.antt =====
-- internal/probation: the health checks and what the endpoints of the health server answer. The
-- server itself is net/http's; a response is what its writer is given, and writing to it may fail.
use nginx_k8s_loadbalancer.Base.{
  ℕ, String, ◌≡◌, ◌↔◌, ◌⊎◌, Bool, true, false, Option, none, some, ◌==◌, if◌then◌else◌, arith,
  eq_iff, not, refl,
}
use nginx_k8s_loadbalancer.Text.{◌⧺◌}
use nginx_k8s_loadbalancer.Text.Decimal.{decimal}
use nginx_k8s_loadbalancer.Result.{Result, ok, panic, ◌>>=◌}

abbrev pub ok_text : String
ok_text = "OK"

abbrev pub service_not_available : String
service_not_available = "Service Not Available"

abbrev pub listen_port : ℕ
listen_port = 51031

-- The types that implement Check.
pub data Check : Type 0 where
  live_check ready_check startup_check : Check

unfoldable pub check : Check → Bool
check live_check = true
check ready_check = true
check startup_check = true

-- http.StatusOK and http.StatusServiceUnavailable
abbrev pub status_ok : ℕ
status_ok = 200

abbrev pub status_service_unavailable : ℕ
status_service_unavailable = 503

-- What is written through an http.ResponseWriter.
pub record Response : Type 0 where
  pub status : ℕ
  pub body : String

-- The answer of a probe to the result of its check.
unfoldable pub answer : Bool → Response
answer true = record { status = status_ok; body = ok_text }
answer false = record { status = status_service_unavailable; body = service_not_available }

unfoldable pub handle_probe : Check → Response
unfolding answer check
handle_probe c = answer (check c)

-- The net/http server: its address, and whether it was closed.
pub record HttpServer : Type 0 where
  pub address : String
  pub closed : Bool

-- `none` is a nil server.
pub record HealthServer : Type 0 where
  pub http_server : Option HttpServer
  pub live : Check
  pub ready : Check
  pub startup : Check

unfoldable pub new_health_server : HealthServer
new_health_server = record {
  http_server = none;
  live = live_check;
  ready = ready_check;
  startup = startup_check;
}

-- Start, which also starts the goroutine that listens.
unfoldable pub start : HealthServer → HealthServer
start hs = record hs {
  http_server = some (record { address = ":" ⧺ decimal listen_port; closed = false });
}

abbrev close : Option HttpServer → Result (Option HttpServer)
close none = panic "nil pointer dereference"
close (some server) = ok (some (record server { closed = true }))

-- Stop; an error of Close is logged.
unfoldable pub stop : HealthServer → Result HealthServer
stop hs = do server ← close hs.http_server; ok (record hs { http_server = server })

unfoldable pub handle_live : HealthServer → Response
unfolding handle_probe
handle_live hs = handle_probe hs.live

unfoldable pub handle_ready : HealthServer → Response
unfolding handle_probe
handle_ready hs = handle_probe hs.ready

unfoldable pub handle_startup : HealthServer → Response
unfolding handle_probe
handle_startup hs = handle_probe hs.startup

-- The paths that Start registers; the multiplexer answers 404 to any other.
unfoldable pub served : String → HealthServer → Option Response
unfolding handle_live handle_ready handle_startup
served path hs =
    if path == "/livez"
    then some (handle_live hs)
    else if path == "/readyz"
    then some (handle_ready hs)
    else if path == "/startupz"
    then some (handle_startup hs)
    else none

-- What is answered over the network, if the port could be opened: the listener runs from Start until it
-- is closed.
abbrev listening : Option HttpServer → Bool
listening none = false
listening (some server) = not server.closed

unfoldable pub respond : String → HealthServer → Option Response
unfolding served
respond path hs = if listening hs.http_server then served path hs else none

-- The health server has no answer before Start; after it, it answers a path exactly when it is one of
-- the three, and then with 200 and "OK"; Stop after Start does not panic, and there is no answer
-- after it; Stop without Start panics.
pub respond_iff :
    (path : String) (r : Response)
    → (respond path new_health_server ≡ none)
      × ((respond path (start new_health_server) ≡ some r) ↔ (
          ((path ≡ "/livez") ⊎ ((path ≡ "/readyz") ⊎ (path ≡ "/startupz")))
          × (r ≡ record { status = 200; body = "OK" })))
      × ((stopped : HealthServer) × (stop (start new_health_server) ≡ ok stopped)
          × (respond path stopped ≡ none))
      × (stop new_health_server ≡ panic "nil pointer dereference")
unfolding respond new_health_server start stop
respond_iff path r = (
  refl,
  (
    λ h. ground (arith, eq_iff path "/livez", eq_iff path "/readyz", eq_iff path "/startupz"),
    λ (which, same).
        ground (arith, eq_iff path "/livez", eq_iff path "/readyz", eq_iff path "/startupz"),
  ),
  (_, refl, refl),
  refl,
)
