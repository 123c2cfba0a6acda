-- ===== src/Health.antt =====
-- internal/health/health.go: the health server's handlers. The clock and the statistics of the Go
-- runtime are what they are given.
pub mod Readiness
use crated.Prelude.{
  ℕ, Bool, true, false, String, List, [], ◌∷◌, Option, none, some, Error, if◌then◌else◌, not, ◌==◌,
  ◌&&◌,
}

-- `Server`
pub record Server : Type 0 where
  pub ready : Bool

-- `NewServer`
unfoldable pub new_server : Server
new_server = record { ready = false }

-- `MarkReady`, `MarkNotReady`
unfoldable pub mark_ready : Server → Server
mark_ready s = record { ready = true }

unfoldable pub mark_not_ready : Server → Server
mark_not_ready s = record { ready = false }

-- `healthResponse` with its status code; the uptime is the field's value.
pub record HealthResponse : Type 0 where
  pub code : ℕ
  pub status : String
  pub uptime : Option String

-- `handleLiveness` and `handleReadiness`, at this uptime.
unfoldable pub handle_liveness : String → Server → HealthResponse
handle_liveness uptime s = record { code = 200; status = "alive"; uptime = some uptime }

unfoldable pub handle_readiness : String → Server → HealthResponse
handle_readiness uptime s =
    if not s.ready
    then record { code = 503; status = "not ready"; uptime = none }
    else record { code = 200; status = "ready"; uptime = some uptime }

-- `metricsResponse`, and what the Go runtime says of itself; `M` are the numbers of megabytes.
pub record MetricsResponse (M : Type 0) : Type 0 where
  pub uptime : String
  pub ready : Bool
  pub goroutines : ℕ
  pub heap_alloc_mb : M
  pub heap_sys_mb : M
  pub gc_cycles : ℕ

pub record Statistics : Type 0 where
  pub num_goroutine : ℕ
  pub heap_alloc : ℕ
  pub heap_sys : ℕ
  pub num_gc : ℕ

-- What the mux answers.
pub data Reply (M : Type 0) : Type 0 where
  health : HealthResponse → Reply M
  metrics : MetricsResponse M → Reply M

-- float64(n) / (1024 * 1024) is `megabytes n`.
module _ {M : Type 0} (megabytes : ℕ → M) where
  -- `handleMetrics`
  unfoldable pub handle_metrics : String → Statistics → Server → MetricsResponse M
  handle_metrics uptime mem s = record {
    uptime = uptime;
    ready = s.ready;
    goroutines = mem.num_goroutine;
    heap_alloc_mb = megabytes mem.heap_alloc;
    heap_sys_mb = megabytes mem.heap_sys;
    gc_cycles = mem.num_gc;
  }

  -- The routes that `NewServer` registers; any other path or method is the mux's own answer.
  unfoldable pub handle : String → Statistics → Server → String → String → Option (Reply M)
  unfolding handle_liveness handle_readiness handle_metrics
  handle uptime mem s method path =
      if method == "GET" && path == "/healthz"
      then some (health (handle_liveness uptime s))
      else if method == "GET" && path == "/readyz"
      then some (health (handle_readiness uptime s))
      else if method == "GET" && path == "/metrics"
      then some (metrics (handle_metrics uptime mem s))
      else none

-- How Serve ends: with http.ErrServerClosed, or another error.
pub data ServeEnd : Type 0 where
  server_closed : ServeEnd
  serve_failed : Error → ServeEnd

-- `ListenAndServe`, for the result of net.Listen: the errors that it logs.
unfoldable pub listen_and_serve : Option Error → ServeEnd → List (String × Error)
listen_and_serve (some e) end = ("failed to listen", e) ∷ []
listen_and_serve none server_closed = []
listen_and_serve none (serve_failed e) = ("server error", e) ∷ []

-- The calls that change the flag.
pub data Mark : Type 0 where
  ready not_ready : Mark

abbrev pub mark : Mark → Server → Server
unfolding mark_ready mark_not_ready
mark ready s = mark_ready s
mark not_ready s = mark_not_ready s

unfoldable pub mark_all : List Mark → Server → Server
mark_all [] s = s
mark_all (m ∷ ms) s = mark_all ms (mark m s)
