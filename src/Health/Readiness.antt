-- ===== src/Health/Readiness.antt =====
-- What the probes of internal/health/health.go answer over the life of a server.
use crated.Prelude.{Bool, true, false, String, List, [], ◌∷◌, if◌then◌else◌, ◌≡◌, refl, arith}
use crated.Health.{
  Server, new_server, Mark, ready, not_ready, mark, mark_all, handle_readiness, handle_liveness,
}

-- Whether the last of the calls was MarkReady.
abbrev pub ends_ready : Bool → List Mark → Bool
ends_ready before [] = before
ends_ready before (ready ∷ ms) = ends_ready true ms
ends_ready before (not_ready ∷ ms) = ends_ready false ms

ready-mark_all : (ms : List Mark) (s : Server) → (mark_all ms s).ready ≡ ends_ready s.ready ms
unfolding mark_all mark
ready-mark_all [] s = refl
ready-mark_all (ready ∷ ms) s = ready-mark_all ms (record { ready = true })
ready-mark_all (not_ready ∷ ms) s = ready-mark_all ms (record { ready = false })

-- The readiness probe of a new server answers 503 until it is marked, and then 200 exactly if the
-- last mark was that it is ready; the liveness probe answers 200 all the while.
pub probes :
    (uptime : String) (ms : List Mark)
    → ((handle_readiness uptime (mark_all ms new_server)).code
        ≡ (if ends_ready false ms then 200 else 503))
      × ((handle_liveness uptime (mark_all ms new_server)).code ≡ 200)
unfolding handle_readiness handle_liveness new_server
probes uptime ms = ground (arith, ready-mark_all ms new_server)
