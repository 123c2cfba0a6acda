-- ===== src/RateLimit/Statistics.antt =====
-- What `Limiter.Stats` of internal/ratelimit/limiter.go reports, in any interleaving.
use crated.Prelude.{ℕ, zero, suc, ◌+◌, ◌≡◌, increment64}
use crated.RateLimit.{Limiter, Phase, idle, waiting}
use crated.RateLimit.Interleaving.{System, Reach, here, next, acts, holds}

-- A call of Acquire returns with an error in the step from `p` to `q`.
abbrev pub gives_up : Phase → Phase → ℕ
gives_up waiting idle = 1
gives_up _ _ = 0

-- How many calls of Acquire have returned so far: with nil, and with an error.
abbrev pub succeeded : {s t : System} → Reach s t → ℕ
succeeded here = 0
succeeded (next r (acts i a {p} {q} at done)) = succeeded r + holds q

abbrev pub failed : {s t : System} → Reach s t → ℕ
failed here = 0
failed (next r (acts i a {p} {q} at done)) = failed r + gives_up p q

-- A counter behind a step that counts one, or none.
abbrev ticked : ℕ → ℕ → ℕ
ticked zero c = c
ticked (suc k) c = increment64 c

-- One operation counts the call that it ends, and nothing else.
record Counts (p q : Phase) (l m : Limiter) : Type 0 where
  total_counts : m.total ≡ ticked (holds q) l.total
  dropped_counts : m.dropped ≡ ticked (gives_up p q) l.dropped
