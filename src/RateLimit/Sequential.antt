-- ===== src/RateLimit/Sequential.antt =====
-- The methods of internal/ratelimit/limiter.go as sequences of their atomic operations.
use crated.Prelude.{
  ◌<◌, ◌≤◌, Bool, List, [], ◌∷◌, Option, none, some, is_some, Error, ◌≡◌, arith, if◌then◌else◌,
  increment64, ◌↔◌, int64_mod,
}
use crated.RateLimit.{
  Limiter, acquire, release, Phase, idle, holding, Action, call, enter, cancel, count_active,
  count_total, uncount, receive, act,
}

-- The operations of one goroutine, one after the other.
unfoldable pub run : List Action → Phase → Limiter → Option (Phase × Limiter)
run [] p l = some (p, l)
run (a ∷ rest) p l = elim (act a p l) [ none ↦ none | some (q, m) ↦ run rest q m ]

abbrev pub entering : List Action
entering = call ∷ enter ∷ count_active ∷ count_total ∷ []

-- What `Acquire` returns with, as the phase of its goroutine.
abbrev pub after_acquire : Limiter × Option Error → Phase × Limiter
after_acquire (l, none) = (holding, l)
after_acquire (l, some e) = (idle, l)

-- A call of Acquire that returns is a run of its atomic operations: through the channel and both
-- counters if it succeeds, through the cancellation if it fails.
pub acquire_runs :
    (l : Limiter) (canceled : Option Error) (prefer : Bool) {m : Limiter} {e : Option Error}
    → acquire l canceled prefer ≡ some (m, e)
    → run (if is_some e then call ∷ cancel ∷ [] else entering) idle l ≡ some (after_acquire (m, e))
unfolding acquire run act
acquire_runs l canceled prefer h = ground arith

-- A call of Release that returns is the run of its two atomic operations.
pub release_runs :
    (l : Limiter) {m : Limiter}
    → release l ≡ some m
    → run (uncount ∷ receive ∷ []) holding l ≡ some (idle, m)
unfolding release run act
release_runs l h = ground arith

-- Release after a successful Acquire gives back the slot and the active count, whatever the
-- counters held before; only the total has changed.
pub acquire-release :
    (l : Limiter) (canceled : Option Error) (prefer : Bool) {m : Limiter}
    → l.active < int64_mod
    → acquire l canceled prefer ≡ some (m, none)
    → release m ≡ some (record l { total = increment64 l.total })
unfolding acquire release
acquire-release l canceled prefer h e = ground arith

-- Acquire blocks exactly if the channel is full and the context is not canceled, and it fails only
-- with the context's error.
pub acquire_blocks_iff :
    (l : Limiter) (canceled : Option Error) (prefer : Bool)
    → (acquire l canceled prefer ≡ none) ↔ ((l.capacity ≤ l.sem) × (canceled ≡ none))
unfolding acquire
acquire_blocks_iff l canceled prefer = ground arith
