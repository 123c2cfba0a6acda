-- ===== src/RateLimit.antt =====
-- internal/ratelimit/limiter.go: the semaphore that limits the requests in flight. `acquire` and
-- `release` are the methods run without interruption; `act` is one atomic operation of them, for
-- the interleavings of RateLimit.Interleaving.
pub mod Interleaving
pub mod Sequential
pub mod Statistics
pub mod Progress
use crated.Prelude.{
  ℕ, zero, suc, ◌+◌, ◌-◌, Bool, true, false, not, ◌&&◌, ◌||◌, Option, none, some, Error, wrapf, [],
  ltb, is_some, if◌then◌else◌, ℤ, pos, negsuc, increment64, decrement64,
}

abbrev pub default_max_concurrency : ℕ
default_max_concurrency = 10

-- `sem` is the number of items in the channel, `capacity` also that of the channel's buffer; the
-- counters are bit patterns of an int64.
pub record Limiter : Type 0 where
  pub sem : ℕ
  pub capacity : ℕ
  pub active : ℕ
  pub total : ℕ
  pub dropped : ℕ

-- `if n <= 0 { n = DefaultMaxConcurrency }`
abbrev pub effective : ℤ → ℕ
effective (pos zero) = default_max_concurrency
effective (pos (suc n)) = suc n
effective (negsuc n) = default_max_concurrency

-- `New`
unfoldable pub new : ℤ → Limiter
new n = record { sem = 0; capacity = effective n; active = 0; total = 0; dropped = 0 }

abbrev pub send : Limiter → Limiter
send l = record l { sem = l.sem + 1 }

-- `Acquire`: `canceled` is the context's error once it is canceled, `prefer` the choice of `select`
-- where both cases are ready. `none` is a call that blocks.
unfoldable pub acquire : Limiter → Option Error → Bool → Option (Limiter × Option Error)
acquire l canceled prefer =
    if ltb l.sem l.capacity && (prefer || not (is_some canceled))
    then some (record (send l) { active = increment64 l.active; total = increment64 l.total }, none)
    else elim canceled [
      | none ↦ none
      | some e ↦ some (record l { dropped = increment64 l.dropped }, some (wrapf "rate limit" [] e))
    ]

-- `Release`; `none` is a receive that blocks.
unfoldable pub release : Limiter → Option Limiter
release l =
    if ltb 0 l.sem then some (record l { active = decrement64 l.active; sem = l.sem - 1 }) else none

pub record Stats : Type 0 where
  pub max_concurrency : ℕ
  pub active : ℕ
  pub total : ℕ
  pub dropped : ℕ

-- `Limiter.Stats`
pub stats : Limiter → Stats
stats l = record {
  max_concurrency = l.capacity;
  active = l.active;
  total = l.total;
  dropped = l.dropped;
}

-- Where a goroutine stands in `Acquire` and `Release`.
pub data Phase : Type 0 where
  idle waiting sent counted holding leaving : Phase

-- The atomic operations: a call of Acquire, the two cases of its select, the two counters, then
-- the two operations of Release.
pub data Action : Type 0 where
  call enter cancel count_active count_total uncount receive : Action

unfoldable pub act : Action → Phase → Limiter → Option (Phase × Limiter)
act call idle l = some (waiting, l)
act enter waiting l = if ltb l.sem l.capacity then some (sent, send l) else none
act cancel waiting l = some (idle, record l { dropped = increment64 l.dropped })
act count_active sent l = some (counted, record l { active = increment64 l.active })
act count_total counted l = some (holding, record l { total = increment64 l.total })
act uncount holding l = some (leaving, record l { active = decrement64 l.active })
act receive leaving l = if ltb 0 l.sem then some (idle, record l { sem = l.sem - 1 }) else none
act _ _ l = none
