-- ===== src/HttpClient/Backoff.antt =====
-- `backoff` of internal/httpclient/client.go. Its floats are whole numbers of nanoseconds below
-- 2^63 wherever the conversion to time.Duration is defined, so they are exact; `to_int64` is that
-- conversion where Go leaves it to the machine.
use Prim.Native.Nat.{min}
use native.Mathlib.Nat.{pow-suc}
use crated.Prelude.{
  ℕ, zero, suc, ◌+◌, ◌-◌, ◌*◌, ◌/◌, ◌^◌, ◌≤◌, ◌<◌, false, Option, none, some, ltb, leb,
  if◌then◌else◌, ℤ, pos, negsuc, ◌≡◌, arith,
}

-- 500 ms and 30 s, in nanoseconds.
abbrev pub base_backoff : ℕ
base_backoff = 500000000

abbrev pub max_backoff : ℕ
max_backoff = 30000000000

-- float64(baseBackoff) * math.Pow(2, float64(attempt-1))
abbrev pub raw_delay : ℕ → ℕ
raw_delay zero = base_backoff / 2
raw_delay (suc n) = base_backoff * 2 ^ n

module _ (to_int64 : ℕ → ℤ) where
  -- time.Duration(…)
  abbrev pub to_duration : ℕ → ℤ
  to_duration x = if ltb x (2 ^ 63) then pos x else to_int64 x

  -- The delay before the jitter.
  unfoldable pub capped : ℕ → ℤ
  capped attempt = elim (to_duration (raw_delay attempt)) [
    | pos d ↦ if ltb max_backoff d then pos max_backoff else pos d
    | negsuc d ↦ negsuc d
  ]

  -- The argument of rand.Int64N, int64(float64(delay) * 0.25 * 2); `none` where it panics.
  unfoldable pub jitter_range : ℕ → Option ℕ
  jitter_range attempt = elim (capped attempt) [
    | pos d ↦ if leb d 1 then none else some (d / 2)
    | negsuc d ↦ none
  ]

  -- `backoff`, with the number that rand.Int64N returned; `none` is its panic.
  unfoldable pub backoff : ℕ → ℕ → Option ℕ
  backoff attempt drawn = elim (capped attempt) [
    | pos d ↦ if leb d 1 then none else some (d + drawn - d / 4)
    | negsuc d ↦ none
  ]

-- The delay without jitter: 500 ms, doubled for each further attempt, at most 30 s.
abbrev pub nominal : ℕ → ℕ
nominal attempt = min (raw_delay attempt) max_backoff

pow_pos : (k : ℕ) → 1 ≤ 2 ^ k
pow_pos zero = omega arith
pow_pos (suc k) = simp pow-suc (omega (arith, pow_pos k))

pow-le : (j k : ℕ) → j ≤ k → 2 ^ j ≤ 2 ^ k
pow-le zero k h = pow_pos k
pow-le (suc j) zero h = absurd (omega arith)
pow-le (suc j) (suc k) h = simp pow-suc (omega (arith, pow-le j k (omega arith)))

capped-nominal :
    (to_int64 : ℕ → ℤ) (attempt : ℕ)
    → attempt ≤ 35
    → capped to_int64 attempt ≡ pos (nominal attempt)
unfolding capped
capped-nominal to_int64 zero h = ground arith
capped-nominal to_int64 (suc n) h = ground (arith, pow-le n 34)

more_than_one : (n drawn : ℕ) → drawn < n / 2 → leb n 1 ≡ false
more_than_one n drawn h = ground arith

jittered_bounds :
    (n drawn : ℕ)
    → drawn < n / 2
    → (n * 3 ≤ (n + drawn - n / 4) * 4) × ((n + drawn - n / 4) * 4 < n * 5)
jittered_bounds n drawn h = omega arith

-- Up to the 35th attempt, whatever number below its argument rand.Int64N draws, `backoff` does not
-- panic, and the delay lies within a quarter of the nominal delay, from below and from above.
pub backoff_bounds :
    (to_int64 : ℕ → ℤ) (attempt drawn : ℕ)
    → attempt ≤ 35
    → drawn < nominal attempt / 2
    → (v : ℕ) × (jitter_range to_int64 attempt ≡ some (nominal attempt / 2))
      × (backoff to_int64 attempt drawn ≡ some v)
      × (nominal attempt * 3 ≤ v * 4)
      × (v * 4 < nominal attempt * 5)
unfolding backoff jitter_range
backoff_bounds to_int64 attempt drawn h d =
    let (low, high) = jittered_bounds (nominal attempt) drawn d in
    let pos_range : leb (nominal attempt) 1 ≡ false = more_than_one (nominal attempt) drawn d in
    (
      nominal attempt + drawn - nominal attempt / 4,
      rw (capped-nominal to_int64 attempt h, jitter_range) (rw pos_range),
      rw (capped-nominal to_int64 attempt h, backoff) (rw pos_range),
      low,
      high,
    )

capped_overflow :
    (to_int64 : ℕ → ℤ) (attempt n : ℕ)
    → 36 ≤ attempt
    → to_int64 (raw_delay attempt) ≡ negsuc n
    → capped to_int64 attempt ≡ negsuc n
unfolding capped
capped_overflow to_int64 zero n h negative = absurd (omega arith)
capped_overflow to_int64 (suc k) n h negative = ground (arith, pow-le 35 k)

-- From the 36th attempt on the product does not fit an int64. On a machine whose conversion then
-- gives a negative number, `backoff` panics.
pub backoff_panics :
    (to_int64 : ℕ → ℤ) (attempt drawn n : ℕ)
    → 36 ≤ attempt
    → to_int64 (raw_delay attempt) ≡ negsuc n
    → (jitter_range to_int64 attempt ≡ none) × (backoff to_int64 attempt drawn ≡ none)
unfolding backoff jitter_range
backoff_panics to_int64 attempt drawn n h negative =
    let e = capped_overflow to_int64 attempt n h negative in (rw (e, jitter_range), rw (e, backoff))

pub nominal-pos : (attempt : ℕ) → 0 < nominal attempt / 2
nominal-pos zero = omega arith
nominal-pos (suc n) = omega (arith, pow_pos n)
