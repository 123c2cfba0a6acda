-- ===== src/Prelude/Int.antt =====
-- Go's signed integers: as whole numbers where they are given, as bit patterns of 64 or 32 bits
-- where the program adds to them.
use Prim.Native.Nat.{ℕ, ◌+◌, ◌-◌, ◌%◌, ◌^◌}
use mathlib.Core.Bool.{Bool, true, false}
use mathlib.Core.Path.{◌≡◌, refl}
use mathlib.Core.Logic.{◌⊎◌, inl, inr}

-- `negsuc n` is -(n + 1).
pub data ℤ : Type 0 where
  pos : ℕ → ℤ
  negsuc : ℕ → ℤ

abbrev pub is_negative : ℤ → Bool
is_negative (pos n) = false
is_negative (negsuc n) = true

abbrev pub int64_mod : ℕ
int64_mod = 2 ^ 64

abbrev pub int32_mod : ℕ
int32_mod = 2 ^ 32

-- atomic.Int64.Add(1) and Add(-1), on bit patterns.
abbrev pub increment64 : ℕ → ℕ
increment64 a = (a + 1) % int64_mod

abbrev pub decrement64 : ℕ → ℕ
decrement64 a = (a + int64_mod - 1) % int64_mod

pub Sign-cases : (z : ℤ) → ((n : ℕ) × (z ≡ pos n)) ⊎ ((n : ℕ) × (z ≡ negsuc n))
Sign-cases (pos n) = inl (n, refl)
Sign-cases (negsuc n) = inr (n, refl)
