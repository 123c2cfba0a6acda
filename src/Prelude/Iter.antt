-- ===== src/Prelude/Iter.antt =====
-- Go's range-over-func iterators. The loop body is `yield`, over the consumer's state `S`; it
-- returns false when the consumer leaves the loop.
use mathlib.Core.Path.{◌≡◌, refl}
use mathlib.Core.Bool.{Bool, true, false}
use mathlib.Core.List.{List, [], ◌∷◌, ◌++◌}
use native.Mathlib.Omega.{arith}
use crated.Prelude.Tests.{if◌then◌else◌}

abbrev pub Yield {ℓ κ} : Type ℓ → Type κ → Type (ℓ ⊔ κ)
Yield S A = S → A → S × Bool

-- The loop over an iterator that has the items `xs` to give; false when the consumer has left it.
unfoldable pub feed {ℓ κ} : {S : Type ℓ} {A : Type κ} → Yield S A → S → List A → S × Bool
feed yield s [] = (s, true)
feed yield s (x ∷ xs) = let (s', more) = yield s x in if more then feed yield s' xs else (s', false)

-- The next part of the producer runs only if the consumer is still there.
abbrev pub and_then {ℓ} : {S : Type ℓ} → S × Bool → (S → S × Bool) → S × Bool
and_then (s, true) f = f s
and_then (s, false) f = (s, false)

module _ {ℓ κ} {S : Type ℓ} {A : Type κ} (yield : Yield S A) where
  pub feed-nil : (s : S) → feed yield s [] ≡ (s, true)
  unfolding feed
  feed-nil s = refl

  pub feed-cons :
      (s : S) (x : A) (xs : List A)
      → feed yield s (x ∷ xs) ≡ and_then (yield s x) (λ t. feed yield t xs)
  unfolding feed
  feed-cons s x xs = ground arith

  pub feed-append :
      (s : S) (xs ys : List A)
      → feed yield s (xs ++ ys) ≡ and_then (feed yield s xs) (λ t. feed yield t ys)
  unfolding feed
  feed-append s [] ys = refl
  feed-append s (x ∷ xs) ys = ground (arith, feed-append (yield s x).0 xs ys)
