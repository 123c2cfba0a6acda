-- ===== src/Provider/Rounds.antt =====
-- The loops of the providers of internal/runtime/providers over the events of a response's stream:
-- how a round ends, and what the consumer gets of the items that the rounds give.
pub mod Answer
use crated.Prelude.{
  Bool, true, false, List, [], ◌∷◌, ◌++◌, Yield, ◌≡◌, refl, ap, ◌∙◌, sym, feed, feed-append,
  feed-nil, feed-cons, and_then,
}

-- How a round of the loop ends: the next event is wanted, the loop is left, or the code panics.
pub data Flow {ℓ} (P : Type ℓ) : Type ℓ where
  next : P → Flow P
  left : Flow P
  panics : Flow P

abbrev pub wants_more {ℓ} : {P : Type ℓ} → Flow P → Bool
wants_more (next p) = true
wants_more left = false
wants_more panics = false

-- `for event, err := range sse.Read(resp.Body) { … }`, with a body that takes the state, what the loop
-- has come to and an event.
abbrev pub looping {ℓ κ μ} :
    {S : Type ℓ} {P : Type κ} {X : Type μ} → (S → P → X → S × Flow P) → Yield (S × Flow P) X
looping on_event (s, next p) x = let (s', flow) = on_event s p x in ((s', flow), wants_more flow)
looping on_event (s, left) x = ((s, left), false)
looping on_event (s, panics) x = ((s, panics), false)

abbrev pub resume {ℓ κ} :
    {P : Type ℓ} {I : Type κ} → (P → List I × Flow P) → List I → Flow P → List I × Flow P
resume rest items (next p) = let (later, end) = rest p in (items ++ later, end)
resume rest items left = (items, left)
resume rest items panics = (items, panics)

-- What the rounds give for a consumer that stays, and how the last of them ends; `step` is one round.
unfoldable pub run {ℓ κ μ} :
    {P : Type ℓ} {X : Type κ} {I : Type μ}
    → (P → X → List I × Flow P)
    → P
    → List X
    → List I × Flow P
run step p [] = ([], next p)
run step p (x ∷ xs) = let (items, flow) = step p x in resume (λ p'. run step p' xs) items flow

pub run-next {ℓ κ μ} :
    {P : Type ℓ} {X : Type κ} {I : Type μ} (step : P → X → List I × Flow P) (p : P) (x : X)
    (xs : List X) (p' : P)
    → (step p x).1 ≡ next p'
    → run step p (x ∷ xs) ≡ ((step p x).0 ++ (run step p' xs).0, (run step p' xs).1)
unfolding run
run-next step p x xs p' e = rw e refl

-- A consumer that leaves makes the code leave too.
abbrev pub settle {ℓ κ} : {S : Type ℓ} {P : Type κ} → S × Bool → Flow P → S × Flow P
settle (s, true) flow = (s, flow)
settle (s, false) flow = (s, left)

pub settle_left {ℓ κ} :
    {S : Type ℓ} {P : Type κ} (r : S × Bool) → settle {P = P} r left ≡ (r.0, left)
settle_left (s, true) = refl
settle_left (s, false) = refl

-- A body whose every round is a `step`, for the consumer `yield`.
module _ {ℓ κ μ ν} {S : Type ℓ} {P : Type κ} {X : Type μ} {I : Type ν} (yield : Yield S I)
    (on_event : S → P → X → S × Flow P) (step : P → X → List I × Flow P)
    (is_step : (s : S) (p : P) (x : X)
      → on_event s p x ≡ settle (feed yield s (step p x).0) (step p x).1) where
  abbrev Loops : List X → Type (ℓ ⊔ κ)
  Loops xs =
      (t : S) (p : P)
      → (feed (looping on_event) (t, next p) xs).0
        ≡ settle (feed yield t (run step p xs).0) (run step p xs).1

  loop-cons :
      (r : S × Bool) (p' : P) (xs : List X)
      → Loops xs
      → (and_then
          (settle r (next p'), wants_more (settle r (next p')).1)
          (λ t. feed (looping on_event) t xs)).0
        ≡ settle (and_then r (λ t. feed yield t (run step p' xs).0)) (run step p' xs).1
  loop-cons (t, true) p' xs ih = ih t p'
  loop-cons (t, false) p' xs ih = refl

  loop-stop :
      (r : S × Bool) (flow : Flow P) (xs : List X)
      → wants_more flow ≡ false
      → (and_then
          (settle r flow, wants_more (settle r flow).1)
          (λ t. feed (looping on_event) t xs)).0
        ≡ settle r flow
  loop-stop (t, true) flow xs h = rw h
  loop-stop (t, false) flow xs h = refl

  advance :
      (s : S) (items : List I) (flow : Flow P) (xs : List X)
      → Loops xs
      → (and_then
          (settle (feed yield s items) flow, wants_more (settle (feed yield s items) flow).1)
          (λ t. feed (looping on_event) t xs)).0
        ≡ settle
            (feed yield s (resume (λ p'. run step p' xs) items flow).0)
            (resume (λ p'. run step p' xs) items flow).1
  advance s items (next p') xs ih =
      loop-cons (feed yield s items) p' xs ih
      ∙ ap (λ r. settle r (run step p' xs).1) (sym (feed-append yield s items (run step p' xs).0))
  advance s items left xs ih = loop-stop (feed yield s items) left xs refl
  advance s items panics xs ih = loop-stop (feed yield s items) panics xs refl

  pub looping-run : (xs : List X) → Loops xs
  unfolding run
  looping-run [] s p = simp (feed-nil)
  looping-run (x ∷ xs) s p =
      rw (feed-cons, is_step) (advance s (step p x).0 (step p x).1 xs (looping-run xs))
