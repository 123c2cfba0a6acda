-- ===== src/Provider/Rounds/Answer.antt =====
-- The shape of the items that the loops of internal/runtime/providers give their consumers.
use crated.Prelude.{
  Bool, true, false, ◌||◌, List, [], ◌∷◌, ◌++◌, Option, none, some, is_some, All, All-append, ◌≡◌,
  refl, ap, ◌∙◌,
}
use mathlib.Core.List.{append_assoc, append-nil}
use mathlib.Core.Path.{ap₂}
use crated.Genai.{LlmResponse, Item}
use crated.Provider.Rounds.{Flow, next, left, panics, run, resume}

abbrev is_complete : Option LlmResponse → Bool
is_complete none = false
is_complete (some r) = r.turn_complete

-- An error, or a response that completes the turn; and only where the loop is left.
abbrev pub IsClosing : {P : Type 0} → List Item → Flow P → Type 0
IsClosing [] flow = Unit
IsClosing (x ∷ []) flow = ((is_some x.failure || is_complete x.response) ≡ true) × (flow ≡ left)
IsClosing (_ ∷ _ ∷ _) flow = ⊥

-- Items of one kind, and behind them at most one that closes the answer.
pub record IsAnswer {P : Type 0} (IsDelta : Item → Type 0) (items : List Item) (flow : Flow P)
    : Type 0 where
  pub deltas : List Item
  pub closing : List Item
  pub made_of : items ≡ deltas ++ closing
  pub given : All IsDelta deltas
  pub closes : IsClosing closing flow

-- While the loop goes on, nothing has closed the answer.
no_closing : {P : Type 0} (closing : List Item) (p : P) → IsClosing closing (next p) → closing ≡ []
no_closing [] p h = refl
no_closing (x ∷ []) p h = cc (h.1)
no_closing (x ∷ y ∷ zs) p h = absurd h

module _ {P : Type 0} {IsDelta : Item → Type 0} where
  pub nothing : (flow : Flow P) → IsAnswer IsDelta [] flow
  nothing flow = record { deltas = []; closing = []; made_of = refl; given = tt; closes = tt }

  pub closing_alone :
      (x : Item)
      → (is_some x.failure || is_complete x.response) ≡ true
      → IsAnswer {P = P} IsDelta (x ∷ []) left
  closing_alone x h = record {
    deltas = [];
    closing = x ∷ [];
    made_of = refl;
    given = tt;
    closes = (h, refl);
  }

  pub IsAnswer-delta :
      (x : Item) (items : List Item) (flow : Flow P)
      → IsDelta x
      → IsAnswer IsDelta items flow
      → IsAnswer IsDelta (x ∷ items) flow
  IsAnswer-delta x items flow h a = record {
    deltas = x ∷ a.deltas;
    closing = a.closing;
    made_of = ap (◌∷◌ x) a.made_of;
    given = (h, a.given);
    closes = a.closes;
  }

  IsAnswer-append :
      (p : P) (items later : List Item) (flow : Flow P)
      → IsAnswer IsDelta items (next p)
      → IsAnswer IsDelta later flow
      → IsAnswer IsDelta (items ++ later) flow
  IsAnswer-append p items later flow a l = record {
    deltas = a.deltas ++ l.deltas;
    closing = l.closing;
    made_of =
        rw append_assoc
          (ap₂ ◌++◌ (a.made_of ∙ rw (no_closing a.closing p a.closes) (append-nil _)) l.made_of);
    given = All-append IsDelta a.deltas l.deltas a.given l.given;
    closes = l.closes;
  }

  resume-IsAnswer :
      (rest : P → List Item × Flow P) (items : List Item) (flow : Flow P)
      → ((p : P) → IsAnswer IsDelta (rest p).0 (rest p).1)
      → IsAnswer IsDelta items flow
      → IsAnswer IsDelta (resume rest items flow).0 (resume rest items flow).1
  resume-IsAnswer rest items (next p) later a = IsAnswer-append p items _ _ a (later p)
  resume-IsAnswer rest items left later a = a
  resume-IsAnswer rest items panics later a = a

  -- If every round gives a part of an answer, the rounds together do.
  pub run-IsAnswer {ℓ} :
      {X : Type ℓ} (step : P → X → List Item × Flow P)
      → ((p : P) (x : X) → IsAnswer IsDelta (step p x).0 (step p x).1)
      → (p : P) (xs : List X) → IsAnswer IsDelta (run step p xs).0 (run step p xs).1
  unfolding run
  run-IsAnswer step h p [] = nothing (next p)
  run-IsAnswer step h p (x ∷ xs) =
      resume-IsAnswer (λ p'. run step p' xs) _ _ (λ p'. run-IsAnswer step h p' xs) (h p x)
