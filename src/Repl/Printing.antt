-- ===== src/Repl/Printing.antt =====
-- What a turn of internal/frontend/repl/repl.go prints.
use crated.Prelude.{
  Bool, true, false, String, List, [], ◌∷◌, ◌++◌, map, none, Error, Result, ok, feed, eq_iff,
  eq_refl, ◌≡◌, ◌≢◌, refl, ap, ◌∙◌, sym, arith, All,
}
use crated.Prelude.Text.{◌<>◌}
use text.Mathlib.TextLemmas.{append_assoc, append-nil, nil-append}
use mathlib.Core.List.{append_assoc as list_assoc, append-nil as list_nil}
use crated.Frontend.{Event}
use crated.Repl.{Console, prompt, show, on_event}

-- A part of a streamed answer, and an event that ends the turn.
abbrev pub part : String → Event
part t = record { text = t; is_final = false; tool_calls = []; usage = none; author = "" }

abbrev pub final : String → Event
final t = record (part t) { is_final = true }

abbrev pub joined : List String → String
joined [] = ""
joined (t ∷ ts) = t <> joined ts

abbrev at : String → Bool → List String → Console
at prev prompted printed = record { prev_text = prev; prompted = prompted; printed = printed }

-- The prompt is printed once.
prompt-prompted :
    (event : Event) (prev : String) (printed : List String)
    → prompt event (at prev true printed) ≡ at prev true printed
prompt-prompted event prev printed = ground arith

prompt-first :
    (t prev : String) (printed : List String)
    → t ≢ ""
    → prompt (part t) (at prev false printed) ≡ at prev true (printed ++ "\nAgent -> " ∷ [])
prompt-first t prev printed h = ground (arith, h, eq_iff t "")

show-part :
    (t prev : String) (printed : List String)
    → show (part t) (at prev true printed) ≡ at (prev <> t) true (printed ++ t ∷ [])
show-part t prev printed = refl

show-repeated :
    (t : String) (printed : List String) → show (final t) (at t true printed) ≡ at "" true printed
show-repeated t printed = ground (arith, eq_refl t)

-- The items of such a turn.
abbrev pub streamed : List String → String → List (Result Event)
streamed ts t = map (λ s. ok (part s)) ts ++ ok (final t) ∷ []

module _ (message : Error → String) where
  feed-parts :
      (ts : List String) (prev : String) (printed : List String)
      → All (λ t. t ≢ "") ts
      → feed
          (on_event message)
          (record { prev_text = prev; prompted = true; printed = printed })
          (streamed ts (prev <> joined ts))
        ≡ (record { prev_text = ""; prompted = true; printed = printed ++ ts }, true)
  unfolding on_event feed
  feed-parts [] prev printed h = grind (
    arith,
    prompt-prompted (final (prev <> "")) prev printed,
    show-repeated prev printed,
    append-nil prev,
    list_nil printed,
  )
  feed-parts (t ∷ ts) prev printed (h, hs) =
      ap (λ c. feed (on_event message) (show (part t) c) (streamed ts (prev <> joined (t ∷ ts))))
        (prompt-prompted (part t) prev printed)
      ∙ ap (λ s. feed (on_event message) (at (prev <> t) true (printed ++ t ∷ [])) (streamed ts s))
          (sym (append_assoc prev t (joined ts)))
      ∙ feed-parts ts (prev <> t) (printed ++ t ∷ []) hs
      ∙ ap (λ l. (at "" true l, true)) (list_assoc printed (t ∷ []) ts)

  -- A turn that is streamed in parts, none of them empty, and ends with an event that repeats the whole
  -- text, is printed once: the prompt, then each part.
  pub streamed_once :
      (t : String) (ts printed : List String)
      → All (λ s. s ≢ "") (t ∷ ts)
      → feed
          (on_event message)
          (record { prev_text = ""; prompted = false; printed = printed })
          (streamed (t ∷ ts) (joined (t ∷ ts)))
        ≡ (
          record { prev_text = ""; prompted = true; printed = printed ++ "\nAgent -> " ∷ t ∷ ts },
          true,
        )
  unfolding on_event feed
  streamed_once t ts printed (h, hs) =
      ap (λ c. feed (on_event message) (show (part t) c) (streamed ts (joined (t ∷ ts))))
        (prompt-first t "" printed h)
      ∙ ap
          (λ s.
            feed (on_event message) (at s true ((printed ++ "\nAgent -> " ∷ []) ++ t ∷ []))
              (streamed ts (t <> joined ts)))
          (nil-append t)
      ∙ feed-parts ts t ((printed ++ "\nAgent -> " ∷ []) ++ t ∷ []) hs
      ∙ ap (λ l. (at "" true l, true))
          (list_assoc (printed ++ "\nAgent -> " ∷ []) (t ∷ []) ts
            ∙ list_assoc printed ("\nAgent -> " ∷ []) (t ∷ ts))
