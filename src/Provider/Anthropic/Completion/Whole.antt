-- ===== src/Provider/Anthropic/Completion/Whole.antt =====
-- A whole streamed answer of internal/runtime/providers/anthropic/anthropic.go, up to `message_stop`.
use crated.Prelude.{
  true, List, [], ◌∷◌, ◌++◌, map, Result, ok, All, All-append, ◌≡◌, refl, ap, ◌∙◌, Yield, feed,
}
use mathlib.Core.List.{append_assoc}
use mathlib.Core.Path.{ap₂}
use crated.Json.{Codec}
use crated.Genai.{Item, respond}
use crated.Sse.{Event}
use crated.Sse.Scanner.{Stream}
use crated.Sse.Pull.{events}
use crated.Provider.Rounds.{Flow, left, run, run-next, settle, settle_left}
use crated.Provider.Anthropic.Stream.{Progress, at_start, Decoders, final_response, consume}
use crated.Provider.Anthropic.Responses.{Round, step, consume-rounds}
use crated.Provider.Anthropic.Answer.{IsPiece}
use crated.Provider.Anthropic.Completion.{
  ending, tell_all, is_sound, finished, texts, texts-append, all_said,
}
use crated.Provider.Anthropic.Completion.Steps.{step-GoesOn}

abbrev given {ℓ} : {S : Type ℓ} → Yield S Item → S → Round → S × Flow Progress
given yield s r = settle (feed yield s r.0) r.1

module _ (codec : Codec) (decoders : Decoders) where
  step_stop :
      (p : Progress) (stop : Event)
      → stop.type ≡ "message_stop"
      → step codec decoders p (ok stop) ≡ (respond (finished (ending p)) ∷ [], left)
  unfolding step final_response
  step_stop p stop h = rw (h, step) refl

  run_stop :
      (p : Progress) (stop : Event) (later : List (Result Event))
      → stop.type ≡ "message_stop"
      → run (step codec decoders) p (ok stop ∷ later) ≡ (respond (finished (ending p)) ∷ [], left)
  unfolding run
  run_stop p stop later h = rw (step_stop p stop h, run) refl

  run_sound :
      (p : Progress) (before : List Event) (stop : Event) (later : List (Result Event))
      → All (λ event. is_sound decoders event ≡ true) before
      → stop.type ≡ "message_stop"
      → (pieces : List Item) × (run (step codec decoders) p (map ok before ++ ok stop ∷ later)
          ≡ (pieces ++ respond (finished (tell_all decoders (ending p) before)) ∷ [], left))
        × All (IsPiece codec) pieces
        × (texts pieces ≡ all_said decoders before)
  run_sound p [] stop later h is = ([], run_stop p stop later is, tt, refl)
  run_sound p (event ∷ before) stop later (sound, h) is =
      let g = step-GoesOn codec decoders p event sound in
      let (pieces, e, all, say) = run_sound g.onward before stop later h is in
      (
        (step codec decoders p (ok event)).0 ++ pieces,
        run-next (step codec decoders) p (ok event) _ g.onward g.goes
            ∙ ap (λ r. ((step codec decoders p (ok event)).0 ++ r.0, r.1)) e
            ∙ rw (append_assoc, g.ends) refl,
        All-append (IsPiece codec) _ pieces g.pieces all,
        texts-append (step codec decoders p (ok event)).0 pieces ∙ ap₂ ◌++◌ g.says say,
      )

  -- If the stream's events are sound up to a `message_stop`, each with data that can be decoded and no
  -- negative index, then the consumer gets, up to the item on which it leaves, texts and tool calls
  -- only, the texts being those of the text deltas in order, and behind them the response that completes the turn, with the reason of the last
  -- `message_delta` and the last usage that one brought; nothing panics, and what follows is not read.
  pub consume-completes :
      {S : Type 0} (yield : Yield S Item) (s : S) (body : Stream) (before : List Event)
      (stop : Event) (later : List (Result Event))
      → events body ≡ map ok before ++ ok stop ∷ later
      → All (λ event. is_sound decoders event ≡ true) before
      → stop.type ≡ "message_stop"
      → (pieces : List Item) × (consume codec decoders yield s body ≡ (
        (feed yield s
            (pieces ++ respond (finished (tell_all decoders (ending at_start) before)) ∷ [])).0,
        left,
      ))
        × All (IsPiece codec) pieces
        × (texts pieces ≡ all_said decoders before)
  consume-completes yield s body before stop later read h is =
      let (pieces, e, all, say) = run_sound at_start before stop later h is in
      (
        pieces,
        consume-rounds codec decoders yield s body
            ∙ ap (λ xs. given yield s (run (step codec decoders) at_start xs)) read
            ∙ ap (given yield s) e
            ∙ settle_left _,
        all,
        say,
      )
