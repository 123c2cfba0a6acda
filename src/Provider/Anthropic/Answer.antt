-- ===== src/Provider/Anthropic/Answer.antt =====
-- The shape of a streamed answer of internal/runtime/providers/anthropic/anthropic.go.
use crated.Prelude.{
  Bool, true, false, String, List, [], ◌∷◌, Option, none, some, Result, ok, err, if◌then◌else◌,
  ◌==◌, ◌≡◌, refl, Result-cases, inl, inr, Yield, feed,
}
use crated.Json.{Codec, unmarshalled}
use crated.Genai.{Item, text_part, call_part}
use crated.Sse.{Event}
use crated.Sse.Scanner.{Stream}
use crated.Sse.Pull.{events}
use crated.Provider.Rounds.{Flow, next, panics, run, settle}
use crated.Provider.Rounds.Answer.{IsAnswer, nothing, closing_alone, IsAnswer-delta, run-IsAnswer}
use crated.Provider.Anthropic.Stream.{
  ContentBlockAccumulator, Progress, at_start, Decoders, stopped, final_response, consume,
}
use crated.Provider.Anthropic.Responses.{
  Round, piece, with_blocks, started_step, delta_step, block_step, stopped_step, message_step, step,
  consume-rounds,
}

-- A response with one text, or with one call whose arguments are an input of JSON as it was decoded.
pub data IsPiece (codec : Codec) : Item → Type 0 where
  text : (t : String) → IsPiece codec (piece (text_part t))
  call :
      (name input_json : String)
      → IsPiece codec (piece (call_part name (unmarshalled codec input_json)))

module _ (codec : Codec) where
  abbrev IsTurn : Round → Type 0
  IsTurn r = IsAnswer (IsPiece codec) r.0 r.1

  pick-IsTurn : (b : Bool) (r r' : Round) → IsTurn r → IsTurn r' → IsTurn (if b then r else r')
  pick-IsTurn true r r' h h' = h
  pick-IsTurn false r r' h h' = h'

  piece-IsTurn : (p : Progress) (x : Item) → IsPiece codec x → IsTurn (x ∷ [], next p)
  piece-IsTurn p x h = IsAnswer-delta x [] (next p) h (nothing (next p))

  with_blocks-IsTurn :
      (p : Progress) (blocks : Option (List ContentBlockAccumulator))
      → IsTurn (with_blocks p blocks)
  with_blocks-IsTurn p none = nothing panics
  with_blocks-IsTurn p (some blocks) = nothing (next (record p { active_blocks = blocks }))

  block_step-IsTurn :
      (decoders : Decoders) (p : Progress) (block : Option (Option ContentBlockAccumulator))
      → IsTurn (block_step codec decoders p block)
  block_step-IsTurn decoders p none = nothing panics
  block_step-IsTurn decoders p (some none) = nothing (next p)
  block_step-IsTurn decoders p (some (some b)) =
      pick-IsTurn (b.type == "tool_use") _ _ (piece-IsTurn p _ (call b.name b.input_json))
        (nothing (next p))

module _ (codec : Codec) (decoders : Decoders) where
  started_step-IsTurn :
      (p : Progress) (payload : String) → IsTurn codec (started_step codec decoders p payload)
  unfolding started_step
  started_step-IsTurn p payload = elim (Result-cases (decoders.start payload)) [
    | inl (ev, got) ↦ rw (got, started_step) (with_blocks-IsTurn codec p _)
    | inr (e, failed) ↦ rw (failed, started_step) (closing_alone _ refl)
  ]

  delta_step-IsTurn :
      (p : Progress) (payload : String) → IsTurn codec (delta_step codec decoders p payload)
  unfolding delta_step
  delta_step-IsTurn p payload = elim (Result-cases (decoders.delta payload)) [
    | inl (ev, got) ↦
        rw (got, delta_step)
          (pick-IsTurn codec (ev.delta.type == "text_delta") _ _
            (piece-IsTurn codec p _ (text ev.delta.text))
            (pick-IsTurn codec (ev.delta.type == "input_json_delta") _ _
              (with_blocks-IsTurn codec p _) (nothing (next p))))
    | inr (e, failed) ↦ rw (failed, delta_step) (closing_alone _ refl)
  ]

  stopped_step-IsTurn :
      (p : Progress) (payload : String) → IsTurn codec (stopped_step codec decoders p payload)
  unfolding stopped_step
  stopped_step-IsTurn p payload = elim (Result-cases (decoders.stop payload)) [
    | inl (ev, got) ↦
        rw (got, stopped_step)
          (block_step-IsTurn codec decoders p (stopped p.active_blocks ev.index))
    | inr (e, failed) ↦ rw (failed, stopped_step) (closing_alone _ refl)
  ]

  message_step-IsTurn :
      (p : Progress) (payload : String) → IsTurn codec (message_step codec decoders p payload)
  unfolding message_step
  message_step-IsTurn p payload = elim (Result-cases (decoders.message payload)) [
    | inl (ev, got) ↦ rw (got, message_step) (nothing (next _))
    | inr (e, failed) ↦ rw (failed, message_step) (closing_alone _ refl)
  ]

  step-IsTurn : (p : Progress) (x : Result Event) → IsTurn codec (step codec decoders p x)
  unfolding step final_response
  step-IsTurn p (err e) = closing_alone _ refl
  step-IsTurn p (ok event) =
      pick-IsTurn codec (event.type == "content_block_start") _ _
        (started_step-IsTurn p event.payload)
        (pick-IsTurn codec (event.type == "content_block_delta") _ _
          (delta_step-IsTurn p event.payload)
          (pick-IsTurn codec (event.type == "content_block_stop") _ _
            (stopped_step-IsTurn p event.payload)
            (pick-IsTurn codec (event.type == "message_delta") _ _
              (message_step-IsTurn p event.payload)
              (pick-IsTurn codec (event.type == "message_stop") _ _ (closing_alone _ refl)
                (nothing (next p))))))

  -- Whatever the stream holds, the consumer gets, in order and up to the item on which it leaves,
  -- texts and tool calls, one in a response, and then at most one more item, an error or the response
  -- that completes the turn; with it the loop is left.
  pub consume-IsTurn :
      {S : Type 0} (yield : Yield S Item) (s : S) (body : Stream)
      → (items : List Item) × (flow : Flow Progress) × (consume codec decoders yield s body
          ≡ settle (feed yield s items) flow)
        × IsAnswer (IsPiece codec) items flow
  consume-IsTurn yield s body =
      let (items, flow) = run (step codec decoders) at_start (events body) in
      (
        items,
        flow,
        consume-rounds codec decoders yield s body,
        run-IsAnswer (step codec decoders) step-IsTurn at_start (events body),
      )
