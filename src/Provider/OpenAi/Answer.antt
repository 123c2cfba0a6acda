-- ===== src/Provider/OpenAi/Answer.antt =====
-- The shape of a streamed answer of internal/runtime/providers/openai/openai.go, and what of the
-- stream it depends on.
use crated.Prelude.{
  String, List, [], ◌∷◌, Option, none, some, Result, ok, err, ◌==◌, eq_iff, ◌≡◌, ◌≢◌, refl, ap,
  arith, Bool-cases, Option-cases, Result-cases, inl, inr, Yield, feed,
}
use crated.Json.{Codec, unmarshalled}
use crated.Genai.{Content, call_part, Item, respond}
use crated.Sse.{Event}
use crated.Sse.Scanner.{Stream}
use crated.Sse.Pull.{events}
use crated.Provider.Rounds.{Flow, next, left, panics, run, settle}
use crated.Provider.Rounds.Answer.{IsAnswer, nothing, closing_alone, IsAnswer-delta, run-IsAnswer}
use crated.Provider.OpenAi.{StreamChoice, StreamResponse}
use crated.Provider.OpenAi.Stream.{
  ToolCallAccumulator, Progress, at_start, consume, text_response, final_response, call_parts,
  accumulate_all,
}
use crated.Provider.OpenAi.Responses.{finishing, choose, step, consume-run}

-- A text delta that is not empty.
abbrev pub IsText : Item → Type 0
IsText x = (t : String) × (t ≢ "") × (x ≡ respond (text_response t))

module _ (codec : Codec) (decode : String → Result StreamResponse) where
  finishing-IsAnswer :
      (p : Progress) (choice : StreamChoice)
      → IsAnswer IsText (finishing codec decode p choice).0 (finishing codec decode p choice).1
  finishing-IsAnswer p choice =
      elim (Option-cases (accumulate_all p.tool_calls choice.delta.tool_calls)) [
        | inl failed ↦ rw (failed, finishing) (nothing panics)
        | inr (calls, e) ↦
            rw (e, finishing)
              (elim (Option-cases choice.finish_reason) [
                | inl going ↦ rw going (nothing _)
                | inr (reason, f) ↦ rw f (closing_alone _ refl)
              ])
      ]

  choose-IsAnswer :
      (p : Progress) (choices : List StreamChoice)
      → IsAnswer IsText (choose codec decode p choices).0 (choose codec decode p choices).1
  choose-IsAnswer p [] = nothing (next p)
  choose-IsAnswer p (choice ∷ _) = elim (Bool-cases (choice.delta.content == "")) [
    | inl silent ↦ rw silent (finishing-IsAnswer p choice)
    | inr speaks ↦ rw speaks (
        IsAnswer-delta _ _ _
          (choice.delta.content, ground (arith, eq_iff choice.delta.content ""), refl)
          (finishing-IsAnswer p choice))
  ]

  step-IsAnswer :
      (p : Progress) (x : Result Event)
      → IsAnswer IsText (step codec decode p x).0 (step codec decode p x).1
  unfolding step
  step-IsAnswer p (err e) = closing_alone _ refl
  step-IsAnswer p (ok event) = elim (Bool-cases (event.payload == "[DONE]")) [
    | inl done ↦ rw done (nothing left)
    | inr chunk ↦ rw chunk (elim (Result-cases (decode event.payload)) [
      | inl (c, e) ↦ rw e (choose-IsAnswer _ c.choices)
      | inr (e, f) ↦ rw f (closing_alone _ refl)
    ])
  ]

  -- Whatever the stream holds, the consumer gets, in order and up to the item on which it leaves, text
  -- deltas, none of them empty, and then at most one more item, an error or the response that
  -- completes the turn; with it the loop is left.
  pub consume-IsAnswer :
      {S : Type 0} (yield : Yield S Item) (s : S) (body : Stream)
      → (items : List Item) × (flow : Flow Progress) × (consume codec decode yield s body
          ≡ settle (feed yield s items) flow)
        × IsAnswer IsText items flow
  consume-IsAnswer yield s body =
      let (items, flow) = run (step codec decode) at_start (events body) in
      (
        items,
        flow,
        consume-run codec decode yield s body,
        run-IsAnswer (step codec decode) step-IsAnswer at_start (events body),
      )

-- The same tool calls under other identifiers.
abbrev pub relabel :
    (ToolCallAccumulator → String) → List ToolCallAccumulator → List ToolCallAccumulator
relabel id [] = []
relabel id (c ∷ cs) = record c { id = id c } ∷ relabel id cs

call_parts-relabel :
    (codec : Codec) (id : ToolCallAccumulator → String) (calls : List ToolCallAccumulator)
    → call_parts codec (relabel id calls) ≡ call_parts codec calls
call_parts-relabel codec id [] = refl
call_parts-relabel codec id (c ∷ cs) =
    ap (◌∷◌ (call_part c.name (unmarshalled codec c.arguments))) (call_parts-relabel codec id cs)

abbrev calls_of : Codec → List ToolCallAccumulator → Option Content
calls_of codec [] = none
calls_of codec (tc ∷ tcs) = some (record { role = "model"; parts = call_parts codec (tc ∷ tcs) })

calls_content :
    (codec : Codec) (id : ToolCallAccumulator → String) (calls : List ToolCallAccumulator)
    → calls_of codec (relabel id calls) ≡ calls_of codec calls
calls_content codec id [] = refl
calls_content codec id (c ∷ cs) =
    ap (λ ps. some (record { role = "model"; parts = ps })) (call_parts-relabel codec id (c ∷ cs))

-- The identifiers of the tool calls, which the stream sends and the loop keeps, are in no response:
-- under other identifiers the final response is the same.
pub final_response-relabel :
    (codec : Codec) (id : ToolCallAccumulator → String) (p : Progress) (reason : String)
    → final_response codec (record p { tool_calls = relabel id p.tool_calls }) reason
      ≡ final_response codec p reason
final_response-relabel codec id p reason = ground (arith, calls_content codec id p.tool_calls)
