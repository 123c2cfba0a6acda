-- ===== src/Provider/OpenAi/Responses.antt =====
-- The responses that `generateStreaming` of internal/runtime/providers/openai/openai.go has to give,
-- as a list, and that the consumer gets a prefix of it.
use crated.Prelude.{
  not, String, List, [], ◌∷◌, ◌++◌, none, some, wrapf, Result, ok, err, Yield, if◌then◌else◌, ◌==◌,
  ◌≡◌, arith, feed, ap, ◌∙◌,
}
use crated.Json.{Codec}
use crated.Genai.{Item, respond, fail}
use crated.Sse.{Event}
use crated.Sse.Scanner.{Stream}
use crated.Sse.Pull.{events, read-feed}
use crated.Provider.Rounds.{Flow, next, left, panics, run, settle, looping-run}
use crated.Provider.OpenAi.{StreamChoice, StreamResponse}
use crated.Provider.OpenAi.Stream.{
  Progress, text_response, final_response, accumulate_all, latest_usage, on_event, loop_body,
  consume, at_start,
}

module _ (codec : Codec) (decode : String → Result StreamResponse) where
  abbrev pub texts : StreamChoice → List Item
  texts choice =
      if not (choice.delta.content == "")
      then respond (text_response choice.delta.content) ∷ []
      else []

  abbrev pub finishing : Progress → StreamChoice → List Item × Flow Progress
  finishing p choice = elim (accumulate_all p.tool_calls choice.delta.tool_calls) [
    | none ↦ ([], panics)
    | some calls ↦
        let p' = record p { tool_calls = calls } in
        elim choice.finish_reason [
          | none ↦ ([], next p')
          | some reason ↦ (respond (final_response codec p' reason) ∷ [], left)
        ]
  ]

  abbrev pub choose : Progress → List StreamChoice → List Item × Flow Progress
  choose p [] = ([], next p)
  choose p (choice ∷ _) = let (items, flow) = finishing p choice in (texts choice ++ items, flow)

  -- What one event gives, and how its round ends for a consumer that stays.
  unfoldable pub step : Progress → Result Event → List Item × Flow Progress
  step p (err e) = (fail (wrapf "reading openai stream: %w" [] e) ∷ [], left)
  step p (ok event) =
      if event.payload == "[DONE]" then ([], left) else elim (decode event.payload) [
        | err e ↦ (fail (wrapf "parsing openai stream chunk: %w" [] e) ∷ [], left)
        | ok chunk ↦
            choose (record p { final_usage = latest_usage chunk.usage p.final_usage }) chunk.choices
      ]

  module _ {ℓ} {S : Type ℓ} (yield : Yield S Item) where
    pub on_event-step :
        (s : S) (p : Progress) (x : Result Event)
        → on_event codec decode yield s p x ≡ settle (feed yield s (step p x).0) (step p x).1
    unfolding on_event step feed
    on_event-step s p (err e) = ground arith
    on_event-step s p (ok event) = ground arith

    -- The consumer of a streamed answer gets the responses of `run` in order, and none after the one
    -- on which it leaves; and the code panics exactly if the consumer has stayed and `run` panics.
    pub consume-run :
        (s : S) (body : Stream)
        → (let (items, flow) = run step at_start (events body) in
            consume codec decode yield s body ≡ settle (feed yield s items) flow)
    unfolding consume
    consume-run s body =
        ap (λ r. r.0) (read-feed (loop_body codec decode yield) (s, next at_start) body)
        ∙ looping-run yield (on_event codec decode yield) step on_event-step (events body) s
            at_start
