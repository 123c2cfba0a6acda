-- ===== src/Provider/Anthropic/Responses.antt =====
-- The responses that `generateStreaming` of internal/runtime/providers/anthropic/anthropic.go has to
-- give, as a list, and that the consumer gets a prefix of it.
use crated.Prelude.{
  String, List, [], ◌∷◌, Option, none, some, Error, wrapf, Result, ok, err, Yield, if◌then◌else◌,
  ◌==◌, ◌≡◌, arith, feed, ap, ◌∙◌,
}
use crated.Json.{Codec, unmarshalled}
use crated.Genai.{Item, Part, respond, fail, text_part, call_part}
use crated.Sse.{Event}
use crated.Sse.Scanner.{Stream}
use crated.Sse.Pull.{events, read-feed}
use crated.Provider.Rounds.{Flow, next, left, panics, run, settle, looping-run}
use crated.Provider.Anthropic.Stream.{
  ContentBlockAccumulator, Progress, at_start, Decoders, started, start_block, add_json, stopped,
  partial_response, final_response, latest_usage, on_start, on_delta, on_stop, on_message, on_event,
  loop_body, consume,
}

abbrev pub Round : Type 0
Round = List Item × Flow Progress

abbrev refused : String → Error → Round
refused f e = (fail (wrapf f [] e) ∷ [], left)

abbrev pub piece : Part → Item
piece part = respond (partial_response part)

abbrev pub with_blocks : Progress → Option (List ContentBlockAccumulator) → Round
with_blocks p none = ([], panics)
with_blocks p (some blocks) = ([], next (record p { active_blocks = blocks }))

module _ (codec : Codec) (decoders : Decoders) where
  unfoldable pub started_step : Progress → String → Round
  unfolding start_block
  started_step p text = elim (decoders.start text) [
    | err e ↦ refused "parsing content_block_start: %w" e
    | ok ev ↦ with_blocks p (start_block p.active_blocks (started ev) ev.index)
  ]

  unfoldable pub delta_step : Progress → String → Round
  unfolding add_json
  delta_step p text = elim (decoders.delta text) [
    | err e ↦ refused "parsing content_block_delta: %w" e
    | ok ev ↦
        if ev.delta.type == "text_delta"
        then (piece (text_part ev.delta.text) ∷ [], next p)
        else if ev.delta.type == "input_json_delta"
        then with_blocks p (add_json p.active_blocks ev.delta.partial_json ev.index)
        else ([], next p)
  ]

  abbrev pub block_step : Progress → Option (Option ContentBlockAccumulator) → Round
  block_step p none = ([], panics)
  block_step p (some none) = ([], next p)
  block_step p (some (some b)) =
      if b.type == "tool_use"
      then (piece (call_part b.name (unmarshalled codec b.input_json)) ∷ [], next p)
      else ([], next p)

  unfoldable pub stopped_step : Progress → String → Round
  unfolding stopped
  stopped_step p text = elim (decoders.stop text) [
    | err e ↦ refused "parsing content_block_stop: %w" e
    | ok ev ↦ block_step p (stopped p.active_blocks ev.index)
  ]

  unfoldable pub message_step : Progress → String → Round
  message_step p text = elim (decoders.message text) [
    | err e ↦ refused "parsing message_delta: %w" e
    | ok ev ↦ (
      [],
      next (record p {
        stop_reason = ev.stop_reason;
        final_usage = latest_usage ev.usage p.final_usage;
      }),
    )
  ]

  -- What one event gives, and how its round ends for a consumer that stays.
  unfoldable pub step : Progress → Result Event → Round
  unfolding started_step delta_step stopped_step message_step
  step p (err e) = refused "reading anthropic stream: %w" e
  step p (ok event) =
      if event.type == "content_block_start"
      then started_step p event.payload
      else if event.type == "content_block_delta"
      then delta_step p event.payload
      else if event.type == "content_block_stop"
      then stopped_step p event.payload
      else if event.type == "message_delta"
      then message_step p event.payload
      else if event.type == "message_stop"
      then (respond (final_response p) ∷ [], left)
      else ([], next p)

  module _ {ℓ} {S : Type ℓ} (yield : Yield S Item) where
    on_start-step :
        (s : S) (p : Progress) (text : String)
        → on_start codec decoders yield s p text
          ≡ settle (feed yield s (started_step p text).0) (started_step p text).1
    unfolding on_start start_block started_step feed
    on_start-step s p text = ground arith

    on_delta-step :
        (s : S) (p : Progress) (text : String)
        → on_delta codec decoders yield s p text
          ≡ settle (feed yield s (delta_step p text).0) (delta_step p text).1
    unfolding on_delta add_json delta_step feed
    on_delta-step s p text = ground arith

    on_stop-step :
        (s : S) (p : Progress) (text : String)
        → on_stop codec decoders yield s p text
          ≡ settle (feed yield s (stopped_step p text).0) (stopped_step p text).1
    unfolding on_stop stopped stopped_step feed
    on_stop-step s p text = ground arith

    on_message-step :
        (s : S) (p : Progress) (text : String)
        → on_message codec decoders yield s p text
          ≡ settle (feed yield s (message_step p text).0) (message_step p text).1
    unfolding on_message message_step feed
    on_message-step s p text = ground arith

    on_event-step :
        (s : S) (p : Progress) (x : Result Event)
        → on_event codec decoders yield s p x ≡ settle (feed yield s (step p x).0) (step p x).1
    unfolding on_event step feed
    on_event-step s p (err e) = ground arith
    on_event-step s p (ok event) = ground (
      arith,
      on_start-step s p event.payload,
      on_delta-step s p event.payload,
      on_stop-step s p event.payload,
      on_message-step s p event.payload,
    )

    -- The consumer of a streamed answer gets the responses of `run` in order, and none after the one
    -- on which it leaves; and the code panics exactly if the consumer has stayed and `run` panics.
    pub consume-rounds :
        (s : S) (body : Stream)
        → (let (items, flow) = run step at_start (events body) in
            consume codec decoders yield s body ≡ settle (feed yield s items) flow)
    unfolding consume
    consume-rounds s body =
        ap (λ r. r.0) (read-feed (loop_body codec decoders yield) (s, next at_start) body)
        ∙ looping-run yield (on_event codec decoders yield) step on_event-step (events body) s
            at_start
