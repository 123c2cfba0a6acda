-- ===== src/Provider/Anthropic/Stream.antt =====
-- The loop of `generateStreaming` of internal/runtime/providers/anthropic/anthropic.go over the events
-- of the response's stream.
use crated.Prelude.{
  suc, ◌-◌, true, false, String, List, [], ◌∷◌, ◌++◌, Option, none, some, Error, wrapf, Result, ok,
  err, Yield, if◌then◌else◌, ◌==◌, ℤ, pos, negsuc, length, modify, replicate, get_elem?,
}
use crated.Prelude.Text.{◌<>◌}
use crated.Json.{Codec, unmarshalled}
use crated.Genai.{LlmResponse, Item, Part, respond, fail, text_part, call_part, unset}
use crated.Sse.{Event, read}
use crated.Sse.Scanner.{Stream}
use crated.Provider.Rounds.{Flow, next, left, panics, looping}
use crated.Provider.Anthropic.{
  ContentBlockStartEvent, ContentBlockDeltaEvent, ContentBlockStopEvent, MessageDeltaEvent,
  AnthropicUsage, map_stop_reason,
}
use crated.Provider.Anthropic.Response.{usage_metadata}

-- `contentBlockAccumulator`
pub record ContentBlockAccumulator : Type 0 where
  pub type : String
  pub id : String
  pub name : String
  pub input_json : String

abbrev pub blank : ContentBlockAccumulator
blank = record { type = ""; id = ""; name = ""; input_json = "" }

-- `activeBlocks`, `finalUsage` and `stopReason`
pub record Progress : Type 0 where
  pub active_blocks : List ContentBlockAccumulator
  pub final_usage : Option AnthropicUsage
  pub stop_reason : String

abbrev pub at_start : Progress
at_start = record { active_blocks = []; final_usage = none; stop_reason = "" }

-- The block that `content_block_start` puts at its index.
abbrev pub started : ContentBlockStartEvent → ContentBlockAccumulator
started ev = record {
  type = ev.content_block.type;
  id = ev.content_block.id;
  name = ev.content_block.name;
  input_json = "";
}

-- `content_block_start`: the list is extended to the index; a negative index panics.
unfoldable pub start_block :
    List ContentBlockAccumulator
    → ContentBlockAccumulator
    → ℤ
    → Option (List ContentBlockAccumulator)
start_block blocks block (pos i) =
    some (modify (blocks ++ replicate (suc i - length blocks) blank) i (λ _. block))
start_block blocks block (negsuc i) = none

-- `input_json_delta`: an index behind the list is passed over, a negative one panics.
unfoldable pub add_json :
    List ContentBlockAccumulator → String → ℤ → Option (List ContentBlockAccumulator)
add_json blocks json (pos i) =
    some (modify blocks i (λ b. record b { input_json = b.input_json <> json }))
add_json blocks json (negsuc i) = none

-- activeBlocks[ev.Index] under the test `ev.Index < len(activeBlocks)`: the outer `none` is a panic.
unfoldable pub stopped : List ContentBlockAccumulator → ℤ → Option (Option ContentBlockAccumulator)
stopped blocks (pos i) = some (get_elem? blocks i)
stopped blocks (negsuc i) = none

abbrev pub partial_response : Part → LlmResponse
partial_response part = record {
  content = some (record { role = "model"; parts = part ∷ [] });
  turn_complete = false;
  finish_reason = unset;
  usage_metadata = none;
}

unfoldable pub final_response : Progress → LlmResponse
unfolding map_stop_reason
final_response p = record {
  content = none;
  turn_complete = true;
  finish_reason = map_stop_reason p.stop_reason;
  usage_metadata = usage_metadata p.final_usage;
}

abbrev pub latest_usage : Option AnthropicUsage → Option AnthropicUsage → Option AnthropicUsage
latest_usage none old = old
latest_usage (some u) old = some u

-- json.Unmarshal of an event's data into each of the events.
pub record Decoders : Type 0 where
  pub start : String → Result ContentBlockStartEvent
  pub delta : String → Result ContentBlockDeltaEvent
  pub stop : String → Result ContentBlockStopEvent
  pub message : String → Result MessageDeltaEvent

module _ {ℓ} {S : Type ℓ} (codec : Codec) (decoders : Decoders) (yield : Yield S Item) where
  -- `yield(nil, fmt.Errorf(…, err)); return`
  abbrev pub give_up : S → String → Error → S × Flow Progress
  give_up s f e = ((yield s (fail (wrapf f [] e))).0, left)

  abbrev pub hand_on : S → Progress → Part → S × Flow Progress
  hand_on s p part =
      let (s', more) = yield s (respond (partial_response part)) in
      if more then (s', next p) else (s', left)

  abbrev pub go_on : S → Progress → Option (List ContentBlockAccumulator) → S × Flow Progress
  go_on s p none = (s, panics)
  go_on s p (some blocks) = (s, next (record p { active_blocks = blocks }))

  unfoldable pub on_start : S → Progress → String → S × Flow Progress
  unfolding start_block
  on_start s p text = elim (decoders.start text) [
    | err e ↦ give_up s "parsing content_block_start: %w" e
    | ok ev ↦ go_on s p (start_block p.active_blocks (started ev) ev.index)
  ]

  unfoldable pub on_delta : S → Progress → String → S × Flow Progress
  unfolding add_json
  on_delta s p text = elim (decoders.delta text) [
    | err e ↦ give_up s "parsing content_block_delta: %w" e
    | ok ev ↦
        if ev.delta.type == "text_delta"
        then hand_on s p (text_part ev.delta.text)
        else if ev.delta.type == "input_json_delta"
        then go_on s p (add_json p.active_blocks ev.delta.partial_json ev.index)
        else (s, next p)
  ]

  abbrev pub on_block : S → Progress → Option (Option ContentBlockAccumulator) → S × Flow Progress
  on_block s p none = (s, panics)
  on_block s p (some none) = (s, next p)
  on_block s p (some (some b)) =
      if b.type == "tool_use"
      then hand_on s p (call_part b.name (unmarshalled codec b.input_json))
      else (s, next p)

  unfoldable pub on_stop : S → Progress → String → S × Flow Progress
  unfolding stopped
  on_stop s p text = elim (decoders.stop text) [
    | err e ↦ give_up s "parsing content_block_stop: %w" e
    | ok ev ↦ on_block s p (stopped p.active_blocks ev.index)
  ]

  unfoldable pub on_message : S → Progress → String → S × Flow Progress
  on_message s p text = elim (decoders.message text) [
    | err e ↦ give_up s "parsing message_delta: %w" e
    | ok ev ↦ (
      s,
      next (record p {
        stop_reason = ev.stop_reason;
        final_usage = latest_usage ev.usage p.final_usage;
      }),
    )
  ]

  -- The loop's body.
  unfoldable pub on_event : S → Progress → Result Event → S × Flow Progress
  unfolding on_start on_delta on_stop on_message final_response
  on_event s p (err e) = give_up s "reading anthropic stream: %w" e
  on_event s p (ok event) =
      if event.type == "content_block_start"
      then on_start s p event.payload
      else if event.type == "content_block_delta"
      then on_delta s p event.payload
      else if event.type == "content_block_stop"
      then on_stop s p event.payload
      else if event.type == "message_delta"
      then on_message s p event.payload
      else if event.type == "message_stop"
      then ((yield s (respond (final_response p))).0, left)
      else (s, next p)

  abbrev pub loop_body : Yield (S × Flow Progress) (Result Event)
  loop_body = looping on_event

  -- `for event, err := range sse.Read(resp.Body) { … }`
  unfoldable pub consume : S → Stream → S × Flow Progress
  unfolding on_event
  consume s body = (read loop_body (s, next at_start) body).0
