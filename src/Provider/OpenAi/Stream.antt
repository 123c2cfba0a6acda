-- ===== src/Provider/OpenAi/Stream.antt =====
-- The loop of `generateStreaming` of internal/runtime/providers/openai/openai.go over the events of
-- the response's stream.
use crated.Prelude.{
  ℕ, suc, ◌-◌, true, false, not, String, List, [], ◌∷◌, ◌++◌, Option, none, some, wrapf, Result, ok,
  err, Yield, if◌then◌else◌, ◌==◌, ℤ, pos, negsuc, length, modify, replicate,
}
use crated.Prelude.Text.{◌<>◌}
use crated.Json.{Codec, unmarshalled}
use crated.Genai.{Part, LlmResponse, Item, respond, fail, text_part, call_part, unset}
use crated.Sse.{Event, read}
use crated.Sse.Scanner.{Stream}
use crated.Provider.Rounds.{Flow, next, left, panics, looping}
use crated.Provider.OpenAi.{StreamToolCall, StreamChoice, StreamResponse, Usage, map_finish_reason}
use crated.Provider.OpenAi.Response.{usage_metadata}

-- `toolCallAccumulator`
pub record ToolCallAccumulator : Type 0 where
  pub id : String
  pub name : String
  pub arguments : String

abbrev pub blank_call : ToolCallAccumulator
blank_call = record { id = ""; name = ""; arguments = "" }

abbrev pub merge : StreamToolCall → ToolCallAccumulator → ToolCallAccumulator
merge tc call = record {
  id = if not (tc.id == "") then tc.id else call.id;
  name = if not (tc.function.name == "") then tc.function.name else call.name;
  arguments = call.arguments <> tc.function.arguments;
}

-- `for len(toolCalls) <= tc.Index { … }`
abbrev pub extend : List ToolCallAccumulator → ℕ → List ToolCallAccumulator
extend calls i = calls ++ replicate (suc i - length calls) blank_call

-- One round of the loop over the deltas; `none` is the panic at a negative index.
abbrev pub accumulate :
    List ToolCallAccumulator → StreamToolCall → ℤ → Option (List ToolCallAccumulator)
accumulate calls tc (pos i) = some (modify (extend calls i) i (merge tc))
accumulate calls tc (negsuc i) = none

unfoldable pub accumulate_all :
    List ToolCallAccumulator → List StreamToolCall → Option (List ToolCallAccumulator)
accumulate_all calls [] = some calls
accumulate_all calls (tc ∷ tcs) = elim (accumulate calls tc tc.index) [
  | none ↦ none
  | some calls' ↦ accumulate_all calls' tcs
]

-- `toolCalls` and `finalUsage`
pub record Progress : Type 0 where
  pub tool_calls : List ToolCallAccumulator
  pub final_usage : Option Usage

abbrev pub at_start : Progress
at_start = record { tool_calls = []; final_usage = none }

abbrev pub latest_usage : Option Usage → Option Usage → Option Usage
latest_usage none old = old
latest_usage (some u) old = some u

abbrev pub text_response : String → LlmResponse
text_response t = record {
  content = some (record { role = "model"; parts = text_part t ∷ [] });
  turn_complete = false;
  finish_reason = unset;
  usage_metadata = none;
}

module _ (codec : Codec) where
  abbrev pub call_parts : List ToolCallAccumulator → List Part
  call_parts [] = []
  call_parts (tc ∷ tcs) = call_part tc.name (unmarshalled codec tc.arguments) ∷ call_parts tcs

  -- The final response, with all tool calls and the usage.
  abbrev pub final_response : Progress → String → LlmResponse
  final_response p reason = record {
    content = elim p.tool_calls [
      | [] ↦ none
      | tc ∷ tcs ↦ some (record { role = "model"; parts = call_parts (tc ∷ tcs) })
    ];
    turn_complete = true;
    finish_reason = map_finish_reason reason;
    usage_metadata = usage_metadata p.final_usage;
  }

-- json.Unmarshal of a chunk is `decode`.
module _ {ℓ} {S : Type ℓ} (codec : Codec) (decode : String → Result StreamResponse)
    (yield : Yield S Item) where
  -- Behind the text delta: the tool call deltas, and the end of the stream.
  abbrev pub after_text : S → Progress → StreamChoice → S × Flow Progress
  after_text s p choice = elim (accumulate_all p.tool_calls choice.delta.tool_calls) [
    | none ↦ (s, panics)
    | some calls ↦
        let p' = record p { tool_calls = calls } in
        elim choice.finish_reason [
          | none ↦ (s, next p')
          | some reason ↦ ((yield s (respond (final_response codec p' reason))).0, left)
        ]
  ]

  abbrev pub on_choice : S → Progress → StreamChoice → S × Flow Progress
  on_choice s p choice =
      if not (choice.delta.content == "")
      then (let (s', more) = yield s (respond (text_response choice.delta.content)) in
          if more then after_text s' p choice else (s', left))
      else after_text s p choice

  abbrev pub on_choices : S → Progress → List StreamChoice → S × Flow Progress
  on_choices s p [] = (s, next p)
  on_choices s p (choice ∷ _) = on_choice s p choice

  -- The loop's body.
  unfoldable pub on_event : S → Progress → Result Event → S × Flow Progress
  on_event s p (err e) = ((yield s (fail (wrapf "reading openai stream: %w" [] e))).0, left)
  on_event s p (ok event) =
      if event.payload == "[DONE]" then (s, left) else elim (decode event.payload) [
        | err e ↦ ((yield s (fail (wrapf "parsing openai stream chunk: %w" [] e))).0, left)
        | ok chunk ↦
            on_choices s (record p { final_usage = latest_usage chunk.usage p.final_usage })
              chunk.choices
      ]

  abbrev pub loop_body : Yield (S × Flow Progress) (Result Event)
  loop_body = looping on_event

  -- `for event, err := range sse.Read(resp.Body) { … }`
  unfoldable pub consume : S → Stream → S × Flow Progress
  unfolding on_event
  consume s body = (read loop_body (s, next at_start) body).0
