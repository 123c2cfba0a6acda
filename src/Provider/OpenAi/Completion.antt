-- ===== src/Provider/OpenAi/Completion.antt =====
-- What a streamed answer of internal/runtime/providers/openai/openai.go says up to the chunk with a
-- finish reason.
pub mod Whole
use crated.Prelude.{
  String, List, [], ◌∷◌, ◌++◌, map, Option, none, some, Result, ok, if◌then◌else◌, ◌==◌, ◌≡◌, ◌≢◌,
  refl, ap, ◌∙◌, arith, Option-cases, inl, inr, Yield, feed, subst,
}
use crated.Prelude.Text.{eq-false_of_ne}
use mathlib.Core.List.{append_assoc, append-nil, map-append}
use crated.Json.{Codec}
use crated.Genai.{Item, respond}
use crated.Sse.{Event}
use crated.Sse.Scanner.{Stream}
use crated.Sse.Pull.{events}
use crated.Provider.Rounds.{Flow, next, left, run, run-next, settle, settle_left}
use crated.Provider.OpenAi.{StreamToolCall, StreamChoice, StreamResponse, Usage}
use crated.Provider.OpenAi.Stream.{
  ToolCallAccumulator, Progress, at_start, consume, text_response, final_response, accumulate,
  accumulate_all, latest_usage,
}
use crated.Provider.OpenAi.Responses.{choose, step, consume-run}

-- What the loop reads of a chunk: its first choice, if it has one.
abbrev pub first_of : List StreamChoice → Option StreamChoice
first_of [] = none
first_of (choice ∷ _) = some choice

abbrev pub spoken : Option StreamChoice → List String
spoken none = []
spoken (some choice) = if choice.delta.content == "" then [] else choice.delta.content ∷ []

abbrev pub calls : Option StreamChoice → List StreamToolCall
calls none = []
calls (some choice) = choice.delta.tool_calls

abbrev pub finish : Option StreamChoice → Option String
finish none = none
finish (some choice) = choice.finish_reason

-- The texts, the tool call deltas and the last usage of chunks.
abbrev pub all_spoken : List StreamResponse → List String
all_spoken [] = []
all_spoken (c ∷ cs) = spoken (first_of c.choices) ++ all_spoken cs

abbrev pub all_calls : List StreamResponse → List StreamToolCall
all_calls [] = []
all_calls (c ∷ cs) = calls (first_of c.choices) ++ all_calls cs

abbrev pub last_usage : Option Usage → List StreamResponse → Option Usage
last_usage u [] = u
last_usage u (c ∷ cs) = last_usage (latest_usage c.usage u) cs

abbrev pub partial : String → Item
partial t = respond (text_response t)

-- The events hold the chunks, none of which has a finish reason.
pub data Holds (decode : String → Result StreamResponse)
    : List Event → List StreamResponse → Type 0 where
  holds_none : Holds decode [] []
  holds_one :
      (event : Event) (chunk : StreamResponse) {before : List Event} {chunks : List StreamResponse}
      → event.payload ≢ "[DONE]"
      → decode event.payload ≡ ok chunk
      → finish (first_of chunk.choices) ≡ none
      → Holds decode before chunks
      → Holds decode (event ∷ before) (chunk ∷ chunks)
