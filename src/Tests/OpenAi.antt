-- ===== src/Tests/OpenAi.antt =====
-- Streams, responses and tool calls of the provider of OpenAI.
use crated.Prelude.{
  String, List, [], ◌∷◌, map, none, some, Result, ok, feed, ◌≡◌, refl, ℤ, pos, ◌==◌, if◌then◌else◌,
}
use crated.Json.{Codec, end}
use crated.Genai.{Item, Part, Content, call_part}
use crated.Sse.{Event}
use crated.Provider.OpenAi.{ToolCall, Choice, StreamToolCall, StreamResponse}
use crated.Provider.OpenAi.Request.{convert_content}
use crated.Provider.OpenAi.Response.{convert_sync_response}
use crated.Provider.OpenAi.Stream.{
  ToolCallAccumulator, Progress, accumulate_all, blank_call, consume, final_response,
}
use crated.Provider.Rounds.{Flow, settle}
use crated.Provider.Rounds.Answer.{IsAnswer}
use crated.Provider.OpenAi.Reassembly.{
  call_at, merged, fragments, call_at-accumulate_all, arguments-accumulate_all,
}
use crated.Provider.OpenAi.Answer.{IsText, consume-IsAnswer, relabel, final_response-relabel}
use crated.Provider.OpenAi.History.{replayed, convert_content-sync_response, tool_results_lost}
use crated.Tests.Streams.{two_at_most, two_events}

abbrev pub codec : Codec
codec = record { marshal = λ j. some "{}"; unmarshal = λ s. some (some end) }

abbrev fragment : ℤ → String → String → String → StreamToolCall
fragment index id name arguments = record {
  index = index;
  id = id;
  type = "function";
  function = record { name = name; arguments = arguments };
}

-- Two calls, interleaved, the second first.
abbrev deltas : List StreamToolCall
deltas =
    fragment (pos 1) "c1" "now" "{"
    ∷ fragment (pos 0) "c0" "add" "{\"x\":"
    ∷ fragment (pos 1) "" "" "}"
    ∷ fragment (pos 0) "" "" "1}"
    ∷ []

abbrev pub both_calls : List ToolCallAccumulator
both_calls =
    record { id = "c0"; name = "add"; arguments = "{\"x\":1}" }
    ∷ record { id = "c1"; name = "now"; arguments = "{}" }
    ∷ []

pub accumulated : accumulate_all [] deltas ≡ some both_calls
unfolding accumulate_all
accumulated = refl

call_at-accumulate_all_example : call_at both_calls 1 ≡ merged 1 deltas blank_call
call_at-accumulate_all_example = call_at-accumulate_all [] both_calls deltas 1 accumulated

arguments-accumulate_all_example : (call_at both_calls 0).arguments ≡ fragments 0 deltas
arguments-accumulate_all_example = arguments-accumulate_all both_calls deltas 0 accumulated

abbrev pub chunk : StreamResponse
chunk = record {
  choices =
      record {
        delta = record { role = ""; content = "hi"; tool_calls = deltas };
        finish_reason = some "stop";
      }
      ∷ [];
  usage = none;
}

abbrev pub decode : String → Result StreamResponse
decode s =
    if s == "usage"
    then ok (record {
      choices = [];
      usage =
          some (record { prompt_tokens = pos 1; completion_tokens = pos 2; total_tokens = pos 3 });
    })
    else ok chunk

abbrev data_event : String → Event
data_event s = record { type = ""; payload = s }

consume-IsAnswer_example :
    (items : List Item) × (flow : Flow Progress) × (consume codec decode two_at_most 0 two_events
      ≡ settle (feed two_at_most 0 items) flow)
    × IsAnswer IsText items flow
consume-IsAnswer_example = consume-IsAnswer codec decode two_at_most 0 two_events

final_response-relabel_example :
    final_response codec
      (record { tool_calls = relabel (λ c. "other") both_calls; final_usage = none })
      "stop"
    ≡ final_response codec (record { tool_calls = both_calls; final_usage = none }) "stop"
final_response-relabel_example =
    final_response-relabel codec (λ c. "other")
      (record { tool_calls = both_calls; final_usage = none }) "stop"

abbrev tool_turn : ToolCall
tool_turn = record {
  id = "c0";
  type = "function";
  function = record { name = "add"; arguments = "{}" };
}

abbrev tool_choice : Choice
tool_choice = record {
  message = record {
    role = "assistant";
    content = "";
    tool_calls = tool_turn ∷ [];
    tool_call_id = "";
  };
  finish_reason = "tool_calls";
}

abbrev tool_content : Content
tool_content = record { role = "model"; parts = call_part "add" (some end) ∷ [] }

tool_converted :
    (convert_sync_response codec (record { choices = tool_choice ∷ []; usage = none })).content
    ≡ some tool_content
unfolding convert_sync_response
tool_converted = refl

convert_content-sync_response_example : convert_content codec tool_content ≡ record {
  role = "assistant";
  content = "";
  tool_calls = map (replayed codec) (tool_turn ∷ []);
  tool_call_id = "";
}
convert_content-sync_response_example =
    convert_content-sync_response codec (record { choices = tool_choice ∷ []; usage = none })
      tool_choice [] tool_turn [] tool_content refl refl tool_converted

abbrev result_part : String → Part
result_part name = record {
  text = "";
  function_call = none;
  function_response = some (record { id = name; name = name; response = some end });
}

tool_results_lost_example :
    convert_content codec
      (record { role = "tool"; parts = result_part "add" ∷ result_part "now" ∷ [] })
    ≡ convert_content codec (record { role = "tool"; parts = result_part "add" ∷ [] })
tool_results_lost_example =
    tool_results_lost codec (result_part "add") (result_part "now" ∷ []) []
      (record { id = "add"; name = "add"; response = some end }) refl
