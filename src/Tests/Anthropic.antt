-- ===== src/Tests/Anthropic.antt =====
-- Responses, streams and models of the provider of Anthropic.
use crated.Prelude.{
  ℕ, suc, true, String, List, [], ◌∷◌, ◌++◌, map, none, some, foreign, ok, err, Yield, feed,
  and_then, ◌≡◌, ◌≢◌, refl, arith, ℤ, pos, negsuc, eq_iff,
}
use crated.Json.{Codec, end, field, unmarshalled, null}
use crated.Genai.{Content, Item, text_part, call_part}
use crated.Sse.{Event}
use crated.Sse.Scanner.{Stream}
use crated.Provider.Rounds.{Flow, settle}
use crated.Provider.Rounds.Answer.{IsAnswer}
use crated.Provider.Anthropic.Answer.{IsPiece, consume-IsTurn}
use crated.Provider.Anthropic.{ContentBlock, blank_block, MessagesResponse}
use crated.Provider.Anthropic.Request.{convert_contents}
use crated.Provider.Anthropic.Response.{convert_sync_response, parts, block_parts, convert_input}
use crated.Provider.Anthropic.Identifiers.{
  is_text, is_tool, text_block, tool_block, without_id, convert_contents-sync_response,
}
use crated.Provider.Rounds.{next, wants_more}
use crated.Provider.Anthropic.Stream.{
  Progress, at_start, Decoders, hand_on, on_event, loop_body, consume,
}
use crated.Provider.Anthropic.ToolInput.{Deltas, no_more, delta, streamed_call}
use crated.Provider.Anthropic.Panics.{is_panic, on_event-panics}

abbrev codec : Codec
codec = record { marshal = λ j. some "{}"; unmarshal = λ s. some (some end) }

abbrev answer : List ContentBlock
answer = text_block "Let me see." ∷ tool_block "toolu_1" "add" (field "x" null end) ∷ []

abbrev response : MessagesResponse
response = record { content = answer; stop_reason = "tool_use"; usage = none }

abbrev answered : Content
answered = record {
  role = "model";
  parts = text_part "Let me see." ∷ call_part "add" (some (field "x" null end)) ∷ [];
}

response_content : (convert_sync_response codec response).content ≡ some answered
unfolding convert_sync_response parts block_parts convert_input
response_content = refl

given : ◌≢◌ {A = String} "Let me see." ""
given = ground (arith, eq_iff "Let me see." "")

convert_contents-sync_response_example :
    convert_contents codec (answered ∷ [])
    ≡ ("", record { role = "assistant"; content = map without_id answer } ∷ [])
convert_contents-sync_response_example =
    convert_contents-sync_response codec response (text_block "Let me see.")
      (tool_block "toolu_1" "add" (field "x" null end) ∷ []) answered refl
      (is_text "Let me see." given, (is_tool "toolu_1" "add" (field "x" null end), tt))
      response_content

abbrev counting : Yield ℕ Item
counting n x = (suc n, true)

-- Every block is a tool's use at index 0, and every delta a fragment of its input.
abbrev decoders : ℤ → Decoders
decoders index = record {
  start = λ s. ok (record {
    index = index;
    content_block = record blank_block { type = "tool_use"; name = "add" };
  });
  delta = λ s. ok (record {
    index = index;
    delta = record { type = "input_json_delta"; text = ""; partial_json = s };
  });
  stop = λ s. ok (record { index = index });
  message = λ s. err (foreign "none");
}

abbrev at : String → String → Event
at type payload = record { type = type; payload = payload }

abbrev fragment : String → Event
fragment payload = at "content_block_delta" payload

two_fragments :
    Deltas codec
      (decoders (pos 0))
      counting
      (ok (fragment "{\"x\":") ∷ ok (fragment "1}") ∷ [])
      ((0, "{\"x\":") ∷ (0, "1}") ∷ [])
two_fragments =
    delta (fragment "{\"x\":")
      (record {
        index = pos 0;
        delta = record { type = "input_json_delta"; text = ""; partial_json = "{\"x\":" };
      })
      0 refl refl refl refl
      (delta (fragment "1}")
        (record {
          index = pos 0;
          delta = record { type = "input_json_delta"; text = ""; partial_json = "1}" };
        })
        0 refl refl refl refl no_more)

streamed_call_example :
    (p' : Progress) × (feed
        (loop_body codec (decoders (pos 0)) counting)
        (0, next at_start)
        (ok (at "content_block_start" "") ∷ (ok (fragment "{\"x\":") ∷ ok (fragment "1}") ∷ [])
          ++ ok (at "content_block_stop" "") ∷ [])
      ≡ (let call = call_part "add" (unmarshalled codec "{\"x\":1}") in
          let round = hand_on codec (decoders (pos 0)) counting 0 p' call in
          and_then
            (round, wants_more round.1)
            (λ r. feed (loop_body codec (decoders (pos 0)) counting) r [])))
streamed_call_example =
    streamed_call codec (decoders (pos 0)) counting 0 at_start (at "content_block_start" "")
      (at "content_block_stop" "")
      (record {
        index = pos 0;
        content_block = record blank_block { type = "tool_use"; name = "add" };
      })
      (record { index = pos 0 }) 0 (ok (fragment "{\"x\":") ∷ ok (fragment "1}") ∷ []) []
      ((0, "{\"x\":") ∷ (0, "1}") ∷ []) refl refl refl refl two_fragments refl refl refl

on_event-panics_example :
    is_panic
      (on_event codec
        (decoders (negsuc 0))
        counting
        0
        at_start
        (ok (at "content_block_start" ""))).1
    ≡ true
on_event-panics_example =
    on_event-panics codec (decoders (negsuc 0)) counting 0 at_start (at "content_block_start" "")

-- Every delta is of text, and a `message_delta` ends the turn.
abbrev speaking : Decoders
speaking = record (decoders (pos 0)) {
  delta = λ s. ok (record {
    index = pos 0;
    delta = record { type = "text_delta"; text = s; partial_json = "" };
  });
  message = λ s. ok (record { stop_reason = s; usage = none });
}

abbrev spoken : Stream
spoken = record {
  text =
      "event: content_block_delta\ndata: hi\n\nevent: message_delta\ndata: max_tokens\n\nevent: message_stop\ndata: {}\n\n";
  failure = none;
}

consume-IsTurn_example :
    (items : List Item) × (flow : Flow Progress) × (consume codec speaking counting 0 spoken
      ≡ settle (feed counting 0 items) flow)
    × IsAnswer (IsPiece codec) items flow
consume-IsTurn_example = consume-IsTurn codec speaking counting 0 spoken
