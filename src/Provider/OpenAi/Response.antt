-- ===== src/Provider/OpenAi/Response.antt =====
-- How internal/runtime/providers/openai/openai.go turns a whole response of OpenAI into the ADK's.
use crated.Prelude.{true, List, [], ◌∷◌, Option, none, some, if◌then◌else◌, ◌==◌, not}
use crated.Json.{Codec, unmarshalled}
use crated.Genai.{Part, LlmResponse, UsageMetadata, to_int32, text_part, call_part, stop}
use crated.Provider.OpenAi.{ToolCall, Message, Choice, ChatResponse, Usage, map_finish_reason}

abbrev pub usage_metadata : Option Usage → Option UsageMetadata
usage_metadata none = none
usage_metadata (some u) = some (record {
  prompt_token_count = to_int32 u.prompt_tokens;
  candidates_token_count = to_int32 u.completion_tokens;
  total_token_count = to_int32 u.total_tokens;
})

module _ (codec : Codec) where
  abbrev pub call_parts : List ToolCall → List Part
  call_parts [] = []
  call_parts (tc ∷ tcs) =
      call_part tc.function.name (unmarshalled codec tc.function.arguments) ∷ call_parts tcs

  abbrev pub message_parts : Message → List ToolCall → List Part
  message_parts msg (tc ∷ tcs) = call_parts (tc ∷ tcs)
  message_parts msg [] = if not (msg.content == "") then text_part msg.content ∷ [] else []

  abbrev pub first_choice : Option Usage → List Choice → LlmResponse
  first_choice usage [] = record {
    content = none;
    turn_complete = true;
    finish_reason = stop;
    usage_metadata = none;
  }
  first_choice usage (ch ∷ _) = record {
    content =
        some (record { role = "model"; parts = message_parts ch.message ch.message.tool_calls });
    turn_complete = true;
    finish_reason = map_finish_reason ch.finish_reason;
    usage_metadata = usage_metadata usage;
  }

  -- `convertSyncResponse`
  unfoldable pub convert_sync_response : ChatResponse → LlmResponse
  unfolding map_finish_reason
  convert_sync_response resp = first_choice resp.usage resp.choices
