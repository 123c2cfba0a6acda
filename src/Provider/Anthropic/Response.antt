-- ===== src/Provider/Anthropic/Response.antt =====
-- How internal/runtime/providers/anthropic/anthropic.go turns a response of Anthropic into one of the
-- ADK.
use crated.Prelude.{
  ◌+◌, ◌%◌, true, List, [], ◌∷◌, ◌++◌, Option, none, some, if◌then◌else◌, ◌==◌, int32_mod,
}
use crated.Json.{Json, null, object, Map, Codec, unmarshalled}
use crated.Genai.{Part, LlmResponse, UsageMetadata, text_part, call_part, to_int32}
use crated.Provider.Anthropic.{ContentBlock, MessagesResponse, AnthropicUsage, map_stop_reason}

-- The total is int32(a + b): its bits are the low ones of the sum of the low bits.
abbrev pub usage_metadata : Option AnthropicUsage → Option UsageMetadata
usage_metadata none = none
usage_metadata (some u) = some (record {
  prompt_token_count = to_int32 u.input_tokens;
  candidates_token_count = to_int32 u.output_tokens;
  total_token_count = (to_int32 u.input_tokens + to_int32 u.output_tokens) % int32_mod;
})

module _ (codec : Codec) where
  -- json.Marshal and json.Unmarshal of something that is no map.
  abbrev pub recoded : Json → Map
  recoded j = elim (codec.marshal j) [ none ↦ none | some s ↦ unmarshalled codec s ]

  -- `convertInput`
  unfoldable pub convert_input : Option Json → Map
  convert_input none = recoded null
  convert_input (some (object fields)) = some fields
  convert_input (some j) = recoded j

  unfoldable pub block_parts : ContentBlock → List Part
  unfolding convert_input
  block_parts b =
      if b.type == "text"
      then text_part b.text ∷ []
      else if b.type == "tool_use"
      then call_part b.name (convert_input b.input) ∷ []
      else []

  unfoldable pub parts : List ContentBlock → List Part
  unfolding block_parts
  parts [] = []
  parts (b ∷ bs) = block_parts b ++ parts bs

  -- `convertSyncResponse`
  unfoldable pub convert_sync_response : MessagesResponse → LlmResponse
  unfolding parts map_stop_reason
  convert_sync_response resp = record {
    content = some (record { role = "model"; parts = parts resp.content });
    turn_complete = true;
    finish_reason = map_stop_reason resp.stop_reason;
    usage_metadata = usage_metadata resp.usage;
  }
