-- ===== src/Provider/OpenAi/History.antt =====
-- What becomes of a conversation's history when internal/runtime/providers/openai/openai.go sends it
-- back to OpenAI.
use crated.Prelude.{
  false, String, List, [], ◌∷◌, map, none, some, ◌==◌, ◌≡◌, ◌≢◌, refl, sym, ap, ◌∙◌, arith, length,
  length-map, Bool-cases, inl, inr,
}
use crated.Prelude.Text.{eq-false_of_ne}
use crated.Json.{Codec, marshalled, unmarshalled}
use crated.Genai
use crated.Genai.{Part, Content, LlmResponse}
use crated.Provider.OpenAi.{ToolCall, ChatResponse, Choice, map_role}
use crated.Provider.OpenAi.Request.{
  extract_text, convert_as, convert_content, convert_contents, tool_calls,
}
use crated.Provider.OpenAi.Response.{convert_sync_response, call_parts}

module _ (codec : Codec) where
  -- A tool call as the history has it after a response: with the function's name for its identifier,
  -- and its arguments decoded and encoded again.
  abbrev pub replayed : ToolCall → ToolCall
  replayed tc = record {
    id = tc.function.name;
    type = "function";
    function = record {
      name = tc.function.name;
      arguments = marshalled codec (unmarshalled codec tc.function.arguments);
    };
  }

  tool_calls-call_parts :
      (tcs : List ToolCall) → tool_calls codec (call_parts codec tcs) ≡ map replayed tcs
  unfolding tool_calls
  tool_calls-call_parts [] = refl
  tool_calls-call_parts (tc ∷ tcs) = ap (◌∷◌ (replayed tc)) (tool_calls-call_parts tcs)

  -- OpenAI's tool calls, converted for the ADK and sent back as the assistant's turn, are the same
  -- functions in the same order, with no text; but each identifier is replaced by the function's name.
  pub convert_content-sync_response :
      (resp : ChatResponse) (ch : Choice) (chs : List Choice) (tc : ToolCall) (tcs : List ToolCall)
      (content : Content)
      → resp.choices ≡ ch ∷ chs
      → ch.message.tool_calls ≡ tc ∷ tcs
      → (convert_sync_response codec resp).content ≡ some content
      → convert_content codec content ≡ record {
        role = "assistant";
        content = "";
        tool_calls = map replayed (tc ∷ tcs);
        tool_call_id = "";
      }
  unfolding convert_sync_response convert_content
  convert_content-sync_response resp ch chs tc tcs content c t h =
      let e : content ≡ record { role = "model"; parts = call_parts codec (tc ∷ tcs) } =
        ground arith in
      rw e (rw (tool_calls-call_parts tcs))

  -- Of a tool's content only the first part counts: the results of other calls behind it are lost.
  pub tool_results_lost :
      (p : Part) (ps qs : List Part) (fr : Genai.FunctionResponse)
      → p.function_response ≡ some fr
      → convert_content codec (record { role = "tool"; parts = p ∷ ps })
        ≡ convert_content codec (record { role = "tool"; parts = p ∷ qs })
  unfolding convert_content
  tool_results_lost p ps qs fr h = ground arith

  abbrev pub without_response : Part → Part
  without_response p = record p { function_response = none }

  extract_text-without : (ps : List Part) → extract_text (map without_response ps) ≡ extract_text ps
  unfolding extract_text
  extract_text-without [] = refl
  extract_text-without (p ∷ ps) = ground (arith, extract_text-without ps)

  tool_calls-without :
      (ps : List Part) → tool_calls codec (map without_response ps) ≡ tool_calls codec ps
  unfolding tool_calls
  tool_calls-without [] = refl
  tool_calls-without (p ∷ ps) = ground (arith, tool_calls-without ps)

  convert_as-without :
      (role : String) (ps : List Part)
      → (role == "tool") ≡ false
      → convert_as codec role (map without_response ps) ≡ convert_as codec role ps
  unfolding convert_as
  convert_as-without role ps h = rw h (rw (extract_text-without, tool_calls-without))

  map_role-ne-tool : (role : String) → role ≢ "tool" → (map_role role == "tool") ≡ false
  unfolding map_role
  map_role-ne-tool role h = elim (Bool-cases (role == "user")) [
    | inl user ↦ rw user
    | inr other ↦ elim (Bool-cases (role == "model")) [
      | inl model ↦ rw (other, model)
      | inr neither ↦ rw (other, neither) (eq-false_of_ne role "tool" h)
    ]
  ]

  convert_content-as :
      (role : String) (ps : List Part)
      → convert_content codec (record { role = role; parts = ps })
        ≡ convert_as codec (map_role role) ps
  unfolding convert_content
  convert_content-as role ps = refl

  -- A function response in a content of any role but "tool", so also in one of role "user", is not
  -- sent: the message is the one without it.
  pub convert_content-without_response :
      (role : String) (ps : List Part)
      → role ≢ "tool"
      → convert_content codec (record { role = role; parts = map without_response ps })
        ≡ convert_content codec (record { role = role; parts = ps })
  convert_content-without_response role ps h =
      convert_content-as role (map without_response ps)
      ∙ convert_as-without (map_role role) ps (map_role-ne-tool role h)
      ∙ sym (convert_content-as role ps)

  -- One message for each content, in order.
  pub length-convert_contents :
      (contents : List Content) → length (convert_contents codec contents) ≡ length contents
  unfolding convert_contents
  length-convert_contents contents = length-map (convert_content codec) contents
