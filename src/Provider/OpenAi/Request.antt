-- ===== src/Provider/OpenAi/Request.antt =====
-- How internal/runtime/providers/openai/openai.go turns a request of the ADK into one of OpenAI.
use crated.Prelude.{
  Bool, true, String, List, [], ◌∷◌, ◌++◌, map, Option, none, some, if◌then◌else◌, ◌==◌,
}
use crated.Prelude.Text.{◌<>◌}
use crated.Json.{Codec, marshalled}
use crated.Genai.{
  Part, Content, FunctionDeclaration, Tool, LlmRequest, ModelConfig, GenerateContentConfig,
}
use crated.Genai
use crated.Provider.OpenAi.{ToolCall, Message, OaiTool, ChatRequest, map_role}

-- `if x == "" { x = d }`
abbrev pub if_empty : String → String → String
if_empty x d = if x == "" then d else x

-- `extractText`
unfoldable pub extract_text : List Part → String
extract_text [] = ""
extract_text (p ∷ ps) = p.text <> extract_text ps

module _ (codec : Codec) where
  -- The body of `if c.Parts[0].FunctionResponse != nil`.
  abbrev pub with_response : Message → Genai.FunctionResponse → Message
  with_response msg fr = record msg {
    tool_call_id = if_empty fr.id fr.name;
    content = marshalled codec fr.response;
  }

  abbrev pub tool_result : Message → List Part → Message
  tool_result msg [] = msg
  tool_result msg (p ∷ ps) = elim p.function_response [
    | none ↦ msg
    | some fr ↦ with_response msg fr
  ]

  abbrev pub tool_call : Genai.FunctionCall → ToolCall
  tool_call fc = record {
    id = if_empty fc.id fc.name;
    type = "function";
    function = record { name = fc.name; arguments = marshalled codec fc.args };
  }

  -- The loop over the parts of the assistant's content.
  unfoldable pub tool_calls : List Part → List ToolCall
  tool_calls [] = []
  tool_calls (p ∷ ps) =
      let rest = tool_calls ps in
      elim p.function_call [ none ↦ rest | some fc ↦ tool_call fc ∷ rest ]

  abbrev clear_if_calls : Message → List ToolCall → Message
  clear_if_calls msg [] = msg
  clear_if_calls msg (c ∷ cs) = record msg { tool_calls = c ∷ cs; content = "" }

  -- One round of `convertContents` behind `role := mapRole(c.Role)`.
  unfoldable pub convert_as : String → List Part → Message
  unfolding extract_text tool_calls
  convert_as role parts =
      let msg : Message = record {
        role = role;
        content = extract_text parts;
        tool_calls = [];
        tool_call_id = "";
      } in
      let msg' = if role == "tool" then tool_result msg parts else msg in
      if role == "assistant" then clear_if_calls msg' (tool_calls parts) else msg'

  unfoldable pub convert_content : Content → Message
  unfolding convert_as map_role
  convert_content c = convert_as (map_role c.role) c.parts

  -- `convertContents`
  unfoldable pub convert_contents : List Content → List Message
  unfolding convert_content
  convert_contents contents = map convert_content contents

-- `convertTools`
abbrev pub declared : List FunctionDeclaration → List OaiTool
declared [] = []
declared (fd ∷ fds) =
    record {
      type = "function";
      function = record {
        name = fd.name;
        description = fd.description;
        parameters = fd.parameters;
      };
    }
    ∷ declared fds

unfoldable pub convert_tools : List Tool → List OaiTool
convert_tools [] = []
convert_tools (t ∷ ts) = declared t.function_declarations ++ convert_tools ts

-- `if req.Config != nil && len(req.Config.Tools) > 0`
abbrev pub tools_of : Option GenerateContentConfig → List OaiTool
tools_of none = []
tools_of (some config) = convert_tools config.tools

-- `buildRequest`, for a model with this ID and configuration.
unfoldable pub build_request : Codec → String → ModelConfig → LlmRequest → Bool → ChatRequest
unfolding convert_contents convert_tools
build_request codec model_id config req stream = record {
  model = model_id;
  messages = convert_contents codec req.contents;
  temperature = config.temperature;
  max_tokens = config.max_tokens;
  top_p = config.top_p;
  tools = tools_of req.config;
  stream = stream;
  stream_options = if stream then some (record { include_usage = true }) else none;
}
