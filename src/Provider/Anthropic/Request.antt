-- ===== src/Provider/Anthropic/Request.antt =====
-- How internal/runtime/providers/anthropic/anthropic.go turns a request of the ADK into one of
-- Anthropic.
use crated.Prelude.{
  Bool, not, String, List, [], ◌∷◌, ◌++◌, Option, none, some, if◌then◌else◌, ◌==◌, ℤ, pos,
}
use crated.Json.{Codec, marshalled, of_map}
use crated.Genai.{
  FunctionCall, FunctionResponse, Part, Content, FunctionDeclaration, Tool, LlmRequest, ModelConfig,
  GenerateContentConfig,
}
use crated.Provider.Anthropic.{
  ContentBlock, blank_block, Message, AnthropicTool, MessagesRequest, map_role,
}

-- `defaultMaxTokens`
abbrev pub default_max_tokens : ℤ
default_max_tokens = pos 4096

-- `extractText`: the first text that is not empty.
unfoldable pub extract_text : List Part → String
extract_text [] = ""
extract_text (p ∷ ps) = let later = extract_text ps in if not (p.text == "") then p.text else later

module _ (codec : Codec) where
  abbrev pub tool_use : FunctionCall → ContentBlock
  tool_use fc = record blank_block {
    type = "tool_use";
    id = fc.id;
    name = fc.name;
    input = some (of_map fc.args);
  }

  abbrev pub tool_result : FunctionResponse → ContentBlock
  tool_result fr = record blank_block {
    type = "tool_result";
    tool_use_id = if fr.id == "" then fr.name else fr.id;
    content = marshalled codec fr.response;
  }

  abbrev pub from_call : Part → List ContentBlock
  from_call p = elim p.function_call [
    | some fc ↦ tool_use fc ∷ []
    | none ↦ elim p.function_response [ some fr ↦ tool_result fr ∷ [] | none ↦ [] ]
  ]

  -- The switch on a part.
  abbrev pub part_blocks : Part → List ContentBlock
  part_blocks p =
      if not (p.text == "")
      then record blank_block { type = "text"; text = p.text } ∷ []
      else from_call p

  unfoldable pub blocks : List Part → List ContentBlock
  blocks [] = []
  blocks (p ∷ ps) = part_blocks p ++ blocks ps

  -- `if len(blocks) > 0 { … }`
  abbrev pub messages_of : String → List ContentBlock → List Message
  messages_of role [] = []
  messages_of role (b ∷ bs) =
      record { role = if b.type == "tool_result" then "user" else role; content = b ∷ bs } ∷ []

  -- The loop of `convertContents`, with `system` and `messages` so far.
  unfoldable pub convert_from : String → List Message → List Content → String × List Message
  unfolding map_role extract_text blocks
  convert_from system messages [] = (system, messages)
  convert_from system messages (c ∷ cs) =
      let role = map_role c.role in
      if role == "system"
      then convert_from (extract_text c.parts) messages cs
      else convert_from system (messages ++ messages_of role (blocks c.parts)) cs

  -- `convertContents`
  unfoldable pub convert_contents : List Content → String × List Message
  unfolding convert_from
  convert_contents contents = convert_from "" [] contents

-- `convertTools`
abbrev pub declared : List FunctionDeclaration → List AnthropicTool
declared [] = []
declared (fd ∷ fds) =
    record { name = fd.name; description = fd.description; input_schema = fd.parameters }
    ∷ declared fds

unfoldable pub convert_tools : List Tool → List AnthropicTool
convert_tools [] = []
convert_tools (t ∷ ts) = declared t.function_declarations ++ convert_tools ts

unfoldable pub tools_of : Option GenerateContentConfig → List AnthropicTool
unfolding convert_tools
tools_of none = []
tools_of (some config) = convert_tools config.tools

abbrev pub max_tokens_of : Option ℤ → ℤ
max_tokens_of none = default_max_tokens
max_tokens_of (some n) = n

-- `buildRequest`, for a model with this ID and configuration.
unfoldable pub build_request : Codec → String → ModelConfig → LlmRequest → Bool → MessagesRequest
unfolding convert_contents tools_of
build_request codec model_id config req stream =
    let (system, messages) = convert_contents codec req.contents in
    record {
      model = model_id;
      messages = messages;
      system = system;
      max_tokens = max_tokens_of config.max_tokens;
      temperature = config.temperature;
      top_p = config.top_p;
      tools = tools_of req.config;
      stream = stream;
    }
