-- ===== src/Provider/Anthropic.antt =====
-- internal/runtime/providers/anthropic/anthropic.go: the data of Anthropic's API. The provider's parts
-- are in the modules below.
pub mod Request
pub mod Response
pub mod Stream
pub mod Responses
pub mod Answer
pub mod Completion
pub mod Identifiers
pub mod ToolInput
pub mod Panics
pub mod Model
pub mod Served
use crated.Prelude.{Bool, String, List, Option, none, ℤ, if◌then◌else◌, ◌==◌}
use crated.Json.{Json}
use crated.Genai.{Float, FinishReason, stop, max_tokens}

-- `contentBlock`; a nil `Input` is `none`.
pub record ContentBlock : Type 0 where
  pub type : String
  pub text : String
  pub id : String
  pub name : String
  pub input : Option Json
  pub tool_use_id : String
  pub content : String

abbrev pub blank_block : ContentBlock
blank_block = record {
  type = "";
  text = "";
  id = "";
  name = "";
  input = none;
  tool_use_id = "";
  content = "";
}

-- `message`, `anthropicTool`, `messagesRequest`
pub record Message : Type 0 where
  pub role : String
  pub content : List ContentBlock

pub record AnthropicTool : Type 0 where
  pub name : String
  pub description : String
  pub input_schema : Json

pub record MessagesRequest : Type 0 where
  pub model : String
  pub messages : List Message
  pub system : String
  pub max_tokens : ℤ
  pub temperature : Option Float
  pub top_p : Option Float
  pub tools : List AnthropicTool
  pub stream : Bool

-- `anthropicUsage`, `messagesResponse`
pub record AnthropicUsage : Type 0 where
  pub input_tokens : ℤ
  pub output_tokens : ℤ

pub record MessagesResponse : Type 0 where
  pub content : List ContentBlock
  pub stop_reason : String
  pub usage : Option AnthropicUsage

-- `contentBlockStartEvent`, `contentBlockDelta`, `contentBlockDeltaEvent`, `contentBlockStopEvent`,
-- `messageDelta` with its `messageDeltaEvent`
pub record ContentBlockStartEvent : Type 0 where
  pub index : ℤ
  pub content_block : ContentBlock

pub record ContentBlockDelta : Type 0 where
  pub type : String
  pub text : String
  pub partial_json : String

pub record ContentBlockDeltaEvent : Type 0 where
  pub index : ℤ
  pub delta : ContentBlockDelta

pub record ContentBlockStopEvent : Type 0 where
  pub index : ℤ

pub record MessageDeltaEvent : Type 0 where
  pub stop_reason : String
  pub usage : Option AnthropicUsage

-- `mapRole`
unfoldable pub map_role : String → String
map_role role = if role == "user" then "user" else if role == "model" then "assistant" else role

-- `mapStopReason`
unfoldable pub map_stop_reason : String → FinishReason
map_stop_reason reason =
    if reason == "end_turn"
    then stop
    else if reason == "tool_use"
    then stop
    else if reason == "max_tokens"
    then max_tokens
    else stop
