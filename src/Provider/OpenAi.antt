-- ===== src/Provider/OpenAi.antt =====
-- internal/runtime/providers/openai/openai.go: the data of OpenAI's API. The provider's parts are in
-- the modules below.
pub mod Request
pub mod Response
pub mod Stream
pub mod Responses
pub mod Reassembly
pub mod Answer
pub mod Completion
pub mod Model
pub mod Served
pub mod Endpoint
pub mod Authorization
pub mod History
use crated.Prelude.{ℕ, Bool, String, List, Option, ℤ, if◌then◌else◌, ◌==◌}
use crated.Json.{Json}
use crated.Genai.{Float, FinishReason, stop, max_tokens, safety}

-- `functionCall`, `toolCall`, `message`
pub record FunctionCall : Type 0 where
  pub name : String
  pub arguments : String

pub record ToolCall : Type 0 where
  pub id : String
  pub type : String
  pub function : FunctionCall

pub record Message : Type 0 where
  pub role : String
  pub content : String
  pub tool_calls : List ToolCall
  pub tool_call_id : String

-- `oaiToolFunction`, `oaiTool`
pub record OaiToolFunction : Type 0 where
  pub name : String
  pub description : String
  pub parameters : Json

pub record OaiTool : Type 0 where
  pub type : String
  pub function : OaiToolFunction

-- `streamOptions`, `chatRequest`
pub record StreamOptions : Type 0 where
  pub include_usage : Bool

pub record ChatRequest : Type 0 where
  pub model : String
  pub messages : List Message
  pub temperature : Option Float
  pub max_tokens : Option ℤ
  pub top_p : Option Float
  pub tools : List OaiTool
  pub stream : Bool
  pub stream_options : Option StreamOptions

-- `usage`, `choice`, `chatResponse`
pub record Usage : Type 0 where
  pub prompt_tokens : ℤ
  pub completion_tokens : ℤ
  pub total_tokens : ℤ

pub record Choice : Type 0 where
  pub message : Message
  pub finish_reason : String

pub record ChatResponse : Type 0 where
  pub choices : List Choice
  pub usage : Option Usage

-- `streamFunctionCall` with its `streamToolCall`, `streamDelta`, `streamChoice`, `streamResponse`
pub record StreamToolCall : Type 0 where
  pub index : ℤ
  pub id : String
  pub type : String
  pub function : FunctionCall

pub record StreamDelta : Type 0 where
  pub role : String
  pub content : String
  pub tool_calls : List StreamToolCall

pub record StreamChoice : Type 0 where
  pub delta : StreamDelta
  pub finish_reason : Option String

pub record StreamResponse : Type 0 where
  pub choices : List StreamChoice
  pub usage : Option Usage

-- `mapRole`
unfoldable pub map_role : String → String
map_role role = if role == "user" then "user" else if role == "model" then "assistant" else role

-- `mapFinishReason`
unfoldable pub map_finish_reason : String → FinishReason
map_finish_reason reason =
    if reason == "stop"
    then stop
    else if reason == "tool_calls"
    then stop
    else if reason == "length"
    then max_tokens
    else if reason == "content_filter"
    then safety
    else stop
