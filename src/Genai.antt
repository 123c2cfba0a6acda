-- ===== src/Genai.antt =====
-- The data of the ADK's package model and of genai that the providers of internal/runtime read and
-- build: requests, responses, and the items of the iterators of model.LLM.
use crated.Prelude.{
  ℕ, ◌-◌, ◌%◌, Bool, String, List, Option, none, some, Error, ℤ, pos, negsuc, int32_mod,
}
use crated.Json.{Json, Map}

pub record FunctionCall : Type 0 where
  pub id : String
  pub name : String
  pub args : Map

pub record FunctionResponse : Type 0 where
  pub id : String
  pub name : String
  pub response : Map

pub record Part : Type 0 where
  pub text : String
  pub function_call : Option FunctionCall
  pub function_response : Option FunctionResponse

pub record Content : Type 0 where
  pub role : String
  pub parts : List Part

-- genai.NewPartFromText and genai.NewPartFromFunctionCall
abbrev pub text_part : String → Part
text_part t = record { text = t; function_call = none; function_response = none }

abbrev pub call_part : String → Map → Part
call_part name args = record {
  text = "";
  function_call = some (record { id = ""; name = name; args = args });
  function_response = none;
}

pub record FunctionDeclaration : Type 0 where
  pub name : String
  pub description : String
  pub parameters : Json

pub record Tool : Type 0 where
  pub function_declarations : List FunctionDeclaration

-- A float is its bit pattern; the programs only hand it on.
abbrev pub Float : Type 0
Float = ℕ

-- genai.GenerateContentConfig; 0 is a MaxOutputTokens that is not set.
pub record GenerateContentConfig : Type 0 where
  pub temperature : Option Float
  pub max_output_tokens : ℕ
  pub top_p : Option Float
  pub tools : List Tool

pub record LlmRequest : Type 0 where
  pub contents : List Content
  pub config : Option GenerateContentConfig

pub data FinishReason : Type 0 where
  unset stop max_tokens safety : FinishReason

-- Token counts are bit patterns of an int32.
pub record UsageMetadata : Type 0 where
  pub prompt_token_count : ℕ
  pub candidates_token_count : ℕ
  pub total_token_count : ℕ

pub record LlmResponse : Type 0 where
  pub content : Option Content
  pub turn_complete : Bool
  pub finish_reason : FinishReason
  pub usage_metadata : Option UsageMetadata

-- The pair that a model's iterator yields.
pub record Item : Type 0 where
  pub response : Option LlmResponse
  pub failure : Option Error

abbrev pub respond : LlmResponse → Item
respond r = record { response = some r; failure = none }

abbrev pub fail : Error → Item
fail e = record { response = none; failure = some e }

-- int32(n)
abbrev pub to_int32 : ℤ → ℕ
to_int32 (pos n) = n % int32_mod
to_int32 (negsuc n) = int32_mod - 1 - n % int32_mod

-- agentfile.ModelConfig
pub record ModelConfig : Type 0 where
  pub name : String
  pub model : String
  pub temperature : Option Float
  pub max_tokens : Option ℤ
  pub top_p : Option Float
