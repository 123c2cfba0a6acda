-- ===== src/Provider/Gemini.antt =====
-- internal/runtime/providers/gemini/gemini.go: the provider of Gemini, over the ADK's own model of it,
-- `M`. Requests are handed on by value here; the source writes into the request's configuration, and
-- shares its own with a request that has none.
pub mod Merging
pub mod Sharing
use crated.Prelude.{
  ℕ, Bool, true, false, ◌||◌, not, String, List, [], ◌∷◌, Option, none, some, is_some, Error,
  errorf, wrapf, str, Result, ok, err, eqb, if◌then◌else◌, ◌==◌, ℤ,
}
use crated.Genai.{Float, GenerateContentConfig, LlmRequest, ModelConfig, to_int32}
use crated.Models.{ConnectConfig}

-- What `CreateModel` returns: the ADK's model, or a `configuredModel` around it.
pub data GeminiModel (M : Type 0) : Type 0 where
  plain : M → GeminiModel M
  configured : M → GenerateContentConfig → GeminiModel M

module _ (getenv : String → String) where
  abbrev pub own_key : String → String
  own_key env = if env == "" then "" else getenv env

  -- The runtime configuration's variable, then GOOGLE_API_KEY, then GEMINI_API_KEY.
  unfoldable pub key_of : ConnectConfig → String
  key_of conn =
      let own = own_key conn.auth_env_var in
      let google = if own == "" then getenv "GOOGLE_API_KEY" else own in
      if google == "" then getenv "GEMINI_API_KEY" else google

-- float32(…) is `narrow`.
module _ (narrow : Float → Float) where
  abbrev pub narrowed : Option Float → Option Float
  narrowed none = none
  narrowed (some x) = some (narrow x)

  abbrev pub max_output : Option ℤ → ℕ
  max_output none = 0
  max_output (some n) = to_int32 n

  -- `genCfg`
  unfoldable pub tuning : ModelConfig → GenerateContentConfig
  tuning mc = record {
    temperature = narrowed mc.temperature;
    max_output_tokens = max_output mc.max_tokens;
    top_p = narrowed mc.top_p;
    tools = [];
  }

  module _ {M : Type 0} (getenv : String → String) (new_model : String → String → Result M) where
    -- `CreateModel`
    unfoldable pub create_model : String → ConnectConfig → ModelConfig → Result (GeminiModel M)
    unfolding key_of tuning
    create_model model_id conn mc =
        let key = key_of getenv conn in
        if key == ""
        then err (
            errorf
              "GOOGLE_API_KEY or GEMINI_API_KEY environment variable required for gemini provider"
              [])
        else elim (new_model model_id key) [
          | err e ↦ err (wrapf "creating gemini model %q: %w" (str model_id ∷ []) e)
          | ok m ↦ ok (
              if is_some mc.temperature || is_some mc.max_tokens || is_some mc.top_p
              then configured m (tuning mc)
              else plain m)
        ]

abbrev pub or_else : Option Float → Option Float → Option Float
or_else none d = d
or_else (some x) d = some x

-- The merge of `configuredModel.GenerateContent`.
unfoldable pub merge : GenerateContentConfig → Option GenerateContentConfig → GenerateContentConfig
merge own none = own
merge own (some given) = record given {
  temperature = or_else given.temperature own.temperature;
  max_output_tokens =
      if eqb given.max_output_tokens 0 then own.max_output_tokens else given.max_output_tokens;
  top_p = or_else given.top_p own.top_p;
}

-- The request that reaches the ADK's model.
unfoldable pub configured_request : {M : Type 0} → GeminiModel M → LlmRequest → LlmRequest
unfolding merge
configured_request (plain m) req = req
configured_request (configured m config) req = record req {
  config = some (merge config req.config);
}
