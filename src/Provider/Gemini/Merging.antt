-- ===== src/Provider/Gemini/Merging.antt =====
-- How the tuning of an Agentfile reaches Gemini in internal/runtime/providers/gemini/gemini.go.
use crated.Prelude.{
  ◌||◌, String, none, some, is_some, Result, ok, if◌then◌else◌, ◌≡◌, arith, inl, inr, Result-cases,
}
use crated.Genai.{Float, LlmRequest, ModelConfig}
use crated.Models.{ConnectConfig}
use crated.Provider.Gemini.{GeminiModel, tuning, key_of, create_model, merge, configured_request}

-- A request without a configuration of its own, sent to a model that was made for an Agentfile's entry,
-- gets the entry's tuning if it has any: its temperature and top-p narrowed to 32 bits, and the low 32
-- bits of its token limit; for an entry without tuning it stays without a configuration.
pub create_model-tunes :
    {M : Type 0} (narrow : Float → Float) (getenv : String → String)
    (new_model : String → String → Result M) (id : String) (conn : ConnectConfig) (mc : ModelConfig)
    (m : GeminiModel M) (req : LlmRequest)
    → create_model narrow getenv new_model id conn mc ≡ ok m
    → req.config ≡ none
    → (configured_request m req).config ≡ (
        if is_some mc.temperature || is_some mc.max_tokens || is_some mc.top_p
        then some (tuning narrow mc)
        else none)
unfolding create_model configured_request merge
create_model-tunes narrow getenv new_model id conn mc m req h bare =
    elim (Result-cases (new_model id (key_of getenv conn))) [
      | inl (inner, made) ↦ ground (arith, made)
      | inr (e, failed) ↦ ground (arith, failed)
    ]
