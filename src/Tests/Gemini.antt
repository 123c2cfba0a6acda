-- ===== src/Tests/Gemini.antt =====
-- A model of the provider of Gemini.
use crated.Prelude.{
  ℕ, ◌+◌, ◌^◌, String, [], ◌∷◌, get_elem?, modify, eqb, false, none, some, ok, ◌≡◌, refl, pos,
  if◌then◌else◌, ◌==◌,
}
use crated.Genai.{GenerateContentConfig, ModelConfig}
use crated.Models.{ConnectConfig}
use crated.Provider.Gemini.{GeminiModel, configured, tuning, key_of, create_model, merge}
use crated.Provider.Gemini.Sharing.{Memory, share, share-merge, share_leaks}

abbrev conn : ConnectConfig
conn = record { api_base = ""; auth_env_var = ""; host_env_var = "" }

abbrev config : ModelConfig
config = record {
  name = "main";
  model = "gemini/flash";
  temperature = none;
  max_tokens = some (pos (2 ^ 32 + 5));
  top_p = none;
}

abbrev env : String → String
env name = if name == "GEMINI_API_KEY" then "key" else ""

abbrev flash : GeminiModel String
flash = configured "flash" (tuning (λ x. x) config)

flash_made : create_model (λ x. x) env (λ id key. ok id) "flash" conn config ≡ ok flash
unfolding create_model key_of
flash_made = refl

-- The model's own configuration, and that of a request with a temperature.
abbrev own : GenerateContentConfig
own = record { temperature = none; max_output_tokens = 100; top_p = none; tools = [] }

abbrev given : GenerateContentConfig
given = record { temperature = none; max_output_tokens = 0; top_p = none; tools = [] }

abbrev memory : Memory
memory = own ∷ given ∷ []

share-merge_example :
    (m' : Memory) × (share 0 (some 1) memory ≡ some (m', 1))
    × (get_elem? m' 1 ≡ some (merge own (some given)))
    × ((other : ℕ) → eqb other 1 ≡ false → get_elem? m' other ≡ get_elem? memory other)
share-merge_example = share-merge 0 1 memory own given refl refl refl

abbrev unlimited : GenerateContentConfig → GenerateContentConfig
unlimited c = record c { max_output_tokens = 0 }

handed_on : share 0 none memory ≡ some (memory, 0)
unfolding share
handed_on = refl

share_leaks_example :
    (m'' : Memory) × (share 0 (some 1) (modify memory 0 unlimited) ≡ some (m'', 1))
    × (get_elem? m'' 1 ≡ some (merge (unlimited own) (some given)))
share_leaks_example = share_leaks 0 0 1 memory memory own given unlimited refl refl refl handed_on
