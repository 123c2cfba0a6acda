-- ===== src/Provider/Registration/Resolution.antt =====
-- Which model `createModel` of internal/runtime/models.go makes, with the providers that the command has.
use crated.Prelude.{
  pos, String, List, [], ◌∷◌, Option, none, some, errorf, str, texts, Result, ok, err,
  if◌then◌else◌, ◌==◌, ◌≡◌, ◌≢◌, refl, ◌∙◌, ap, arith, false, inl, inr, Option-cases, Result-cases,
}
use crated.Prelude.Text.{◌<>◌, eq-false_of_ne}
use crated.Dict.{lookup, insert, keys}
use crated.RateLimit
use crated.Genai.{Float, ModelConfig}
use crated.RuntimeCfg.{Config, find}
use crated.Models.{
  ConnectConfig, ModelProvider, Providers, Llm, with_logging, with_rate_limit, register_provider,
  get_provider, registered_providers, provider_of, create_model, split_provider_model,
}
use crated.Models.Names.{has_slash, split_provider_model_parts}
use crated.Provider.Registration.{
  Builtin, name_of, openai_provider, anthropic_provider, gemini_provider, alias, builtin_providers,
}

-- A connection that says nothing.
abbrev pub no_config : ConnectConfig
no_config = record { api_base = ""; auth_env_var = ""; host_env_var = "" }

-- What `createModel` makes of the provider for a name, where the runtime configuration says nothing.
abbrev pub made_by :
    {M : Type 0}
    → (M → String)
    → List String
    → ModelConfig
    → String
    → String
    → Option (ModelProvider M)
    → Result (Llm M)
made_by model_name names mc p id none = err (
    errorf "unknown model provider %q for model %q; registered providers: %v"
      (str p ∷ str mc.model ∷ texts names ∷ []))
made_by model_name names mc p id (some provider) = elim (provider.create_model id no_config mc) [
  | err e ↦ err e
  | ok m ↦ ok (with_rate_limit (with_logging (Llm.made m) p (model_name m)) (RateLimit.new (pos 0)))
]

provider_of-prefix :
    (rc : Config) (mc : ModelConfig) (p id : String)
    → find rc mc.model ≡ none
    → split_provider_model mc.model ≡ (p, id)
    → provider_of rc mc ≡ p
provider_of-prefix rc mc p id unknown parts = rw (unknown, parts) refl

create_model-by_prefix :
    {M : Type 0} (range : List String → List String) (model_name : M → String)
    (providers : Providers M) (rc : Config) (mc : ModelConfig) (p id : String)
    → find rc mc.model ≡ none
    → split_provider_model mc.model ≡ (p, id)
    → (p == "") ≡ false
    → create_model range model_name providers rc mc
      ≡ made_by model_name (registered_providers range providers) mc p id (get_provider p providers)
unfolding create_model
create_model-by_prefix range model_name providers rc mc p id unknown parts given =
    let named = provider_of-prefix rc mc p id unknown parts in
    elim (Option-cases (get_provider p providers)) [
      | inl missing ↦ ground (arith, unknown, parts, given, named, missing)
      | inr (provider, found) ↦ elim (Result-cases (provider.create_model id no_config mc)) [
        | inl (m, made) ↦ ground (arith, unknown, parts, given, named, found, made)
        | inr (e, failed) ↦ ground (arith, unknown, parts, given, named, found, failed)
      ]
    ]

module _ {G : Type 0} (range : List String → List String) (getenv : String → String)
    (narrow : Float → Float) (new_model : String → String → Result G)
    (gemini_name : G → String) where
  -- The provider of a name.
  abbrev pub provider_named : String → Option (ModelProvider (Builtin G))
  provider_named name =
      if name == "anthropic"
      then some (anthropic_provider getenv narrow new_model)
      else if name == "gemini"
      then some (gemini_provider getenv narrow new_model)
      else if name == "google"
      then some (alias getenv narrow new_model "google" (gemini_provider getenv narrow new_model))
      else if name == "openai"
      then some (openai_provider getenv narrow new_model)
      else none

  builtin-lookup :
      (name : String)
      → get_provider name (builtin_providers getenv narrow new_model) ≡ provider_named name
  unfolding get_provider builtin_providers register_provider lookup insert
  builtin-lookup name = refl

  builtin-names :
      registered_providers range (builtin_providers getenv narrow new_model)
      ≡ range ("anthropic" ∷ "gemini" ∷ "google" ∷ "openai" ∷ [])
  unfolding registered_providers builtin_providers register_provider lookup insert keys
  builtin-names = refl

  -- The providers of the command are four, two of them the same under two names. For a model that the
  -- runtime configuration does not know, its name up to the first slash says which of them makes it,
  -- from what stands behind the slash; the model is logged under that name and has no limit of its own;
  -- a provider of another name is an error with the four in the order in which the map of the
  -- providers is ranged over.
  pub create_model-by_name :
      (rc : Config) (mc : ModelConfig) (p id : String)
      → has_slash p ≡ false
      → p ≢ ""
      → mc.model ≡ p <> ("/" <> id)
      → find rc mc.model ≡ none
      → create_model range (name_of gemini_name) (builtin_providers getenv narrow new_model) rc mc
        ≡ made_by
            (name_of gemini_name)
            (range ("anthropic" ∷ "gemini" ∷ "google" ∷ "openai" ∷ []))
            mc
            p
            id
            (provider_named p)
  create_model-by_name rc mc p id whole given named unknown =
      create_model-by_prefix range (name_of gemini_name) (builtin_providers getenv narrow new_model)
        rc mc p id unknown
        (ap split_provider_model named ∙ (split_provider_model_parts p id whole).0)
        (eq-false_of_ne p "" given)
      ∙ rw (builtin-names, builtin-lookup p) refl
