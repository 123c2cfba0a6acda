-- ===== src/Provider/Registration.antt =====
-- The registration of the providers by the init functions of internal/runtime/providers, in the order
-- of their import paths, and the names of the models that they make.
pub mod Resolution
use crated.Prelude.{
  String, List, [], ◌∷◌, Option, none, some, Error, Result, ok, err, if◌then◌else◌, ◌==◌,
}
use crated.Genai.{Float, ModelConfig}
use crated.Models.{ConnectConfig, ModelProvider, Providers, register_provider}
use crated.Provider.OpenAi.Model as OpenAi
use crated.Provider.Anthropic.Model as Anthropic
use crated.Provider.Gemini as Gemini
use crated.Provider.Gemini.{GeminiModel, plain, configured}

-- A model of one of the providers; `G` is the ADK's own Gemini model.
pub data Builtin (G : Type 0) : Type 0 where
  openai : OpenAi.Model → Builtin G
  anthropic : Anthropic.Model → Builtin G
  gemini : GeminiModel G → Builtin G

abbrev pub made {ℓ κ} : {A : Type ℓ} {B : Type κ} → (A → B) → Result A → Result B
made f (ok a) = ok (f a)
made f (err e) = err e

module _ {G : Type 0} (gemini_name : G → String) where
  -- `Name` of each.
  abbrev pub name_of : Builtin G → String
  name_of (openai m) = OpenAi.name m
  name_of (anthropic m) = Anthropic.name m
  name_of (gemini (plain g)) = gemini_name g
  name_of (gemini (configured g config)) = gemini_name g

module _ {G : Type 0} (getenv : String → String) (narrow : Float → Float)
    (new_model : String → String → Result G) where
  abbrev pub openai_provider : ModelProvider (Builtin G)
  openai_provider = record {
    name = "openai";
    create_model = λ id conn mc. made openai (OpenAi.create_model getenv id conn mc);
  }

  abbrev pub anthropic_provider : ModelProvider (Builtin G)
  anthropic_provider = record {
    name = "anthropic";
    create_model = λ id conn mc. made anthropic (Anthropic.create_model getenv id conn mc);
  }

  abbrev pub gemini_provider : ModelProvider (Builtin G)
  gemini_provider = record {
    name = "gemini";
    create_model =
        λ id conn mc. made gemini (Gemini.create_model narrow getenv new_model id conn mc);
  }

  -- `alias`: the provider under another name.
  abbrev pub alias : String → ModelProvider (Builtin G) → ModelProvider (Builtin G)
  alias name p = record { name = name; create_model = p.create_model }

  -- An init function goes on when a registration fails: the error is logged.
  abbrev pub registered : ModelProvider (Builtin G) → Providers (Builtin G) → Providers (Builtin G)
  registered p providers = elim (register_provider p providers) [ ok all ↦ all | err e ↦ providers ]

  unfoldable pub builtin_providers : Providers (Builtin G)
  builtin_providers = registered openai_provider (
      registered (alias "google" gemini_provider)
        (registered gemini_provider (registered anthropic_provider [])))
