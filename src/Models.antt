-- ===== src/Models.antt =====
-- internal/runtime/models.go: the registry of model providers, and the models of an Agentfile. `M` is
-- the type of the models that providers make; contexts are not modelled.
pub mod Names
pub mod Providers
pub mod Registry
use Prim.Native.Char.{code}
use crated.Prelude.{
  ℕ, Bool, true, false, String, List, [], ◌∷◌, ◌++◌, map, Option, none, some, is_some, Error,
  errorf, wrapf, str, texts, Result, ok, err, ◌>>=◌, if◌then◌else◌, ◌==◌, eqb, ℤ, pos,
}
use crated.Dict.{Dict, lookup, insert, keys}
use crated.Genai.{ModelConfig}
use crated.RateLimit
use crated.RateLimit.{Limiter}
use crated.RuntimeCfg.{Config, ModelConnection, find}

-- `ConnectConfig`
pub record ConnectConfig : Type 0 where
  pub api_base : String
  pub auth_env_var : String
  pub host_env_var : String

-- strings.SplitN(s, "/", 2): what stands before and behind the first slash.
pub cut : String → Option (String × String)
cut String.[] = none
cut (String.◌∷◌ c s) =
    let rest = cut s in
    if eqb (code c) b'/'
    then some ("", s)
    else elim rest [ none ↦ none | some (a, b) ↦ some (String.◌∷◌ c a, b) ]

-- `splitProviderModel`
unfoldable pub split_provider_model : String → String × String
unfolding cut
split_provider_model qualified = elim (cut qualified) [
  | none ↦ ("", qualified)
  | some parts ↦ parts
]

-- A model.LLM: one that a provider made, or a decorator of internal/runtime/middleware around it,
-- with the attributes of its logger or its limiter.
pub data Llm (M : Type 0) : Type 0 where
  made : M → Llm M
  with_logging : Llm M → String → String → Llm M
  with_rate_limit : Llm M → Limiter → Llm M

-- `ModelProvider`
pub record ModelProvider (M : Type 0) : Type 0 where
  pub name : String
  pub create_model : String → ConnectConfig → ModelConfig → Result M

-- `providers`
abbrev pub Providers : Type 0 → Type 0
Providers M = Dict (ModelProvider M)

module _ {M : Type 0} where
  -- `RegisterProvider`
  unfoldable pub register_provider : ModelProvider M → Providers M → Result (Providers M)
  register_provider p providers =
      if is_some (lookup p.name providers)
      then err (errorf "model provider %q already registered" (str p.name ∷ []))
      else ok (insert p.name p providers)

  -- `GetProvider`, `RegisteredProviders`; `range` puts keys in the order in which this loop over the map
  -- meets them, which Go leaves open.
  unfoldable pub get_provider : String → Providers M → Option (ModelProvider M)
  get_provider name providers = lookup name providers

  unfoldable pub registered_providers : (List String → List String) → Providers M → List String
  registered_providers range providers = range (keys providers)

-- What the runtime configuration says of a model: `cc`, `providerName` and `maxConcurrency`.
pub record Connection : Type 0 where
  pub cc : ConnectConfig
  pub provider_name : String
  pub max_concurrency : ℤ

abbrev pub connection : Option ModelConnection → Connection
connection none = record {
  cc = record { api_base = ""; auth_env_var = ""; host_env_var = "" };
  provider_name = "";
  max_concurrency = pos 0;
}
connection (some c) = record {
  cc = record {
    api_base = c.api_base;
    auth_env_var = c.auth_env_var;
    host_env_var = c.host_env_var;
  };
  provider_name = c.api_type;
  max_concurrency = c.max_concurrency;
}

-- The provider's name once the prefix of the model has been tried too.
abbrev pub provider_of : Config → ModelConfig → String
provider_of rc mc =
    let c = connection (find rc mc.model) in
    if c.provider_name == "" then (split_provider_model mc.model).0 else c.provider_name

module _ {M : Type 0} (range : List String → List String) (model_name : M → String)
    (providers : Providers M) (rc : Config) where
  -- The middleware, rate limiting outermost.
  abbrev pub decorated : String → ℤ → M → Llm M
  decorated provider max m =
      with_rate_limit (with_logging (made m) provider (model_name m)) (RateLimit.new max)

  -- `createModel`
  unfoldable pub create_model : ModelConfig → Result (Llm M)
  create_model mc =
      let c = connection (find rc mc.model) in
      let provider = provider_of rc mc in
      let names = registered_providers range providers in
      if provider == ""
      then err (
          errorf
            "model %q: cannot determine provider; ensure .crate/runtime.json exists or use provider/model-id format; registered providers: %v"
            (str mc.model ∷ texts names ∷ []))
      else elim (get_provider provider providers) [
        | none ↦ err (
            errorf "unknown model provider %q for model %q; registered providers: %v"
              (str provider ∷ str mc.model ∷ texts names ∷ []))
        | some p ↦ do
          m ← p.create_model (split_provider_model mc.model).1 c.cc mc
          ok (decorated provider c.max_concurrency m)
      ]

-- `ModelRegistry`, over any models.
pub record ModelRegistry (L : Type 0) : Type 0 where
  pub models : Dict L
  pub default_name : String

-- fmt.Sprintf("model %q skipped: %v", mc.Name, err)
pub record Warning : Type 0 where
  pub model : String
  pub cause : Error

module _ {L : Type 0} (create : ModelConfig → Result L) (default_name : String) where
  -- The loop of `NewModelRegistry`, with the models and the warnings so far.
  unfoldable pub fill : Dict L → List Warning → List ModelConfig → Result (Dict L × List Warning)
  fill models warnings [] = ok (models, warnings)
  fill models warnings (mc ∷ mcs) = elim (create mc) [
    | ok m ↦ fill (insert mc.name m models) warnings mcs
    | err e ↦
        let rest = fill models (warnings ++ record { model = mc.name; cause = e } ∷ []) mcs in
        if mc.name == default_name
        then err (wrapf "creating default model %q: %w" (str mc.name ∷ []) e)
        else rest
  ]

  -- `NewModelRegistry`, with `createModel` for `create`.
  unfoldable pub new_model_registry : List ModelConfig → Result (ModelRegistry L × List Warning)
  unfolding fill
  new_model_registry mcs = do
    filled ← fill [] [] mcs
    ok (record { models = filled.0; default_name = default_name }, filled.1)

module _ {L : Type 0} where
  -- `Default`
  unfoldable pub default_model : ModelRegistry L → Result L
  default_model r = elim (lookup r.default_name r.models) [
    | none ↦ err (errorf "default model %q not found in registry" (str r.default_name ∷ []))
    | some m ↦ ok m
  ]

  -- `Get`
  unfoldable pub get : ModelRegistry L → String → Option L
  get r name = lookup name r.models
