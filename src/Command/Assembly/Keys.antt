-- ===== src/Command/Assembly/Keys.antt =====
-- What becomes of a start of the command whose default model has no key.
use crated.Prelude.{
  false, String, List, [], ◌∷◌, ◌++◌, Option, none, some, Error, wrapf, errorf, str, Result, ok,
  err, ◌==◌, eq_iff, ◌≡◌, refl, ap, ◌∙◌, arith, inl, inr, Bool-cases, Result-cases,
}
use crated.Prelude.Text.{◌<>◌}
use crated.Frontend.{Frontends, AgentBridge, get_frontend}
use crated.Genai.{ModelConfig}
use crated.Health.{Server}
use crated.RuntimeCfg.{Config, Files, find}
use crated.Models.Registry.{default_failure, new_model_registry-eq-err_iff}
use crated.Provider.OpenAi.Model as OpenAi
use crated.Provider.Registration.Resolution.{no_config, made_by, create_model-by_name}
use crated.Runtime.{Agentfile, new, init}
use crated.Command.Setup.{Flags, Machine, configure}
use crated.Command.Run.{Session, life, health_of, returning, starting, run}
use crated.Command.Assembly.{World, assembled}

-- A default entry that cannot be made is a failure, whatever stands before and behind it.
default_failure-entry :
    {L : Type 0} (create : ModelConfig → Result L) (default_name : String)
    (before after : List ModelConfig) (mc : ModelConfig) (e : Error)
    → create mc ≡ err e
    → mc.name ≡ default_name
    → (cause : Error) × (default_failure create default_name (before ++ mc ∷ after) ≡ some cause)
default_failure-entry create default_name [] after mc e failed named = (
  wrapf "creating default model %q: %w" (str mc.name ∷ []) e,
  ground (arith, failed, named, eq_iff mc.name default_name),
)
default_failure-entry create default_name (m ∷ before) after mc e failed named =
    let (cause, found) = default_failure-entry create default_name before after mc e failed named in
    elim (Result-cases (create m)) [
      | inl (made, fine) ↦ (cause, ground (arith, fine, found))
      | inr (e', broken) ↦ elim (Bool-cases (m.name == default_name)) [
        | inl default ↦ (
          wrapf "creating default model %q: %w" (str m.name ∷ []) e',
          ground (arith, broken, default),
        )
        | inr other ↦ (cause, ground (arith, broken, other, found))
      ]
    ]

-- OpenAI's provider makes nothing for its own endpoint without a key.
openai-needs_key :
    (getenv : String → String) (id : String) (mc : ModelConfig)
    → getenv "OPENAI_API_KEY" ≡ ""
    → (e : Error) × (OpenAi.create_model getenv id no_config mc ≡ err e)
unfolding OpenAi.create_model
openai-needs_key getenv id mc unset = (
  errorf "%s is not set — required for model %q (set it in your environment or use --env-file)"
      (str "OPENAI_API_KEY" ∷ str id ∷ []),
  rw unset refl,
)

module _ {F G T A R S : Type 0} (machine : Machine) (world : World G T A)
    (new_runner : String → Option A → S → Result R) (in_memory : S) (name_of_frontend : F → String)
    (serve : F → AgentBridge R S → Session) (early : List (Result String)) where
  create-needs_key :
      (rc : Config) (mc : ModelConfig) (id : String)
      → mc.model ≡ "openai" <> ("/" <> id)
      → find rc mc.model ≡ none
      → world.getenv "OPENAI_API_KEY" ≡ ""
      → (e : Error) × ((assembled world rc).create mc ≡ err e)
  create-needs_key rc mc id named unknown unset =
      let (e, missing) = openai-needs_key world.getenv id mc unset in
      (
        e,
        create_model-by_name world.range world.getenv world.narrow world.new_model world.gemini_name
              rc mc "openai" id refl (ground (arith, eq_iff "openai" "")) named unknown
            ∙ rw (missing, made_by) refl,
      )

  init-fails :
      (rc : Config) (af : Agentfile) (cause : Error)
      → default_failure (assembled world rc).create af.default_name af.models ≡ some cause
      → init (assembled world rc) (new af)
        ≡ (new af, some (wrapf "initializing models: %w" [] cause))
  unfolding init new
  init-fails rc af cause h =
      let failed =
        (new_model_registry-eq-err_iff (assembled world rc).create af.default_name af.models
            cause).1
          h in
      rw (failed, init) refl

  starting-fails :
      (o : Flags) (fe : F) (health : Option Server) (rc : Config) (af : Agentfile) (e : Error)
      → init (assembled world rc) (new af) ≡ (new af, some e)
      → starting machine
          (assembled world)
          new_runner
          in_memory
          name_of_frontend
          serve
          early
          o
          fe
          health
          af
          rc
        ≡ some (
            returning
              (some (wrapf "initializing runtime: %w" [] e))
              none
              false
              health
              (some (new af))
              (life health (some (new af)) ∷ []))
  unfolding starting
  starting-fails o fe health rc af e h = rw (ap (λ p. p.1) h, starting) (rw (ap (λ p. p.0) h) refl)

  -- If the Agentfile's default model is one of OpenAI's, of which the runtime configuration says nothing,
  -- and OPENAI_API_KEY is not set, the run ends with an error before anything else has been started: no
  -- agent is made, no skill's process runs or has run, and the frontend is not run.
  pub run-needs_key :
      {Fs : Type 0} (frontends : Frontends F) (files : Files Fs) (fs : Fs) (o : Flags) (fe : F)
      (af : Agentfile) (rc : Config) (before after : List ModelConfig) (mc : ModelConfig)
      (id : String)
      → get_frontend o.frontend_name frontends ≡ some fe
      → configure machine files fs o ≡ ok (af, rc)
      → af.models ≡ before ++ mc ∷ after
      → mc.name ≡ af.default_name
      → mc.model ≡ "openai" <> ("/" <> id)
      → find rc mc.model ≡ none
      → world.getenv "OPENAI_API_KEY" ≡ ""
      → (e : Error) × (run machine
            (assembled world)
            new_runner
            in_memory
            name_of_frontend
            serve
            early
            frontends
            files
            fs
            o
          ≡ some (
              returning
                (some (wrapf "initializing runtime: %w" [] (wrapf "initializing models: %w" [] e)))
                none
                false
                (health_of o.health_port)
                (some (new af))
                (life (health_of o.health_port) (some (new af)) ∷ [])))
  unfolding run
  run-needs_key frontends files fs o fe af rc before after mc id found configured listed default
        named unknown unset =
      let (e, failed) = create-needs_key rc mc id named unknown unset in
      let (cause, failure) =
        default_failure-entry (assembled world rc).create af.default_name before after mc e failed
          default in
      let ends =
        init-fails rc af cause
          (ap (default_failure (assembled world rc).create af.default_name) listed ∙ failure) in
      (
        cause,
        rw (found, configured, run) (starting-fails o fe (health_of o.health_port) rc af _ ends),
      )
