-- ===== src/Runtime/Reloading.antt =====
-- What a reload of internal/runtime/runtime.go takes from the new Agentfile.
use crated.Prelude.{String, List, some, ok, ◌≡◌, arith, inl, inr, Option-cases, Result-cases}
use crated.Genai.{ModelConfig}
use crated.Models.{default_model}
use crated.Runtime.{Skill, Agentfile, Outside, Runtime, agent_config, reload}

-- The Agentfile with other models, another default and other skills.
abbrev pub with_brain : Agentfile → List ModelConfig → String → List Skill → Agentfile
with_brain af models default_name skills = record af {
  models = models;
  default_name = default_name;
  skills = skills;
}

module _ {L T A : Type 0} (outside : Outside L T A) where
  -- A reload takes nothing from the new Agentfile's models, its default model or its skills: under
  -- others it has the same agent, and the runtime keeps its old models, toolsets and processes.
  pub reload_ignores_brain :
      (before after : Runtime L T A) (af : Agentfile) (models : List ModelConfig)
      (default_name : String) (skills : List Skill)
      → reload outside before af ≡ some (ok after)
      → (reload outside before (with_brain af models default_name skills)
          ≡ some (ok (record after { af = with_brain af models default_name skills })))
        × (after.models ≡ before.models)
        × (after.toolsets ≡ before.toolsets)
        × (after.closers ≡ before.closers)
  unfolding reload
  reload_ignores_brain before after af models default_name skills h =
      elim (Option-cases before.models) [
        | inl none_made ↦ absurd (ground (arith, none_made))
        | inr (registry, made) ↦ elim (Result-cases (default_model registry)) [
          | inr (e, failed) ↦ absurd (ground (arith, made, failed))
          | inl (model, found) ↦
              elim (Result-cases
                (outside.new_agent (agent_config outside af model before.toolsets))) [
                  | inr (e, failed) ↦ absurd (ground (arith, made, found, failed))
                  | inl (agent, built) ↦ ground (arith, made, found, built)
                ]
        ]
      ]
