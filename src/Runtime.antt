-- ===== src/Runtime.antt =====
-- internal/runtime/runtime.go: the runtime that owns the models, the connections to the skills, and the
-- agent. The ADK and the MCP library are the parameter `Outside`: a toolset, a model and an agent are
-- of types of their own.
pub mod Cleanup
pub mod Reloading
pub mod States
use crated.Prelude.{
  ℕ, Bool, true, false, String, List, [], ◌∷◌, ◌++◌, Option, none, some, Error, errorf, wrapf, str,
  Result, ok, err, if◌then◌else◌, ◌==◌,
}
use crated.Prelude.Text.{join}
use crated.Genai.{ModelConfig}
use crated.Models.{ModelRegistry, Warning, new_model_registry, default_model}

-- agentfile.Skill and agentfile.Agentfile, as far as the runtime reads them.
pub record Skill : Type 0 where
  pub name : String
  pub type : String
  pub command : String
  pub args : List String
  pub source : String
  pub env : List String

pub record Agentfile : Type 0 where
  pub name : String
  pub description : String
  pub system_prompt : String
  pub models : List ModelConfig
  pub default_name : String
  pub skills : List Skill

-- The transports of package mcp.
pub data Transport : Type 0 where
  command : String → List String → Transport
  streamable : String → Transport
  events : String → Transport

-- llmagent.Config
pub record AgentConfig (L T : Type 0) : Type 0 where
  pub name : String
  pub description : String
  pub model : L
  pub instruction : String
  pub toolsets : List T

-- os.Getenv, `createModel`, mcptoolset.New, the error of Toolset.Tools, and llmagent.New.
pub record Outside (L T A : Type 0) : Type 0 where
  pub getenv : String → String
  pub create : ModelConfig → Result L
  pub new_toolset : Transport → Result T
  pub tools_error : T → Option Error
  pub new_agent : AgentConfig L T → Result A

-- `Runtime`: `closers` are the processes that are still to be stopped, `closed` is what `closeOnce`
-- knows, and `stopped` are the processes whose closers have run.
pub record Runtime (L T A : Type 0) : Type 0 where
  pub af : Agentfile
  pub agent : Option A
  pub models : Option (ModelRegistry L)
  pub toolsets : List T
  pub closers : List Transport
  pub closed : Bool
  pub stopped : List Transport

module _ (getenv : String → String) where
  abbrev pub missing : List String → List String
  missing [] = []
  missing (env ∷ envs) = let rest = missing envs in if getenv env == "" then env ∷ rest else rest

  -- `checkSkillEnv`; `none` is no error.
  unfoldable pub check_skill_env : Skill → Option Error
  check_skill_env skill = elim (missing skill.env) [
    | [] ↦ none
    | env ∷ envs ↦
        some
          (errorf "missing required environment variables: %s" (str (join (env ∷ envs) ", ") ∷ []))
  ]

-- The switch of `connectSkill` on the skill's type, with the closer.
unfoldable pub transport_of : Skill → Result (Transport × List Transport)
transport_of skill =
    if skill.type == "stdio"
    then ok (command skill.command skill.args, command skill.command skill.args ∷ [])
    else if skill.type == "http"
    then ok (streamable skill.source, [])
    else if skill.type == "sse"
    then ok (events skill.source, [])
    else if skill.type == "mcp"
    then err (
        errorf
          "mcp registry skills must be resolved at build time, not runtime (skill %q source: %s)"
          (str skill.name ∷ str skill.source ∷ []))
    else err (errorf "unknown skill type %q" (str skill.type ∷ []))

module _ {L T A : Type 0} where
  -- `New`
  unfoldable pub new : Agentfile → Runtime L T A
  new af = record {
    af = af;
    agent = none;
    models = none;
    toolsets = [];
    closers = [];
    closed = false;
    stopped = [];
  }

  -- `Close`
  unfoldable pub close : Runtime L T A → Runtime L T A
  close r =
      if r.closed
      then r
      else record r { closed = true; stopped = r.stopped ++ r.closers; closers = [] }

module _ {L T A : Type 0} (outside : Outside L T A) where
  open outside use {getenv, create, new_toolset, tools_error, new_agent}

  -- `connectSkill`: the toolset, and the closer if there is one.
  unfoldable pub connect_skill : Skill → Result (T × List Transport)
  unfolding transport_of
  connect_skill skill = elim (transport_of skill) [
    | err e ↦ err e
    | ok (transport, closer) ↦ elim (new_toolset transport) [
      | err e ↦ err e
      | ok ts ↦ ok (ts, closer)
    ]
  ]

  -- The agent of an Agentfile, over a model and toolsets.
  abbrev pub agent_config : Agentfile → L → List T → AgentConfig L T
  agent_config af model toolsets = record {
    name = af.name;
    description = af.description;
    model = model;
    instruction = af.system_prompt;
    toolsets = toolsets;
  }

  -- What `Init` does behind the loop over the skills.
  unfoldable pub build_agent : ModelRegistry L → Runtime L T A → Runtime L T A × Option Error
  unfolding close default_model
  build_agent models r = elim (default_model models) [
    | err e ↦ (close r, some (wrapf "resolving default model: %w" [] e))
    | ok model ↦ elim (new_agent (agent_config r.af model r.toolsets)) [
      | err e ↦ (close r, some (wrapf "creating agent: %w" [] e))
      | ok a ↦ (record r { agent = some a }, none)
    ]
  ]

  abbrev pub opened : Runtime L T A → T → List Transport → Runtime L T A
  opened r ts closer = record r { toolsets = r.toolsets ++ ts ∷ []; closers = r.closers ++ closer }

  -- The loop over the skills.
  unfoldable pub connect_all :
      ModelRegistry L → Runtime L T A → List Skill → Runtime L T A × Option Error
  unfolding check_skill_env connect_skill close build_agent
  connect_all models r [] = build_agent models r
  connect_all models r (skill ∷ skills) = elim (check_skill_env getenv skill) [
    | some e ↦ (r, some (wrapf "skill %q: %w" (str skill.name ∷ []) e))
    | none ↦ elim (connect_skill skill) [
      | err e ↦ (close r, some (wrapf "connecting skill %q: %w" (str skill.name ∷ []) e))
      | ok (ts, closer) ↦ elim (tools_error ts) [
        | some e ↦ (
          close (opened r ts closer),
          some (wrapf "preloading skill %q tools: %w" (str skill.name ∷ []) e),
        )
        | none ↦ connect_all models (opened r ts closer) skills
      ]
    ]
  ]

  -- `Init`; the second component is its error.
  unfoldable pub init : Runtime L T A → Runtime L T A × Option Error
  unfolding connect_all new_model_registry
  init r = elim (new_model_registry create r.af.default_name r.af.models) [
    | err e ↦ (r, some (wrapf "initializing models: %w" [] e))
    | ok (models, warnings) ↦ connect_all models (record r { models = some models }) r.af.skills
  ]

  -- `Reload`; without models the code panics, which is the outer `none`.
  unfoldable pub reload : Runtime L T A → Agentfile → Option (Result (Runtime L T A))
  unfolding default_model
  reload r af = elim r.models [
    | none ↦ none
    | some models ↦ elim (default_model models) [
      | err e ↦ some (err (wrapf "resolving default model: %w" [] e))
      | ok model ↦ elim (new_agent (agent_config af model r.toolsets)) [
        | err e ↦ some (err (wrapf "creating reloaded agent: %w" [] e))
        | ok a ↦ some (ok (record r { agent = some a; af = af }))
      ]
    ]
  ]
