-- ===== src/Command/Assembly.antt =====
-- The command of cmd/crated/main.go with the providers that it links in: what its runtime meets.
pub mod Keys
use crated.Prelude.{String, List, Option, Error, Result}
use crated.Genai.{Float}
use crated.Models.{Llm, create_model}
use crated.Provider.Registration.{Builtin, name_of, builtin_providers}
use crated.Runtime.{Transport, AgentConfig, Outside}
use crated.RuntimeCfg.{Config}

-- What is left outside: the order in which a loop ranges over the providers, the environment, float32, the ADK's Gemini models, toolsets and agents.
pub record World (G T A : Type 0) : Type 1 where
  pub range : List String → List String
  pub getenv : String → String
  pub narrow : Float → Float
  pub new_model : String → String → Result G
  pub gemini_name : G → String
  pub new_toolset : Transport → Result T
  pub tools_error : T → Option Error
  pub new_agent : AgentConfig (Llm (Builtin G)) T → Result A

-- The runtime's outside, with `createModel` over the providers of the command.
abbrev pub assembled : {G T A : Type 0} → World G T A → Config → Outside (Llm (Builtin G)) T A
assembled w rc = record {
  getenv = w.getenv;
  create =
      create_model w.range (name_of w.gemini_name) (builtin_providers w.getenv w.narrow w.new_model)
        rc;
  new_toolset = w.new_toolset;
  tools_error = w.tools_error;
  new_agent = w.new_agent;
}
