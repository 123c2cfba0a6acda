-- ===== src/Tests/Lifecycle.antt =====
-- Starts and a reload of the runtime.
use crated.Prelude.{
  Bool, true, false, String, List, [], ◌∷◌, ◌++◌, Option, none, some, Error, errorf, foreign, wrapf,
  str, Result, ok, err, ◌≡◌, refl, All, if◌then◌else◌, ◌==◌,
}
use crated.Dict.{lookup, insert}
use crated.Genai.{ModelConfig}
use crated.Models.{ModelRegistry, new_model_registry, fill, default_model}
use crated.Runtime.{
  Skill, Agentfile, Transport, command, Outside, Runtime, check_skill_env, transport_of,
  connect_skill, new, close, init, connect_all, reload,
}
use crated.Runtime.Cleanup.{HasEnv, Connects, none_yet, and}
use crated.Runtime.Reloading.{with_brain, reload_ignores_brain}

abbrev entry : ModelConfig
entry = record {
  name = "main";
  model = "openai/gpt";
  temperature = none;
  max_tokens = none;
  top_p = none;
}

-- Models, toolsets and agents by name; GITHUB_TOKEN is not set, and the toolset "slow" has no tools.
abbrev toolset : Transport → Result String
toolset (command c args) = ok c
toolset _ = err (foreign "unreachable")

abbrev outside : Outside String String String
outside = record {
  getenv = λ name. if name == "GITHUB_TOKEN" then "" else "set";
  create = λ mc. ok mc.model;
  new_toolset = toolset;
  tools_error = λ ts. if ts == "slow" then some (foreign "timeout") else none;
  new_agent = λ c. ok c.model;
}

abbrev skill : String → List String → Skill
skill c env = record { name = c; type = "stdio"; command = c; args = []; source = ""; env = env }

abbrev agentfile : List Skill → Agentfile
agentfile skills = record {
  name = "helper";
  description = "";
  system_prompt = "Help.";
  models = entry ∷ [];
  default_name = "main";
  skills = skills;
}

abbrev registry : ModelRegistry String
registry = record { models = ("main", "openai/gpt") ∷ []; default_name = "main" }

models_made : new_model_registry outside.create "main" (entry ∷ []) ≡ ok (registry, [])
unfolding new_model_registry fill insert
models_made = refl

abbrev stopped_both : Runtime String String String
stopped_both = record {
  af = agentfile (skill "files" [] ∷ skill "slow" ("HOME" ∷ []) ∷ []);
  agent = none;
  models = some registry;
  toolsets = "files" ∷ "slow" ∷ [];
  closers = [];
  closed = true;
  stopped = command "files" [] ∷ command "slow" [] ∷ [];
}

abbrev preload_error : Error
preload_error = wrapf "preloading skill %q tools: %w" (str "slow" ∷ []) (foreign "timeout")

failed_start :
    init outside (new (agentfile (skill "files" [] ∷ skill "slow" ("HOME" ∷ []) ∷ [])))
    ≡ (stopped_both, some preload_error)
unfolding init new new_model_registry fill insert connect_all connect_skill transport_of
    check_skill_env close
failed_start = refl

environments : All (HasEnv outside) (skill "files" [] ∷ skill "slow" ("HOME" ∷ []) ∷ [])
unfolding check_skill_env
environments = (refl, (refl, tt))

files_connect : Connects outside (skill "files" [] ∷ []) (command "files" [] ∷ [])
unfolding check_skill_env connect_skill transport_of
files_connect = and (skill "files" []) "files" (command "files" [] ∷ []) refl refl refl none_yet

abbrev no_token : Error
no_token = errorf "missing required environment variables: %s" (str "GITHUB_TOKEN" ∷ [])

token_missing :
    check_skill_env outside.getenv (skill "github" ("GITHUB_TOKEN" ∷ [])) ≡ some no_token
unfolding check_skill_env crated.Prelude.Text.join
token_missing = refl

abbrev running : Runtime String String String
running = record {
  af = agentfile [];
  agent = some "openai/gpt";
  models = some registry;
  toolsets = [];
  closers = [];
  closed = false;
  stopped = [];
}

reloaded : reload outside running (agentfile []) ≡ some (ok running)
unfolding reload default_model lookup
reloaded = refl

reload_ignores_brain_example :
    (reload outside running (with_brain (agentfile []) [] "other" [])
      ≡ some (ok (record running { af = with_brain (agentfile []) [] "other" [] })))
    × (running.models ≡ running.models)
    × (running.toolsets ≡ running.toolsets)
    × (running.closers ≡ running.closers)
reload_ignores_brain_example =
    reload_ignores_brain outside running running (agentfile []) [] "other" [] reloaded
