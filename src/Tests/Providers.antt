-- ===== src/Tests/Providers.antt =====
-- Models by the names of their providers.
use crated.Prelude.{
  Option, none, some, pos, true, false, wrapf, Error, err, ok, Result, foreign, String, List, [],
  ◌∷◌, ◌++◌, if◌then◌else◌, ◌==◌, eq_iff, ◌≡◌, refl, arith,
}
use crated.Prelude.Text.{◌<>◌}
use crated.Dict.{lookup}
use crated.Genai.{Float, ModelConfig}
use crated.RuntimeCfg.{Config, find}
use crated.Models.{create_model}
use crated.Frontend.{Frontends, AgentBridge, get_frontend}
use crated.RuntimeCfg.{Files, missing, load}
use crated.Runtime.{Agentfile, new}
use crated.Command.Setup.{Flags, Machine, resolve_profile, read_agentfile, configure}
use crated.Command.Run.{Session, life, health_of, returning, run}
use crated.Command.Assembly.{World, assembled}
use crated.Command.Assembly.Keys.{run-needs_key}
use crated.Provider.Registration.{name_of, builtin_providers}
use crated.Provider.Registration.Resolution.{made_by, provider_named, create_model-by_name}

abbrev getenv : String → String
getenv name = if name == "GOOGLE_API_KEY" then "key" else ""

abbrev narrow : Float → Float
narrow x = x

-- The ADK's Gemini models, by their names.
abbrev new_model : String → String → Result String
new_model id key = ok id

abbrev gemini_name : String → String
gemini_name g = g

-- A loop over the map of the providers that meets the last one first.
abbrev backwards : List String → List String
backwards [] = []
backwards (name ∷ names) = backwards names ++ name ∷ []

abbrev entry : ModelConfig
entry = record {
  name = "fast";
  model = "google" <> ("/" <> "flash");
  temperature = none;
  max_tokens = none;
  top_p = none;
}

abbrev no_models : Config
no_models = record { models = [] }

not_found : find no_models entry.model ≡ none
unfolding find lookup
not_found = refl

create_model-by_name_example :
    create_model backwards
      (name_of gemini_name)
      (builtin_providers getenv narrow new_model)
      no_models
      entry
    ≡ made_by
        (name_of gemini_name)
        ("openai" ∷ "google" ∷ "gemini" ∷ "anthropic" ∷ [])
        entry
        "google"
        "flash"
        (provider_named backwards getenv narrow new_model gemini_name "google")
create_model-by_name_example =
    create_model-by_name backwards getenv narrow new_model gemini_name no_models entry "google"
      "flash" refl (ground (arith, eq_iff "google" "")) refl not_found

abbrev gpt : ModelConfig
gpt = record entry { name = "main"; model = "openai" <> ("/" <> "gpt") }

abbrev agentfile : Agentfile
agentfile = record {
  name = "helper";
  description = "";
  system_prompt = "Help.";
  models = entry ∷ gpt ∷ [];
  default_name = "main";
  skills = [];
}

abbrev machine : Machine
machine = record {
  read_file = λ path. ok "";
  getenv = λ name. "";
  join_path = λ a b. b;
  parse = λ text. ok (record { agentfile = agentfile; invalid = [] });
  is_valid = λ parsed. true;
  resolve = λ af profile. err (foreign "no such profile");
  range = λ names. names;
}

abbrev world : World String String String
world = record {
  range = backwards;
  getenv = getenv;
  narrow = narrow;
  new_model = new_model;
  gemini_name = gemini_name;
  new_toolset = λ t. err (foreign "unreachable");
  tools_error = λ ts. none;
  new_agent = λ c. ok c.instruction;
}

abbrev files : Files String
files = record {
  read_file = λ fs path. missing;
  mkdir_all = λ fs path. ok fs;
  write_file = λ fs path text. ok fs;
  dir = λ path. "/agent";
  marshal_indent = λ c. ok "{}";
  unmarshal = λ text. ok (record { models = none });
}

abbrev flags : Flags
flags = record {
  agentfile_path = "Agentfile";
  profile = "";
  runtime_cfg_path = "";
  health_port = pos 0;
  log_level = "info";
  log_format = "auto";
  frontend_name = "repl";
  show_version = false;
}

abbrev frontends : Frontends String
frontends = ("repl", "repl") ∷ []

abbrev serve : String → AgentBridge String String → Session
serve name bridge = record { hangups = []; canceled = false; failure = none }

abbrev runner : String → Option String → String → Result String
runner name agent sessions = ok name

configured : configure machine files "" flags ≡ ok (agentfile, no_models)
unfolding configure read_agentfile resolve_profile load
configured = refl

registered : get_frontend "repl" frontends ≡ some "repl"
unfolding get_frontend lookup
registered = refl

gpt_not_found : find no_models gpt.model ≡ none
unfolding find lookup
gpt_not_found = refl

run-needs_key_example :
    (e : Error) × (run machine
        (assembled world)
        runner
        ""
        (λ name. name)
        serve
        []
        frontends
        files
        ""
        flags
      ≡ some (
          returning
            (some (wrapf "initializing runtime: %w" [] (wrapf "initializing models: %w" [] e)))
            none
            false
            (health_of (pos 0))
            (some (new agentfile))
            (life (health_of (pos 0)) (some (new agentfile)) ∷ [])))
run-needs_key_example =
    run-needs_key machine world runner "" (λ name. name) serve [] frontends files "" flags "repl"
      agentfile no_models (entry ∷ []) [] gpt "gpt" registered configured refl refl refl
      gpt_not_found refl
