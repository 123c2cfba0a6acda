-- ===== src/Tests/Command.antt =====
-- A run of the command: a frontend that runs while one reload arrives, and returns by itself.
use crated.Prelude.{
  ℕ, true, false, String, List, [], ◌∷◌, Option, none, some, foreign, Result, ok, err, pos,
  if◌then◌else◌, ◌==◌, ◌≡◌, ◌⊎◌, ◌↔◌, refl,
}
use crated.Dict.{lookup, insert}
use crated.Frontend.{Frontends, AgentBridge, get_frontend, new_agent_bridge}
use crated.Health.{Server, new_server, mark_ready, mark_not_ready}
use crated.Models.{ModelRegistry, new_model_registry, fill, default_model}
use crated.RuntimeCfg.{Files, missing, load}
use crated.Runtime.{Agentfile, Outside, Runtime, new, init, connect_all, build_agent, close, reload}
use crated.Command.Setup.{Flags, Machine, resolve_profile, read_agentfile, configure}
use crated.Command.Hangups.{on_hangup, handle_sighup}
use crated.Command.Run.{Session, Life, Report, life, returning, serving, starting, run}
use crated.Command.Reloads.{installed, latest, handle_sighup-latest}
use crated.Command.Shutdown.{IsStopped}
use crated.Command.Process.{Process}
use crated.Command.Signals.{Event, arrives, received}
use crated.Command.Serving.{quiet, run_ignores_reloads}
use crated.Command.Outcome.{last_of, tells_ready, run-error_none_iff, run_ready_while_closed}

-- An Agentfile is its prompt; "invalid" is not one, and no profile exists.
abbrev prompt : String → Agentfile
prompt text = record {
  name = "helper";
  description = "";
  system_prompt = text;
  models =
      record { name = "main"; model = "gpt"; temperature = none; max_tokens = none; top_p = none }
      ∷ [];
  default_name = "main";
  skills = [];
}

abbrev machine : Machine
machine = record {
  read_file = λ path. ok "Help.";
  getenv = λ name. "";
  join_path = λ a b. b;
  parse = λ text. ok (record { agentfile = prompt text; invalid = [] });
  is_valid = λ parsed. if parsed.agentfile.system_prompt == "invalid" then false else true;
  resolve = λ af profile. err (foreign "no such profile");
  range = λ names. names;
}

-- Agents are their instructions, and runners are for an agent.
abbrev outside : Outside String String String
outside = record {
  getenv = λ name. "";
  create = λ mc. ok mc.model;
  new_toolset = λ t. err (foreign "unreachable");
  tools_error = λ ts. none;
  new_agent = λ c. ok c.instruction;
}

abbrev files : Files ℕ
files = record {
  read_file = λ fs path. missing;
  mkdir_all = λ fs path. ok fs;
  write_file = λ fs path text. ok fs;
  dir = λ path. "/agent";
  marshal_indent = λ c. ok "{}";
  unmarshal = λ text. ok (record { models = none });
}

abbrev runner : String → Option String → ℕ → Result (Option String)
runner name agent sessions = ok agent

abbrev texts : List (Result String)
texts = ok "Be brief." ∷ ok "invalid" ∷ []

abbrev session : Session
session = record { hangups = texts; canceled = false; failure = none }

abbrev serve : String → AgentBridge (Option String) ℕ → Session
serve name bridge = session

abbrev flags : Flags
flags = record {
  agentfile_path = "Agentfile";
  profile = "";
  runtime_cfg_path = "";
  health_port = pos 8080;
  log_level = "info";
  log_format = "auto";
  frontend_name = "repl";
  show_version = false;
}

abbrev frontends : Frontends String
frontends = ("repl", "repl") ∷ []

abbrev registry : ModelRegistry String
registry = record { models = ("main", "gpt") ∷ []; default_name = "main" }

abbrev started : String → Runtime String String String
started text = record {
  af = prompt text;
  agent = some text;
  models = some registry;
  toolsets = [];
  closers = [];
  closed = false;
  stopped = [];
}

handle_sighup-latest_example :
    (states : List (Runtime String String String)) × (handle_sighup machine outside "Agentfile" ""
        (started "Help.")
        texts
      ≡ some (
        installed (started "Help.") (latest machine outside "Agentfile" "" registry [] texts),
        states,
      ))
handle_sighup-latest_example =
    handle_sighup-latest machine outside "Agentfile" "" (started "Help.") registry texts refl

-- The reload took the new prompt, and the invalid Agentfile was left aside.
brief_taken :
    latest machine outside "Agentfile" "" registry [] texts ≡ some (prompt "Be brief.", "Be brief.")
unfolding read_agentfile default_model lookup
brief_taken = refl

-- Two interrupts, each received before the next arrives.
abbrev interrupts : List Event
interrupts = arrives ∷ received ∷ arrives ∷ received ∷ []

abbrev bridge : AgentBridge (Option String) ℕ
bridge = record { runner = some "Help."; sessions = 0; app_name = "crated" }

abbrev up : Option Server
up = some (record { ready = true })

abbrev down : Option Server
down = some (record { ready = false })

abbrev shut : String → Runtime String String String
shut text = record (started text) { closed = true }

abbrev report : Report String String String (Option String) ℕ
report = record {
  error = none;
  served = some bridge;
  trace =
      life down (some (started "Help."))
      ∷ life up (some (started "Help."))
      ∷ life up (some (started "Be brief."))
      ∷ life up (some (started "Be brief."))
      ∷ life up (some (shut "Be brief."))
      ∷ [];
  at_return = record (life down (some (shut "Be brief."))) { canceled = true };
}

abbrev quiet_report : Report String String String (Option String) ℕ
quiet_report = record report {
  trace =
      life down (some (started "Help."))
      ∷ life up (some (started "Help."))
      ∷ life up (some (shut "Help."))
      ∷ [];
  at_return = record (life down (some (shut "Help."))) { canceled = true };
}

ran :
    run machine (λ rc. outside) runner 0 (λ name. name) serve [] frontends files 0 flags
    ≡ some report
unfolding run starting serving returning configure read_agentfile resolve_profile load init new
    connect_all build_agent new_model_registry fill insert default_model lookup handle_sighup
    on_hangup reload new_agent_bridge get_frontend new_server mark_ready mark_not_ready close
ran = refl

ran_quietly :
    run machine (λ rc. outside) runner 0 (λ name. name) (quiet serve) [] frontends files 0 flags
    ≡ some quiet_report
unfolding run starting serving returning configure read_agentfile resolve_profile load init new
    connect_all build_agent new_model_registry fill insert default_model lookup handle_sighup
    on_hangup reload new_agent_bridge get_frontend new_server mark_ready mark_not_ready close
ran_quietly = refl

run_ignores_reloads_example :
    (report.served ≡ quiet_report.served) × (report.error ≡ quiet_report.error)
run_ignores_reloads_example =
    run_ignores_reloads machine (λ rc. outside) runner 0 (λ name. name) serve [] frontends files 0
      flags report quiet_report ran ran_quietly

run-error_none_iff_example : (report.error ≡ none) ↔ (
    (fe : String) × (bridge : AgentBridge (Option String) ℕ) × (get_frontend "repl" frontends
      ≡ some fe)
    × (report.served ≡ some bridge)
    × (((serve fe bridge).failure ≡ none) ⊎ ((serve fe bridge).canceled ≡ true)))
run-error_none_iff_example =
    run-error_none_iff machine (λ rc. outside) runner 0 (λ name. name) serve [] frontends files 0
      flags report ran

run_ready_while_closed_example :
    (l : Life String String String) × (last_of report.trace ≡ some l)
    × (tells_ready l ≡ true)
    × IsStopped l.runtime
unfolding get_frontend lookup
run_ready_while_closed_example =
    run_ready_while_closed machine (λ rc. outside) runner 0 (λ name. name) serve [] frontends files
      0 flags report "repl" bridge 8079 ran refl refl refl refl
