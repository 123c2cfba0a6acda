-- ===== src/Command/Setup.antt =====
-- cmd/crated/main.go: the flags, the logging, and what is read before the runtime starts.
use crated.Prelude.{
  Bool, ◌&&◌, ◌||◌, String, List, ◌∷◌, [], errorf, or_wrap, str, num, Result, ok, err, ◌>>=◌, ℤ,
  length, if◌then◌else◌, ◌==◌,
}
use crated.RuntimeCfg.{Config, Files, config_path, load}
use crated.Runtime.{Agentfile}

-- The flags.
pub record Flags : Type 0 where
  pub agentfile_path : String
  pub profile : String
  pub runtime_cfg_path : String
  pub health_port : ℤ
  pub log_level : String
  pub log_format : String
  pub frontend_name : String
  pub show_version : Bool

pub data Level : Type 0 where
  debug info warn error : Level

-- The handler that `initLogging` installs.
pub record Logging : Type 0 where
  pub level : Level
  pub use_text : Bool

unfoldable pub init_logging : String → String → String → Logging
init_logging level format frontend_name = record {
  level =
      if level == "debug"
      then debug
      else if level == "warn"
      then warn
      else if level == "error"
      then error
      else info;
  use_text = format == "text" || (format == "auto" && frontend_name == "repl");
}

-- What agentfile.Parse gives: `invalid` are the fields and messages of its errors.
pub record Parsed : Type 0 where
  pub agentfile : Agentfile
  pub invalid : List (String × String)

-- agentfile.Parse, IsValid and ResolveProfile; os.ReadFile and os.Getenv; filepath.Join; `range` is the order in
-- which a loop ranges over a map with these keys.
pub record Machine : Type 0 where
  pub read_file : String → Result String
  pub getenv : String → String
  pub join_path : String → String → String
  pub parse : String → Result Parsed
  pub is_valid : Parsed → Bool
  pub resolve : Agentfile → String → Result Agentfile
  pub range : List String → List String

module _ (machine : Machine) where
  open machine use {read_file, getenv, join_path, parse, is_valid, resolve}

  -- `resolveProfile`
  unfoldable pub resolve_profile : String → String
  resolve_profile flag_value = if flag_value == "" then getenv "CRATE_PROFILE" else flag_value

  abbrev pub validated : Parsed → Result Agentfile
  validated result =
      if is_valid result
      then ok result.agentfile
      else err
          (errorf "agentfile validation failed with %d errors" (num (length result.invalid) ∷ []))

  abbrev pub with_profile : String → Agentfile → Result Agentfile
  with_profile profile af =
      if profile == ""
      then ok af
      else or_wrap (resolve af profile) "resolving profile %q: %w" (str profile ∷ [])

  -- What `run` makes of the Agentfile's text.
  unfoldable pub read_agentfile : String → String → Result String → Result Agentfile
  read_agentfile path profile text = do
    given ← or_wrap text "reading %s: %w" (str path ∷ [])
    result ← or_wrap (parse given) "parsing %s: %w" (str path ∷ [])
    af ← validated result
    with_profile profile af

  -- `rcPath`
  abbrev pub runtime_cfg_path_of : {Fs : Type 0} → Files Fs → Flags → String
  runtime_cfg_path_of files o =
      if o.runtime_cfg_path == ""
      then join_path (files.dir o.agentfile_path) config_path
      else o.runtime_cfg_path

  -- The steps 2 to 4 of `run`.
  unfoldable pub configure : {Fs : Type 0} → Files Fs → Fs → Flags → Result (Agentfile × Config)
  unfolding read_agentfile resolve_profile load
  configure files fs o = do
    af ← read_agentfile o.agentfile_path (resolve_profile o.profile) (read_file o.agentfile_path)
    rc ← or_wrap (load files fs (runtime_cfg_path_of files o)) "loading runtime config: %w" []
    ok (af, rc)
