-- ===== src/RuntimeCfg.antt =====
-- internal/runtimecfg/config.go: the runtime configuration that `crate build` writes. The file
-- system and encoding/json are the parameter `Files`.
pub mod Loading
use crated.Prelude.{
  String, List, [], ◌∷◌, Option, none, some, Error, wrapf, Result, ok, err, ◌>>=◌, or_wrap, ℤ, Bool,
  if◌then◌else◌,
}
use crated.Dict.{Dict, lookup}

-- `ConfigPath`
abbrev pub config_path : String
config_path = ".crate/runtime.json"

-- `ModelConnection`
pub record ModelConnection : Type 0 where
  pub api_type : String
  pub api_base : String
  pub auth_env_var : String
  pub host_env_var : String
  pub max_concurrency : ℤ

-- `Config`, as json.Unmarshal may leave it: a nil map is `none`.
pub record RawConfig : Type 0 where
  pub models : Option (Dict ModelConnection)

pub record Config : Type 0 where
  pub models : Dict ModelConnection

-- What a read of a file gives: os.ReadFile's bytes, fs.ErrNotExist, or another error.
pub data FileRead : Type 0 where
  found : String → FileRead
  missing : FileRead
  broken : Error → FileRead

-- os.ReadFile, os.MkdirAll, os.WriteFile, filepath.Dir over a state of the file system, and
-- encoding/json for a `Config`.
pub record Files (F : Type 0) : Type 0 where
  pub read_file : F → String → FileRead
  pub mkdir_all : F → String → Result F
  pub write_file : F → String → String → Result F
  pub dir : String → String
  pub marshal_indent : Config → Result String
  pub unmarshal : String → Result RawConfig

abbrev pub empty : Config
empty = record { models = [] }

-- `if cfg.Models == nil { cfg.Models = make(…) }`
abbrev pub normalized : RawConfig → Config
normalized cfg = elim cfg.models [ none ↦ empty | some m ↦ record { models = m } ]

-- `Lookup`
unfoldable pub find : Config → String → Option ModelConnection
find c model = lookup model c.models

module _ {F : Type 0} (files : Files F) where
  open files use {read_file, mkdir_all, write_file, dir, marshal_indent, unmarshal}

  abbrev parse : String → Result Config
  parse text = do
    cfg ← or_wrap (unmarshal text) "parsing runtime config: %w" []
    ok (normalized cfg)

  -- `Load`
  unfoldable pub load : F → String → Result Config
  load fs path = elim (read_file fs path) [
    | missing ↦ ok empty
    | broken e ↦ err (wrapf "reading runtime config: %w" [] e)
    | found text ↦ parse text
  ]

  -- `Save`
  unfoldable pub save : F → Config → String → Result F
  save fs c path = do
    text ← or_wrap (marshal_indent c) "marshaling runtime config: %w" []
    fs' ← or_wrap (mkdir_all fs (dir path)) "creating config directory: %w" []
    write_file fs' path text
