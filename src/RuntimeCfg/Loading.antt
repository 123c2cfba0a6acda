-- ===== src/RuntimeCfg/Loading.antt =====
-- When `Load` of internal/runtimecfg/config.go fails.
use crated.Prelude.{String, [], Error, wrapf, err, ◌≡◌, arith, ◌↔◌, ◌⊎◌}
use crated.RuntimeCfg.{found, broken, Files, load}

module _ {F : Type 0} (files : Files F) where
  -- Load fails only if the file is there and cannot be read or parsed: a missing file is an empty
  -- configuration.
  pub load-eq-err_iff :
      (fs : F) (path : String) (e : Error)
      → (load files fs path ≡ err e) ↔ (
          ((cause : Error) × (files.read_file fs path ≡ broken cause)
            × (e ≡ wrapf "reading runtime config: %w" [] cause))
          ⊎ ((text : String) × (cause : Error) × (files.read_file fs path ≡ found text)
              × (files.unmarshal text ≡ err cause)
              × (e ≡ wrapf "parsing runtime config: %w" [] cause)))
  unfolding load
  load-eq-err_iff fs path e = ground arith
