-- ===== src/Command/Hangups.antt =====
-- `handleSIGHUP` of cmd/crated/main.go, over the texts that os.ReadFile gives at each signal.
use crated.Prelude.{String, List, [], ◌∷◌, Option, none, some, Result, ok, err}
use crated.Runtime.{Outside, Runtime, reload}
use crated.Command.Setup.{Machine, read_agentfile}

module _ {L T A : Type 0} (machine : Machine) (outside : Outside L T A)
    (path profile : String) where
  -- One SIGHUP in `handleSIGHUP`, where os.ReadFile gives `text`: a failure is logged, and the runtime
  -- stays as it is. The outer `none` is a panic.
  unfoldable pub on_hangup : Runtime L T A → Result String → Option (Runtime L T A)
  unfolding read_agentfile reload
  on_hangup rt text = elim (read_agentfile machine path profile text) [
    | err e ↦ some rt
    | ok af ↦ elim (reload outside rt af) [
      | none ↦ none
      | some (err e) ↦ some rt
      | some (ok reloaded) ↦ some reloaded
    ]
  ]

  -- The loop of `handleSIGHUP`, up to the end of the context: the runtime at the end, and what it was
  -- behind each signal.
  unfoldable pub handle_sighup :
      Runtime L T A → List (Result String) → Option (Runtime L T A × List (Runtime L T A))
  handle_sighup rt [] = some (rt, [])
  handle_sighup rt (text ∷ later) = elim (on_hangup rt text) [
    | none ↦ none
    | some rt' ↦ elim (handle_sighup rt' later) [
      | none ↦ none
      | some (last, states) ↦ some (last, rt' ∷ states)
    ]
  ]
