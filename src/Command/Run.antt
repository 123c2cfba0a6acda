-- ===== src/Command/Run.antt =====
-- `run` and `main` of cmd/crated/main.go.
use crated.Prelude.{
  ℕ, Bool, true, false, String, List, [], ◌∷◌, ◌++◌, map, Option, none, some, Error, errorf, wrapf,
  str, texts, Result, ok, err, ℤ, pos, negsuc, if◌then◌else◌, ltb,
}
use crated.Prelude.Text.{◌<>◌}
use crated.Frontend.{Frontends, AgentBridge, get_frontend, registered_frontends, new_agent_bridge}
use crated.Health.{Server, new_server, mark_ready, mark_not_ready}
use crated.RuntimeCfg.{Config, Files}
use crated.Runtime.{Agentfile, Outside, Runtime, new, init, close}
use crated.Command.Setup.{Flags, Machine, resolve_profile, configure}
use crated.Command.Hangups.{handle_sighup}

-- A frontend's Run that comes back, as `run` meets it: the Agentfile's text at each SIGHUP that arrives before it
-- returns, whether the context is canceled by then, and its error.
pub record Session : Type 0 where
  pub hangups : List (Result String)
  pub canceled : Bool
  pub failure : Option Error

-- What there is of the process: the health server, if one was asked for, the runtime, once made, and
-- whether the context is canceled, on which ListenAndServe shuts the health server down.
pub record Life (L T A : Type 0) : Type 0 where
  pub health : Option Server
  pub runtime : Option (Runtime L T A)
  pub canceled : Bool

-- How `run` went: its error, the bridge that the frontend was given, the states on the way, and the
-- state on return.
pub record Report (L T A R S : Type 0) : Type 0 where
  pub error : Option Error
  pub served : Option (AgentBridge R S)
  pub trace : List (Life L T A)
  pub at_return : Life L T A

-- `if hs != nil { hs.MarkReady() }` and the deferred MarkNotReady.
abbrev pub ready_now : Option Server → Option Server
ready_now none = none
ready_now (some hs) = some (mark_ready hs)

abbrev pub not_ready_now : Option Server → Option Server
not_ready_now none = none
not_ready_now (some hs) = some (mark_not_ready hs)

abbrev pub closed_now : {L T A : Type 0} → Option (Runtime L T A) → Option (Runtime L T A)
closed_now none = none
closed_now (some rt) = some (close rt)

-- `if healthPort > 0`
abbrev pub health_of : ℤ → Option Server
health_of (pos n) = if ltb 0 n then some new_server else none
health_of (negsuc n) = none

abbrev pub life : {L T A : Type 0} → Option Server → Option (Runtime L T A) → Life L T A
life health runtime = record { health = health; runtime = runtime; canceled = false }

-- A return of `run`, where the context is or is not canceled before: what is deferred runs in the
-- reverse order, Close before MarkNotReady, and the context's own cancel last.
unfoldable pub returning :
    {L T A R S : Type 0}
    → Option Error
    → Option (AgentBridge R S)
    → Bool
    → Option Server
    → Option (Runtime L T A)
    → List (Life L T A)
    → Report L T A R S
returning failure served canceled health runtime trace = record {
  error = failure;
  served = served;
  trace = trace ++ record (life health (closed_now runtime)) { canceled = canceled } ∷ [];
  at_return = record (life (not_ready_now health) (closed_now runtime)) { canceled = true };
}

-- The error of `run` behind the frontend's Run.
abbrev pub ending : String → Session → Option Error
ending name session = elim session.failure [
  | none ↦ none
  | some e ↦
      if session.canceled then none else some (wrapf "frontend %q failed: %w" (str name ∷ []) e)
]

-- `outside` is what the runtime meets, with `createModel` for this runtime configuration; a SIGHUP
-- may arrive between Init and the frontend's Run too: those are `early`.
module _ {F L T A R S : Type 0} (machine : Machine) (outside : Config → Outside L T A)
    (new_runner : String → Option A → S → Result R) (in_memory : S) (name_of : F → String)
    (serve : F → AgentBridge R S → Session) (early : List (Result String)) where
  -- The step 7: the bridge and the frontend.
  unfoldable pub serving :
      Flags
      → F
      → Config
      → Option Server
      → Runtime L T A
      → List (Life L T A)
      → Option (Report L T A R S)
  serving o fe rc health rt trace = elim (new_agent_bridge new_runner in_memory rt.agent) [
    | err e ↦ some (
        returning (some (wrapf "creating agent bridge: %w" [] e)) none false health (some rt) trace)
    | ok bridge ↦
        elim (handle_sighup machine (outside rc) o.agentfile_path
          (resolve_profile machine o.profile) rt (serve fe bridge).hangups) [
            | none ↦ none
            | some (last, states) ↦ some (
                returning (ending (name_of fe) (serve fe bridge)) (some bridge)
                  (serve fe bridge).canceled health (some last)
                  (trace ++ map (λ r. life health (some r)) states))
          ]
  ]

  -- The steps 5 and 6.
  unfoldable pub starting :
      Flags → F → Option Server → Agentfile → Config → Option (Report L T A R S)
  starting o fe health af rc =
      let (rt, failure) = init (outside rc) (new af) in
      elim failure [
        | some e ↦ some (
            returning (some (wrapf "initializing runtime: %w" [] e)) none false health (some rt)
              (life health (some rt) ∷ []))
        | none ↦
            elim (handle_sighup machine (outside rc) o.agentfile_path
              (resolve_profile machine o.profile) rt early) [
                | none ↦ none
                | some (rt', states) ↦ serving o fe rc (ready_now health) rt' (
                    life health (some rt)
                    ∷ map (λ r. life (ready_now health) (some r)) (rt ∷ states))
              ]
      ]

  -- `run`
  unfoldable pub run :
      {Fs : Type 0} → Frontends F → Files Fs → Fs → Flags → Option (Report L T A R S)
  run frontends files fs o = elim (get_frontend o.frontend_name frontends) [
    | none ↦ some (
        returning
          (some (
            errorf "unknown frontend %q; registered: %v"
              (str o.frontend_name ∷ texts (registered_frontends machine.range frontends) ∷ [])))
          none false none none [])
    | some fe ↦
        let health = health_of o.health_port in
        elim (configure machine files fs o) [
          | err e ↦ some (returning (some e) none false health none (life health none ∷ []))
          | ok (af, rc) ↦ starting o fe health af rc
        ]
  ]

  -- `main`: what is printed, and the exit code.
  unfoldable pub main :
      {Fs : Type 0} → String → Frontends F → Files Fs → Fs → Flags → Option (List String × ℕ)
  main version frontends files fs o =
      let report = run frontends files fs o in
      if o.show_version then some (("crated " <> version) ∷ [], 0) else elim report [
        | none ↦ none
        | some r ↦ elim r.error [ none ↦ some ([], 0) | some e ↦ some ([], 1) ]
      ]
