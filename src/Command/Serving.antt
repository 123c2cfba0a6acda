-- ===== src/Command/Serving.antt =====
-- What the frontend gets to see of a run of cmd/crated/main.go, and the error of the run.
use crated.Prelude.{
  String, List, [], Option, none, some, Result, ◌≡◌, refl, arith, inl, inr, Option-cases,
  Result-cases,
}
use crated.Frontend.{Frontends, AgentBridge, get_frontend, new_agent_bridge}
use crated.Health.{Server}
use crated.RuntimeCfg.{Config, Files}
use crated.Runtime.{Agentfile, Outside, Runtime, new, init}
use crated.Runtime.States.{IsServing, init-cases, reload-IsServing}
use crated.Command.Setup.{Flags, Machine, resolve_profile, configure}
use crated.Command.Reloads.{handle_sighup-All, handle_sighup-latest}
use crated.Command.Run.{
  Session, Life, Report, health_of, ready_now, returning, serving, starting, run,
}

module _ {L T A R S : Type 0} where
  -- The same bridge and the same error.
  abbrev Agree : Option (Report L T A R S) → Option (Report L T A R S) → Type 0
  Agree none r = ⊥
  Agree (some r) none = ⊥
  Agree (some r) (some r') = (r.served ≡ r'.served) × (r.error ≡ r'.error)

  Agree-reports :
      (x y : Option (Report L T A R S)) (r r' : Report L T A R S)
      → Agree x y
      → x ≡ some r
      → y ≡ some r'
      → (r.served ≡ r'.served) × (r.error ≡ r'.error)
  Agree-reports none y r r' h p q = absurd h
  Agree-reports (some a) none r r' h p q = absurd h
  Agree-reports (some a) (some b) r r' h p q = ground (arith, h)

-- The frontend, with no signal while it runs.
abbrev pub quiet : {F B : Type 0} → (F → B → Session) → F → B → Session
quiet serve fe bridge = record (serve fe bridge) { hangups = [] }

module _ {F L T A R S : Type 0} (machine : Machine) (outside : Config → Outside L T A)
    (new_runner : String → Option A → S → Result R) (in_memory : S) (name_of : F → String)
    (serve : F → AgentBridge R S → Session) (early : List (Result String)) where
  serving-Agree :
      (o : Flags) (fe : F) (rc : Config) (health : Option Server) (rt : Runtime L T A)
      (trace : List (Life L T A))
      → IsServing rt
      → Agree
          (serving machine outside new_runner in_memory name_of serve early o fe rc health rt trace)
          (serving machine outside new_runner in_memory name_of
            (quiet serve)
            early
            o
            fe
            rc
            health
            rt
            trace)
  unfolding serving returning
  serving-Agree o fe rc health rt trace s =
      elim (Result-cases (new_agent_bridge new_runner in_memory rt.agent)) [
        | inr (e, failed) ↦ rw (failed, serving) (refl, refl)
        | inl (bridge, made) ↦
            let (models, have) = s.models_made in
            let profile = resolve_profile machine o.profile in
            let (states, h) =
              handle_sighup-latest machine (outside rc) o.agentfile_path profile rt models
                (serve fe bridge).hangups have in
            let (quiet_states, q) =
              handle_sighup-latest machine (outside rc) o.agentfile_path profile rt models []
                have in
            rw (made, h, q, serving) (refl, refl)
      ]

  starting-Agree :
      (o : Flags) (fe : F) (health : Option Server) (af : Agentfile) (rc : Config)
      → Agree
          (starting machine outside new_runner in_memory name_of serve early o fe health af rc)
          (starting machine outside new_runner in_memory name_of
            (quiet serve)
            early
            o
            fe
            health
            af
            rc)
  unfolding starting returning
  starting-Agree o fe health af rc =
      let rt = (init (outside rc) (new af)).0 in
      elim (init-cases (outside rc) af) [
        | inr (e, failed, tidy) ↦ rw (failed, starting) (refl, refl)
        | inl (fine, s) ↦
            let (models, have) = s.models_made in
            let profile = resolve_profile machine o.profile in
            let (states, h) =
              handle_sighup-latest machine (outside rc) o.agentfile_path profile rt models early
                have in
            let (last_ok, _) =
              handle_sighup-All machine (outside rc) o.agentfile_path profile IsServing
                (λ r r' af. reload-IsServing (outside rc) r r' af) rt _ early states s h in
            rw (fine, h, starting) (serving-Agree o fe rc (ready_now health) _ _ last_ok)
      ]

  run-Agree :
      {Fs : Type 0} (frontends : Frontends F) (files : Files Fs) (fs : Fs) (o : Flags)
      → Agree (run machine outside new_runner in_memory name_of serve early frontends files fs o) (
          run machine outside new_runner in_memory name_of (quiet serve) early frontends files fs o)
  unfolding run returning
  run-Agree frontends files fs o = elim (Option-cases (get_frontend o.frontend_name frontends)) [
    | inl unknown ↦ rw (unknown, run) (refl, refl)
    | inr (fe, found) ↦ elim (Result-cases (configure machine files fs o)) [
      | inr (e, failed) ↦ rw (found, failed, run) (refl, refl)
      | inl ((af, rc), read) ↦
          rw (found, read, run) (starting-Agree o fe (health_of o.health_port) af rc)
    ]
  ]

  -- No reload reaches a frontend that runs: it has the bridge, over the agent, that it would have
  -- without the signals, and the run ends with the same error.
  pub run_ignores_reloads :
      {Fs : Type 0} (frontends : Frontends F) (files : Files Fs) (fs : Fs) (o : Flags)
      (r r' : Report L T A R S)
      → run machine outside new_runner in_memory name_of serve early frontends files fs o ≡ some r
      → run machine outside new_runner in_memory name_of (quiet serve) early frontends files fs o
        ≡ some r'
      → (r.served ≡ r'.served) × (r.error ≡ r'.error)
  run_ignores_reloads frontends files fs o r r' =
      Agree-reports _ _ r r' (run-Agree frontends files fs o)
