-- ===== src/Command/Shutdown.antt =====
-- What holds while `run` of cmd/crated/main.go goes on, and when it has returned.
use crated.Prelude.{
  Bool, true, false, String, List, [], ◌∷◌, map, Option, none, some, Error, ℤ, Result, ◌≡◌, refl,
  arith, inl, inr, All, All-append, All-map, All-implies, Option-cases, Result-cases,
}
use crated.Frontend.{Frontends, AgentBridge, get_frontend, new_agent_bridge}
use crated.Health.{Server, mark_not_ready, new_server}
use crated.RuntimeCfg.{Config, Files}
use crated.Runtime.{Agentfile, Outside, Runtime, new, init, close}
use crated.Runtime.States.{
  IsTidy, IsServing, IsServing-IsTidy, close-closers, init-cases, reload-IsServing,
}
use crated.Command.Setup.{Flags, Machine, resolve_profile, configure}
use crated.Command.Reloads.{handle_sighup-All, handle_sighup-latest}
use crated.Command.Run.{
  Session, Life, Report, life, health_of, ready_now, not_ready_now, closed_now, returning, serving,
  starting, run,
}

-- The health server has the agent down as ready.
abbrev pub answers_ready : Option Server → Bool
answers_ready none = false
answers_ready (some hs) = hs.ready

not_ready_now-answers : (hs : Option Server) → answers_ready (not_ready_now hs) ≡ false
unfolding mark_not_ready
not_ready_now-answers none = refl
not_ready_now-answers (some hs) = refl

health_of-not_ready : (port : ℤ) → answers_ready (health_of port) ≡ false
unfolding new_server
health_of-not_ready port = ground arith

module _ {L T A : Type 0} where
  abbrev pub HasAgent : Option (Runtime L T A) → Type 0
  HasAgent none = ⊥
  HasAgent (some rt) = (a : A) × (rt.agent ≡ some a)

  -- Marked ready only with an agent.
  abbrev pub IsHonest : Life L T A → Type 0
  IsHonest l = answers_ready l.health ≡ true → HasAgent l.runtime

  -- No process left, and not marked ready.
  abbrev pub IsStopped : Option (Runtime L T A) → Type 0
  IsStopped none = Unit
  IsStopped (some rt) = (rt.closed ≡ true) × (rt.closers ≡ [])

  abbrev pub Settled : Life L T A → Type 0
  Settled l = (answers_ready l.health ≡ false) × IsStopped l.runtime

  abbrev Tidy : Option (Runtime L T A) → Type 0
  Tidy none = Unit
  Tidy (some rt) = IsTidy rt

  closed_now-IsStopped : (rt : Option (Runtime L T A)) → Tidy rt → IsStopped (closed_now rt)
  closed_now-IsStopped none t = tt
  closed_now-IsStopped (some rt) t = close-closers rt t

  HasAgent-closed_now : (rt : Option (Runtime L T A)) → HasAgent rt → HasAgent (closed_now rt)
  unfolding close
  HasAgent-closed_now none h = h
  HasAgent-closed_now (some rt) (a, h) = (a, ground arith)

module _ {L T A : Type 0} where
  life-IsHonest_serving :
      (health : Option Server) (rt : Runtime L T A)
      → IsServing rt
      → IsHonest (life health (some rt))
  life-IsHonest_serving health rt s _ = s.agent_made

  life-IsHonest_early :
      (health : Option Server) (rt : Option (Runtime L T A))
      → answers_ready health ≡ false
      → IsHonest (life health rt)
  life-IsHonest_early health rt e h = absurd (ground (arith, e, h))

module _ {L T A R S : Type 0} where
  pub record IsSound (r : Report L T A R S) : Type 0 where
    pub honest : All IsHonest r.trace
    pub settled : Settled r.at_return

  abbrev Sound : Option (Report L T A R S) → Type 0
  Sound none = ⊥
  Sound (some r) = IsSound r

  returning-IsSound :
      (failure : Option Error) (served : Option (AgentBridge R S)) (health : Option Server)
      (canceled : Bool) (rt : Option (Runtime L T A)) (trace : List (Life L T A))
      → Tidy rt
      → IsHonest (life health rt)
      → All IsHonest trace
      → IsSound (returning failure served canceled health rt trace)
  unfolding returning
  returning-IsSound failure served health canceled rt trace tidy honest before = record {
    honest = All-append IsHonest trace _ before ((λ h. HasAgent-closed_now rt (honest h)), tt);
    settled = (not_ready_now-answers health, closed_now-IsStopped rt tidy);
  }

  Sound-report :
      (r : Option (Report L T A R S))
      → Sound r
      → (report : Report L T A R S) × (r ≡ some report) × IsSound report
  Sound-report none h = absurd h
  Sound-report (some r) h = (r, refl, h)

module _ {F L T A R S : Type 0} (machine : Machine) (outside : Config → Outside L T A)
    (new_runner : String → Option A → S → Result R) (in_memory : S) (name_of : F → String)
    (serve : F → AgentBridge R S → Session) (early : List (Result String)) where
  states-IsHonest :
      (health : Option Server) (states : List (Runtime L T A))
      → All IsServing states
      → All IsHonest (map (λ r. life health (some r)) states)
  states-IsHonest health states s =
      All-map IsHonest (λ r. life health (some r)) states
        (All-implies IsServing (λ r. IsHonest (life health (some r))) states
          (life-IsHonest_serving health) s)

  serving-Sound :
      (o : Flags) (fe : F) (rc : Config) (health : Option Server) (rt : Runtime L T A)
      (trace : List (Life L T A))
      → IsServing rt
      → All IsHonest trace
      → Sound
          (serving machine outside new_runner in_memory name_of serve early o fe rc health rt trace)
  unfolding serving
  serving-Sound o fe rc health rt trace s before =
      elim (Result-cases (new_agent_bridge new_runner in_memory rt.agent)) [
        | inr (e, failed) ↦
            rw (failed, serving)
              (returning-IsSound _ none health _ (some rt) trace (IsServing-IsTidy rt s)
                (life-IsHonest_serving health rt s) before)
        | inl (bridge, made) ↦
            let (models, have) = s.models_made in
            let texts = (serve fe bridge).hangups in
            let profile = resolve_profile machine o.profile in
            let (states, h) =
              handle_sighup-latest machine (outside rc) o.agentfile_path profile rt models texts
                have in
            let (last_ok, states_ok) =
              handle_sighup-All machine (outside rc) o.agentfile_path profile IsServing
                (λ r r' af. reload-IsServing (outside rc) r r' af) rt _ texts states s h in
            rw (made, h, serving)
              (returning-IsSound _ (some bridge) health _ _ _ (IsServing-IsTidy _ last_ok)
                (life-IsHonest_serving health _ last_ok)
                (All-append IsHonest trace _ before (states-IsHonest health states states_ok)))
      ]

  starting-Sound :
      (o : Flags) (fe : F) (health : Option Server) (af : Agentfile) (rc : Config)
      → answers_ready health ≡ false
      → Sound (starting machine outside new_runner in_memory name_of serve early o fe health af rc)
  unfolding starting
  starting-Sound o fe health af rc unready =
      let rt = (init (outside rc) (new af)).0 in
      elim (init-cases (outside rc) af) [
        | inr (e, failed, tidy) ↦
            rw (failed, starting)
              (returning-IsSound _ none health _ (some rt) _ tidy
                (life-IsHonest_early health (some rt) unready)
                (life-IsHonest_early health (some rt) unready, tt))
        | inl (fine, s) ↦
            let (models, have) = s.models_made in
            let profile = resolve_profile machine o.profile in
            let (states, h) =
              handle_sighup-latest machine (outside rc) o.agentfile_path profile rt models early
                have in
            let (last_ok, states_ok) =
              handle_sighup-All machine (outside rc) o.agentfile_path profile IsServing
                (λ r r' af. reload-IsServing (outside rc) r r' af) rt _ early states s h in
            rw (fine, h, starting)
              (serving-Sound o fe rc (ready_now health) _ _ last_ok (
                life-IsHonest_early health (some rt) unready,
                states-IsHonest (ready_now health) (rt ∷ states) (s, states_ok),
              ))
      ]

  early_none :
      (health : Option Server)
      → answers_ready health ≡ false
      → IsHonest {L = L} {T = T} {A = A} (life health none)
  early_none health unready = life-IsHonest_early {L = L} {T = T} {A = A} health none unready

  run-Sound :
      {Fs : Type 0} (frontends : Frontends F) (files : Files Fs) (fs : Fs) (o : Flags)
      → Sound (run machine outside new_runner in_memory name_of serve early frontends files fs o)
  unfolding run
  run-Sound frontends files fs o = elim (Option-cases (get_frontend o.frontend_name frontends)) [
    | inl unknown ↦
        rw (unknown, run)
          (returning-IsSound _ none none _ none [] tt (λ h. absurd (ground (arith, h))) tt)
    | inr (fe, found) ↦
        let health = health_of o.health_port in
        let unready = health_of-not_ready o.health_port in
        elim (Result-cases (configure machine files fs o)) [
          | inr (e, failed) ↦
              rw (found, failed, run)
                (returning-IsSound _ none health _ none _ tt (early_none health unready)
                  (early_none health unready, tt))
          | inl ((af, rc), read) ↦ rw (found, read, run) (starting-Sound o fe health af rc unready)
        ]
  ]

  -- With a frontend that comes back and no exit forced, `run` returns a report, and it is sound.
  pub run-IsSound :
      {Fs : Type 0} (frontends : Frontends F) (files : Files Fs) (fs : Fs) (o : Flags)
      → (report : Report L T A R S) × (run machine outside new_runner in_memory name_of serve early
            frontends files fs o
          ≡ some report)
        × IsSound report
  run-IsSound frontends files fs o = Sound-report _ (run-Sound frontends files fs o)
