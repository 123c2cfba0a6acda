-- ===== src/Command/Outcome.antt =====
-- The error of a run of cmd/crated/main.go, and the order in which it comes down.
use crated.Prelude.{
  Bool, true, false, not, ◌&&◌, ap, ℤ, String, List, [], ◌∷◌, ◌++◌, map, Option, none, some,
  is_some, ◌∙◌, pos, suc, ℕ, Result, ◌≡◌, ◌⊎◌, ◌↔◌, refl, sym, subst, arith, inl, inr, Option-cases,
  Result-cases, Bool-cases,
}
use crated.Frontend.{Frontends, AgentBridge, get_frontend, new_agent_bridge}
use crated.Health.{Server, mark_ready, new_server}
use crated.RuntimeCfg.{Config, Files}
use crated.Runtime.{Agentfile, Outside, Runtime, new, init, close}
use crated.Runtime.States.{
  IsServing, IsTidy, IsServing-IsTidy, close-closers, init-cases, reload-IsServing,
}
use crated.Command.Setup.{Flags, Machine, resolve_profile, configure}
use crated.Command.Reloads.{handle_sighup-All, handle_sighup-latest}
use crated.Command.Run.{
  Session, Life, Report, life, health_of, ready_now, returning, ending, serving, starting, run,
}
use crated.Command.Shutdown.{answers_ready, IsStopped}

-- The health server has the agent down as ready and has not been told to shut down: if it listens, the
-- readiness probe answers 200.
abbrev pub tells_ready : {L T A : Type 0} → Life L T A → Bool
tells_ready l = answers_ready l.health && not l.canceled

abbrev pub last_of {ℓ} : {X : Type ℓ} → List X → Option X
last_of [] = none
last_of (x ∷ []) = some x
last_of (x ∷ y ∷ ys) = last_of (y ∷ ys)

last_of-append {ℓ} : {X : Type ℓ} (xs : List X) (x : X) → last_of (xs ++ x ∷ []) ≡ some x
last_of-append [] x = refl
last_of-append (y ∷ []) x = refl
last_of-append (y ∷ z ∷ xs) x = last_of-append (z ∷ xs) x

-- A frontend's error is the run's, unless the context was canceled.
ending-eq-none_iff :
    (name : String) (session : Session)
    → (ending name session ≡ none) ↔ ((session.failure ≡ none) ⊎ (session.canceled ≡ true))
ending-eq-none_iff name session = elim (Option-cases session.failure) [
  | inl fine ↦ (λ k. inl fine, λ k. ground arith)
  | inr (e, failed) ↦ elim (Bool-cases session.canceled) [
    | inl canceled ↦ (λ k. inr canceled, λ k. ground arith)
    | inr running ↦ (λ k. absurd (ground arith), λ k. absurd (ground (arith, k)))
  ]
]

served_not {ℓ} : {X : Type ℓ} {o : Option X} {x : X} → o ≡ some x → o ≡ none → ⊥
served_not p q = cc

ready_now-answers : (n : ℕ) → answers_ready (ready_now (health_of (pos (suc n)))) ≡ true
unfolding mark_ready new_server
ready_now-answers n = ground arith

ready_now-tells :
    {L T A : Type 0} (n : ℕ) (l : Life L T A) (port : ℤ) (canceled : Bool)
    → port ≡ pos (suc n)
    → canceled ≡ false
    → tells_ready (record l { health = ready_now (health_of port); canceled = canceled }) ≡ true
ready_now-tells n l port canceled p q = rw (p, q, ready_now-answers n) refl

module _ {F L T A R S : Type 0} (machine : Machine) (outside : Config → Outside L T A)
    (new_runner : String → Option A → S → Result R) (in_memory : S) (name_of : F → String)
    (serve : F → AgentBridge R S → Session) (early : List (Result String)) where
  -- A run that has not come to its frontend.
  abbrev Failed : Report L T A R S → Type 0
  Failed r = (r.served ≡ none) × (is_some r.error ≡ true)

  -- One that has, for this health server.
  record HasServed (fe : F) (health : Option Server) (r : Report L T A R S) : Type 0 where
    bridge : AgentBridge R S
    given : r.served ≡ some bridge
    ended : r.error ≡ ending (name_of fe) (serve fe bridge)
    rt : Runtime L T A
    tidy : IsTidy rt
    closing :
        last_of r.trace
        ≡ some (record (life health (some (close rt))) { canceled = (serve fe bridge).canceled })

  abbrev Told : F → Option Server → Option (Report L T A R S) → Type 0
  Told fe health none = ⊥
  Told fe health (some r) = Failed r ⊎ HasServed fe health r

  serving-Told :
      (o : Flags) (fe : F) (rc : Config) (health : Option Server) (rt : Runtime L T A)
      (trace : List (Life L T A))
      → IsServing rt
      → Told fe health
          (serving machine outside new_runner in_memory name_of serve early o fe rc health rt trace)
  unfolding serving returning
  serving-Told o fe rc health rt trace s =
      elim (Result-cases (new_agent_bridge new_runner in_memory rt.agent)) [
        | inr (e, failed) ↦ rw (failed, serving) (inl (refl, refl))
        | inl (bridge, made) ↦
            let (models, have) = s.models_made in
            let profile = resolve_profile machine o.profile in
            let (states, h) =
              handle_sighup-latest machine (outside rc) o.agentfile_path profile rt models
                (serve fe bridge).hangups have in
            let (last_ok, _) =
              handle_sighup-All machine (outside rc) o.agentfile_path profile IsServing
                (λ r r' af. reload-IsServing (outside rc) r r' af) rt _ (serve fe bridge).hangups
                states s h in
            rw (made, h, serving)
              (inr (record {
                bridge = bridge;
                given = refl;
                ended = refl;
                rt = _;
                tidy = IsServing-IsTidy _ last_ok;
                closing = last_of-append (trace ++ map (λ r. life health (some r)) states) _;
              }))
      ]

  starting-Told :
      (o : Flags) (fe : F) (health : Option Server) (af : Agentfile) (rc : Config)
      → Told fe
          (ready_now health)
          (starting machine outside new_runner in_memory name_of serve early o fe health af rc)
  unfolding starting returning
  starting-Told o fe health af rc =
      let rt = (init (outside rc) (new af)).0 in
      elim (init-cases (outside rc) af) [
        | inr (e, failed, tidy) ↦ rw (failed, starting) (inl (refl, refl))
        | inl (fine, s) ↦
            let (models, have) = s.models_made in
            let profile = resolve_profile machine o.profile in
            let (states, h) =
              handle_sighup-latest machine (outside rc) o.agentfile_path profile rt models early
                have in
            let (last_ok, _) =
              handle_sighup-All machine (outside rc) o.agentfile_path profile IsServing
                (λ r r' af. reload-IsServing (outside rc) r r' af) rt _ early states s h in
            rw (fine, h, starting) (serving-Told o fe rc (ready_now health) _ _ last_ok)
      ]

  Told-report :
      (fe : F) (health : Option Server) (x : Option (Report L T A R S)) (r : Report L T A R S)
      → Told fe health x
      → x ≡ some r
      → Failed r ⊎ HasServed fe health r
  Told-report fe health none r h e = absurd h
  Told-report fe health (some x) r h e =
      subst (λ y. Failed y ⊎ HasServed fe health y) (ground (arith, e)) h

  run-cases :
      {Fs : Type 0} (frontends : Frontends F) (files : Files Fs) (fs : Fs) (o : Flags)
      (r : Report L T A R S)
      → run machine outside new_runner in_memory name_of serve early frontends files fs o ≡ some r
      → Failed r
        ⊎ ((fe : F) × (get_frontend o.frontend_name frontends ≡ some fe)
            × HasServed fe (ready_now (health_of o.health_port)) r)
  unfolding run returning
  run-cases frontends files fs o r h =
      elim (Option-cases (get_frontend o.frontend_name frontends)) [
        | inl unknown ↦ inl (ground (arith, unknown), ground (arith, unknown))
        | inr (fe, found) ↦ elim (Result-cases (configure machine files fs o)) [
          | inr (e, failed) ↦ inl (ground (arith, found, failed), ground (arith, found, failed))
          | inl ((af, rc), read) ↦
              elim (Told-report fe (ready_now (health_of o.health_port)) _ r
                (starting-Told o fe (health_of o.health_port) af rc)
                (ground (arith, found, read))) [
                  | inl failed ↦ inl failed
                  | inr served ↦ inr (fe, found, served)
                ]
        ]
      ]

  -- The run ends without an error exactly if the frontend that the flag names is registered and was
  -- run, and it came back without an error or with the context canceled.
  pub run-error_none_iff :
      {Fs : Type 0} (frontends : Frontends F) (files : Files Fs) (fs : Fs) (o : Flags)
      (r : Report L T A R S)
      → run machine outside new_runner in_memory name_of serve early frontends files fs o ≡ some r
      → (r.error ≡ none) ↔ (
          (fe : F) × (bridge : AgentBridge R S) × (get_frontend o.frontend_name frontends ≡ some fe)
          × (r.served ≡ some bridge)
          × (((serve fe bridge).failure ≡ none) ⊎ ((serve fe bridge).canceled ≡ true)))
  run-error_none_iff frontends files fs o r h = elim (run-cases frontends files fs o r h) [
    | inl (unserved, failed) ↦ (λ k. absurd (ground arith), λ k. absurd (served_not k.3 unserved))
    | inr (fe, found, s) ↦ (
      (λ k. (
        fe,
        s.bridge,
        found,
        s.given,
        (ending-eq-none_iff (name_of fe) (serve fe s.bridge)).0 (sym s.ended ∙ k),
      )),
      (λ k.
          let same : serve k.0 k.1 ≡ serve fe s.bridge = cc (found, k.2, k.3, s.given) in
          s.ended
          ∙ (ending-eq-none_iff (name_of fe) (serve fe s.bridge)).1 (
              subst (λ (session : Session). (session.failure ≡ none) ⊎ (session.canceled ≡ true))
                same k.4)),
    )
  ]

  -- Once the frontend has been run and has come back with the context not canceled, the skills are
  -- closed while the health server, if one was asked for, still has the agent down as ready and has not
  -- been told to shut down.
  pub run_ready_while_closed :
      {Fs : Type 0} (frontends : Frontends F) (files : Files Fs) (fs : Fs) (o : Flags)
      (r : Report L T A R S) (fe : F) (bridge : AgentBridge R S) (n : ℕ)
      → run machine outside new_runner in_memory name_of serve early frontends files fs o ≡ some r
      → get_frontend o.frontend_name frontends ≡ some fe
      → r.served ≡ some bridge
      → (serve fe bridge).canceled ≡ false
      → o.health_port ≡ pos (suc n)
      → (l : Life L T A) × (last_of r.trace ≡ some l) × (tells_ready l ≡ true) × IsStopped l.runtime
  run_ready_while_closed frontends files fs o r fe bridge n h named served running port =
      elim (run-cases frontends files fs o r h) [
        | inl (unserved, _) ↦ absurd (cc)
        | inr (fe', found, s) ↦ (
          _,
          s.closing,
          ready_now-tells n (life none (some (close s.rt))) _ _ port (
              ap (λ (session : Session). session.canceled) {x = serve fe' s.bridge}
                {y = serve fe bridge} (cc (named, found, served, s.given))
              ∙ running),
          close-closers s.rt s.tidy,
        )
      ]
