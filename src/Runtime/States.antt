-- ===== src/Runtime/States.antt =====
-- The states that Init, Reload and Close of internal/runtime/runtime.go leave the runtime in.
use crated.Prelude.{
  true, false, List, [], ◌∷◌, none, some, Option, Error, ok, ◌⊎◌, ◌≡◌, refl, sym, subst, arith, inl,
  inr, Option-cases, Result-cases,
}
use crated.Models.{ModelRegistry, default_model, new_model_registry}
use crated.Runtime.{
  Skill, Agentfile, Outside, Runtime, check_skill_env, connect_skill, new, close, opened,
  agent_config, build_agent, connect_all, init, reload,
}

module _ {L T A : Type 0} where
  -- What has been closed has no process left.
  abbrev pub IsTidy : Runtime L T A → Type 0
  IsTidy r = r.closed ≡ true → r.closers ≡ []

  -- A runtime whose start has succeeded, and that has not been closed.
  pub record IsServing (r : Runtime L T A) : Type 0 where
    pub models_made : (m : ModelRegistry L) × (r.models ≡ some m)
    pub agent_made : (a : A) × (r.agent ≡ some a)
    pub still_open : r.closed ≡ false

  pub close-closers :
      (r : Runtime L T A) → IsTidy r → ((close r).closed ≡ true) × ((close r).closers ≡ [])
  unfolding close
  close-closers r tidy = ground arith

  pub IsServing-IsTidy : (r : Runtime L T A) → IsServing r → IsTidy r
  IsServing-IsTidy r s h = ground (arith, s.still_open)

module _ {L T A : Type 0} (outside : Outside L T A) where
  stopped : (r : Runtime L T A) → r.closed ≡ false → IsTidy (close r)
  stopped r c _ = (close-closers r (λ h. absurd (ground (arith, c)))).1

  abbrev Started : Runtime L T A × Option Error → Type 0
  Started (r, none) = IsServing r
  Started (r, some e) = IsTidy r

  build_agent-Started :
      (models : ModelRegistry L) (r : Runtime L T A)
      → r.models ≡ some models
      → r.closed ≡ false
      → Started (build_agent outside models r)
  unfolding build_agent
  build_agent-Started models r m c = elim (Result-cases (default_model models)) [
    | inr (e, failed) ↦ rw (failed, build_agent) (stopped r c)
    | inl (model, found) ↦
        elim (Result-cases (outside.new_agent (agent_config outside r.af model r.toolsets))) [
          | inr (e, failed) ↦ rw (found, failed, build_agent) (stopped r c)
          | inl (a, built) ↦
              rw (found, built, build_agent)
                (record { models_made = (models, m); agent_made = (a, refl); still_open = c })
        ]
  ]

  connect_all-Started :
      (models : ModelRegistry L) (r : Runtime L T A) (skills : List Skill)
      → r.models ≡ some models
      → r.closed ≡ false
      → Started (connect_all outside models r skills)
  unfolding connect_all
  connect_all-Started models r [] m c = build_agent-Started models r m c
  connect_all-Started models r (skill ∷ skills) m c =
      elim (Option-cases (check_skill_env outside.getenv skill)) [
        | inr (e, missing) ↦ rw (missing, connect_all) (λ h. absurd (ground (arith, h)))
        | inl complete ↦ elim (Result-cases (connect_skill outside skill)) [
          | inr (e, failed) ↦ rw (complete, failed, connect_all) (stopped r c)
          | inl ((ts, closer), connected) ↦ elim (Option-cases (outside.tools_error ts)) [
            | inr (e, broken) ↦
                rw (complete, connected, broken, connect_all)
                  (stopped (opened outside r ts closer) c)
            | inl fine ↦
                rw (complete, connected, fine, connect_all)
                  (connect_all-Started models (opened outside r ts closer) skills m c)
          ]
        ]
      ]

  -- Init ends with a runtime that serves, or with an error and no process of what it has closed.
  init-Started : (af : Agentfile) → Started (init outside (new af))
  unfolding init new
  init-Started af =
      elim (Result-cases (new_model_registry outside.create af.default_name af.models)) [
        | inr (e, failed) ↦ rw (failed, init) (λ h. absurd (ground (arith, h)))
        | inl ((models, warnings), made) ↦ subst Started (sym (rw (made, init))) (
            connect_all-Started models (record (new af) { models = some models }) af.skills refl
              refl)
      ]

  Started-cases :
      (started : Runtime L T A × Option Error)
      → Started started
      → ((started.1 ≡ none) × IsServing started.0)
        ⊎ ((e : Error) × (started.1 ≡ some e) × IsTidy started.0)
  Started-cases (r, none) s = inl (refl, s)
  Started-cases (r, some e) t = inr (e, refl, t)

  pub init-cases :
      (af : Agentfile)
      → (((init outside (new af)).1 ≡ none) × IsServing (init outside (new af)).0)
        ⊎ ((e : Error) × ((init outside (new af)).1 ≡ some e) × IsTidy (init outside (new af)).0)
  init-cases af = Started-cases (init outside (new af)) (init-Started af)

  pub reload-IsServing :
      (r r' : Runtime L T A) (af : Agentfile)
      → IsServing r
      → reload outside r af ≡ some (ok r')
      → IsServing r'
  unfolding reload
  reload-IsServing r r' af s h =
      let (models, made) = s.models_made in
      elim (Result-cases (default_model models)) [
        | inr (e, failed) ↦ absurd (ground (arith, made, failed))
        | inl (model, found) ↦
            elim (Result-cases (outside.new_agent (agent_config outside af model r.toolsets))) [
              | inr (e, failed) ↦ absurd (ground (arith, made, found, failed))
              | inl (a, built) ↦ record {
                models_made = (models, ground (arith, made, found, built));
                agent_made = (a, ground (arith, made, found, built));
                still_open = ground (arith, made, found, built, s.still_open);
              }
            ]
      ]
