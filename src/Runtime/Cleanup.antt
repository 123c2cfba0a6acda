-- ===== src/Runtime/Cleanup.antt =====
-- Which processes internal/runtime/runtime.go leaves running when its start fails.
use crated.Prelude.{
  false, List, [], ◌∷◌, ◌++◌, none, some, Error, wrapf, str, ok, ◌≡◌, refl, arith, inl, inr, All,
  Option-cases, Result-cases,
}
use mathlib.Core.List.{append_assoc, append-nil}
use crated.Models.{ModelRegistry, Warning, new_model_registry}
use crated.Runtime.{
  Skill, Agentfile, Transport, Outside, Runtime, check_skill_env, connect_skill, new, close, opened,
  build_agent, connect_all, init,
}

module _ {L T A : Type 0} where
  -- Close stops every process that is open, once, whatever calls follow.
  pub close_once :
      (r : Runtime L T A)
      → r.closed ≡ false
      → ((close r).closers ≡ [])
        × ((close r).stopped ≡ r.stopped ++ r.closers)
        × (close (close r) ≡ close r)
  unfolding close
  close_once r h = ground arith

module _ {L T A : Type 0} (outside : Outside L T A) where
  -- A skill whose environment is complete.
  abbrev pub HasEnv : Skill → Type 0
  HasEnv skill = check_skill_env outside.getenv skill ≡ none

  build_agent-closes :
      (models : ModelRegistry L) (r r' : Runtime L T A) (e : Error)
      → r.closed ≡ false
      → build_agent outside models r ≡ (r', some e)
      → r'.closers ≡ []
  unfolding build_agent close
  build_agent-closes models r r' e open_still h = ground arith

  connect_all-closes :
      (models : ModelRegistry L) (r r' : Runtime L T A) (skills : List Skill) (e : Error)
      → r.closed ≡ false
      → All HasEnv skills
      → connect_all outside models r skills ≡ (r', some e)
      → r'.closers ≡ []
  unfolding connect_all close
  connect_all-closes models r r' [] e open_still env h =
      build_agent-closes models r r' e open_still h
  connect_all-closes models r r' (skill ∷ skills) e open_still (here, env) h =
      elim (Result-cases (connect_skill outside skill)) [
        | inr (cause, failed) ↦ ground (arith, here, failed)
        | inl ((ts, closer), connected) ↦ elim (Option-cases (outside.tools_error ts)) [
          | inr (cause, broken) ↦ ground (arith, here, connected, broken)
          | inl fine ↦
              connect_all-closes models (opened outside r ts closer) r' skills e open_still env
                (ground (arith, here, connected, fine))
        ]
      ]

  -- If every skill has its environment, a start that fails leaves no process running: those that it
  -- started it has stopped.
  pub init-closes :
      (af : Agentfile) (r : Runtime L T A) (e : Error)
      → All HasEnv af.skills
      → init outside (new af) ≡ (r, some e)
      → r.closers ≡ []
  unfolding init new
  init-closes af r e env h =
      elim (Result-cases (new_model_registry outside.create af.default_name af.models)) [
        | inr (cause, failed) ↦ ground (arith, failed)
        | inl ((models, warnings), made) ↦
            connect_all-closes models (record (new af) { models = some models }) r af.skills e refl
              env (ground (arith, made))
      ]

  -- Skills that connect, with the processes that they start.
  pub data Connects : List Skill → List Transport → Type 0 where
    none_yet : Connects [] []
    and :
        (skill : Skill) (ts : T) (closer : List Transport) {skills : List Skill}
        {started : List Transport}
        → HasEnv skill
        → connect_skill outside skill ≡ ok (ts, closer)
        → outside.tools_error ts ≡ none
        → Connects skills started
        → Connects (skill ∷ skills) (closer ++ started)

  connect_all-leaves :
      (models : ModelRegistry L) (r : Runtime L T A) (before after : List Skill)
      (started : List Transport) (skill : Skill) (e : Error)
      → Connects before started
      → check_skill_env outside.getenv skill ≡ some e
      → ((connect_all outside models r (before ++ skill ∷ after)).0.closers ≡ r.closers ++ started)
        × ((connect_all outside models r (before ++ skill ∷ after)).0.stopped ≡ r.stopped)
        × ((connect_all outside models r (before ++ skill ∷ after)).1
            ≡ some (wrapf "skill %q: %w" (str skill.name ∷ []) e))
  unfolding connect_all
  connect_all-leaves models r _ after _ skill e none_yet missing =
      ground (arith, missing, append-nil r.closers)
  connect_all-leaves models r _ after _ skill e
        (and first ts closer {skills} {started} env connected fine more) missing =
      ground (
        arith,
        env,
        connected,
        fine,
        connect_all-leaves models (opened outside r ts closer) skills after started skill e more
            missing,
        append_assoc r.closers closer started,
      )

  -- A skill whose environment is not complete ends the start with an error that leaves running every
  -- process that the skills before it have started.
  pub init_leaves_running :
      (af : Agentfile) (models : ModelRegistry L) (warnings : List Warning)
      (before after : List Skill) (started : List Transport) (skill : Skill) (e : Error)
      → new_model_registry outside.create af.default_name af.models ≡ ok (models, warnings)
      → af.skills ≡ before ++ skill ∷ after
      → Connects before started
      → check_skill_env outside.getenv skill ≡ some e
      → ((init outside (new af)).0.closers ≡ started)
        × ((init outside (new af)).0.stopped ≡ [])
        × ((init outside (new af)).1 ≡ some (wrapf "skill %q: %w" (str skill.name ∷ []) e))
  unfolding init new
  init_leaves_running af models warnings before after started skill e made skills connects missing =
      ground (
        arith,
        made,
        skills,
        connect_all-leaves models (record (new af) { models = some models }) before after started
            skill e connects missing,
      )
