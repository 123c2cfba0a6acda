-- ===== src/Command/Reloads.antt =====
-- What the signals of `handleSIGHUP` in cmd/crated/main.go make of a runtime.
use crated.Prelude.{
  String, List, [], ◌∷◌, Option, none, some, Result, ok, err, ◌≡◌, refl, ◌∙◌, ap, subst, arith, inl,
  inr, All, Option-cases, Result-cases,
}
use crated.Models.{ModelRegistry, default_model}
use crated.Runtime.{Agentfile, Outside, Runtime, agent_config, reload}
use crated.Command.Setup.{Machine, read_agentfile}
use crated.Command.Hangups.{on_hangup, handle_sighup}

abbrev pub ok? {ℓ} : {B : Type ℓ} → Result B → Option B
ok? (ok b) = some b
ok? (err e) = none

module _ {L T A : Type 0} where
  -- The runtime with a new Agentfile and its agent, if there is one.
  abbrev pub installed : Runtime L T A → Option (Agentfile × A) → Runtime L T A
  installed r none = r
  installed r (some (af, a)) = record r { agent = some a; af = af }

module _ {L T A : Type 0} where
  models-installed :
      (r : Runtime L T A) (good : Option (Agentfile × A)) → (installed r good).models ≡ r.models
  models-installed r none = refl
  models-installed r (some (af, a)) = refl

  installed_twice :
      (r : Runtime L T A) (good later : Option (Agentfile × A))
      → installed (installed r good) later
        ≡ installed r (elim later [ none ↦ good | some x ↦ some x ])
  installed_twice r good none = refl
  installed_twice r none (some x) = refl
  installed_twice r (some y) (some x) = refl

  toolsets-installed :
      (r : Runtime L T A) (good : Option (Agentfile × A)) → (installed r good).toolsets ≡ r.toolsets
  toolsets-installed r none = refl
  toolsets-installed r (some (af, a)) = refl

module _ {L T A : Type 0} (machine : Machine) (outside : Outside L T A)
    (path profile : String) where
  -- The Agentfile and the agent that a text gives, over these models and toolsets: none if it cannot
  -- be read or is not valid, has not the profile, or no agent can be made.
  abbrev pub agent_of : ModelRegistry L → List T → Result String → Option (Agentfile × A)
  agent_of models toolsets text = elim (read_agentfile machine path profile text) [
    | err e ↦ none
    | ok af ↦ elim (default_model models) [
      | err e ↦ none
      | ok model ↦ elim (outside.new_agent (agent_config outside af model toolsets)) [
        | err e ↦ none
        | ok a ↦ some (af, a)
      ]
    ]
  ]

  -- The last of the texts that gives one.
  abbrev pub latest : ModelRegistry L → List T → List (Result String) → Option (Agentfile × A)
  latest models toolsets [] = none
  latest models toolsets (text ∷ later) = elim (latest models toolsets later) [
    | none ↦ agent_of models toolsets text
    | some good ↦ some good
  ]

  on_hangup-installed :
      (r : Runtime L T A) (models : ModelRegistry L) (text : Result String)
      → r.models ≡ some models
      → on_hangup machine outside path profile r text
        ≡ some (installed r (agent_of models r.toolsets text))
  unfolding on_hangup reload
  on_hangup-installed r models text made =
      elim (Result-cases (read_agentfile machine path profile text)) [
        | inr (e, failed) ↦ ground (arith, failed)
        | inl (af, given) ↦ elim (Result-cases (default_model models)) [
          | inr (e, failed) ↦ ground (arith, given, made, failed)
          | inl (model, found) ↦
              elim (Result-cases (outside.new_agent (agent_config outside af model r.toolsets))) [
                | inr (e, failed) ↦ ground (arith, given, made, found, failed)
                | inl (a, built) ↦ ground (arith, given, made, found, built)
              ]
        ]
      ]

  -- Whatever the signals bring, nothing panics on a runtime that has its models: it ends with the
  -- Agentfile, and its agent, of the last text that gives one, or as it was if none does; and nothing
  -- else of it has changed.
  pub handle_sighup-latest :
      (r : Runtime L T A) (models : ModelRegistry L) (texts : List (Result String))
      → r.models ≡ some models
      → (states : List (Runtime L T A)) × (handle_sighup machine outside path profile r texts
          ≡ some (installed r (latest models r.toolsets texts), states))
  unfolding handle_sighup
  handle_sighup-latest r models [] made = ([], refl)
  handle_sighup-latest r models (text ∷ later) made =
      let good = agent_of models r.toolsets text in
      let (states, h) =
        handle_sighup-latest (installed r good) models later (models-installed r good ∙ made) in
      (
        installed r good ∷ states,
        rw (on_hangup-installed r models text made, h, handle_sighup)
            (ap (λ l. some (l, installed r good ∷ states))
              (installed_twice r good (latest models (installed r good).toolsets later)
                ∙ ap
                    (λ ts.
                      installed r (elim (latest models ts later) [ none ↦ good | some x ↦ some x ]))
                    (toolsets-installed r good))),
      )

  on_hangup-keeps :
      (P : Runtime L T A → Type 0)
      → ((r r' : Runtime L T A) (af : Agentfile) → P r → reload outside r af ≡ some (ok r') → P r')
      → (r r' : Runtime L T A) (text : Result String) → P r
      → on_hangup machine outside path profile r text ≡ some r'
      → P r'
  unfolding on_hangup
  on_hangup-keeps P keep r r' text p h =
      elim (Result-cases (read_agentfile machine path profile text)) [
        | inr (e, failed) ↦ subst P (ground (arith, failed)) p
        | inl (af, given) ↦ elim (Option-cases (reload outside r af)) [
          | inl panics ↦ absurd (ground (arith, given, panics))
          | inr (outcome, done) ↦ elim (Result-cases outcome) [
            | inr (e, failed) ↦ subst P (ground (arith, given, done, failed)) p
            | inl (next, reloaded) ↦
                keep r r' af p
                  (done ∙ ap some (reloaded ∙ ap ok (ground (arith, given, done, reloaded))))
          ]
        ]
      ]

  -- What holds at first and behind each signal holds all along.
  pub handle_sighup-All :
      (P : Runtime L T A → Type 0)
      → ((r r' : Runtime L T A) (af : Agentfile) → P r → reload outside r af ≡ some (ok r') → P r')
      → (r last : Runtime L T A) (texts : List (Result String)) (states : List (Runtime L T A))
      → P r
      → handle_sighup machine outside path profile r texts ≡ some (last, states)
      → P last × All P states
  unfolding handle_sighup
  handle_sighup-All P keep r last [] states p h = (subst P (cc) p, subst (All P) {x = []} (cc) tt)
  handle_sighup-All P keep r last (text ∷ later) states p h =
      elim (Option-cases (on_hangup machine outside path profile r text)) [
        | inl panics ↦ absurd (ground (arith, panics))
        | inr (next, done) ↦
            elim (Option-cases (handle_sighup machine outside path profile next later)) [
              | inl panics ↦ absurd (ground (arith, done, panics))
              | inr ((last', states'), rest) ↦
                  let p' = on_hangup-keeps P keep r next text p done in
                  let (q, qs) = handle_sighup-All P keep next last' later states' p' rest in
                  (
                    subst P (ground (arith, done, rest)) q,
                    subst (All P) {x = next ∷ states'} (ground (arith, done, rest)) (p', qs),
                  )
            ]
      ]
