-- ===== src/Models/Registry.antt =====
-- The models of an Agentfile in internal/runtime/models.go: which are in the registry, and which are
-- skipped.
use crated.Prelude.{
  Bool, true, false, String, List, [], ◌∷◌, ◌++◌, Option, none, some, Error, wrapf, str, Result, ok,
  err, if◌then◌else◌, ◌==◌, ◌≡◌, ◌≢◌, refl, ap, ◌∙◌, arith, ◌↔◌, inl, inr, Result-cases,
  Result-cases,
}
use mathlib.Core.List.{append_assoc, append-nil}
use crated.Dict.{Dict, lookup, insert, lookup-insert}
use crated.Genai.{ModelConfig}
use crated.Models.{ModelRegistry, Warning, fill, new_model_registry, default_model, get}

module _ {L : Type 0} (create : ModelConfig → Result L) (default_name : String) where
  -- The model that the last entry with the name makes, of those that can be made.
  abbrev pub last_made : Option L → String → List ModelConfig → Option L
  last_made found name [] = found
  last_made found name (mc ∷ mcs) = elim (create mc) [
    | ok m ↦ last_made (if mc.name == name then some m else found) name mcs
    | err e ↦ last_made found name mcs
  ]

  -- The entries that cannot be made, with their errors.
  abbrev pub skipped : List ModelConfig → List Warning
  skipped [] = []
  skipped (mc ∷ mcs) = elim (create mc) [
    | ok m ↦ skipped mcs
    | err e ↦ record { model = mc.name; cause = e } ∷ skipped mcs
  ]

  -- The first entry of the default model that cannot be made: its error.
  abbrev pub default_failure : List ModelConfig → Option Error
  default_failure [] = none
  default_failure (mc ∷ mcs) = elim (create mc) [
    | ok m ↦ default_failure mcs
    | err e ↦
        let rest = default_failure mcs in
        if mc.name == default_name
        then some (wrapf "creating default model %q: %w" (str mc.name ∷ []) e)
        else rest
  ]

  -- The registry's models once those that can be made are in it.
  added : Dict L → List ModelConfig → Dict L
  added models [] = models
  added models (mc ∷ mcs) = elim (create mc) [
    | ok m ↦ added (insert mc.name m models) mcs
    | err e ↦ added models mcs
  ]

  fill-added :
      (models : Dict L) (warnings : List Warning) (mcs : List ModelConfig)
      → fill create default_name models warnings mcs ≡ elim (default_failure mcs) [
        | some e ↦ err e
        | none ↦ ok (added models mcs, warnings ++ skipped mcs)
      ]
  unfolding fill added
  fill-added models warnings [] = ground (arith, append-nil warnings)
  fill-added models warnings (mc ∷ mcs) = elim (Result-cases (create mc)) [
    | inl (m, made) ↦ ground (arith, made, fill-added (insert mc.name m models) warnings mcs)
    | inr (e, failed) ↦
        let w : Warning = record { model = mc.name; cause = e } in
        ground (
          arith,
          failed,
          fill-added models (warnings ++ w ∷ []) mcs,
          append_assoc warnings (w ∷ []) (skipped mcs),
        )
  ]

  lookup-added :
      (models : Dict L) (mcs : List ModelConfig) (name : String)
      → lookup name (added models mcs) ≡ last_made (lookup name models) name mcs
  unfolding added
  lookup-added models [] name = refl
  lookup-added models (mc ∷ mcs) name = elim (Result-cases (create mc)) [
    | inl (m, made) ↦ ground (
      arith,
      made,
      lookup-added (insert mc.name m models) mcs name,
      ap (λ found. last_made found name mcs) (lookup-insert mc.name name m models),
    )
    | inr (e, failed) ↦ ground (arith, failed, lookup-added models mcs name)
  ]

  made_registry :
      (mcs : List ModelConfig) (r : ModelRegistry L) (warnings : List Warning)
      → new_model_registry create default_name mcs ≡ ok (r, warnings)
      → (default_failure mcs ≡ none)
        × (r.models ≡ added [] mcs)
        × (warnings ≡ skipped mcs)
        × (r.default_name ≡ default_name)
  unfolding new_model_registry
  made_registry mcs r warnings h = ground (arith, fill-added [] [] mcs)

  -- What a registry and its warnings have to do with the entries.
  pub record IsComplete (mcs : List ModelConfig) (r : ModelRegistry L) (warnings : List Warning)
      : Type 0 where
    pub made : (name : String) → get r name ≡ last_made none name mcs
    pub warned : warnings ≡ skipped mcs
    pub default_fine : default_failure mcs ≡ none

  -- A registry that was made has, under each name, the last model of that name that could be made; the
  -- warnings are those of the entries that could not be made, in their order; and no entry of the
  -- default model failed.
  pub new_model_registry-IsComplete :
      (mcs : List ModelConfig) (r : ModelRegistry L) (warnings : List Warning)
      → new_model_registry create default_name mcs ≡ ok (r, warnings)
      → IsComplete mcs r warnings
  unfolding new_model_registry get lookup
  new_model_registry-IsComplete mcs r warnings h =
      let (fine, models, warned, name) = made_registry mcs r warnings h in
      record {
        made = λ name. ap (λ d. lookup name d) models ∙ lookup-added [] mcs name;
        warned = warned;
        default_fine = fine;
      }

  -- Making a registry fails exactly if an entry of the default model fails: with the first such error.
  pub new_model_registry-eq-err_iff :
      (mcs : List ModelConfig) (e : Error)
      → (new_model_registry create default_name mcs ≡ err e) ↔ (default_failure mcs ≡ some e)
  unfolding new_model_registry
  new_model_registry-eq-err_iff mcs e = ground (arith, fill-added [] [] mcs)

  -- An entry of the default model in the list.
  abbrev pub has_default : List ModelConfig → Bool
  has_default [] = false
  has_default (mc ∷ mcs) = if mc.name == default_name then true else has_default mcs

  last_made-some :
      (m : L) (mcs : List ModelConfig)
      → default_failure mcs ≡ none
      → last_made (some m) default_name mcs ≢ none
  last_made-some m [] h = ground arith
  last_made-some m (mc ∷ mcs) h = elim (Result-cases (create mc)) [
    | inl (n, made) ↦ ground (arith, made, last_made-some m mcs, last_made-some n mcs)
    | inr (e, failed) ↦ ground (arith, failed, last_made-some m mcs)
  ]

  last_made-default :
      (mcs : List ModelConfig)
      → default_failure mcs ≡ none
      → has_default mcs ≡ true
      → last_made none default_name mcs ≢ none
  last_made-default [] h has = cc
  last_made-default (mc ∷ mcs) h has = elim (Result-cases (create mc)) [
    | inl (m, made) ↦ ground (arith, made, last_made-default mcs, last_made-some m mcs)
    | inr (e, failed) ↦ ground (arith, failed, last_made-default mcs)
  ]

  -- If the Agentfile has an entry for its default model, a registry that was made has a default model.
  pub default_model_available :
      (mcs : List ModelConfig) (r : ModelRegistry L) (warnings : List Warning)
      → has_default mcs ≡ true
      → new_model_registry create default_name mcs ≡ ok (r, warnings)
      → (e : Error) → default_model r ≢ err e
  unfolding default_model new_model_registry get lookup
  default_model_available mcs r warnings has h e =
      let (fine, models, warned, name) = made_registry mcs r warnings h in
      ground (
        arith,
        ap (λ n. lookup n r.models) name,
        ap (λ d. lookup default_name d) models,
        lookup-added [] mcs default_name,
        last_made-default mcs fine has,
      )
