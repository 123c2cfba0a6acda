-- ===== src/Dict.antt =====
-- Go's maps with string keys, as association lists; the order in which a loop ranges over a map is
-- open, and a parameter where a result depends on it. Used for the registries of providers and
-- frontends, the models of internal/runtime/models.go and those of runtime.json.
use crated.Prelude.{
  String, List, [], ◌∷◌, ◌++◌, Option, none, some, if◌then◌else◌, ◌==◌, eq_iff, ◌≡◌, refl, arith,
}

abbrev pub Dict {ℓ} : Type ℓ → Type ℓ
Dict V = List (String × V)

module _ {ℓ} {V : Type ℓ} where
  -- m[key], with its `ok`
  unfoldable pub lookup : String → Dict V → Option V
  lookup key [] = none
  lookup key ((stored, value) ∷ rest) = if key == stored then some value else lookup key rest

  -- m[key] = value
  unfoldable pub insert : String → V → Dict V → Dict V
  insert key value [] = (key, value) ∷ []
  insert key value ((stored, old) ∷ rest) =
      let later = insert key value rest in
      if key == stored then (stored, value) ∷ rest else (stored, old) ∷ later

  -- The keys, as a loop over the map collects them.
  unfoldable pub keys : Dict V → List String
  keys [] = []
  keys ((k, v) ∷ m) = k ∷ keys m

  -- The key that was set has the value, and every other key what it had.
  pub lookup-insert :
      (key other : String) (value : V) (dict : Dict V)
      → lookup other (insert key value dict)
        ≡ (if key == other then some value else lookup other dict)
  unfolding insert lookup
  lookup-insert key other value [] = ground (arith, eq_iff key other, eq_iff other key)
  lookup-insert key other value ((stored, old) ∷ rest) =
      let ih = lookup-insert key other value rest in
      ground (ih, arith, eq_iff key stored, eq_iff other stored, eq_iff key other)

  pub keys-insert_fresh :
      (k : String) (v : V) (m : Dict V) → lookup k m ≡ none → keys (insert k v m) ≡ keys m ++ k ∷ []
  unfolding lookup insert keys
  keys-insert_fresh k v [] h = refl
  keys-insert_fresh k v ((j, w) ∷ m) h = ground (arith, keys-insert_fresh k v m)
