-- ===== src/Models/Names.antt =====
-- `splitProviderModel` of internal/runtime/models.go.
use Prim.Native.Char.{code}
use crated.Prelude.{Bool, false, ◌||◌, String, none, some, eqb, ◌≡◌, refl, arith}
use crated.Prelude.Text.{◌<>◌}
use text.Mathlib.TextLemmas.{nil-append, cons-append}
use crated.Models.{cut, split_provider_model}

abbrev pub has_slash : String → Bool
has_slash String.[] = false
has_slash (String.◌∷◌ c s) = eqb (code c) b'/' || has_slash s

cut-append : (p m : String) → has_slash p ≡ false → cut (p <> ("/" <> m)) ≡ some (p, m)
unfolding cut
cut-append String.[] m h = rw nil-append (rw cons-append (rw nil-append))
cut-append (String.◌∷◌ c p) m h = rw cons-append (ground (arith, cut-append p m))

cut-none : (q : String) → has_slash q ≡ false → cut q ≡ none
unfolding cut
cut-none String.[] h = refl
cut-none (String.◌∷◌ c s) h = ground (arith, cut-none s)

-- A qualified name comes apart at its first slash: the model's part may have slashes of its own. A
-- name without a slash has no provider, and all of it is the model's.
pub split_provider_model_parts :
    (p m : String)
    → has_slash p ≡ false
    → (split_provider_model (p <> ("/" <> m)) ≡ (p, m)) × (split_provider_model p ≡ ("", p))
unfolding split_provider_model
split_provider_model_parts p m h = (ground (arith, cut-append p m h), ground (arith, cut-none p h))
