-- ===== src/Prelude/Text.antt =====
-- The functions of Go's package strings that the source uses, over texts as code points.
use Prim.Native.Char.{Char, code}
use Prim.Native.String
use Prim.Native.String.{String}
use crated.Prelude.Tests.{leb, eqb, if◌then◌else◌, is_some}
use mathlib.Core.Path.{◌≡◌, refl, ap, ◌∙◌}
use mathlib.Core.Bool.{Bool, false, ◌&&◌, ◌||◌}
use mathlib.Core.Option.{Option, none, some}
use mathlib.Core.List.{List, [], ◌∷◌}
use native.Mathlib.Omega.{arith}
use mathlib.Core.Logic.{◌≢◌}
use text.Mathlib.Text.{◌==◌}
use text.Mathlib.TextEquality.{eq_iff}
use text.Mathlib.TextLemmas.{nil-append, cons-append, append-eq-nil_iff}

infixr 65 ◌<>◌
abbrev pub ◌<>◌ : String → String → String
s <> t = String.◌++◌ s t

-- unicode.IsSpace
unfoldable pub is_space : Char → Bool
is_space ch =
    let c = code ch in
    (leb 9 c && leb c 13)
    || eqb c 32
    || eqb c 0x85
    || eqb c 0xa0
    || eqb c 0x1680
    || (leb 0x2000 c && leb c 0x200a)
    || eqb c 0x2028
    || eqb c 0x2029
    || eqb c 0x202f
    || eqb c 0x205f
    || eqb c 0x3000

module _ (p : Char → Bool) where
  -- strings.TrimLeftFunc
  unfoldable pub trim_left : String → String
  trim_left String.[] = ""
  trim_left (String.◌∷◌ c s) = if p c then trim_left s else String.◌∷◌ c s

  -- strings.TrimRightFunc
  unfoldable pub trim_right : String → String
  trim_right String.[] = ""
  trim_right (String.◌∷◌ c s) =
      let rest = trim_right s in if p c && rest == "" then "" else String.◌∷◌ c rest

-- strings.TrimSpace
unfoldable pub trim_space : String → String
unfolding trim_left trim_right is_space
trim_space s = trim_right is_space (trim_left is_space s)

-- What follows `prefix` in `s`, if `s` begins with it.
unfoldable pub after_prefix : String → String → Option String
after_prefix String.[] s = some s
after_prefix (String.◌∷◌ c p) String.[] = none
after_prefix (String.◌∷◌ c p) (String.◌∷◌ d s) =
    if eqb (code c) (code d) then after_prefix p s else none

-- strings.HasPrefix(s, prefix)
abbrev pub has_prefix : String → String → Bool
has_prefix s prefix = is_some (after_prefix prefix s)

abbrev or_else {ℓ} : {A : Type ℓ} → Option A → A → A
or_else none d = d
or_else (some a) d = a

-- strings.TrimPrefix(s, prefix)
abbrev pub trim_prefix : String → String → String
trim_prefix s prefix = or_else (after_prefix prefix s) s

-- strings.Join
unfoldable pub join : List String → String → String
join [] sep = ""
join (x ∷ []) sep = x
join (x ∷ y ∷ ys) sep = x <> (sep <> join (y ∷ ys) sep)

-- No space at either end.
abbrev pub IsTrimmed : String → Type 0
IsTrimmed s = trim_space s ≡ s

pub after_prefix-append : (p s : String) → after_prefix p (p <> s) ≡ some s
unfolding after_prefix
after_prefix-append String.[] s = rw nil-append
after_prefix-append (String.◌∷◌ c p) s = rw cons-append (ground (arith, after_prefix-append p s))

module _ (p : Char → Bool) where
  trim_left_idem : (s : String) → trim_left p (trim_left p s) ≡ trim_left p s
  unfolding trim_left
  trim_left_idem String.[] = refl
  trim_left_idem (String.◌∷◌ c s) = ground (arith, trim_left_idem s)

  trim_right_idem : (s : String) → trim_right p (trim_right p s) ≡ trim_right p s
  unfolding trim_right
  trim_right_idem String.[] = refl
  trim_right_idem (String.◌∷◌ c s) = ground (arith, trim_right_idem s, eq_iff (trim_right p s) "")

  -- Trimming on the right uncovers no space on the left.
  trim_left-trim_right :
      (s : String) → trim_left p (trim_right p (trim_left p s)) ≡ trim_right p (trim_left p s)
  unfolding trim_left trim_right
  trim_left-trim_right String.[] = refl
  trim_left-trim_right (String.◌∷◌ c s) = ground (arith, trim_left-trim_right s)

pub trim_space-IsTrimmed : (s : String) → IsTrimmed (trim_space s)
unfolding trim_space
trim_space-IsTrimmed s =
    ap (trim_right is_space) (trim_left-trim_right is_space s)
    ∙ trim_right_idem is_space (trim_left is_space s)

pub trim_space_blank : (s : String) → trim_space (" " <> s) ≡ trim_space s
unfolding trim_space trim_left
trim_space_blank s = rw (cons-append, nil-append)

pub append-ne-nil : (s t : String) → s ≢ "" → s <> t ≢ ""
append-ne-nil s t h e = h ((append-eq-nil_iff.0 e).0)

pub eq-false_of_ne : (s t : String) → s ≢ t → (s == t) ≡ false
eq-false_of_ne s t h = ground (arith, eq_iff s t)
