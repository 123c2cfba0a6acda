-- ===== src/Playground/Origins.antt =====
-- Which origins the upgrader of internal/frontend/playground/playground.go accepts.
use Prim.Native.Char.{Char, code}
use crated.Prelude.{
  Bool, true, false, ◌||◌, String, List, [], ◌∷◌, eqb, eq_iff, ◌≡◌, ◌≢◌, refl, sym, ap, ◌∙◌, arith,
  ◌↔◌, ◌⊎◌, All,
}
use crated.Prelude.Text.{◌<>◌, join, append-ne-nil}
use text.Mathlib.TextLemmas.{nil-append, cons-append, append_assoc, append-nil}
use crated.Playground.{
  trim, split_comma, split_from, trimmed_parts, split_origins, listed, allowed, check_origin,
}

abbrev pub has_comma : String → Bool
has_comma String.[] = false
has_comma (String.◌∷◌ c s) = eqb (code c) b',' || has_comma s

-- An origin as it stands in a list: not empty, with no blank at its ends and no comma in it.
pub record IsOrigin (o : String) : Type 0 where
  pub trimmed : trim o ≡ o
  pub no_comma : has_comma o ≡ false
  pub not_empty : o ≢ ""

append_char :
    (part : String) (c : Char) (s : String)
    → (part <> String.◌∷◌ c "") <> s ≡ part <> String.◌∷◌ c s
append_char part c s =
    append_assoc part (String.◌∷◌ c "") s
    ∙ ap (λ t. part <> t) (cons-append c "" s ∙ ap (String.◌∷◌ c) (nil-append s))

split_from-last : (part o : String) → has_comma o ≡ false → split_from part o ≡ (part <> o) ∷ []
unfolding split_from
split_from-last part String.[] h = ap (λ p. p ∷ []) (sym (append-nil part))
split_from-last part (String.◌∷◌ c s) h =
    ground (arith, split_from-last (part <> String.◌∷◌ c "") s, append_char part c s)

split_from-append :
    (part o s : String)
    → has_comma o ≡ false
    → split_from part (o <> ("," <> s)) ≡ (part <> o) ∷ split_from "" s
unfolding split_from
split_from-append part String.[] s h =
    rw nil-append
      (rw cons-append (rw nil-append (ap (λ p. p ∷ split_from "" s) (sym (append-nil part)))))
split_from-append part (String.◌∷◌ c o) s h =
    rw cons-append
      (ground (arith, split_from-append (part <> String.◌∷◌ c "") o s, append_char part c o))

split_comma-join :
    (o : String) (os : List String)
    → All IsOrigin (o ∷ os)
    → split_comma (join (o ∷ os) ",") ≡ o ∷ os
unfolding join split_comma
split_comma-join o [] (h, k) = ground (arith, split_from-last "" o h.no_comma, nil-append o)
split_comma-join o (p ∷ os) (h, k) = ground (
  arith,
  split_from-append "" o (join (p ∷ os) ",") h.no_comma,
  split_comma-join p os k,
  nil-append o,
)

trimmed_parts-origins : (os : List String) → All IsOrigin os → trimmed_parts os ≡ os
unfolding trimmed_parts
trimmed_parts-origins [] h = refl
trimmed_parts-origins (o ∷ os) (h, k) =
    ground (arith, h.trimmed, h.not_empty, eq_iff o "", trimmed_parts-origins os k)

abbrev pub IsIn : String → List String → Type 0
IsIn o [] = ⊥
IsIn o (p ∷ os) = (o ≡ p) ⊎ IsIn o os

listed_iff : (o : String) (os : List String) → (listed o os ≡ true) ↔ IsIn o os
unfolding listed
listed_iff o [] = ground arith
listed_iff o (p ∷ os) = ground (arith, listed_iff o os, eq_iff p o)

join-ne-nil : (o : String) (os : List String) → All IsOrigin (o ∷ os) → join (o ∷ os) "," ≢ ""
unfolding join
join-ne-nil o [] (h, k) = h.not_empty
join-ne-nil o (p ∷ os) (h, k) = append-ne-nil o _ h.not_empty

-- With ALLOWED_ORIGINS set to a list of origins, with commas between, exactly those are accepted, and
-- requests without an origin; the port has no say.
pub check_origin-join_iff :
    (o : String) (os : List String) (port origin : String)
    → All IsOrigin (o ∷ os)
    → (check_origin (join (o ∷ os) ",") port origin ≡ true) ↔ ((origin ≡ "") ⊎ IsIn origin (o ∷ os))
unfolding check_origin allowed split_origins
check_origin-join_iff o os port origin h = ground (
  arith,
  eq_iff origin "",
  eq_iff (join (o ∷ os) ",") "",
  join-ne-nil o os h,
  split_comma-join o os h,
  trimmed_parts-origins (o ∷ os) h,
  listed_iff origin (o ∷ os),
)

-- Without it, only the playground's own two origins are accepted, and requests without an origin.
pub check_origin_dev_iff :
    (port origin : String)
    → (check_origin "" port origin ≡ true) ↔ (
        (origin ≡ "")
        ⊎ (origin ≡ "http://localhost:" <> port)
        ⊎ (origin ≡ "http://127.0.0.1:" <> port))
unfolding check_origin allowed listed
check_origin_dev_iff port origin = ground (
  arith,
  eq_iff origin "",
  eq_iff ("http://localhost:" <> port) origin,
  eq_iff ("http://127.0.0.1:" <> port) origin,
)
