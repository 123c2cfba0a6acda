-- ===== src/Playground/Port.antt =====
-- The port of internal/frontend/playground/playground.go: PLAYGROUND_PORT as strconv.Atoi reads it.
use Prim.Native.Char.{Char, code}
use native.Mathlib.Nat.{pow-suc, add-mul, mul_assoc}
use crated.Prelude.{
  ℕ, zero, suc, ◌+◌, ◌-◌, ◌*◌, ◌^◌, Bool, true, false, ◌&&◌, String, List, [], ◌∷◌, Option, none,
  some, ℤ, pos, negsuc, ltb, leb, eqb, length, if◌then◌else◌, ◌==◌, ◌≡◌, refl, arith, inl, inr,
  Option-cases, Bool-cases, ap, ◌∙◌,
}
use crated.Prelude.Text.{after_prefix}

abbrev pub is_digit : ℕ → Bool
is_digit c = leb b'0' c && leb c b'9'

-- The loop of Atoi over the digits.
unfoldable pub digits_from : ℕ → String → Option ℕ
digits_from n String.[] = some n
digits_from n (String.◌∷◌ c s) =
    let rest = digits_from (n * 10 + (code c - b'0')) s in if is_digit (code c) then rest else none

-- The digits behind the sign; there must be one.
abbrev pub magnitude : String → Option ℕ
magnitude String.[] = none
magnitude (String.◌∷◌ c s) = digits_from 0 (String.◌∷◌ c s)

-- An int has 64 bits.
abbrev pub positive : Option ℕ → Option ℤ
positive none = none
positive (some n) = if ltb n (2 ^ 63) then some (pos n) else none

abbrev pub negative : Option ℕ → Option ℤ
negative none = none
negative (some zero) = some (pos 0)
negative (some (suc n)) = if ltb n (2 ^ 63) then some (negsuc n) else none

-- strconv.Atoi
unfoldable pub atoi : String → Option ℤ
unfolding digits_from after_prefix
atoi s = elim (after_prefix "-" s) [
  | some rest ↦ negative (magnitude rest)
  | none ↦ elim (after_prefix "+" s) [
    | some rest ↦ positive (magnitude rest)
    | none ↦ positive (magnitude s)
  ]
]

-- `portNum`, if it is one that `Run` accepts.
abbrev pub in_range : ℤ → Option ℕ
in_range (pos n) = if leb 1 n && leb n 65535 then some n else none
in_range (negsuc n) = none

abbrev pub accepted : Option ℤ → Option ℕ
accepted none = none
accepted (some n) = in_range n

unfoldable pub port_number : String → Option ℕ
port_number port = accepted (atoi port)

-- `port`
unfoldable pub port_of : String → String
port_of env = if env == "" then "3000" else env

-- The digits of a text that has nothing else.
abbrev pub digits? : String → Option (List ℕ)
digits? String.[] = some []
digits? (String.◌∷◌ c s) =
    let rest = digits? s in
    if is_digit (code c)
    then elim rest [ none ↦ none | some ds ↦ some ((code c - b'0') ∷ ds) ]
    else none

-- Their value, the last digit counting one, the one before it ten, and so on.
abbrev pub value : List ℕ → ℕ
value [] = 0
value (d ∷ ds) = d * 10 ^ length ds + value ds

-- The text without a sign of plus.
abbrev pub unsigned : String → String
unsigned s = elim (after_prefix "+" s) [ none ↦ s | some rest ↦ rest ]

horner : (n d k : ℕ) → (n * 10 + d) * 10 ^ k ≡ n * 10 ^ suc k + d * 10 ^ k
horner n d k = grind (arith, pow-suc 10 k, add-mul (n * 10) d (10 ^ k), mul_assoc n 10 (10 ^ k))

digits_from-value :
    (n : ℕ) (s : String)
    → digits_from n s
      ≡ elim (digits? s) [ none ↦ none | some ds ↦ some (n * 10 ^ length ds + value ds) ]
unfolding digits_from
digits_from-value n String.[] = ground arith
digits_from-value n (String.◌∷◌ c s) = elim (Option-cases (digits? s)) [
  | inl other ↦ ground (arith, other, digits_from-value (n * 10 + (code c - b'0')) s)
  | inr (ds, given) ↦ ground (
    arith,
    given,
    digits_from-value (n * 10 + (code c - b'0')) s,
    horner n (code c - b'0') (length ds),
  )
]

-- What the digits of a text make of it, if it has any.
abbrev pub number : Option (List ℕ) → Option ℕ
number none = none
number (some []) = none
number (some (d ∷ ds)) = some (value (d ∷ ds))

magnitude-number : (s : String) → magnitude s ≡ number (digits? s)
magnitude-number String.[] = refl
magnitude-number (String.◌∷◌ c s) = elim (Option-cases (digits? s)) [
  | inl other ↦ ground (arith, other, digits_from-value 0 (String.◌∷◌ c s))
  | inr (ds, given) ↦ ground (arith, given, digits_from-value 0 (String.◌∷◌ c s))
]

abbrev pub between : Option ℕ → Option ℕ
between none = none
between (some n) = if leb 1 n && leb n 65535 then some n else none

accepted-positive : (o : Option ℕ) → accepted (positive o) ≡ between o
accepted-positive none = refl
accepted-positive (some n) = ground arith

accepted-negative : (o : Option ℕ) → accepted (negative o) ≡ none
accepted-negative none = refl
accepted-negative (some zero) = refl
accepted-negative (some (suc n)) = ground arith

minus_no_plus : (c : Char) → eqb b'-' (code c) ≡ true → eqb b'+' (code c) ≡ false
minus_no_plus c h = ground arith

digits?-minus : (c : Char) (s : String) → eqb b'-' (code c) ≡ true → digits? (String.◌∷◌ c s) ≡ none
digits?-minus c s h = ground arith

atoi-cons :
    (c : Char) (s : String)
    → atoi (String.◌∷◌ c s) ≡ (
        if eqb b'-' (code c)
        then negative (magnitude s)
        else if eqb b'+' (code c)
        then positive (magnitude s)
        else positive (magnitude (String.◌∷◌ c s)))
unfolding atoi after_prefix
atoi-cons c s = ground arith

unsigned-cons :
    (c : Char) (s : String)
    → unsigned (String.◌∷◌ c s) ≡ (if eqb b'+' (code c) then s else String.◌∷◌ c s)
unfolding after_prefix
unsigned-cons c s = ground arith

-- The port is accepted exactly if the text is digits, at least one, behind at most one plus, and
-- their value lies between 1 and 65535; and then it is this value.
pub port_number-value :
    (port : String) → port_number port ≡ between (number (digits? (unsigned port)))
unfolding port_number atoi
port_number-value String.[] = refl
port_number-value (String.◌∷◌ c s) =
    rw (atoi-cons c s, unsigned-cons c s)
      (elim (Bool-cases (eqb b'-' (code c))) [
        | inl minus ↦
            rw (minus, minus_no_plus c minus, digits?-minus c s minus)
              (accepted-negative (magnitude s))
        | inr other ↦ elim (Bool-cases (eqb b'+' (code c))) [
          | inl plus ↦
              rw (other, plus) (accepted-positive (magnitude s) ∙ ap between (magnitude-number s))
          | inr bare ↦
              rw (other, bare)
                (accepted-positive (magnitude (String.◌∷◌ c s))
                  ∙ ap between (magnitude-number (String.◌∷◌ c s)))
        ]
      ])
