-- ===== src/Sse/Scanner.antt =====
-- bufio.Scanner as internal/sse/reader.go sets it up: lines up to '\n' without a final '\r', and
-- an error once a line does not fit the buffer of 1 MB.
use Prim.Native.Char.{Char, code}
use Prim.Native.String.{String, len}
use crated.Prelude.{
  ℕ, ◌*◌, List, [], ◌∷◌, Option, some, Error, foreign, ◌&&◌, ◌==◌, leb, eqb, if◌then◌else◌, map,
}

-- What a reader delivers: its text, and the error that it ends with (`none` is io.EOF).
pub record Stream : Type 0 where
  pub text : String
  pub failure : Option Error

abbrev pub max_line : ℕ
max_line = 1024 * 1024

cons_head : Char → List String → List String
cons_head c [] = String.◌∷◌ c "" ∷ []
cons_head c (l ∷ ls) = String.◌∷◌ c l ∷ ls

-- A last line that no '\n' ends counts if it is not empty.
unfoldable pub split_lines : String → List String
unfolding cons_head
split_lines String.[] = []
split_lines (String.◌∷◌ c s) =
    let rest = split_lines s in if eqb (code c) b'\n' then "" ∷ rest else cons_head c rest

unfoldable pub drop_cr : String → String
drop_cr String.[] = ""
drop_cr (String.◌∷◌ c s) =
    let rest = drop_cr s in if eqb (code c) b'\r' && s == "" then "" else String.◌∷◌ c rest

-- bufio.ErrTooLong
abbrev pub too_long : Error
too_long = foreign "bufio.Scanner: token too long"

-- The lines before the first that does not fit, and what stops the scanner.
unfoldable pub fitting : ℕ → List String → Option Error → List String × Option Error
fitting limit [] failure = ([], failure)
fitting limit (l ∷ ls) failure =
    let (kept, stop) = fitting limit ls failure in
    if leb limit (len l) then ([], some too_long) else (l ∷ kept, stop)

unfoldable pub scan : Stream → List String × Option Error
unfolding split_lines drop_cr fitting
scan r =
    let (lines, stop) = fitting max_line (split_lines r.text) r.failure in (map drop_cr lines, stop)
