-- ===== src/Command/Signals.antt =====
-- The goroutine of `run` in cmd/crated/main.go that waits for an interrupt, over a channel that holds
-- one signal.
use crated.Prelude.{
  ℕ, ◌+◌, ◌≤◌, Bool, true, false, List, [], ◌∷◌, Option, none, some, leb, if◌then◌else◌, ◌≡◌, refl,
  arith, inl, inr, Option-cases,
}

-- Before the first receive, between it and the second, and behind os.Exit(1).
pub data Phase : Type 0 where
  waiting stopping exited : Phase

-- `buffered`: the channel has a signal.
pub record Handler : Type 0 where
  pub buffered : Bool
  pub phase : Phase
  pub canceled : Bool

unfoldable pub start : Handler
start = record { buffered = false; phase = waiting; canceled = false }

-- signal.Notify drops a signal for which the channel has no room; a receive takes the one it has.
pub data Event : Type 0 where
  arrives received : Event

-- The statements behind a receive.
abbrev pub on_receive : Phase → Handler → Option Handler
on_receive waiting h = some (record h { buffered = false; phase = stopping; canceled = true })
on_receive stopping h = some (record h { buffered = false; phase = exited })
on_receive exited h = none

-- `none`: this cannot happen, the receive blocks or there is no process any more.
unfoldable pub step : Event → Handler → Option Handler
step arrives h = elim h.phase [ exited ↦ none | other ↦ some (record h { buffered = true }) ]
step received h = if h.buffered then on_receive h.phase h else none

unfoldable pub steps : List Event → Handler → Option Handler
steps [] h = some h
steps (e ∷ es) h = elim (step e h) [ none ↦ none | some h' ↦ steps es h' ]

-- The signals that have arrived.
abbrev pub arrivals : List Event → ℕ
arrivals [] = 0
arrivals (arrives ∷ es) = arrivals es + 1
arrivals (received ∷ es) = arrivals es

-- The signals that a phase has taken.
abbrev pub taken : Phase → ℕ
taken waiting = 0
taken stopping = 1
taken exited = 2

abbrev pub count : Handler → ℕ
count h = taken h.phase + (if h.buffered then 1 else 0)

abbrev pub receives : List Event → ℕ
receives [] = 0
receives (arrives ∷ es) = receives es
receives (received ∷ es) = receives es + 1

abbrev IsCanceled : Handler → Type 0
IsCanceled h = h.canceled ≡ leb 1 (taken h.phase)

step-count :
    (e : Event) (es : List Event) (h h' : Handler)
    → step e h ≡ some h'
    → (count h' + arrivals es ≤ count h + arrivals (e ∷ es))
      × (taken h'.phase + receives es ≡ taken h.phase + receives (e ∷ es))
unfolding step
step-count arrives es h h' k = ground arith
step-count received es h h' k = ground arith

step-IsCanceled : (e : Event) (h h' : Handler) → IsCanceled h → step e h ≡ some h' → IsCanceled h'
unfolding step
step-IsCanceled arrives h h' c k = ground arith
step-IsCanceled received h h' c k = ground arith

steps-count :
    (es : List Event) (h h' : Handler)
    → IsCanceled h
    → steps es h ≡ some h'
    → (count h' ≤ count h + arrivals es)
      × (taken h'.phase ≡ taken h.phase + receives es)
      × IsCanceled h'
unfolding steps
steps-count [] h h' c k = (ground arith, ground arith, ground arith)
steps-count (e ∷ es) h h' c k = elim (Option-cases (step e h)) [
  | inl blocked ↦ absurd (ground (arith, blocked))
  | inr (next, done) ↦
      let (bound, phase, canceled) =
        steps-count es next h' (step-IsCanceled e h next c done) (ground (arith, done)) in
      (
        omega (arith, bound, step-count e es h next done),
        omega (arith, phase, step-count e es h next done),
        canceled,
      )
]

-- Whatever the order of the signals and the receives: the context is canceled from the first receive
-- on, and the second ends the process, so it takes two signals, at least, to force the exit.
pub forced_exit :
    (es : List Event) (h : Handler)
    → steps es start ≡ some h
    → (taken h.phase ≡ receives es)
      × (taken h.phase ≤ arrivals es)
      × (h.canceled ≡ leb 1 (receives es))
unfolding start
forced_exit es h k =
    let (bound, phase, canceled) = steps-count es start h refl k in
    (omega (arith, phase), ground (arith, bound), ground (arith, phase, canceled))
