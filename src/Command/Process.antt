-- ===== src/Command/Process.antt =====
-- The process of cmd/crated/main.go as a whole: `run` on its way, and the goroutine that waits for an
-- interrupt beside it.
use crated.Prelude.{
  ℕ, ◌≤◌, ◌<◌, String, List, Option, none, some, Result, ltb, length, take, if◌then◌else◌, ◌≡◌, All,
}
use crated.Frontend.{Frontends, AgentBridge}
use crated.RuntimeCfg.{Config, Files}
use crated.Runtime.{Outside}
use crated.Command.Setup.{Flags, Machine}
use crated.Command.Run.{Session, Life, Report, run}
use crated.Command.Shutdown.{IsHonest, Settled}
use crated.Command.Signals.{
  Event, Phase, waiting, stopping, exited, start, steps, arrivals, receives,
}

-- On the way, behind os.Exit(1) and behind the return of `run`, with the states passed until then.
pub data Process (L T A R S : Type 0) : Type 0 where
  going killed : List (Life L T A) → Process L T A R S
  returned : Report L T A R S → Process L T A R S

module _ {L T A R S : Type 0} where
  -- The run with this report has passed `n` states, and the other goroutine is in this phase: the
  -- second receive is os.Exit(1), behind which nothing deferred runs.
  unfoldable pub at_phase : Phase → ℕ → Report L T A R S → Process L T A R S
  at_phase exited n r = killed (take n r.trace)
  at_phase waiting n r = if ltb n (length r.trace) then going (take n r.trace) else returned r
  at_phase stopping n r = if ltb n (length r.trace) then going (take n r.trace) else returned r

  abbrev pub passed : Process L T A R S → List (Life L T A)
  passed (going ls) = ls
  passed (killed ls) = ls
  passed (returned r) = r.trace

  -- How it stands with the process.
  abbrev pub Stands : Report L T A R S → List Event → ℕ → Process L T A R S → Type 0
  Stands r es n (going ls) = (receives es ≤ 1) × (n < length r.trace) × (ls ≡ take n r.trace)
  Stands r es n (killed ls) = (receives es ≡ 2) × (2 ≤ arrivals es) × (ls ≡ take n r.trace)
  Stands r es n (returned r') =
      (receives es ≤ 1) × (length r.trace ≤ n) × (r' ≡ r) × Settled r'.at_return

  pub record IsSafe (r : Report L T A R S) (es : List Event) (n : ℕ) (p : Process L T A R S)
      : Type 0 where
    pub honest : All IsHonest (passed p)
    pub stands : Stands r es n p

module _ {F L T A R S : Type 0} (machine : Machine) (outside : Config → Outside L T A)
    (new_runner : String → Option A → S → Result R) (in_memory : S) (name_of : F → String)
    (serve : F → AgentBridge R S → Session) (early : List (Result String)) where
  -- The process once `run` has passed `n` states and these signals and receives have been: a frontend
  -- that does not come back is a process that stays on the way. `none`: this cannot happen.
  unfoldable pub process :
      {Fs : Type 0}
      → Frontends F
      → Files Fs
      → Fs
      → Flags
      → List Event
      → ℕ
      → Option (Process L T A R S)
  process frontends files fs o es n = elim (steps es start) [
    | none ↦ none
    | some h ↦
        elim (run machine outside new_runner in_memory name_of serve early frontends files fs o) [
          | none ↦ none
          | some r ↦ some (at_phase h.phase n r)
        ]
  ]
