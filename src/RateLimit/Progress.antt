-- ===== src/RateLimit/Progress.antt =====
-- That a goroutine of internal/ratelimit/limiter.go which has a slot waits for no other.
use crated.Prelude.{
  increment64, decrement64, ℕ, ◌+◌, ◌-◌, ◌^◌, ◌<◌, List, [], ◌∷◌, some, ◌≡◌, arith, ℤ, get_elem?,
}
use crated.RateLimit.{
  Limiter, effective, Phase, idle, sent, counted, holding, leaving, Action, count_active,
  count_total, uncount, receive, act,
}
use crated.RateLimit.Interleaving.{System, Reach, start, slots, le-tally, start-Inv, Reach-Inv}
use crated.RateLimit.Sequential.{run}

-- What a goroutine has still to do in Acquire and Release.
abbrev pub remaining : Phase → List Action
remaining sent = count_active ∷ count_total ∷ uncount ∷ receive ∷ []
remaining counted = count_total ∷ uncount ∷ receive ∷ []
remaining holding = uncount ∷ receive ∷ []
remaining leaving = receive ∷ []
remaining _ = []

abbrev RunsOut : Phase → Limiter → Type 0
RunsOut p l = (m : Limiter) × (run (remaining p) p l ≡ some (idle, m)) × (m.sem + 1 ≡ l.sem)

leaving-RunsOut : (l : Limiter) → 0 < l.sem → RunsOut leaving l
unfolding run act
leaving-RunsOut l k = (record l { sem = l.sem - 1 }, ground arith, omega arith)

holding-RunsOut : (l : Limiter) → 0 < l.sem → RunsOut holding l
unfolding run act
holding-RunsOut l k = leaving-RunsOut (record l { active = decrement64 l.active }) k

counted-RunsOut : (l : Limiter) → 0 < l.sem → RunsOut counted l
unfolding run act
counted-RunsOut l k = holding-RunsOut (record l { total = increment64 l.total }) k

sent-RunsOut : (l : Limiter) → 0 < l.sem → RunsOut sent l
unfolding run act
sent-RunsOut l k = counted-RunsOut (record l { active = increment64 l.active }) k

run_out : (p : Phase) (l : Limiter) → slots p ≡ 1 → 0 < l.sem → RunsOut p l
run_out sent l h k = sent-RunsOut l k
run_out counted l h k = counted-RunsOut l k
run_out holding l h k = holding-RunsOut l k
run_out leaving l h k = leaving-RunsOut l k
run_out _ l h k = absurd (omega arith)

-- In any state that can be reached, wherever the others stand, a goroutine that has a slot can do
-- all that is left to it, up to the end of Release, with no operation of another goroutine in
-- between, and it gives back the slot: none of its operations blocks, and Release never waits for
-- another goroutine. The capacity is below 2 ^ 63.
pub inside_completes :
    (n : ℤ) (k : ℕ) {s : System} (i : ℕ) (p : Phase)
    → effective n < 2 ^ 63
    → Reach (start n k) s
    → get_elem? s.threads i ≡ some p
    → slots p ≡ 1
    → (m : Limiter) × (run (remaining p) p s.limiter ≡ some (idle, m)) × (m.sem + 1 ≡ s.limiter.sem)
inside_completes n k {s} i p h r at inside =
    let v = Reach-Inv (start-Inv n k h) r in
    run_out p s.limiter inside (omega (arith, le-tally slots s.threads i p at, v.sem_is))
