-- ===== src/RateLimit/Interleaving.antt =====
-- Goroutines that use one limiter of internal/ratelimit/limiter.go, in any interleaving.
use crated.Prelude.{
  ℕ, zero, suc, ◌+◌, ◌^◌, ◌∙◌, sym, ap, ◌<◌, ◌≤◌, List, [], ◌∷◌, some, ◌≡◌, refl, arith, ℤ,
  int64_mod, get_elem?, modify, replicate, All,
}
use crated.RateLimit.{
  Limiter, new, effective, Phase, idle, sent, counted, holding, leaving, Action, call, act,
}

pub record System : Type 0 where
  pub limiter : Limiter
  pub threads : List Phase

-- One atomic operation of the thread `i`.
pub data Step (s : System) : System → Type 0 where
  acts :
      (i : ℕ) (a : Action) {p q : Phase} {l : Limiter}
      → get_elem? s.threads i ≡ some p
      → act a p s.limiter ≡ some (q, l)
      → Step s (record { limiter = l; threads = modify s.threads i (λ _. q) })

pub data Reach (s : System) : System → Type 0 where
  here : Reach s s
  next : {t u : System} → Reach s t → Step t u → Reach s u

-- `n` goroutines that have not called Acquire yet.
abbrev pub start : ℤ → ℕ → System
start n k = record { limiter = new n; threads = replicate k idle }

-- Which phases hold a slot of the channel, and which the active count includes.
abbrev pub slots : Phase → ℕ
slots sent = 1
slots counted = 1
slots holding = 1
slots leaving = 1
slots _ = 0

abbrev pub counts : Phase → ℕ
counts counted = 1
counts holding = 1
counts _ = 0

abbrev pub holds : Phase → ℕ
holds holding = 1
holds _ = 0

abbrev pub tally : (Phase → ℕ) → List Phase → ℕ
tally f [] = 0
tally f (p ∷ ps) = f p + tally f ps

pub record Inv (s : System) : Type 0 where
  pub sem_is : s.limiter.sem ≡ tally slots s.threads
  pub active_is : s.limiter.active ≡ tally counts s.threads
  pub within : s.limiter.sem ≤ s.limiter.capacity
  pub fits : s.limiter.capacity < 2 ^ 63

tally-modify :
    (f : Phase → ℕ) (ps : List Phase) (i : ℕ) (p q : Phase)
    → get_elem? ps i ≡ some p
    → tally f (modify ps i (λ _. q)) + f p ≡ tally f ps + f q
tally-modify f [] i p q h = cc
tally-modify f (x ∷ ps) zero p q h = ground arith
tally-modify f (x ∷ ps) (suc i) p q h = omega (arith, tally-modify f ps i p q h)

tally-le : (ps : List Phase) → tally counts ps ≤ tally slots ps
tally-le [] = omega arith
tally-le (p ∷ ps) = ground (arith, tally-le ps)

holds-le : (ps : List Phase) → tally holds ps ≤ tally counts ps
holds-le [] = omega arith
holds-le (p ∷ ps) = ground (arith, holds-le ps)

-- What one operation does to the numbers, in terms of the phases before and after it.
record Effect (p q : Phase) (l m : Limiter) : Type 0 where
  capacity_kept : m.capacity ≡ l.capacity
  sem_moved : m.sem + slots p ≡ l.sem + slots q
  sem_within : l.sem ≤ l.capacity → m.sem ≤ m.capacity
  active_moved :
      counts p ≤ l.active → l.active + 1 < int64_mod → m.active + counts p ≡ l.active + counts q

act-Effect : (a : Action) (p q : Phase) (l m : Limiter) → act a p l ≡ some (q, m) → Effect p q l m
unfolding act
act-Effect call idle q l m h = ground arith
act-Effect a p q l m h = ground arith

pub le-tally :
    (f : Phase → ℕ) (ps : List Phase) (i : ℕ) (p : Phase)
    → get_elem? ps i ≡ some p
    → f p ≤ tally f ps
le-tally f [] i p h = cc
le-tally f (x ∷ ps) zero p h = ground arith
le-tally f (x ∷ ps) (suc i) p h = omega (arith, le-tally f ps i p h)

Step-Inv : {s t : System} → Inv s → Step s t → Inv t
Step-Inv {s} v (acts i a {p} {q} {l} at done) =
    let e = act-Effect a p q s.limiter l done in
    record {
      sem_is = omega (arith, e.sem_moved, v.sem_is, tally-modify slots s.threads i p q at);
      active_is = omega (
        arith,
        e.active_moved (omega (arith, le-tally counts s.threads i p at))
            (omega (arith, tally-le s.threads)),
        tally-modify counts s.threads i p q at,
      );
      within = e.sem_within v.within;
      fits = omega (arith, e.capacity_kept);
    }

tally-start : (f : Phase → ℕ) (k : ℕ) → f idle ≡ 0 → tally f (replicate k idle) ≡ 0
tally-start f zero h = refl
tally-start f (suc k) h = omega (arith, tally-start f k h)

pub start-Inv : (n : ℤ) (k : ℕ) → effective n < 2 ^ 63 → Inv (start n k)
unfolding new
start-Inv n k h = record {
  sem_is = sym (tally-start slots k refl);
  active_is = sym (tally-start counts k refl);
  within = omega arith;
  fits = h;
}

pub Reach-Inv : {s t : System} → Inv s → Reach s t → Inv t
Reach-Inv v here = v
Reach-Inv v (next r st) = Step-Inv (Reach-Inv v r) st

pub Reach-capacity : {s t : System} → Reach s t → t.limiter.capacity ≡ s.limiter.capacity
Reach-capacity here = refl
Reach-capacity (next r (acts i a {p} {q} {l} at done)) =
    (act-Effect a p q _ l done).capacity_kept ∙ Reach-capacity r

-- In every interleaving of any number of goroutines, at most `New`'s number of them are between
-- Acquire and Release, and the statistics never report more active requests than that.
pub holding-le-capacity :
    (n : ℤ) (k : ℕ) {s : System}
    → effective n < 2 ^ 63
    → Reach (start n k) s
    → (tally holds s.threads ≤ effective n) × (s.limiter.active ≤ effective n)
unfolding new
holding-le-capacity n k {s} h r =
    let v = Reach-Inv (start-Inv n k h) r in
    let c = Reach-capacity r in
    (
      omega (arith, holds-le s.threads, tally-le s.threads, v.within, v.sem_is, v.active_is, c),
      omega (arith, tally-le s.threads, v.within, v.sem_is, v.active_is, c),
    )

everyone_idle :
    (f : Phase → ℕ) → f idle ≡ 0 → (ps : List Phase) → All (λ p. p ≡ idle) ps → tally f ps ≡ 0
everyone_idle f h [] _ = refl
everyone_idle f h (p ∷ ps) (e, es) = omega (arith, ap f e, everyone_idle f h ps es)

-- Once every goroutine is back outside, whatever was canceled on the way, all slots are free again
-- and no request counts as active.
pub idle_is_free :
    (n : ℤ) (k : ℕ) {s : System}
    → effective n < 2 ^ 63
    → Reach (start n k) s
    → All (λ p. p ≡ idle) s.threads
    → (s.limiter.sem ≡ 0) × (s.limiter.active ≡ 0)
idle_is_free n k {s} h r idles =
    let v = Reach-Inv (start-Inv n k h) r in
    (
      v.sem_is ∙ everyone_idle slots refl s.threads idles,
      v.active_is ∙ everyone_idle counts refl s.threads idles,
    )
