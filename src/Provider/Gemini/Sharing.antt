-- ===== src/Provider/Gemini/Sharing.antt =====
-- GenerateContent of `configuredModel` in internal/runtime/providers/gemini/gemini.go with the
-- configurations as they lie in memory: the model's own, and those of the requests, by address.
use crated.Prelude.{
  ℕ, false, ◌&&◌, not, List, Option, none, some, is_some, eqb, get_elem?, modify,
  get_elem?-modify_here, get_elem?-modify_else, if◌then◌else◌, ◌≡◌, ◌∙◌, ap, arith,
}
use crated.Genai.{GenerateContentConfig}
use crated.Provider.Gemini.{merge}

abbrev pub Memory : Type 0
Memory = List GenerateContentConfig

-- The three assignments, each under its test of the model's own configuration and the request's.
abbrev pub fill_temperature : GenerateContentConfig → GenerateContentConfig → GenerateContentConfig
fill_temperature own given =
    if is_some own.temperature && not (is_some given.temperature)
    then record given { temperature = own.temperature }
    else given

abbrev pub fill_max_tokens : GenerateContentConfig → GenerateContentConfig → GenerateContentConfig
fill_max_tokens own given =
    if not (eqb own.max_output_tokens 0) && eqb given.max_output_tokens 0
    then record given { max_output_tokens = own.max_output_tokens }
    else given

abbrev pub fill_top_p : GenerateContentConfig → GenerateContentConfig → GenerateContentConfig
fill_top_p own given =
    if is_some own.top_p && not (is_some given.top_p)
    then record given { top_p = own.top_p }
    else given

-- An assignment to the configuration at `q`, by what the one at `p` has; `none` is a pointer that
-- leads nowhere.
abbrev pub assign :
    (GenerateContentConfig → GenerateContentConfig → GenerateContentConfig)
    → ℕ
    → ℕ
    → Memory
    → Option Memory
assign fill p q m = elim (get_elem? m p) [ none ↦ none | some own ↦ some (modify m q (fill own)) ]

infixl 5 ◌>>=◌
abbrev ◌>>=◌ : {A B : Type 0} → Option A → (A → Option B) → Option B
none >>= f = none
some a >>= f = f a

-- The request's configuration behind the merge, where `p` is the address of the model's own.
unfoldable pub share : ℕ → Option ℕ → Memory → Option (Memory × ℕ)
share p none m = some (m, p)
share p (some q) m = do
  m₁ ← assign fill_temperature p q m
  m₂ ← assign fill_max_tokens p q m₁
  m₃ ← assign fill_top_p p q m₂
  some (m₃, q)

fill_all :
    (own given : GenerateContentConfig)
    → fill_top_p own (fill_max_tokens own (fill_temperature own given)) ≡ merge own (some given)
unfolding merge
fill_all own given = ground arith

-- A request that has a configuration, other than the model's own, reaches the ADK's model with the
-- merged one, at the same address; every other configuration, the model's own too, stays as it is.
pub share-merge :
    (p q : ℕ) (m : Memory) (own given : GenerateContentConfig)
    → get_elem? m p ≡ some own
    → get_elem? m q ≡ some given
    → eqb p q ≡ false
    → (m' : Memory) × (share p (some q) m ≡ some (m', q))
      × (get_elem? m' q ≡ some (merge own (some given)))
      × ((other : ℕ) → eqb other q ≡ false → get_elem? m' other ≡ get_elem? m other)
unfolding share
share-merge p q m own given at_p at_q apart =
    let m₁ = modify m q (fill_temperature own) in
    let m₂ = modify m₁ q (fill_max_tokens own) in
    let p₁ = get_elem?-modify_else m q p (fill_temperature own) apart ∙ at_p in
    let p₂ = get_elem?-modify_else m₁ q p (fill_max_tokens own) apart ∙ p₁ in
    let q₁ = get_elem?-modify_here m q (fill_temperature own) given at_q in
    let q₂ = get_elem?-modify_here m₁ q (fill_max_tokens own) (fill_temperature own given) q₁ in
    (
      modify m₂ q (fill_top_p own),
      ground (arith, at_p, p₁, p₂),
      get_elem?-modify_here m₂ q (fill_top_p own) _ q₂ ∙ ap some (fill_all own given),
      λ other h.
          get_elem?-modify_else m₂ q other (fill_top_p own) h
          ∙ get_elem?-modify_else m₁ q other (fill_max_tokens own) h
          ∙ get_elem?-modify_else m q other (fill_temperature own) h,
    )

share-none : (p q : ℕ) (m m' : Memory) → share p none m ≡ some (m', q) → (m' ≡ m) × (q ≡ p)
unfolding share
share-none p q m m' h = (ground arith, ground arith)

eqb_swap : (a b : ℕ) → eqb a b ≡ false → eqb b a ≡ false
eqb_swap a b h = ground arith

-- A request without one is handed the model's own, not a copy: once something is written through this
-- request, the requests after it are merged with what was written, not with the Agentfile's tuning.
pub share_leaks :
    (p q r : ℕ) (m m' : Memory) (own given : GenerateContentConfig)
    (write : GenerateContentConfig → GenerateContentConfig)
    → get_elem? m p ≡ some own
    → get_elem? m r ≡ some given
    → eqb p r ≡ false
    → share p none m ≡ some (m', q)
    → (m'' : Memory) × (share p (some r) (modify m' q write) ≡ some (m'', r))
      × (get_elem? m'' r ≡ some (merge (write own) (some given)))
share_leaks p q r m m' own given write at_p at_r apart shared =
    let (same, here) = share-none p q m m' shared in
    let (m'', done, merged, _) =
      share-merge p r (modify m p write) (write own) given
        (get_elem?-modify_here m p write own at_p)
        (get_elem?-modify_else m p r write (eqb_swap p r apart) ∙ at_r) apart in
    (m'', rw (same, here) done, merged)
