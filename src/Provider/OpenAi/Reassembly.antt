-- ===== src/Provider/OpenAi/Reassembly.antt =====
-- How the fragments of tool calls that a stream interleaves come together again in
-- `generateStreaming` of internal/runtime/providers/openai/openai.go.
use crated.Prelude.{
  ℕ, zero, suc, ◌-◌, ◌<◌, Bool, false, String, List, [], ◌∷◌, ◌++◌, Option, none, some,
  if◌then◌else◌, eqb, ◌≡◌, ◌≢◌, refl, sym, ap, ◌∙◌, arith, ℤ, pos, negsuc, All, length, get_elem?,
  modify, replicate, is_negative, length-replicate, length-append, Option-cases, Sign-cases, inl,
  inr, ◌↔◌,
}
use crated.Prelude.Text.{◌<>◌}
use text.Mathlib.TextLemmas.{nil-append, append_assoc, append-nil}
use crated.Provider.OpenAi.{StreamToolCall}
use crated.Provider.OpenAi.Stream.{
  ToolCallAccumulator, blank_call, merge, extend, accumulate, accumulate_all,
}

abbrev pub or_blank : Option ToolCallAccumulator → ToolCallAccumulator
or_blank none = blank_call
or_blank (some call) = call

-- The tool call at an index, blank where there is none yet.
abbrev pub call_at : List ToolCallAccumulator → ℕ → ToolCallAccumulator
call_at calls i = or_blank (get_elem? calls i)

abbrev pub is_at : ℕ → ℤ → Bool
is_at i (pos j) = eqb i j
is_at i (negsuc j) = false

-- All fragments with the index `i`, merged in order.
abbrev pub merged : ℕ → List StreamToolCall → ToolCallAccumulator → ToolCallAccumulator
merged i [] call = call
merged i (tc ∷ tcs) call = merged i tcs (if is_at i tc.index then merge tc call else call)

call_at-blanks : (n i : ℕ) → call_at (replicate n blank_call) i ≡ blank_call
call_at-blanks zero i = refl
call_at-blanks (suc n) zero = refl
call_at-blanks (suc n) (suc i) = call_at-blanks n i

call_at-append :
    (calls : List ToolCallAccumulator) (n i : ℕ)
    → call_at (calls ++ replicate n blank_call) i ≡ call_at calls i
call_at-append [] n i = call_at-blanks n i
call_at-append (c ∷ calls) n zero = refl
call_at-append (c ∷ calls) n (suc i) = call_at-append calls n i

call_at-modify :
    (calls : List ToolCallAccumulator) (j i : ℕ) (f : ToolCallAccumulator → ToolCallAccumulator)
    → j < length calls
    → call_at (modify calls j f) i ≡ (if eqb i j then f (call_at calls i) else call_at calls i)
call_at-modify [] j i f h = absurd (omega arith)
call_at-modify (c ∷ calls) zero zero f h = refl
call_at-modify (c ∷ calls) zero (suc i) f h = ground arith
call_at-modify (c ∷ calls) (suc j) zero f h = ground arith
call_at-modify (c ∷ calls) (suc j) (suc i) f h = ground (arith, call_at-modify calls j i f)

lt-extend : (calls : List ToolCallAccumulator) (j : ℕ) → j < length (extend calls j)
lt-extend calls j = omega (
  arith,
  length-append calls (replicate (suc j - length calls) blank_call),
  length-replicate (suc j - length calls) blank_call,
)

call_at-accumulate :
    (calls calls' : List ToolCallAccumulator) (tc : StreamToolCall) (j : ℤ) (i : ℕ)
    → accumulate calls tc j ≡ some calls'
    → call_at calls' i ≡ (if is_at i j then merge tc (call_at calls i) else call_at calls i)
call_at-accumulate calls calls' tc (negsuc j) i h = cc
call_at-accumulate calls calls' tc (pos j) i h = ground (
  arith,
  call_at-modify (extend calls j) j i (merge tc) (lt-extend calls j),
  call_at-append calls (suc j - length calls) i,
)

-- However a stream interleaves the fragments of its tool calls, the call at each index is made of
-- the fragments with that index alone, in their order.
pub call_at-accumulate_all :
    (calls calls' : List ToolCallAccumulator) (tcs : List StreamToolCall) (i : ℕ)
    → accumulate_all calls tcs ≡ some calls'
    → call_at calls' i ≡ merged i tcs (call_at calls i)
unfolding accumulate_all
call_at-accumulate_all calls calls' [] i h = ground arith
call_at-accumulate_all calls calls' (tc ∷ tcs) i h =
    elim (Option-cases (accumulate calls tc tc.index)) [
      | inl failed ↦ absurd (ground arith)
      | inr (next, e) ↦
          call_at-accumulate_all next calls' tcs i (ground arith)
          ∙ ap (merged i tcs) (call_at-accumulate calls next tc tc.index i e)
    ]

-- The fragments of arguments with the index `i`.
abbrev pub fragments : ℕ → List StreamToolCall → String
fragments i [] = ""
fragments i (tc ∷ tcs) =
    if is_at i tc.index then tc.function.arguments <> fragments i tcs else fragments i tcs

merged-fragments :
    (i : ℕ) (tcs : List StreamToolCall) (call : ToolCallAccumulator)
    → (merged i tcs call).arguments ≡ call.arguments <> fragments i tcs
merged-fragments i [] call = sym (append-nil call.arguments)
merged-fragments i (tc ∷ tcs) call = ground (
  arith,
  merged-fragments i tcs (merge tc call),
  merged-fragments i tcs call,
  append_assoc call.arguments tc.function.arguments (fragments i tcs),
)

-- The arguments of the tool call at an index are its fragments, joined in the order of the stream.
pub arguments-accumulate_all :
    (calls : List ToolCallAccumulator) (tcs : List StreamToolCall) (i : ℕ)
    → accumulate_all [] tcs ≡ some calls
    → (call_at calls i).arguments ≡ fragments i tcs
arguments-accumulate_all calls tcs i h =
    ap (λ c. c.arguments) (call_at-accumulate_all [] calls tcs i h)
    ∙ merged-fragments i tcs blank_call
    ∙ nil-append (fragments i tcs)

abbrev pub HasIndex : StreamToolCall → Type 0
HasIndex tc = is_negative tc.index ≡ false

accumulate_all-some :
    (calls : List ToolCallAccumulator) (tcs : List StreamToolCall)
    → All HasIndex tcs
    → accumulate_all calls tcs ≢ none
unfolding accumulate_all
accumulate_all-some calls [] _ = ground arith
accumulate_all-some calls (tc ∷ tcs) (h, hs) = elim (Sign-cases tc.index) [
  | inl (j, e) ↦ rw e (accumulate_all-some (modify (extend calls j) j (merge tc)) tcs hs)
  | inr (j, e) ↦ absurd (ground arith)
]

accumulate_all-HasIndex :
    (calls : List ToolCallAccumulator) (tcs : List StreamToolCall)
    → accumulate_all calls tcs ≢ none
    → All HasIndex tcs
unfolding accumulate_all
accumulate_all-HasIndex calls [] _ = tt
accumulate_all-HasIndex calls (tc ∷ tcs) h = elim (Sign-cases tc.index) [
  | inl (j, e) ↦
      (rw e, accumulate_all-HasIndex (modify (extend calls j) j (merge tc)) tcs (λ p. h (rw e p)))
  | inr (j, e) ↦ absurd (h (rw e))
]

-- The deltas of a chunk make the code panic exactly if one of them has a negative index.
pub accumulate_all-ne-none_iff :
    (calls : List ToolCallAccumulator) (tcs : List StreamToolCall)
    → (accumulate_all calls tcs ≢ none) ↔ All HasIndex tcs
accumulate_all-ne-none_iff calls tcs =
    (accumulate_all-HasIndex calls tcs, accumulate_all-some calls tcs)
