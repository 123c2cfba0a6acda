-- ===== src/Frontend/Turn.antt =====
-- What `Chat` of internal/frontend/frontend.go reports of a turn.
use crated.Prelude.{
  ℕ, ◌<◌, ◌+◌, ◌%◌, true, List, [], ◌∷◌, map, none, some, Result, ok, err, Yield, feed, int32_mod,
  inl, inr, Option-cases, ◌≡◌, refl, arith, ap, ◌∙◌,
}
use crated.Genai.{UsageMetadata}
use crated.Frontend.{Usage, Event, AdkEvent, no_usage, add_usage, event_of, on_item, chat}

-- The events of a turn: up to the first failure, of the runner's events that have content.
abbrev pub turn : Usage → List (Result AdkEvent) → List (Result Event)
unfolding event_of
turn total [] = []
turn total (err e ∷ items) = err e ∷ []
turn total (ok e ∷ items) = elim e.content [
  | none ↦ turn total items
  | some content ↦
      let total' = add_usage total e.usage_metadata in
      ok (event_of total' e content) ∷ turn total' items
]

module _ {S : Type 0} (yield : Yield S (Result Event)) where
  feed-turn :
      (items : List (Result AdkEvent)) (s : S) (total : Usage)
      → (feed (on_item yield) (s, total) items).0.0 ≡ (feed yield s (turn total items)).0
  unfolding feed on_item turn
  feed-turn [] s total = refl
  feed-turn (err e ∷ items) s total = ground arith
  feed-turn (ok e ∷ items) s total = elim (Option-cases e.content) [
    | inl missing ↦ ground (arith, missing, feed-turn items s total)
    | inr (c, present) ↦ ground (
      arith,
      present,
      feed-turn items (yield s (ok (event_of (add_usage total e.usage_metadata) e c))).0
          (add_usage total e.usage_metadata),
    )
  ]

  -- The frontend gets the events of `turn`, in order, up to the one on which it leaves.
  pub chat-turn :
      (items : List (Result AdkEvent)) (s : S)
      → (chat yield items s).0.0 ≡ (feed yield s (turn no_usage items)).0
  unfolding chat
  chat-turn items s = feed-turn items s no_usage

-- The sum of the tokens of the runner's events that have content.
abbrev pub total_of : (UsageMetadata → ℕ) → List AdkEvent → ℕ
total_of count [] = 0
total_of count (e ∷ es) =
    let rest = total_of count es in
    elim e.content [
      | none ↦ rest
      | some _ ↦ elim e.usage_metadata [ none ↦ rest | some um ↦ count um + rest ]
    ]

-- The counters behind the events.
abbrev pub counted : Usage → List AdkEvent → Usage
counted total [] = total
counted total (e ∷ es) = elim e.content [
  | none ↦ counted total es
  | some _ ↦ counted (add_usage total e.usage_metadata) es
]

sums : (a b c : ℕ) → ((a + b) % int32_mod + c) % int32_mod ≡ (a + (b + c)) % int32_mod
sums a b c = omega arith

below : (a : ℕ) → a % int32_mod < int32_mod
below a = omega arith

module _ (field : Usage → ℕ) (count : UsageMetadata → ℕ)
    (adds : (u : Usage) (um : UsageMetadata)
      → field (add_usage u (some um)) ≡ (field u + count um) % int32_mod) where
  field-counted :
      (total : Usage) (es : List AdkEvent)
      → field total < int32_mod
      → field (counted total es) ≡ (field total + total_of count es) % int32_mod
  field-counted total [] h = ground arith
  field-counted total (e ∷ es) h = elim (Option-cases e.content) [
    | inl missing ↦ ground (arith, missing, field-counted total es)
    | inr (c, present) ↦ elim (Option-cases e.usage_metadata) [
      | inl silent ↦ ground (arith, present, silent, field-counted (add_usage total none) es)
      | inr (um, told) ↦ ground (
        arith,
        present,
        told,
        field-counted (add_usage total (some um)) es,
        adds total um,
        below (field total + count um),
        sums (field total) (count um) (total_of count es),
      )
    ]
  ]

  field-counted_all :
      (es : List AdkEvent)
      → field no_usage ≡ 0
      → field (counted no_usage es) ≡ total_of count es % int32_mod
  field-counted_all es h = ground (arith, field-counted no_usage es)

module _ {S : Type 0} (yield : Yield S (Result Event)) where
  feed-counted :
      (es : List AdkEvent) (s : S) (total : Usage)
      → (feed (on_item yield) (s, total) (map ok es)).1 ≡ true
      → (feed (on_item yield) (s, total) (map ok es)).0.1 ≡ counted total es
  unfolding feed on_item
  feed-counted [] s total h = refl
  feed-counted (e ∷ es) s total h = elim (Option-cases e.content) [
    | inl missing ↦ ground (arith, missing, feed-counted es s total)
    | inr (c, present) ↦
        let total' = add_usage total e.usage_metadata in
        ground (arith, present, feed-counted es (yield s (ok (event_of total' e c))).0 total')
  ]

  -- If the runner does not fail and the frontend stays to the end, the turn's counters are the sums
  -- of those of the runner's events that have content, modulo 2 ^ 32.
  pub chat_usage :
      (es : List AdkEvent) (s : S)
      → (chat yield (map ok es) s).1 ≡ true
      → (let u = (chat yield (map ok es) s).0.1 in
          (u.prompt_tokens ≡ total_of (λ um. um.prompt_token_count) es % int32_mod)
          × (u.completion_tokens ≡ total_of (λ um. um.candidates_token_count) es % int32_mod)
          × (u.total_tokens ≡ total_of (λ um. um.total_token_count) es % int32_mod))
  unfolding chat
  chat_usage es s h =
      let same = feed-counted es s no_usage h in
      (
        ap (λ u. u.prompt_tokens) same
            ∙ field-counted_all (λ u. u.prompt_tokens) (λ um. um.prompt_token_count) (λ u um. refl)
                es refl,
        ap (λ u. u.completion_tokens) same
            ∙ field-counted_all (λ u. u.completion_tokens) (λ um. um.candidates_token_count)
                (λ u um. refl) es refl,
        ap (λ u. u.total_tokens) same
            ∙ field-counted_all (λ u. u.total_tokens) (λ um. um.total_token_count) (λ u um. refl) es
                refl,
      )
