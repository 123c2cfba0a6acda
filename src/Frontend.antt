-- ===== src/Frontend.antt =====
-- internal/frontend/frontend.go: the bridge between the frontends and the agent, and the registry of
-- frontends. The ADK's runner is the list of the items that its iterator has to give.
pub mod Turn
use crated.Prelude.{
  ℕ, ◌+◌, ◌-◌, ◌%◌, ◌&&◌, Bool, true, false, String, List, [], ◌∷◌, Option, none, some, is_some,
  Error, errorf, wrapf, or_wrap, str, Result, ok, err, Yield, feed, if◌then◌else◌, int32_mod, ltb,
}
use crated.Prelude.Text.{◌<>◌}
use crated.Dict.{Dict, lookup, insert, keys}
use crated.Genai.{Part, Content, UsageMetadata}

-- `Usage`: bit patterns of int32s.
pub record Usage : Type 0 where
  pub prompt_tokens : ℕ
  pub completion_tokens : ℕ
  pub total_tokens : ℕ

-- `Event`. Its usage is what the pointer to the turn's counters shows while the event is yielded: a
-- consumer that keeps the event would see later counts.
pub record Event : Type 0 where
  pub text : String
  pub is_final : Bool
  pub tool_calls : List String
  pub usage : Option Usage
  pub author : String

-- What `Chat` reads of a session.Event; `is_final` is IsFinalResponse().
pub record AdkEvent : Type 0 where
  pub content : Option Content
  pub usage_metadata : Option UsageMetadata
  pub is_final : Bool
  pub author : String

abbrev pub no_usage : Usage
no_usage = record { prompt_tokens = 0; completion_tokens = 0; total_tokens = 0 }

-- `a += b` on int32s
abbrev pub add32 : ℕ → ℕ → ℕ
add32 a b = (a + b) % int32_mod

abbrev pub add_usage : Usage → Option UsageMetadata → Usage
add_usage u none = u
add_usage u (some um) = record {
  prompt_tokens = add32 u.prompt_tokens um.prompt_token_count;
  completion_tokens = add32 u.completion_tokens um.candidates_token_count;
  total_tokens = add32 u.total_tokens um.total_token_count;
}

-- `text` and `toolCalls` behind the loop over the parts.
unfoldable pub text_of : List Part → String
text_of [] = ""
text_of (p ∷ ps) = p.text <> text_of ps

unfoldable pub calls_of : List Part → List String
calls_of [] = []
calls_of (p ∷ ps) = elim p.function_call [
  | none ↦ calls_of ps
  | some call ↦ call.name ∷ calls_of ps
]

-- `> 0` on an int32
abbrev pub is_positive32 : ℕ → Bool
is_positive32 n = ltb 0 n && ltb n 0x80000000

-- The event for one of the runner's, with the counters behind it.
unfoldable pub event_of : Usage → AdkEvent → Content → Event
unfolding text_of calls_of
event_of total e content = record {
  text = text_of content.parts;
  is_final = e.is_final;
  tool_calls = calls_of content.parts;
  usage = if e.is_final && is_positive32 total.total_tokens then some total else none;
  author = e.author;
}

module _ {S : Type 0} (yield : Yield S (Result Event)) where
  -- The loop's body, over the consumer and `totalUsage`.
  unfoldable pub on_item : Yield (S × Usage) (Result AdkEvent)
  unfolding event_of
  on_item (s, total) (err e) = (((yield s (err e)).0, total), false)
  on_item (s, total) (ok e) = elim e.content [
    | none ↦ ((s, total), true)
    | some content ↦
        let total' = add_usage total e.usage_metadata in
        let (t, more) = yield s (ok (event_of total' e content)) in ((t, total'), more)
  ]

  -- `Chat`, for the items of the runner; the final flag says that the runner's loop was not left.
  unfoldable pub chat : List (Result AdkEvent) → S → (S × Usage) × Bool
  unfolding feed on_item
  chat items s = feed on_item (s, no_usage) items

-- `AgentBridge`, over the ADK's runners `R` and services of sessions `S`.
pub record AgentBridge (R S : Type 0) : Type 0 where
  pub runner : R
  pub sessions : S
  pub app_name : String

-- `NewAgentBridge`: runner.New for an application's name and an agent, nil or not, is `new_runner`,
-- and `in_memory` is session.InMemoryService().
unfoldable pub new_agent_bridge :
    {R S A : Type 0} → (String → Option A → S → Result R) → S → Option A → Result (AgentBridge R S)
new_agent_bridge new_runner in_memory agent = elim (new_runner "crated" agent in_memory) [
  | err e ↦ err (wrapf "creating runner: %w" [] e)
  | ok r ↦ ok (record { runner = r; sessions = in_memory; app_name = "crated" })
]

-- `CreateSession`, where `create` is Create of the service, for the application and the user.
unfoldable pub create_session :
    {R S : Type 0}
    → (S → String → String → S × Result String)
    → AgentBridge R S
    → String
    → AgentBridge R S × Result String
create_session create b user =
    let (sessions, created) = create b.sessions b.app_name user in
    (record b { sessions = sessions }, or_wrap created "creating session: %w" [])

-- `frontends`, where `F` is the type of what is registered beside its name.
abbrev pub Frontends : Type 0 → Type 0
Frontends F = Dict F

module _ {F : Type 0} where
  -- `RegisterFrontend`, `GetFrontend`, `RegisteredFrontends`, where `range` puts keys in the order in
  -- which this loop over the map meets them
  unfoldable pub register_frontend : String → F → Frontends F → Result (Frontends F)
  register_frontend name f frontends =
      if is_some (lookup name frontends)
      then err (errorf "frontend %q already registered" (str name ∷ []))
      else ok (insert name f frontends)

  unfoldable pub get_frontend : String → Frontends F → Option F
  get_frontend name frontends = lookup name frontends

  unfoldable pub registered_frontends : (List String → List String) → Frontends F → List String
  registered_frontends range frontends = range (keys frontends)
