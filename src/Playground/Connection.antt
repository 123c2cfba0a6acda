-- ===== src/Playground/Connection.antt =====
-- `handleWebSocket` of internal/frontend/playground/playground.go: a connection from its upgrade to its
-- end. `W` is the state of the agent behind the bridge.
pub mod Conversation
use crated.Prelude.{
  Bool, true, false, ◌||◌, not, String, List, [], ◌∷◌, Option, none, some, is_some, Error, Result,
  ok, err, if◌then◌else◌, ◌==◌,
}
use crated.Frontend.{AdkEvent, AgentBridge, create_session}
use crated.Playground.{WsOutgoing, outgoing, check_origin, stream_chat}

-- `wsIncoming`
pub record WsIncoming : Type 0 where
  pub type : String
  pub text : String

-- What a ReadJSON gives.
pub data Incoming : Type 0 where
  message : WsIncoming → Incoming
  broken : Error → Incoming

-- What `handleWebSocket` reads of the request, and the error of the upgrade behind the origin check.
pub record Request : Type 0 where
  pub origin : String
  pub user : String
  pub upgrade_error : Option Error

-- `msg.Type != "message" || msg.Text == ""`
abbrev pub is_ignored : WsIncoming → Bool
is_ignored msg = not (msg.type == "message") || msg.text == ""

-- How a connection stands: turned away, closed, or waiting for the next message.
pub data Standing : Type 0 where
  refused closed waiting : Standing

abbrev pub user_of : Request → String
user_of r = if r.user == "" then "playground-user" else r.user

-- Chat of the bridge for a user, a session and a text is `agent`; `write` and `text_of` are those of
-- `streamChat`.
module _ {W C : Type 0} (write : C → WsOutgoing → C × Option Error) (text_of : Error → String)
    (agent : W → String → String → String → W × List (Result AdkEvent)) where
  -- A turn for one message.
  abbrev pub answer : String → String → W × C → String → W × C
  answer user session (w, c) text =
      let (v, items) = agent w user session text in (v, stream_chat write text_of items c)

  -- The loop that reads messages.
  unfoldable pub read_loop : String → String → W × C → List Incoming → (W × C) × Standing
  read_loop user session s [] = (s, waiting)
  read_loop user session s (broken e ∷ later) = (s, closed)
  read_loop user session s (message msg ∷ later) =
      read_loop user session (if is_ignored msg then s else answer user session s msg.text) later

  module _ {R S : Type 0} (create : S → String → String → S × Result String) where
    -- `handleWebSocket`
    unfoldable pub handle_web_socket :
        String
        → String
        → Request
        → AgentBridge R S
        → W × C
        → List Incoming
        → AgentBridge R S × (W × C) × Standing
    unfolding check_origin create_session read_loop
    handle_web_socket env_origins port r bridge (w, c) incoming =
        if not (check_origin env_origins port r.origin) || is_some r.upgrade_error
        then (bridge, (w, c), refused)
        else let (bridge', created) = create_session create bridge (user_of r) in
          elim created [
            | err e ↦ (
              bridge',
              (w, (write c (record (outgoing "error") { text = "Failed to create session" })).0),
              closed,
            )
            | ok session ↦
                let (s, standing) = read_loop (user_of r) session (w, c) incoming in
                (bridge', s, standing)
          ]
