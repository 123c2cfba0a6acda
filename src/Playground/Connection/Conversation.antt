-- ===== src/Playground/Connection/Conversation.antt =====
-- What a connection of internal/frontend/playground/playground.go writes over its life.
use crated.Prelude.{
  ℕ, take, refl, sym, ap, ◌∙◌, String, List, [], ◌∷◌, ◌++◌, Error, Result, if◌then◌else◌, ◌≡◌, inl,
  inr, Bool-cases,
}
use crated.Frontend.{AdkEvent, no_usage}
use crated.Frontend.Turn.{turn}
use crated.Playground.{WsOutgoing, stream_chat}
use crated.Playground.Frames.{
  frames, Wire, push, push_all, push_all-append, push_all-take, stream_chat-frames,
}
use crated.Playground.Connection.{
  Incoming, message, broken, Standing, closed, waiting, is_ignored, read_loop,
}

-- The texts of the messages that count, up to a read that fails.
abbrev pub asked : List Incoming → List String
asked [] = []
asked (broken e ∷ later) = []
asked (message msg ∷ later) =
    let rest = asked later in if is_ignored msg then rest else msg.text ∷ rest

abbrev pub ends : List Incoming → Standing
ends [] = waiting
ends (broken e ∷ later) = closed
ends (message msg ∷ later) = ends later

module _ {W : Type 0} (text_of : Error → String)
    (agent : W → String → String → String → W × List (Result AdkEvent))
    (user session : String) where
  -- The messages of the turns for these texts.
  abbrev pub answers : W → List String → List WsOutgoing
  answers w [] = []
  answers w (text ∷ texts) =
      let (v, items) = agent w user session text in
      frames text_of (turn no_usage items) ++ answers v texts

  read_loop-push_all :
      (lost : Error) (w : W) (c : Wire) (incoming : List Incoming)
      → (let (s, standing) = read_loop (push lost) text_of agent user session (w, c) incoming in
          (s.1 ≡ push_all lost c (answers w (asked incoming))) × (standing ≡ ends incoming))
  unfolding read_loop
  read_loop-push_all lost w c [] = (refl, refl)
  read_loop-push_all lost w c (broken e ∷ later) = (refl, refl)
  read_loop-push_all lost w c (message msg ∷ later) = elim (Bool-cases (is_ignored msg)) [
    | inl skipped ↦ rw (skipped, read_loop) (read_loop-push_all lost w c later)
    | inr counts ↦
        let (v, items) = agent w user session msg.text in
        let said = frames text_of (turn no_usage items) in
        let (written, standing) =
          read_loop-push_all lost v (stream_chat (push lost) text_of items c) later in
        rw (counts, read_loop)
          (
            written
                ∙ ap (λ d. push_all lost d (answers v (asked later)))
                    (stream_chat-frames lost text_of items c)
                ∙ sym (push_all-append lost c said (answers v (asked later))),
            standing,
          )
  ]

  -- Over a connection that takes its next `n` messages and then breaks, the browser gets the first `n`
  -- of the messages of the turns for the texts that it sent, one turn behind the other, in one
  -- conversation of the agent; what is not of type "message", or has no text, gets no answer and
  -- changes nothing. A write that fails does not end the loop: the connection is closed by the first
  -- read that fails, and by nothing else.
  pub read_loop-answers :
      (lost : Error) (w : W) (sent : List WsOutgoing) (n : ℕ) (incoming : List Incoming)
      → (let (s, standing) =
            read_loop (push lost) text_of agent user session (w, (sent, n)) incoming in
          (s.1.0 ≡ sent ++ take n (answers w (asked incoming))) × (standing ≡ ends incoming))
  read_loop-answers lost w sent n incoming =
      let (written, standing) = read_loop-push_all lost w (sent, n) incoming in
      (ap (λ c. c.0) written ∙ push_all-take lost sent n (answers w (asked incoming)), standing)
