-- ===== src/Playground/Frames.antt =====
-- What `streamChat` of internal/frontend/playground/playground.go sends to the browser for a turn.
use crated.Prelude.{
  ℕ, zero, suc, take, some, true, String, List, [], ◌∷◌, ◌++◌, Option, none, Error, Result, ok, err,
  feed, if◌then◌else◌, ◌==◌, ◌≡◌, ◌⊎◌, inl, inr, Bool-cases, refl, sym, Bool, false, ap, ◌∙◌, arith,
}
use mathlib.Core.List.{append_assoc, append-nil}
use crated.Frontend.{Event, AdkEvent, no_usage}
use crated.Frontend.Turn.{turn, chat-turn}
use crated.Playground.{
  WsOutgoing, outgoing, usage_or_none, on_event, stream_chat, write_done, write_text, written,
}

module _ (message : Error → String) where
  abbrev tool_frames : List String → List WsOutgoing
  tool_frames [] = []
  tool_frames (c ∷ cs) = record (outgoing "tool_call") { tools = c ∷ cs } ∷ []

  abbrev text_frames : String → List WsOutgoing
  text_frames text = if text == "" then [] else record (outgoing "text") { text = text } ∷ []

  abbrev done_frames : Event → List WsOutgoing
  done_frames e =
      if e.is_final then record (outgoing "done") { usage = usage_or_none e.usage } ∷ [] else []

  -- The messages for one event, and for the events of a turn.
  abbrev pub event_frames : Event → List WsOutgoing
  event_frames e = tool_frames e.tool_calls ++ (text_frames e.text ++ done_frames e)

  abbrev pub frames : List (Result Event) → List WsOutgoing
  frames [] = []
  frames (err e ∷ items) = record (outgoing "error") { text = message e } ∷ []
  frames (ok e ∷ items) = event_frames e ++ frames items

-- A connection: the messages that it has taken, and how many more it takes before it breaks.
abbrev pub Wire : Type 0
Wire = List WsOutgoing × ℕ

module _ (lost : Error) where
  abbrev pub push : Wire → WsOutgoing → Wire × Option Error
  push (taken, zero) frame = ((taken, 0), some lost)
  push (taken, suc n) frame = ((taken ++ frame ∷ [], n), none)

  abbrev pub push_all : Wire → List WsOutgoing → Wire
  push_all c [] = c
  push_all c (frame ∷ more) = push_all (push c frame).0 more

  pub push_all-append :
      (c : Wire) (xs ys : List WsOutgoing) → push_all c (xs ++ ys) ≡ push_all (push_all c xs) ys
  push_all-append c [] ys = refl
  push_all-append c (x ∷ xs) ys = push_all-append (push c x).0 xs ys

  -- A broken connection stays as it is.
  push_all_broken :
      (taken : List WsOutgoing) (xs : List WsOutgoing) → push_all (taken, 0) xs ≡ (taken, 0)
  push_all_broken taken [] = refl
  push_all_broken taken (x ∷ xs) = push_all_broken taken xs

  pub push_all-take :
      (taken : List WsOutgoing) (n : ℕ) (xs : List WsOutgoing)
      → (push_all (taken, n) xs).0 ≡ taken ++ take n xs
  push_all-take taken zero xs = ap (λ c. c.0) (push_all_broken taken xs) ∙ sym (append-nil taken)
  push_all-take taken (suc n) [] = sym (append-nil taken)
  push_all-take taken (suc n) (x ∷ xs) =
      push_all-take (taken ++ x ∷ []) n xs ∙ append_assoc taken (x ∷ []) (take n xs)

  -- The messages were pushed, and the code goes on unless the connection has broken.
  abbrev Pushes : Wire × Bool → Wire → List WsOutgoing → Type 0
  Pushes r c frames = (r.0 ≡ push_all c frames) × ((r.1 ≡ true) ⊎ (r.0.1 ≡ 0))

  module _ (message : Error → String) where
    written-Pushes :
        (c : Wire) (frame : WsOutgoing) (k : Wire → Wire × Bool) (more : List WsOutgoing)
        → ((d : Wire) → Pushes (k d) d more)
        → Pushes (written push message (push c frame) k) c (frame ∷ more)
    written-Pushes (taken, zero) frame k more h = (sym (push_all_broken taken more), inr refl)
    written-Pushes (taken, suc n) frame k more h = h (taken ++ frame ∷ [], n)

    done-Pushes :
        (e : Event) (c : Wire) → Pushes (write_done push message e c) c (done_frames message e)
    done-Pushes e c = elim (Bool-cases e.is_final) [
      | inl final ↦ rw final (refl, inl refl)
      | inr going ↦ rw going (refl, inl refl)
    ]

    text-Pushes :
        (e : Event) (c : Wire)
        → Pushes
            (write_text push message e c)
            c
            (text_frames message e.text ++ done_frames message e)
    text-Pushes e c = elim (Bool-cases (e.text == "")) [
      | inl silent ↦ rw silent (done-Pushes e c)
      | inr speaks ↦
          rw speaks
            (written-Pushes c _ (write_done push message e) (done_frames message e) (done-Pushes e))
    ]

    tools-Pushes :
        (e : Event) (calls : List String) (c : Wire)
        → Pushes
            (elim calls [
              | [] ↦ write_text push message e c
              | call ∷ calls ↦
                  written push message
                    (push c (record (outgoing "tool_call") { tools = call ∷ calls }))
                    (write_text push message e)
            ])
            c
            (tool_frames message calls ++ (text_frames message e.text ++ done_frames message e))
    tools-Pushes e [] c = text-Pushes e c
    tools-Pushes e (call ∷ calls) c =
        written-Pushes c _ (write_text push message e)
          (text_frames message e.text ++ done_frames message e) (text-Pushes e)

    and_later :
        (r : Wire × Bool) (c : Wire) (now : List WsOutgoing) (items : List (Result Event))
        → Pushes r c now
        → ((d : Wire)
            → (feed (on_event push message) d items).0 ≡ push_all d (frames message items))
        → (if r.1 then feed (on_event push message) r.0 items else (r.0, false)).0
          ≡ push_all c (now ++ frames message items)
    and_later (d, true) c now items (pushed, _) ih =
        ih d
        ∙ ap (λ w. push_all w (frames message items)) pushed
        ∙ sym (push_all-append c now (frames message items))
    and_later ((taken, zero), false) c now items (pushed, _) ih =
        sym (push_all_broken taken (frames message items))
        ∙ ap (λ w. push_all w (frames message items)) pushed
        ∙ sym (push_all-append c now (frames message items))
    and_later ((taken, suc n), false) c now items (_, still) ih = absurd (ground (arith, still))

    feed-push_all :
        (items : List (Result Event)) (c : Wire)
        → (feed (on_event push message) c items).0 ≡ push_all c (frames message items)
    unfolding feed
    feed-push_all [] c = refl
    feed-push_all (err e ∷ items) c = refl
    feed-push_all (ok e ∷ items) c =
        and_later (on_event push message c (ok e)) c (event_frames message e) items
          (tools-Pushes e e.tool_calls c) (feed-push_all items)

    -- Over a connection that takes so many messages and then breaks, the browser gets, for each event of
    -- the turn, its tool calls, its text and, on a final event, the usage, each where there is one, and
    -- an error as the last message, as far as the connection takes them.
    pub stream_chat-frames :
        (items : List (Result AdkEvent)) (c : Wire)
        → stream_chat push message items c ≡ push_all c (frames message (turn no_usage items))
    unfolding stream_chat
    stream_chat-frames items c =
        chat-turn (on_event push message) items c ∙ feed-push_all (turn no_usage items) c
