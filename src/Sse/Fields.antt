-- ===== src/Sse/Fields.antt =====
-- What one `event:` or `data:` line does to the event of internal/sse/reader.go.
use crated.Prelude.{String, false, List, ◌∷◌, Option, none, Error, ◌==◌, ◌≡◌, ◌≢◌, arith, eq_iff}
use crated.Prelude.Text.{◌<>◌, trim_space, after_prefix, after_prefix-append, append-ne-nil}
use text.Mathlib.TextLemmas.{cons-append}
use crated.Sse.{Event, add_field, add_data}
use crated.Sse.Pull.{events_from}

pub add_field-event :
    (event : Event) (t : String)
    → add_field event ("event:" <> t) ≡ record event { type = trim_space t }
unfolding add_field
add_field-event event t = rw after_prefix-append

no_event_prefix : (t : String) → after_prefix "event:" ("data:" <> t) ≡ none
unfolding after_prefix
no_event_prefix t = rw cons-append

pub add_field-data :
    (event : Event) (t : String) → add_field event ("data:" <> t) ≡ add_data event (trim_space t)
unfolding add_field
add_field-data event t = rw (no_event_prefix t) (rw after_prefix-append)

field-ne-blank : (name t : String) → name ≢ "" → ((name <> t) == "") ≡ false
field-ne-blank name t h = ground (arith, eq_iff (name <> t) "", append-ne-nil name t h)

module _ (event : Event) (t : String) (rest : List String) (failure : Option Error) where
  events_from-field :
      (name : String)
      → name ≢ ""
      → events_from event ((name <> t) ∷ rest) failure
        ≡ events_from (add_field event (name <> t)) rest failure
  unfolding events_from
  events_from-field name h = rw (field-ne-blank name t h)

  pub events_from-event :
      events_from event (("event:" <> t) ∷ rest) failure
      ≡ events_from (record event { type = trim_space t }) rest failure
  events_from-event =
      rw (events_from-field "event:" (ground (arith, eq_iff "event:" ""))) (rw add_field-event)

  pub events_from-data :
      events_from event (("data:" <> t) ∷ rest) failure
      ≡ events_from (add_data event (trim_space t)) rest failure
  events_from-data =
      rw (events_from-field "data:" (ground (arith, eq_iff "data:" ""))) (rw add_field-data)
