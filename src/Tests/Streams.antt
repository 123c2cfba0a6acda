-- ===== src/Tests/Streams.antt =====
-- Streams of events, for internal/sse/reader.go.
use Prim.Native.String.{len}
use crated.Prelude.{
  ℕ, zero, suc, ◌<◌, true, false, String, List, [], ◌∷◌, map, none, some, foreign, Result, ok,
  Yield, feed, ◌≡◌, refl, arith, All, eq_iff,
}
use crated.Prelude.Text.{trim_space, after_prefix}
use crated.Sse.{Event, no_event, read}
use crated.Sse.Scanner.{Stream, scan, fitting, too_long, drop_cr, max_line}
use crated.Sse.Pull.{events_from}
use crated.Sse.Delivery.{
  IsDelivery, IsIgnored, read-IsDelivery, events_from-ignored, fitting-too_long,
}
use crated.Sse.RoundTrip.{
  IsCanonical, IsLine, has_newline, Message, encode_all, event_of, stream_of,
}
use crated.Sse.RoundTrip.{read-encode_all}

-- Two events as a server writes them, the second with two data lines.
abbrev messages : List Message
messages =
    record { type = none; first = "a"; more = [] }
    ∷ record { type = some "delta"; first = "b"; more = "c" ∷ [] }
    ∷ []

messages-IsCanonical : All IsCanonical messages
unfolding trim_space
messages-IsCanonical = (
  record {
    type_trimmed = refl;
    first_trimmed = refl;
    first_given = ground (arith, eq_iff "a" "");
    more_trimmed = tt;
  },
  (
    record {
      type_trimmed = refl;
      first_trimmed = refl;
      first_given = ground (arith, eq_iff "b" "");
      more_trimmed = (refl, tt);
    },
    tt,
  ),
)

encoded-IsLine : All IsLine (encode_all messages)
unfolding drop_cr
encoded-IsLine =
    let line : (l : String) → has_newline l ≡ false → drop_cr l ≡ l → len l < max_line → IsLine l =
      λ l n r f. record { no_newline = n; no_return = r; fits = f } in
    (
      line "data: a" refl refl (omega arith),
      (
        line "" refl refl (omega arith),
        (
          line "event: delta" refl refl (omega arith),
          (
            line "data: b" refl refl (omega arith),
            (line "data: c" refl refl (omega arith), (line "" refl refl (omega arith), tt)),
          ),
        ),
      ),
    )

-- A consumer that counts and leaves at the second item.
abbrev pub two_at_most {ℓ} : {A : Type ℓ} → Yield ℕ A
two_at_most zero x = (1, true)
two_at_most (suc n) x = (suc (suc n), false)

read-encode_all_example :
    read two_at_most 0 (stream_of (encode_all messages))
    ≡ feed two_at_most 0 (map (λ m. ok (event_of m)) messages)
read-encode_all_example = read-encode_all two_at_most 0 messages messages-IsCanonical encoded-IsLine

abbrev pub two_events : Stream
two_events = record { text = "data: a\n\ndata: b\n\n"; failure = some (foreign "reset") }

read-IsDelivery_example :
    (items : List (Result Event)) × (read two_at_most 0 two_events ≡ feed two_at_most 0 items)
    × IsDelivery items (scan two_events).1
read-IsDelivery_example = read-IsDelivery two_at_most 0 two_events

comment-IsIgnored : IsIgnored ": keep alive"
unfolding after_prefix
comment-IsIgnored = record {
  not_blank = ground (arith, eq_iff ": keep alive" "");
  not_event = refl;
  not_data = refl;
}

events_from-ignored_example :
    events_from no_event ("data: a" ∷ ": keep alive" ∷ "" ∷ []) none
    ≡ events_from no_event ("data: a" ∷ "" ∷ []) none
events_from-ignored_example =
    events_from-ignored no_event ("data: a" ∷ []) ("" ∷ []) ": keep alive" none comment-IsIgnored

fitting-too_long_example : fitting 3 ("ab" ∷ "abcd" ∷ "c" ∷ []) none ≡ ("ab" ∷ [], some too_long)
fitting-too_long_example =
    fitting-too_long 3 ("ab" ∷ []) ("c" ∷ []) "abcd" none (omega arith, tt) (omega arith)
