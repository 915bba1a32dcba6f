-- ===== src/Sse/Tests.antt =====
-- Small streams.
use hr.Prelude.{◌≡◌, refl, true, false, none, some, [], ◌∷◌, lit, eq_text, Bytes}
use hr.Prelude.Strings.{split, join}
use mathlib.Core.List.{flatten}
use hr.Json.{Value, no_fields, field_then, object, string}
use hr.Session
use hr.Stats
use hr.Sse.Framer.{
  SseEvent, parse_event_block, strip_cr, split_field, is_done_sentinel, strip_space, new, drain,
  feed, find_double_newline,
}
use hr.Sse.Framer.Frames.{Frames, stop, frame}
use hr.Sse.Framer.Drain.{drain-Frames}
use hr.Sse.Framer.Chunks.{feed-flatten}
use hr.Sse.Stream.{SseStreamState, World, anthropic}
use hr.Sse.Stream.Apply.{apply_all}
use hr.Sse.Stream.Usage.{Grows, apply_all-Grows}
use hr.Sse.Stream.Once.{apply_all-Outcome}

-- One event and the start of another, cut in two ways, the second in the middle of a terminator.
feed-flatten_example :
    feed new (lit "data: a\n\nda" ∷ lit "ta" ∷ []) ≡ feed new (lit "data: a\n" ∷ lit "\ndata" ∷ [])
unfolding lit flatten
feed-flatten_example =
    feed-flatten (lit "data: a\n\nda" ∷ lit "ta" ∷ []) (lit "data: a\n" ∷ lit "\ndata" ∷ []) refl

abbrev stream : Bytes
stream = lit "data: a\n\ndata"

stream-Frames : Frames stream (lit "data: a" ∷ []) (lit "data")
unfolding lit find_double_newline
stream-Frames = frame 7 2 refl (stop refl)

drain-Frames_example : drain (record { buf = stream; done_seen = true }) ≡ (
  record { event_name = none; data_bytes = lit "a" } ∷ [],
  record { buf = lit "data"; done_seen = true },
)
unfolding lit parse_event_block split strip_cr eq_text split_field join is_done_sentinel strip_space
drain-Frames_example = drain-Frames true stream-Frames

-- An Anthropic stream that stops, with a session.
abbrev stop_value : Value
stop_value = object (field_then (lit "type") (string (lit "message_stop")) no_fields)

abbrev start_state : SseStreamState
start_state = record {
  kind = anthropic;
  input_tokens = 2000;
  output_tokens = 5;
  cache_read_input_tokens = 1500;
  cache_creation_input_tokens = 100;
  emitted = false;
  responses_last_status = none;
  assistant_chars = 12;
  session = some (record {
    provider = hr.Session.anthropic;
    session_id = lit "s";
    message_token_estimates = 700 ∷ 700 ∷ [];
  });
}

abbrev world : World
world = record { stats = hr.Stats.default; trackers = hr.Session.new; hit_rates = [] }

abbrev stop_event : SseEvent
stop_event = record { event_name = some (lit "message_stop"); data_bytes = lit "{}" }

apply_all-Outcome_example :
    hr.Sse.Stream.Once.Outcome start_state world
      (apply_all
        (λ _. some stop_value)
        ((7, 8, stop_event) ∷ (9, 10, stop_event) ∷ [])
        start_state
        world).0
      (apply_all
        (λ _. some stop_value)
        ((7, 8, stop_event) ∷ (9, 10, stop_event) ∷ [])
        start_state
        world).1
apply_all-Outcome_example =
    apply_all-Outcome (λ _. some stop_value) ((7, 8, stop_event) ∷ (9, 10, stop_event) ∷ [])
      start_state world

apply_all-Grows_example :
    Grows start_state
      (apply_all (λ _. some stop_value) ((7, 8, stop_event) ∷ []) start_state world).0
apply_all-Grows_example =
    apply_all-Grows (λ _. some stop_value) ((7, 8, stop_event) ∷ []) start_state world
