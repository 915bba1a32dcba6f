-- ===== src/Sse/Framer.antt =====
-- src/sse.rs: `SseEvent`, `SseFramer`, `find_double_newline`, `parse_event_block`.
-- A byte string is a value here: `drain` takes the front of the buffer off it.
pub mod Frames
pub mod Drain
pub mod Chunks
use hr.Prelude.{
  ℕ, zero, suc, ◌+◌, Bool, true, false, ◌&&◌, ◌||◌, Option, none, some, List, [], ◌∷◌, ◌++◌, ◌==◌,
  if◌then◌else◌, eq_text, from_utf8, length, take, drop, lit, Text, Bytes,
}
use hr.Prelude.Strings.{split, join, strip_prefix}
use mathlib.Core.List.{reverse}

pub record SseEvent : Type 0 where
  pub event_name : Option Text
  pub data_bytes : Bytes

-- `data_str`
unfoldable pub data_str : SseEvent → Option Text
data_str e = from_utf8 e.data_bytes

unfoldable pub is_done_sentinel : SseEvent → Bool
is_done_sentinel e = eq_text e.data_bytes (lit "[DONE]")

pub record SseFramer : Type 0 where
  pub buf : Bytes
  pub done_seen : Bool

-- `SseFramer::new`
abbrev pub new : SseFramer
new = record { buf = []; done_seen = false }

unfoldable pub push : SseFramer → Bytes → SseFramer
push f [] = f
push f (b ∷ bs) = record f { buf = f.buf ++ b ∷ bs }

-- `buf[index] == b'\n' && buf[index + 1] == b'\n'`, with the bounds test, at the front of `buf`
unfoldable pub at_lf_lf : Bytes → Bool
at_lf_lf (a ∷ b ∷ _) = a == b'\n' && b == b'\n'
at_lf_lf _ = false

unfoldable pub at_crlf_crlf : Bytes → Bool
at_crlf_crlf (a ∷ b ∷ c ∷ d ∷ _) = a == b'\r' && b == b'\n' && c == b'\r' && d == b'\n'
at_crlf_crlf _ = false

-- The `while` loop, at byte `index` of the buffer, of which `buf` is what lies at and behind it.
unfoldable pub find_from : ℕ → Bytes → Option (ℕ × ℕ)
unfolding at_lf_lf at_crlf_crlf
find_from index [] = none
find_from index (b ∷ bs) =
    let later = find_from (suc index) bs in
    if at_lf_lf (b ∷ bs)
    then some (index, 2)
    else if at_crlf_crlf (b ∷ bs)
    then some (index, 4)
    else later

unfoldable pub find_double_newline : Bytes → Option (ℕ × ℕ)
unfolding find_from
find_double_newline = find_from 0

-- `line.strip_suffix(b"\r").unwrap_or(line)`
unfoldable pub strip_cr : Bytes → Bytes
strip_cr [] = []
strip_cr (c ∷ []) = if c == b'\r' then [] else c ∷ []
strip_cr (c ∷ d ∷ cs) = c ∷ strip_cr (d ∷ cs)

-- The field name in front of the first colon, and the value behind it, empty if there is none.
unfoldable pub split_field : Bytes → Bytes × Bytes
split_field [] = ([], [])
split_field (c ∷ cs) =
    let (field, value) = split_field cs in if c == b':' then ([], cs) else (c ∷ field, value)

-- `value.strip_prefix(b" ").unwrap_or(value)`
unfoldable pub strip_space : Bytes → Bytes
strip_space [] = []
strip_space (c ∷ cs) = if c == b' ' then cs else c ∷ cs

-- `event_name` and `data_parts`, the two variables of the loop over the lines
pub record Block : Type 0 where
  pub name : Option Text
  pub parts : List Bytes

unfoldable pub set_name : Block → Option Text → Block
set_name b none = b
set_name b (some n) = record b { name = some n }

unfoldable pub read_field : Block → Bytes × Bytes → Block
unfolding set_name
read_field b (field, value) =
    if eq_text field (lit "event")
    then set_name b (from_utf8 (strip_space value))
    else if eq_text field (lit "data")
    then record b { parts = b.parts ++ strip_space value ∷ [] }
    else b

unfoldable pub read_stripped : Block → Bytes → Block
unfolding read_field
read_stripped b [] = b
read_stripped b (c ∷ cs) = if c == b':' then b else read_field b (split_field (c ∷ cs))

unfoldable pub read_lines : Block → List Bytes → Block
unfolding read_stripped
read_lines b [] = b
read_lines b (line ∷ rest) = read_lines (read_stripped b (strip_cr line)) rest

unfoldable pub event_of : Block → Option SseEvent
event_of b = elim b.parts [
  | [] ↦ none
  | p ∷ ps ↦ some (record { event_name = b.name; data_bytes = join (b'\n' ∷ []) (p ∷ ps) })
]

unfoldable pub parse_event_block : Bytes → Option SseEvent
unfolding read_lines event_of
parse_event_block block =
    event_of (read_lines (record { name = none; parts = [] }) (split b'\n' block))

-- The loop of `next_event`, a round for each block that holds no event.
unfoldable pub next_event_on : ℕ → SseFramer → Option SseEvent × SseFramer
next_event_on zero f = (none, f)
next_event_on (suc fuel) f = elim (find_double_newline f.buf) [
  | none ↦ (none, f)
  | some (end, term_len) ↦
      let rest = drop (end + term_len) f.buf in
      elim (parse_event_block (take end f.buf)) [
        | some event ↦
            (some event, record { buf = rest; done_seen = is_done_sentinel event || f.done_seen })
        | none ↦ next_event_on fuel (record f { buf = rest })
      ]
]

-- A round takes a terminator off the buffer, so its length bounds the rounds.
unfoldable pub next_event : SseFramer → Option SseEvent × SseFramer
unfolding next_event_on
next_event f = next_event_on (suc (length f.buf)) f

-- `while let Some(event) = framer.next_event()`, with the events in order
unfoldable pub take_event :
    (SseFramer → List SseEvent × SseFramer)
    → Option SseEvent × SseFramer
    → List SseEvent × SseFramer
take_event more (none, f) = ([], f)
take_event more (some event, f) = let (events, last) = more f in (event ∷ events, last)

unfoldable pub drain_on : ℕ → SseFramer → List SseEvent × SseFramer
unfolding take_event
drain_on zero f = ([], f)
drain_on (suc fuel) f = take_event (drain_on fuel) (next_event f)

unfoldable pub drain : SseFramer → List SseEvent × SseFramer
unfolding drain_on
drain f = drain_on (suc (length f.buf)) f

-- The loop of `run_sse_state_machine` over the chunks that arrive
unfoldable pub feed : SseFramer → List Bytes → List SseEvent × SseFramer
feed f [] = ([], f)
feed f (chunk ∷ chunks) =
    let (events, f') = drain (push f chunk) in
    let (later, last) = feed f' chunks in (events ++ later, last)
