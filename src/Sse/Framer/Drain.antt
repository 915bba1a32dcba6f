-- ===== src/Sse/Framer/Drain.antt =====
-- Draining the framer yields the events of the blocks, and leaves the rest in the buffer.
use hr.Prelude.{
  ℕ, zero, suc, ◌+◌, ◌<◌, ◌≡◌, sym, ap, ◌∙◌, Bool, ◌||◌, Option, none, some, List, [], ◌∷◌, arith,
  length, length-drop, take, drop, Bytes, Option-cases, inl, inr,
}
use hr.Sse.Framer.{
  SseEvent, SseFramer, is_done_sentinel, find_double_newline, parse_event_block, next_event_on,
  next_event, take_event, drain_on, drain,
}
use hr.Sse.Framer.Frames.{Frames, stop, frame, find_bounds}

-- The events of blocks, in order; a block with no `data:` line has none.
abbrev pub onto : Option SseEvent → List SseEvent → List SseEvent
onto none events = events
onto (some e) events = e ∷ events

abbrev pub events_of : List Bytes → List SseEvent
events_of [] = []
events_of (block ∷ blocks) = onto (parse_event_block block) (events_of blocks)

-- `done_seen` once these events have been taken
abbrev pub done_after : Bool → List SseEvent → Bool
done_after done [] = done
done_after done (e ∷ es) = done_after (is_done_sentinel e || done) es

-- What one round of the loop does, in its three cases.
round_none :
    (n : ℕ) (f : SseFramer) → find_double_newline f.buf ≡ none → next_event_on (suc n) f ≡ (none, f)
unfolding next_event_on
round_none n f e = rw (e, next_event_on)

module _ (n : ℕ) (f : SseFramer) (end term : ℕ)
    (found : find_double_newline f.buf ≡ some (end, term)) where
  round_skip :
      parse_event_block (take end f.buf) ≡ none
      → next_event_on (suc n) f ≡ next_event_on n (record f { buf = drop (end + term) f.buf })
  unfolding next_event_on
  round_skip p = rw (found, next_event_on) (rw p)

  round_event :
      (event : SseEvent)
      → parse_event_block (take end f.buf) ≡ some event
      → next_event_on (suc n) f ≡ (
        some event,
        record { buf = drop (end + term) f.buf; done_seen = is_done_sentinel event || f.done_seen },
      )
  unfolding next_event_on
  round_event event p = rw (found, next_event_on) (rw p)

  shorter : length (drop (end + term) f.buf) < length f.buf
  shorter = omega (arith, length-drop (end + term) f.buf, find_bounds f.buf end term found)

-- Any two amounts of fuel above the length of the buffer serve alike.
next_event_on-fuel :
    (m n : ℕ) (f : SseFramer)
    → length f.buf < m
    → length f.buf < n
    → next_event_on m f ≡ next_event_on n f
next_event_on-fuel zero n f h k = absurd (omega arith)
next_event_on-fuel (suc m) zero f h k = absurd (omega arith)
next_event_on-fuel (suc m) (suc n) f h k = elim (Option-cases (find_double_newline f.buf)) [
  | inl e ↦ round_none m f e ∙ sym (round_none n f e)
  | inr ((end, term), e) ↦ elim (Option-cases (parse_event_block (take end f.buf))) [
    | inl p ↦
        round_skip m f end term e p
        ∙ next_event_on-fuel m n (record f { buf = drop (end + term) f.buf })
            (omega (arith, shorter m f end term e)) (omega (arith, shorter m f end term e))
        ∙ sym (round_skip n f end term e p)
    | inr (event, p) ↦ round_event m f end term e event p ∙ sym (round_event n f end term e event p)
  ]
]

module _ (n : ℕ) (f f' : SseFramer) where
  drain_none : next_event f ≡ (none, f') → drain_on (suc n) f ≡ ([], f')
  unfolding drain_on
  drain_none e = ap (take_event (drain_on n)) e

  drain_some :
      (event : SseEvent)
      → next_event f ≡ (some event, f')
      → drain_on (suc n) f ≡ (event ∷ (drain_on n f').0, (drain_on n f').1)
  unfolding drain_on
  drain_some event e = ap (take_event (drain_on n)) e

-- A block that holds no event is passed over.
drain_skip :
    (n : ℕ) (f f' : SseFramer)
    → next_event f ≡ next_event f'
    → drain_on (suc n) f ≡ drain_on (suc n) f'
unfolding drain_on
drain_skip n f f' e = ap (take_event (drain_on n)) e

-- With fuel above the length of the buffer the loop takes every event of its blocks, and leaves the
-- rest.
drain_on-Frames :
    (n : ℕ) (done : Bool) {buf rest : Bytes} {blocks : List Bytes}
    → length buf < n
    → Frames buf blocks rest
    → drain_on n (record { buf = buf; done_seen = done })
      ≡ (events_of blocks, record { buf = rest; done_seen = done_after done (events_of blocks) })
unfolding next_event
drain_on-Frames zero done h f = absurd (omega arith)
drain_on-Frames (suc n) done h (stop {buf} e) =
    drain_none n _ _ (round_none (length buf) (record { buf = buf; done_seen = done }) e)
drain_on-Frames (suc n) done {buf} h (frame {blocks} end term e f) =
    let self : SseFramer = record { buf = buf; done_seen = done } in
    let less : SseFramer = record { buf = drop (end + term) buf; done_seen = done } in
    let below = shorter n self end term e in
    elim (Option-cases (parse_event_block (take end buf))) [
      | inl p ↦ rw p (
          drain_skip n self less (
            round_skip (length buf) self end term e p
            ∙ next_event_on-fuel (length buf) (suc (length less.buf)) less below (omega arith))
          ∙ drain_on-Frames (suc n) done (omega arith) f)
      | inr (event, p) ↦ rw p (
          drain_some n self _ event (round_event (length buf) self end term e event p)
          ∙ ap (λ (r : List SseEvent × SseFramer). (event ∷ r.0, r.1))
              (drain_on-Frames n (is_done_sentinel event || done) (omega arith) f))
    ]

-- Draining a buffer gives the events of its blocks in order, leaves the unterminated rest in the
-- buffer, and sets `done_seen` exactly if it was set or one of the events is the sentinel.
pub drain-Frames :
    (done : Bool) {buf rest : Bytes} {blocks : List Bytes}
    → Frames buf blocks rest
    → drain (record { buf = buf; done_seen = done })
      ≡ (events_of blocks, record { buf = rest; done_seen = done_after done (events_of blocks) })
unfolding drain
drain-Frames done {buf} f = drain_on-Frames (suc (length buf)) done (omega arith) f
