-- ===== src/Sse/Framer/Chunks.antt =====
-- How a stream is cut into chunks does not show in its events.
use mathlib.Core.List.{flatten}
use hr.Prelude.{
  ◌+◌, ◌≡◌, refl, sym, ap, ◌∙◌, Bool, false, ◌||◌, Option, none, some, List, [], ◌∷◌, ◌++◌,
  append-nil, append_assoc, drop, Bytes,
}
use hr.Sse.Framer.{
  SseEvent, SseFramer, new, is_done_sentinel, parse_event_block, find_double_newline, push, drain,
  feed,
}
use hr.Sse.Framer.Frames.{Frames, stop, frame, Frames-total, Frames-append}
use hr.Sse.Framer.Drain.{onto, events_of, done_after, drain-Frames}

-- A buffer has one split into blocks.
Frames-unique :
    {buf rest rest' : Bytes} {blocks blocks' : List Bytes}
    → Frames buf blocks rest
    → Frames buf blocks' rest'
    → (blocks ≡ blocks') × (rest ≡ rest')
Frames-unique (stop e) (stop e') = (refl, refl)
Frames-unique (stop e) (frame end term e' f) = cc
Frames-unique (frame end term e f) (stop e') = cc
Frames-unique {buf} (frame end term e f) (frame {blocks} {rest} end' term' e' f') =
    let same : (end ≡ end') × (term ≡ term') = (cc, cc) in
    let f'' : Frames (drop (end + term) buf) blocks rest = rw (same.0, same.1) f' in
    let (b, r) = Frames-unique f f'' in (cc (same.0, b), r)

Frames-rest :
    {buf rest : Bytes} {blocks : List Bytes}
    → Frames buf blocks rest
    → find_double_newline rest ≡ none
Frames-rest (stop e) = e
Frames-rest (frame end term e f) = Frames-rest f

onto-append : (o : Option SseEvent) (xs ys : List SseEvent) → onto o (xs ++ ys) ≡ onto o xs ++ ys
onto-append none xs ys = refl
onto-append (some e) xs ys = refl

events_of-append : (xs ys : List Bytes) → events_of (xs ++ ys) ≡ events_of xs ++ events_of ys
events_of-append [] ys = refl
events_of-append (x ∷ xs) ys =
    ap (onto (parse_event_block x)) (events_of-append xs ys)
    ∙ onto-append (parse_event_block x) (events_of xs) (events_of ys)

done_after-append :
    (done : Bool) (xs ys : List SseEvent)
    → done_after done (xs ++ ys) ≡ done_after (done_after done xs) ys
done_after-append done [] ys = refl
done_after-append done (x ∷ xs) ys = done_after-append (is_done_sentinel x || done) xs ys

push-append : (f : SseFramer) (chunk : Bytes) → push f chunk ≡ record f { buf = f.buf ++ chunk }
unfolding push
push-append f [] = rw append-nil
push-append f (b ∷ bs) = refl

abbrev pub outcome : Bool → List Bytes → Bytes → List SseEvent × SseFramer
outcome done blocks rest =
    (events_of blocks, record { buf = rest; done_seen = done_after done (events_of blocks) })

feed-Frames :
    (chunks : List Bytes) (f : SseFramer)
    → find_double_newline f.buf ≡ none
    → (blocks : List Bytes) × (rest : Bytes) × Frames (f.buf ++ flatten chunks) blocks rest
      × (feed f chunks ≡ outcome f.done_seen blocks rest)
unfolding feed flatten
feed-Frames [] f h = ([], f.buf, rw append-nil (stop h), refl)
feed-Frames (c ∷ cs) f h =
    let (b, r, first) = Frames-total (f.buf ++ c) in
    let f' : SseFramer = record { buf = r; done_seen = done_after f.done_seen (events_of b) } in
    let (b', r', later, e) = feed-Frames cs f' (Frames-rest first) in
    (
      b ++ b',
      r',
      rw (← append_assoc) (Frames-append (flatten cs) first later),
      ap (λ (p : List SseEvent × SseFramer). (p.0 ++ (feed p.1 cs).0, (feed p.1 cs).1))
            (ap drain (push-append f c) ∙ drain-Frames f.done_seen first)
          ∙ ap (λ (q : List SseEvent × SseFramer). (events_of b ++ q.0, q.1)) e
          ∙ cc (events_of-append b b', done_after-append f.done_seen (events_of b) (events_of b')),
    )

-- However a byte stream is cut into chunks, the framer yields the same events in the same order, the
-- same unframed rest, and the same `done_seen`.
pub feed-flatten :
    (chunks chunks' : List Bytes)
    → flatten chunks ≡ flatten chunks'
    → feed new chunks ≡ feed new chunks'
unfolding find_double_newline
feed-flatten chunks chunks' same =
    let (b, r, f, e) = feed-Frames chunks new refl in
    let (b', r', f', e') = feed-Frames chunks' new refl in
    let f'' : Frames (flatten chunks) b' r' = rw same f' in
    let (eb, er) = Frames-unique f f'' in e ∙ cc (eb, er) ∙ sym e'

-- The framer yields the events of the blocks of the stream in order, and keeps the unterminated rest.
pub feed-events :
    (chunks : List Bytes) {blocks : List Bytes} {rest : Bytes}
    → Frames (flatten chunks) blocks rest
    → feed new chunks ≡ outcome false blocks rest
unfolding find_double_newline
feed-events chunks f =
    let (b', r', f', e') = feed-Frames chunks new refl in
    let (eb, er) = Frames-unique f f' in e' ∙ cc (eb, er)
