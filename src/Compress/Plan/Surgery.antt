-- ===== src/Compress/Plan/Surgery.antt =====
-- That the plans of the Anthropic shapes never make the byte surgery panic.
use hr.Prelude.{
  ℕ, ◌+◌, ◌-◌, ◌≤◌, ◌≡◌, ◌≢◌, refl, ap, inl, inr, Bool, Option, none, some, List, [], ◌∷◌, ◌++◌,
  ◌∙◌, leb, max, length, Bool-cases, Option-cases, arith, Text, Bytes,
}
use hr.Json.{Value}
use hr.Stats.{Stats}
use hr.Splice.{Replacement, insert, sort_by_start, apply_replacements}
use hr.Splice.Panics.{Fits, fitting}
use hr.Ccr.{CcrStore}
use hr.Compress.{PlanSlot, Compressed, collect, compress_slot, compress_slots}
use hr.Compress.Slots.{compress_slot-IsReplaced}
use hr.Compress.Views.{View, Serde, SerdeLaws, InOrder, end_of, offset_of, offset_of-Inside}
use hr.Compress.Plan.{Segment}
use hr.Compress.Plan.Anthropic.{
  cache_control_floor, plan_above, plan_viewed, plan_anthropic_segment, request_slots,
  plan_requests, plan_batches_viewed, plan_anthropic_batches,
}
use hr.Compress.Plan.Spans.{Spans, Spans-append, Spans-wider, place, plan_messages-Spans}

-- The same of replacements.
abbrev Ranges : ℕ → ℕ → List Replacement → Type 0
Ranges lo hi [] = lo ≤ hi
Ranges lo hi (r ∷ rs) = (lo ≤ r.start) × (r.start ≤ r.end) × Ranges r.end hi rs

Ranges-le : (lo hi : ℕ) (rs : List Replacement) → Ranges lo hi rs → lo ≤ hi
Ranges-le lo hi [] h = h
Ranges-le lo hi (r ∷ rs) h = omega (arith, Ranges-le r.end hi rs h.2)

Ranges-snoc :
    (lo a b : ℕ) (rs : List Replacement) (r : Replacement)
    → Ranges lo a rs
    → a ≤ r.start
    → r.start ≤ r.end
    → r.end ≤ b
    → Ranges lo b (rs ++ r ∷ [])
Ranges-snoc lo a b [] r h p q k = (omega arith, q, k)
Ranges-snoc lo a b (x ∷ rs) r h p q k = (h.0, h.1, Ranges-snoc x.end a b rs r h.2 p q k)

Ranges-wider : (lo a b : ℕ) (rs : List Replacement) → Ranges lo a rs → a ≤ b → Ranges lo b rs
Ranges-wider lo a b [] h p = omega arith
Ranges-wider lo a b (x ∷ rs) h p = (h.0, h.1, Ranges-wider x.end a b rs h.2 p)

insert-Ranges :
    (r : Replacement) (hi : ℕ) (rs : List Replacement)
    → r.start ≤ r.end
    → Ranges r.end hi rs
    → insert r rs ≡ r ∷ rs
unfolding insert
insert-Ranges r hi [] le h = refl
insert-Ranges r hi (x ∷ rs) le h = ground arith

-- Ranges in order are sorted.
sort_by_start-Ranges : (lo hi : ℕ) (rs : List Replacement) → Ranges lo hi rs → sort_by_start rs ≡ rs
unfolding sort_by_start
sort_by_start-Ranges lo hi [] h = refl
sort_by_start-Ranges lo hi (r ∷ rs) h =
    ap (insert r) (sort_by_start-Ranges r.end hi rs h.2) ∙ insert-Ranges r hi rs h.1 h.2

Ranges-Fits : (lo hi : ℕ) (rs : List Replacement) → Ranges lo hi rs → Fits hi lo rs
Ranges-Fits lo hi [] h = h
Ranges-Fits lo hi (r ∷ rs) h = (h.0, h.1, Ranges-Fits r.end hi rs h.2)

abbrev pub nothing_compressed : Compressed
nothing_compressed = record { replacements = []; hashes = []; batch_requests = [] }

module _ (sha256 : Bytes → Bytes) (S : CcrStore) (json_string : Text → Bytes) where
  collect-Ranges :
      (lo a : ℕ) (slot : PlanSlot) (o : Option (Replacement × Text)) (c : Compressed) (s : S.State)
      (stats : Stats)
      → Ranges lo a c.replacements
      → a ≤ slot.start
      → slot.start ≤ slot.end
      → (compress_slot sha256 S json_string slot s stats).0 ≡ o
      → Ranges lo slot.end (collect slot o c).replacements
  unfolding collect
  collect-Ranges lo a slot none c s stats h p q e =
      Ranges-wider lo a slot.end c.replacements h (omega arith)
  collect-Ranges lo a slot (some (r, hash)) c s stats h p q e =
      let replaced = compress_slot-IsReplaced sha256 S json_string slot s stats r hash e in
      let from = replaced.start_of in
      let to = replaced.end_of in
      Ranges-snoc lo a slot.end c.replacements r h (omega arith) (omega arith) (omega arith)

  compress_slots-Ranges :
      (lo a hi : ℕ) (slots : List PlanSlot) (c : Compressed) (s : S.State) (stats : Stats)
      → Ranges lo a c.replacements
      → Spans a hi slots
      → Ranges lo hi (compress_slots sha256 S json_string slots c s stats).0.replacements
  unfolding compress_slots
  compress_slots-Ranges lo a hi [] c s stats h k = Ranges-wider lo a hi c.replacements h k
  compress_slots-Ranges lo a hi (slot ∷ slots) c s stats h k =
      let (found, s', stats') = compress_slot sha256 S json_string slot s stats in
      compress_slots-Ranges lo slot.end hi slots (collect slot found c) s' stats'
        (collect-Ranges lo a slot found c s stats h k.0 k.1 refl) k.2

  -- Whatever is compressed of slots in order, the surgery fits.
  pub surgery-Fits :
      (body : Bytes) (slots : List PlanSlot) (s : S.State) (stats : Stats)
      → Spans 0 (length body) slots
      → apply_replacements body
          (compress_slots sha256 S json_string slots nothing_compressed s stats).0.replacements
        ≢ none
  surgery-Fits body slots s stats h =
      let ranges =
        compress_slots-Ranges 0 0 (length body) slots nothing_compressed s stats (omega arith) h in
      fitting body _
        (rw (sort_by_start-Ranges 0 (length body) _ ranges) (Ranges-Fits 0 (length body) _ ranges))

abbrev pub whole : View → Segment
whole body = record { view = body; base = 0; batch_request_index = none }

module _ (Q : Serde) (laws : SerdeLaws Q) (opted_in : Bool) where
  -- The slots of a plan lie inside its segment.
  abbrev SpansOf : Segment → List PlanSlot → Type 0
  SpansOf segment = Spans segment.base (segment.base + length segment.view.bytes)

  plan_above-Spans :
      (segment : Segment) (floor : ℕ) (messages : List View)
      → InOrder segment.view.at (end_of segment.view) messages
      → SpansOf segment (plan_above Q opted_in segment floor messages).1
  unfolding plan_above
  plan_above-Spans segment floor messages order =
      let slots =
        Spans-wider (place segment segment.view.at) (place segment (end_of segment.view))
          segment.base (segment.base + length segment.view.bytes) _
          (plan_messages-Spans Q segment laws opted_in floor 0 segment.view.at (end_of segment.view)
            messages (omega arith) order)
          (omega arith) (omega arith) in
      elim (Bool-cases (leb (length messages) floor)) [
        | inl e ↦ rw e (omega arith)
        | inr e ↦ rw e slots
      ]

  plan_viewed-Spans :
      (segment : Segment) (floor : ℕ) (o : Option (Option (List View))) (v : Option Value)
      → Q.messages_view segment.view ≡ o
      → SpansOf segment (plan_viewed Q opted_in segment floor o v).1
  unfolding plan_viewed
  plan_viewed-Spans segment floor (some (some messages)) (some v) h =
      plan_above-Spans segment (max floor (cache_control_floor v)) messages
        (laws.messages_inside segment.view messages h)
  plan_viewed-Spans segment floor (some (some messages)) none h = omega arith
  plan_viewed-Spans segment floor (some none) v h = omega arith
  plan_viewed-Spans segment floor none v h = omega arith

  plan_anthropic_segment-Spans :
      (segment : Segment) (floor : ℕ)
      → SpansOf segment (plan_anthropic_segment Q opted_in segment floor).1
  unfolding plan_anthropic_segment
  plan_anthropic_segment-Spans segment floor =
      plan_viewed-Spans segment floor (Q.messages_view segment.view) _ refl

  request_slots-Spans :
      (body request : View) (index : ℕ) (o : Option (Option View))
      → body.at ≤ request.at
      → Q.batch_request_view request ≡ o
      → Spans
          (request.at - body.at)
          (end_of request - body.at)
          (request_slots Q opted_in body index o)
  unfolding request_slots
  request_slots-Spans body request index (some (some params)) at_body h =
      let inside = laws.params_inside request params h in
      elim (Option-cases (offset_of body params)) [
        | inl e ↦ rw (e, request_slots) (omega arith)
        | inr (offset, e) ↦
            let (place_of, _) = offset_of-Inside body params offset e in
            let segment : Segment = record {
              view = params;
              base = offset;
              batch_request_index = some index;
            } in
            rw (e, request_slots)
              (Spans-wider offset (offset + length params.bytes) _ _ _
                (plan_anthropic_segment-Spans segment 0) (omega arith) (omega arith))
      ]
  request_slots-Spans body request index (some none) at_body h = omega arith
  request_slots-Spans body request index none at_body h = omega arith

  plan_requests-Spans :
      (body : View) (index lo hi : ℕ) (requests : List View)
      → body.at ≤ lo
      → InOrder lo hi requests
      → Spans (lo - body.at) (hi - body.at) (plan_requests Q opted_in body index requests)
  unfolding plan_requests
  plan_requests-Spans body index lo hi [] at_lo order = omega arith
  plan_requests-Spans body index lo hi (request ∷ requests) at_lo order =
      Spans-append (lo - body.at) (end_of request - body.at) (hi - body.at) _ _
        (Spans-wider (request.at - body.at) (end_of request - body.at) _ _ _
          (request_slots-Spans body request index _ (omega arith) refl) (omega arith) (omega arith))
        (plan_requests-Spans body (index + 1) (end_of request) hi requests (omega arith) order.1)

  plan_batches_viewed-Spans :
      (body : View) (o : Option (Option (List View)))
      → Q.batch_view body ≡ o
      → Spans 0 (length body.bytes) (plan_batches_viewed Q opted_in body o).1
  unfolding plan_batches_viewed
  plan_batches_viewed-Spans body (some (some requests)) h =
      Spans-wider (body.at - body.at) (end_of body - body.at) _ _ _
        (plan_requests-Spans body 0 body.at (end_of body) requests (omega arith)
          (laws.batch_inside body requests h))
        (omega arith) (omega arith)
  plan_batches_viewed-Spans body (some none) h = omega arith
  plan_batches_viewed-Spans body none h = omega arith

  -- Where a borrowed view lies in the text it was read from and elements stand one behind the
  -- other, the plans of an Anthropic request and of a batch never make the byte surgery panic: the
  -- slots they push, whichever of them are compressed, give replacements that lie inside the body
  -- and do not overlap.
  pub anthropic-surgery :
      (sha256 : Bytes → Bytes) (S : CcrStore) (json_string : Text → Bytes) (body : View) (floor : ℕ)
      (s : S.State) (stats : Stats)
      → (apply_replacements body.bytes
            (compress_slots sha256 S json_string
              (plan_anthropic_segment Q opted_in (whole body) floor).1
              nothing_compressed
              s
              stats).0.replacements
          ≢ none)
        × (apply_replacements body.bytes
              (compress_slots sha256 S json_string
                (plan_anthropic_batches Q opted_in body).1
                nothing_compressed
                s
                stats).0.replacements
            ≢ none)
  unfolding plan_anthropic_batches
  anthropic-surgery sha256 S json_string body floor s stats = (
    surgery-Fits sha256 S json_string body.bytes _ s stats (
        Spans-wider 0 (0 + length body.bytes) _ _ _
          (plan_anthropic_segment-Spans (whole body) floor) (omega arith) (omega arith)),
    surgery-Fits sha256 S json_string body.bytes _ s stats
        (plan_batches_viewed-Spans body (Q.batch_view body) refl),
  )
