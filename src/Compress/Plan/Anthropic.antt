-- ===== src/Compress/Plan/Anthropic.antt =====
-- src/compression.rs: `plan_anthropic_segment` and `plan_anthropic_batches`. The loops over the
-- messages and the blocks return the slots that they push.
use hr.Prelude.{
  ℕ, ◌+◌, max, Bool, ◌&&◌, ◌||◌, Option, none, some, List, [], ◌∷◌, ◌++◌, ltb, leb, if◌then◌else◌,
  eq_text, any, length, lit, Text,
}
use hr.Json.{Value, get, as_array, and_then, unwrap_or}
use hr.Compress.{PlanSlot}
use hr.Compress.Views.{View, Serde, MessageHeader, BlockHeader, offset_of, starts_with_byte}
use hr.Compress.Plan.{
  Segment, live_zone_min_bytes, is_some, string_slot, quoted_slot, reason_of,
  anthropic_frozen_message_count,
}

abbrev pub hot_zone_block_types : List Text
hot_zone_block_types =
    lit "tool_use" ∷ lit "thinking" ∷ lit "redacted_thinking" ∷ lit "compaction" ∷ []

unfoldable pub cache_control_floor : Value → ℕ
unfolding anthropic_frozen_message_count
cache_control_floor segment_value = elim (and_then (get (lit "messages") segment_value) as_array) [
  | none ↦ 0
  | some messages ↦ anthropic_frozen_message_count messages
]

module _ (Q : Serde) (compress_user_text : Bool) where
  -- The slot of one block, by its type: user text only where that is opted in.
  unfoldable pub typed_slots : Segment → Text → Text → BlockHeader → List PlanSlot
  unfolding quoted_slot
  typed_slots segment role kind block =
      if eq_text kind (lit "tool_result")
      then quoted_slot Q segment live_zone_min_bytes "anthropic.tool_result" block.content
      else if eq_text kind (lit "text") && (eq_text role (lit "user") && compress_user_text)
      then quoted_slot Q segment live_zone_min_bytes "anthropic.text" block.text
      else []

  unfoldable pub block_slots : Segment → Text → Option BlockHeader → List PlanSlot
  unfolding typed_slots
  block_slots segment role none = []
  block_slots segment role (some block) =
      let kind = unwrap_or [] block.kind in
      if is_some block.cache_control || any (eq_text kind) hot_zone_block_types
      then []
      else typed_slots segment role kind block

  -- The loop over the blocks of a message.
  unfoldable pub plan_blocks : Segment → Text → List View → List PlanSlot
  unfolding block_slots
  plan_blocks segment role [] = []
  plan_blocks segment role (block ∷ blocks) =
      block_slots segment role (Q.block_header block) ++ plan_blocks segment role blocks

  unfoldable pub content_slots : Segment → Text → View → List PlanSlot
  unfolding plan_blocks string_slot starts_with_byte
  content_slots segment role content =
      if starts_with_byte b'"' content
      then (if eq_text role (lit "user") && compress_user_text
          then string_slot Q segment live_zone_min_bytes "anthropic.string_content" content
          else [])
      else if starts_with_byte b'[' content
      then plan_blocks segment role (unwrap_or [] (Q.raw_values content))
      else []

  -- A message behind its header; a content whose offset is not found has no slot.
  unfoldable pub header_slots : Segment → Option MessageHeader → List PlanSlot
  unfolding content_slots offset_of
  header_slots segment none = []
  header_slots segment (some header) = elim header.content [
    | none ↦ []
    | some content ↦
        if is_some (offset_of segment.view content)
        then content_slots segment (unwrap_or [] header.role) content
        else []
  ]

  unfoldable pub message_slots : Segment → View → List PlanSlot
  unfolding header_slots
  message_slots segment message = header_slots segment (Q.message_header message)

  -- The loop over the messages, from number `index` on.
  unfoldable pub plan_messages : Segment → ℕ → ℕ → List View → List PlanSlot
  unfolding message_slots
  plan_messages segment floor index [] = []
  plan_messages segment floor index (message ∷ messages) =
      (if ltb index floor then [] else message_slots segment message)
      ++ plan_messages segment floor (index + 1) messages

  -- The slots, with the reason where there are none.
  unfoldable pub plan_above : Segment → ℕ → List View → Option Text × List PlanSlot
  unfolding plan_messages
  plan_above segment floor messages =
      let slots = plan_messages segment floor 0 messages in
      if leb (length messages) floor
      then (some (lit "no_live_zone_message"), [])
      else (reason_of slots, slots)

  unfoldable pub plan_viewed :
      Segment → ℕ → Option (Option (List View)) → Option Value → Option Text × List PlanSlot
  unfolding plan_above cache_control_floor
  plan_viewed segment extra_floor (some (some messages)) (some segment_value) =
      plan_above segment (max extra_floor (cache_control_floor segment_value)) messages
  plan_viewed segment extra_floor _ _ = (some (lit "missing_messages"), [])

  unfoldable pub plan_anthropic_segment : Segment → ℕ → Option Text × List PlanSlot
  unfolding plan_viewed
  plan_anthropic_segment segment extra_floor =
      plan_viewed segment extra_floor (Q.messages_view segment.view) (Q.value_of segment.view)

  -- One request of a batch: its parameters are a segment of their own.
  unfoldable pub request_slots : View → ℕ → Option (Option View) → List PlanSlot
  unfolding plan_anthropic_segment offset_of
  request_slots body index (some (some params)) = elim (offset_of body params) [
    | none ↦ []
    | some offset ↦
        (plan_anthropic_segment
          (record { view = params; base = offset; batch_request_index = some index }) 0).1
  ]
  request_slots body index _ = []

  unfoldable pub plan_requests : View → ℕ → List View → List PlanSlot
  unfolding request_slots
  plan_requests body index [] = []
  plan_requests body index (request ∷ requests) =
      request_slots body index (Q.batch_request_view request)
      ++ plan_requests body (index + 1) requests

  unfoldable pub plan_batches_viewed :
      View → Option (Option (List View)) → Option Text × List PlanSlot
  unfolding plan_requests
  plan_batches_viewed body (some (some requests)) =
      let slots = plan_requests body 0 requests in (reason_of slots, slots)
  plan_batches_viewed body _ = (some (lit "missing_requests"), [])

  unfoldable pub plan_anthropic_batches : View → Option Text × List PlanSlot
  unfolding plan_batches_viewed
  plan_anthropic_batches body = plan_batches_viewed body (Q.batch_view body)
