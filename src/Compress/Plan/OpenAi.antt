-- ===== src/Compress/Plan/OpenAi.antt =====
-- src/compression.rs: `plan_openai_chat`, `plan_openai_user_content` and `plan_openai_responses`.
use mathlib.Core.List.{reverse}
use hr.Prelude.{
  ℕ, ◌+◌, ◌-◌, max, Bool, not, ◌&&◌, ◌||◌, Option, none, some, List, [], ◌∷◌, ◌++◌, ltb,
  if◌then◌else◌, eq_text, any, lit, Text,
}
use hr.Json.{Value, get, as_array, and_then, or_else, unwrap_or, is_some_and}
use hr.Sse.Stream.Apply.{is_retrieve_tool_name}
use hr.Session.Estimates.{responses_estimate_prefix_len}
use hr.Compress.{PlanSlot}
use hr.Compress.Views.{
  View, Serde, MessageHeader, BlockHeader, ResponsesItemHeader, starts_with_byte,
}
use hr.Compress.Plan.{
  Segment, live_zone_min_bytes, responses_output_min_bytes, is_some, string_slot, quoted_slot,
  reason_of, headroom_retrieve_tool_call_ids, responses_retrieve_call_ids, is_responses_output_item,
}

-- `messages.iter().enumerate()`, from number `index` on
unfoldable pub enumerate : ℕ → List View → List (ℕ × View)
enumerate index [] = []
enumerate index (v ∷ vs) = (index, v) ∷ enumerate (index + 1) vs

-- `known.iter().any(|known| known == id)`, of an identifier that may be absent
abbrev pub is_known : List Text → Option Text → Bool
is_known ids id = is_some_and (λ i. any (eq_text i) ids) id

abbrev pub has_role : Text → MessageHeader → Bool
has_role role header = is_some_and (λ r. eq_text r role) header.role

-- A result of a tool that is not the answer to a retrieval.
unfoldable pub is_tool_message : List Text → MessageHeader → Bool
is_tool_message ids header =
    has_role (lit "tool") header
    && not (is_some_and is_retrieve_tool_name header.name || is_known ids header.tool_call_id)

unfoldable pub is_user_message : MessageHeader → Bool
is_user_message header = has_role (lit "user") header

-- `if latest.is_none() { latest = Some(header) }`, for a header that is wanted
abbrev pub keep_first : Bool → MessageHeader → Option MessageHeader → Option MessageHeader
keep_first wanted header (some latest) = some latest
keep_first wanted header none = if wanted then some header else none

-- The latest result of a tool, and the latest message of a user.
pub record Latest : Type 0 where
  pub tool : Option MessageHeader
  pub user : Option MessageHeader

unfoldable pub note_header : List Text → Option MessageHeader → Latest → Latest
unfolding is_tool_message is_user_message
note_header ids none latest = latest
note_header ids (some header) latest = record {
  tool = keep_first (is_tool_message ids header) header latest.tool;
  user = keep_first (is_user_message header) header latest.user;
}

module _ (Q : Serde) where
  -- The loop from the last message backwards, to the floor, or until both are found.
  unfoldable pub scan : List Text → ℕ → List (ℕ × View) → Latest → Latest
  unfolding note_header
  scan ids floor [] latest = latest
  scan ids floor ((index, message) ∷ rest) latest =
      let noted = note_header ids (Q.message_header message) latest in
      let later = scan ids floor rest noted in
      if ltb index floor
      then latest
      else if is_some noted.tool && is_some noted.user
      then noted
      else later

  unfoldable pub part_slots : Segment → Option BlockHeader → List PlanSlot
  unfolding quoted_slot
  part_slots body none = []
  part_slots body (some part) =
      if is_some_and (eq_text (lit "text")) part.kind
      then quoted_slot Q body live_zone_min_bytes "openai.user_text" part.text
      else []

  unfoldable pub plan_parts : Segment → List View → List PlanSlot
  unfolding part_slots
  plan_parts body [] = []
  plan_parts body (part ∷ parts) = part_slots body (Q.block_header part) ++ plan_parts body parts

  unfoldable pub plan_openai_user_content : Segment → View → List PlanSlot
  unfolding plan_parts string_slot starts_with_byte
  plan_openai_user_content body content =
      if starts_with_byte b'"' content
      then string_slot Q body live_zone_min_bytes "openai.user_string" content
      else if starts_with_byte b'[' content
      then plan_parts body (unwrap_or [] (Q.raw_values content))
      else []

  unfoldable pub tool_slots : Segment → Option MessageHeader → List PlanSlot
  unfolding quoted_slot
  tool_slots body none = []
  tool_slots body (some header) =
      quoted_slot Q body live_zone_min_bytes "openai.tool_content" header.content

  unfoldable pub user_slots : Segment → Bool → Option MessageHeader → List PlanSlot
  unfolding plan_openai_user_content
  user_slots body compress_user_text none = []
  user_slots body compress_user_text (some header) =
      if compress_user_text
      then elim header.content [ none ↦ [] | some content ↦ plan_openai_user_content body content ]
      else []

  unfoldable pub plan_latest : Segment → Bool → Latest → Option Text × List PlanSlot
  unfolding tool_slots user_slots
  plan_latest body compress_user_text latest =
      let slots = tool_slots body latest.tool ++ user_slots body compress_user_text latest.user in
      if not (is_some latest.tool || is_some latest.user)
      then (some (lit "no_live_zone_message"), [])
      else (reason_of slots, slots)

  unfoldable pub plan_chat_viewed :
      Segment → Value → Bool → ℕ → Option (Option (List View)) → Option Text × List PlanSlot
  unfolding scan plan_latest enumerate
  plan_chat_viewed body parsed compress_user_text floor (some (some messages)) =
      let ids =
        headroom_retrieve_tool_call_ids
          (unwrap_or [] (and_then (get (lit "messages") parsed) as_array)) in
      plan_latest body compress_user_text
        (scan ids floor (reverse (enumerate 0 messages)) (record { tool = none; user = none }))
  plan_chat_viewed body parsed compress_user_text floor _ = (some (lit "missing_messages"), [])

  unfoldable pub plan_openai_chat : Segment → Value → Bool → ℕ → Option Text × List PlanSlot
  unfolding plan_chat_viewed
  plan_openai_chat body parsed compress_user_text floor =
      plan_chat_viewed body parsed compress_user_text floor (Q.messages_view body.view)

  -- One item of a Responses request: the output of a call that is no retrieval.
  unfoldable pub item_slots : Segment → List Text → Option ResponsesItemHeader → List PlanSlot
  unfolding quoted_slot is_responses_output_item
  item_slots body ids none = []
  item_slots body ids (some header) =
      if not (is_responses_output_item (unwrap_or [] header.kind)) || is_known ids header.call_id
      then []
      else quoted_slot Q body (max responses_output_min_bytes live_zone_min_bytes)
          "responses.output" header.output

  -- The loop over the items, from number `index` on.
  unfoldable pub plan_items : Segment → List Text → ℕ → ℕ → List View → List PlanSlot
  unfolding item_slots
  plan_items body ids frozen index [] = []
  plan_items body ids frozen index (item ∷ items) =
      (if ltb index frozen then [] else item_slots body ids (Q.responses_item item))
      ++ plan_items body ids frozen (index + 1) items

  unfoldable pub plan_items_viewed :
      Segment → Value → ℕ → Option (List View) → Option Text × List PlanSlot
  unfolding plan_items
  plan_items_viewed body parsed frozen_item_count none = (some (lit "unsupported_input"), [])
  plan_items_viewed body parsed frozen_item_count (some items) =
      let ids = responses_retrieve_call_ids (
        unwrap_or []
          (and_then (or_else (get (lit "input") parsed) (get (lit "messages") parsed)) as_array)) in
      let frozen = frozen_item_count - responses_estimate_prefix_len parsed in
      let slots = plan_items body ids frozen 0 items in (reason_of slots, slots)

  unfoldable pub plan_input : Segment → Value → ℕ → Option View → Option Text × List PlanSlot
  unfolding plan_items_viewed starts_with_byte
  plan_input body parsed frozen_item_count none = (some (lit "missing_input"), [])
  plan_input body parsed frozen_item_count (some input) =
      if starts_with_byte b'[' input
      then plan_items_viewed body parsed frozen_item_count (Q.raw_values input)
      else (some (lit "unsupported_input"), [])

  unfoldable pub plan_openai_responses : Segment → Value → ℕ → Option Text × List PlanSlot
  unfolding plan_input
  plan_openai_responses body parsed frozen_item_count = elim (Q.responses_view body.view) [
    | none ↦ (some (lit "missing_input"), [])
    | some view ↦ plan_input body parsed frozen_item_count (or_else view.input view.messages)
  ]
