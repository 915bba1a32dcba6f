-- ===== src/Compress/Plan.antt =====
-- src/compression.rs, "Live-zone planning": what the plans of the four shapes share. A plan pushes its
-- slots behind those that are there: here it returns those that it pushes.
pub mod Anthropic
pub mod OpenAi
pub mod Spans
pub mod Surgery
pub mod Blocks
pub mod Eligible
pub mod Taken
pub mod Frozen
pub mod Latest
mod Tests
use hr.Prelude.{
  ℕ, zero, suc, ◌+◌, max, Bool, true, false, ◌&&◌, ◌||◌, Option, none, some, List, [], ◌∷◌, ◌++◌,
  if◌then◌else◌, eq_text, any, length, lit, String, Text,
}
use hr.Prelude.Strings.{contains}
use hr.Json.{
  Value, string, array, object, Values, no_values, value_then, Fields, no_fields, field_then, get,
  as_str, as_array, and_then, unwrap_or, get_str, elements,
}
use hr.Sse.Stream.Apply.{is_str, is_retrieve_tool_name}
use hr.Compress.{PlanSlot}
use hr.Compress.Views.{View, Serde, offset_of, starts_with_byte}

abbrev pub live_zone_min_bytes : ℕ
live_zone_min_bytes = 512

abbrev pub responses_output_min_bytes : ℕ
responses_output_min_bytes = 512

abbrev pub is_some {ℓ} : {A : Type ℓ} → Option A → Bool
is_some none = false
is_some (some _) = true

-- What the conversions of a plan are given besides the text: the segment with the offset of its
-- first byte, and the batch request.
pub record Segment : Type 0 where
  pub view : View
  pub base : ℕ
  pub batch_request_index : Option ℕ

module _ (Q : Serde) where
  -- The slot of a string token of the segment, if its offset and its text are found.
  unfoldable pub string_slot : Segment → ℕ → String → View → List PlanSlot
  unfolding offset_of
  string_slot segment min_bytes label token = elim (offset_of segment.view token) [
    | none ↦ []
    | some offset ↦ elim (Q.string_of token) [
      | none ↦ []
      | some text ↦
          record {
            start = segment.base + offset;
            end = segment.base + offset + length token.bytes;
            text = text;
            min_bytes = min_bytes;
            batch_request_index = segment.batch_request_index;
            label = lit label;
          }
          ∷ []
    ]
  ]

  -- The same of a token that may be absent or no string.
  unfoldable pub quoted_slot : Segment → ℕ → String → Option View → List PlanSlot
  unfolding string_slot starts_with_byte
  quoted_slot segment min_bytes label none = []
  quoted_slot segment min_bytes label (some token) =
      if starts_with_byte b'"' token then string_slot segment min_bytes label token else []

-- The reason of a plan that pushed no slot.
abbrev pub reason_of : List PlanSlot → Option Text
reason_of [] = some (lit "no_live_zone_text")
reason_of (_ ∷ _) = none

unfoldable pub has_cache_control : Value → Bool
has_cache_control value = is_some (get (lit "cache_control") value)

-- `anthropic_content_has_cache_control`, and `anthropic_system_has_cache_control`, which is the same
unfoldable pub anthropic_content_has_cache_control : Option Value → Bool
unfolding has_cache_control
anthropic_content_has_cache_control (some (array blocks)) = any has_cache_control (elements blocks)
anthropic_content_has_cache_control (some (object block)) = has_cache_control (object block)
anthropic_content_has_cache_control _ = false

-- The largest `index + 1` of a message with `cache_control`
unfoldable pub frozen_from : ℕ → List Value → ℕ
unfolding anthropic_content_has_cache_control
frozen_from index [] = 0
frozen_from index (message ∷ messages) =
    let rest = frozen_from (index + 1) messages in
    if anthropic_content_has_cache_control (get (lit "content") message)
    then max (index + 1) rest
    else rest

unfoldable pub anthropic_frozen_message_count : List Value → ℕ
unfolding frozen_from
anthropic_frozen_message_count messages = frozen_from 0 messages

unfoldable pub is_responses_output_item : Text → Bool
is_responses_output_item kind = any (eq_text kind) (
    lit "function_call_output" ∷ lit "local_shell_call_output" ∷ lit "apply_patch_call_output" ∷ [])

-- `ids.push(id)`, where there is one
abbrev pub push_id : Option Text → List Text → List Text
push_id none ids = ids
push_id (some id) ids = id ∷ ids

unfoldable pub ids_of_calls : List Value → List Text
ids_of_calls [] = []
ids_of_calls (call ∷ calls) =
    let later = ids_of_calls calls in
    if is_retrieve_tool_name
      (unwrap_or [] (and_then (get (lit "function") call) (get_str (lit "name"))))
    then push_id (get_str (lit "id") call) later
    else later

unfoldable pub headroom_retrieve_tool_call_ids : List Value → List Text
unfolding ids_of_calls
headroom_retrieve_tool_call_ids [] = []
headroom_retrieve_tool_call_ids (message ∷ messages) =
    ids_of_calls (unwrap_or [] (and_then (get (lit "tool_calls") message) as_array))
    ++ headroom_retrieve_tool_call_ids messages

unfoldable pub responses_retrieve_call_ids : List Value → List Text
responses_retrieve_call_ids [] = []
responses_retrieve_call_ids (item ∷ items) =
    let later = responses_retrieve_call_ids items in
    if is_str "function_call" (get_str (lit "type") item)
      && is_retrieve_tool_name (unwrap_or [] (get_str (lit "name") item))
    then push_id (get_str (lit "call_id") item) later
    else later

unfoldable mutual
  pub value_contains_ccr_marker : Value → Bool
  value_contains_ccr_marker (string text) = contains (lit "<<ccr:") text
  value_contains_ccr_marker (array values) = values_contain_ccr_marker values
  value_contains_ccr_marker (object fields) = fields_contain_ccr_marker fields
  value_contains_ccr_marker _ = false

  pub values_contain_ccr_marker : Values → Bool
  values_contain_ccr_marker no_values = false
  values_contain_ccr_marker (value_then value values) =
      value_contains_ccr_marker value || values_contain_ccr_marker values

  pub fields_contain_ccr_marker : Fields → Bool
  fields_contain_ccr_marker no_fields = false
  fields_contain_ccr_marker (field_then _ value rest) =
      value_contains_ccr_marker value || fields_contain_ccr_marker rest
