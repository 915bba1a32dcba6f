-- ===== src/Session/Estimates.antt =====
-- src/session.rs: the token estimates of messages, by which confirmed tokens become a number of
-- messages. `serde_json::to_string` is the argument `to_string`. `chars / 3.5` is exact below 2^50
-- characters.
pub mod Aligned
use hr.Prelude.{
  ℕ, ◌+◌, ◌*◌, ◌/◌, max, Bool, true, false, Option, none, some, List, [], ◌∷◌, ◌++◌, map, length,
  if◌then◌else◌, eq_text, lit, Text,
}
use hr.Prelude.Strings.{is_empty}
use hr.Json.{
  Value, string, array, object, Values, no_values, value_then, Fields, no_fields, field_then, get,
  get_str, elements, unwrap_or,
}

-- `((chars as f64) / 3.5).floor().max(1.0) as u64`, of the characters with 20 more
unfoldable pub text_token_estimate : ℕ → ℕ
text_token_estimate chars = max ((chars + 20) * 2 / 7) 1

abbrev pub chars_of : Option Text → ℕ
chars_of none = 0
chars_of (some text) = length text

-- The `text` fields of the parts of an array, summed.
unfoldable pub part_chars : List Value → ℕ
part_chars [] = 0
part_chars (part ∷ parts) = chars_of (get_str (lit "text") part) + part_chars parts

-- A string's characters, or those of an array's parts.
unfoldable pub content_chars : Option Value → ℕ
unfolding part_chars
content_chars (some (string content)) = length content
content_chars (some (array parts)) = part_chars (elements parts)
content_chars _ = 0

module _ (to_string : Value → Text) where
  unfoldable pub input_chars : Option Value → ℕ
  input_chars (some (string input)) = length input
  input_chars (some (object fields)) = length (to_string (object fields))
  input_chars _ = 0

  unfoldable pub object_chars : Value → ℕ
  unfolding content_chars input_chars
  object_chars block =
      let kind = unwrap_or [] (get_str (lit "type") block) in
      if eq_text kind (lit "tool_result")
      then content_chars (get (lit "content") block)
      else if eq_text kind (lit "tool_use")
      then input_chars (get (lit "input") block)
      else chars_of (get_str (lit "text") block)

  -- A block that is no object counts for nothing.
  unfoldable pub block_chars : Value → ℕ
  unfolding object_chars
  block_chars (object fields) = object_chars (object fields)
  block_chars _ = 0

  unfoldable pub blocks_chars : List Value → ℕ
  unfolding block_chars
  blocks_chars [] = 0
  blocks_chars (block ∷ blocks) = block_chars block + blocks_chars blocks

  unfoldable pub message_chars : Option Value → ℕ
  unfolding blocks_chars
  message_chars (some (string content)) = length content
  message_chars (some (array blocks)) = blocks_chars (elements blocks)
  message_chars _ = 0

  unfoldable pub estimate_message_tokens : List Value → List ℕ
  unfolding message_chars text_token_estimate
  estimate_message_tokens =
      map (λ message. text_token_estimate (message_chars (get (lit "content") message)))

  unfoldable pub item_chars : Value → ℕ
  item_chars item =
      chars_of (get_str (lit "output") item)
      + chars_of (get_str (lit "text") item)
      + chars_of (get_str (lit "arguments") item)
      + content_chars (get (lit "content") item)

  unfoldable pub estimate_response_item_tokens : List Value → List ℕ
  unfolding item_chars text_token_estimate
  estimate_response_item_tokens = map (λ item. text_token_estimate (item_chars item))

  -- The synthetic system entry.
  unfoldable pub instructions_estimates : Option Value → List ℕ
  unfolding estimate_message_tokens
  instructions_estimates (some (string instructions)) =
      if is_empty instructions then [] else text_token_estimate (length instructions) ∷ []
  instructions_estimates (some (array no_values)) = []
  instructions_estimates (some (array (value_then item items))) = estimate_message_tokens (
      object (
        field_then (lit "role") (string (lit "system"))
          (field_then (lit "content") (array (value_then item items)) no_fields))
      ∷ [])
  instructions_estimates _ = []

  unfoldable pub messages_estimates : Option Value → List ℕ
  unfolding estimate_response_item_tokens
  messages_estimates (some (array items)) = estimate_response_item_tokens (elements items)
  messages_estimates _ = []

  unfoldable pub input_estimates : Option Value → Value → List ℕ
  unfolding messages_estimates
  input_estimates (some (string input)) body = text_token_estimate (length input) ∷ []
  input_estimates (some (array items)) body = estimate_response_item_tokens (elements items)
  input_estimates _ body = messages_estimates (get (lit "messages") body)

  unfoldable pub estimate_responses_request_tokens : Value → List ℕ
  unfolding instructions_estimates input_estimates
  estimate_responses_request_tokens body =
      instructions_estimates (get (lit "instructions") body)
      ++ input_estimates (get (lit "input") body) body

unfoldable pub prefix_len_of : Option Value → ℕ
prefix_len_of (some (string instructions)) = if is_empty instructions then 0 else 1
prefix_len_of (some (array no_values)) = 0
prefix_len_of (some (array (value_then item items))) = 1
prefix_len_of _ = 0

unfoldable pub responses_estimate_prefix_len : Value → ℕ
unfolding prefix_len_of
responses_estimate_prefix_len body = prefix_len_of (get (lit "instructions") body)
