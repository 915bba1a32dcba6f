-- ===== src/Compress/Tools/Append.antt =====
-- src/compression.rs: the definitions of the retrieval tool, and its injection into the tools of a
-- request: `plan_tool_append`, `plan_retrieve_tool_injection`, `plan_batch_retrieve_tool_injection`.
use hr.Prelude.{
  ℕ, zero, suc, ◌+◌, ◌-◌, Bool, Option, none, some, List, [], ◌∷◌, ◌++◌, ◌==◌, if◌then◌else◌, any,
  length, lit, Text, Bytes,
}
use hr.Prelude.Strings.{trim_end, ends_with, byte_len}
use hr.Json.{
  Value, null, string, array, object, get, as_array, and_then, or_else, unwrap_or, get_str,
  is_some_and, elements,
}
use hr.Json.Edit.{json_object, values_of}
use hr.Sse.Stream.Apply.{is_retrieve_tool_name}
use hr.Splice.{Replacement}
use hr.Compress.Views.{View, Serde, offset_of, text_of, ends_with_byte, interior_empty}

pub data ApiShape : Type 0 where
  open_ai_chat_completions open_ai_responses anthropic_messages anthropic_message_batches : ApiShape

abbrev string_property : Text → Value
string_property description = object (
    json_object
      ((lit "type", string (lit "string")) ∷ (lit "description", string description) ∷ []))

abbrev description : Text
description =
    lit
      "Retrieve original uncompressed content that was compressed to save tokens. Use this when a <<ccr:HASH>> marker is present and more detail is needed."

abbrev parameters : Value
parameters = object (
    json_object (
      (lit "type", string (lit "object"))
      ∷ (
        lit "properties",
        object (
            json_object (
              (lit "hash", string_property (lit "Hash from a <<ccr:HASH>> marker."))
              ∷ (
                lit "query",
                string_property (
                    lit
                      "Optional search query used to return matching lines instead of the full original content."),
              )
              ∷ [])),
      )
      ∷ (lit "required", array (values_of (string (lit "hash") ∷ [])))
      ∷ []))

unfoldable pub retrieve_function_definition : Value
unfolding json_object values_of
retrieve_function_definition = object (
    json_object (
      (lit "name", string (lit "headroom_retrieve"))
      ∷ (lit "description", string description)
      ∷ (lit "parameters", parameters)
      ∷ []))

-- `function[key].clone()`, which is null where the key is missing
abbrev of_function : Text → Value
of_function key = unwrap_or null (get key retrieve_function_definition)

unfoldable pub openai_chat_retrieve_tool : Value
openai_chat_retrieve_tool = object (
    json_object
      ((lit "type", string (lit "function")) ∷ (lit "function", retrieve_function_definition) ∷ []))

unfoldable pub openai_responses_retrieve_tool : Value
openai_responses_retrieve_tool = object (
    json_object (
      (lit "type", string (lit "function"))
      ∷ (lit "name", of_function (lit "name"))
      ∷ (lit "description", of_function (lit "description"))
      ∷ (lit "parameters", of_function (lit "parameters"))
      ∷ []))

unfoldable pub anthropic_retrieve_tool : Value
anthropic_retrieve_tool = object (
    json_object (
      (lit "name", of_function (lit "name"))
      ∷ (lit "description", of_function (lit "description"))
      ∷ (lit "input_schema", of_function (lit "parameters"))
      ∷ []))

-- The tool of a shape, and whether a tool is that already.
unfoldable pub retrieve_tool : ApiShape → Value
retrieve_tool open_ai_chat_completions = openai_chat_retrieve_tool
retrieve_tool open_ai_responses = openai_responses_retrieve_tool
retrieve_tool _ = anthropic_retrieve_tool

unfoldable pub is_retrieve_tool : ApiShape → Value → Bool
is_retrieve_tool open_ai_chat_completions tool =
    is_some_and is_retrieve_tool_name (and_then (get (lit "function") tool) (get_str (lit "name")))
is_retrieve_tool open_ai_responses tool = is_some_and is_retrieve_tool_name (
    or_else (get_str (lit "name") tool)
      (and_then (get (lit "function") tool) (get_str (lit "name"))))
is_retrieve_tool _ tool = is_some_and is_retrieve_tool_name (get_str (lit "name") tool)

-- A splice that puts bytes at a place and takes none away.
abbrev pub insertion : ℕ → Bytes → List Replacement
insertion place bytes = record { start = place; end = place; bytes = bytes } ∷ []

abbrev pub after_comma : Bool → Bytes → Bytes
after_comma first bytes = if first then bytes else b',' ∷ bytes

-- `segment.trim_end()`, and a field put in front of the closing brace that this ends with
abbrev pub trimmed : View → Text
trimmed segment = trim_end (text_of segment.bytes)

unfoldable pub insert_field : View → ℕ → Bytes → List Replacement
unfolding interior_empty
insert_field segment base bytes =
    if ends_with (lit "}") (trimmed segment)
    then insertion (base + byte_len (trimmed segment) - 1)
        (after_comma (interior_empty (trimmed segment)) bytes)
    else []

-- `requests.get(index)`
unfoldable pub nth {ℓ} : {A : Type ℓ} → List A → ℕ → Option A
nth [] index = none
nth (x ∷ xs) zero = some x
nth (x ∷ xs) (suc index) = nth xs index

module _ (Q : Serde) (to_vec : Value → Bytes) where
  -- A tool put in front of the bracket that ends the array; the flag says that the array is empty.
  unfoldable pub append_to_array : View → ℕ → Bool → Bytes → Option View → List Replacement
  unfolding ends_with_byte offset_of
  append_to_array segment base is_first tool_bytes none = []
  append_to_array segment base is_first tool_bytes (some tools) =
      if ends_with_byte b']' tools.bytes
      then elim (offset_of segment tools) [
        | none ↦ []
        | some offset ↦
            insertion (base + offset + length tools.bytes - 1) (after_comma is_first tool_bytes)
      ]
      else []

  -- The flag that `plan_tool_append` returns says whether the list is not empty.
  unfoldable pub append_tool : View → ℕ → Option Value → Value → (Value → Bool) → List Replacement
  unfolding append_to_array insert_field
  append_tool segment base (some (array tools)) tool exists =
      if any exists (elements tools)
      then []
      else append_to_array segment base (length (elements tools) == 0) (to_vec tool)
          (and_then (Q.tools_view segment) (λ v. v))
  append_tool segment base (some _) tool exists = []
  append_tool segment base none tool exists =
      insert_field segment base (lit "\"tools\":[" ++ (to_vec tool ++ b']' ∷ []))

  unfoldable pub plan_tool_append : View → ℕ → Value → Value → (Value → Bool) → List Replacement
  unfolding append_tool
  plan_tool_append segment base object_value tool exists =
      append_tool segment base (get (lit "tools") object_value) tool exists

  unfoldable pub plan_retrieve_tool_injection : View → Value → ApiShape → List Replacement
  unfolding plan_tool_append
  plan_retrieve_tool_injection body parsed shape =
      plan_tool_append body 0 parsed (retrieve_tool shape) (is_retrieve_tool shape)

  -- The parameters of one compressed request.
  unfoldable pub inject_params : View → Option Value → Option View → List Replacement
  unfolding plan_tool_append offset_of
  inject_params body (some value) (some params) = elim (offset_of body params) [
    | none ↦ []
    | some offset ↦
        plan_tool_append params offset value anthropic_retrieve_tool
          (is_retrieve_tool anthropic_message_batches)
  ]
  inject_params body _ _ = []

  unfoldable pub inject_requests : View → List Value → List View → List ℕ → List Replacement
  unfolding inject_params nth
  inject_requests body parsed_requests requests [] = []
  inject_requests body parsed_requests requests (index ∷ indices) =
      inject_params body (and_then (nth parsed_requests index) (get (lit "params")))
        (and_then (nth requests index) (λ r. and_then (Q.batch_request_view r) (λ p. p)))
      ++ inject_requests body parsed_requests requests indices

  unfoldable pub plan_batch_retrieve_tool_injection : View → Value → List ℕ → List Replacement
  unfolding inject_requests
  plan_batch_retrieve_tool_injection body parsed compressed_requests =
      elim (and_then (Q.batch_view body) (λ v. v)) [
        | none ↦ []
        | some requests ↦
            inject_requests body (unwrap_or [] (and_then (get (lit "requests") parsed) as_array))
              requests compressed_requests
      ]
