-- ===== src/Compress/CacheKey.antt =====
-- src/compression.rs: the `prompt_cache_key` of the OpenAI shapes: how it is derived, and its injection.
use hr.Prelude.{
  ◌+◌, not, Option, none, some, List, [], ◌∷◌, ◌++◌, if◌then◌else◌, take, length, lit, Text, Bytes,
}
use hr.Prelude.Strings.{is_empty, as_bytes}
use hr.Json.{
  Value, null, get, as_array, is_object, and_then, or_else, unwrap_or, get_str, is_some_and,
}
use hr.Sse.Stream.Apply.{is_str}
use hr.Splice.{Replacement}
use hr.Ccr.{hex}
use hr.Compress.Views.{View, Serde, offset_of}
use hr.Compress.Tools.Append.{ApiShape, open_ai_responses, insert_field}

-- The content of the first message of the system.
unfoldable pub first_system_of : List Value → Option Value
first_system_of [] = none
first_system_of (item ∷ items) =
    if is_str "system" (get_str (lit "role") item)
    then some (unwrap_or null (get (lit "content") item))
    else first_system_of items

unfoldable pub first_system_content : Value → Option Value
unfolding first_system_of
first_system_content items = and_then (as_array items) first_system_of

unfoldable pub openai_system_value : Value → ApiShape → Value
unfolding first_system_content
openai_system_value value open_ai_responses = unwrap_or null (
    or_else (get (lit "instructions") value) (
      or_else (and_then (get (lit "input") value) first_system_content)
        (and_then (get (lit "messages") value) first_system_content)))
openai_system_value value _ =
    unwrap_or null (and_then (get (lit "messages") value) first_system_content)

module _ (sha256 : Bytes → Bytes) (to_vec : Value → Bytes) where
  unfoldable pub canonical_json_sha256 : Value → Text
  canonical_json_sha256 value = hex (sha256 (to_vec value))

  -- The bytes that are hashed: the model, and the two hashes, with a zero in front of each.
  unfoldable pub key_material : Value → ApiShape → Bytes
  unfolding canonical_json_sha256 openai_system_value
  key_material value shape =
      as_bytes (unwrap_or [] (get_str (lit "model") value))
      ++ (0
          ∷ (as_bytes (canonical_json_sha256 (openai_system_value value shape))
              ++ (0 ∷ as_bytes (canonical_json_sha256 (unwrap_or null (get (lit "tools") value))))))

  unfoldable pub derive_openai_prompt_cache_key : Value → ApiShape → Text
  unfolding key_material
  derive_openai_prompt_cache_key value shape = hex (take 16 (sha256 (key_material value shape)))

  abbrev pub key_token : Text → Bytes
  key_token key = b'"' ∷ (as_bytes key ++ b'"' ∷ [])

  module _ (Q : Serde) where
    -- The value of a key that counts for none, replaced in place.
    unfoldable pub replace_key : View → Bytes → Option View → List Replacement
    unfolding offset_of
    replace_key body token none = []
    replace_key body token (some value) = elim (offset_of body value) [
      | none ↦ []
      | some offset ↦
          record { start = offset; end = offset + length value.bytes; bytes = token } ∷ []
    ]

    unfoldable pub put_key : View → Bytes → Option Value → List Replacement
    unfolding replace_key insert_field
    put_key body token (some _) =
        replace_key body token (and_then (Q.prompt_cache_key_view body) (λ v. v))
    put_key body token none = insert_field body 0 (lit "\"prompt_cache_key\":" ++ token)

    -- The flag that the source returns says whether the list is not empty.
    unfoldable pub plan_prompt_cache_key_injection : View → Value → ApiShape → List Replacement
    unfolding put_key derive_openai_prompt_cache_key
    plan_prompt_cache_key_injection body parsed shape =
        if not (is_object parsed)
        then []
        else if is_some_and (λ key. not (is_empty key)) (get_str (lit "prompt_cache_key") parsed)
        then []
        else put_key body (key_token (derive_openai_prompt_cache_key parsed shape))
            (get (lit "prompt_cache_key") parsed)
