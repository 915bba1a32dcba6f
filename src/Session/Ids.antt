-- ===== src/Session/Ids.antt =====
-- src/session.rs: session ids. The header `x-headroom-session-id`, as text, and SHA-256 are arguments.
use hr.Prelude.{
  ℕ, ◌≡◌, ◌≢◌, ◌⊎◌, inl, inr, refl, Bool, true, not, Option, none, some, List, [], ◌∷◌, ◌++◌,
  length, take, all, arith, if◌then◌else◌, eq_text, find, lit, Text, Bytes,
}
use hr.Prelude.Strings.{is_empty, as_bytes}
use hr.Json.{
  Value, string, array, get, get_str, as_array, elements, and_then, filter, is_some_and, unwrap_or,
}
use hr.Ccr.{hex}
use hr.Ccr.Hash.{is_ascii_hexdigit, Sha256Laws, hex-IsDigits}

abbrev pub truncate_chars : Text → ℕ → Text
truncate_chars input limit = take limit input

abbrev is_system : Value → Bool
is_system message = is_some_and (eq_text (lit "system")) (get_str (lit "role") message)

abbrev is_text_block : Value → Bool
is_text_block block = is_some_and (eq_text (lit "text")) (get_str (lit "type") block)

abbrev truncated : Option Text → Option Text
truncated none = none
truncated (some text) = some (truncate_chars text 500)

-- The text of the first system message.
unfoldable pub system_text : Option Value → Option Text
system_text (some (string content)) = some (truncate_chars content 500)
system_text (some (array blocks)) =
    truncated (and_then (find is_text_block (elements blocks)) (get_str (lit "text")))
system_text _ = none

unfoldable pub first_system_message_text : List Value → Option Text
unfolding system_text
first_system_message_text messages =
    and_then (find is_system messages) (λ message. system_text (get (lit "content") message))

abbrev explicit_session_header : Option Text → Option Text
explicit_session_header = filter (λ value. not (is_empty value))

module _ (sha256 : Bytes → Bytes) where
  unfoldable pub hash_session_id : Value → Text → Text
  hash_session_id body system_content = hex (
      take 8 (
        sha256
          (as_bytes (unwrap_or [] (get_str (lit "model") body) ++ (lit ":" ++ system_content)))))

  unfoldable pub instructions_text : Option Value → Text
  instructions_text (some (string instructions)) =
      if is_empty instructions then [] else truncate_chars instructions 500
  instructions_text _ = []

  unfoldable pub compute_session_id : Option Text → Value → Text
  unfolding first_system_message_text hash_session_id
  compute_session_id header body =
      unwrap_or
        (hash_session_id body (
          unwrap_or []
            (and_then (and_then (get (lit "messages") body) as_array) first_system_message_text)))
        (explicit_session_header header)

  unfoldable pub compute_responses_session_id : Option Text → Value → Text
  unfolding instructions_text hash_session_id
  compute_responses_session_id header body =
      unwrap_or (hash_session_id body (instructions_text (get (lit "instructions") body)))
        (explicit_session_header header)

  -- The header's id, which is not empty; or 16 hexadecimal digits, without a header or with an empty one.
  abbrev pub IsSessionId : Option Text → Text → Type 0
  IsSessionId header id =
      ((header ≡ some id) × (id ≢ []))
      ⊎ (((header ≡ none) ⊎ (header ≡ some []))
          × (length id ≡ 16)
          × (all is_ascii_hexdigit id ≡ true))

  id-IsSessionId :
      (header : Option Text) (body : Value) (content : Text)
      → Sha256Laws sha256
      → IsSessionId header
          (unwrap_or (hash_session_id body content) (explicit_session_header header))
  unfolding hash_session_id is_empty
  id-IsSessionId none body content laws =
      let (long, digits) = hex-IsDigits 8 sha256 _ laws (omega arith) in
      inr (inl refl, long, digits)
  id-IsSessionId (some []) body content laws =
      let (long, digits) = hex-IsDigits 8 sha256 _ laws (omega arith) in
      inr (inr refl, long, digits)
  id-IsSessionId (some (c ∷ cs)) body content laws = inl (refl, λ e. cc)

  -- A session's id, on the Chat, Messages and Responses surfaces alike, is the explicit header
  -- where that is there and not empty, and only else, where a digest has 32 bytes, 16 hexadecimal digits.
  pub session_ids-IsSessionId :
      (header : Option Text) (body : Value)
      → Sha256Laws sha256
      → IsSessionId header (compute_session_id header body)
        × IsSessionId header (compute_responses_session_id header body)
  unfolding compute_session_id compute_responses_session_id
  session_ids-IsSessionId header body laws = (
    id-IsSessionId header body _ laws,
    id-IsSessionId header body (instructions_text (get (lit "instructions") body)) laws,
  )
