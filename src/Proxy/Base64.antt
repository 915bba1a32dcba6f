-- ===== src/Proxy/Base64.antt =====
-- src/proxy.rs: `decode_base64_url`, and the ChatGPT account that a token carries. A shift of a `u32`
-- drops the bits from 2^32 up; its lowest bits are 0, so the `|` behind it adds. The JSON parser is the
-- argument `from_slice`.
pub mod RoundTrip
use hr.Prelude.{
  ℕ, ◌+◌, ◌-◌, ◌*◌, ◌/◌, ◌%◌, ◌^◌, leb, Bool, true, false, not, ◌&&◌, ◌||◌, Option, none, some,
  List, [], ◌∷◌, ◌++◌, ◌==◌, if◌then◌else◌, lit, Text, Bytes,
}
use hr.Prelude.Strings.{trim, is_empty, split, as_bytes, eq_ignore_ascii_case}
use hr.Json.{Value, get, as_str, and_then}
use hr.Proxy.Headers.{HeaderMap, get_text}
use hr.Proxy.Route.{split_once}

unfoldable pub base64_url_value : ℕ → Option ℕ
base64_url_value byte =
    if leb b'A' byte && leb byte b'Z'
    then some (byte - b'A')
    else if leb b'a' byte && leb byte b'z'
    then some (byte - b'a' + 26)
    else if leb b'0' byte && leb byte b'9'
    then some (byte - b'0' + 52)
    else if byte == b'-' || byte == b'+'
    then some 62
    else if byte == b'_' || byte == b'/'
    then some 63
    else none

-- The loop, with `output`, `buffer` and `bits`.
unfoldable pub decode_from : Bytes → ℕ → ℕ → Bytes → Option Bytes
unfolding base64_url_value
decode_from output buffer bits [] = some output
decode_from output buffer bits (byte ∷ input) =
    if byte == b'=' then some output else elim (base64_url_value byte) as (λ _. Option Bytes) [
      | none ↦ none
      | some value ↦
          let filled = buffer * 2 ^ 6 % 2 ^ 32 + value in
          let left = bits + 6 - 8 in
          let pushed =
            decode_from (output ++ filled / 2 ^ left % 2 ^ 8 ∷ []) (filled % 2 ^ left) left input in
          let waiting = decode_from output filled (bits + 6) input in
          if leb 8 (bits + 6) then pushed else waiting
    ]

unfoldable pub decode_base64_url : Text → Option Bytes
unfolding decode_from
decode_base64_url input = decode_from [] 0 0 (as_bytes input)

abbrev pub second : List Text → Option Text
second (first ∷ part ∷ parts) = some part
second _ = none

module _ (to_str : Bytes → Option Text) (from_slice : Bytes → Option Value) where
  abbrev account_in : Value → Option Text
  account_in value =
      and_then
        (and_then (get (lit "https://api.openai.com/auth") value) (get (lit "chatgpt_account_id")))
        as_str

  abbrev not_empty : Text → Option Text
  not_empty account_id = if not (is_empty account_id) then some account_id else none

  abbrev account_of_token : Text × Text → Option Text
  account_of_token (scheme, token) =
      if not (eq_ignore_ascii_case scheme (lit "bearer"))
      then none
      else and_then (second (split b'.' token)) (λ payload.
        and_then (decode_base64_url payload) (λ decoded.
          and_then (from_slice decoded)
            (λ value. and_then (account_in value) (λ account_id. not_empty (trim account_id)))))

  -- `headers.get("chatgpt-account-id").is_some()` ends it before anything is read.
  unfoldable pub chatgpt_account_id_from_authorization : HeaderMap → Option Text
  chatgpt_account_id_from_authorization headers =
      elim (hr.Proxy.Headers.get (lit "chatgpt-account-id") headers) as (λ _. Option Text) [
        | some present ↦ none
        | none ↦
            and_then (and_then (get_text to_str "authorization" headers) (split_once b' '))
              account_of_token
      ]
