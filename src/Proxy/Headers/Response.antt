-- ===== src/Proxy/Headers/Response.antt =====
-- src/proxy.rs: the headers that go back to the client, of a body that was read
-- (`buffered_response_to_axum`) and of a stream (`response_to_axum`), and those that a compressed
-- request adds to them. `HeaderValue::from_str` is the argument `from_str`, decimal printing is
-- `to_string`.
use hr.Prelude.{
  ℕ, ◌-◌, Bool, true, false, not, ◌&&◌, ◌||◌, Option, none, some, List, [], ◌∷◌, if◌then◌else◌,
  eq_text, retain, lit, Text, Bytes,
}
use hr.Prelude.Strings.{join, eq_ignore_ascii_case}
use hr.Json.{is_some_and}
use hr.Compress.Request.{RequestCompression}
use hr.Proxy.Headers.{
  HeaderMap, is_response_drop_header, listed_in, connection_listed_headers, upstream_request_id,
}

-- `HeaderMap::insert`: the value takes the place of all values of its name.
unfoldable pub insert : Text → Bytes → HeaderMap → HeaderMap
insert name value [] = (name, value) ∷ []
insert name value ((n, v) ∷ headers) =
    let later = insert name value headers in
    if eq_text n name
    then (name, value) ∷ retain (λ (h : Text × Bytes). not (eq_text h.0 name)) headers
    else (n, v) ∷ later

-- `IntoIterator` of an owned `HeaderMap`: a name comes with the first of its values alone.
unfoldable pub into_iter : Option Text → HeaderMap → List (Option Text × Bytes)
into_iter previous [] = []
into_iter previous ((n, v) ∷ headers) =
    (if is_some_and (λ q. eq_text q n) previous then none else some n, v)
    ∷ into_iter (some n) headers

-- The entries that have a name, of those that the test keeps.
unfoldable pub copy_named : (Text → Bool) → List (Option Text × Bytes) → HeaderMap
copy_named p [] = []
copy_named p ((none, v) ∷ entries) = copy_named p entries
copy_named p ((some n, v) ∷ entries) =
    let rest = copy_named p entries in if p n then (n, v) ∷ rest else rest

-- Whether a header of the upstream's response is copied; the flag is `body_replaced`.
unfoldable pub is_copied : List Text → Bool → Text → Bool
is_copied listed body_replaced name = not (
    is_response_drop_header name
    || (listed_in listed name
        || (body_replaced
            && (eq_text name (lit "content-length")
                || eq_ignore_ascii_case name (lit "content-encoding")))))

abbrev insert_value : Text → Option Bytes → HeaderMap → HeaderMap
insert_value name none headers = headers
insert_value name (some v) headers = insert name v headers

module _ (from_str : Text → Option Bytes) where
  unfoldable pub insert_header : Text → Text → HeaderMap → HeaderMap
  insert_header name value headers = insert_value name (from_str value) headers

  -- The ids, behind the copying.
  unfoldable pub insert_ids : Text → Option Text → HeaderMap → HeaderMap
  insert_ids request_id none headers = insert_header (lit "x-request-id") request_id headers
  insert_ids request_id (some upstream_id) headers =
      insert_header (lit "headroom-upstream-request-id") upstream_id
        (insert_header (lit "x-request-id") request_id headers)

  unfoldable pub insert_some : Bool → Text → Text → HeaderMap → HeaderMap
  insert_some true name value headers = insert_header name value headers
  insert_some false name value headers = headers

  unfoldable pub insert_reason : Option Text → HeaderMap → HeaderMap
  insert_reason none headers = headers
  insert_reason (some reason) headers =
      insert_header (lit "x-headroom-skipped-reason") reason headers

  abbrev is_nil : List Text → Bool
  is_nil [] = true
  is_nil (_ ∷ _) = false

  unfoldable pub apply_compression_response_headers :
      (ℕ → Text) → RequestCompression → HeaderMap → HeaderMap
  apply_compression_response_headers to_string m headers =
      let before =
        insert_header (lit "x-headroom-tokens-before") (to_string m.tokens_before) headers in
      let after = insert_header (lit "x-headroom-tokens-after") (to_string m.tokens_after) before in
      let saved =
        insert_header (lit "x-headroom-tokens-saved") (to_string (m.tokens_before - m.tokens_after))
          after in
      let transforms =
        insert_some m.compressed (lit "x-headroom-transforms") (lit "ccr_live_zone") saved in
      let hashes =
        insert_some (not (is_nil m.hashes)) (lit "x-headroom-ccr-hashes") (join (lit ",") m.hashes)
          transforms in
      insert_reason m.skipped_reason hashes

  module _ (to_str : Bytes → Option Text) where
    unfoldable pub buffered_response_to_axum : HeaderMap → Text → Bool → HeaderMap
    buffered_response_to_axum headers request_id body_replaced =
        insert_ids request_id (upstream_request_id to_str headers) (
          retain
            (λ (h : Text × Bytes).
              is_copied (connection_listed_headers to_str headers) body_replaced h.0)
            headers)

    unfoldable pub response_to_axum : HeaderMap → Text → HeaderMap
    response_to_axum headers request_id =
        insert_ids request_id (upstream_request_id to_str headers) (
          copy_named (is_copied (connection_listed_headers to_str headers) false)
            (into_iter none headers))
