-- ===== src/Proxy/Tests.antt =====
-- Small requests.
use hr.Prelude.{
  ◌≡◌, ◌≢◌, ◌↔◌, inr, arith, refl, map, none, some, true, false, if◌then◌else◌, [], ◌∷◌, ◌++◌, lit,
  eq_text,
}
use hr.Prelude.Strings.{
  as_bytes, split, trim, trim_start, trim_end, is_whitespace, eq_ignore_ascii_case,
  to_ascii_lowercase, ascii_lower, encode_char,
}
use hr.Json.{
  Value, no_fields, field_then, object, string, array, no_values, value_then, and_then, get, field,
  as_array,
}
use hr.Sse.Stream.{openai_responses}
use hr.Proxy.Route.{
  responses_target, open_ai_upstream, classify_request, target_of, sse_stream_kind, is_event_stream,
  anthropic_batch_results_batch_id,
}
use hr.Proxy.Route.Targets.{classify_request-Agrees}
use hr.Proxy.Route.BatchPath.{IsFree, anthropic_batch_results_batch_id_iff}
use hr.Proxy.Batches.{
  BatchContextEntry, contexts_of, add_context, insert_context, record_batch_context, batch_context,
}
use hr.Proxy.Batches.Bounded.{IsValid, batches-IsValid}
use hr.Proxy.Batches.Latest.{batch_context-record}
use hr.Proxy.Headers.{HeaderMap, of_option, connection_listed_headers, forwarded_for, apply_headers}
use hr.Proxy.Headers.Forwarded.{values, apply_headers_own}
use hr.Proxy.Headers.Response.{is_copied, buffered_response_to_axum, response_to_axum}
use hr.Proxy.Headers.Copied.{IsGrouped, no_headers, grouped, response_to_axum-first}
use hr.Proxy.Base64.{decode_base64_url}
use hr.Proxy.Base64.RoundTrip.{encode, encode_value, decode_base64_url-encode}

responses_target_of :
    (classify_request (lit "POST") (lit "/v1/responses")).target ≡ some responses_target
unfolding classify_request target_of eq_text lit
responses_target_of = refl

event_stream : is_event_stream (some (lit "text/event-stream; charset=utf-8")) ≡ true
unfolding split trim trim_start trim_end is_whitespace eq_ignore_ascii_case to_ascii_lowercase
    ascii_lower eq_text lit
event_stream = refl

classify_request-Agrees_example :
    (lit "POST" ≡ lit "POST")
    × ((classify_request (lit "POST") (lit "/v1/responses")).provider ≡ open_ai_upstream)
    × (sse_stream_kind (some (lit "text/event-stream; charset=utf-8")) (lit "/v1/responses")
        ≡ some openai_responses)
classify_request-Agrees_example =
    classify_request-Agrees (lit "POST") (lit "/v1/responses") responses_target
      (some (lit "text/event-stream; charset=utf-8")) responses_target_of event_stream

anthropic_batch_results_batch_id_iff_example :
    (anthropic_batch_results_batch_id (lit "GET") (lit "/v1/messages/batches/b1/results")
      ≡ some (lit "b1"))
    ↔ ((lit "GET" ≡ lit "GET")
        × (lit "/v1/messages/batches/b1/results"
            ≡ lit "/v1/messages/batches/" ++ (lit "b1" ++ b'/' ∷ lit "results"))
        × (lit "b1" ≢ [])
        × IsFree b'/' (lit "b1"))
anthropic_batch_results_batch_id_iff_example =
    anthropic_batch_results_batch_id_iff (lit "GET") (lit "/v1/messages/batches/b1/results")
      (lit "b1")

abbrev params : Value
params = object (field_then (lit "model") (string (lit "m")) no_fields)

abbrev request : Value
request =
    object
      (field_then (lit "custom_id") (string (lit "c")) (field_then (lit "params") params no_fields))

abbrev body : Value
body = object (field_then (lit "requests") (array (value_then request no_values)) no_fields)

abbrev older : BatchContextEntry
older = record { batch_id = lit "b"; contexts = []; expires_at = 9 }

request_contexts : contexts_of (request ∷ []) [] ≡ (lit "c", params) ∷ []
unfolding contexts_of add_context insert_context get field eq_text lit
request_contexts = refl

requests_of_body : and_then (get (lit "requests") body) as_array ≡ some (request ∷ [])
unfolding get field eq_text lit
requests_of_body = refl

batch_context-record_example :
    (batch_context 100 (lit "b") (record_batch_context 5 (lit "b") body (older ∷ []))).0
    ≡ some (contexts_of (request ∷ []) [])
batch_context-record_example =
    batch_context-record 5 100 (lit "b") body (request ∷ []) (older ∷ []) requests_of_body
      (λ e. cc (request_contexts, e)) (omega arith)

older-IsValid : IsValid (older ∷ [])
older-IsValid = record { bounded = omega arith; distinct = (tt, tt) }

batches-IsValid_example :
    IsValid (record_batch_context 5 (lit "b") body (older ∷ []))
    × IsValid (batch_context 5 (lit "b") (older ∷ [])).1
batches-IsValid_example = batches-IsValid 5 (lit "b") body (older ∷ []) older-IsValid

-- A client that lists its own hop, and tries to set the request id and a header of the proxy.
abbrev headers : HeaderMap
headers =
    (lit "host", lit "h")
    ∷ (lit "connection", lit "X-Hop, x-request-id")
    ∷ (lit "x-hop", lit "1")
    ∷ (lit "x-request-id", lit "forged")
    ∷ (lit "x-forwarded-for", lit "1.1.1.1")
    ∷ []

apply_headers_own_example :
    (values (lit "x-request-id") (apply_headers some headers (some (lit "2.2.2.2")) (lit "r") none)
      ≡ as_bytes (lit "r") ∷ [])
    × (values
          (lit "x-forwarded-proto")
          (apply_headers some headers (some (lit "2.2.2.2")) (lit "r") none)
        ≡ lit "http" ∷ [])
    × (values
          (lit "x-forwarded-host")
          (apply_headers some headers (some (lit "2.2.2.2")) (lit "r") none)
        ≡ of_option (hr.Proxy.Headers.get (lit "host") headers))
    × (values
          (lit "x-forwarded-for")
          (apply_headers some headers (some (lit "2.2.2.2")) (lit "r") none)
        ≡ map as_bytes (of_option (forwarded_for some headers (some (lit "2.2.2.2")))))
apply_headers_own_example = apply_headers_own some headers (some (lit "2.2.2.2")) (lit "r") none

-- A response that sets two cookies.
abbrev cookies : HeaderMap
cookies = (lit "set-cookie", lit "a=1") ∷ (lit "set-cookie", lit "b=2") ∷ []

cookies-IsGrouped : IsGrouped cookies
unfolding hr.Proxy.Headers.get eq_text lit
cookies-IsGrouped =
    grouped (lit "set-cookie") (lit "a=1") ((lit "set-cookie", lit "b=2") ∷ []) refl
      (grouped (lit "set-cookie") (lit "b=2") [] refl no_headers)

id_ne-cookie : lit "x-request-id" ≢ lit "set-cookie"
unfolding lit
id_ne-cookie = ground arith

upstream_id_ne-cookie : lit "headroom-upstream-request-id" ≢ lit "set-cookie"
unfolding lit
upstream_id_ne-cookie = ground arith

response_to_axum-first_example :
    (values (lit "set-cookie") (buffered_response_to_axum some some cookies (lit "r") true) ≡ (
      if is_copied (connection_listed_headers some cookies) true (lit "set-cookie")
      then values (lit "set-cookie") cookies
      else []))
    × (values (lit "set-cookie") (response_to_axum some some cookies (lit "r")) ≡ (
        if is_copied (connection_listed_headers some cookies) false (lit "set-cookie")
        then of_option (hr.Proxy.Headers.get (lit "set-cookie") cookies)
        else []))
response_to_axum-first_example =
    response_to_axum-first some (lit "set-cookie") some cookies (lit "r") true cookies-IsGrouped
      id_ne-cookie upstream_id_ne-cookie

encoded : as_bytes (lit "_-8=") ≡ encode (255 ∷ 239 ∷ []) ++ lit "="
unfolding as_bytes encode_char encode encode_value lit
encoded = refl

decode_base64_url-encode_example : decode_base64_url (lit "_-8=") ≡ some (255 ∷ 239 ∷ [])
unfolding lit
decode_base64_url-encode_example =
    decode_base64_url-encode (255 ∷ 239 ∷ []) (lit "=") (lit "_-8=")
      (omega arith, (omega arith, tt)) (inr ([], refl)) encoded
