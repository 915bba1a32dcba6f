-- ===== src/Proxy/Http/Prepare.antt =====
-- src/proxy.rs: the steps of `buffer_and_forward_known_json` (Proxy/Http/Buffer), with
-- `read_limited_body` and `record_mutation_stats`. What axum reads of a body under a limit is the
-- argument `to_bytes`, `parse::<usize>` is `parse_usize`.
use hr.Prelude.{
  ℕ, Bool, true, false, not, ◌&&◌, Option, none, some, List, [], ◌++◌, if◌then◌else◌, ltb, eq_text,
  lit, Text, Bytes,
}
use hr.Prelude.Strings.{is_empty}
use hr.Json.{Value, null, array, no_values, and_then, get, as_array}
use hr.Result.{Result, ok, err}
use hr.Stats.{Stats, record_compressed_request}
use hr.Session.{SessionProvider, Key, Inner, frozen_message_count}
use hr.Session
use hr.Session.Betas.{sticky_betas}
use hr.Session.Ids.{compute_session_id, compute_responses_session_id}
use hr.Session.Estimates.{estimate_message_tokens, estimate_responses_request_tokens}
use hr.Sse.Stream.{SseSessionCtx}
use hr.Compress.Tools.Append.{
  ApiShape, open_ai_chat_completions, open_ai_responses, anthropic_messages,
  anthropic_message_batches,
}
use hr.Compress.Request.{RequestCompression}
use hr.Proxy.Route.{
  CompressionTarget, chat_completions_target, responses_target, messages_target,
  message_batches_target,
}
use hr.Proxy.Headers.{HeaderMap, classify_auth_mode}
use hr.Proxy.Headers
use hr.Proxy.Headers.Response.{insert_header}
use hr.Proxy.Http.{count_reason}

abbrev pub body_error : Text → Result Bytes → Result Bytes
body_error limit (ok body) = ok body
body_error limit (err e) = err (
    lit "payload_too_large: request body exceeds compression buffer limit "
    ++ (limit ++ (lit ": " ++ e)))

-- The bodies that the limit keeps out by their header, and those it keeps out as they are read.
unfoldable pub read_limited_body : (ℕ → Text) → Option ℕ → ℕ → (ℕ → Result Bytes) → Result Bytes
read_limited_body to_string none limit to_bytes = body_error (to_string limit) (to_bytes limit)
read_limited_body to_string (some content_length) limit to_bytes =
    if ltb limit content_length
    then err (
        lit "payload_too_large: Content-Length "
        ++ (to_string content_length
            ++ (lit " exceeds compression buffer limit " ++ to_string limit)))
    else body_error (to_string limit) (to_bytes limit)

unfoldable pub requests_missing_or_empty : Option Value → Bool
requests_missing_or_empty none = true
requests_missing_or_empty (some null) = true
requests_missing_or_empty (some (array no_values)) = true
requests_missing_or_empty (some _) = false

-- Whether the body is a batch without requests.
unfoldable pub is_empty_batch : CompressionTarget → Option Value → Bool
unfolding requests_missing_or_empty
is_empty_batch message_batches_target (some parsed) =
    requests_missing_or_empty (get (lit "requests") parsed)
is_empty_batch _ _ = false

unfoldable pub session_provider : CompressionTarget → Option SessionProvider
session_provider messages_target = some Session.anthropic
session_provider message_batches_target = none
session_provider _ = some Session.open_ai

unfoldable pub session_id_of :
    (Bytes → Bytes) → CompressionTarget → Option Text → Option Value → Option Key
unfolding session_provider
session_id_of sha256 target header none = none
session_id_of sha256 responses_target header (some parsed) =
    some (Session.open_ai, compute_responses_session_id sha256 header parsed)
session_id_of sha256 target header (some parsed) =
    and_then (session_provider target)
      (λ provider. some (provider, compute_session_id sha256 header parsed))

unfoldable pub frozen_of : ℕ → ℕ → Option Key → Inner → ℕ × Inner
unfolding frozen_message_count
frozen_of now touched none trackers = (0, trackers)
frozen_of now touched (some key) trackers = frozen_message_count now touched key trackers

unfoldable pub beta_header_name : CompressionTarget → Option Text
beta_header_name messages_target = some (lit "anthropic-beta")
beta_header_name message_batches_target = none
beta_header_name _ = some (lit "openai-beta")

abbrev pub is_same : Text → Option Text → Bool
is_same merged none = false
is_same merged (some value) = eq_text merged value

unfoldable pub put_betas : (Text → Option Bytes) → Text → Text → Option Text → HeaderMap → HeaderMap
put_betas from_str name merged client_value headers =
    if not (is_empty merged) && not (is_same merged client_value)
    then insert_header from_str name merged headers
    else headers

unfoldable pub merge_betas :
    (Bytes → Option Text)
    → (Text → Option Bytes)
    → Option Text
    → Option Key
    → HeaderMap
    → Inner
    → HeaderMap × Inner
unfolding put_betas
merge_betas to_str from_str (some name) (some key) headers trackers =
    let client_value = and_then (Headers.get name headers) to_str in
    let (merged, trackers') = sticky_betas key client_value trackers in
    (put_betas from_str name merged client_value headers, trackers')
merge_betas to_str from_str _ _ headers trackers = (headers, trackers)

unfoldable pub shape_of : CompressionTarget → ApiShape
shape_of chat_completions_target = open_ai_chat_completions
shape_of responses_target = open_ai_responses
shape_of messages_target = anthropic_messages
shape_of message_batches_target = anthropic_message_batches

unfoldable pub record_mutation_stats : RequestCompression → Stats → Stats
record_mutation_stats m stats =
    if m.compressed
    then record_compressed_request m.bytes_before m.bytes_after m.tokens_before m.tokens_after stats
    else count_reason m.skipped_reason stats

abbrev messages_of : (Value → Text) → Option (List Value) → List ℕ
messages_of to_string none = []
messages_of to_string (some messages) = estimate_message_tokens to_string messages

-- The estimates of the body that goes on.
unfoldable pub forwarded_estimates : (Value → Text) → CompressionTarget → Option Value → List ℕ
forwarded_estimates to_string target none = []
forwarded_estimates to_string responses_target (some forwarded) =
    estimate_responses_request_tokens to_string forwarded
forwarded_estimates to_string target (some forwarded) =
    messages_of to_string (and_then (get (lit "messages") forwarded) as_array)

abbrev pub session_of : Option Key → List ℕ → Option SseSessionCtx
session_of none estimates = none
session_of (some (provider, id)) estimates =
    some (record { provider = provider; session_id = id; message_token_estimates = estimates })
