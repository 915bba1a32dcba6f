-- ===== src/Proxy/Route.antt =====
-- src/proxy.rs: which requests are compressed, which streams are read, and the compression mode. An
-- HTTP method is its name.
pub mod Targets
pub mod BatchPath
use hr.Prelude.{
  ℕ, Bool, true, false, not, ◌&&◌, ◌||◌, Option, none, some, List, [], ◌∷◌, ◌++◌, ◌==◌,
  if◌then◌else◌, eq_text, any, lit, String, Text,
}
use hr.Prelude.Strings.{
  starts_with, strip_prefix, trim, split, is_empty, to_ascii_lowercase, eq_ignore_ascii_case,
}
use hr.Json.{and_then}
use hr.Result.{Result, ok, err}
use hr.Sse.Stream.{SseKind, openai_chat, openai_responses, anthropic}

pub data UpstreamProvider : Type 0 where
  open_ai_upstream anthropic_upstream : UpstreamProvider

pub data CompressionTarget : Type 0 where
  chat_completions_target responses_target messages_target message_batches_target :
      CompressionTarget

pub data CompressionMode : Type 0 where
  ccr_mode passthrough_mode off_mode : CompressionMode

abbrev pub is_one_of : List Text → Text → Bool
is_one_of names text = any (eq_text text) names

-- `CompressionMode::parse`
unfoldable pub parse_mode : Text → Result CompressionMode
parse_mode value =
    let name = to_ascii_lowercase (trim value) in
    if is_one_of (lit "ccr" ∷ lit "compress" ∷ lit "compression" ∷ lit "on" ∷ lit "auto" ∷ []) name
    then ok ccr_mode
    else if is_one_of (lit "passthrough" ∷ lit "pass-through" ∷ lit "pass" ∷ []) name
    then ok passthrough_mode
    else if is_one_of (lit "off" ∷ lit "none" ∷ lit "disabled" ∷ lit "false" ∷ []) name
    then ok off_mode
    else err (
        lit "unsupported compression mode: " ++ (name ++ lit "; expected ccr, passthrough, or off"))

abbrev pub allows_compression : CompressionMode → Bool
allows_compression ccr_mode = true
allows_compression _ = false

pub record RequestClass : Type 0 where
  pub provider : UpstreamProvider
  pub target : Option CompressionTarget
  pub skipped_reason : Option Text

abbrev pub is_responses_path : Text → Bool
is_responses_path = is_one_of (
    lit "/v1/responses"
    ∷ lit "/v1/codex/responses"
    ∷ lit "/backend-api/responses"
    ∷ lit "/backend-api/codex/responses"
    ∷ [])

abbrev pub is_messages_path : Text → Bool
is_messages_path path = eq_text path (lit "/v1/messages") || starts_with (lit "/v1/messages/") path

abbrev pub is_at_or_below : String → String → Text → Bool
is_at_or_below at below path = eq_text path (lit at) || starts_with (lit below) path

unfoldable pub provider_of : Text → UpstreamProvider
provider_of path = if is_messages_path path then anthropic_upstream else open_ai_upstream

unfoldable pub target_of : Text → Option CompressionTarget
target_of path =
    if eq_text path (lit "/v1/chat/completions")
    then some chat_completions_target
    else if is_responses_path path
    then some responses_target
    else if eq_text path (lit "/v1/messages/batches")
    then some message_batches_target
    else if eq_text path (lit "/v1/messages")
    then some messages_target
    else none

abbrev pub is_retrieve_endpoint : Text → Bool
is_retrieve_endpoint path =
    is_one_of (lit "/v1/retrieve" ∷ lit "/v1/retrieve/stats" ∷ lit "/v1/retrieve/tool_call" ∷ [])
      path
    || (starts_with (lit "/v1/retrieve/") path || eq_text path (lit "/v1/compress"))

abbrev pub is_health_endpoint : Text → Bool
is_health_endpoint = is_one_of (
    lit "/healthz"
    ∷ lit "/healthz/upstream"
    ∷ lit "/livez"
    ∷ lit "/readyz"
    ∷ lit "/health"
    ∷ lit "/metrics"
    ∷ lit "/stats"
    ∷ [])

unfoldable pub skipped_reason_for_path : Text → Option CompressionTarget → Option Text
skipped_reason_for_path path (some target) = none
skipped_reason_for_path path none =
    if is_retrieve_endpoint path
    then some (lit "reserved_proxy_endpoint")
    else if is_health_endpoint path
    then some (lit "reserved_proxy_endpoint")
    else if is_at_or_below "/v1/conversations" "/v1/conversations/" path
    then some (lit "conversations_passthrough")
    else some (lit "non_target_path")

unfoldable pub classify_request : Text → Text → RequestClass
unfolding provider_of target_of skipped_reason_for_path
classify_request method path =
    if eq_text method (lit "POST")
    then record {
      provider = provider_of path;
      target = target_of path;
      skipped_reason = skipped_reason_for_path path (target_of path);
    }
    else record {
      provider = provider_of path;
      target = none;
      skipped_reason = some (lit "non_post_method");
    }

-- `value.split(';').next().unwrap_or("")`
abbrev pub first_part : List Text → Text
first_part [] = []
first_part (part ∷ parts) = part

abbrev pub is_event_stream : Option Text → Bool
is_event_stream none = false
is_event_stream (some value) =
    eq_ignore_ascii_case (trim (first_part (split b';' value))) (lit "text/event-stream")

unfoldable pub stream_kind_of : Text → Option SseKind
stream_kind_of path =
    if is_messages_path path
    then some anthropic
    else if eq_text path (lit "/v1/chat/completions")
    then some openai_chat
    else if is_responses_path path
    then some openai_responses
    else none

-- The content type is absent also if it is not a string.
unfoldable pub sse_stream_kind : Option Text → Text → Option SseKind
unfolding stream_kind_of
sse_stream_kind content_type path =
    if not (is_event_stream content_type) then none else stream_kind_of path

abbrev pub onto_before : ℕ → Option (Text × Text) → Option (Text × Text)
onto_before c none = none
onto_before c (some (before, after)) = some (c ∷ before, after)

-- `split_once`
unfoldable pub split_once : ℕ → Text → Option (Text × Text)
split_once separator [] = none
split_once separator (c ∷ text) =
    let rest = split_once separator text in
    if c == separator then some ([], text) else onto_before c rest

unfoldable pub results_id : Option (Text × Text) → Option Text
results_id none = none
results_id (some (batch_id, tail)) =
    if not (eq_text tail (lit "results")) || is_empty batch_id then none else some batch_id

unfoldable pub anthropic_batch_results_batch_id : Text → Text → Option Text
unfolding split_once results_id
anthropic_batch_results_batch_id method path =
    if not (eq_text method (lit "GET"))
    then none
    else and_then (strip_prefix (lit "/v1/messages/batches/") path)
        (λ rest. results_id (split_once b'/' rest))
