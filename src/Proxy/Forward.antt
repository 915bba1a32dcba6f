-- ===== src/Proxy/Forward.antt =====
-- src/proxy.rs: `forward_with_ccr_continuation` and what it reads from an upstream's response: the
-- rate limits of its headers (with `extract_rate_limit_snapshot` of src/sse.rs) and the usage of its
-- body. `serde_json::from_slice` and `to_vec`, and `parse::<i64>`, are arguments; an `i64` is its
-- bit pattern.
pub mod Untouched
mod Tests
use hr.Prelude.{
  ℕ, ◌+◌, ◌-◌, Bool, true, false, not, ◌&&◌, ◌||◌, Option, none, some, List, [], ◌∷◌, ◌++◌, ◌==◌,
  ltb, if◌then◌else◌, eq_text, lit, String, Text, Bytes,
}
use hr.Prelude.Strings.{starts_with, trim}
use hr.Json.{Value, string, object, get, as_u64, is_object, and_then, or_else, filter, unwrap_or}
use hr.Json.Edit.{json_object}
use hr.Result.{Result, ok, err}
use hr.Stats.{Stats, RateLimitSnapshot}
use hr.Stats.Gauges.{record_rate_limit_snapshot}
use hr.Session.{Inner, update_from_response}
use hr.Session.Estimates.{estimate_message_tokens}
use hr.Sse.Stream.{SseSessionCtx, World, usage_u64, usage_u64_opt}
use hr.Ccr.{CcrStore}
use hr.Proxy.Route.{is_one_of}
use hr.Proxy.Headers.{HeaderMap, is_application_json}
use hr.Proxy.Headers
use hr.Proxy.Continuation.{CcrProvider, anthropic, open_ai, extract_ccr_tool_calls}
use hr.Proxy.Continuation.Rounds.{Library, Loop, is_nil, run_ccr_continuation}

module _ (to_str : Bytes → Option Text) (parse_i64 : Text → Option ℕ) where
  abbrev remaining : String → HeaderMap → Option ℕ
  remaining name headers =
      and_then (and_then (Headers.get (lit name) headers) to_str) (λ value. parse_i64 (trim value))

  unfoldable pub extract_rate_limit_snapshot : HeaderMap → RateLimitSnapshot
  extract_rate_limit_snapshot headers = record {
    remaining_requests =
        or_else (remaining "anthropic-ratelimit-requests-remaining" headers)
          (remaining "x-ratelimit-remaining-requests" headers);
    remaining_tokens =
        or_else (remaining "anthropic-ratelimit-tokens-remaining" headers)
          (remaining "x-ratelimit-remaining-tokens" headers);
    remaining_input_tokens = remaining "anthropic-ratelimit-input-tokens-remaining" headers;
    remaining_output_tokens = remaining "anthropic-ratelimit-output-tokens-remaining" headers;
  }

  -- The label of the gauges that a path has.
  unfoldable pub rate_limit_provider : Text → Option Text
  rate_limit_provider path =
      if eq_text path (lit "/v1/messages") || starts_with (lit "/v1/messages/") path
      then some (lit "anthropic")
      else if eq_text path (lit "/v1/chat/completions")
      then some (lit "openai_chat")
      else if is_one_of
          (lit "/v1/responses"
            ∷ lit "/v1/codex/responses"
            ∷ lit "/backend-api/responses"
            ∷ lit "/backend-api/codex/responses"
            ∷ [])
          path
      then some (lit "openai_responses")
      else none

  unfoldable pub record_rate_limit_headers : HeaderMap → Text → Stats → Stats
  unfolding extract_rate_limit_snapshot rate_limit_provider
  record_rate_limit_headers headers path stats = elim (rate_limit_provider path) [
    | none ↦ stats
    | some provider ↦
        record_rate_limit_snapshot provider (extract_rate_limit_snapshot headers) stats
  ]

-- What an Anthropic response adds to the estimates: its content, as a message of the assistant.
unfoldable pub response_estimates : (Value → Text) → CcrProvider → Value → List ℕ
unfolding json_object
response_estimates to_string anthropic response = elim (get (lit "content") response) [
  | none ↦ []
  | some content ↦ estimate_message_tokens to_string (
      object (json_object ((lit "role", string (lit "assistant")) ∷ (lit "content", content) ∷ []))
      ∷ [])
]
response_estimates to_string open_ai response = []

-- The tokens read from the cache and written to it, by a response's usage.
unfoldable pub cache_usage : CcrProvider → Value → ℕ × ℕ
unfolding usage_u64 usage_u64_opt
cache_usage anthropic usage = (
  usage_u64 usage (lit "cache_read_input_tokens" ∷ []),
  usage_u64 usage (lit "cache_creation_input_tokens" ∷ []),
)
cache_usage open_ai usage =
    let details =
      or_else (get (lit "prompt_tokens_details") usage) (get (lit "input_tokens_details") usage) in
    let cache_read = unwrap_or 0 (
      or_else (and_then (and_then details (get (lit "cached_tokens"))) as_u64)
        (usage_u64_opt usage (lit "cache_read_input_tokens" ∷ []))) in
    let creation = usage_u64 usage (lit "cache_creation_input_tokens" ∷ []) in
    let input = usage_u64 usage (lit "prompt_tokens" ∷ lit "input_tokens" ∷ []) in
    (cache_read, if ltb 0 creation then creation else input - cache_read)

-- The two readings of the clock come first.
unfoldable pub update_session_from_json_response :
    (Value → Text) → ℕ → ℕ → CcrProvider → Option SseSessionCtx → Value → Inner → Inner
unfolding response_estimates cache_usage
update_session_from_json_response to_string now touched provider none response trackers = trackers
update_session_from_json_response to_string now touched provider (some session) response trackers =
    elim (filter is_object (get (lit "usage") response)) [
      | none ↦ trackers
      | some usage ↦
          let (cache_read, cache_write) = cache_usage provider usage in
          update_from_response now touched (session.provider, session.session_id) cache_read
            cache_write
            (session.message_token_estimates ++ response_estimates to_string provider response)
            trackers
    ]

-- An upstream's response, with what reading its body gives.
pub record UpstreamResponse : Type 0 where
  pub status : ℕ
  pub headers : HeaderMap
  pub bytes : Result Bytes

abbrev pub is_none : Option Bytes → Bool
is_none none = true
is_none (some _) = false

unfoldable pub ccr_response_buffer_eligible : (Bytes → Option Text) → UpstreamResponse → Bool
ccr_response_buffer_eligible to_str response =
    response.status == 200
    && is_none (Headers.get (lit "content-encoding") response.headers)
    && is_application_json to_str response.headers

-- What goes back to the client: the upstream's response as a stream (`response_to_axum`), or a body
-- that was read (`buffered_response_to_axum`), where the flag is `body_replaced`.
pub data Reply : Type 0 where
  streamed : UpstreamResponse → Option SseSessionCtx → Reply
  buffered : UpstreamResponse → Bytes → Bool → Reply

-- What the proxy calls that is not part of it, beyond the continuation's.
pub record Transport : Type 0 where
  pub to_str : Bytes → Option Text
  pub parse_i64 : Text → Option ℕ
  pub from_slice : Bytes → Option Value
  pub to_vec : Value → Bytes
  pub now : ℕ
  pub touched : ℕ

-- The answer to the client, the counters, the trackers, and the bodies the continuation sent.
pub record Forwarded : Type 0 where
  pub reply : Result Reply
  pub stats : Stats
  pub trackers : Inner
  pub sent : List Value

abbrev pub forwarded : Result Reply → Stats → Inner → List Value → Forwarded
forwarded reply stats trackers sent = record {
  reply = reply;
  stats = stats;
  trackers = trackers;
  sent = sent;
}

module _ (lib : Library) (net : Transport) (S : CcrStore) (s : S.State) (provider : CcrProvider)
    (send : List Value → Value → Result Value) (request_path : Text)
    (session : Option SseSessionCtx) where
  abbrev update : Value → Inner → Inner
  update = update_session_from_json_response lib.to_string net.now net.touched provider session

  -- Behind the continuation.
  unfoldable pub after_continuation : UpstreamResponse → Bytes → Loop → Inner → Forwarded
  unfolding update_session_from_json_response
  after_continuation response bytes loop trackers =
      forwarded
        (ok (
          if loop.changed
          then buffered response (net.to_vec loop.current) true
          else buffered response bytes false))
        loop.stats (update loop.current trackers) loop.sent

  -- Behind a body that is JSON.
  unfoldable pub continue_json :
      Value → UpstreamResponse → Bytes → Value → Stats → Inner → Option Forwarded
  unfolding after_continuation update_session_from_json_response
  continue_json request_body response bytes initial stats trackers =
      if is_nil (extract_ccr_tool_calls lib.from_str provider initial)
      then some (forwarded (ok (buffered response bytes false)) stats (update initial trackers) [])
      else and_then (run_ccr_continuation lib S s provider send request_body initial stats)
          (λ (loop : Loop). some (after_continuation response bytes loop trackers))

  unfoldable pub continue_bytes :
      Value → UpstreamResponse → Result Bytes → Stats → Inner → Option Forwarded
  unfolding continue_json
  continue_bytes request_body response (err e) stats trackers =
      some (forwarded (err e) stats trackers [])
  continue_bytes request_body response (ok bytes) stats trackers = elim (net.from_slice bytes) [
    | none ↦ some (forwarded (ok (buffered response bytes false)) stats trackers [])
    | some initial ↦ continue_json request_body response bytes initial stats trackers
  ]

  unfoldable pub continue_response :
      Option Value → UpstreamResponse → Stats → Inner → Option Forwarded
  unfolding continue_bytes ccr_response_buffer_eligible record_rate_limit_headers
  continue_response none response stats trackers =
      some (forwarded (ok (streamed response session)) stats trackers [])
  continue_response (some request_body) response stats trackers =
      if ccr_response_buffer_eligible net.to_str response
      then continue_bytes request_body response response.bytes
          (record_rate_limit_headers net.to_str net.parse_i64 response.headers request_path stats)
          trackers
      else some (forwarded (ok (streamed response session)) stats trackers [])

  -- `forward_with_ccr_continuation` of a request's body, with what the upstream answers it; `none` is
  -- a panic.
  unfoldable pub forward_with_ccr_continuation :
      Bytes → Result UpstreamResponse → Stats → Inner → Option Forwarded
  unfolding continue_response
  forward_with_ccr_continuation body (err e) stats trackers =
      some (forwarded (err e) stats trackers [])
  forward_with_ccr_continuation body (ok response) stats trackers =
      continue_response (net.from_slice body) response stats trackers
