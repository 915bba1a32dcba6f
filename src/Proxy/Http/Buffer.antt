-- ===== src/Proxy/Http/Buffer.antt =====
-- src/proxy.rs: `buffer_and_forward_known_json` up to the request that it forwards: the headers, the
-- body and what the trackers are to learn from the answer. `none` is a panic of the surgery.
use hr.Prelude.{ℕ, Bool, true, Option, none, some, if◌then◌else◌, lit, Text, Bytes}
use hr.Json.{Value, and_then}
use hr.Result.{Result, ok, err}
use hr.Stats.{Stats, record_skipped_request}
use hr.Session.{Key, Inner}
use hr.Sse.Stream.{SseSessionCtx}
use hr.Ccr.{CcrStore}
use hr.Compress.Request.{CompressContext, RequestCompression, Library, compress_json_request_ctx}
use hr.Proxy.Route.{CompressionTarget}
use hr.Proxy.Headers.{HeaderMap, classify_auth_mode}
use hr.Proxy.Headers
use hr.Proxy.Http.Prepare.{
  read_limited_body, is_empty_batch, session_id_of, frozen_of, beta_header_name, merge_betas,
  shape_of, record_mutation_stats, forwarded_estimates, session_of,
}

-- What is forwarded upstream.
pub record Request : Type 0 where
  pub headers : HeaderMap
  pub mutation : RequestCompression
  pub session : Option SseSessionCtx

-- An error, the answer 400 to a batch without requests, or a request to forward.
pub data Preparation : Type 0 where
  failed : Text → Preparation
  empty_batch : Preparation
  forward : Request → Preparation

-- What the program calls beyond the compression's, the configuration, and two readings of the clock.
pub record Environment : Type 0 where
  pub to_str : Bytes → Option Text
  pub from_str : Text → Option Bytes
  pub parse_usize : Text → Option ℕ
  pub show : ℕ → Text
  pub to_string : Value → Text
  pub max_body_bytes : ℕ
  pub compress_user_text : Bool
  pub now : ℕ
  pub touched : ℕ

module _ (lib : Library) (env : Environment) (S : CcrStore) (target : CompressionTarget) where
  abbrev pub Prepared : Type 0
  Prepared = Option Preparation × Inner × S.State × Stats

  unfoldable pub context : HeaderMap → ℕ → CompressContext
  unfolding classify_auth_mode
  context headers frozen_message_count = record {
    auth_mode = classify_auth_mode env.to_str headers;
    frozen_message_count = frozen_message_count;
    compress_user_text = env.compress_user_text;
    provider_metadata = true;
  }

  -- Behind the compression.
  unfoldable pub after_compression :
      HeaderMap → Option Key → Inner → Option RequestCompression × S.State × Stats → Prepared
  unfolding record_mutation_stats forwarded_estimates
  after_compression headers session_id trackers (none, s, stats) = (none, trackers, s, stats)
  after_compression headers session_id trackers (some mutation, s, stats) = (
    some (
        forward (record {
          headers = headers;
          mutation = mutation;
          session =
              session_of session_id
                (forwarded_estimates env.to_string target (lib.from_slice mutation.body));
        })),
    trackers,
    s,
    record_mutation_stats mutation stats,
  )

  -- Behind the validation.
  unfoldable pub prepare_request :
      HeaderMap → Bytes → Option Value → Inner → S.State → Stats → Prepared
  unfolding session_id_of frozen_of merge_betas after_compression context beta_header_name shape_of
  prepare_request headers body parsed trackers s stats =
      let session_header =
        and_then (Headers.get (lit "x-headroom-session-id") headers) env.to_str in
      let session_id = session_id_of lib.sha256 target session_header parsed in
      let (frozen, trackers') = frozen_of env.now env.touched session_id trackers in
      let (merged, trackers'') =
        merge_betas env.to_str env.from_str (beta_header_name target) session_id headers
          trackers' in
      after_compression merged session_id trackers''
        (compress_json_request_ctx lib S (context merged frozen) (shape_of target) body s stats)

  unfoldable pub prepare_body : HeaderMap → Result Bytes → Inner → S.State → Stats → Prepared
  unfolding is_empty_batch prepare_request
  prepare_body headers (err e) trackers s stats = (some (failed e), trackers, s, stats)
  prepare_body headers (ok body) trackers s stats =
      if is_empty_batch target (lib.from_slice body)
      then (some empty_batch, trackers, s, record_skipped_request (lit "empty_batch") stats)
      else prepare_request headers body (lib.from_slice body) trackers s stats

  unfoldable pub prepare_known_json :
      HeaderMap → (ℕ → Result Bytes) → Inner → S.State → Stats → Prepared
  unfolding read_limited_body prepare_body
  prepare_known_json headers to_bytes trackers s stats =
      let content_length =
        and_then (and_then (Headers.get (lit "content-length") headers) env.to_str)
          env.parse_usize in
      prepare_body headers (read_limited_body env.show content_length env.max_body_bytes to_bytes)
        trackers s stats
