-- ===== src/Proxy/Http.antt =====
-- src/proxy.rs: `proxy_http`, which decides what becomes of a request, without the transport that
-- carries it out. The URL of the upstream, or why there is none, is an argument.
pub mod Counted
pub mod Prepare
pub mod Buffer
pub mod Prepared
mod Tests
use hr.Prelude.{
  ℕ, Bool, true, false, not, ◌||◌, Option, none, some, List, [], ◌∷◌, if◌then◌else◌, lit, Text,
  Bytes,
}
use hr.Result.{Result, ok, err}
use hr.Stats.{Stats, record_request, record_skipped_request}
use hr.Proxy.Route.{
  CompressionTarget, CompressionMode, RequestClass, allows_compression,
  anthropic_batch_results_batch_id,
}
use hr.Proxy.Batches.{BatchContextEntry, Contexts, batch_context}
use hr.Proxy.Headers.{HeaderMap, compression_bypass_requested, is_application_json}

-- What is done: an answer of 502, `forward_streaming`, `forward_batch_results` or
-- `buffer_and_forward_known_json`.
pub data Routed : Type 0 where
  bad_gateway : Text → Routed
  streaming : Routed
  batch_results : Contexts → Routed
  known_json : CompressionTarget → Routed

-- What `ProxyState` says of the compression.
pub record Settings : Type 0 where
  pub compression_enabled : Bool
  pub compression_mode : CompressionMode

pub record Incoming : Type 0 where
  pub method : Text
  pub path : Text
  pub headers : HeaderMap

-- Why a request that has a target is not compressed.
unfoldable pub opt_out : (Bytes → Option Text) → Settings → HeaderMap → Option Text
opt_out to_str settings headers =
    if not settings.compression_enabled || not (allows_compression settings.compression_mode)
    then some (lit "compression_disabled")
    else if compression_bypass_requested to_str headers
    then some (lit "bypass_header")
    else if not (is_application_json to_str headers)
    then some (lit "non_json_content_type")
    else none

unfoldable pub route_target : CompressionTarget → Option Text → Stats → Routed × Stats
route_target target none stats = (known_json target, stats)
route_target target (some reason) stats = (streaming, record_skipped_request reason stats)

abbrev pub count_reason : Option Text → Stats → Stats
count_reason none stats = stats
count_reason (some reason) stats = record_skipped_request reason stats

abbrev pub results_or_stream : Option Contexts → Routed
results_or_stream none = streaming
results_or_stream (some contexts) = batch_results contexts

unfoldable pub route_batch :
    ℕ → Option Text → List BatchContextEntry → Routed × List BatchContextEntry
unfolding batch_context
route_batch now none entries = (streaming, entries)
route_batch now (some batch_id) entries =
    let (contexts, entries') = batch_context now batch_id entries in
    (results_or_stream contexts, entries')

module _ (to_str : Bytes → Option Text) (settings : Settings) (now : ℕ) (request : Incoming) where
  unfoldable pub route_class :
      Option CompressionTarget
      → Option Text
      → Stats
      → List BatchContextEntry
      → Routed × Stats × List BatchContextEntry
  unfolding opt_out route_target route_batch
  route_class (some target) reason stats entries =
      let (routed, stats') = route_target target (opt_out to_str settings request.headers) stats in
      (routed, stats', entries)
  route_class none reason stats entries =
      let batch_id = anthropic_batch_results_batch_id request.method request.path in
      let (routed, entries') = route_batch now batch_id entries in
      (routed, count_reason reason stats, entries')

  unfoldable pub proxy_http :
      RequestClass
      → Result Text
      → Stats
      → List BatchContextEntry
      → Routed × Stats × List BatchContextEntry
  unfolding route_class
  proxy_http class (err e) stats entries = (bad_gateway e, record_request stats, entries)
  proxy_http class (ok url) stats entries =
      route_class class.target class.skipped_reason (record_request stats) entries
