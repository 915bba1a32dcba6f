-- ===== src/Compress/Request/Tests.antt =====
-- A body that is a value without tools and without messages.
use hr.Prelude.{◌≡◌, refl, false, some, [], lit, from_utf8}
use hr.Json.{null}
use hr.Stats.{default}
use hr.Ccr.Samples.{store}
use hr.Proxy.Headers.{subscription}
use hr.Proxy.Continuation.Samples.{stored}
use hr.Compress.{compress_slots}
use hr.Compress.Plan.{value_contains_ccr_marker}
use hr.Compress.Plan.Anthropic.{plan_anthropic_segment}
use hr.Compress.Tools.Append.{anthropic_messages}
use hr.Compress.Request.Samples.{lib}
use hr.Compress.Request.{
  CompressContext, RequestCompression, passthrough, parse, compress_json_request_ctx,
}
use hr.Compress.Request.Accounted.{IsAccounted, compress_json_request_ctx-IsAccounted}
use hr.Compress.Request.Quiet.{compress_json_request_ctx-quiet}

abbrev ctx : CompressContext
ctx = record {
  auth_mode = subscription;
  frozen_message_count = 0;
  compress_user_text = false;
  provider_metadata = false;
}

is_json : parse lib (lit "null") ≡ some null
unfolding parse lit from_utf8
is_json = refl

abbrev result : RequestCompression
result = passthrough (lit "null") [] (lit "missing_messages")

answered :
    (compress_json_request_ctx lib store ctx anthropic_messages (lit "null") stored default).0
    ≡ some result
unfolding compress_json_request_ctx lit from_utf8 compress_slots plan_anthropic_segment
    value_contains_ccr_marker
answered = refl

compress_json_request_ctx-IsAccounted_example :
    IsAccounted lib store ctx anthropic_messages (lit "null") stored default result
compress_json_request_ctx-IsAccounted_example =
    compress_json_request_ctx-IsAccounted lib (lit "null") ctx anthropic_messages store stored
      default result answered

compress_json_request_ctx-quiet_example : result.body ≡ lit "null"
unfolding passthrough value_contains_ccr_marker
compress_json_request_ctx-quiet_example =
    compress_json_request_ctx-quiet lib (lit "null") ctx anthropic_messages store null stored
      default result is_json refl refl answered refl
