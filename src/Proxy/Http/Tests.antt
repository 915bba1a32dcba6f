-- ===== src/Proxy/Http/Tests.antt =====
-- A request of the messages endpoint, with a body that is a value without messages.
use mathlib.Core.Path.{subst}
use hr.Prelude.{
  ◌≤◌, All, leb, leb→le, length, inl, inr, Bool-cases, if◌then◌else◌, ◌≡◌, refl, true, false, none,
  some, [], ◌∷◌, ℕ, eq_text, lit, from_utf8, Bytes,
}
use hr.Prelude.Strings.{contains, to_ascii_lowercase, is_empty, join, split, trim}
use hr.Json
use hr.Session.Ids.{compute_session_id}
use hr.Result.{Result, ok, err}
use hr.Stats.{default, fetch_add}
use hr.Session.{new, eq_key, lookup}
use hr.Session
use hr.Session.Betas.{sticky_betas}
use hr.Ccr.Samples.{store}
use hr.Proxy.Continuation.Samples.{stored}
use hr.Compress.{compress_slots}
use hr.Compress.Plan.{value_contains_ccr_marker}
use hr.Compress.Plan.Anthropic.{plan_anthropic_segment}
use hr.Compress.Request.Samples.{lib}
use hr.Compress.Request.{passthrough, compress_json_request_ctx}
use hr.Proxy.Route.{ccr_mode, messages_target, classify_request}
use hr.Proxy.Headers.{HeaderMap, of_option}
use hr.Proxy.Http.{Settings, Incoming, proxy_http}
use hr.Proxy.Http.Counted.{Tally, proxy_http-Tally}
use hr.Proxy.Http.Buffer.{Environment, Request, forward, prepare_known_json}
use hr.Proxy.Http.Prepared.{declared_length, frozen_for, IsPrepared, prepare_known_json-IsPrepared}

abbrev settings : Settings
settings = record { compression_enabled = true; compression_mode = ccr_mode }

abbrev headers : HeaderMap
headers =
    (lit "content-type", lit "application/json")
    ∷ (lit "anthropic-beta", lit "a")
    ∷ (lit "x-headroom-session-id", lit "s")
    ∷ []

abbrev incoming : Incoming
incoming = record { method = lit "POST"; path = lit "/v1/messages"; headers = headers }

proxy_http-Tally_example :
    ((proxy_http some settings 5 incoming
        (classify_request incoming.method incoming.path)
        (ok (lit "u"))
        default
        []).1.total_requests
      ≡ fetch_add 0 1)
    × Tally some settings incoming
        (classify_request incoming.method incoming.path)
        (ok (lit "u"))
        default
        (proxy_http some settings 5 incoming
          (classify_request incoming.method incoming.path)
          (ok (lit "u"))
          default
          []).1
        (proxy_http some settings 5 incoming
          (classify_request incoming.method incoming.path)
          (ok (lit "u"))
          default
          []).0
proxy_http-Tally_example = proxy_http-Tally some settings 5 incoming (ok (lit "u")) default []

abbrev env : Environment
env = record {
  to_str = some;
  from_str = some;
  parse_usize = λ _. none;
  show = λ _. lit "n";
  to_string = λ _. [];
  max_body_bytes = 100;
  compress_user_text = false;
  now = 5;
  touched = 6;
}

abbrev request : Request
request = record {
  headers = headers;
  mutation = passthrough (lit "null") [] (lit "missing_messages");
  session = some (record {
    provider = hr.Session.anthropic;
    session_id = lit "s";
    message_token_estimates = [];
  });
}

abbrev reader : ℕ → Result Bytes
reader limit = if leb 4 limit then ok (lit "null") else err (lit "length limit exceeded")

reader-IsLimited : (limit : ℕ) (body : Bytes) → reader limit ≡ ok body → length body ≤ limit
unfolding lit
reader-IsLimited limit body h = elim (Bool-cases (leb 4 limit)) [
  | inl e ↦
      let room : 4 ≤ limit = leb→le 4 limit e in
      subst (λ (b : Bytes). length b ≤ limit) {x = lit "null"} {y = body} (cc (rw e at h)) room
  | inr e ↦ absurd (cc (rw e at h))
]

prepared :
    (prepare_known_json lib env store messages_target headers reader new stored default).0
    ≡ some (forward request)
unfolding prepare_known_json compress_json_request_ctx lit from_utf8 compress_slots
    plan_anthropic_segment value_contains_ccr_marker sticky_betas hr.Proxy.Headers.get eq_text
    eq_key lookup contains to_ascii_lowercase is_empty join split trim hr.Json.get
    compute_session_id
prepared = refl

prepare_known_json-IsPrepared_example :
    (body : Bytes) × (reader 100 ≡ ok body)
    × (length body ≤ 100)
    × All (λ n. n ≤ 100) (of_option (declared_length env headers))
    × IsPrepared lib env store messages_target body
        (frozen_for lib env store messages_target headers (lib.from_slice body) new)
        headers
        stored
        default
        request
prepare_known_json-IsPrepared_example =
    prepare_known_json-IsPrepared lib env store messages_target headers reader new stored default
      request reader-IsLimited prepared
