-- ===== src/Proxy/Forward/Untouched.antt =====
-- That a client gets the upstream's own bytes, or a body in which the proxy's own calls stand beside no
-- others.
use hr.Prelude.{
  ◌≤◌, ◌≡◌, refl, arith, Bool, true, false, Option, some, List, [], length, inl, inr, Bool-cases,
  Option-cases, if◌then◌else◌, Text, Bytes,
}
use hr.Json.{Value, is_object}
use hr.Result.{Result, ok, err}
use hr.Session.{Inner}
use hr.Stats.{Stats}
use hr.Ccr.{CcrStore}
use hr.Sse.Stream.{SseSessionCtx}
use hr.Proxy.Continuation.{CcrProvider, extract_ccr_tool_calls}
use hr.Proxy.Continuation.Rounds.{Library, is_nil}
use hr.Proxy.Continuation.Stripped.{IsPure}
use hr.Proxy.Continuation.Bounded.{run_ccr_continuation_total}
use hr.Proxy.Forward.{
  Reply, streamed, buffered, Transport, UpstreamResponse, Forwarded, forwarded, after_continuation,
  continue_json, continue_bytes, continue_response, forward_with_ccr_continuation,
  ccr_response_buffer_eligible, record_rate_limit_headers, update_session_from_json_response,
}

-- What the client may get of a response, where some bodies were sent behind it: an error of the
-- transport or a stream, and nothing was sent; the bytes of the upstream, and one body was
-- sent at most; or a body without the proxy's own calls beside others, and three were sent at most.
abbrev pub IsHonest :
    Library → Transport → CcrProvider → UpstreamResponse → Result Reply → List Value → Type 0
IsHonest lib net provider response (err e) sent = (response.bytes ≡ err e) × (sent ≡ [])
IsHonest lib net provider response (ok (streamed r session)) sent = (r ≡ response) × (sent ≡ [])
IsHonest lib net provider response (ok (buffered r bytes false)) sent =
    (r ≡ response) × (response.bytes ≡ ok bytes) × (length sent ≤ 1)
IsHonest lib net provider response (ok (buffered r bytes true)) sent =
    (r ≡ response)
    × ((v : Value) × (bytes ≡ net.to_vec v) × IsPure lib.from_str provider v)
    × (length sent ≤ 3)

module _ (lib : Library) (net : Transport) (provider : CcrProvider)
    (response : UpstreamResponse) where
  changed-IsHonest :
      (changed : Bool) (bytes : Bytes) (v : Value) (sent : List Value)
      → response.bytes ≡ ok bytes
      → length sent ≤ 3
      → (changed ≡ false → length sent ≤ 1)
      → IsPure lib.from_str provider v
      → IsHonest lib net provider response
          (ok (
            if changed
            then buffered response (net.to_vec v) true
            else buffered response bytes false))
          sent
  changed-IsHonest true bytes v sent read bound once pure = (refl, (v, refl, pure), bound)
  changed-IsHonest false bytes v sent read bound once pure = (refl, read, once refl)

  module _ (S : CcrStore) (s : S.State) (send : List Value → Value → Result Value)
      (request_path : Text) (session : Option SseSessionCtx) (request_body : Value)
      (object_body : is_object request_body ≡ true) where
    abbrev Honestly : Option Forwarded → Type 0
    Honestly result =
        (f : Forwarded) × (result ≡ some f) × IsHonest lib net provider response f.reply f.sent

    continue_json-Honestly :
        (bytes : Bytes) (initial : Value) (stats : Stats) (trackers : Inner)
        → response.bytes ≡ ok bytes
        → Honestly (
            continue_json lib net S s provider send request_path session request_body response bytes
              initial stats trackers)
    unfolding continue_json after_continuation
    continue_json-Honestly bytes initial stats trackers read =
        elim (Bool-cases (is_nil (extract_ccr_tool_calls lib.from_str provider initial))) [
          | inl e ↦
              let trackers' =
                update_session_from_json_response lib.to_string net.now net.touched provider session
                  initial trackers in
              (
                forwarded (ok (buffered response bytes false)) stats trackers' [],
                rw e refl,
                (refl, read, omega arith),
              )
          | inr e ↦
              let (loop, runs, bound, same, pure) =
                run_ccr_continuation_total lib S s provider send request_body initial stats
                  object_body in
              (
                after_continuation lib net S s provider send request_path session response bytes
                    loop trackers,
                rw (e, runs) refl,
                changed-IsHonest loop.changed bytes loop.current loop.sent read bound
                    (λ k. (same k).1) pure,
              )
        ]

    continue_bytes-Honestly :
        (read : Result Bytes) (stats : Stats) (trackers : Inner)
        → response.bytes ≡ read
        → Honestly (
            continue_bytes lib net S s provider send request_path session request_body response read
              stats trackers)
    unfolding continue_bytes
    continue_bytes-Honestly (err e) stats trackers h = (_, refl, (h, refl))
    continue_bytes-Honestly (ok bytes) stats trackers h =
        elim (Option-cases (net.from_slice bytes)) [
          | inl e ↦ (
            forwarded (ok (buffered response bytes false)) stats trackers [],
            rw (e, continue_bytes) refl,
            (refl, h, omega arith),
          )
          | inr (initial, e) ↦
              let (f, runs, honest) = continue_json-Honestly bytes initial stats trackers h in
              (f, rw (e, continue_bytes) runs, honest)
        ]

    -- For a request whose body is a JSON object, whatever the upstream answers its first request and
    -- the continuations, the client gets its answer, and it is one of: the response as a stream, or an
    -- error of reading it, with no body sent behind it; the very bytes of the response, with one
    -- body sent at most; or a body without the proxy's own calls beside a client's, with three sent at
    -- most.
    pub forward_with_ccr_continuation-IsHonest :
        (body : Bytes) (stats : Stats) (trackers : Inner)
        → net.from_slice body ≡ some request_body
        → (f : Forwarded) × (forward_with_ccr_continuation lib net S s provider send request_path
              session body
              (ok response)
              stats
              trackers
            ≡ some f)
          × IsHonest lib net provider response f.reply f.sent
    unfolding forward_with_ccr_continuation continue_response
    forward_with_ccr_continuation-IsHonest body stats trackers parsed =
        elim (Bool-cases (ccr_response_buffer_eligible net.to_str response)) [
          | inl e ↦
              let counted =
                record_rate_limit_headers net.to_str net.parse_i64 response.headers request_path
                  stats in
              let (f, runs, honest) =
                continue_bytes-Honestly response.bytes counted trackers refl in
              (f, rw (parsed, e) runs, honest)
          | inr e ↦ (
            forwarded (ok (streamed response session)) stats trackers [],
            rw (parsed, e) refl,
            (refl, refl),
          )
        ]
