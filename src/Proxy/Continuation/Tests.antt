-- ===== src/Proxy/Continuation/Tests.antt =====
-- A response of Anthropic with a call of the proxy's own beside one of the client's.
use hr.Prelude.{◌≡◌, ◌≤◌, refl, false, none, some, List, [], ◌∷◌, All, length, lit, eq_text}
use hr.Prelude.Strings.{
  eq_ignore_ascii_case, to_ascii_lowercase, ascii_lower, ends_with, starts_with, strip_prefix,
}
use hr.Json.{Value, get, field}
use hr.Json.Edit.{set_key, insert, lt_text, values_of}
use hr.Stats.{default}
use hr.Ccr.Samples.{store}
use hr.Sse.Stream.Apply.{is_retrieve_tool_name}
use hr.Proxy.Continuation.{
  anthropic, ParsedToolCall, parse_retrieve_tool_call, parse_other_call, parse_retrieve_arguments,
  is_private, is_tool_use, strip_ccr_tool_calls, strip_content,
}
use hr.Proxy.Continuation.Samples.{
  no_json, own_call, client_call, response_of, mixed, lib, request, asks_again, stored,
}
use hr.Proxy.Continuation.Rounds.{Loop, run_ccr_continuation}
use hr.Proxy.Continuation.Stripped.{IsPure, IsStripped, strip_ccr_tool_calls-IsStripped}
use hr.Proxy.Continuation.Bounded.{run_ccr_continuation_total}
use hr.Proxy.Continuation.Sent.{Continues, run_ccr_continuation-Continues}

mixed_stripped : strip_ccr_tool_calls no_json anthropic mixed ≡ some (response_of client_call)
unfolding strip_ccr_tool_calls strip_content is_tool_use is_private parse_retrieve_tool_call
    parse_other_call parse_retrieve_arguments is_retrieve_tool_name eq_ignore_ascii_case
    to_ascii_lowercase ascii_lower ends_with starts_with strip_prefix eq_text lit get field set_key
    insert lt_text values_of
mixed_stripped = refl

strip_ccr_tool_calls-IsStripped_example :
    IsStripped no_json anthropic mixed (response_of client_call)
strip_ccr_tool_calls-IsStripped_example =
    strip_ccr_tool_calls-IsStripped no_json anthropic mixed (response_of client_call) mixed_stripped

run_ccr_continuation_total_example :
    (loop : Loop) × (run_ccr_continuation lib store stored anthropic asks_again request
        (response_of own_call)
        default
      ≡ some loop)
    × (length loop.sent ≤ 3)
    × (loop.changed ≡ false → (loop.current ≡ response_of own_call) × (length loop.sent ≤ 1))
    × IsPure no_json anthropic loop.current
run_ccr_continuation_total_example =
    run_ccr_continuation_total lib store stored anthropic asks_again request (response_of own_call)
      default refl

-- The loop of three rounds.
abbrev finished :
    (loop : Loop) × (run_ccr_continuation lib store stored anthropic asks_again request
        (response_of own_call)
        default
      ≡ some loop)
    × (length loop.sent ≤ 3)
    × (loop.changed ≡ false → (loop.current ≡ response_of own_call) × (length loop.sent ≤ 1))
    × IsPure no_json anthropic loop.current
finished =
    run_ccr_continuation_total lib store stored anthropic asks_again request (response_of own_call)
      default refl

run_ccr_continuation-Continues_example : All (Continues request) finished.0.sent
run_ccr_continuation-Continues_example =
    run_ccr_continuation-Continues request lib store stored anthropic asks_again
      (response_of own_call) default finished.0 finished.1

abbrev calls : List (Value × ParsedToolCall)
calls = (own_call, record { hash = lit "h"; query = none }) ∷ []
