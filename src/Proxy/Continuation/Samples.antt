-- ===== src/Proxy/Continuation/Samples.antt =====
-- Small values for the tests of continuations: a response of Anthropic with a call of the proxy's own
-- beside one of the client's, and an upstream that asks again.
use hr.Prelude.{Option, none, List, [], lit, Text}
use hr.Json.{Value, string, array, object, no_values, value_then, no_fields, field_then}
use hr.Result.{Result, ok}
use hr.Ccr.Samples.{store}
use hr.Proxy.Continuation.Rounds.{Library}

abbrev pub no_json : Text → Option Value
no_json _ = none

abbrev pub own_call : Value
own_call = object (
    field_then (lit "id") (string (lit "t1")) (
      field_then (lit "input") (object (field_then (lit "hash") (string (lit "h")) no_fields)) (
        field_then (lit "name") (string (lit "headroom_retrieve"))
          (field_then (lit "type") (string (lit "tool_use")) no_fields))))

abbrev pub client_call : Value
client_call = object (
    field_then (lit "id") (string (lit "t2")) (
      field_then (lit "name") (string (lit "read"))
        (field_then (lit "type") (string (lit "tool_use")) no_fields)))

abbrev pub response_of : Value → Value
response_of call = object (field_then (lit "content") (array (value_then call no_values)) no_fields)

abbrev pub mixed : Value
mixed = object (
    field_then (lit "content") (array (value_then own_call (value_then client_call no_values)))
      no_fields)

abbrev pub lib : Library
lib = record { from_str = no_json; to_string = λ _. lit "r"; to_lowercase = λ t. t }

abbrev pub request : Value
request = object (field_then (lit "messages") (array no_values) no_fields)

-- The upstream asks once more for the same, whatever it is sent.
abbrev pub asks_again : List Value → Value → Result Value
asks_again sent body = ok (response_of own_call)

abbrev pub stored : store.State
stored = record { now = 5; db = [] }
