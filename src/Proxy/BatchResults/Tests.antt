-- ===== src/Proxy/BatchResults/Tests.antt =====
-- The results of a batch of which one request has a context.
use hr.Prelude.{◌≡◌, refl, some, List, [], ◌∷◌, not, retain, lit, Text}
use hr.Json.{Value, string, object, no_fields, field_then}
use hr.Stats.{Stats, default}
use hr.Ccr.Samples.{store}
use hr.Proxy.Batches.{Contexts}
use hr.Proxy.Continuation.Rounds.{Library}
use hr.Proxy.Continuation.Samples.{own_call, response_of, request, asks_again, stored}
use hr.Proxy.BatchResults.{Line, is_blank, process_lines}
use hr.Proxy.BatchResults.Matches.{Matches, process_lines-Matches}

-- Every line is the result of the same request.
abbrev result : Value
result = object (
    field_then (lit "custom_id") (string (lit "c")) (
      field_then (lit "result")
        (object (field_then (lit "message") (response_of own_call) no_fields)) no_fields))

abbrev lib : Library
lib = record { from_str = λ _. some result; to_string = λ _. lit "r"; to_lowercase = λ t. t }

abbrev contexts : Contexts
contexts = (lit "c", request) ∷ []

abbrev two_lines : List Text
two_lines = lit "{}" ∷ lit " " ∷ []

process_lines-Matches_example :
    (outs : List Line) × (after : Stats) × (process_lines lib store stored contexts
        (λ _. asks_again)
        0
        two_lines
        default
      ≡ some (outs, after))
    × Matches lib (retain (λ line. not (is_blank line)) two_lines) outs
process_lines-Matches_example =
    process_lines-Matches lib store stored contexts (refl, tt) (λ _. asks_again) 0 two_lines default
