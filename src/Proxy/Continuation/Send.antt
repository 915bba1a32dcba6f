-- ===== src/Proxy/Continuation/Send.antt =====
-- src/proxy.rs: `send_ccr_continuation`, the request that carries a continuation. The HTTP client is the
-- argument `exchange`: the status and the bytes that it answers a request, by the bodies sent before.
use hr.Prelude.{
  ℕ, not, Option, List, [], ◌∷◌, ◌++◌, ◌==◌, if◌then◌else◌, eq_text, retain, lit, Text, Bytes,
}
use hr.Json.{Value}
use hr.Result.{Result, ok, err}
use hr.Proxy.Headers.{HeaderMap, apply_headers}

-- `HeaderMap::remove`
abbrev pub remove : Text → HeaderMap → HeaderMap
remove name headers = retain (λ (h : Text × Bytes). not (eq_text h.0 name)) headers

-- `HeaderMap::insert`, which keeps one value of the name
abbrev pub insert : Text → Bytes → HeaderMap → HeaderMap
insert name value headers = remove name headers ++ (name, value) ∷ []

unfoldable pub sanitized_headers : HeaderMap → HeaderMap
sanitized_headers headers =
    insert (lit "content-type") (lit "application/json")
      (remove (lit "accept-encoding") (remove (lit "content-encoding") headers))

-- Behind the exchange: another status than 200 is an error, and so is a body that is no JSON.
unfoldable pub continuation_answer : (Bytes → Result Value) → Result (ℕ × Bytes) → Result Value
continuation_answer from_slice (err e) = err e
continuation_answer from_slice (ok (status, bytes)) =
    if status == 200
    then from_slice bytes
    else err (lit "ccr continuation upstream returned another status")

-- The identifier of the request is drawn anew, and is an argument.
unfoldable pub send_ccr_continuation :
    (to_str : Bytes → Option Text) (to_vec : Value → Bytes) (from_slice : Bytes → Result Value)
    (exchange : List Value → HeaderMap → Bytes → Result (ℕ × Bytes)) (headers : HeaderMap)
    (client_ip : Option Text) (request_id : Text) (account_id : Option Text)
    → List Value
    → Value
    → Result Value
unfolding sanitized_headers continuation_answer
send_ccr_continuation to_str to_vec from_slice exchange headers client_ip request_id account_id sent
      body =
    continuation_answer from_slice (
      exchange sent
        (apply_headers to_str (sanitized_headers headers) client_ip request_id account_id)
        (to_vec body))
