-- ===== src/Proxy/Forward/Tests.antt =====
-- An upstream whose responses are JSON, and always the same call of the proxy's own.
use hr.Prelude.{◌≡◌, refl, none, some, [], ◌∷◌, lit}
use hr.Result.{ok}
use hr.Session.{new}
use hr.Stats.{default}
use hr.Ccr.Samples.{store}
use hr.Proxy.Continuation.{anthropic}
use hr.Proxy.Continuation.Samples.{own_call, response_of, lib, request, asks_again, stored}
use hr.Proxy.Forward.{Transport, UpstreamResponse, Forwarded, forward_with_ccr_continuation}
use hr.Proxy.Forward.Untouched.{IsHonest, forward_with_ccr_continuation-IsHonest}

abbrev net : Transport
net = record {
  to_str = some;
  parse_i64 = λ _. none;
  from_slice = λ bytes. elim bytes [ [] ↦ some request | _ ↦ some (response_of own_call) ];
  to_vec = λ _. lit "r";
  now = 1;
  touched = 2;
}

abbrev response : UpstreamResponse
response = record {
  status = 200;
  headers = (lit "content-type", lit "application/json") ∷ [];
  bytes = ok (lit "x");
}

forward_with_ccr_continuation-IsHonest_example :
    (f : Forwarded) × (forward_with_ccr_continuation lib net store stored anthropic asks_again
        (lit "/v1/messages")
        none
        []
        (ok response)
        default
        new
      ≡ some f)
    × IsHonest lib net anthropic response f.reply f.sent
forward_with_ccr_continuation-IsHonest_example =
    forward_with_ccr_continuation-IsHonest lib net anthropic response store stored asks_again
      (lit "/v1/messages") none request refl [] default new refl
