-- ===== src/Session/Tests.antt =====
-- One session of each provider.
use hr.Prelude.{
  length, ◌+◌, drop, ◌≡◌, ◌≢◌, arith, refl, true, none, some, List, [], ◌∷◌, ◌++◌, All, lit,
  eq_text, Text,
}
use hr.Prelude.Strings.{join}
use hr.Json.{
  Value, Values, object, string, array, no_values, value_then, no_fields, field_then, get, field,
}
use hr.Session.Estimates.{
  estimate_responses_request_tokens, estimate_response_item_tokens, responses_estimate_prefix_len,
}
use hr.Session.Estimates.Aligned.{estimate_responses_request_tokens_aligned}
use hr.Ccr.Digest.{digest, digest-Sha256Laws}
use hr.Session.Ids.{
  compute_session_id, compute_responses_session_id, IsSessionId, session_ids-IsSessionId,
}
use hr.Session.{
  anthropic, open_ai, Key, Inner, new, saturating_add, lookup, eq_key, maybe_cleanup,
  frozen_message_count, update_from_response,
}
use hr.Session.Betas.{sticky_betas, client_tokens}
use hr.Session.Floor.{FloorIs, frozen_after_update}
use hr.Session.Isolation.{frozen-update_ne}
use hr.Session.Sticky.{
  Sublist, IsDistinct, IsValid, known, holds, sticky_betas-IsValid, sticky_betas_lem,
}

abbrev key : Key
key = (anthropic, lit "s")

abbrev other : Key
other = (open_ai, lit "s")

key_ne-other : key ≢ other
key_ne-other e = cc

-- 1500 tokens cover the first two of three messages of 700.
frozen_after_update_example :
    FloorIs
      (saturating_add 1400 100)
      (700 ∷ 700 ∷ 700 ∷ [])
      (frozen_message_count 50 60 key
        (update_from_response 10 20 key 1400 100 (700 ∷ 700 ∷ 700 ∷ []) new)).0
unfolding lookup maybe_cleanup
frozen_after_update_example =
    frozen_after_update 10 20 50 60 key 1400 100 (700 ∷ 700 ∷ 700 ∷ []) new (omega arith)
      (omega arith)

frozen-update_ne_example :
    (frozen_message_count 50 60 other
      (update_from_response 10 20 key 1400 100 (700 ∷ 700 ∷ 700 ∷ []) new)).0
    ≡ (frozen_message_count 50 60 other (maybe_cleanup 10 new)).0
frozen-update_ne_example =
    frozen-update_ne 10 20 50 60 key other 1400 100 (700 ∷ 700 ∷ 700 ∷ []) new key_ne-other

abbrev betas : Inner
betas = record {
  prefixes = [];
  last_cleanup = none;
  betas = (key, lit "a" ∷ []) ∷ (other, lit "b" ∷ []) ∷ [];
}

betas-IsValid : IsValid betas
unfolding eq_key eq_text lit
betas-IsValid = record {
  bounded = omega arith;
  unique = ((refl, tt), (tt, tt));
  distinct = ((tt, tt), ((tt, tt), tt));
}

sticky_betas-IsValid_example : IsValid (sticky_betas key (some (lit "A, c")) betas).1
sticky_betas-IsValid_example = sticky_betas-IsValid key (some (lit "A, c")) betas betas-IsValid

sticky_betas_lem_example :
    (fresh : List Text) × ((sticky_betas key (some (lit "A, c")) betas).0
      ≡ join (lit ",") (known key betas ++ fresh))
    × Sublist fresh (client_tokens (some (lit "A, c")))
    × IsDistinct (known key betas ++ fresh)
    × All (λ t. holds (known key betas ++ fresh) t ≡ true) (client_tokens (some (lit "A, c")))
    × (known key (sticky_betas key (some (lit "A, c")) betas).1 ≡ known key betas ++ fresh)
sticky_betas_lem_example = sticky_betas_lem key (some (lit "A, c")) betas betas-IsValid

-- Instructions and two items.
abbrev item : Value
item = object (field_then (lit "output") (string (lit "done")) no_fields)

abbrev items : Values
items = value_then item (value_then item no_values)

abbrev body : Value
body = object (
    field_then (lit "instructions") (string (lit "be brief"))
      (field_then (lit "input") (array items) no_fields))

input_of_body : get (lit "input") body ≡ some (array items)
unfolding get field eq_text lit
input_of_body = refl

estimate_responses_request_tokens_aligned_example :
    (drop (responses_estimate_prefix_len body) (estimate_responses_request_tokens (λ _. []) body)
      ≡ estimate_response_item_tokens (λ _. []) (item ∷ item ∷ []))
    × (length (estimate_responses_request_tokens (λ _. []) body)
        ≡ responses_estimate_prefix_len body + 2)
estimate_responses_request_tokens_aligned_example =
    estimate_responses_request_tokens_aligned (λ _. []) body items input_of_body

session_ids-IsSessionId_example :
    IsSessionId digest none (compute_session_id digest none body)
    × IsSessionId digest none (compute_responses_session_id digest none body)
session_ids-IsSessionId_example = session_ids-IsSessionId digest none body digest-Sha256Laws
