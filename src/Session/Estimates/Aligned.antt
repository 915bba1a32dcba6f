-- ===== src/Session/Estimates/Aligned.antt =====
-- The estimates of a Responses request stand in line with its input items.
use hr.Prelude.{
  suc, ◌+◌, ◌≡◌, inl, inr, refl, ap, ◌∙◌, Option, none, some, List, [], ◌∷◌, map, length,
  length-append, Bool-cases, drop, drop-length, lit, Text,
}
use hr.Prelude.Strings.{is_empty}
use hr.Json.{
  Value, string, array, object, null, boolean, unsigned, number, Values, no_values, value_then, get,
  elements,
}
use hr.Session.Estimates.{
  estimate_message_tokens, estimate_response_item_tokens, instructions_estimates, input_estimates,
  estimate_responses_request_tokens, prefix_len_of, responses_estimate_prefix_len,
}

length-map : {A B : Type 0} (f : A → B) (l : List A) → length (map f l) ≡ length l
length-map f [] = refl
length-map f (x ∷ l) = ap suc (length-map f l)

module _ (to_string : Value → Text) where
  length-instructions_estimates :
      (instructions : Option Value)
      → length (instructions_estimates to_string instructions) ≡ prefix_len_of instructions
  unfolding instructions_estimates prefix_len_of estimate_message_tokens
  length-instructions_estimates none = refl
  length-instructions_estimates (some (string t)) = elim (Bool-cases (is_empty t)) [
    | inl nothing ↦ rw nothing refl
    | inr text ↦ rw text refl
  ]
  length-instructions_estimates (some (array no_values)) = refl
  length-instructions_estimates (some (array (value_then item items))) = refl
  length-instructions_estimates (some null) = refl
  length-instructions_estimates (some (boolean b)) = refl
  length-instructions_estimates (some (unsigned n)) = refl
  length-instructions_estimates (some (number n)) = refl
  length-instructions_estimates (some (object _)) = refl

  length-estimate_response_item_tokens :
      (items : List Value) → length (estimate_response_item_tokens to_string items) ≡ length items
  unfolding estimate_response_item_tokens
  length-estimate_response_item_tokens items = length-map _ items

  -- Behind as many estimates as `responses_estimate_prefix_len` says, the estimates of a request
  -- whose `input` is an array are those of its items, one for each, in order.
  pub estimate_responses_request_tokens_aligned :
      (body : Value) (items : Values)
      → get (lit "input") body ≡ some (array items)
      → (drop
            (responses_estimate_prefix_len body)
            (estimate_responses_request_tokens to_string body)
          ≡ estimate_response_item_tokens to_string (elements items))
        × (length (estimate_responses_request_tokens to_string body)
            ≡ responses_estimate_prefix_len body + length (elements items))
  unfolding estimate_responses_request_tokens responses_estimate_prefix_len input_estimates
  estimate_responses_request_tokens_aligned body items h =
      let front = instructions_estimates to_string (get (lit "instructions") body) in
      let e = length-instructions_estimates (get (lit "instructions") body) in
      let back = estimate_response_item_tokens to_string (elements items) in
      rw (h, ← e)
        (
          drop-length front back,
          length-append front back
              ∙ ap (λ n. length front + n) (length-estimate_response_item_tokens (elements items)),
        )
