-- ===== src/Proxy/Continuation/Strip.antt =====
-- That stripping takes out the proxy's own calls, keeps the client's in their order, and never leaves
-- a response of tool calls with none.
use hr.Prelude.{
  ℕ, suc, ◌+◌, ◌<◌, ◌≡◌, ◌≢◌, refl, sym, ap, ◌∙◌, inl, inr, Bool, true, false, not, ◌&&◌, ◌||◌,
  Option, none, some, List, [], ◌∷◌, ◌++◌, ◌==◌, ltb, eq_text, any, retain, length, length-append,
  length-retain, Bool-cases, Option-cases, lit, Text, arith,
}
use hr.Sse.Stream.Apply.{is_str}
use hr.Json.{Value, string, array, get, as_array, and_then, unwrap_or, get_str}
use hr.Json.Edit.{
  set_key, values_of, elements-values_of, get-set_key, get-set_key_ne, get-remove_key,
}
use hr.Proxy.Continuation.{
  CcrProvider, provider_str, calls_of_choice, calls_of_choices, is_private, not_private,
  parsed_call, parse_retrieve_tool_call, extract_from, with_message, without_calls, with_put_calls,
  put_calls, rewrite_choice, strip_calls, strip_choices,
}

retain-append {ℓ} :
    {A : Type ℓ} (p : A → Bool) (xs ys : List A) → retain p (xs ++ ys) ≡ retain p xs ++ retain p ys
retain-append p [] ys = refl
retain-append p (x ∷ xs) ys = elim (Bool-cases (p x)) [
  | inl e ↦ rw e (ap (◌∷◌ x) (retain-append p xs ys))
  | inr e ↦ rw e (retain-append p xs ys)
]

pub retain_all {ℓ} :
    {A : Type ℓ} (p : A → Bool) (xs : List A) → any (λ x. not (p x)) xs ≡ false → retain p xs ≡ xs
retain_all p [] h = refl
retain_all p (x ∷ xs) h = elim (Bool-cases (p x)) [
  | inl e ↦
      let h' : any (λ y. not (p y)) xs ≡ false = rw e at h in rw e (ap (◌∷◌ x) (retain_all p xs h'))
  | inr e ↦ let h' : true ≡ false = rw e at h in cc
]

pub length-eq-zero {ℓ} : {A : Type ℓ} (xs : List A) → length xs ≡ 0 → xs ≡ []
length-eq-zero [] h = refl
length-eq-zero (x ∷ xs) h = absurd (omega arith)

finish-ne-message : eq_text (lit "finish_reason") (lit "message") ≡ false
unfolding eq_text lit
finish-ne-message = refl

-- The calls of a choice after a write of its message.
calls_of_choice-set :
    (message w choice : Value)
    → get (lit "message") choice ≡ some w
    → calls_of_choice (set_key (lit "message") message choice)
      ≡ and_then (get (lit "tool_calls") message) as_array
unfolding calls_of_choice
calls_of_choice-set message w choice h = rw (get-set_key (lit "message") message choice w h) refl

pub and_then-eq_some {ℓ κ} :
    {A : Type ℓ} {B : Type κ} (o : Option A) (f : A → Option B) {b : B}
    → and_then o f ≡ some b
    → (a : A) × (o ≡ some a) × (f a ≡ some b)
and_then-eq_some none f h = cc
and_then-eq_some (some a) f h = (a, refl, h)

-- A choice that has calls has a message that has them.
calls_of_choice_inv :
    (choice : Value) (calls : List Value)
    → calls_of_choice choice ≡ some calls
    → (message v : Value) × (get (lit "message") choice ≡ some message)
      × (get (lit "tool_calls") message ≡ some v)
unfolding calls_of_choice
calls_of_choice_inv choice calls h =
    let (v, e, _) =
      and_then-eq_some (and_then (get (lit "message") choice) (get (lit "tool_calls"))) as_array
        h in
    let (message, em, ev) =
      and_then-eq_some (get (lit "message") choice) (get (lit "tool_calls")) e in
    (message, v, em, ev)

calls_of_choice-put_calls :
    (kept calls : List Value) (choice : Value)
    → calls_of_choice choice ≡ some calls
    → calls_of_choice (put_calls kept choice) ≡ some kept
unfolding put_calls with_put_calls
calls_of_choice-put_calls kept calls choice h =
    let (message, v, em, ev) = calls_of_choice_inv choice calls h in
    rw em (
      calls_of_choice-set _ message choice em
      ∙ rw (get-set_key (lit "tool_calls") (array (values_of kept)) message v ev)
          (ap some (elements-values_of kept)))

calls_of_choice-finish :
    (v choice : Value)
    → calls_of_choice (set_key (lit "finish_reason") v choice) ≡ calls_of_choice choice
unfolding calls_of_choice
calls_of_choice-finish v choice =
    rw (get-set_key_ne (lit "message") (lit "finish_reason") v choice finish-ne-message) refl

calls_of_choice-bare :
    (choice : Value) → get (lit "message") choice ≡ none → calls_of_choice choice ≡ none
unfolding calls_of_choice
calls_of_choice-bare choice h = rw h refl

calls_of_choice-with_message :
    (choice : Value) → calls_of_choice (with_message (get (lit "message") choice) choice) ≡ none
unfolding with_message
calls_of_choice-with_message choice = elim (Option-cases (get (lit "message") choice)) [
  | inl e ↦ rw e (calls_of_choice-bare choice e)
  | inr (message, e) ↦
      rw e (
        calls_of_choice-set _ message choice e
        ∙ rw (get-remove_key (lit "tool_calls") message) refl)
]

-- A choice that is rewritten as text has no calls.
pub calls_of_choice-without_calls : (choice : Value) → calls_of_choice (without_calls choice) ≡ none
unfolding without_calls
calls_of_choice-without_calls choice =
    let bare = with_message (get (lit "message") choice) choice in
    elim (Bool-cases (is_str "tool_calls" (get_str (lit "finish_reason") bare))) [
      | inl e ↦
          rw e (
            calls_of_choice-finish (string (lit "stop")) bare ∙ calls_of_choice-with_message choice)
      | inr e ↦ rw e (calls_of_choice-with_message choice)
    ]

-- The calls that a choice has after the rewrite are those that stay.
calls_of_choice-rewrite_choice :
    (n : ℕ) (kept calls : List Value) (choice : Value)
    → calls_of_choice choice ≡ some calls
    → unwrap_or [] (calls_of_choice (rewrite_choice n kept choice)) ≡ kept
unfolding rewrite_choice
calls_of_choice-rewrite_choice n kept calls choice h =
    elim (Bool-cases (ltb 0 n && (length kept == 0))) [
      | inl e ↦
          let nil : kept ≡ [] = length-eq-zero kept (ground arith) in
          rw e (rw (calls_of_choice-without_calls (put_calls kept choice)) (sym nil))
      | inr e ↦ rw e (rw (calls_of_choice-put_calls kept calls choice h) refl)
    ]

pub retain-eq_of_length {ℓ} :
    {A : Type ℓ} (p : A → Bool) (xs : List A) → length (retain p xs) ≡ length xs → retain p xs ≡ xs
retain-eq_of_length p [] h = refl
retain-eq_of_length p (x ∷ xs) h = elim (Bool-cases (p x)) [
  | inl e ↦
      let h' : suc (length (retain p xs)) ≡ suc (length xs) = rw e at h in
      rw e (ap (◌∷◌ x) (retain-eq_of_length p xs (omega arith)))
  | inr e ↦
      let h' : length (retain p xs) ≡ suc (length xs) = rw e at h in
      absurd (omega (arith, length-retain p xs))
]

retain-retain {ℓ} : {A : Type ℓ} (p : A → Bool) (xs : List A) → retain p (retain p xs) ≡ retain p xs
retain-retain p [] = refl
retain-retain p (x ∷ xs) = elim (Bool-cases (p x)) [
  | inl e ↦ rw e (rw e (ap (◌∷◌ x) (retain-retain p xs)))
  | inr e ↦ rw e (retain-retain p xs)
]

pub or-eq_false : (a b : Bool) → (a || b) ≡ false → (a ≡ false) × (b ≡ false)
or-eq_false a b h = ground arith

pub not_eq_false : (m n : ℕ) → not (m == n) ≡ false → m ≡ n
not_eq_false m n h = ground arith

ne_of_not_eq : (m n : ℕ) → true ≡ (not (m == n) || false) → m ≢ n
ne_of_not_eq m n h = ground arith

module _ (from_str : Text → Option Value) (provider : CcrProvider) where
  abbrev pub own : List Value → List Value
  own = retain (not_private from_str provider)

  -- What a stripped choice is left with, by each of the three results.
  pub strip_calls_lem :
      (o : Option (List Value)) (choice : Value)
      → calls_of_choice choice ≡ o
      → (unwrap_or [] (calls_of_choice (strip_calls from_str provider o choice).0)
          ≡ own (unwrap_or [] o))
        × ((strip_calls from_str provider o choice).1
            ≡ not (length (own (unwrap_or [] o)) == length (unwrap_or [] o)))
        × ((strip_calls from_str provider o choice).2 ≡ length (own (unwrap_or [] o)))
  unfolding strip_calls
  strip_calls_lem none choice h = (rw h refl, refl, refl)
  strip_calls_lem (some calls) choice h =
      (calls_of_choice-rewrite_choice (length calls) (own calls) calls choice h, refl, refl)

  pub strip_choices_lem :
      (choices : List Value)
      → (calls_of_choices (strip_choices from_str provider choices).0
          ≡ own (calls_of_choices choices))
        × ((strip_choices from_str provider choices).2 ≡ length (own (calls_of_choices choices)))
        × ((strip_choices from_str provider choices).1 ≡ false
            → own (calls_of_choices choices) ≡ calls_of_choices choices)
        × ((strip_choices from_str provider choices).1 ≡ true
            → length (own (calls_of_choices choices)) < length (calls_of_choices choices))
  unfolding strip_choices calls_of_choices
  strip_choices_lem [] = (refl, refl, λ _. refl, λ h. cc)
  strip_choices_lem (choice ∷ choices) =
      let (kept, removed, count) = strip_calls_lem (calls_of_choice choice) choice refl in
      let (kept', count', removed', fewer) = strip_choices_lem choices in
      let calls = unwrap_or [] (calls_of_choice choice) in
      let split = retain-append (not_private from_str provider) calls (calls_of_choices choices) in
      (
        rw (kept, kept') (sym split),
        rw (count, count', split)
            (sym (length-append (own calls) (own (calls_of_choices choices)))),
        λ h.
            let (a, b) =
              or-eq_false (strip_calls from_str provider (calls_of_choice choice) choice).1 _ h in
            let same =
              retain-eq_of_length (not_private from_str provider) calls
                (not_eq_false _ _ (sym removed ∙ a)) in
            rw (split, same, removed' b) refl,
        λ h.
            let h' : (not (length (own calls) == length calls)
                  || (strip_choices from_str provider choices).1)
                ≡ true =
              rw removed at h in
            elim (Bool-cases (strip_choices from_str provider choices).1) [
              | inl e ↦ omega (
                arith,
                fewer e,
                length-retain (not_private from_str provider) calls,
                ap length split,
                length-append (own calls) (own (calls_of_choices choices)),
                length-append calls (calls_of_choices choices),
              )
              | inr e ↦ omega (
                arith,
                ne_of_not_eq _ _ (sym (rw e at h')),
                length-retain (not_private from_str provider) calls,
                length-retain (not_private from_str provider) (calls_of_choices choices),
                ap length split,
                length-append (own calls) (own (calls_of_choices choices)),
                length-append calls (calls_of_choices choices),
              )
            ],
      )

  -- Of the calls in a list, the proxy's own are extracted and the others stay.
  pub length-extract_from :
      (calls : List Value)
      → length (extract_from from_str provider calls) + length (own calls) ≡ length calls
  unfolding extract_from parsed_call is_private
  length-extract_from [] = omega arith
  length-extract_from (call ∷ calls) =
      elim (Option-cases (parse_retrieve_tool_call from_str call (provider_str provider))) [
        | inl e ↦ rw e (omega (arith, length-extract_from calls))
        | inr (parsed, e) ↦ rw e (omega (arith, length-extract_from calls))
      ]

  pub extract_from-own : (calls : List Value) → extract_from from_str provider (own calls) ≡ []
  extract_from-own calls = length-eq-zero _ (
      omega (
        arith,
        length-extract_from (own calls),
        ap length (retain-retain (not_private from_str provider) calls),
      ))
