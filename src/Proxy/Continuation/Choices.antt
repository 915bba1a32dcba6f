-- ===== src/Proxy/Continuation/Choices.antt =====
-- That a stripped choice of an OpenAI response keeps all but the proxy's own calls.
use hr.Prelude.{
  ℕ, ◌≡◌, refl, ap, ◌∙◌, inl, inr, Bool, true, false, ◌&&◌, Option, none, some, List, [], ◌∷◌, ◌==◌,
  if◌then◌else◌, ltb, eq_text, retain, length, Bool-cases, lit, Text,
}
use hr.Sse.Stream.Apply.{is_str}
use hr.Json.{Value, string, array, get, get_str, and_then, unwrap_or}
use hr.Json.Edit.{set_key, remove_key, values_of, get-set_key, get-set_key_ne, get-remove_key_ne}
use hr.Proxy.Continuation.{
  CcrProvider, calls_of_choice, not_private, with_message, without_calls, with_put_calls, put_calls,
  rewrite_choice, strip_calls, strip_choices,
}
use hr.Proxy.Continuation.Strip.{own, strip_calls_lem}

message-ne-finish : eq_text (lit "message") (lit "finish_reason") ≡ false
unfolding eq_text lit
message-ne-finish = refl

finish_ne_message : eq_text (lit "finish_reason") (lit "message") ≡ false
unfolding eq_text lit
finish_ne_message = refl

-- A field of the message of a choice.
abbrev pub message_field : Text → Value → Option Value
message_field key choice = and_then (get (lit "message") choice) (get key)

-- Every field stays but the message and the reason, and every field of the message but the calls.
abbrev pub KeepsFields : Value → Value → Type 0
KeepsFields choice choice' =
    ((key : Text)
      → eq_text (lit "message") key ≡ false
      → eq_text (lit "finish_reason") key ≡ false
      → get key choice' ≡ get key choice)
    × ((key : Text)
        → eq_text (lit "tool_calls") key ≡ false
        → message_field key choice' ≡ message_field key choice)

-- Whether a choice stopped for its calls.
abbrev pub stops_for_calls : Value → Bool
stops_for_calls choice = is_str "tool_calls" (get_str (lit "finish_reason") choice)

with_put_calls-other :
    (calls : List Value) (o : Option Value) (choice : Value) (key : Text)
    → eq_text (lit "message") key ≡ false
    → get key (with_put_calls calls o choice) ≡ get key choice
unfolding with_put_calls
with_put_calls-other calls none choice key h = refl
with_put_calls-other calls (some message) choice key h =
    get-set_key_ne key (lit "message") _ choice h

with_put_calls-message :
    (calls : List Value) (o : Option Value) (choice : Value) (key : Text)
    → get (lit "message") choice ≡ o
    → eq_text (lit "tool_calls") key ≡ false
    → message_field key (with_put_calls calls o choice) ≡ and_then o (get key)
unfolding with_put_calls
with_put_calls-message calls none choice key e h = rw e refl
with_put_calls-message calls (some message) choice key e h =
    rw
      (get-set_key (lit "message") (set_key (lit "tool_calls") (array (values_of calls)) message)
        choice message e)
      (get-set_key_ne key (lit "tool_calls") (array (values_of calls)) message h)

with_message-other :
    (o : Option Value) (choice : Value) (key : Text)
    → eq_text (lit "message") key ≡ false
    → get key (with_message o choice) ≡ get key choice
unfolding with_message
with_message-other none choice key h = refl
with_message-other (some message) choice key h = get-set_key_ne key (lit "message") _ choice h

with_message-message :
    (o : Option Value) (choice : Value) (key : Text)
    → get (lit "message") choice ≡ o
    → eq_text (lit "tool_calls") key ≡ false
    → message_field key (with_message o choice) ≡ and_then o (get key)
unfolding with_message
with_message-message none choice key e h = rw e refl
with_message-message (some message) choice key e h =
    rw (get-set_key (lit "message") (remove_key (lit "tool_calls") message) choice message e)
      (get-remove_key_ne key (lit "tool_calls") message h)

-- A choice that stops for its calls has a reason.
reason_of_stop :
    (o : Option Value)
    → is_str "tool_calls" (and_then o hr.Json.as_str) ≡ true
    → (v : Value) × (o ≡ some v)
reason_of_stop none h = absurd (cc)
reason_of_stop (some v) h = (v, refl)

without_calls-KeepsFields : (choice : Value) → KeepsFields choice (without_calls choice)
unfolding without_calls
without_calls-KeepsFields choice =
    let bare = with_message (get (lit "message") choice) choice in
    elim (Bool-cases (is_str "tool_calls" (get_str (lit "finish_reason") bare))) [
      | inl e ↦ rw e (
        λ key m f.
            get-set_key_ne key (lit "finish_reason") (string (lit "stop")) bare f
            ∙ with_message-other (get (lit "message") choice) choice key m,
        λ key h.
            ap (λ o. and_then o (get key))
              (get-set_key_ne (lit "message") (lit "finish_reason") (string (lit "stop")) bare
                finish_ne_message)
            ∙ with_message-message (get (lit "message") choice) choice key refl h,
      )
      | inr e ↦ rw e (
        λ key m f. with_message-other (get (lit "message") choice) choice key m,
        λ key h. with_message-message (get (lit "message") choice) choice key refl h,
      )
    ]

without_calls-reason :
    (choice : Value)
    → get (lit "finish_reason") (without_calls choice) ≡ (
        if stops_for_calls choice
        then some (string (lit "stop"))
        else get (lit "finish_reason") choice)
unfolding without_calls
without_calls-reason choice =
    let bare = with_message (get (lit "message") choice) choice in
    let same =
      with_message-other (get (lit "message") choice) choice (lit "finish_reason")
        message-ne-finish in
    elim (Bool-cases (is_str "tool_calls" (get_str (lit "finish_reason") bare))) [
      | inl e ↦
          let (v, found) = reason_of_stop (get (lit "finish_reason") bare) e in
          rw (e, rw same at e)
            (get-set_key (lit "finish_reason") (string (lit "stop")) bare v found)
      | inr e ↦ rw (e, rw same at e) same
    ]

put_calls-KeepsFields :
    (kept : List Value) (choice : Value) → KeepsFields choice (put_calls kept choice)
unfolding put_calls
put_calls-KeepsFields kept choice = (
  λ key m f. with_put_calls-other kept (get (lit "message") choice) choice key m,
  λ key h. with_put_calls-message kept (get (lit "message") choice) choice key refl h,
)

put_calls-reason :
    (kept : List Value) (choice : Value)
    → get (lit "finish_reason") (put_calls kept choice) ≡ get (lit "finish_reason") choice
unfolding put_calls
put_calls-reason kept choice =
    with_put_calls-other kept (get (lit "message") choice) choice (lit "finish_reason")
      message-ne-finish

KeepsFields-trans : (a b c : Value) → KeepsFields a b → KeepsFields b c → KeepsFields a c
KeepsFields-trans a b c (f, g) (h, k) =
    (λ key m r. h key m r ∙ f key m r, λ key t. k key t ∙ g key t)

rewrite_choice-KeepsFields :
    (n : ℕ) (kept : List Value) (choice : Value) → KeepsFields choice (rewrite_choice n kept choice)
unfolding rewrite_choice
rewrite_choice-KeepsFields n kept choice =
    let put = put_calls kept choice in
    elim (Bool-cases (ltb 0 n && (length kept == 0))) [
      | inl e ↦ rw e (
          KeepsFields-trans choice put (without_calls put) (put_calls-KeepsFields kept choice)
            (without_calls-KeepsFields put))
      | inr e ↦ rw e (put_calls-KeepsFields kept choice)
    ]

rewrite_choice-reason :
    (n : ℕ) (kept : List Value) (choice : Value)
    → get (lit "finish_reason") (rewrite_choice n kept choice) ≡ (
        if (ltb 0 n && (length kept == 0)) && stops_for_calls choice
        then some (string (lit "stop"))
        else get (lit "finish_reason") choice)
unfolding rewrite_choice
rewrite_choice-reason n kept choice =
    let same = put_calls-reason kept choice in
    elim (Bool-cases (ltb 0 n && (length kept == 0))) [
      | inl e ↦ rw e (rw same at (without_calls-reason (put_calls kept choice)))
      | inr e ↦ rw e same
    ]

module _ (from_str : Text → Option Value) (provider : CcrProvider) where
  -- The reason is `stop` where a choice stopped for calls and has none left, and else as it was.
  abbrev pub KeepsReason : Value → Value → Type 0
  KeepsReason choice choice' =
      let calls = unwrap_or [] (calls_of_choice choice) in
      get (lit "finish_reason") choice' ≡ (
        if (ltb 0 (length calls) && (length (own from_str provider calls) == 0))
          && stops_for_calls choice
        then some (string (lit "stop"))
        else get (lit "finish_reason") choice)

  -- A choice loses the proxy's own calls, and nothing else.
  abbrev pub KeepsChoice : Value → Value → Type 0
  KeepsChoice choice choice' =
      KeepsFields choice choice'
      × KeepsReason choice choice'
      × (unwrap_or [] (calls_of_choice choice')
          ≡ own from_str provider (unwrap_or [] (calls_of_choice choice)))

  -- Choice by choice, in their order.
  pub data KeepsChoices : List Value → List Value → Type 0 where
    no_choices : KeepsChoices [] []
    one_choice :
        {choice choice' : Value} {choices choices' : List Value}
        → KeepsChoice choice choice'
        → KeepsChoices choices choices'
        → KeepsChoices (choice ∷ choices) (choice' ∷ choices')

  strip_calls-KeepsFields :
      (o : Option (List Value)) (choice : Value)
      → KeepsFields choice (strip_calls from_str provider o choice).0
  unfolding strip_calls
  strip_calls-KeepsFields none choice = (λ key m f. refl, λ key h. refl)
  strip_calls-KeepsFields (some calls) choice =
      rewrite_choice-KeepsFields (length calls) (retain (not_private from_str provider) calls)
        choice

  strip_calls-KeepsReason :
      (o : Option (List Value)) (choice : Value)
      → calls_of_choice choice ≡ o
      → KeepsReason choice (strip_calls from_str provider o choice).0
  unfolding strip_calls
  strip_calls-KeepsReason none choice e = rw e refl
  strip_calls-KeepsReason (some calls) choice e =
      rw e
        (rewrite_choice-reason (length calls) (retain (not_private from_str provider) calls) choice)

  pub strip_choices-KeepsChoices :
      (choices : List Value) → KeepsChoices choices (strip_choices from_str provider choices).0
  unfolding strip_choices
  strip_choices-KeepsChoices [] = no_choices
  strip_choices-KeepsChoices (choice ∷ choices) =
      let (calls, _, _) = strip_calls_lem from_str provider (calls_of_choice choice) choice refl in
      one_choice
        (
          strip_calls-KeepsFields (calls_of_choice choice) choice,
          strip_calls-KeepsReason (calls_of_choice choice) choice refl,
          calls,
        )
        (strip_choices-KeepsChoices choices)
