-- ===== src/Sse/Stream/Usage.antt =====
-- The token counters of a stream only grow.
use hr.Prelude.{
  ℕ, ◌≤◌, ◌≡◌, ◌⊎◌, inl, inr, refl, true, Option, none, some, List, [], ◌∷◌, Bool-cases, arith,
  Text, sym, ap, ◌∙◌,
}
use mathlib.Core.Path.{subst}
use hr.Json.{Value}
use hr.Sse.Framer.{SseEvent, is_done_sentinel}
use hr.Sse.Stream.{
  SseKind, openai_chat, openai_responses, anthropic, SseStreamState, World, absorb_usage, no_usage,
  emit_final,
}
use hr.Sse.Stream.Once.{emit_final-again}
use hr.Sse.Stream.Apply.{
  is_str, absorb, apply_chat, apply_responses, apply_anthropic, apply_kind, detect, apply_value,
  apply, apply_all,
}

-- No token counter of the first state is above that of the second, and both have the same kind and session.
pub record Grows (st st' : SseStreamState) : Type 0 where
  pub input : st.input_tokens ≤ st'.input_tokens
  pub output : st.output_tokens ≤ st'.output_tokens
  pub cache_read : st.cache_read_input_tokens ≤ st'.cache_read_input_tokens
  pub cache_creation : st.cache_creation_input_tokens ≤ st'.cache_creation_input_tokens
  pub kind_of : st'.kind ≡ st.kind
  pub session_of : st'.session ≡ st.session

Grows-refl : (st : SseStreamState) → Grows st st
Grows-refl st = record {
  input = omega arith;
  output = omega arith;
  cache_read = omega arith;
  cache_creation = omega arith;
  kind_of = refl;
  session_of = refl;
}

absorb_usage-Grows : (usage : Value) (st : SseStreamState) → Grows st (absorb_usage usage st)
unfolding absorb_usage
absorb_usage-Grows usage st = record {
  input = omega arith;
  output = omega arith;
  cache_read = omega arith;
  cache_creation = omega arith;
  kind_of = refl;
  session_of = refl;
}

absorb-Grows : (usage : Option Value) (st : SseStreamState) → Grows st (absorb usage st)
unfolding absorb
absorb-Grows none st = Grows-refl st
absorb-Grows (some usage) st = absorb_usage-Grows usage st

Grows-trans : {st st' st'' : SseStreamState} → Grows st st' → Grows st' st'' → Grows st st''
Grows-trans g h = record {
  input = omega (arith, g.input, h.input);
  output = omega (arith, g.output, h.output);
  cache_read = omega (arith, g.cache_read, h.cache_read);
  cache_creation = omega (arith, g.cache_creation, h.cache_creation);
  kind_of = h.kind_of ∙ g.kind_of;
  session_of = h.session_of ∙ g.session_of;
}

Grows-marked : (st : SseStreamState) → Grows st (record st { emitted = true })
Grows-marked st = record {
  input = omega arith;
  output = omega arith;
  cache_read = omega arith;
  cache_creation = omega arith;
  kind_of = refl;
  session_of = refl;
}

Grows-status :
    (status : Text) (st : SseStreamState)
    → Grows st (record st { responses_last_status = some status })
Grows-status status st = record {
  input = omega arith;
  output = omega arith;
  cache_read = omega arith;
  cache_creation = omega arith;
  kind_of = refl;
  session_of = refl;
}

Grows-chars : (n : ℕ) (st : SseStreamState) → Grows st (record st { assistant_chars = n })
Grows-chars n st = record {
  input = omega arith;
  output = omega arith;
  cache_read = omega arith;
  cache_creation = omega arith;
  kind_of = refl;
  session_of = refl;
}

module _ (now touched : ℕ) where
  emit_final-state :
      (st : SseStreamState) (w : World)
      → ((emit_final now touched st w).0 ≡ st)
        ⊎ ((emit_final now touched st w).0 ≡ record st { emitted = true })
  unfolding emit_final
  emit_final-state st w = elim (Bool-cases st.emitted) [
    | inl already ↦ inl (ap (λ p. p.0) (emit_final-again now touched st w already))
    | inr first ↦ inr (elim (Bool-cases (no_usage st)) [
      | inl nothing ↦ simp (first, nothing) refl
      | inr usage ↦ simp (first, usage) refl
    ])
  ]

  emit_final-Grows : (st : SseStreamState) (w : World) → Grows st (emit_final now touched st w).0
  emit_final-Grows st w = elim (emit_final-state st w) [
    | inl same ↦ subst (Grows st) (sym same) (Grows-refl st)
    | inr marked ↦ subst (Grows st) (sym marked) (Grows-marked st)
  ]

  apply_chat-Grows :
      (usage : Option Value) (st : SseStreamState) (w : World)
      → Grows st (apply_chat now touched usage st w).0
  unfolding apply_chat
  apply_chat-Grows none st w = Grows-refl st
  apply_chat-Grows (some usage) st w =
      Grows-trans (absorb_usage-Grows usage st) (emit_final-Grows (absorb_usage usage st) w)

  apply_responses-Grows :
      (status : Option Text) (value : Value) (st : SseStreamState) (w : World)
      → Grows st (apply_responses now touched status value st w).0
  unfolding apply_responses
  apply_responses-Grows none value st w = Grows-refl st
  apply_responses-Grows (some status) value st w = Grows-trans (Grows-status status st) (
      Grows-trans (absorb-Grows _ (record st { responses_last_status = some status }))
        (emit_final-Grows _ _))

  apply_anthropic-Grows :
      (kind : Option Text) (value : Value) (st : SseStreamState) (w : World)
      → Grows st (apply_anthropic now touched kind value st w).0
  unfolding apply_anthropic
  apply_anthropic-Grows kind value st w = elim (Bool-cases (is_str "message_start" kind)) [
    | inl a ↦ rw a (absorb-Grows _ st)
    | inr b ↦ elim (Bool-cases (is_str "message_delta" kind)) [
      | inl c ↦ rw (b, c) (absorb-Grows _ st)
      | inr d ↦ elim (Bool-cases (is_str "content_block_delta" kind)) [
        | inl e ↦ rw (b, d, e) (Grows-chars _ st)
        | inr f ↦ elim (Bool-cases (is_str "message_stop" kind)) [
          | inl g ↦ rw (b, d, f, g) (emit_final-Grows st w)
          | inr h ↦ rw (b, d, f, h) (Grows-refl st)
        ]
      ]
    ]
  ]

  apply_kind-Grows :
      (kind : SseKind) (name : Option Text) (value : Value) (st : SseStreamState) (w : World)
      → Grows st (apply_kind now touched kind name value st w).0
  unfolding apply_kind
  apply_kind-Grows openai_chat name value st w = apply_chat-Grows _ st w
  apply_kind-Grows openai_responses name value st w = apply_responses-Grows _ value st w
  apply_kind-Grows anthropic name value st w = apply_anthropic-Grows _ value st w

  apply_value-Grows :
      (name : Option Text) (value : Option Value) (st : SseStreamState) (w : World)
      → Grows st (apply_value now touched name value st w).0
  unfolding apply_value
  apply_value-Grows name none st w = Grows-refl st
  apply_value-Grows name (some value) st w =
      apply_kind-Grows st.kind name value st (detect st.kind value w)

  apply-Grows :
      (from_str : Text → Option Value) (event : SseEvent) (st : SseStreamState) (w : World)
      → Grows st (apply now touched from_str event st w).0
  unfolding apply
  apply-Grows from_str event st w = elim (Bool-cases (is_done_sentinel event)) [
    | inl done ↦ rw done (Grows-refl st)
    | inr json ↦ rw json (apply_value-Grows event.event_name _ st w)
  ]

-- Over any events the four token counters of a stream's state never go down, and its kind and session
-- stay.
pub apply_all-Grows :
    (from_str : Text → Option Value) (events : List (ℕ × ℕ × SseEvent)) (st : SseStreamState)
    (w : World)
    → Grows st (apply_all from_str events st w).0
unfolding apply_all
apply_all-Grows from_str [] st w = Grows-refl st
apply_all-Grows from_str ((now, touched, event) ∷ events) st w =
    let (st', w') = apply now touched from_str event st w in
    Grows-trans (apply-Grows now touched from_str event st w)
      (apply_all-Grows from_str events st' w')
