-- ===== src/Sse/Stream/Once.antt =====
-- A stream reports its usage at most once.
use mathlib.Core.Path.{subst}
use hr.Prelude.{
  ℕ, ◌≡◌, refl, sym, ◌∙◌, true, false, Option, none, some, List, [], ◌∷◌, inl, inr, Bool-cases,
  Text,
}
use hr.Json.{Value}
use hr.Session.{Inner}
use hr.Stats.{record_service_tier, record_ccr_stream_tool_call}
use hr.Sse.Framer.{SseEvent, is_done_sentinel}
use hr.Sse.Stream.{
  SseKind, openai_chat, openai_responses, anthropic, SseStreamState, World, count, absorb_usage,
  no_usage, emit_final,
}
use hr.Sse.Stream.Apply.{
  is_str, ccr_stream_tool_call_detected, absorb, record_tier, apply_chat, apply_responses,
  apply_anthropic, apply_kind, detect, apply_value, apply, apply_all,
}

-- What a report writes: the trackers, the hit rates, and the five counters of usage.
abbrev pub reported : World → Inner × List (Text × ℕ × ℕ) × ℕ × ℕ × ℕ × ℕ × ℕ
reported w = (
  w.trackers, w.hit_rates, w.stats.sse_input_tokens, w.stats.sse_output_tokens,
  w.stats.sse_cache_read_input_tokens, w.stats.sse_cache_creation_input_tokens,
  w.stats.sse_inferred_cache_write_tokens,
)

-- From one state to another nothing is reported, or what `emit_final` reports once, behind which the
-- state is `emitted`.
pub data Outcome (st : SseStreamState) (w : World) (st' : SseStreamState) (w' : World)
    : Type 0 where
  silent : st'.emitted ≡ st.emitted → reported w' ≡ reported w → Outcome st w st' w'
  reports :
      (now touched : ℕ) (at : SseStreamState) (before : World)
      → st.emitted ≡ false
      → at.emitted ≡ false
      → reported before ≡ reported w
      → st'.emitted ≡ true
      → reported w' ≡ reported (emit_final now touched at before).1
      → Outcome st w st' w'

detect-reported :
    (kind : SseKind) (value : Value) (w : World) → reported (detect kind value w) ≡ reported w
unfolding detect count record_ccr_stream_tool_call
detect-reported kind value w = elim (Bool-cases (ccr_stream_tool_call_detected kind value)) [
  | inl found ↦ rw found refl
  | inr no_call ↦ rw no_call refl
]

record_tier-reported : (tier : Option Text) (w : World) → reported (record_tier tier w) ≡ reported w
unfolding record_tier count record_service_tier
record_tier-reported none w = refl
record_tier-reported (some tier) w = refl

absorb-emitted :
    (usage : Option Value) (st : SseStreamState) → (absorb usage st).emitted ≡ st.emitted
unfolding absorb absorb_usage
absorb-emitted none st = refl
absorb-emitted (some usage) st = refl

emit_final-emitted :
    (now touched : ℕ) (st : SseStreamState) (w : World)
    → (emit_final now touched st w).0.emitted ≡ true
unfolding emit_final
emit_final-emitted now touched st w = elim (Bool-cases st.emitted) [
  | inl already ↦ rw already refl
  | inr first ↦ elim (Bool-cases (no_usage st)) [
    | inl nothing ↦ rw (first, nothing) refl
    | inr usage ↦ rw (first, usage) refl
  ]
]

pub emit_final-again :
    (now touched : ℕ) (st : SseStreamState) (w : World)
    → st.emitted ≡ true
    → emit_final now touched st w ≡ (st, w)
unfolding emit_final
emit_final-again now touched st w h = rw h refl

module _ (now touched : ℕ) where
  emit_final-Outcome :
      (st0 st : SseStreamState) (w0 w : World)
      → st.emitted ≡ st0.emitted
      → reported w ≡ reported w0
      → Outcome st0 w0 (emit_final now touched st w).0 (emit_final now touched st w).1
  emit_final-Outcome st0 st w0 w e r = elim (Bool-cases st.emitted) [
    | inl already ↦
        let same = emit_final-again now touched st w already in
        subst (λ p. Outcome st0 w0 p.0 p.1) (sym same) (silent e r)
    | inr first ↦
        reports now touched st w (sym e ∙ first) first r (emit_final-emitted now touched st w) refl
  ]

  apply_chat-Outcome :
      (usage : Option Value) (st : SseStreamState) (w0 w : World)
      → reported w ≡ reported w0
      → Outcome st w0 (apply_chat now touched usage st w).0 (apply_chat now touched usage st w).1
  unfolding apply_chat absorb_usage
  apply_chat-Outcome none st w0 w r = silent refl r
  apply_chat-Outcome (some usage) st w0 w r =
      emit_final-Outcome st (absorb_usage usage st) w0 w refl r

  apply_responses-Outcome :
      (status : Option Text) (value : Value) (st : SseStreamState) (w0 w : World)
      → reported w ≡ reported w0
      → Outcome st w0
          (apply_responses now touched status value st w).0
          (apply_responses now touched status value st w).1
  unfolding apply_responses
  apply_responses-Outcome none value st w0 w r = silent refl r
  apply_responses-Outcome (some status) value st w0 w r =
      emit_final-Outcome st _ w0 _
        (absorb-emitted _ (record st { responses_last_status = some status }))
        (record_tier-reported _ w ∙ r)

  apply_anthropic-Outcome :
      (kind : Option Text) (value : Value) (st : SseStreamState) (w0 w : World)
      → reported w ≡ reported w0
      → Outcome st w0
          (apply_anthropic now touched kind value st w).0
          (apply_anthropic now touched kind value st w).1
  unfolding apply_anthropic
  apply_anthropic-Outcome kind value st w0 w r = elim (Bool-cases (is_str "message_start" kind)) [
    | inl a ↦ rw a (silent (absorb-emitted _ st) r)
    | inr b ↦ elim (Bool-cases (is_str "message_delta" kind)) [
      | inl c ↦ rw (b, c) (silent (absorb-emitted _ st) r)
      | inr d ↦ elim (Bool-cases (is_str "content_block_delta" kind)) [
        | inl e ↦ rw (b, d, e) (silent refl r)
        | inr f ↦ elim (Bool-cases (is_str "message_stop" kind)) [
          | inl g ↦ rw (b, d, f, g) (emit_final-Outcome st st w0 w refl r)
          | inr h ↦ rw (b, d, f, h) (silent refl r)
        ]
      ]
    ]
  ]

  apply_kind-Outcome :
      (kind : SseKind) (name : Option Text) (value : Value) (st : SseStreamState) (w0 w : World)
      → reported w ≡ reported w0
      → Outcome st w0
          (apply_kind now touched kind name value st w).0
          (apply_kind now touched kind name value st w).1
  unfolding apply_kind
  apply_kind-Outcome openai_chat name value st w0 w r = apply_chat-Outcome _ st w0 w r
  apply_kind-Outcome openai_responses name value st w0 w r =
      apply_responses-Outcome _ value st w0 w r
  apply_kind-Outcome anthropic name value st w0 w r = apply_anthropic-Outcome _ value st w0 w r

  apply_value-Outcome :
      (name : Option Text) (value : Option Value) (st : SseStreamState) (w : World)
      → Outcome st w
          (apply_value now touched name value st w).0
          (apply_value now touched name value st w).1
  unfolding apply_value
  apply_value-Outcome name none st w = silent refl refl
  apply_value-Outcome name (some value) st w =
      apply_kind-Outcome st.kind name value st w _ (detect-reported st.kind value w)

  apply-Outcome :
      (from_str : Text → Option Value) (event : SseEvent) (st : SseStreamState) (w : World)
      → Outcome st w
          (apply now touched from_str event st w).0
          (apply now touched from_str event st w).1
  unfolding apply
  apply-Outcome from_str event st w = elim (Bool-cases (is_done_sentinel event)) [
    | inl done ↦ rw done (silent refl refl)
    | inr json ↦ rw json (apply_value-Outcome event.event_name _ st w)
  ]

Outcome-then :
    {st st' st'' : SseStreamState} {w w' w'' : World}
    → Outcome st w st' w'
    → Outcome st' w' st'' w''
    → Outcome st w st'' w''
Outcome-then (silent e r) (silent e' r') = silent (e' ∙ e) (r' ∙ r)
Outcome-then (silent e r) (reports n t at before f g h i j) =
    reports n t at before (sym e ∙ f) g (h ∙ r) i j
Outcome-then (reports n t at before f g h i j) (silent e' r') =
    reports n t at before f g h (e' ∙ i) (r' ∙ j)
Outcome-then (reports n t at before f g h i j) (reports n' t' at' before' f' g' h' i' j') =
    absurd (cc)

-- Whatever the events are: over all of them the trackers, the hit rates and the usage counters stay as
-- they were, or they change once, by what `emit_final` writes at one state that has not emitted; and a
-- stream that has emitted before changes none of them.
pub apply_all-Outcome :
    (from_str : Text → Option Value) (events : List (ℕ × ℕ × SseEvent)) (st : SseStreamState)
    (w : World)
    → Outcome st w (apply_all from_str events st w).0 (apply_all from_str events st w).1
unfolding apply_all
apply_all-Outcome from_str [] st w = silent refl refl
apply_all-Outcome from_str ((now, touched, event) ∷ events) st w =
    let (st', w') = apply now touched from_str event st w in
    Outcome-then (apply-Outcome now touched from_str event st w)
      (apply_all-Outcome from_str events st' w')
