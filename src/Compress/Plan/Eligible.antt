-- ===== src/Compress/Plan/Eligible.antt =====
-- What the plan of an Anthropic request takes: nothing below the floor, and above it tool results and,
-- where that is opted in, user text.
use hr.Prelude.{
  ℕ, zero, suc, ◌+◌, ◌-◌, ◌≤◌, ◌≡◌, refl, sym, ap, inl, inr, Bool, max, Option, none, some, List,
  [], ◌∷◌, ◌++◌, ltb, leb, leb→le, All, drop, length, Bool-cases, Option-cases, arith,
}
use hr.Json.{Value, unwrap_or}
use hr.Compress.{PlanSlot}
use hr.Compress.Views.{View, Serde, MessageHeader, offset_of}
use hr.Compress.Plan.{Segment, is_some}
use hr.Compress.Plan.Anthropic.{
  header_slots, message_slots, plan_messages, cache_control_floor, plan_above, plan_viewed,
  plan_anthropic_segment,
}
use hr.Compress.Plan.Spans.{if-intro}
use hr.Compress.Plan.Blocks.{IsEligible, content_slots-IsEligible}

-- A slot of a message, by the message's header and its content.
abbrev pub IsEligibleIn : Serde → Bool → View → PlanSlot → Type 0
IsEligibleIn Q opted_in message slot =
    (header : MessageHeader) × (content : View) × (Q.message_header message ≡ some header)
    × (header.content ≡ some content)
    × IsEligible Q opted_in (unwrap_or [] header.role) content slot

All-map {ℓ κ μ} :
    {A : Type ℓ} (P : A → Type κ) (R : A → Type μ) (f : (a : A) → P a → R a) (xs : List A)
    → All P xs
    → All R xs
All-map P R f [] h = tt
All-map P R f (x ∷ xs) h = (f x h.0, All-map P R f xs h.1)

drop-nil {ℓ} : {A : Type ℓ} (n : ℕ) (xs : List A) → xs ≡ [] → drop n xs ≡ []
drop-nil zero xs h = h
drop-nil (suc n) [] h = refl
drop-nil (suc n) (x ∷ xs) h = cc

drop-all {ℓ} : {A : Type ℓ} (n : ℕ) (xs : List A) → length xs ≤ n → drop n xs ≡ []
drop-all n [] h = drop-nil n [] refl
drop-all zero (x ∷ xs) h = absurd (omega arith)
drop-all (suc n) (x ∷ xs) h = drop-all n xs (omega arith)

module _ (Q : Serde) (opted_in : Bool) (segment : Segment) where
  -- The slots of each message, one message behind the other.
  unfoldable pub slots_of : List View → List PlanSlot
  slots_of [] = []
  slots_of (message ∷ messages) = message_slots Q opted_in segment message ++ slots_of messages

  header_slots-IsEligibleIn :
      (message : View) (o : Option MessageHeader)
      → Q.message_header message ≡ o
      → All (IsEligibleIn Q opted_in message) (header_slots Q opted_in segment o)
  unfolding header_slots
  header_slots-IsEligibleIn message none h = tt
  header_slots-IsEligibleIn message (some header) h = elim (Option-cases header.content) [
    | inl e ↦ rw (e, header_slots) tt
    | inr (content, e) ↦
        rw (e, header_slots)
          (if-intro (All (IsEligibleIn Q opted_in message))
            (is_some (offset_of segment.view content)) _ _
            (All-map (IsEligible Q opted_in (unwrap_or [] header.role) content)
              (IsEligibleIn Q opted_in message) (λ slot eligible. (header, content, h, e, eligible))
              _ (content_slots-IsEligible Q segment opted_in (unwrap_or [] header.role) content))
            tt)
  ]

  message_slots-IsEligibleIn :
      (message : View)
      → All (IsEligibleIn Q opted_in message) (message_slots Q opted_in segment message)
  unfolding message_slots
  message_slots-IsEligibleIn message =
      header_slots-IsEligibleIn message (Q.message_header message) refl

  -- The loop with its test of the index is the loop over the messages from the floor on.
  plan_messages-drop :
      (floor index : ℕ) (messages : List View)
      → plan_messages Q opted_in segment floor index messages
        ≡ slots_of (drop (floor - index) messages)
  unfolding plan_messages slots_of
  plan_messages-drop floor index [] = ap slots_of (sym (drop-nil (floor - index) [] refl))
  plan_messages-drop floor index (message ∷ messages) =
      let rest = plan_messages-drop floor (index + 1) messages in
      elim (Bool-cases (ltb index floor)) [
        | inl e ↦
            let below : floor - index ≡ suc (floor - (index + 1)) = ground arith in
            rw (e, below) rest
        | inr e ↦
            let above : floor - index ≡ 0 = ground arith in
            let later : floor - (index + 1) ≡ 0 = ground arith in
            rw (e, above)
              (ap (λ ss. message_slots Q opted_in segment message ++ ss) (rw later at rest))
      ]

  -- Of a segment with messages, the plan takes the slots of the messages from the floor on, where
  -- the floor is the larger of the session's and the one that `cache_control` sets: none of the messages below it has a
  -- slot. Each slot of a message has the text of a whole content that is a string of a user, where that is
  -- opted in, or of a token of one of the blocks of the message's content: a block without
  -- `cache_control`, and of it the content of a `tool_result` or, opted in, the text of a user's `text`.
  pub plan_anthropic_segment-IsEligible :
      (extra_floor : ℕ) (messages : List View) (v : Value)
      → Q.messages_view segment.view ≡ some (some messages)
      → Q.value_of segment.view ≡ some v
      → ((plan_anthropic_segment Q opted_in segment extra_floor).1
          ≡ slots_of (drop (max extra_floor (cache_control_floor v)) messages))
        × ((message : View)
            → All (IsEligibleIn Q opted_in message) (message_slots Q opted_in segment message))
  unfolding plan_anthropic_segment plan_viewed plan_above slots_of
  plan_anthropic_segment-IsEligible extra_floor messages v viewed parsed =
      let floor = max extra_floor (cache_control_floor v) in
      let all_of : floor - 0 ≡ floor = omega arith in
      let dropped = rw all_of at (plan_messages-drop floor 0 messages) in
      (
        rw (viewed, parsed)
            (elim (Bool-cases (leb (length messages) floor)) [
              | inl e ↦ rw (e, drop-all floor messages (leb→le (length messages) floor e)) refl
              | inr e ↦ rw e dropped
            ]),
        message_slots-IsEligibleIn,
      )
