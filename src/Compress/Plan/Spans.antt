-- ===== src/Compress/Plan/Spans.antt =====
-- That the slots of a plan stand one behind the other inside the text that was planned.
use hr.Prelude.{
  ℕ, ◌+◌, ◌-◌, ◌≤◌, ◌≡◌, refl, inl, inr, Bool, true, false, ◌&&◌, ◌||◌, Option, none, some, List,
  [], ◌∷◌, ◌++◌, ltb, if◌then◌else◌, eq_text, any, Option-cases, lit, String, arith, Text,
}
use hr.Json.{unwrap_or}
use hr.Compress.{PlanSlot}
use hr.Compress.Views.{
  View, Serde, SerdeLaws, MessageHeader, BlockHeader, Inside, InOrder, end_of, offset_of,
  starts_with_byte, offset_of-Inside,
}
use hr.Compress.Plan.{Segment, live_zone_min_bytes, is_some, string_slot, quoted_slot}
use hr.Compress.Plan.Anthropic.{
  hot_zone_block_types, typed_slots, block_slots, plan_blocks, content_slots, header_slots,
  message_slots, plan_messages,
}

-- Slots from `lo` to `hi`, none starting before the end of the one in front of it.
abbrev pub Spans : ℕ → ℕ → List PlanSlot → Type 0
Spans lo hi [] = lo ≤ hi
Spans lo hi (s ∷ ss) = (lo ≤ s.start) × (s.start ≤ s.end) × Spans s.end hi ss

pub Spans-append :
    (a b c : ℕ) (xs ys : List PlanSlot) → Spans a b xs → Spans b c ys → Spans a c (xs ++ ys)
Spans-append a b c [] [] h k = omega arith
Spans-append a b c [] (y ∷ ys) h k = (omega arith, k.1, k.2)
Spans-append a b c (x ∷ xs) ys h k = (h.0, h.1, Spans-append x.end b c xs ys h.2 k)

pub Spans-wider :
    (a b a' b' : ℕ) (xs : List PlanSlot) → Spans a b xs → a' ≤ a → b ≤ b' → Spans a' b' xs
Spans-wider a b a' b' [] h p q = omega arith
Spans-wider a b a' b' (x ∷ xs) h p q =
    (omega arith, h.1, Spans-wider x.end b x.end b' xs h.2 (omega arith) q)

pub if-intro {ℓ κ} :
    {A : Type ℓ} (P : A → Type κ) (t : Bool) (a b : A) → P a → P b → P (if t then a else b)
if-intro P true a b pa pb = pa
if-intro P false a b pa pb = pb

-- The place in the request of an address in a segment.
abbrev pub place : Segment → ℕ → ℕ
place segment address = segment.base + (address - segment.view.at)

InOrder-le : (lo hi : ℕ) (vs : List View) → InOrder lo hi vs → lo ≤ hi
InOrder-le lo hi [] h = h
InOrder-le lo hi (v ∷ vs) h = omega (arith, InOrder-le (end_of v) hi vs h.1)

module _ (Q : Serde) (segment : Segment) where
  string_slot-Spans :
      (min_bytes : ℕ) (label : String) (token : View) (lo hi : ℕ)
      → segment.view.at ≤ lo
      → Inside lo hi token
      → Spans (place segment lo) (place segment hi) (string_slot Q segment min_bytes label token)
  unfolding string_slot
  string_slot-Spans min_bytes label token lo hi at_lo inside =
      elim (Option-cases (offset_of segment.view token)) [
        | inl e ↦ rw (e, string_slot) (omega arith)
        | inr (offset, e) ↦
            let (place_of, _) = offset_of-Inside segment.view token offset e in
            elim (Option-cases (Q.string_of token)) [
              | inl f ↦ rw (e, f, string_slot) (omega arith)
              | inr (text, f) ↦ rw (e, f, string_slot) (omega arith, omega arith, omega arith)
            ]
      ]

  quoted_slot-Spans :
      (min_bytes : ℕ) (label : String) (token : Option View) (lo hi : ℕ)
      → segment.view.at ≤ lo
      → lo ≤ hi
      → ((t : View) → token ≡ some t → Inside lo hi t)
      → Spans (place segment lo) (place segment hi) (quoted_slot Q segment min_bytes label token)
  unfolding quoted_slot
  quoted_slot-Spans min_bytes label none lo hi at_lo le inside = omega arith
  quoted_slot-Spans min_bytes label (some t) lo hi at_lo le inside =
      if-intro (Spans (place segment lo) (place segment hi)) (starts_with_byte b'"' t) _ _
        (string_slot-Spans min_bytes label t lo hi at_lo (inside t refl)) (omega arith)

  module _ (laws : SerdeLaws Q) (opted_in : Bool) where
    abbrev SpansIn : ℕ → ℕ → List PlanSlot → Type 0
    SpansIn lo hi = Spans (place segment lo) (place segment hi)

    typed_slots-Spans :
        (role kind : Text) (block : BlockHeader) (lo hi : ℕ)
        → segment.view.at ≤ lo
        → lo ≤ hi
        → ((t : View) → block.content ≡ some t → Inside lo hi t)
        → ((t : View) → block.text ≡ some t → Inside lo hi t)
        → SpansIn lo hi (typed_slots Q opted_in segment role kind block)
    unfolding typed_slots
    typed_slots-Spans role kind block lo hi at_lo le content text =
        let P = SpansIn lo hi in
        if-intro P (eq_text kind (lit "tool_result")) _ _
          (quoted_slot-Spans live_zone_min_bytes "anthropic.tool_result" block.content lo hi at_lo
            le content)
          (if-intro P (eq_text kind (lit "text") && (eq_text role (lit "user") && opted_in)) _ _
            (quoted_slot-Spans live_zone_min_bytes "anthropic.text" block.text lo hi at_lo le text)
            (omega arith))

    header_block-Spans :
        (role : Text) (block : View) (o : Option BlockHeader)
        → segment.view.at ≤ block.at
        → Q.block_header block ≡ o
        → SpansIn block.at (end_of block) (block_slots Q opted_in segment role o)
    unfolding block_slots
    header_block-Spans role block none at_block h = omega arith
    header_block-Spans role block (some b) at_block h =
        let P = SpansIn block.at (end_of block) in
        if-intro P
          (is_some b.cache_control || any (eq_text (unwrap_or [] b.kind)) hot_zone_block_types) _ _
          (omega arith)
          (typed_slots-Spans role (unwrap_or [] b.kind) b block.at (end_of block) at_block
            (omega arith) (λ t e. laws.block_content_inside block t b h e)
            (λ t e. laws.block_text_inside block t b h e))

    block_slots-Spans :
        (role : Text) (block : View)
        → segment.view.at ≤ block.at
        → SpansIn block.at
            (end_of block)
            (block_slots Q opted_in segment role (Q.block_header block))
    block_slots-Spans role block at_block =
        header_block-Spans role block (Q.block_header block) at_block refl

    plan_blocks-Spans :
        (role : Text) (lo hi : ℕ) (blocks : List View)
        → segment.view.at ≤ lo
        → InOrder lo hi blocks
        → SpansIn lo hi (plan_blocks Q opted_in segment role blocks)
    unfolding plan_blocks
    plan_blocks-Spans role lo hi [] at_lo order = omega arith
    plan_blocks-Spans role lo hi (block ∷ blocks) at_lo order =
        Spans-append (place segment lo) (place segment (end_of block)) (place segment hi) _ _
          (Spans-wider (place segment block.at) (place segment (end_of block)) _ _ _
            (block_slots-Spans role block (omega arith)) (omega arith) (omega arith))
          (plan_blocks-Spans role (end_of block) hi blocks (omega arith) order.1)

    values-Spans :
        (role : Text) (content : View) (o : Option (List View))
        → segment.view.at ≤ content.at
        → Q.raw_values content ≡ o
        → SpansIn content.at (end_of content) (plan_blocks Q opted_in segment role (unwrap_or [] o))
    unfolding plan_blocks
    values-Spans role content none at_content h = omega arith
    values-Spans role content (some blocks) at_content h =
        plan_blocks-Spans role content.at (end_of content) blocks at_content
          (laws.raw_values_inside content blocks h)

    content_slots-Spans :
        (role : Text) (content : View)
        → segment.view.at ≤ content.at
        → SpansIn content.at (end_of content) (content_slots Q opted_in segment role content)
    unfolding content_slots
    content_slots-Spans role content at_content =
        let P = SpansIn content.at (end_of content) in
        let nothing : P [] = omega arith in
        if-intro P (starts_with_byte b'"' content) _ _
          (if-intro P (eq_text role (lit "user") && opted_in) _ _
            (string_slot-Spans live_zone_min_bytes "anthropic.string_content" content content.at
              (end_of content) at_content (omega arith))
            nothing)
          (if-intro P (starts_with_byte b'[' content) _ _
            (values-Spans role content (Q.raw_values content) at_content refl) nothing)

    header_slots-Spans :
        (message : View) (o : Option MessageHeader)
        → segment.view.at ≤ message.at
        → Q.message_header message ≡ o
        → SpansIn message.at (end_of message) (header_slots Q opted_in segment o)
    unfolding header_slots
    header_slots-Spans message none at_message h = omega arith
    header_slots-Spans message (some header) at_message h = elim (Option-cases header.content) [
      | inl e ↦ rw (e, header_slots) (omega arith)
      | inr (content, e) ↦
          let inside = laws.message_content_inside message content header h e in
          rw (e, header_slots)
            (if-intro (SpansIn message.at (end_of message))
              (is_some (offset_of segment.view content)) _ _
              (Spans-wider (place segment content.at) (place segment (end_of content)) _ _ _
                (content_slots-Spans (unwrap_or [] header.role) content (omega arith)) (omega arith)
                (omega arith))
              (omega arith))
    ]

    message_slots-Spans :
        (message : View)
        → segment.view.at ≤ message.at
        → SpansIn message.at (end_of message) (message_slots Q opted_in segment message)
    unfolding message_slots
    message_slots-Spans message at_message =
        header_slots-Spans message (Q.message_header message) at_message refl

    pub plan_messages-Spans :
        (floor index lo hi : ℕ) (messages : List View)
        → segment.view.at ≤ lo
        → InOrder lo hi messages
        → SpansIn lo hi (plan_messages Q opted_in segment floor index messages)
    unfolding plan_messages
    plan_messages-Spans floor index lo hi [] at_lo order = omega arith
    plan_messages-Spans floor index lo hi (message ∷ messages) at_lo order =
        let wide : SpansIn lo (end_of message) (message_slots Q opted_in segment message) =
          Spans-wider (place segment message.at) (place segment (end_of message)) _ _ _
            (message_slots-Spans message (omega arith)) (omega arith) (omega arith) in
        Spans-append (place segment lo) (place segment (end_of message)) (place segment hi) _ _
          (if-intro (SpansIn lo (end_of message)) (ltb index floor) _ _ (omega arith) wide)
          (plan_messages-Spans floor (index + 1) (end_of message) hi messages (omega arith) order.1)
