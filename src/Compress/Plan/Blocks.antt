-- ===== src/Compress/Plan/Blocks.antt =====
-- Which tokens of a message's content get a slot: tool results and, where that is opted in, user text.
use mathlib.Core.List.{Memᴰ}
use hr.Prelude.{
  ℕ, ◌≡◌, refl, ◌⊎◌, inl, inr, Bool, true, false, ◌&&◌, ◌||◌, Option, none, some, List, [], ◌∷◌,
  eq_text, eq_text_iff, any, All, All-append, Bool-cases, Option-cases, lit, String, arith, Text,
}
use hr.Json.{unwrap_or}
use hr.Compress.{PlanSlot}
use hr.Compress.Views.{View, Serde, BlockHeader, offset_of, starts_with_byte}
use hr.Compress.Plan.{Segment, live_zone_min_bytes, is_some, string_slot, quoted_slot}
use hr.Compress.Plan.Anthropic.{
  hot_zone_block_types, typed_slots, block_slots, plan_blocks, content_slots,
}
use hr.Compress.Plan.Spans.{if-intro}

-- The token is user text, and compressing that is opted in.
abbrev pub IsUserText : Bool → Text → Type 0
IsUserText opted_in role = (role ≡ lit "user") × (opted_in ≡ true)

-- The token of a block may be compressed: the content of a `tool_result` block, or the text of a user's
-- `text` block; the block has no `cache_control`.
abbrev pub IsLiveBlock : Bool → Text → BlockHeader → View → Type 0
IsLiveBlock opted_in role block token =
    (block.cache_control ≡ none)
    × (((unwrap_or [] block.kind ≡ lit "tool_result") × (block.content ≡ some token))
        ⊎ ((unwrap_or [] block.kind ≡ lit "text")
            × (block.text ≡ some token)
            × IsUserText opted_in role))

-- A slot with the text of such a token of the block that is read from the view.
abbrev pub IsOfBlock : Serde → Bool → Text → View → PlanSlot → Type 0
IsOfBlock Q opted_in role view slot =
    (block : BlockHeader) × (Q.block_header view ≡ some block)
    × ((token : View) × (Q.string_of token ≡ some slot.text)
        × IsLiveBlock opted_in role block token)

-- A slot with the text of a whole content that is a user's, or of a block that is one of the content's.
abbrev pub IsEligible : Serde → Bool → Text → View → PlanSlot → Type 0
IsEligible Q opted_in role content slot =
    ((Q.string_of content ≡ some slot.text) × IsUserText opted_in role)
    ⊎ ((blocks : List View) × (view : View) × (Q.raw_values content ≡ some blocks)
        × Memᴰ view blocks
        × IsOfBlock Q opted_in role view slot)

and-eq_true : (a b c : Bool) → (a && (b && c)) ≡ true → (a ≡ true) × (b ≡ true) × (c ≡ true)
and-eq_true a b c h = ground arith

none-of : (o : Option View) (b : Bool) → (is_some o || b) ≡ false → o ≡ none
none-of none b h = refl
none-of (some v) b h = cc

module _ (Q : Serde) (segment : Segment) where
  string_slot-text :
      (P : PlanSlot → Type 0) (min_bytes : ℕ) (label : String) (token : View)
      → ((slot : PlanSlot) → Q.string_of token ≡ some slot.text → P slot)
      → All P (string_slot Q segment min_bytes label token)
  unfolding string_slot
  string_slot-text P min_bytes label token h = elim (Option-cases (offset_of segment.view token)) [
    | inl e ↦ rw (e, string_slot) tt
    | inr (offset, e) ↦ elim (Option-cases (Q.string_of token)) [
      | inl f ↦ rw (e, f, string_slot) tt
      | inr (text, f) ↦ rw (e, f, string_slot) (h _ f, tt)
    ]
  ]

  quoted_slot-text :
      (P : PlanSlot → Type 0) (min_bytes : ℕ) (label : String) (o : Option View)
      → ((slot : PlanSlot) (token : View)
          → o ≡ some token
          → Q.string_of token ≡ some slot.text
          → P slot)
      → All P (quoted_slot Q segment min_bytes label o)
  unfolding quoted_slot
  quoted_slot-text P min_bytes label none h = tt
  quoted_slot-text P min_bytes label (some token) h =
      if-intro (All P) (starts_with_byte b'"' token) _ _
        (string_slot-text P min_bytes label token (λ slot e. h slot token refl e)) tt

  module _ (opted_in : Bool) (role : Text) where
    abbrev IsOfHeader : BlockHeader → PlanSlot → Type 0
    IsOfHeader block slot =
        (token : View) × (Q.string_of token ≡ some slot.text)
        × IsLiveBlock opted_in role block token

    typed_slots-IsOfHeader :
        (block : BlockHeader)
        → block.cache_control ≡ none
        → All
            (IsOfHeader block)
            (typed_slots Q opted_in segment role (unwrap_or [] block.kind) block)
    unfolding typed_slots
    typed_slots-IsOfHeader block bare =
        let kind = unwrap_or [] block.kind in
        elim (Bool-cases (eq_text kind (lit "tool_result"))) [
          | inl e ↦ rw e (
              quoted_slot-text _ live_zone_min_bytes "anthropic.tool_result" block.content
                (λ slot token found text.
                  (token, text, (bare, inl ((eq_text_iff kind _).0 e, found)))))
          | inr e ↦
              rw e
                (elim (Bool-cases
                  (eq_text kind (lit "text") && (eq_text role (lit "user") && opted_in))) [
                    | inl f ↦
                        let (is_text, is_user, opted) =
                          and-eq_true (eq_text kind (lit "text")) (eq_text role (lit "user"))
                            opted_in f in
                        let user : IsUserText opted_in role =
                          ((eq_text_iff role (lit "user")).0 is_user, opted) in
                        rw f (
                          quoted_slot-text _ live_zone_min_bytes "anthropic.text" block.text
                            (λ slot token found text. (
                              token,
                              text,
                              (bare, inr ((eq_text_iff kind _).0 is_text, found, user)),
                            )))
                    | inr f ↦ rw f tt
                  ])
        ]

    header_of-IsOfBlock :
        (view : View) (block : BlockHeader) (slots : List PlanSlot)
        → Q.block_header view ≡ some block
        → All (IsOfHeader block) slots
        → All (IsOfBlock Q opted_in role view) slots
    header_of-IsOfBlock view block [] e h = tt
    header_of-IsOfBlock view block (slot ∷ slots) e h =
        ((block, e, h.0), header_of-IsOfBlock view block slots e h.1)

    block_slots-IsOfBlock :
        (view : View) (o : Option BlockHeader)
        → Q.block_header view ≡ o
        → All (IsOfBlock Q opted_in role view) (block_slots Q opted_in segment role o)
    unfolding block_slots
    block_slots-IsOfBlock view none h = tt
    block_slots-IsOfBlock view (some block) h =
        let hot = any (eq_text (unwrap_or [] block.kind)) hot_zone_block_types in
        elim (Bool-cases (is_some block.cache_control || hot)) [
          | inl e ↦ rw e tt
          | inr e ↦ rw e (
              header_of-IsOfBlock view block _ h
                (typed_slots-IsOfHeader block (none-of block.cache_control hot e)))
        ]

    -- A slot of one of the blocks.
    abbrev IsOfOne : List View → PlanSlot → Type 0
    IsOfOne blocks slot = (view : View) × Memᴰ view blocks × IsOfBlock Q opted_in role view slot

    of_first :
        (view : View) (views : List View) (slots : List PlanSlot)
        → All (IsOfBlock Q opted_in role view) slots
        → All (IsOfOne (view ∷ views)) slots
    of_first view views [] h = tt
    of_first view views (slot ∷ slots) h =
        ((view, Memᴰ.head refl, h.0), of_first view views slots h.1)

    of_later :
        (view : View) (views : List View) (slots : List PlanSlot)
        → All (IsOfOne views) slots
        → All (IsOfOne (view ∷ views)) slots
    of_later view views [] h = tt
    of_later view views (slot ∷ slots) h =
        let (found, member, of) = h.0 in
        ((found, Memᴰ.tail member, of), of_later view views slots h.1)

    plan_blocks-IsOfOne :
        (blocks : List View) → All (IsOfOne blocks) (plan_blocks Q opted_in segment role blocks)
    unfolding plan_blocks
    plan_blocks-IsOfOne [] = tt
    plan_blocks-IsOfOne (block ∷ blocks) =
        All-append _ _ _
          (of_first block blocks _ (block_slots-IsOfBlock block (Q.block_header block) refl))
          (of_later block blocks _ (plan_blocks-IsOfOne blocks))

    of_content :
        (content : View) (blocks : List View) (slots : List PlanSlot)
        → Q.raw_values content ≡ some blocks
        → All (IsOfOne blocks) slots
        → All (IsEligible Q opted_in role content) slots
    of_content content blocks [] e h = tt
    of_content content blocks (slot ∷ slots) e h =
        let (view, member, of) = h.0 in
        (inr (blocks, view, e, member, of), of_content content blocks slots e h.1)

    content_blocks-IsEligible :
        (content : View) (o : Option (List View))
        → Q.raw_values content ≡ o
        → All
            (IsEligible Q opted_in role content)
            (plan_blocks Q opted_in segment role (unwrap_or [] o))
    unfolding plan_blocks
    content_blocks-IsEligible content none e = tt
    content_blocks-IsEligible content (some blocks) e =
        of_content content blocks _ e (plan_blocks-IsOfOne blocks)

    pub content_slots-IsEligible :
        (content : View)
        → All (IsEligible Q opted_in role content) (content_slots Q opted_in segment role content)
    unfolding content_slots
    content_slots-IsEligible content =
        let P = All (IsEligible Q opted_in role content) in
        if-intro P (starts_with_byte b'"' content) _ _
          (elim (Bool-cases (eq_text role (lit "user") && opted_in)) [
            | inl e ↦
                let (is_user, opted, _) =
                  and-eq_true (eq_text role (lit "user")) opted_in true (ground arith) in
                rw e (
                  string_slot-text _ live_zone_min_bytes "anthropic.string_content" content
                    (λ slot text. inl (text, ((eq_text_iff role _).0 is_user, opted))))
            | inr e ↦ rw e tt
          ])
          (if-intro P (starts_with_byte b'[' content) _ _
            (content_blocks-IsEligible content (Q.raw_values content) refl) tt)
