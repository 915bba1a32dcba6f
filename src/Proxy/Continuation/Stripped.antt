-- ===== src/Proxy/Continuation/Stripped.antt =====
-- That stripping takes out the proxy's own calls, keeps the client's in their order, and never leaves
-- a response of tool calls with none.
use hr.Prelude.{
  ℕ, ◌<◌, ◌≡◌, ◌≢◌, length-retain, refl, sym, ap, ◌∙◌, ◌⊎◌, inl, inr, Bool, true, false, not, ◌||◌,
  Option, none, some, List, [], ◌∷◌, ◌==◌, if◌then◌else◌, eq_text, any, retain, length, Bool-cases,
  Option-cases, lit, Text, arith,
}
use mathlib.Core.Path.{subst}
use hr.Json.{Value, array, get, as_array, and_then}
use hr.Json.Edit.{set_key, values_of, elements-values_of, get-set_key, get-set_key_ne}
use hr.Proxy.Continuation.{
  CcrProvider, anthropic, open_ai, calls_of_choices, content_of, choices_of, is_tool_use,
  not_private, stays, provider_tool_calls, extract_from, extract_ccr_tool_calls, strip_choices,
  strip_content, strip_all, strip_ccr_tool_calls,
}
use hr.Proxy.Continuation.Choices.{KeepsChoices, strip_choices-KeepsChoices}
use hr.Proxy.Continuation.Strip.{
  own, and_then-eq_some, strip_choices_lem, length-extract_from, extract_from-own, retain_all,
  length-eq-zero,
}

-- The array of a response that stripping rewrites.
abbrev pub list_key : CcrProvider → Text
list_key anthropic = lit "content"
list_key open_ai = lit "choices"

-- `get(key).and_then(as_array)` after a write of the key, and the array as it was
array-set_key :
    (key : Text) (vs old : List Value) (w : Value)
    → and_then (get key w) as_array ≡ some old
    → and_then (get key (set_key key (array (values_of vs)) w)) as_array ≡ some vs
array-set_key key vs old w h =
    let (v, e, _) = and_then-eq_some (get key w) as_array h in
    rw (get-set_key key (array (values_of vs)) w v e) (ap some (elements-values_of vs))

-- The guard of both providers: something is removed, and something remains.
guard-eq_some {ℓ} :
    {A : Type ℓ} (removed : Bool) (remaining : ℕ) (x y : A)
    → (if not removed || (remaining == 0) then none else some x) ≡ some y
    → (removed ≡ true) × (remaining ≢ 0) × (x ≡ y)
guard-eq_some true remaining x y h = elim (Bool-cases (remaining == 0)) [
  | inl e ↦ let h' : none ≡ some y = rw e at h in cc
  | inr e ↦ let h' : some x ≡ some y = rw e at h in (refl, ground arith, cc)
]
guard-eq_some false remaining x y h = cc

guard-eq_none {ℓ} :
    {A : Type ℓ} (removed : Bool) (remaining : ℕ) (x : A)
    → (if not removed || (remaining == 0) then none else some x) ≡ none
    → (removed ≡ false) ⊎ (remaining ≡ 0)
guard-eq_none true remaining x h = elim (Bool-cases (remaining == 0)) [
  | inl e ↦ inr (ground arith)
  | inr e ↦ let h' : some x ≡ none = rw e at h in cc
]
guard-eq_none false remaining x h = inl refl

module _ (from_str : Text → Option Value) where
  -- The calls among the blocks that stay are the calls that are the client's.
  tool_use-stays :
      (provider : CcrProvider) (blocks : List Value)
      → retain is_tool_use (retain (stays from_str provider) blocks)
        ≡ own from_str provider (retain is_tool_use blocks)
  tool_use-stays provider [] = refl
  tool_use-stays provider (block ∷ blocks) = ground (arith, tool_use-stays provider blocks)

  -- The blocks that are left are all but the proxy's own calls, in their order; the choices that are
  -- left are those of the response, each without the proxy's own calls.
  abbrev pub KeepsRest : CcrProvider → Value → Value → Type 0
  KeepsRest anthropic response stripped =
      content_of stripped ≡ retain (stays from_str anthropic) (content_of response)
  KeepsRest open_ai response stripped =
      KeepsChoices from_str open_ai (choices_of response) (choices_of stripped)

  -- A response and what stripping makes of it.
  abbrev pub IsStripped : CcrProvider → Value → Value → Type 0
  IsStripped provider response stripped =
      (provider_tool_calls provider stripped
        ≡ own from_str provider (provider_tool_calls provider response))
      × (provider_tool_calls provider stripped ≢ [])
      × (extract_ccr_tool_calls from_str provider response ≢ [])
      × KeepsRest provider response stripped
      × ((key : Text)
          → eq_text (list_key provider) key ≡ false
          → get key stripped ≡ get key response)

  -- A list from which something and not everything is taken.
  extract-ne-nil :
      (provider : CcrProvider) (calls : List Value)
      → length (own from_str provider calls) < length calls
      → extract_from from_str provider calls ≢ []
  extract-ne-nil provider calls h e =
      omega (arith, length-extract_from from_str provider calls, ap length e)

  -- A block that does not stay is a call of the proxy's own.
  fewer_of_removed :
      (provider : CcrProvider) (blocks : List Value)
      → any (λ block. not (stays from_str provider block)) blocks ≡ true
      → length (own from_str provider (retain is_tool_use blocks))
        < length (retain is_tool_use blocks)
  fewer_of_removed provider (block ∷ blocks) h = ground (
    arith,
    fewer_of_removed provider blocks,
    length-retain (not_private from_str provider) (retain is_tool_use blocks),
  )
  fewer_of_removed provider [] h = cc

  strip_content_lem :
      (response stripped : Value) (content : List Value)
      → and_then (get (lit "content") response) as_array ≡ some content
      → strip_content from_str anthropic content response ≡ some stripped
      → IsStripped anthropic response stripped
  unfolding strip_content provider_tool_calls extract_ccr_tool_calls
  strip_content_lem response stripped content hc h =
      let (removed, remaining, e) = guard-eq_some _ _ _ stripped h in
      let is_content : content_of response ≡ content = rw hc refl in
      let kept = retain (stays from_str anthropic) content in
      let is_kept : content_of stripped ≡ kept =
        subst (λ w. content_of w ≡ kept) e
          (rw (array-set_key (lit "content") kept content response hc) refl) in
      (
        rw (is_kept, is_content) (tool_use-stays anthropic content),
        λ nil. remaining (ap length (rw is_kept at nil)),
        rw is_content (
            extract-ne-nil anthropic (retain is_tool_use content)
              (fewer_of_removed anthropic content removed)),
        rw (is_kept, is_content) refl,
        λ key ne.
            subst (λ w. get key w ≡ get key response) e
              (get-set_key_ne key (lit "content") _ response ne),
      )

  strip_all_lem :
      (response stripped : Value) (choices : List Value)
      → and_then (get (lit "choices") response) as_array ≡ some choices
      → strip_all from_str open_ai choices response ≡ some stripped
      → IsStripped open_ai response stripped
  unfolding strip_all provider_tool_calls extract_ccr_tool_calls
  strip_all_lem response stripped [] hc h = cc
  strip_all_lem response stripped (c ∷ cs) hc h =
      let (removed, remaining, e) = guard-eq_some _ _ _ stripped h in
      let (kept, count, _, fewer) = strip_choices_lem from_str open_ai (c ∷ cs) in
      let is_choices : choices_of response ≡ c ∷ cs = rw hc refl in
      let choices = (strip_choices from_str open_ai (c ∷ cs)).0 in
      let is_kept : choices_of stripped ≡ choices =
        subst (λ w. choices_of w ≡ choices) e
          (rw (array-set_key (lit "choices") choices (c ∷ cs) response hc) refl) in
      (
        rw (is_kept, is_choices) kept,
        λ nil. remaining (count ∙ ap length (sym kept ∙ rw is_kept at nil)),
        rw is_choices (extract-ne-nil open_ai (calls_of_choices (c ∷ cs)) (fewer removed)),
        rw (is_kept, is_choices) (strip_choices-KeepsChoices from_str open_ai (c ∷ cs)),
        λ key ne.
            subst (λ w. get key w ≡ get key response) e
              (get-set_key_ne key (lit "choices") _ response ne),
      )

  -- A response that is stripped had one of the proxy's own calls at least, and has one of the client's
  -- at least; it loses the proxy's own calls and nothing else. Of an Anthropic response all other blocks
  -- stay, of whatever type, in their order. Of an OpenAI response all choices stay in their order, each
  -- with its own client calls in their order; its fields and those of its message stay, but the calls,
  -- and but the reason of a choice that stopped for its calls and has none left, which is then
  -- `stop`. Every other field of the response is as it was.
  pub strip_ccr_tool_calls-IsStripped :
      (provider : CcrProvider) (response stripped : Value)
      → strip_ccr_tool_calls from_str provider response ≡ some stripped
      → IsStripped provider response stripped
  unfolding strip_ccr_tool_calls
  strip_ccr_tool_calls-IsStripped anthropic response stripped h =
      let (content, hc, e) =
        and_then-eq_some (and_then (get (lit "content") response) as_array)
          (λ content. strip_content from_str anthropic content response) h in
      strip_content_lem response stripped content hc e
  strip_ccr_tool_calls-IsStripped open_ai response stripped h =
      let (choices, hc, e) =
        and_then-eq_some (and_then (get (lit "choices") response) as_array)
          (λ choices. strip_all from_str open_ai choices response) h in
      strip_all_lem response stripped choices hc e

  -- A response that is not stripped has none of the proxy's own calls, or has none but those.
  abbrev pub IsPure : CcrProvider → Value → Type 0
  IsPure provider response =
      (extract_ccr_tool_calls from_str provider response ≡ [])
      ⊎ (own from_str provider (provider_tool_calls provider response) ≡ [])

  extract_of_own :
      (provider : CcrProvider) (calls : List Value)
      → own from_str provider calls ≡ calls
      → extract_from from_str provider calls ≡ []
  extract_of_own provider calls h =
      length-eq-zero _ (omega (arith, length-extract_from from_str provider calls, ap length h))

  strip_content_none :
      (response : Value) (content : List Value)
      → content_of response ≡ content
      → strip_content from_str anthropic content response ≡ none
      → IsPure anthropic response
  unfolding strip_content provider_tool_calls extract_ccr_tool_calls
  strip_content_none response content hc h =
      let own_calls = tool_use-stays anthropic content in
      elim (guard-eq_none _ _ _ h) [
        | inl removed ↦
            let all = retain_all (stays from_str anthropic) content removed in
            inl (rw hc (extract_of_own anthropic _ (sym own_calls ∙ ap (retain is_tool_use) all)))
        | inr remaining ↦ inr (rw hc (sym own_calls ∙ length-eq-zero _ remaining))
      ]

  strip_all_none :
      (response : Value) (choices : List Value)
      → choices_of response ≡ choices
      → strip_all from_str open_ai choices response ≡ none
      → IsPure open_ai response
  unfolding strip_all provider_tool_calls extract_ccr_tool_calls calls_of_choices extract_from
  strip_all_none response [] hc h = inl (rw hc refl)
  strip_all_none response (c ∷ cs) hc h =
      let (_, count, same, _) = strip_choices_lem from_str open_ai (c ∷ cs) in
      elim (guard-eq_none _ _ _ h) [
        | inl removed ↦ inl (rw hc (extract_of_own open_ai _ (same removed)))
        | inr remaining ↦ inr (rw hc (length-eq-zero _ (sym count ∙ remaining)))
      ]

  pub strip_ccr_tool_calls-IsPure :
      (provider : CcrProvider) (response : Value)
      → strip_ccr_tool_calls from_str provider response ≡ none
      → IsPure provider response
  unfolding strip_ccr_tool_calls extract_ccr_tool_calls extract_from provider_tool_calls
      calls_of_choices
  strip_ccr_tool_calls-IsPure anthropic response h =
      elim (Option-cases (and_then (get (lit "content") response) as_array)) [
        | inl e ↦ inl (rw e refl)
        | inr (content, e) ↦ strip_content_none response content (rw e refl) (rw e at h)
      ]
  strip_ccr_tool_calls-IsPure open_ai response h =
      elim (Option-cases (and_then (get (lit "choices") response) as_array)) [
        | inl e ↦ inl (rw e refl)
        | inr (choices, e) ↦ strip_all_none response choices (rw e refl) (rw e at h)
      ]

  -- What is stripped has none of the proxy's own calls.
  pub IsStripped-IsPure :
      (provider : CcrProvider) (response stripped : Value)
      → strip_ccr_tool_calls from_str provider response ≡ some stripped
      → IsPure provider stripped
  unfolding extract_ccr_tool_calls
  IsStripped-IsPure provider response stripped h =
      let own_calls = (strip_ccr_tool_calls-IsStripped provider response stripped h).0 in
      inl
        (rw own_calls (extract_from-own from_str provider (provider_tool_calls provider response)))
