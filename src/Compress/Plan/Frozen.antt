-- ===== src/Compress/Plan/Frozen.antt =====
-- The floor that `cache_control` sets.
use hr.Prelude.{
  ℕ, zero, suc, ◌+◌, ◌-◌, ◌<◌, ◌≡◌, refl, max, inl, inr, ◌⊎◌, Bool, true, false, List, [], ◌∷◌, any,
  take, drop, Bool-cases, lit, arith,
}
use hr.Json.{Value, get}
use hr.Compress.Plan.{
  anthropic_content_has_cache_control, frozen_from, anthropic_frozen_message_count,
}

-- The message has a block with `cache_control`.
abbrev pub is_marked : Value → Bool
is_marked message = anthropic_content_has_cache_control (get (lit "content") message)

frozen_from-range :
    (index : ℕ) (messages : List Value)
    → (frozen_from index messages ≡ 0) ⊎ (index < frozen_from index messages)
unfolding frozen_from
frozen_from-range index [] = inl refl
frozen_from-range index (m ∷ ms) = elim (Bool-cases (is_marked m)) [
  | inl e ↦ inr (rw e (omega arith))
  | inr e ↦
      rw e (elim (frozen_from-range (index + 1) ms) [ inl z ↦ inl z | inr p ↦ inr (omega arith) ])
]

any-drop-nil : (n : ℕ) → any is_marked (drop n []) ≡ false
any-drop-nil zero = refl
any-drop-nil (suc n) = refl

frozen_from-above :
    (index : ℕ) (messages : List Value)
    → any is_marked (drop (frozen_from index messages - index) messages) ≡ false
unfolding frozen_from
frozen_from-above index [] = any-drop-nil (0 - index)
frozen_from-above index (m ∷ ms) =
    let rest = frozen_from (index + 1) ms in
    let above = frozen_from-above (index + 1) ms in
    elim (Bool-cases (is_marked m)) [
      | inl e ↦
          let count : max (index + 1) rest - index ≡ suc (rest - (index + 1)) = omega arith in
          rw (e, count) above
      | inr e ↦ elim (frozen_from-range (index + 1) ms) [
        | inl z ↦
            let now : rest - index ≡ 0 = omega arith in
            let later : rest - (index + 1) ≡ 0 = omega arith in
            rw (e, now) (rw e (rw later at above))
        | inr p ↦
            let count : rest - index ≡ suc (rest - (index + 1)) = omega arith in rw (e, count) above
      ]
    ]

frozen_rest :
    (index k : ℕ) (m : Value) (ms : List Value)
    → index + 1 < frozen_from (index + 1) ms
    → frozen_from index (m ∷ ms) ≡ suc k
    → frozen_from (index + 1) ms ≡ suc k
unfolding frozen_from
frozen_rest index k m ms p h = elim (Bool-cases (is_marked m)) [
  | inl e ↦ let h' : max (index + 1) (frozen_from (index + 1) ms) ≡ suc k = rw e at h in omega arith
  | inr e ↦ rw e at h
]

frozen_from-at :
    (index k : ℕ) (messages : List Value)
    → frozen_from index messages ≡ suc k
    → any is_marked (take 1 (drop (k - index) messages)) ≡ true
unfolding frozen_from
frozen_from-at index k [] h = absurd (omega arith)
frozen_from-at index k (m ∷ ms) h =
    let rest = frozen_from (index + 1) ms in
    elim (frozen_from-range (index + 1) ms) [
      | inl z ↦ elim (Bool-cases (is_marked m)) [
        | inl e ↦
            let h' : max (index + 1) rest ≡ suc k = rw e at h in
            let here : k - index ≡ 0 = omega arith in rw (here, e) refl
        | inr e ↦ let h' : rest ≡ suc k = rw e at h in absurd (omega arith)
      ]
      | inr p ↦
          let same : rest ≡ suc k = frozen_rest index k m ms p h in
          let count : k - index ≡ suc (k - (index + 1)) = omega arith in
          rw count (frozen_from-at (index + 1) k ms same)
    ]

-- No message from the floor of `cache_control` on has a marked block, and where the floor is not 0,
-- the message in front of it has one: the floor is the least under which all marked blocks stand.
pub anthropic_frozen_message_count_lem :
    (messages : List Value)
    → (any is_marked (drop (anthropic_frozen_message_count messages) messages) ≡ false)
      × ((k : ℕ)
          → anthropic_frozen_message_count messages ≡ suc k
          → any is_marked (take 1 (drop k messages)) ≡ true)
unfolding anthropic_frozen_message_count
anthropic_frozen_message_count_lem messages =
    let all_of : frozen_from 0 messages - 0 ≡ frozen_from 0 messages = omega arith in
    (
      rw all_of at (frozen_from-above 0 messages),
      λ k h. let all_k : k - 0 ≡ k = omega arith in rw all_k at (frozen_from-at 0 k messages h),
    )
