-- ===== src/Compress/Plan/Latest.antt =====
-- That the scan of a chat finds the latest messages from the floor on.
use mathlib.Core.List.{reverse, reverse-cons, map-append}
use hr.Prelude.{
  ℕ, zero, suc, ◌+◌, ◌-◌, ◌≤◌, ◌<◌, ◌≡◌, refl, sym, ap, ◌∙◌, inl, inr, Bool, true, ◌&&◌, Option,
  none, some, List, [], ◌∷◌, ◌++◌, ltb, if◌then◌else◌, map, All, All-append, drop, Bool-cases, lit,
  arith, Text,
}
use hr.Json.{Value, get, as_array, and_then, or_else, unwrap_or}
use hr.Compress.Views.{View, Serde, MessageHeader}
use hr.Compress.Plan.{Segment, is_some, headroom_retrieve_tool_call_ids}
use hr.Compress.Plan.OpenAi.{
  enumerate, is_tool_message, is_user_message, keep_first, Latest, note_header, scan, plan_latest,
  plan_chat_viewed, plan_openai_chat,
}

-- The header, if it is wanted.
abbrev pub wanted_header : (MessageHeader → Bool) → Option MessageHeader → Option MessageHeader
wanted_header wanted none = none
wanted_header wanted (some header) = if wanted header then some header else none

-- The first message whose header is wanted.
abbrev pub first_header : Serde → (MessageHeader → Bool) → List View → Option MessageHeader
first_header Q wanted [] = none
first_header Q wanted (v ∷ vs) =
    or_else (wanted_header wanted (Q.message_header v)) (first_header Q wanted vs)

-- The views in front of the first number below the floor.
until : ℕ → List (ℕ × View) → List View
until floor [] = []
until floor ((index, v) ∷ rest) =
    let later = until floor rest in if ltb index floor then [] else v ∷ later

abbrev snd : ℕ × View → View
snd pair = pair.1

until-low :
    (floor index : ℕ) (v : View) (pairs : List (ℕ × View))
    → index < floor
    → until floor (pairs ++ (index, v) ∷ []) ≡ until floor pairs
unfolding until
until-low floor index v [] h = ground arith
until-low floor index v ((i, w) ∷ pairs) h = elim (Bool-cases (ltb i floor)) [
  | inl e ↦ rw e refl
  | inr e ↦ rw e (ap (◌∷◌ w) (until-low floor index v pairs h))
]

abbrev IsAbove : ℕ → ℕ × View → Type 0
IsAbove floor pair = floor ≤ pair.0

until-high :
    (floor : ℕ) (pairs : List (ℕ × View))
    → All (IsAbove floor) pairs
    → until floor pairs ≡ map snd pairs
unfolding until
until-high floor [] h = refl
until-high floor ((i, w) ∷ pairs) h = elim (Bool-cases (ltb i floor)) [
  | inl e ↦ absurd (ground arith)
  | inr e ↦ rw e (ap (◌∷◌ w) (until-high floor pairs h.1))
]

IsAbove-enumerate :
    (floor index : ℕ) (vs : List View)
    → floor ≤ index
    → All (IsAbove floor) (reverse (enumerate index vs))
unfolding enumerate
IsAbove-enumerate floor index [] h = tt
IsAbove-enumerate floor index (v ∷ vs) h = rw (reverse-cons (index, v) (enumerate (index + 1) vs)) (
    All-append (IsAbove floor) (reverse (enumerate (index + 1) vs)) ((index, v) ∷ [])
      (IsAbove-enumerate floor (index + 1) vs (omega arith)) (h, tt))

views-enumerate : (index : ℕ) (vs : List View) → map snd (reverse (enumerate index vs)) ≡ reverse vs
unfolding enumerate
views-enumerate index [] = refl
views-enumerate index (v ∷ vs) =
    rw
      (
        reverse-cons (index, v) (enumerate (index + 1) vs),
        reverse-cons v vs,
        map-append snd (reverse (enumerate (index + 1) vs)) ((index, v) ∷ []),
        views-enumerate (index + 1) vs,
      )
      refl

drop-nil : (n : ℕ) → drop {A = View} n [] ≡ []
drop-nil zero = refl
drop-nil (suc n) = refl

or_else-none : (o : Option MessageHeader) → or_else o none ≡ o
or_else-none none = refl
or_else-none (some h) = refl

or_else-some : (o later : Option MessageHeader) → is_some o ≡ true → or_else o later ≡ o
or_else-some none later h = cc
or_else-some (some x) later h = refl

and-eq_true : (a b : Bool) → (a && b) ≡ true → (a ≡ true) × (b ≡ true)
and-eq_true a b h = ground arith

-- Backwards from the last message to the floor.
until-enumerate :
    (floor index : ℕ) (vs : List View)
    → until floor (reverse (enumerate index vs)) ≡ reverse (drop (floor - index) vs)
unfolding enumerate until
until-enumerate floor index [] = ap reverse (sym (drop-nil (floor - index)))
until-enumerate floor index (v ∷ vs) = elim (Bool-cases (ltb index floor)) [
  | inl e ↦
      let below : floor - index ≡ suc (floor - (index + 1)) = ground arith in
      rw (reverse-cons (index, v) (enumerate (index + 1) vs), below)
        (until-low floor index v (reverse (enumerate (index + 1) vs)) (ground arith)
          ∙ until-enumerate floor (index + 1) vs)
  | inr e ↦
      let above : floor - index ≡ 0 = ground arith in
      rw above (
        until-high floor (reverse (enumerate index (v ∷ vs)))
          (IsAbove-enumerate floor index (v ∷ vs) (ground arith))
        ∙ views-enumerate index (v ∷ vs))
]

-- A latest message that is found is kept, and otherwise the first of the rest is taken.
or_else-keep :
    (wanted : MessageHeader → Bool) (header : MessageHeader) (latest later : Option MessageHeader)
    → or_else (keep_first (wanted header) header latest) later
      ≡ or_else latest (or_else (wanted_header wanted (some header)) later)
or_else-keep wanted header (some l) later = refl
or_else-keep wanted header none later = refl

module _ (Q : Serde) (ids : List Text) where
  abbrev pub found : Latest → List View → Latest
  found latest vs = record {
    tool = or_else latest.tool (first_header Q (is_tool_message ids) vs);
    user = or_else latest.user (first_header Q is_user_message vs);
  }

  note_header-found :
      (o : Option MessageHeader) (latest : Latest) (v : View) (vs : List View)
      → Q.message_header v ≡ o
      → found (note_header ids o latest) vs ≡ found latest (v ∷ vs)
  unfolding note_header
  note_header-found none latest v vs h = rw h refl
  note_header-found (some header) latest v vs h =
      rw
        (
          h,
          or_else-keep (is_tool_message ids) header latest.tool
              (first_header Q (is_tool_message ids) vs),
          or_else-keep is_user_message header latest.user (first_header Q is_user_message vs),
        )
        refl

  found-nil : (latest : Latest) → found latest [] ≡ latest
  found-nil latest = rw (or_else-none latest.tool, or_else-none latest.user) refl

  found-both :
      (latest : Latest) (vs : List View)
      → (is_some latest.tool && is_some latest.user) ≡ true
      → found latest vs ≡ latest
  found-both latest vs h =
      let (tool, user) = and-eq_true (is_some latest.tool) (is_some latest.user) h in
      rw
        (
          or_else-some latest.tool (first_header Q (is_tool_message ids) vs) tool,
          or_else-some latest.user (first_header Q is_user_message vs) user,
        )
        refl

  scan-found :
      (floor : ℕ) (pairs : List (ℕ × View)) (latest : Latest)
      → scan Q ids floor pairs latest ≡ found latest (until floor pairs)
  unfolding scan until
  scan-found floor [] latest = sym (found-nil latest)
  scan-found floor ((index, v) ∷ rest) latest =
      let noted = note_header ids (Q.message_header v) latest in
      elim (Bool-cases (ltb index floor)) [
        | inl e ↦ rw e (sym (found-nil latest))
        | inr e ↦ rw e (elim (Bool-cases (is_some noted.tool && is_some noted.user)) [
          | inl f ↦ rw f (
              sym (found-both noted (until floor rest) f)
              ∙ note_header-found (Q.message_header v) latest v (until floor rest) refl)
          | inr f ↦ rw f (
              scan-found floor rest noted
              ∙ note_header-found (Q.message_header v) latest v (until floor rest) refl)
        ])
      ]

-- Of a chat with messages, the plan is that of two of them: the latest result of a tool that answers no
-- retrieval, and the latest message of a user, each among the messages from the floor on.
pub plan_openai_chat-Latest :
    (Q : Serde) (body : Segment) (parsed : Value) (compress_user_text : Bool) (floor : ℕ)
    (messages : List View)
    → Q.messages_view body.view ≡ some (some messages)
    → plan_openai_chat Q body parsed compress_user_text floor
      ≡ plan_latest Q body compress_user_text (record {
        tool =
            first_header Q
              (is_tool_message (
                headroom_retrieve_tool_call_ids
                  (unwrap_or [] (and_then (get (lit "messages") parsed) as_array))))
              (reverse (drop floor messages));
        user = first_header Q is_user_message (reverse (drop floor messages));
      })
unfolding plan_openai_chat plan_chat_viewed
plan_openai_chat-Latest Q body parsed compress_user_text floor messages h =
    let ids =
      headroom_retrieve_tool_call_ids
        (unwrap_or [] (and_then (get (lit "messages") parsed) as_array)) in
    let all_of : floor - 0 ≡ floor = omega arith in
    let views = rw all_of at (until-enumerate floor 0 messages) in
    let nothing : Latest = record { tool = none; user = none } in
    rw h (
      ap (plan_latest Q body compress_user_text) (
        scan-found Q ids floor (reverse (enumerate 0 messages)) nothing
        ∙ ap (found Q ids nothing) views))
