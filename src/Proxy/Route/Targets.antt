-- ===== src/Proxy/Route/Targets.antt =====
-- Which requests are compressed, and that streams are read as what was requested.
use mathlib.Core.Path.{subst}
use hr.Prelude.{
  ◌≡◌, ◌⊎◌, inl, inr, refl, sym, ◌∙◌, Bool, true, false, ◌||◌, Option, none, some, if◌then◌else◌,
  Bool-cases, eq_text, eq_text_iff, lit, Text,
}
use hr.Prelude.Strings.{starts_with}
use hr.Sse.Stream.{SseKind, openai_chat, openai_responses, anthropic}
use hr.Proxy.Route.{
  UpstreamProvider, open_ai_upstream, anthropic_upstream, CompressionTarget,
  chat_completions_target, responses_target, messages_target, message_batches_target,
  is_at_or_below, is_retrieve_endpoint, is_health_endpoint, is_responses_path, provider_of,
  target_of, skipped_reason_for_path, classify_request, is_event_stream, stream_kind_of,
  sse_stream_kind,
}

some_reason :
    {A : Type 0} (b : Bool) (a : A) (o : Option A)
    → (c : A) × (o ≡ some c)
    → (c : A) × ((if b then some a else o) ≡ some c)
some_reason true a o later = (a, refl)
some_reason false a o later = later

skipped_reason_for_path-some :
    (path : Text) → (reason : Text) × (skipped_reason_for_path path none ≡ some reason)
unfolding skipped_reason_for_path
skipped_reason_for_path-some path =
    some_reason (is_retrieve_endpoint path) (lit "reserved_proxy_endpoint") _ (
      some_reason (is_health_endpoint path) (lit "reserved_proxy_endpoint") _ (
        some_reason (is_at_or_below "/v1/conversations" "/v1/conversations/" path)
          (lit "conversations_passthrough") _ (lit "non_target_path", refl)))

abbrev IsExclusive : Option CompressionTarget → Option Text → Type 0
IsExclusive target reason =
    ((t : CompressionTarget) × (target ≡ some t) × (reason ≡ none))
    ⊎ ((r : Text) × (target ≡ none) × (reason ≡ some r))

reason-IsExclusive :
    (path : Text) (target : Option CompressionTarget)
    → IsExclusive target (skipped_reason_for_path path target)
unfolding skipped_reason_for_path
reason-IsExclusive path (some target) = inl (target, refl, refl)
reason-IsExclusive path none =
    let (reason, e) = skipped_reason_for_path-some path in inr (reason, refl, e)

-- A request has a target or a reason to be skipped, never both.
pub classify_request-exclusive :
    (method path : Text)
    → ((target : CompressionTarget) × ((classify_request method path).target ≡ some target)
        × ((classify_request method path).skipped_reason ≡ none))
      ⊎ ((reason : Text) × ((classify_request method path).target ≡ none)
          × ((classify_request method path).skipped_reason ≡ some reason))
unfolding classify_request
classify_request-exclusive method path = elim (Bool-cases (eq_text method (lit "POST"))) [
  | inl post ↦ rw post (reason-IsExclusive path (target_of path))
  | inr other ↦ rw other (inr (_, refl, refl))
]

-- The provider, and the kind of stream, of a target.
abbrev pub provider_for : CompressionTarget → UpstreamProvider
provider_for chat_completions_target = open_ai_upstream
provider_for responses_target = open_ai_upstream
provider_for messages_target = anthropic_upstream
provider_for message_batches_target = anthropic_upstream

abbrev pub kind_for : CompressionTarget → SseKind
kind_for chat_completions_target = openai_chat
kind_for responses_target = openai_responses
kind_for messages_target = anthropic
kind_for message_batches_target = anthropic

abbrev Agrees : Text → CompressionTarget → Type 0
Agrees path target =
    (provider_of path ≡ provider_for target) × (stream_kind_of path ≡ some (kind_for target))

or_cases : (a b : Bool) → (a || b) ≡ true → (a ≡ true) ⊎ (b ≡ true)
or_cases true b h = inl refl
or_cases false b h = inr h

Agrees-eq_text :
    (path literal : Text) (target : CompressionTarget)
    → Agrees literal target
    → eq_text path literal ≡ true
    → Agrees path target
Agrees-eq_text path literal target a e =
    subst (λ p. Agrees p target) (sym ((eq_text_iff path literal).0 e)) a

responses-Agrees : (path : Text) → is_responses_path path ≡ true → Agrees path responses_target
unfolding provider_of stream_kind_of eq_text lit starts_with
responses-Agrees path h =
    let at = λ (l : Text) (a : Agrees l responses_target) (e : eq_text path l ≡ true).
      Agrees-eq_text path l responses_target a e in
    elim (or_cases _ _ h) [
      | inl e ↦ at (lit "/v1/responses") (refl, refl) e
      | inr h2 ↦ elim (or_cases _ _ h2) [
        | inl e ↦ at (lit "/v1/codex/responses") (refl, refl) e
        | inr h3 ↦ elim (or_cases _ _ h3) [
          | inl e ↦ at (lit "/backend-api/responses") (refl, refl) e
          | inr h4 ↦ elim (or_cases _ _ h4) [
            | inl e ↦ at (lit "/backend-api/codex/responses") (refl, refl) e
            | inr wrong ↦ absurd (cc)
          ]
        ]
      ]
    ]

chat-Agrees : Agrees (lit "/v1/chat/completions") chat_completions_target
unfolding provider_of stream_kind_of eq_text lit starts_with
chat-Agrees = (refl, refl)

batches-Agrees : Agrees (lit "/v1/messages/batches") message_batches_target
unfolding provider_of stream_kind_of eq_text lit starts_with
batches-Agrees = (refl, refl)

messages-Agrees : Agrees (lit "/v1/messages") messages_target
unfolding provider_of stream_kind_of eq_text lit starts_with
messages-Agrees = (refl, refl)

target_of-Agrees :
    (path : Text) (target : CompressionTarget) → target_of path ≡ some target → Agrees path target
unfolding target_of
target_of-Agrees path target h = elim (Bool-cases (eq_text path (lit "/v1/chat/completions"))) [
  | inl a ↦
      subst (Agrees path) (let e : chat_completions_target ≡ target = cc (rw a at h) in e)
        (Agrees-eq_text path _ chat_completions_target chat-Agrees a)
  | inr b ↦ elim (Bool-cases (is_responses_path path)) [
    | inl c ↦
        subst (Agrees path) (let e : responses_target ≡ target = cc (rw (b, c) at h) in e)
          (responses-Agrees path c)
    | inr d ↦ elim (Bool-cases (eq_text path (lit "/v1/messages/batches"))) [
      | inl f ↦
          subst (Agrees path)
            (let e : message_batches_target ≡ target = cc (rw (b, d, f) at h) in e)
            (Agrees-eq_text path _ message_batches_target batches-Agrees f)
      | inr g ↦ elim (Bool-cases (eq_text path (lit "/v1/messages"))) [
        | inl i ↦
            subst (Agrees path) (let e : messages_target ≡ target = cc (rw (b, d, g, i) at h) in e)
              (Agrees-eq_text path _ messages_target messages-Agrees i)
        | inr j ↦ absurd (cc (rw (b, d, g, j) at h))
      ]
    ]
  ]
]

class-target :
    (method path : Text) (target : CompressionTarget)
    → (classify_request method path).target ≡ some target
    → (method ≡ lit "POST") × (target_of path ≡ some target)
unfolding classify_request
class-target method path target h = elim (Bool-cases (eq_text method (lit "POST"))) [
  | inl post ↦ ((eq_text_iff method (lit "POST")).0 post, rw post at h)
  | inr other ↦ absurd (cc (rw other at h))
]

class-provider : (method path : Text) → (classify_request method path).provider ≡ provider_of path
unfolding classify_request
class-provider method path = elim (Bool-cases (eq_text method (lit "POST"))) [
  | inl post ↦ rw post refl
  | inr other ↦ rw other refl
]

-- A request with a target is a POST; it goes to the provider of its target; and if the answer is an
-- event stream, it is read as a stream of the target's kind.
pub classify_request-Agrees :
    (method path : Text) (target : CompressionTarget) (content_type : Option Text)
    → (classify_request method path).target ≡ some target
    → is_event_stream content_type ≡ true
    → (method ≡ lit "POST")
      × ((classify_request method path).provider ≡ provider_for target)
      × (sse_stream_kind content_type path ≡ some (kind_for target))
unfolding sse_stream_kind
classify_request-Agrees method path target content_type h s =
    let (post, t) = class-target method path target h in
    let (provider, kind) = target_of-Agrees path target t in
    (post, class-provider method path ∙ provider, rw s kind)
