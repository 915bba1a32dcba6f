-- ===== src/Compress/Plan/Tests.antt =====
-- A reader of JSON that takes the one value between a text's first and last byte for its only element,
-- and the request `[["a"]]`.
use mathlib.Core.List.{reverse}
use mathlib.Core.Path.{subst}
use hr.Prelude.{
  ◌+◌, ◌-◌, ◌≡◌, ◌≢◌, ◌∙◌, refl, max, inl, inr, true, false, none, some, List, [], ◌∷◌, All, leb,
  if◌then◌else◌, Bool-cases, drop, take, length, length-take, length-drop, arith, lit,
}
use hr.Json.{Value, null, object, no_fields, field_then, get, as_array, and_then, unwrap_or}
use hr.Stats.{default}
use hr.Splice.{apply_replacements}
use hr.Ccr.Samples.{store}
use hr.Ccr.Digest.{digest}
use hr.Proxy.Continuation.Samples.{stored}
use hr.Compress.{compress_slots}
use hr.Compress.Views.{View, Serde, SerdeLaws, MessageHeader, BlockHeader, Inside, InOrder, end_of}
use hr.Compress.Plan.{headroom_retrieve_tool_call_ids}
use hr.Compress.Plan.Anthropic.{
  cache_control_floor, plan_anthropic_segment, plan_anthropic_batches, message_slots,
}
use hr.Compress.Plan.OpenAi.{is_tool_message, is_user_message, plan_latest, plan_openai_chat}
use hr.Compress.Plan.Surgery.{nothing_compressed, whole, anthropic-surgery}
use hr.Compress.Plan.Eligible.{IsEligibleIn, slots_of, plan_anthropic_segment-IsEligible}
use hr.Compress.Plan.Latest.{first_header, plan_openai_chat-Latest}

abbrev inner : View → List View
inner v =
    if leb 2 (length v.bytes)
    then record { at = v.at + 1; bytes = take (length v.bytes - 2) (drop 1 v.bytes) } ∷ []
    else []

inner-InOrder : (v : View) → InOrder v.at (end_of v) (inner v)
inner-InOrder v = elim (Bool-cases (leb 2 (length v.bytes))) [
  | inl e ↦
      let len : length (take (length v.bytes - 2) (drop 1 v.bytes)) ≡ length v.bytes - 2 =
        omega (arith, length-take (length v.bytes - 2) (drop 1 v.bytes), length-drop 1 v.bytes) in
      rw e (omega arith, ground arith)
  | inr e ↦ rw e (omega arith)
]

abbrev header_of : View → MessageHeader
header_of v = record {
  role = some (lit "user");
  content = some v;
  name = none;
  tool_call_id = none;
}

abbrev block_of : View → BlockHeader
block_of v = record {
  kind = some (lit "tool_result");
  content = some v;
  text = none;
  cache_control = none;
}

abbrev reader : Serde
reader = record {
  messages_view = λ v. some (some (inner v));
  message_header = λ v. some (header_of v);
  block_header = λ v. some (block_of v);
  batch_view = λ v. some (some (inner v));
  batch_request_view = λ v. some (some v);
  responses_view = λ v. some (record { input = some v; messages = none });
  responses_item = λ v. none;
  tools_view = λ v. some none;
  tool_schema_view = λ v. none;
  prompt_cache_key_view = λ v. some none;
  raw_values = λ v. some (inner v);
  string_of = λ v. some v.bytes;
  value_of = λ v. some null;
}

self-Inside : (v c : View) → some v ≡ some c → Inside v.at (end_of v) c
self-Inside v c h = subst (Inside v.at (end_of v)) {x = v} {y = c} (cc) (omega arith)

content_of :
    (v : View) (header : MessageHeader) → some (header_of v) ≡ some header → some v ≡ header.content
content_of v header h =
    subst (λ (k : MessageHeader). some v ≡ k.content) {x = header_of v} {y = header} (cc) refl

block_content_of :
    (v : View) (block : BlockHeader) → some (block_of v) ≡ some block → some v ≡ block.content
block_content_of v block h =
    subst (λ (k : BlockHeader). some v ≡ k.content) {x = block_of v} {y = block} (cc) refl

block_text_of :
    (v : View) (block : BlockHeader) → some (block_of v) ≡ some block → none ≡ block.text
block_text_of v block h =
    subst (λ (k : BlockHeader). none ≡ k.text) {x = block_of v} {y = block} (cc) refl

reader-SerdeLaws : SerdeLaws reader
reader-SerdeLaws = record {
  messages_inside =
      λ v vs h. subst (InOrder v.at (end_of v)) {x = inner v} {y = vs} (cc) (inner-InOrder v);
  raw_values_inside =
      λ v vs h. subst (InOrder v.at (end_of v)) {x = inner v} {y = vs} (cc) (inner-InOrder v);
  message_content_inside = λ v c header h e. self-Inside v c (content_of v header h ∙ e);
  batch_inside =
      λ v vs h. subst (InOrder v.at (end_of v)) {x = inner v} {y = vs} (cc) (inner-InOrder v);
  params_inside = λ v c h. self-Inside v c (cc);
  block_content_inside = λ v c block h e. self-Inside v c (block_content_of v block h ∙ e);
  block_text_inside = λ v c block h e. absurd (cc (block_text_of v block h ∙ e));
}

abbrev body : View
body = record { at = 100; bytes = lit "[[\"a\"]]" }

abbrev messages : List View
messages = record { at = 101; bytes = lit "[\"a\"]" } ∷ []

viewed : reader.messages_view body ≡ some (some messages)
unfolding lit
viewed = refl

anthropic-surgery_example :
    (apply_replacements body.bytes
        (compress_slots digest store
          (λ t. t)
          (plan_anthropic_segment reader true (whole body) 0).1
          nothing_compressed
          stored
          default).0.replacements
      ≢ none)
    × (apply_replacements body.bytes
          (compress_slots digest store
            (λ t. t)
            (plan_anthropic_batches reader true body).1
            nothing_compressed
            stored
            default).0.replacements
        ≢ none)
anthropic-surgery_example =
    anthropic-surgery reader reader-SerdeLaws true digest store (λ t. t) body 0 stored default

plan_anthropic_segment-IsEligible_example :
    ((plan_anthropic_segment reader false (whole body) 0).1
      ≡ slots_of reader false (whole body) (drop (max 0 (cache_control_floor null)) messages))
    × ((message : View)
        → All (IsEligibleIn reader false message) (message_slots reader false (whole body) message))
plan_anthropic_segment-IsEligible_example =
    plan_anthropic_segment-IsEligible reader false (whole body) 0 messages null viewed refl

plan_openai_chat-Latest_example :
    plan_openai_chat reader (whole body) null true 0
    ≡ plan_latest reader (whole body) true (record {
      tool =
          first_header reader
            (is_tool_message (
              headroom_retrieve_tool_call_ids
                (unwrap_or [] (and_then (get (lit "messages") null) as_array))))
            (reverse (drop 0 messages));
      user = first_header reader is_user_message (reverse (drop 0 messages));
    })
plan_openai_chat-Latest_example =
    plan_openai_chat-Latest reader (whole body) null true 0 messages viewed

-- The second of three messages is marked.
abbrev marked : Value
marked = object (
    field_then (lit "content") (object (field_then (lit "cache_control") null no_fields)) no_fields)

abbrev three : List Value
three = null ∷ marked ∷ null ∷ []

abbrev message : View
message = record { at = 101; bytes = lit "[\"a\"]" }

abbrev token : View
token = record { at = 102; bytes = lit "\"a\"" }
