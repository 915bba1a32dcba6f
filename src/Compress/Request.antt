-- ===== src/Compress/Request.antt =====
-- src/compression.rs: `compress_json_request_ctx`, which runs the plans over a request one behind the
-- other. A panic of the byte surgery is `none`. `address_of` is the address of a buffer, which
-- the views of its text have.
pub mod Accounted
pub mod Quiet
pub mod Samples
mod Tests
use hr.Prelude.{
  ℕ, ◌+◌, ltb, Bool, true, false, not, ◌&&◌, ◌||◌, Option, none, some, List, [], ◌∷◌, ◌++◌, ◌==◌,
  if◌then◌else◌, length, from_utf8, lit, Text, Bytes,
}
use hr.Json.{Value, get, as_u64, as_array, and_then, unwrap_or, is_some_and}
use hr.Stats.{Stats}
use hr.Tokens.{estimate_tokens_bytes}
use hr.Splice.{Replacement, apply_replacements}
use hr.Proxy.Headers.{RequestAuthMode, payg, o_auth, subscription}
use hr.Ccr.{CcrStore}
use hr.Compress.{Compressed, compress_slots, PlanSlot}
use hr.Compress.Views.{View, Serde, offset_of}
use hr.Compress.Plan.{Segment, value_contains_ccr_marker}
use hr.Compress.Plan.Anthropic.{plan_anthropic_segment, plan_anthropic_batches}
use hr.Compress.Plan.OpenAi.{plan_openai_chat, plan_openai_responses}
use hr.Compress.Tools.Normalize.{ToolShape, open_ai, anthropic, plan_tools_normalization}
use hr.Compress.Tools.Append.{
  ApiShape, open_ai_chat_completions, open_ai_responses, anthropic_messages,
  anthropic_message_batches, plan_retrieve_tool_injection, plan_batch_retrieve_tool_injection, nth,
}
use hr.Compress.CacheKey.{plan_prompt_cache_key_injection}

pub record CompressContext : Type 0 where
  pub auth_mode : RequestAuthMode
  pub frozen_message_count : ℕ
  pub compress_user_text : Bool
  pub provider_metadata : Bool

pub record RequestCompression : Type 0 where
  pub body : Bytes
  pub compressed : Bool
  pub skipped_reason : Option Text
  pub hashes : List Text
  pub bytes_before : ℕ
  pub bytes_after : ℕ
  pub tokens_before : ℕ
  pub tokens_after : ℕ

-- The body as it came, with the reason.
unfoldable pub passthrough : Bytes → List Text → Text → RequestCompression
passthrough body hashes reason = record {
  body = body;
  compressed = false;
  skipped_reason = some reason;
  hashes = hashes;
  bytes_before = length body;
  bytes_after = length body;
  tokens_before = estimate_tokens_bytes body;
  tokens_after = estimate_tokens_bytes body;
}

abbrev pub is_payg : RequestAuthMode → Bool
is_payg payg = true
is_payg _ = false

abbrev pub is_nil {ℓ} : {A : Type ℓ} → List A → Bool
is_nil [] = true
is_nil (_ ∷ _) = false

abbrev pub is_chat : ApiShape → Bool
is_chat open_ai_chat_completions = true
is_chat _ = false

abbrev pub is_batches : ApiShape → Bool
is_batches anthropic_message_batches = true
is_batches _ = false

abbrev pub is_open_ai_shape : ApiShape → Bool
is_open_ai_shape open_ai_chat_completions = true
is_open_ai_shape open_ai_responses = true
is_open_ai_shape _ = false

-- What the program calls that is not part of it.
pub record Library : Type 0 where
  pub serde : Serde
  pub from_slice : Bytes → Option Value
  pub to_vec : Value → Bytes
  pub json_string : Text → Bytes
  pub sha256 : Bytes → Bytes
  pub md5 : Bytes → Bytes
  pub address_of : Bytes → ℕ

-- A body with splices applied, where there are any.
unfoldable pub spliced : Bytes → List Replacement → Option Bytes
spliced body [] = some body
spliced body (r ∷ rs) = apply_replacements body (r ∷ rs)

module _ (lib : Library) where
  abbrev pub view_of : Bytes → View
  view_of bytes = record { at = lib.address_of bytes; bytes = bytes }

  unfoldable pub normalize_params : View → Option Value → Option View → List Replacement
  unfolding plan_tools_normalization offset_of
  normalize_params body (some value) (some params) = elim (offset_of body params) [
    | none ↦ []
    | some offset ↦
        plan_tools_normalization lib.serde lib.md5 lib.to_vec params offset value anthropic
  ]
  normalize_params body _ _ = []

  -- The loop over the requests of a batch, from number `index` on.
  unfoldable pub normalize_requests : View → List Value → ℕ → List View → List Replacement
  unfolding normalize_params nth
  normalize_requests body parsed_requests index [] = []
  normalize_requests body parsed_requests index (request ∷ requests) =
      normalize_params body (and_then (nth parsed_requests index) (get (lit "params")))
        (and_then (lib.serde.batch_request_view request) (λ p. p))
      ++ normalize_requests body parsed_requests (index + 1) requests

  unfoldable pub plan_provider_metadata_splices : View → Value → ApiShape → List Replacement
  unfolding normalize_requests
  plan_provider_metadata_splices body parsed anthropic_messages =
      plan_tools_normalization lib.serde lib.md5 lib.to_vec body 0 parsed anthropic
  plan_provider_metadata_splices body parsed anthropic_message_batches =
      normalize_requests body (unwrap_or [] (and_then (get (lit "requests") parsed) as_array)) 0
        (unwrap_or [] (and_then (lib.serde.batch_view body) (λ v. v)))
  plan_provider_metadata_splices body parsed _ =
      plan_tools_normalization lib.serde lib.md5 lib.to_vec body 0 parsed open_ai

  unfoldable pub metadata_splices : CompressContext → Bytes → Value → ApiShape → List Replacement
  unfolding plan_provider_metadata_splices
  metadata_splices ctx body parsed shape =
      if ctx.provider_metadata && is_payg ctx.auth_mode
      then plan_provider_metadata_splices (view_of body) parsed shape
      else []

  -- The plan of a shape over the current bytes.
  unfoldable pub plan_slots :
      CompressContext → Bytes → Value → ApiShape → Option Text × List PlanSlot
  plan_slots ctx current working open_ai_chat_completions =
      plan_openai_chat lib.serde
        (record { view = view_of current; base = 0; batch_request_index = none }) working
        ctx.compress_user_text ctx.frozen_message_count
  plan_slots ctx current working open_ai_responses =
      plan_openai_responses lib.serde
        (record { view = view_of current; base = 0; batch_request_index = none }) working
        ctx.frozen_message_count
  plan_slots ctx current working anthropic_messages =
      plan_anthropic_segment lib.serde ctx.compress_user_text
        (record { view = view_of current; base = 0; batch_request_index = none })
        ctx.frozen_message_count
  plan_slots ctx current working anthropic_message_batches =
      plan_anthropic_batches lib.serde ctx.compress_user_text (view_of current)

  -- The value of a body that is UTF-8 and JSON.
  unfoldable pub parse : Bytes → Option Value
  parse body = and_then (from_utf8 body) (λ _. lib.from_slice body)

  -- The retrieval tool: where something was compressed, or a marker was there before.
  unfoldable pub retrieve_splices :
      ApiShape → Bool → Compressed → Bytes → Option Value → List Replacement
  retrieve_splices shape marker_was_present c body none = []
  retrieve_splices shape marker_was_present c body (some value) =
      if is_batches shape
      then plan_batch_retrieve_tool_injection lib.serde lib.to_vec (view_of body) value
          c.batch_requests
      else if not (is_nil c.replacements) || marker_was_present
      then plan_retrieve_tool_injection lib.serde lib.to_vec (view_of body) value shape
      else []

  -- The key of the cache, of a body behind the injection of the tool.
  unfoldable pub key_splices : CompressContext → ApiShape → Bytes → Option Value → List Replacement
  key_splices ctx shape body none = []
  key_splices ctx shape body (some value) =
      if ctx.provider_metadata && is_payg ctx.auth_mode && is_open_ai_shape shape
      then plan_prompt_cache_key_injection lib.sha256 lib.to_vec lib.serde (view_of body) value
          shape
      else []

  -- What is answered: the body as it came, unless something changed it.
  unfoldable pub outcome :
      Bytes
      → Option Text
      → Bool
      → Compressed
      → List Replacement
      → List Replacement
      → Bytes
      → RequestCompression
  unfolding passthrough
  outcome body reason metadata_mutated c retrieve key final_body =
      if is_nil c.replacements && (not metadata_mutated && (is_nil retrieve && is_nil key))
      then passthrough body c.hashes (unwrap_or (lit "no_live_zone_text") reason)
      else record {
        body = final_body;
        compressed = not (is_nil c.replacements);
        skipped_reason =
            if is_nil c.replacements then some (lit "metadata_injected_only") else none;
        hashes = c.hashes;
        bytes_before = length body;
        bytes_after = length final_body;
        tokens_before = estimate_tokens_bytes body;
        tokens_after = estimate_tokens_bytes final_body;
      }

  -- Behind the loop over the slots.
  unfoldable pub after_slots :
      CompressContext
      → ApiShape
      → Bytes
      → Bytes
      → Bool
      → Bool
      → Option Text
      → Compressed
      → Option RequestCompression
  unfolding spliced parse retrieve_splices key_splices outcome
  after_slots ctx shape body current metadata_mutated marker_was_present reason c =
      and_then (spliced current c.replacements) λ compressed.
        let retrieve = retrieve_splices shape marker_was_present c compressed (parse compressed) in
        and_then (spliced compressed retrieve) λ injected.
          let key = key_splices ctx shape injected (parse injected) in
          and_then (spliced injected key)
            λ final_body. some (outcome body reason metadata_mutated c retrieve key final_body)

  module _ (S : CcrStore) where
    -- Behind the metadata, on the bytes that are current.
    unfoldable pub compress_current :
        CompressContext
        → ApiShape
        → Bytes
        → Bytes
        → Bool
        → Bool
        → Value
        → S.State
        → Stats
        → Option RequestCompression × S.State × Stats
    unfolding plan_slots after_slots
    compress_current ctx shape body current metadata_mutated marker_was_present working s stats =
        let (reason, slots) = plan_slots ctx current working shape in
        let (c, s', stats') =
          compress_slots lib.sha256 S lib.json_string slots
            (record { replacements = []; hashes = []; batch_requests = [] }) s stats in
        (
          after_slots ctx shape body current metadata_mutated marker_was_present reason c,
          s',
          stats',
        )

    unfoldable pub compress_working :
        CompressContext
        → ApiShape
        → Bytes
        → Bytes
        → Bool
        → Bool
        → Option Value
        → S.State
        → Stats
        → Option RequestCompression × S.State × Stats
    unfolding compress_current
    compress_working ctx shape body current metadata_mutated marker none s stats =
        (some (passthrough body [] (lit "invalid_json")), s, stats)
    compress_working ctx shape body current metadata_mutated marker (some working) s stats =
        compress_current ctx shape body current metadata_mutated marker working s stats

    -- Behind the metadata splices: a panic, or the bytes they leave.
    unfoldable pub compress_spliced :
        CompressContext
        → ApiShape
        → Bytes
        → Value
        → List Replacement
        → Option Bytes
        → S.State
        → Stats
        → Option RequestCompression × S.State × Stats
    unfolding compress_working
    compress_spliced ctx shape body parsed splices none s stats = (none, s, stats)
    compress_spliced ctx shape body parsed splices (some current) s stats =
        let mutated = not (is_nil splices) in
        compress_working ctx shape body current mutated (value_contains_ccr_marker parsed)
          (if mutated then parse current else some parsed) s stats

    unfoldable pub compress_parsed :
        CompressContext
        → ApiShape
        → Bytes
        → Value
        → S.State
        → Stats
        → Option RequestCompression × S.State × Stats
    unfolding compress_spliced metadata_splices
    compress_parsed ctx shape body parsed s stats =
        let splices = metadata_splices ctx body parsed shape in
        if is_chat shape && is_some_and (λ n. ltb 1 n) (and_then (get (lit "n") parsed) as_u64)
        then (some (passthrough body [] (lit "multi_choice_n")), s, stats)
        else compress_spliced ctx shape body parsed splices (spliced body splices) s stats

    unfoldable pub compress_json_request_ctx :
        CompressContext
        → ApiShape
        → Bytes
        → S.State
        → Stats
        → Option RequestCompression × S.State × Stats
    unfolding compress_parsed
    compress_json_request_ctx ctx shape body s stats = elim (parse body) [
      | none ↦ (some (passthrough body [] (lit "invalid_json")), s, stats)
      | some parsed ↦ compress_parsed ctx shape body parsed s stats
    ]
