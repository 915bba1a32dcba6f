-- ===== src/Compress/Request/Quiet.antt =====
-- When a request is left alone, byte for byte.
use hr.Prelude.{
  ◌≡◌, refl, inl, inr, Bool, true, false, not, ◌&&◌, Option, none, some, List, [], ◌∷◌, ◌++◌,
  Bool-cases, Option-cases, lit, Text, Bytes, ltb, arith,
}
use mathlib.Core.Path.{subst}
use hr.Json.{Value, get, as_u64, and_then, unwrap_or, is_some_and}
use hr.Stats.{Stats}
use hr.Splice.{Replacement}
use hr.Compress.Request.Accounted.{after_slots-each}
use hr.Ccr.{CcrStore}
use hr.Compress.Views.{View}
use hr.Compress.{PlanSlot, Compressed, collect, compress_slot, compress_slots}
use hr.Compress.Plan.{value_contains_ccr_marker}
use hr.Compress.Tools.Append.{
  ApiShape, open_ai_chat_completions, open_ai_responses, anthropic_messages,
  anthropic_message_batches, inject_requests, plan_batch_retrieve_tool_injection,
}
use hr.Compress.Request.{
  CompressContext, RequestCompression, Library, is_payg, is_nil, is_chat, passthrough, spliced,
  metadata_splices, plan_slots, parse, retrieve_splices, key_splices, outcome, after_slots,
  compress_current, compress_working, compress_spliced, compress_parsed, compress_json_request_ctx,
  view_of, is_open_ai_shape,
}

-- A request of a batch is written down only where something is replaced.
abbrev Together : Compressed → Type 0
Together c = is_nil c.replacements ≡ true → c.batch_requests ≡ []

snoc-is_nil {ℓ} : {A : Type ℓ} (xs : List A) (x : A) → is_nil (xs ++ x ∷ []) ≡ false
snoc-is_nil [] x = refl
snoc-is_nil (y ∷ xs) x = refl

collect-Together :
    (slot : PlanSlot) (o : Option (Replacement × Text)) (c : Compressed)
    → Together c
    → Together (collect slot o c)
unfolding collect
collect-Together slot none c h = h
collect-Together slot (some (r, hash)) c h = λ e. absurd (cc (e, snoc-is_nil c.replacements r))

module _ (sha256 : Bytes → Bytes) (S : CcrStore) (json_string : Text → Bytes) where
  compress_slots-Together :
      (slots : List PlanSlot) (c : Compressed) (s : S.State) (stats : Stats)
      → Together c
      → Together (compress_slots sha256 S json_string slots c s stats).0
  unfolding compress_slots
  compress_slots-Together [] c s stats h = h
  compress_slots-Together (slot ∷ slots) c s stats h =
      let (found, s', stats') = compress_slot sha256 S json_string slot s stats in
      compress_slots-Together slots (collect slot found c) s' stats'
        (collect-Together slot found c h)

nil-of {ℓ} : {A : Type ℓ} (xs : List A) → is_nil xs ≡ true → xs ≡ []
nil-of [] h = refl
nil-of (x ∷ xs) h = cc

gate-closed : (a b c : Bool) → b ≡ false → (a && b && c) ≡ false
gate-closed a b c h = ground arith

gate-shut : (a b : Bool) → b ≡ false → (a && b) ≡ false
gate-shut a b h = ground arith

no_requests :
    (lib : Library) (body : View) (v : Value)
    → plan_batch_retrieve_tool_injection lib.serde lib.to_vec body v [] ≡ []
unfolding plan_batch_retrieve_tool_injection inject_requests
no_requests lib body v = elim (Option-cases (and_then (lib.serde.batch_view body) (λ o. o))) [
  | inl e ↦ rw (e, plan_batch_retrieve_tool_injection) refl
  | inr (requests, e) ↦ rw (e, plan_batch_retrieve_tool_injection) refl
]

retrieve_value-nil :
    (lib : Library) (shape : ApiShape) (c : Compressed) (current : Bytes) (v : Value)
    → c.batch_requests ≡ []
    → is_nil c.replacements ≡ true
    → retrieve_splices lib shape false c current (some v) ≡ []
unfolding retrieve_splices
retrieve_value-nil lib open_ai_chat_completions c current v b h = rw h refl
retrieve_value-nil lib open_ai_responses c current v b h = rw h refl
retrieve_value-nil lib anthropic_messages c current v b h = rw h refl
retrieve_value-nil lib anthropic_message_batches c current v b h =
    rw b (no_requests lib (view_of lib current) v)

module _ (lib : Library) (body : Bytes) (ctx : CompressContext) (shape : ApiShape) where
  -- Without a marker, and with nothing compressed, no tool is injected.
  retrieve_splices-nil :
      (c : Compressed) (current : Bytes) (o : Option Value)
      → Together c
      → is_nil c.replacements ≡ true
      → retrieve_splices lib shape false c current o ≡ []
  unfolding retrieve_splices
  retrieve_splices-nil c current none t h = refl
  retrieve_splices-nil c current (some v) t h = retrieve_value-nil lib shape c current v (t h) h

  key_splices-nil :
      (current : Bytes) (o : Option Value)
      → is_payg ctx.auth_mode ≡ false
      → key_splices lib ctx shape current o ≡ []
  unfolding key_splices
  key_splices-nil current none h = refl
  key_splices-nil current (some v) h =
      rw (gate-closed ctx.provider_metadata (is_payg ctx.auth_mode) (is_open_ai_shape shape) h) refl

  metadata_splices-nil :
      (parsed : Value)
      → is_payg ctx.auth_mode ≡ false
      → metadata_splices lib ctx body parsed shape ≡ []
  unfolding metadata_splices
  metadata_splices-nil parsed h =
      rw (gate-shut ctx.provider_metadata (is_payg ctx.auth_mode) h) refl

  outcome-compressed :
      (reason : Option Text) (mutated : Bool) (c : Compressed) (retrieve key : List Replacement)
      (final_body : Bytes)
      → (outcome lib body reason mutated c retrieve key final_body).compressed
        ≡ not (is_nil c.replacements)
  unfolding outcome passthrough
  outcome-compressed reason mutated c retrieve key final_body =
      elim (Bool-cases
        (is_nil c.replacements && (not mutated && (is_nil retrieve && is_nil key)))) [
          | inl e ↦ rw e (ground arith)
          | inr e ↦ rw e refl
        ]

  -- Behind the slots, with nothing replaced and nothing injected.
  after_slots-none :
      (reason : Option Text) (hashes : List Text)
      → is_payg ctx.auth_mode ≡ false
      → after_slots lib ctx shape body body false false reason
          (record { replacements = []; hashes = hashes; batch_requests = [] })
        ≡ some (passthrough body hashes (unwrap_or (lit "no_live_zone_text") reason))
  unfolding after_slots spliced outcome
  after_slots-none reason hashes payg =
      let c : Compressed = record { replacements = []; hashes = hashes; batch_requests = [] } in
      rw (retrieve_splices-nil c body (parse lib body) (λ _. refl) refl)
        (rw (key_splices-nil body (parse lib body) payg) refl)

  after_slots-nil :
      (reason : Option Text) (c : Compressed)
      → is_payg ctx.auth_mode ≡ false
      → c.batch_requests ≡ []
      → c.replacements ≡ []
      → after_slots lib ctx shape body body false false reason c
        ≡ some (passthrough body c.hashes (unwrap_or (lit "no_live_zone_text") reason))
  after_slots-nil reason c payg batch nil =
      subst
        (λ (d : Compressed).
          after_slots lib ctx shape body body false false reason d
          ≡ some (passthrough body c.hashes (unwrap_or (lit "no_live_zone_text") reason)))
        {x = record { replacements = []; hashes = c.hashes; batch_requests = [] }} {y = c}
        (ground arith) (after_slots-none reason c.hashes payg)

  after_slots-quiet :
      (reason : Option Text) (c : Compressed) (r : RequestCompression)
      → is_payg ctx.auth_mode ≡ false
      → Together c
      → after_slots lib ctx shape body body false false reason c ≡ some r
      → r.compressed ≡ false
      → r.body ≡ body
  unfolding passthrough
  after_slots-quiet reason c r payg together h same =
      let counted =
        after_slots-each lib body ctx shape (λ q. q.compressed ≡ not (is_nil c.replacements)) body
          false false reason c
          (λ retrieve key compressed injected final_body e f g.
            outcome-compressed reason false c retrieve key final_body)
          r h in
      let nil : c.replacements ≡ [] = nil-of c.replacements (ground arith) in
      let left = after_slots-nil reason c payg (together (rw nil refl)) nil in
      subst (λ (q : RequestCompression). q.body ≡ body)
        {x = passthrough body c.hashes (unwrap_or (lit "no_live_zone_text") reason)} {y = r} (cc)
        refl

  module _ (S : CcrStore) where
    compress_current-quiet :
        (parsed : Value) (s : S.State) (stats : Stats) (r : RequestCompression)
        → is_payg ctx.auth_mode ≡ false
        → (compress_current lib S ctx shape body body false false parsed s stats).0 ≡ some r
        → r.compressed ≡ false
        → r.body ≡ body
    unfolding compress_current
    compress_current-quiet parsed s stats r payg h same =
        let (reason, slots) = plan_slots lib ctx body parsed shape in
        let empty : Compressed = record { replacements = []; hashes = []; batch_requests = [] } in
        let c = (compress_slots lib.sha256 S lib.json_string slots empty s stats).0 in
        after_slots-quiet reason c r payg
          (compress_slots-Together lib.sha256 S lib.json_string slots empty s stats (λ _. refl)) h
          same

    compress_spliced-quiet :
        (parsed : Value) (splices : List Replacement) (s : S.State) (stats : Stats)
        (r : RequestCompression)
        → is_payg ctx.auth_mode ≡ false
        → value_contains_ccr_marker parsed ≡ false
        → splices ≡ []
        → (compress_spliced lib S ctx shape body parsed splices (spliced body splices) s stats).0
          ≡ some r
        → r.compressed ≡ false
        → r.body ≡ body
    unfolding compress_spliced compress_working spliced
    compress_spliced-quiet parsed [] s stats r payg marker nil h same =
        compress_current-quiet parsed s stats r payg (rw marker at h) same
    compress_spliced-quiet parsed (x ∷ splices) s stats r payg marker nil h same = absurd (cc)

    -- A request of a user who does not pay by usage, without a marker in it, goes on byte for byte as it
    -- came, unless something of it is compressed: nothing is sorted, placed or injected.
    pub compress_json_request_ctx-quiet :
        (parsed : Value) (s : S.State) (stats : Stats) (r : RequestCompression)
        → parse lib body ≡ some parsed
        → value_contains_ccr_marker parsed ≡ false
        → is_payg ctx.auth_mode ≡ false
        → (compress_json_request_ctx lib S ctx shape body s stats).0 ≡ some r
        → r.compressed ≡ false
        → r.body ≡ body
    unfolding compress_json_request_ctx compress_parsed passthrough
    compress_json_request_ctx-quiet parsed s stats r is_json marker payg h same =
        let h' = rw (is_json, compress_json_request_ctx) at h in
        let splices = metadata_splices lib ctx body parsed shape in
        elim (Bool-cases
          (is_chat shape && is_some_and (λ n. ltb 1 n) (and_then (get (lit "n") parsed) as_u64))) [
            | inl e ↦
                let h'' = rw e at h' in
                subst (λ (q : RequestCompression). q.body ≡ body)
                  {x = passthrough body [] (lit "multi_choice_n")} {y = r} (cc) refl
            | inr e ↦
                compress_spliced-quiet parsed splices s stats r payg marker
                  (metadata_splices-nil parsed payg) (rw e at h') same
          ]
