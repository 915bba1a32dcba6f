-- ===== src/Compress/Request/Accounted.antt =====
-- What the result of a compressed request says of its body.
use hr.Prelude.{
  ◌≡◌, refl, ◌⊎◌, inl, inr, Bool, false, not, ◌&&◌, Option, none, some, List, [], ◌∷◌, Bool-cases,
  Option-cases, if◌then◌else◌, length, lit, Text, Bytes, ltb,
}
use mathlib.Core.Path.{subst}
use hr.Json.{Value, get, as_u64, and_then, unwrap_or, is_some_and}
use hr.Stats.{Stats}
use hr.Tokens.{estimate_tokens_bytes}
use hr.Splice.{Replacement}
use hr.Ccr.{CcrStore}
use hr.Compress.{Compressed, compress_slots}
use hr.Compress.Plan.{value_contains_ccr_marker}
use hr.Compress.Tools.Append.{ApiShape}
use hr.Compress.Request.{
  CompressContext, RequestCompression, Library, is_nil, is_chat, passthrough, spliced,
  metadata_splices, plan_slots, parse, retrieve_splices, key_splices, outcome, after_slots,
  compress_current, compress_working, compress_spliced, compress_parsed, compress_json_request_ctx,
}

module _ (lib : Library) (S : CcrStore) (ctx : CompressContext) (shape : ApiShape) (body : Bytes)
    (s : S.State) (stats : Stats) where
  -- The last body is the one that came, with metadata spliced in, then the markers of what the loop
  -- compressed of the slots planned on that, then the retrieval tool, then the key of the cache, each
  -- planned on the bytes that the one before left.
  pub record Stages (c : Compressed) (last : Bytes) : Type 0 where
    pub parsed : Value
    pub working : Value
    pub current : Bytes
    pub compressed : Bytes
    pub injected : Bytes
    pub is_json : parse lib body ≡ some parsed
    pub with_metadata : spliced body (metadata_splices lib ctx body parsed shape) ≡ some current
    pub is_json_still : parse lib current ≡ some working
    pub of_slots :
        c
        ≡ (compress_slots lib.sha256 S lib.json_string
            (plan_slots lib ctx current working shape).1
            (record { replacements = []; hashes = []; batch_requests = [] })
            s
            stats).0
    pub with_markers : spliced current c.replacements ≡ some compressed
    pub with_tool :
        spliced compressed (
          retrieve_splices lib shape
            (value_contains_ccr_marker parsed)
            c
            compressed
            (parse lib compressed))
        ≡ some injected
    pub with_key :
        spliced injected (key_splices lib ctx shape injected (parse lib injected)) ≡ some last

  abbrev pub IsUnchanged : RequestCompression → Type 0
  IsUnchanged r =
      (r.body ≡ body)
      × (r.compressed ≡ false)
      × ((reason : Text) × (r.skipped_reason ≡ some reason))

  abbrev pub IsRewritten : RequestCompression → Type 0
  IsRewritten r =
      (c : Compressed) × Stages c r.body
      × (r.hashes ≡ c.hashes)
      × (r.compressed ≡ not (is_nil c.replacements))
      × (r.skipped_reason
          ≡ (if is_nil c.replacements then some (lit "metadata_injected_only") else none))

  -- The counts are those of the body that came and of the body that goes on, which is the one that came,
  -- or the last one of the stages.
  abbrev pub IsAccounted : RequestCompression → Type 0
  IsAccounted r =
      (r.bytes_before ≡ length body)
      × (r.bytes_after ≡ length r.body)
      × (r.tokens_before ≡ estimate_tokens_bytes body)
      × (r.tokens_after ≡ estimate_tokens_bytes r.body)
      × (IsUnchanged r ⊎ IsRewritten r)

  passthrough-IsAccounted :
      (hashes : List Text) (reason : Text) → IsAccounted (passthrough body hashes reason)
  unfolding passthrough
  passthrough-IsAccounted hashes reason = (refl, refl, refl, refl, inl (refl, refl, (reason, refl)))

  outcome-IsAccounted :
      (reason : Option Text) (mutated : Bool) (c : Compressed) (retrieve key : List Replacement)
      (final_body : Bytes)
      → Stages c final_body
      → IsAccounted (outcome lib body reason mutated c retrieve key final_body)
  unfolding outcome
  outcome-IsAccounted reason mutated c retrieve key final_body stages =
      elim (Bool-cases
        (is_nil c.replacements && (not mutated && (is_nil retrieve && is_nil key)))) [
          | inl e ↦
              rw e (passthrough-IsAccounted c.hashes (unwrap_or (lit "no_live_zone_text") reason))
          | inr e ↦ rw e (refl, refl, refl, refl, inr (c, stages, refl, refl, refl))
        ]

-- A predicate of every result that there is.
abbrev Each : (RequestCompression → Type 0) → Option RequestCompression → Type 0
Each P o = (r : RequestCompression) → o ≡ some r → P r

Each-some : (P : RequestCompression → Type 0) (r : RequestCompression) → P r → Each P (some r)
Each-some P r h r' e = subst P {x = r} {y = r'} (cc) h

Each-none : (P : RequestCompression → Type 0) → Each P none
Each-none P r e = absurd (cc)

module _ (lib : Library) (body : Bytes) (ctx : CompressContext) (shape : ApiShape) where
  -- What holds of each outcome, by the bytes of the stages, holds of the result behind the slots.
  pub after_slots-each :
      (P : RequestCompression → Type 0) (current : Bytes) (mutated marker : Bool)
      (reason : Option Text) (c : Compressed)
      → ((retrieve key : List Replacement) (compressed injected final_body : Bytes)
          → spliced current c.replacements ≡ some compressed
          → spliced compressed
              (retrieve_splices lib shape marker c compressed (parse lib compressed))
            ≡ some injected
          → spliced injected (key_splices lib ctx shape injected (parse lib injected))
            ≡ some final_body
          → P (outcome lib body reason mutated c retrieve key final_body))
      → (r : RequestCompression)
      → after_slots lib ctx shape body current mutated marker reason c ≡ some r
      → P r
  unfolding after_slots
  after_slots-each P current mutated marker reason c holds =
      elim (Option-cases (spliced current c.replacements)) [
        | inl e ↦ rw e (Each-none P)
        | inr (compressed, e) ↦
            let retrieve = retrieve_splices lib shape marker c compressed (parse lib compressed) in
            rw e (elim (Option-cases (spliced compressed retrieve)) [
              | inl f ↦ rw f (Each-none P)
              | inr (injected, f) ↦
                  let key = key_splices lib ctx shape injected (parse lib injected) in
                  rw f (elim (Option-cases (spliced injected key)) [
                    | inl g ↦ rw g (Each-none P)
                    | inr (final_body, g) ↦
                        rw g
                          (Each-some P _ (holds retrieve key compressed injected final_body e f g))
                  ])
            ])
      ]

  module _ (S : CcrStore) (parsed : Value) (s : S.State) (stats : Stats) where
    abbrev Accounts : Option RequestCompression → Type 0
    Accounts = Each (IsAccounted lib S ctx shape body s stats)

    passthrough-Accounts : (reason : Text) → Accounts (some (passthrough body [] reason))
    passthrough-Accounts reason =
        Each-some (IsAccounted lib S ctx shape body s stats) (passthrough body [] reason)
          (passthrough-IsAccounted lib S ctx shape body s stats [] reason)

    compress_working-Accounts :
        (current : Bytes) (mutated : Bool) (o : Option Value)
        → parse lib body ≡ some parsed
        → spliced body (metadata_splices lib ctx body parsed shape) ≡ some current
        → parse lib current ≡ o
        → Accounts
            (compress_working lib S ctx shape body current mutated
              (value_contains_ccr_marker parsed)
              o
              s
              stats).0
    unfolding compress_working compress_current
    compress_working-Accounts current mutated none read metadata again =
        passthrough-Accounts (lit "invalid_json")
    compress_working-Accounts current mutated (some working) read metadata again =
        let (reason, slots) = plan_slots lib ctx current working shape in
        let empty : Compressed = record { replacements = []; hashes = []; batch_requests = [] } in
        let c = (compress_slots lib.sha256 S lib.json_string slots empty s stats).0 in
        after_slots-each (IsAccounted lib S ctx shape body s stats) current mutated
          (value_contains_ccr_marker parsed) reason c
          (λ retrieve key compressed injected final_body e f g.
            outcome-IsAccounted lib S ctx shape body s stats reason mutated c retrieve key
              final_body
              (record {
                parsed = parsed;
                working = working;
                current = current;
                compressed = compressed;
                injected = injected;
                is_json = read;
                with_metadata = metadata;
                is_json_still = again;
                of_slots = refl;
                with_markers = e;
                with_tool = f;
                with_key = g;
              }))

    -- The value that is worked on is that of the current bytes.
    working_of :
        (splices : List Replacement) (current : Bytes)
        → parse lib body ≡ some parsed
        → spliced body splices ≡ some current
        → parse lib current ≡ (if not (is_nil splices) then parse lib current else some parsed)
    unfolding spliced
    working_of [] current read e =
        subst (λ b. parse lib b ≡ some parsed) {x = body} {y = current} (cc) read
    working_of (r ∷ rs) current read e = refl

    compress_spliced-Accounts :
        (o : Option Bytes)
        → parse lib body ≡ some parsed
        → spliced body (metadata_splices lib ctx body parsed shape) ≡ o
        → Accounts
            (compress_spliced lib S ctx shape body parsed
              (metadata_splices lib ctx body parsed shape)
              o
              s
              stats).0
    unfolding compress_spliced
    compress_spliced-Accounts none read e = Each-none (IsAccounted lib S ctx shape body s stats)
    compress_spliced-Accounts (some current) read e =
        let splices = metadata_splices lib ctx body parsed shape in
        compress_working-Accounts current (not (is_nil splices))
          (if not (is_nil splices) then parse lib current else some parsed) read e
          (working_of splices current read e)

    compress_parsed-Accounts :
        parse lib body ≡ some parsed
        → Accounts (compress_parsed lib S ctx shape body parsed s stats).0
    unfolding compress_parsed
    compress_parsed-Accounts read =
        elim (Bool-cases
          (is_chat shape && is_some_and (λ n. ltb 1 n) (and_then (get (lit "n") parsed) as_u64))) [
            | inl e ↦ rw e (passthrough-Accounts (lit "multi_choice_n"))
            | inr e ↦ rw e (
                compress_spliced-Accounts
                  (spliced body (metadata_splices lib ctx body parsed shape)) read refl)
          ]

  -- Whatever a request goes through, its result counts the bytes and tokens of the body that came and
  -- of the body that goes on. This is the body that came, byte for byte, with a reason why; or it is
  -- what the metadata, then the markers of what was compressed, then the retrieval tool and then the
  -- cache key leave of it, each planned on the bytes before it; the result lists the hashes of what
  -- was compressed, and says so, or that only metadata was put in.
  pub compress_json_request_ctx-IsAccounted :
      (S : CcrStore) (s : S.State) (stats : Stats) (r : RequestCompression)
      → (compress_json_request_ctx lib S ctx shape body s stats).0 ≡ some r
      → IsAccounted lib S ctx shape body s stats r
  unfolding compress_json_request_ctx
  compress_json_request_ctx-IsAccounted S s stats r h = elim (Option-cases (parse lib body)) [
    | inl e ↦
        Each-some (IsAccounted lib S ctx shape body s stats)
          (passthrough body [] (lit "invalid_json"))
          (passthrough-IsAccounted lib S ctx shape body s stats [] (lit "invalid_json")) r
          (rw (e, compress_json_request_ctx) at h)
    | inr (parsed, e) ↦
        compress_parsed-Accounts S parsed s stats e r (rw (e, compress_json_request_ctx) at h)
  ]
