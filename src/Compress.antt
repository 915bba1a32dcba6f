-- ===== src/Compress.antt =====
-- src/compression.rs: `compress`, and `compress_slot` with the loop over the planned slots.
-- `sha256` is not part of the program, nor is the JSON serializer, whose bytes for a string are the
-- argument `json_string`.
pub mod Content
pub mod Consistent
pub mod Slots
pub mod Retrieval
pub mod Views
pub mod Plan
pub mod Tools
pub mod CacheKey
pub mod Request
mod Tests
use hr.Prelude.{
  ℕ, ◌≡◌, Bool, true, false, not, ◌&&◌, ◌||◌, Option, none, some, List, [], ◌∷◌, ◌++◌, ltb, leb,
  ◌==◌, if◌then◌else◌, lit, Text, Bytes,
}
use hr.Prelude.Strings.{trim, is_empty, contains, byte_len}
use hr.Result.{Result, ok, err}
use hr.Tokens.{estimate_tokens}
use hr.Stats.{Stats, record_ccr_entry_inserted}
use hr.Splice.{Replacement}
use hr.Ccr.{CcrStore, content_hash, marker_for_hash}

pub record CompressResult : Type 0 where
  pub output : Text
  pub hash : Option Text
  pub marker : Option Text
  pub original_bytes : ℕ
  pub compressed_bytes : ℕ
  pub original_tokens : ℕ
  pub compressed_tokens : ℕ
  pub stored : Bool
  pub skipped_reason : Option Text
  pub error : Option Text

unfoldable pub skipped : Text → Text → ℕ → ℕ → CompressResult
skipped input reason original_bytes original_tokens = record {
  output = input;
  hash = none;
  marker = none;
  original_bytes = original_bytes;
  compressed_bytes = original_bytes;
  original_tokens = original_tokens;
  compressed_tokens = original_tokens;
  stored = false;
  skipped_reason = some reason;
  error = none;
}

-- `if inserted { stats::record_ccr_entry_inserted(); }`
unfoldable pub count_inserted : Bool → Stats → Stats
count_inserted inserted stats = if inserted then record_ccr_entry_inserted stats else stats

-- One compressible string of the request: the span of its JSON token, and its text.
pub record PlanSlot : Type 0 where
  pub start : ℕ
  pub end : ℕ
  pub text : Text
  pub min_bytes : ℕ
  pub batch_request_index : Option ℕ
  pub label : Text

-- The three collections that the loop over the slots fills; the third is a `BTreeSet`.
pub record Compressed : Type 0 where
  pub replacements : List Replacement
  pub hashes : List Text
  pub batch_requests : List ℕ

unfoldable pub set_insert : ℕ → List ℕ → List ℕ
set_insert n [] = n ∷ []
set_insert n (m ∷ ms) =
    let later = set_insert n ms in
    if ltb n m then n ∷ m ∷ ms else if n == m then m ∷ ms else m ∷ later

unfoldable pub insert_index : Option ℕ → List ℕ → List ℕ
unfolding set_insert
insert_index none set = set
insert_index (some index) set = set_insert index set

unfoldable pub collect : PlanSlot → Option (Replacement × Text) → Compressed → Compressed
unfolding insert_index
collect slot none c = c
collect slot (some (replacement, hash)) c = record {
  replacements = c.replacements ++ replacement ∷ [];
  hashes = c.hashes ++ hash ∷ [];
  batch_requests = insert_index slot.batch_request_index c.batch_requests;
}

module _ (sha256 : Bytes → Bytes) (S : CcrStore) where
  -- What `compress` answers to the answer of the store.
  unfoldable pub stored_result :
      Text → Result Bool × S.State → Stats → CompressResult × S.State × Stats
  unfolding count_inserted
  stored_result input (ok inserted, s) stats =
      let hash = content_hash sha256 input in
      let marker = marker_for_hash hash in
      (
        record {
          output = marker;
          hash = some hash;
          marker = some marker;
          original_bytes = byte_len input;
          compressed_bytes = byte_len marker;
          original_tokens = estimate_tokens input;
          compressed_tokens = estimate_tokens marker;
          stored = true;
          skipped_reason = none;
          error = none;
        },
        s,
        count_inserted inserted stats,
      )
  stored_result input (err e, s) stats = (
    record {
      output = input;
      hash = some (content_hash sha256 input);
      marker = none;
      original_bytes = byte_len input;
      compressed_bytes = byte_len input;
      original_tokens = estimate_tokens input;
      compressed_tokens = estimate_tokens input;
      stored = false;
      skipped_reason = some (lit "store_error");
      error = some e;
    },
    s,
    stats,
  )

  unfoldable pub compress : Text → ℕ → S.State → Stats → CompressResult × S.State × Stats
  unfolding skipped stored_result
  compress input min_bytes s stats =
      if is_empty (trim input)
      then (skipped input (lit "empty") (byte_len input) (estimate_tokens input), s, stats)
      else if ltb (byte_len input) min_bytes
      then (
        skipped input (lit "below_min_bytes") (byte_len input) (estimate_tokens input),
        s,
        stats,
      )
      else stored_result input (S.put (content_hash sha256 input) input s) stats

  module _ (json_string : Text → Bytes) where
    -- Behind the gates: the replacement if the original is in the store.
    unfoldable pub replace_slot :
        PlanSlot → Result Bool × S.State → Stats → Option (Replacement × Text) × S.State × Stats
    unfolding count_inserted
    replace_slot slot (ok inserted, s) stats =
        let hash = content_hash sha256 slot.text in
        (
          some (
            record {
              start = slot.start;
              end = slot.end;
              bytes = json_string (marker_for_hash hash);
            },
            hash,
          ),
          s,
          count_inserted inserted stats,
        )
    replace_slot slot (err e, s) stats = (none, s, stats)

    -- The three gates, in their order.
    unfoldable pub is_admitted : PlanSlot → Bool
    is_admitted slot =
        not (contains (lit "<<ccr:") slot.text)
        && leb slot.min_bytes (byte_len slot.text)
        && ltb (estimate_tokens (marker_for_hash (content_hash sha256 slot.text)))
            (estimate_tokens slot.text)

    unfoldable pub compress_slot :
        PlanSlot → S.State → Stats → Option (Replacement × Text) × S.State × Stats
    unfolding replace_slot
    compress_slot slot s stats =
        if is_admitted slot
        then replace_slot slot (S.put (content_hash sha256 slot.text) slot.text s) stats
        else (none, s, stats)

    unfoldable pub compress_slots :
        List PlanSlot → Compressed → S.State → Stats → Compressed × S.State × Stats
    unfolding collect
    compress_slots [] c s stats = (c, s, stats)
    compress_slots (slot ∷ slots) c s stats =
        let (found, s', stats') = compress_slot slot s stats in
        compress_slots slots (collect slot found c) s' stats'
