-- ===== src/Compress/Tests.antt =====
-- One text, compressed into an empty store and taken back.
use hr.Prelude.{◌+◌, ◌≡◌, arith, refl, true, none, some, List, [], ◌∷◌, length, lit, eq_text, Text}
use hr.Prelude.Strings.{
  trim, trim_start, trim_end, is_whitespace, is_empty, contains, starts_with, strip_prefix,
  byte_len, utf8_width, count_words, as_bytes, encode_char,
}
use hr.Json.{string}
use hr.Tokens.{estimate_tokens}
use hr.Stats.{default}
use hr.Splice.{Replacement}
use hr.Ccr.{
  CcrStoreLaws, Captures, hex, hex_byte, hex_digit, content_hash, marker_for_hash, found,
  decompress_hash, decompress_text,
}
use hr.Ccr.Sqlite.{sqlite_store, put, get, after_insert}
use hr.Ccr.Laws.{sqlite_store-CcrStoreLaws}
use hr.Ccr.Expand.{decompress_text_unknown, decompress_text_counts}
use hr.Ccr.Samples.{
  list_db, list_db-SqliteLaws, store, store-CcrStoreLaws, original_in, insert_absent_row,
}
use hr.Ccr.Digest.{sample, digest, digest-Sha256Laws, sample_alone}
use hr.Compress.{
  PlanSlot, Compressed, compress, stored_result, compress_slot, compress_slots, replace_slot,
  is_admitted,
}
use hr.Compress.Content.{IsConsistent, decompress-compress}
use hr.Compress.Consistent.{compress-IsConsistent}
use hr.Compress.Retrieval.{Adds, compress_slots-Adds}
use hr.Proxy.Retrieve.{retrieve_response}
use hr.Proxy.Retrieve.Stored.{retrieve_response-compress}

sqlite_store-CcrStoreLaws_example : CcrStoreLaws (sqlite_store list_db)
sqlite_store-CcrStoreLaws_example = sqlite_store-CcrStoreLaws list_db list_db-SqliteLaws

abbrev empty : store.State
empty = record { now = 5; db = [] }

empty-IsConsistent : IsConsistent digest store store-CcrStoreLaws empty
unfolding get original_in
empty-IsConsistent = record {
  readable = λ hash. (none, refl);
  matching = λ hash original e. absurd (cc);
}

sample-stored : (compress digest store sample 0 empty default).0.stored ≡ true
unfolding compress stored_result put after_insert original_in insert_absent_row is_empty trim
    trim_start trim_end is_whitespace byte_len utf8_width lit
sample-stored = refl

abbrev captures : Text → List Captures
captures text = record { start = 0; end = length text; hash = content_hash digest sample } ∷ []

decompress-compress_example :
    (decompress_text store captures
      (compress digest store sample 0 empty default).0.output
      (compress digest store sample 0 empty default).1
      default).0.output
    ≡ sample
decompress-compress_example =
    decompress-compress digest store store-CcrStoreLaws captures sample 0 empty default default
      empty-IsConsistent sample_alone refl sample-stored

compress-IsConsistent_example :
    IsConsistent digest store store-CcrStoreLaws (compress digest store sample 0 empty default).1
compress-IsConsistent_example =
    compress-IsConsistent digest store store-CcrStoreLaws sample 0 empty default empty-IsConsistent

retrieve_response-compress_example :
    ((retrieve_response
        (λ t. t)
        store
        (content_hash digest sample)
        none
        (compress digest store sample 0 empty default).1
        default).0
      ≡ 200)
    × (hr.Json.get
          (lit "original_content")
          (retrieve_response
            (λ t. t)
            store
            (content_hash digest sample)
            none
            (compress digest store sample 0 empty default).1
            default).1
        ≡ some (string sample))
retrieve_response-compress_example =
    retrieve_response-compress (λ t. t) store digest store-CcrStoreLaws sample 0 empty default
      default digest-Sha256Laws empty-IsConsistent sample_alone sample-stored

abbrev slot : PlanSlot
slot = record {
  start = 4;
  end = 60;
  text = sample;
  min_bytes = 10;
  batch_request_index = none;
  label = lit "tool";
}

abbrev replacement : Replacement
replacement = record {
  start = 4;
  end = 60;
  bytes = as_bytes (marker_for_hash (content_hash digest sample));
}

slot_admitted : is_admitted digest store as_bytes slot ≡ true
unfolding is_admitted contains starts_with strip_prefix byte_len utf8_width estimate_tokens
    count_words is_whitespace marker_for_hash content_hash digest hex hex_byte hex_digit as_bytes
    encode_char eq_text lit
slot_admitted = refl

slot_replaced :
    (compress_slot digest store as_bytes slot empty default).0
    ≡ some (replacement, content_hash digest sample)
unfolding compress_slot replace_slot put after_insert original_in insert_absent_row
slot_replaced = rw slot_admitted refl

abbrev nothing : Compressed
nothing = record { replacements = []; hashes = []; batch_requests = [] }

compress_slots-Adds_example :
    Adds digest store store-CcrStoreLaws as_bytes
      (slot ∷ [])
      nothing
      (compress_slots digest store as_bytes (slot ∷ []) nothing empty default).0
      (compress_slots digest store as_bytes (slot ∷ []) nothing empty default).1
compress_slots-Adds_example =
    compress_slots-Adds digest store store-CcrStoreLaws as_bytes (slot ∷ []) nothing empty default
      empty-IsConsistent (sample_alone, tt)

-- The marker of a hash that nothing is stored under, between two other characters.
abbrev one_match : Text → List Captures
one_match text = record { start = 1; end = 3; hash = lit "h" } ∷ []

decompress_text_unknown_example :
    (decompress_text store one_match (lit "abcd") empty default).0
    ≡ record { output = lit "abcd"; hits = 0; misses = 1; missing_hashes = lit "h" ∷ [] }
unfolding lit decompress_hash found get original_in
decompress_text_unknown_example =
    decompress_text_unknown store one_match (lit "abcd") empty default
      (omega arith, omega arith, omega arith) (λ hash o. refl)

decompress_text_counts_example :
    (let r = (decompress_text store one_match (lit "abcd") empty default).0 in
      (r.hits + r.misses ≡ length (one_match (lit "abcd"))) × (length r.missing_hashes ≡ r.misses))
decompress_text_counts_example = decompress_text_counts store one_match (lit "abcd") empty default
