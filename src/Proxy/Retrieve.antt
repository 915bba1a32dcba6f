-- ===== src/Proxy/Retrieve.antt =====
-- src/proxy.rs: what the retrieval endpoints answer. `str::to_lowercase` follows Unicode's tables, and
-- is the argument `to_lowercase`.

pub mod Stored
pub mod Search
use hr.Prelude.{
  ℕ, suc, ◌+◌, Bool, true, false, not, ◌&&◌, ◌||◌, Option, none, some, List, [], ◌∷◌, ◌++◌, ◌==◌,
  if◌then◌else◌, all, map, retain, length, lit, Text,
}
use hr.Prelude.Strings.{trim, is_empty, contains, split, byte_len}
use hr.Json.{
  Value, string, unsigned, array, object, Values, no_values, value_then, no_fields, field_then, get,
  filter,
}
use hr.Tokens.{estimate_tokens}
use hr.Stats.{Stats}
use hr.Sse.Framer.{strip_cr}
use hr.Ccr.{CcrStore, hash_hex_len, decompress_hash}
use hr.Ccr.Hash.{is_ascii_hexdigit}

unfoldable pub valid_hash : Text → Bool
unfolding is_ascii_hexdigit
valid_hash hash = (byte_len hash == hash_hex_len) && all is_ascii_hexdigit hash

-- `str::lines`: a line that ends in `\n` also loses a `\r` before it, and no empty line is last.
unfoldable pub lines_of : List Text → List Text
unfolding strip_cr
lines_of [] = []
lines_of (last ∷ []) = if is_empty last then [] else last ∷ []
lines_of (line ∷ next ∷ parts) = strip_cr line ∷ lines_of (next ∷ parts)

unfoldable pub lines : Text → List Text
unfolding lines_of
lines text = lines_of (split b'\n' text)

pub record RetrieveSearchResult : Type 0 where
  pub line : ℕ
  pub text : Text

module _ (to_lowercase : Text → Text) where
  abbrev pub matches : Text → Text → Bool
  matches query line = contains query (to_lowercase line)

  -- The lines from number `index + 1` on.
  unfoldable pub search_lines : Text → ℕ → List Text → List RetrieveSearchResult
  search_lines query index [] = []
  search_lines query index (line ∷ rest) =
      let later = search_lines query (index + 1) rest in
      if matches query line then record { line = index + 1; text = line } ∷ later else later

  unfoldable pub search_content : Text → Text → List RetrieveSearchResult
  unfolding search_lines lines
  search_content content query = search_lines (to_lowercase query) 0 (lines content)

  abbrev results_of : List RetrieveSearchResult → Values
  results_of [] = no_values
  results_of (r ∷ rs) =
      value_then
        (object (
          field_then (lit "line") (unsigned r.line)
            (field_then (lit "text") (string r.text) no_fields)))
        (results_of rs)

  unfoldable pub found_value : Text → Option Text → Text → Value
  unfolding search_content
  found_value hash (some query) original =
      let results = search_content original query in
      object (
        field_then (lit "hash") (string hash) (
          field_then (lit "query") (string query) (
            field_then (lit "results") (array (results_of results))
              (field_then (lit "count") (unsigned (length results)) no_fields))))
  found_value hash none original = object (
      field_then (lit "hash") (string hash) (
        field_then (lit "original_content") (string original) (
          field_then (lit "original_tokens") (unsigned (estimate_tokens original)) (
            field_then (lit "original_item_count") (unsigned 1) (
              field_then (lit "compressed_item_count") (unsigned 1) (
                field_then (lit "tool_name") (string (lit "headroom_retrieve"))
                  (field_then (lit "retrieval_count") (unsigned 1) no_fields)))))))

  unfoldable pub answer_value : Text → Option Text → Option Text → Value
  unfolding found_value
  answer_value hash query none = object (
      field_then (lit "hash") (string hash)
        (field_then (lit "error") (string (lit "entry not found")) no_fields))
  answer_value hash query (some original) =
      found_value hash (filter (λ q. not (is_empty (trim q))) query) original

  module _ (S : CcrStore) where
    unfoldable pub retrieve_value : Text → Option Text → S.State → Stats → Value × Stats
    unfolding valid_hash answer_value
    retrieve_value hash query s stats =
        let (original, stats') = decompress_hash S hash s stats in
        if not (valid_hash hash)
        then (
          object (
              field_then (lit "hash") (string hash) (
                field_then (lit "error")
                  (string (lit "invalid hash format; expected 24 hex characters")) no_fields)),
          stats,
        )
        else (answer_value hash query original, stats')

    abbrev status_of : Text → Option Value → ℕ
    status_of hash none = 200
    status_of hash (some error) = if not (valid_hash hash) then 400 else 404

    -- The status and the body of `retrieve_response`.
    unfoldable pub retrieve_response : Text → Option Text → S.State → Stats → ℕ × Value × Stats
    unfolding retrieve_value
    retrieve_response hash query s stats =
        let (value, stats') = retrieve_value hash query s stats in
        (status_of hash (get (lit "error") value), value, stats')
