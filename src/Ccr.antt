-- ===== src/Ccr.antt =====
-- src/ccr.rs: content hashes, markers, the store's interface, and decompression. SHA-256 and the
-- regular expression engine are not part of the program: `sha256` and `captures_iter` are arguments.
-- A position in a text counts scalar values; the source counts the bytes up to the same boundary.
pub mod Sqlite
pub mod Laws
pub mod Samples
pub mod Digest
pub mod Hash
pub mod Expand
use hr.Prelude.{
  ℕ, ◌+◌, ◌-◌, ◌/◌, ◌%◌, ◌≡◌, ◌≢◌, ◌⊎◌, Bool, Option, none, some, List, [], ◌∷◌, ◌++◌, ltb,
  if◌then◌else◌, length, take, drop, lit, Text, Bytes,
}
use hr.Prelude.Strings.{as_bytes}
use hr.Result.{Result, ok, err}
use hr.Stats.{Stats, record_decompress_hit, record_decompress_miss}

abbrev pub hash_hex_len : ℕ
hash_hex_len = 24

-- `format!("{byte:02x}")`
unfoldable pub hex_digit : ℕ → ℕ
hex_digit d = if ltb d 10 then b'0' + d else b'a' + (d - 10)

unfoldable pub hex_byte : ℕ → Text
unfolding hex_digit
hex_byte b = hex_digit (b / 16) ∷ hex_digit (b % 16) ∷ []

unfoldable pub hex : Bytes → Text
unfolding hex_byte
hex [] = []
hex (b ∷ bs) = hex_byte b ++ hex bs

unfoldable pub content_hash : (Bytes → Bytes) → Text → Text
unfolding hex
content_hash sha256 input = hex (take (hash_hex_len / 2) (sha256 (as_bytes input)))

unfoldable pub marker_for_hash : Text → Text
marker_for_hash hash = lit "<<ccr:" ++ (hash ++ lit ">>")

-- The trait `CcrStore`: `&self` is the state of the store, which `put` may change.
pub record CcrStore : Type 1 where
  pub State : Type 0
  pub put : Text → Text → State → Result Bool × State
  pub get : Text → State → Result (Option Text)
  pub count : State → Result ℕ

-- What clients rely on, of hashes that can be read: `put` keeps what a hash is mapped to, or else maps
-- it to the new original, and does not touch other hashes; a `put` that fails has done that or nothing.
abbrev pub kept_or : Text → Option Text → Text
kept_or original none = original
kept_or original (some kept) = kept

pub record CcrStoreLaws (S : CcrStore) : Type 0 where
  pub get_after_put :
      (hash original : Text) (s : S.State) (known : Option Text) (inserted : Bool)
      → S.get hash s ≡ ok known
      → (S.put hash original s).0 ≡ ok inserted
      → S.get hash (S.put hash original s).1 ≡ ok (some (kept_or original known))
  pub get_other :
      (hash original other : Text) (s : S.State)
      → hash ≢ other
      → S.get other (S.put hash original s).1 ≡ S.get other s
  pub get_after_failure :
      (hash original : Text) (s : S.State) (known : Option Text) (e : Text)
      → S.get hash s ≡ ok known
      → (S.put hash original s).0 ≡ err e
      → (S.get hash (S.put hash original s).1 ≡ ok known)
        ⊎ (S.get hash (S.put hash original s).1 ≡ ok (some (kept_or original known)))

-- A match of `<<ccr:([A-Fa-f0-9]{24,64})>>`: the span of group 0, and the text of group 1.
pub record Captures : Type 0 where
  pub start : ℕ
  pub end : ℕ
  pub hash : Text

pub record DecompressResult : Type 0 where
  pub output : Text
  pub hits : ℕ
  pub misses : ℕ
  pub missing_hashes : List Text

-- `&text[from..to]` of a range that lies in the text
unfoldable pub slice : Text → ℕ → ℕ → Text
slice text from to = take (to - from) (drop from text)

unfoldable pub found : Result (Option Text) → Stats → Option Text × Stats
found (ok (some value)) stats = (some value, record_decompress_hit stats)
found (ok none) stats = (none, record_decompress_miss stats)
found (err e) stats = (none, record_decompress_miss stats)

-- What the body of the loop appends for a match, and counts.
unfoldable pub expand : Text → Text → Option Text → DecompressResult → DecompressResult
expand marker hash (some original) r = record r { output = r.output ++ original; hits = r.hits + 1 }
expand marker hash none r = record r {
  output = r.output ++ marker;
  misses = r.misses + 1;
  missing_hashes = r.missing_hashes ++ hash ∷ [];
}

module _ (S : CcrStore) where
  unfoldable pub decompress_hash : Text → S.State → Stats → Option Text × Stats
  unfolding found
  decompress_hash hash s stats = found (S.get hash s) stats

  -- The loop over the matches, and the copy of the tail behind it.
  unfoldable pub expand_all :
      Text → ℕ → List Captures → S.State → DecompressResult → Stats → DecompressResult × Stats
  unfolding expand
  expand_all text last [] s r stats =
      (record r { output = r.output ++ slice text last (length text) }, stats)
  expand_all text last (m ∷ ms) s r stats =
      let (original, stats') = decompress_hash m.hash s stats in
      let copied = record r { output = r.output ++ slice text last m.start } in
      expand_all text m.end ms s (expand (slice text m.start m.end) m.hash original copied) stats'

  unfoldable pub decompress_text :
      (Text → List Captures) → Text → S.State → Stats → DecompressResult × Stats
  unfolding expand_all slice decompress_hash
  decompress_text captures_iter text s stats =
      expand_all text 0 (captures_iter text) s
        (record { output = []; hits = 0; misses = 0; missing_hashes = [] }) stats
