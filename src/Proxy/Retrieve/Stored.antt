-- ===== src/Proxy/Retrieve/Stored.antt =====
-- That the retrieval endpoints give back what compression stored.
use hr.Prelude.{
  ℕ, ◌≡◌, refl, ◌∙◌, true, none, some, [], ◌∷◌, arith, all, length, lit, eq_text, Text, Bytes,
}
use hr.Prelude.Strings.{byte_len, utf8_width}
use hr.Json.{string, get, field}
use hr.Result.{ok}
use hr.Stats.{Stats}
use hr.Ccr.{CcrStore, CcrStoreLaws, content_hash, found, decompress_hash}
use hr.Ccr.Hash.{is_ascii_hexdigit, Sha256Laws, content_hash-hex}
use hr.Compress.{compress}
use hr.Compress.Content.{IsConsistent, NoCollision, compress_stores}
use hr.Proxy.Retrieve.{valid_hash, found_value, answer_value, retrieve_value, retrieve_response}

-- A hexadecimal digit is one byte.
byte_len-hex : (t : Text) → all is_ascii_hexdigit t ≡ true → byte_len t ≡ length t
unfolding byte_len utf8_width is_ascii_hexdigit
byte_len-hex [] h = refl
byte_len-hex (c ∷ cs) h = ground (arith, byte_len-hex cs)

content_hash-valid_hash :
    (sha256 : Bytes → Bytes) (input : Text)
    → Sha256Laws sha256
    → valid_hash (content_hash sha256 input) ≡ true
unfolding valid_hash
content_hash-valid_hash sha256 input laws =
    let (len, digits) = content_hash-hex sha256 input laws in
    let bytes : byte_len (content_hash sha256 input) ≡ 24 = byte_len-hex _ digits ∙ len in
    rw (bytes, digits) refl

module _ (to_lowercase : Text → Text) (S : CcrStore) where
  retrieve_response-stored :
      (hash original : Text) (s : S.State) (stats : Stats)
      → valid_hash hash ≡ true
      → S.get hash s ≡ ok (some original)
      → ((retrieve_response to_lowercase S hash none s stats).0 ≡ 200)
        × (get (lit "original_content") (retrieve_response to_lowercase S hash none s stats).1
            ≡ some (string original))
  unfolding retrieve_response retrieve_value answer_value found_value decompress_hash found get
      field lit eq_text
  retrieve_response-stored hash original s stats v h = rw (v, h) (refl, refl)

  -- Behind a `compress` that stored its input, a request for the hash of that input, without a
  -- query, is answered with status 200 and the input, where the store has the laws and is
  -- consistent, no other text has the hash, and a digest has 32 bytes.
  pub retrieve_response-compress :
      (sha256 : Bytes → Bytes) (L : CcrStoreLaws S) (input : Text) (min_bytes : ℕ) (s : S.State)
      (stats stats' : Stats)
      → Sha256Laws sha256
      → IsConsistent sha256 S L s
      → NoCollision sha256 S L input
      → (compress sha256 S input min_bytes s stats).0.stored ≡ true
      → ((retrieve_response to_lowercase S
            (content_hash sha256 input)
            none
            (compress sha256 S input min_bytes s stats).1
            stats').0
          ≡ 200)
        × (get
              (lit "original_content")
              (retrieve_response to_lowercase S
                (content_hash sha256 input)
                none
                (compress sha256 S input min_bytes s stats).1
                stats').1
            ≡ some (string input))
  retrieve_response-compress sha256 L input min_bytes s stats stats' laws c n h =
      retrieve_response-stored (content_hash sha256 input) input _ stats'
        (content_hash-valid_hash sha256 input laws)
        (compress_stores sha256 S L input min_bytes s stats c n h)
