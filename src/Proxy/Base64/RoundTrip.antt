-- ===== src/Proxy/Base64/RoundTrip.antt =====
-- `decode_base64_url` against the encoding of RFC 4648, section 5.
use hr.Prelude.{
  ℕ, ◌+◌, ◌-◌, ◌*◌, ◌/◌, ◌%◌, ◌^◌, ◌<◌, ltb, ◌≡◌, ◌⊎◌, inl, inr, refl, sym, ap, ◌∙◌, false, some,
  [], ◌∷◌, ◌++◌, append_assoc, append-nil, ◌==◌, if◌then◌else◌, arith, All, Text, Bytes,
}
use hr.Prelude.Strings.{as_bytes}
use hr.Proxy.Base64.{base64_url_value, decode_from, decode_base64_url}

-- The character of six bits.
unfoldable pub encode_value : ℕ → ℕ
encode_value v =
    if ltb v 26
    then v + b'A'
    else if ltb v 52
    then v - 26 + b'a'
    else if ltb v 62
    then v - 52 + b'0'
    else if v == 62
    then b'-'
    else b'_'

unfoldable pub encode : Bytes → Bytes
unfolding encode_value
encode [] = []
encode (a ∷ []) = encode_value (a / 4) ∷ encode_value (a % 4 * 16) ∷ []
encode (a ∷ b ∷ []) =
    encode_value (a / 4) ∷ encode_value (a % 4 * 16 + b / 16) ∷ encode_value (b % 16 * 4) ∷ []
encode (a ∷ b ∷ c ∷ rest) =
    encode_value (a / 4)
    ∷ encode_value (a % 4 * 16 + b / 16)
    ∷ encode_value (b % 16 * 4 + c / 64)
    ∷ encode_value (c % 64)
    ∷ encode rest

base64_url_value-encode_value : (v : ℕ) → v < 64 → base64_url_value (encode_value v) ≡ some v
unfolding base64_url_value encode_value
base64_url_value-encode_value v h = ground arith

encode_value-not_pad : (v : ℕ) → v < 64 → (encode_value v == b'=') ≡ false
unfolding encode_value
encode_value-not_pad v h = ground arith

-- What a character does with 0, 6, 4 or 2 bits in the buffer.
decode_from-first :
    (out input : Bytes) (v : ℕ)
    → v < 64
    → decode_from out 0 0 (encode_value v ∷ input) ≡ decode_from out v 6 input
unfolding decode_from
decode_from-first out input v h =
    let plain : 0 + v ≡ v = omega arith in
    rw (encode_value-not_pad v h, base64_url_value-encode_value v h) refl
    ∙ ap (λ b. decode_from out b 6 input) plain

decode_from-second :
    (out input : Bytes) (buffer v : ℕ)
    → v < 64
    → decode_from out buffer 6 (encode_value v ∷ input)
      ≡ decode_from
          (out ++ (buffer * 64 % 2 ^ 32 + v) / 16 % 256 ∷ [])
          ((buffer * 64 % 2 ^ 32 + v) % 16)
          4
          input
unfolding decode_from
decode_from-second out input buffer v h =
    rw (encode_value-not_pad v h, base64_url_value-encode_value v h) refl

decode_from-third :
    (out input : Bytes) (buffer v : ℕ)
    → v < 64
    → decode_from out buffer 4 (encode_value v ∷ input)
      ≡ decode_from
          (out ++ (buffer * 64 % 2 ^ 32 + v) / 4 % 256 ∷ [])
          ((buffer * 64 % 2 ^ 32 + v) % 4)
          2
          input
unfolding decode_from
decode_from-third out input buffer v h =
    rw (encode_value-not_pad v h, base64_url_value-encode_value v h) refl

decode_from-fourth :
    (out input : Bytes) (buffer v : ℕ)
    → v < 64
    → decode_from out buffer 2 (encode_value v ∷ input)
      ≡ decode_from
          (out ++ (buffer * 64 % 2 ^ 32 + v) / 1 % 256 ∷ [])
          ((buffer * 64 % 2 ^ 32 + v) % 1)
          0
          input
unfolding decode_from
decode_from-fourth out input buffer v h =
    rw (encode_value-not_pad v h, base64_url_value-encode_value v h) refl

-- The end of the input, or the padding.
abbrev pub IsEnd : Bytes → Type 0
IsEnd tail = (tail ≡ []) ⊎ ((rest : Bytes) × (tail ≡ b'=' ∷ rest))

decode_from-end :
    (out tail : Bytes) (buffer bits : ℕ) → IsEnd tail → decode_from out buffer bits tail ≡ some out
unfolding decode_from
decode_from-end out tail buffer bits (inl e) = rw e refl
decode_from-end out tail buffer bits (inr (rest, e)) = rw e refl

first_byte : (a w : ℕ) → a < 256 → w < 16 → (a / 4 * 64 % 2 ^ 32 + (a % 4 * 16 + w)) / 16 % 256 ≡ a
first_byte a w h k = omega arith

first_rest : (a w : ℕ) → a < 256 → w < 16 → (a / 4 * 64 % 2 ^ 32 + (a % 4 * 16 + w)) % 16 ≡ w
first_rest a w h k = omega arith

second_byte : (b w : ℕ) → b < 256 → w < 4 → (b / 16 * 64 % 2 ^ 32 + (b % 16 * 4 + w)) / 4 % 256 ≡ b
second_byte b w h k = omega arith

second_rest : (b w : ℕ) → b < 256 → w < 4 → (b / 16 * 64 % 2 ^ 32 + (b % 16 * 4 + w)) % 4 ≡ w
second_rest b w h k = omega arith

third_byte : (c : ℕ) → c < 256 → (c / 64 * 64 % 2 ^ 32 + c % 64) / 1 % 256 ≡ c
third_byte c h = omega arith

third_rest : (c : ℕ) → (c / 64 * 64 % 2 ^ 32 + c % 64) % 1 ≡ 0
third_rest c = omega arith

-- Two characters give a byte and leave four bits, the third gives a byte and leaves two, the fourth
-- gives a byte and leaves none.
two_characters :
    (out input : Bytes) (a w : ℕ)
    → a < 256
    → w < 16
    → decode_from out 0 0 (encode_value (a / 4) ∷ encode_value (a % 4 * 16 + w) ∷ input)
      ≡ decode_from (out ++ a ∷ []) w 4 input
two_characters out input a w h k =
    decode_from-first out (encode_value (a % 4 * 16 + w) ∷ input) (a / 4) (omega arith)
    ∙ decode_from-second out input (a / 4) (a % 4 * 16 + w) (omega arith)
    ∙ cc (first_byte a w h k, first_rest a w h k)

three_characters :
    (out input : Bytes) (a b w : ℕ)
    → a < 256
    → b < 256
    → w < 4
    → decode_from out 0 0 (
        encode_value (a / 4)
        ∷ encode_value (a % 4 * 16 + b / 16)
        ∷ encode_value (b % 16 * 4 + w)
        ∷ input)
      ≡ decode_from (out ++ a ∷ b ∷ []) w 2 input
three_characters out input a b w h k l =
    two_characters out (encode_value (b % 16 * 4 + w) ∷ input) a (b / 16) h (omega arith)
    ∙ decode_from-third (out ++ a ∷ []) input (b / 16) (b % 16 * 4 + w) (omega arith)
    ∙ cc (second_byte b w k l, second_rest b w k l, append_assoc out (a ∷ []) (b ∷ []))

four_characters :
    (out input : Bytes) (a b c : ℕ)
    → a < 256
    → b < 256
    → c < 256
    → decode_from out 0 0 (
        encode_value (a / 4)
        ∷ encode_value (a % 4 * 16 + b / 16)
        ∷ encode_value (b % 16 * 4 + c / 64)
        ∷ encode_value (c % 64)
        ∷ input)
      ≡ decode_from (out ++ a ∷ b ∷ c ∷ []) 0 0 input
four_characters out input a b c h k l =
    three_characters out (encode_value (c % 64) ∷ input) a b (c / 64) h k (omega arith)
    ∙ decode_from-fourth (out ++ a ∷ b ∷ []) input (c / 64) (c % 64) (omega arith)
    ∙ cc (third_byte c l, third_rest c, append_assoc out (a ∷ b ∷ []) (c ∷ []))

decode_from-encode :
    (bytes out tail : Bytes)
    → All (λ b. b < 256) bytes
    → IsEnd tail
    → decode_from out 0 0 (encode bytes ++ tail) ≡ some (out ++ bytes)
unfolding encode
decode_from-encode [] out tail h e = decode_from-end out tail 0 0 e ∙ ap some (sym (append-nil out))
decode_from-encode (a ∷ []) out tail (h, _) e =
    let last : a % 4 * 16 ≡ a % 4 * 16 + 0 = omega arith in
    ap (λ v. decode_from out 0 0 (encode_value (a / 4) ∷ encode_value v ∷ tail)) last
    ∙ two_characters out tail a 0 h (omega arith)
    ∙ decode_from-end (out ++ a ∷ []) tail 0 4 e
decode_from-encode (a ∷ b ∷ []) out tail (h, (k, _)) e =
    let last : b % 16 * 4 ≡ b % 16 * 4 + 0 = omega arith in
    ap
      (λ v.
        decode_from out 0 0
          (encode_value (a / 4) ∷ encode_value (a % 4 * 16 + b / 16) ∷ encode_value v ∷ tail))
      last
    ∙ three_characters out tail a b 0 h k (omega arith)
    ∙ decode_from-end (out ++ a ∷ b ∷ []) tail 0 2 e
decode_from-encode (a ∷ b ∷ c ∷ rest) out tail (h, (k, (l, more))) e =
    four_characters out (encode rest ++ tail) a b c h k l
    ∙ decode_from-encode rest (out ++ a ∷ b ∷ c ∷ []) tail more e
    ∙ ap some (append_assoc out (a ∷ b ∷ c ∷ []) rest)

-- A text whose bytes are the base64url encoding of some bytes, with the end of the input or a `=`
-- behind it, decodes to these bytes.
pub decode_base64_url-encode :
    (bytes tail : Bytes) (input : Text)
    → All (λ b. b < 256) bytes
    → IsEnd tail
    → as_bytes input ≡ encode bytes ++ tail
    → decode_base64_url input ≡ some bytes
unfolding decode_base64_url
decode_base64_url-encode bytes tail input h e a =
    ap (decode_from [] 0 0) a ∙ decode_from-encode bytes [] tail h e
