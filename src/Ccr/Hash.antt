-- ===== src/Ccr/Hash.antt =====
-- The shape of a content hash.
use hr.Prelude.{
  ℕ, ◌*◌, ◌/◌, ◌%◌, ◌<◌, ◌≤◌, ◌≡◌, refl, Bool, true, ◌&&◌, ◌||◌, List, [], ◌∷◌, leb, arith, All,
  all, length, take, length-take, zero, suc, Text, Bytes,
}
use hr.Prelude.Strings.{as_bytes}
use hr.Ccr.{hex_digit, hex_byte, hex, content_hash}

-- `char::is_ascii_hexdigit`
unfoldable pub is_ascii_hexdigit : ℕ → Bool
is_ascii_hexdigit c =
    (leb b'0' c && leb c b'9') || ((leb b'a' c && leb c b'f') || (leb b'A' c && leb c b'F'))

hex_digit-is_ascii_hexdigit : (d : ℕ) → d < 16 → is_ascii_hexdigit (hex_digit d) ≡ true
unfolding hex_digit is_ascii_hexdigit
hex_digit-is_ascii_hexdigit d h = ground arith

all-hex : (bs : Bytes) → All (λ b. b < 256) bs → all is_ascii_hexdigit (hex bs) ≡ true
unfolding hex hex_byte
all-hex [] h = refl
all-hex (b ∷ bs) (h, hs) =
    rw
      (
        hex_digit-is_ascii_hexdigit (b / 16) (omega arith),
        hex_digit-is_ascii_hexdigit (b % 16) (omega arith),
        all-hex bs hs,
      )
      refl

length-hex : (bs : Bytes) → length (hex bs) ≡ 2 * length bs
unfolding hex hex_byte
length-hex [] = omega arith
length-hex (b ∷ bs) = omega (arith, length-hex bs)

-- What is relied on of SHA-256: a digest has 32 bytes.
pub record Sha256Laws (sha256 : Bytes → Bytes) : Type 0 where
  pub digest_length : (bs : Bytes) → length (sha256 bs) ≡ 32
  pub digest_bytes : (bs : Bytes) → All (λ b. b < 256) (sha256 bs)

All-take : (P : ℕ → Type 0) (n : ℕ) (l : List ℕ) → All P l → All P (take n l)
All-take P zero l h = tt
All-take P (suc n) [] h = tt
All-take P (suc n) (x ∷ xs) h = (h.0, All-take P n xs h.1)

-- The first `n` bytes of a digest give `2 * n` digits.
pub hex-IsDigits :
    (n : ℕ) (sha256 : Bytes → Bytes) (input : Bytes)
    → Sha256Laws sha256
    → n ≤ 32
    → (length (hex (take n (sha256 input))) ≡ 2 * n)
      × (all is_ascii_hexdigit (hex (take n (sha256 input))) ≡ true)
hex-IsDigits n sha256 input laws h =
    let short : length (take n (sha256 input)) ≡ n =
      omega (arith, length-take n (sha256 input), laws.digest_length input) in
    (
      omega (arith, length-hex (take n (sha256 input)), short),
      all-hex (take n (sha256 input)) (All-take _ n (sha256 input) (laws.digest_bytes input)),
    )

pub content_hash-hex :
    (sha256 : Bytes → Bytes) (input : Text)
    → Sha256Laws sha256
    → (length (content_hash sha256 input) ≡ 24)
      × (all is_ascii_hexdigit (content_hash sha256 input) ≡ true)
unfolding content_hash
content_hash-hex sha256 input laws = hex-IsDigits 12 sha256 (as_bytes input) laws (omega arith)
