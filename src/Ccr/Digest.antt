-- ===== src/Ccr/Digest.antt =====
-- A digest that tells one text from all others.
use hr.Prelude.{
  ℕ, zero, suc, ◌+◌, ◌/◌, ◌%◌, ◌<◌, ◌≡◌, ◌≢◌, inl, inr, refl, sym, ap, ◌∙◌, true, List, [], ◌∷◌,
  ◌++◌, ltb, ltb→lt, if◌then◌else◌, Bool-cases, arith, All, all, take, eq_text, eq_text_iff,
  eq_text_refl, lit, Text, Bytes,
}
use hr.Prelude.Strings.{as_bytes, encode_char}
use hr.Ccr.{hex, hex_byte, hex_digit, content_hash}
use hr.Ccr.Hash.{Sha256Laws}

abbrev repeat : ℕ → ℕ → List ℕ
repeat zero x = []
repeat (suc n) x = x ∷ repeat n x

abbrev pub sample : Text
sample = lit "The quick brown fox jumps over the lazy dog twice"

unfoldable pub digest : Bytes → Bytes
digest bs = if eq_text bs (as_bytes sample) then repeat 32 1 else repeat 32 0

pub digest-Sha256Laws : Sha256Laws digest
unfolding digest
digest-Sha256Laws = record {
  digest_length = λ bs. elim (Bool-cases (eq_text bs (as_bytes sample))) [
    | inl same ↦ rw same refl
    | inr apart ↦ rw apart refl
  ];
  digest_bytes = λ bs. elim (Bool-cases (eq_text bs (as_bytes sample))) [
    | inl same ↦ rw same (repeat-All 32 1 (omega arith))
    | inr apart ↦ rw apart (repeat-All 32 0 (omega arith))
  ];
}
  where
    repeat-All : (n x : ℕ) → x < 256 → All (λ b. b < 256) (repeat n x)
    repeat-All zero x h = tt
    repeat-All (suc n) x h = (h, repeat-All n x h)

-- A text of ASCII is the only text with its bytes.
ascii_first :
    (c d : ℕ) (rest rest' : Bytes)
    → d < 128
    → encode_char c ++ rest ≡ d ∷ rest'
    → (c ≡ d) × (rest ≡ rest')
unfolding encode_char
ascii_first c d rest rest' h e = elim (Bool-cases (ltb c 0x80)) [
  | inl small ↦ let k : c ∷ rest ≡ d ∷ rest' = rw small at e in (cc, cc)
  | inr large ↦ elim (Bool-cases (ltb c 0x800)) [
    | inl two ↦
        let k : (0xc0 + c / 64) ∷ (0x80 + c % 64) ∷ rest ≡ d ∷ rest' = rw (large, two) at e in
        let first : 0xc0 + c / 64 ≡ d = cc in absurd (omega arith)
    | inr more ↦ elim (Bool-cases (ltb c 0x10000)) [
      | inl three ↦
          let k : (0xe0 + c / 4096) ∷ (0x80 + c / 64 % 64) ∷ (0x80 + c % 64) ∷ rest ≡ d ∷ rest' =
            rw (large, more, three) at e in
          let first : 0xe0 + c / 4096 ≡ d = cc in absurd (omega arith)
      | inr four ↦
          let k : (0xf0 + c / 262144)
                ∷ (0x80 + c / 4096 % 64)
                ∷ (0x80 + c / 64 % 64)
                ∷ (0x80 + c % 64)
                ∷ rest
              ≡ d ∷ rest' =
            rw (large, more, four) at e in
          let first : 0xf0 + c / 262144 ≡ d = cc in absurd (omega arith)
    ]
  ]
]

ascii_bytes : (t : Text) → all (λ c. ltb c 128) t ≡ true → as_bytes t ≡ t
unfolding as_bytes encode_char
ascii_bytes [] h = refl
ascii_bytes (c ∷ cs) h = elim (Bool-cases (ltb c 128)) [
  | inl small ↦ rw small (ap (◌∷◌ c) (ascii_bytes cs (rw small at h)))
  | inr large ↦ absurd (cc (rw large at h))
]

nonempty_encode : (c : ℕ) (rest : Bytes) → (encode_char c ++ rest) ≢ []
unfolding encode_char
nonempty_encode c rest h = ground arith

as_bytes-ascii : (t other : Text) → All (λ c. c < 128) t → as_bytes other ≡ t → other ≡ t
unfolding as_bytes
as_bytes-ascii [] [] h e = refl
as_bytes-ascii [] (c ∷ cs) h e = absurd (nonempty_encode c (as_bytes cs) e)
as_bytes-ascii (d ∷ ds) [] h e = absurd (cc)
as_bytes-ascii (d ∷ ds) (c ∷ cs) (h, hs) e =
    let (same, rest) = ascii_first c d (as_bytes cs) ds h e in
    let later = as_bytes-ascii ds cs hs rest in cc

all-All : (t : Text) → all (λ c. ltb c 128) t ≡ true → All (λ c. c < 128) t
all-All [] h = tt
all-All (c ∷ cs) h = elim (Bool-cases (ltb c 128)) [
  | inl small ↦ (ltb→lt c 128 small, all-All cs (rw small at h))
  | inr large ↦ absurd (cc (rw large at h))
]

sample_ascii : all (λ c. ltb c 128) sample ≡ true
unfolding lit
sample_ascii = refl

abbrev second : Text → ℕ
second (a ∷ b ∷ rest) = b
second _ = 0

digit_one : second (hex (take 12 (repeat 32 1))) ≡ b'1'
unfolding hex hex_byte hex_digit
digit_one = refl

digit_zero : second (hex (take 12 (repeat 32 0))) ≡ b'0'
unfolding hex hex_byte hex_digit
digit_zero = refl

-- No other text has the hash of the sample.
pub sample_alone :
    (other : Text) → content_hash digest other ≡ content_hash digest sample → other ≡ sample
unfolding content_hash digest
sample_alone other e = elim (Bool-cases (eq_text (as_bytes other) (as_bytes sample))) [
  | inl same ↦
      as_bytes-ascii sample other (all-All sample sample_ascii)
        ((eq_text_iff (as_bytes other) (as_bytes sample)).0 same ∙ ascii_bytes sample sample_ascii)
  | inr apart ↦
      let refl_true = eq_text_refl (as_bytes sample) in
      let digits : hex (take 12 (repeat 32 0)) ≡ hex (take 12 (repeat 32 1)) =
        rw (apart, refl_true) at e in
      let clash : b'0' ≡ b'1' = sym digit_zero ∙ ap second digits ∙ digit_one in
      absurd (omega (arith, clash))
]
