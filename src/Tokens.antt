-- ===== src/Tokens.antt =====
-- src/compression.rs: `estimate_tokens` and `estimate_tokens_bytes`.
use hr.Prelude.{
  ℕ, ◌+◌, ◌*◌, ◌/◌, ◌≤◌, max, false, none, some, length, arith, from_utf8, Text, Bytes,
}
use hr.Prelude.Strings.{count_words}

-- `chars.div_ceil(4).max(whitespace_units).max(1)`
unfoldable pub estimate_tokens : Text → ℕ
unfolding count_words
estimate_tokens input = max (max ((length input + 3) / 4) (count_words false input)) 1

unfoldable pub estimate_tokens_bytes : Bytes → ℕ
unfolding estimate_tokens
estimate_tokens_bytes input = elim (from_utf8 input) [
  | some text ↦ estimate_tokens text
  | none ↦ max ((length input + 3) / 4) 1
]

-- A text is never free, and at most four characters go to a token.
pub estimate_tokens_pos : (t : Text) → 1 ≤ estimate_tokens t
unfolding estimate_tokens
estimate_tokens_pos t = omega arith

pub length-le-estimate_tokens : (t : Text) → length t ≤ 4 * estimate_tokens t
unfolding estimate_tokens
length-le-estimate_tokens t = omega arith
