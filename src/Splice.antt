-- ===== src/Splice.antt =====
-- src/compression.rs, "Byte-range surgery": `Replacement`, `apply_replacements`.
pub mod Order
pub mod Verbatim
pub mod Panics
mod Tests
use hr.Prelude.{
  ℕ, ◌+◌, ◌-◌, ◌&&◌, Option, none, some, List, [], ◌∷◌, ◌++◌, ltb, leb, if◌then◌else◌, length, take,
  drop, Bytes,
}
use hr.Json.{and_then}

-- One byte-range replacement, `start` and `end` the two fields of `range`.
pub record Replacement : Type 0 where
  pub start : ℕ
  pub end : ℕ
  pub bytes : Bytes

-- `sort_by_key(|replacement| replacement.range.0)`: a stable sort by the start.
unfoldable pub insert : Replacement → List Replacement → List Replacement
insert r [] = r ∷ []
insert r (s ∷ ss) = if leb r.start s.start then r ∷ s ∷ ss else s ∷ insert r ss

unfoldable pub sort_by_start : List Replacement → List Replacement
unfolding insert
sort_by_start [] = []
sort_by_start (r ∷ rs) = insert r (sort_by_start rs)

-- `&original[from..to]`, with `none` for the panic of a range that is no range of `original`.
unfoldable pub slice : Bytes → ℕ → ℕ → Option Bytes
slice original from to =
    if leb from to && leb to (length original)
    then some (take (to - from) (drop from original))
    else none

-- The loop over the sorted replacements, and the copy of the tail behind it.
unfoldable pub splice : Bytes → ℕ → Bytes → List Replacement → Option Bytes
splice original cursor out [] = elim (slice original cursor (length original)) [
  | none ↦ none
  | some rest ↦ some (out ++ rest)
]
splice original cursor out (r ∷ rs) = elim (slice original cursor r.start) [
  | none ↦ none
  | some kept ↦ splice original r.end (out ++ (kept ++ r.bytes)) rs
]

-- The number of bytes that are replaced, for the capacity of the result: `none` where the subtraction
-- panics, as it does for a reversed span in a build with overflow checks. Where the sum itself leaves
-- the 64 bits, the spans overlap or leave the body, and a slice panics behind it.
unfoldable pub removed : List Replacement → Option ℕ
removed [] = some 0
removed (r ∷ rs) =
    let rest = removed rs in
    if leb r.start r.end then and_then rest (λ n. some ((r.end - r.start) + n)) else none

-- `none` is a panic: of the subtraction, or of a slice where spans overlap or leave the body.
unfoldable pub apply_replacements : Bytes → List Replacement → Option Bytes
unfolding sort_by_start removed slice splice
apply_replacements original rs =
    let sorted = sort_by_start rs in and_then (removed sorted) (λ _. splice original 0 [] sorted)
