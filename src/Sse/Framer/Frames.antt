-- ===== src/Sse/Framer/Frames.antt =====
-- The blocks that a byte stream holds, apart from how it arrives and how it is drained.
use hr.Prelude.{
  ℕ, zero, suc, ◌+◌, ◌≤◌, ◌<◌, ◌≡◌, refl, ap, none, some, List, [], ◌∷◌, ◌++◌, arith, length,
  length-drop, take, drop, Bytes, Option-cases, inl, inr,
}
use hr.Sse.Framer.{find_from, find_double_newline}

-- The terminator that is found lies in the buffer and is at least two bytes long.
find_from_bounds :
    (i : ℕ) (buf : Bytes) (end term : ℕ)
    → find_from i buf ≡ some (end, term)
    → (i ≤ end) × (end + term ≤ i + length buf) × (2 ≤ term)
unfolding find_from
find_from_bounds i [] end term h = cc
find_from_bounds i (a ∷ []) end term h = cc
find_from_bounds i (a ∷ b ∷ []) end term h = ground arith
find_from_bounds i (a ∷ b ∷ c ∷ []) end term h = ground arith
find_from_bounds i (a ∷ b ∷ c ∷ d ∷ bs) end term h =
    ground (arith, find_from_bounds (suc i) (b ∷ c ∷ d ∷ bs) end term)

-- More bytes behind a terminator that is found do not move it.
find_from-append :
    (i : ℕ) (buf more : Bytes) (end term : ℕ)
    → find_from i buf ≡ some (end, term)
    → find_from i (buf ++ more) ≡ some (end, term)
unfolding find_from
find_from-append i [] more end term h = cc
find_from-append i (a ∷ []) more end term h = cc
find_from-append i (a ∷ b ∷ []) [] end term h = h
find_from-append i (a ∷ b ∷ []) (m ∷ []) end term h = ground arith
find_from-append i (a ∷ b ∷ []) (m ∷ n ∷ more) end term h = ground arith
find_from-append i (a ∷ b ∷ c ∷ []) [] end term h = h
find_from-append i (a ∷ b ∷ c ∷ []) (m ∷ more) end term h = ground arith
find_from-append i (a ∷ b ∷ c ∷ d ∷ bs) more end term h =
    ground (arith, find_from-append (suc i) (b ∷ c ∷ d ∷ bs) more end term)

pub find_bounds :
    (buf : Bytes) (end term : ℕ)
    → find_double_newline buf ≡ some (end, term)
    → (end + term ≤ length buf) × (2 ≤ term)
unfolding find_double_newline
find_bounds buf end term h = omega (arith, find_from_bounds 0 buf end term h)

-- `buf` splits into terminated blocks, in order, and a rest that holds no terminator.
pub data Frames : Bytes → List Bytes → Bytes → Type 0 where
  stop : {buf : Bytes} → find_double_newline buf ≡ none → Frames buf [] buf
  frame :
      {buf : Bytes} {blocks : List Bytes} {rest : Bytes} (end term : ℕ)
      → find_double_newline buf ≡ some (end, term)
      → Frames (drop (end + term) buf) blocks rest
      → Frames buf (take end buf ∷ blocks) rest

Frames-below :
    (k : ℕ) (buf : Bytes)
    → length buf < k
    → (blocks : List Bytes) × (rest : Bytes) × Frames buf blocks rest
Frames-below zero buf h = absurd (omega arith)
Frames-below (suc k) buf h = elim (Option-cases (find_double_newline buf)) [
  | inl e ↦ ([], buf, stop e)
  | inr ((end, term), e) ↦
      let (blocks, rest, later) =
        Frames-below k (drop (end + term) buf)
          (omega (arith, length-drop (end + term) buf, find_bounds buf end term e)) in
      (take end buf ∷ blocks, rest, frame end term e later)
]

-- Every buffer splits so.
pub Frames-total : (buf : Bytes) → (blocks : List Bytes) × (rest : Bytes) × Frames buf blocks rest
Frames-total buf = Frames-below (suc (length buf)) buf (omega arith)

take-append_le : (n : ℕ) (xs ys : Bytes) → n ≤ length xs → take n (xs ++ ys) ≡ take n xs
take-append_le zero xs ys h = refl
take-append_le (suc n) [] ys h = absurd (omega arith)
take-append_le (suc n) (x ∷ xs) ys h = ap (◌∷◌ x) (take-append_le n xs ys (omega arith))

drop-append_le : (n : ℕ) (xs ys : Bytes) → n ≤ length xs → drop n (xs ++ ys) ≡ drop n xs ++ ys
drop-append_le zero xs ys h = refl
drop-append_le (suc n) [] ys h = absurd (omega arith)
drop-append_le (suc n) (x ∷ xs) ys h = drop-append_le n xs ys (omega arith)

-- The blocks of a stream are those of its first part, and those of the rest of that part with what
-- arrives later.
pub Frames-append :
    {buf rest rest' : Bytes} {blocks blocks' : List Bytes} (more : Bytes)
    → Frames buf blocks rest
    → Frames (rest ++ more) blocks' rest'
    → Frames (buf ++ more) (blocks ++ blocks') rest'
unfolding find_double_newline
Frames-append more (stop e) later = later
Frames-append {buf} more (frame {blocks} end term e f) later =
    let bounds = find_bounds buf end term e in
    rw (← take-append_le end buf more (omega arith)) (
      frame end term (find_from-append 0 buf more end term e)
        (rw (drop-append_le (end + term) buf more (omega arith)) (Frames-append more f later)))
