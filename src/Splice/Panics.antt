-- ===== src/Splice/Panics.antt =====
-- When `apply_replacements` panics.
use hr.Prelude.{
  ℕ, ◌+◌, ◌-◌, ◌≤◌, ◌≡◌, ◌≢◌, ◌↔◌, inl, inr, refl, none, some, List, [], ◌∷◌, ◌++◌, All, Bool-cases,
  Option-cases, arith, le→leb, leb→le, leb, length, take, drop, Bytes,
}
use hr.Splice.{Replacement, sort_by_start, removed, slice, splice, apply_replacements}

-- A span that is not reversed, inside a body of `total` bytes.
abbrev pub LiesIn : ℕ → Replacement → Type 0
LiesIn total r = (r.start ≤ r.end) × (r.end ≤ total)

-- Of any two spans, the one in front ends before the other starts.
abbrev pub IsDisjoint : List Replacement → Type 0
IsDisjoint [] = Unit
IsDisjoint (r ∷ rs) = All (λ s. r.end ≤ s.start) rs × IsDisjoint rs

-- No span starts before the end of the one next to it in front, none is reversed, and none leaves a
-- body of `total` bytes.
abbrev pub Fits : ℕ → ℕ → List Replacement → Type 0
Fits total cursor [] = cursor ≤ total
Fits total cursor (r ∷ rs) = (cursor ≤ r.start) × (r.start ≤ r.end) × Fits total r.end rs

Fits-le : (total cursor : ℕ) (rs : List Replacement) → Fits total cursor rs → cursor ≤ total
Fits-le total cursor [] f = f
Fits-le total cursor (r ∷ rs) (a, b, f) = omega (arith, Fits-le total r.end rs f)

removed-Fits :
    (total cursor : ℕ) (rs : List Replacement)
    → Fits total cursor rs
    → (n : ℕ) × (removed rs ≡ some n)
unfolding removed
removed-Fits total cursor [] f = (0, refl)
removed-Fits total cursor (r ∷ rs) (a, b, f) =
    let (n, e) = removed-Fits total r.end rs f in
    ((r.end - r.start) + n, rw (le→leb r.start r.end b, e) refl)

splice-Fits :
    (original : Bytes) (cursor : ℕ) (out : Bytes) (rs : List Replacement)
    → Fits (length original) cursor rs
    → splice original cursor out rs ≢ none
unfolding splice slice
splice-Fits original cursor out [] f = ground arith
splice-Fits original cursor out (r ∷ rs) (a, b, f) = ground (
  arith,
  Fits-le (length original) r.end rs f,
  splice-Fits original r.end (out ++ (take (r.start - cursor) (drop cursor original) ++ r.bytes)) rs
      f,
)

Fits-splice :
    (original : Bytes) (cursor : ℕ) (out : Bytes) (rs : List Replacement) (n : ℕ)
    → removed rs ≡ some n
    → splice original cursor out rs ≢ none
    → Fits (length original) cursor rs
unfolding splice slice removed
Fits-splice original cursor out [] n e h = ground arith
Fits-splice original cursor out (r ∷ rs) n e h = elim (Bool-cases (leb r.start r.end)) [
  | inr reversed ↦ absurd (cc (rw reversed at e))
  | inl straight ↦ elim (Option-cases (removed rs)) [
    | inl lost ↦ absurd (cc (rw (straight, lost) at e))
    | inr (m, f) ↦
        let rest =
          Fits-splice original r.end
            (out ++ (take (r.start - cursor) (drop cursor original) ++ r.bytes)) rs m f in
        (ground arith, leb→le r.start r.end straight, ground (arith, rest))
  ]
]

All-later :
    (a b : ℕ) (rs : List Replacement)
    → a ≤ b
    → All (λ s. b ≤ s.start) rs
    → All (λ s. a ≤ s.start) rs
All-later a b [] le h = tt
All-later a b (r ∷ rs) le h = (omega (arith, h.0), All-later a b rs le h.1)

-- The chain of neighbours, and the spans taken two by two.
Fits-IsDisjoint :
    (total cursor : ℕ) (rs : List Replacement)
    → Fits total cursor rs
    → All (λ s. cursor ≤ s.start) rs × All (LiesIn total) rs × IsDisjoint rs
Fits-IsDisjoint total cursor [] f = (tt, tt, tt)
Fits-IsDisjoint total cursor (r ∷ rs) (a, b, f) =
    let (later, inside, apart) = Fits-IsDisjoint total r.end rs f in
    (
      (a, All-later cursor r.end rs (omega arith) later),
      ((b, Fits-le total r.end rs f), inside),
      (later, apart),
    )

IsDisjoint-Fits :
    (total cursor : ℕ) (rs : List Replacement)
    → cursor ≤ total
    → All (λ s. cursor ≤ s.start) rs
    → All (LiesIn total) rs
    → IsDisjoint rs
    → Fits total cursor rs
IsDisjoint-Fits total cursor [] le later inside apart = le
IsDisjoint-Fits total cursor (r ∷ rs) le later inside apart =
    (later.0, inside.0.0, IsDisjoint-Fits total r.end rs inside.0.1 apart.0 inside.1 apart.1)

from_zero : (rs : List Replacement) → All (λ s. 0 ≤ s.start) rs
from_zero [] = tt
from_zero (r ∷ rs) = (omega arith, from_zero rs)

module _ (original : Bytes) (rs : List Replacement) where
  pub fitting : Fits (length original) 0 (sort_by_start rs) → apply_replacements original rs ≢ none
  unfolding apply_replacements
  fitting f =
      let (n, e) = removed-Fits (length original) 0 (sort_by_start rs) f in
      rw e (splice-Fits original 0 [] (sort_by_start rs) f)

  fits : apply_replacements original rs ≢ none → Fits (length original) 0 (sort_by_start rs)
  unfolding apply_replacements
  fits h = elim (Option-cases (removed (sort_by_start rs))) [
    | inl e ↦ absurd (rw e at h refl)
    | inr (n, e) ↦ Fits-splice original 0 [] (sort_by_start rs) n e (rw e at h)
  ]

  -- `apply_replacements` gives a body exactly when no span is reversed, each lies inside the body, and
  -- of any two in the order of their starts the one in front ends before the other starts; otherwise it
  -- panics, as a build with overflow checks does for a reversed span.
  pub apply_replacements-IsDisjoint :
      (apply_replacements original rs ≢ none)
      ↔ (All (LiesIn (length original)) (sort_by_start rs) × IsDisjoint (sort_by_start rs))
  apply_replacements-IsDisjoint = (
    λ h.
        let (_, inside, apart) = Fits-IsDisjoint (length original) 0 (sort_by_start rs) (fits h) in
        (inside, apart),
    λ h. fitting (
        IsDisjoint-Fits (length original) 0 (sort_by_start rs) (omega arith)
          (from_zero (sort_by_start rs)) h.0 h.1),
  )
