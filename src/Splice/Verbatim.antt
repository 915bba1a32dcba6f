-- ===== src/Splice/Verbatim.antt =====
-- What `apply_replacements` writes, against a view of the body as kept and replaced stretches.
use mathlib.Core.List.{Perm, Pairwise}
use hr.Prelude.{
  ℕ, ◌+◌, ◌-◌, ◌≡◌, refl, ap, ◌∙◌, some, List, [], ◌∷◌, ◌++◌, append_assoc, append-nil, arith,
  le→leb, length, length-append, drop-length, take-length, Bytes,
}
use hr.Splice
use hr.Splice.{Replacement, sort_by_start, slice, splice, apply_replacements}
use hr.Splice.Order.{StartsApart, apply_replacements-perm}

-- A stretch that is kept, with the stretch behind it that is replaced and its new bytes.
pub record Piece : Type 0 where
  pub kept : Bytes
  pub old : Bytes
  pub new : Bytes

abbrev pub source_of : List Piece → Bytes → Bytes
source_of [] tail = tail
source_of (p ∷ ps) tail = p.kept ++ (p.old ++ source_of ps tail)

abbrev pub target_of : List Piece → Bytes → Bytes
target_of [] tail = tail
target_of (p ∷ ps) tail = p.kept ++ (p.new ++ target_of ps tail)

-- The replacements of the pieces, the first of which stands at byte `at`.
abbrev pub plan_of : ℕ → List Piece → List Replacement
plan_of at [] = []
plan_of at (p ∷ ps) =
    let from = at + length p.kept in
    let to = from + length p.old in record { start = from; end = to; bytes = p.new } ∷ plan_of to ps

slice-append :
    (pre mid post : Bytes) (at to : ℕ)
    → at ≡ length pre
    → to ≡ length pre + length mid
    → slice (pre ++ (mid ++ post)) at to ≡ some mid
unfolding slice
slice-append pre mid post at to e f =
    rw
      (
        le→leb at to (omega arith),
        le→leb to (length (pre ++ (mid ++ post)))
            (omega (arith, length-append pre (mid ++ post), length-append mid post)),
        e,
        drop-length pre (mid ++ post),
        (let g : to - length pre ≡ length mid = omega arith in g),
      )
      (ap some (take-length mid post))

slice_tail :
    (pre tail : Bytes) (at : ℕ)
    → at ≡ length pre
    → slice (pre ++ tail) at (length (pre ++ tail)) ≡ some tail
slice_tail pre tail at e =
    rw (append-nil tail) at
      (slice-append pre tail [] at (length (pre ++ tail)) e (length-append pre tail))

splice-plan_of :
    (ps : List Piece) (pre tail out body : Bytes) (at : ℕ)
    → at ≡ length pre
    → body ≡ pre ++ source_of ps tail
    → splice body at out (plan_of at ps) ≡ some (out ++ target_of ps tail)
unfolding splice
splice-plan_of [] pre tail out body at e b = rw (b, slice_tail pre tail at e, splice)
splice-plan_of (p ∷ ps) pre tail out body at e b =
    rw
      (
        b,
        slice-append pre p.kept (p.old ++ source_of ps tail) at (at + length p.kept) e
            (omega arith),
        splice,
      )
      (splice-plan_of ps (pre ++ (p.kept ++ p.old)) tail (out ++ (p.kept ++ p.new)) _ _
          (omega (arith, length-append pre (p.kept ++ p.old), length-append p.kept p.old))
          (b ∙ simp append_assoc)
        ∙ ap some (simp append_assoc))

sort-plan_of : (ps : List Piece) (at : ℕ) → sort_by_start (plan_of at ps) ≡ plan_of at ps
unfolding sort_by_start
sort-plan_of [] at = refl
sort-plan_of (p ∷ []) at = refl
sort-plan_of (p ∷ q ∷ ps) at =
    rw (sort-plan_of (q ∷ ps) (at + length p.kept + length p.old)) (ground arith)

abbrev pub old_bytes : List Piece → ℕ
old_bytes [] = 0
old_bytes (p ∷ ps) = length p.old + old_bytes ps

removed-plan_of :
    (ps : List Piece) (at : ℕ) → hr.Splice.removed (plan_of at ps) ≡ some (old_bytes ps)
unfolding hr.Splice.removed
removed-plan_of [] at = refl
removed-plan_of (p ∷ ps) at =
    let from = at + length p.kept in
    let to = from + length p.old in
    rw (le→leb from to (omega arith), removed-plan_of ps to)
      (ap (λ n. some (n + old_bytes ps)) (omega arith))

-- Whatever the order in which the replacements of the pieces were planned, the new body keeps every
-- byte outside the replaced stretches, in place and in order, and holds the new bytes in theirs,
-- where no two replacements start at the same byte. In particular nothing panics.
pub apply_replacements-plan_of :
    (ps : List Piece) (tail : Bytes) (rs : List Replacement)
    → Pairwise StartsApart rs
    → Perm rs (plan_of 0 ps)
    → apply_replacements (source_of ps tail) rs ≡ some (target_of ps tail)
apply_replacements-plan_of ps tail rs d p =
    apply_replacements-perm (source_of ps tail) p d
    ∙ (unfold apply_replacements in
        rw (sort-plan_of ps 0, removed-plan_of ps 0)
          (splice-plan_of ps [] tail [] (source_of ps tail) 0 refl refl))

abbrev pub added : List Piece → ℕ
added [] = 0
added (p ∷ ps) = length p.new + added ps

length-target_of :
    (ps : List Piece) (tail : Bytes)
    → length (target_of ps tail) + old_bytes ps ≡ length (source_of ps tail) + added ps
length-target_of [] tail = refl
length-target_of (p ∷ ps) tail = omega (
  arith,
  length-target_of ps tail,
  length-append p.kept (p.new ++ target_of ps tail),
  length-append p.new (target_of ps tail),
  length-append p.kept (p.old ++ source_of ps tail),
  length-append p.old (source_of ps tail),
)
