-- ===== src/Splice/Tests.antt =====
-- A body of eight bytes, two of whose stretches are replaced, planned from the back.
use mathlib.Core.List.{Perm, Pairwise, Permᴰ, Pairwise-singleton}
use mathlib.Core.List.Memᴰ as Member
use mathlib.Core.Logic.{∥∥₁_elim}
use hr.Prelude.{arith, refl, ap, ◌≡◌, ◌≢◌, ◌↔◌, All, some, none, List, [], ◌∷◌, lit, length}
use hr.Splice.{Replacement, sort_by_start, apply_replacements}
use hr.Splice.Order.{StartsApart, apply_replacements-perm}
use hr.Splice.Verbatim.{Piece, apply_replacements-plan_of}
use hr.Splice.Panics.{LiesIn, IsDisjoint, apply_replacements-IsDisjoint}

abbrev pieces : List Piece
pieces =
    record { kept = lit "ab"; old = lit "cd"; new = lit "XYZ" }
    ∷ record { kept = lit "e"; old = lit "f"; new = lit "" }
    ∷ []

abbrev first : Replacement
first = record { start = 2; end = 4; bytes = lit "XYZ" }

abbrev second : Replacement
second = record { start = 5; end = 6; bytes = lit "" }

clash : (r : Replacement) → r ≡ first → second.start ≢ r.start
clash r e same = let two : r.start ≡ 2 = ap (λ x. x.start) e in absurd (omega (arith, two, same))

starts_apart : Pairwise StartsApart (second ∷ first ∷ [])
starts_apart =
    Pairwise.cons (λ r m same. ∥∥₁_elim m (hlevel) (λ d. clash r (Member.eq_of_singleton d) same))
      (Pairwise-singleton StartsApart first)

swapped : Perm (second ∷ first ∷ []) (first ∷ second ∷ [])
swapped = ∣ Permᴰ.swap refl refl ∣₁

apply_replacements-plan_of_example :
    apply_replacements (lit "abcdefgh") (second ∷ first ∷ []) ≡ some (lit "abXYZegh")
unfolding lit
apply_replacements-plan_of_example =
    apply_replacements-plan_of pieces (lit "gh") (second ∷ first ∷ []) starts_apart swapped

apply_replacements-perm_example :
    apply_replacements (lit "abcdefgh") (second ∷ first ∷ [])
    ≡ apply_replacements (lit "abcdefgh") (first ∷ second ∷ [])
apply_replacements-perm_example = apply_replacements-perm (lit "abcdefgh") swapped starts_apart

apply_replacements-IsDisjoint_example :
    (apply_replacements (lit "abcdefgh") (second ∷ first ∷ []) ≢ none) ↔ (
      All (LiesIn (length (lit "abcdefgh"))) (sort_by_start (second ∷ first ∷ []))
      × IsDisjoint (sort_by_start (second ∷ first ∷ [])))
apply_replacements-IsDisjoint_example =
    apply_replacements-IsDisjoint (lit "abcdefgh") (second ∷ first ∷ [])
