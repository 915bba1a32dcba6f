-- ===== src/Splice/Order.antt =====
-- `apply_replacements` sorts first, so the order in which spans were planned does not matter.
use mathlib.Core.List.{Perm, Pairwise, Permᴰ, mem-cons_self}
use mathlib.Core.List.Permᴰ as Permutation
use mathlib.Core.Logic.{∥∥₁_elim}
use hr.Prelude.{◌≡◌, ◌≢◌, refl, sym, ap, ◌∙◌, List, [], ◌∷◌, arith, Bytes}
use hr.Json.{and_then}
use hr.Splice.{Replacement, insert, sort_by_start, removed, splice, apply_replacements}

-- Two spans that start at different bytes.
abbrev pub StartsApart : Replacement → Replacement → Type 0
StartsApart r s = r.start ≢ s.start

insert_comm :
    (r s : Replacement) (l : List Replacement)
    → StartsApart r s
    → insert r (insert s l) ≡ insert s (insert r l)
unfolding insert
insert_comm r s [] h = ground arith
insert_comm r s (x ∷ l) h = ground (arith, insert_comm r s l)

sort-perm :
    {l m : List Replacement}
    → Permᴰ l m
    → Pairwise StartsApart l
    → sort_by_start l ≡ sort_by_start m
unfolding sort_by_start
sort-perm Permᴰ.nil d = refl
sort-perm (Permᴰ.cons e p) (Pairwise.cons _ d) = cc (e, sort-perm p d)
sort-perm (Permᴰ.swap {a} {b} {l} e f) (Pairwise.cons h _) =
    cc (e, f, insert_comm a b (sort_by_start l) (h b (mem-cons_self)))
sort-perm (Permᴰ.trans p q) d =
    sort-perm p d ∙ sort-perm q (Permutation.pairwise (hlevel) (λ x y n e. n (sym e)) p d)

-- Two plans of the same replacements, in any two orders, give the same body or the same panic,
-- where no two of them start at the same byte.
pub apply_replacements-perm :
    {l m : List Replacement} (original : Bytes)
    → Perm l m
    → Pairwise StartsApart l
    → apply_replacements original l ≡ apply_replacements original m
unfolding apply_replacements
apply_replacements-perm original p d =
    ∥∥₁_elim p (hlevel)
      (λ q. ap (λ rs. and_then (removed rs) (λ _. splice original 0 [] rs)) (sort-perm q d))
