-- ===== src/Session/Sticky.antt =====
-- What the sticky merge of beta tokens promises.
use hr.Prelude.{
  ◌≤◌, ◌<◌, ◌≡◌, ◌≢◌, sym, ap, ◌∙◌, Bool, true, false, Option, List, [], ◌∷◌, ◌++◌, append-nil,
  append_assoc, if◌then◌else◌, any, length, length-append, arith, Bool-cases, inl, inr, All,
  All-append, Text, lit, eq_text_refl,
}
use hr.Prelude.Strings.{join, eq_ignore_ascii_case, to_ascii_lowercase}
use mathlib.Core.Path.{subst}
use hr.Session.{Key, eq_key, eq_key_iff, Inner}
use hr.Session.Betas.{Betas, max_beta_sessions, client_tokens, take_entry, merge, sticky_betas}
use hr.Session.Lru.{
  Lacks, HasUniqueKeys, take_entry-All, evict-All, take_entry-HasUniqueKeys, take_entry-Lacks,
  evict-HasUniqueKeys, length-evict, take_entry-evict, take_entry-append_ne,
  take_entry-take_entry_ne, evict_small, length-take_entry,
}

-- Some of a list, in its order.
pub data Sublist {ℓ} {A : Type ℓ} : List A → List A → Type ℓ where
  sub_nil : Sublist [] []
  sub_skip : {x : A} {xs ys : List A} → Sublist xs ys → Sublist xs (x ∷ ys)
  sub_keep : {x : A} {xs ys : List A} → Sublist xs ys → Sublist (x ∷ xs) (x ∷ ys)

-- Tokens of which no two differ in case only.
abbrev pub IsDistinct : List Text → Type 0
IsDistinct [] = Unit
IsDistinct (t ∷ ts) = All (λ u. eq_ignore_ascii_case t u ≡ false) ts × IsDistinct ts

abbrev pub holds : List Text → Text → Bool
holds merged token = any (λ seen. eq_ignore_ascii_case seen token) merged

IsDistinct-concat :
    (ts : List Text) (u : Text) → holds ts u ≡ false → IsDistinct ts → IsDistinct (ts ++ u ∷ [])
IsDistinct-concat [] u h d = (tt, tt)
IsDistinct-concat (t ∷ ts) u h d = elim (Bool-cases (eq_ignore_ascii_case t u)) [
  | inl same ↦ absurd (cc (rw same at h))
  | inr apart ↦ (
    All-append (λ v. eq_ignore_ascii_case t v ≡ false) ts (u ∷ []) d.0 (apart, tt),
    IsDistinct-concat ts u (rw apart at h) d.1,
  )
]

merge-IsDistinct :
    (merged tokens : List Text) → IsDistinct merged → IsDistinct (merge merged tokens)
unfolding merge
merge-IsDistinct merged [] d = d
merge-IsDistinct merged (t ∷ ts) d = elim (Bool-cases (holds merged t)) [
  | inl seen ↦ rw seen (merge-IsDistinct merged ts d)
  | inr unseen ↦
      rw unseen (merge-IsDistinct (merged ++ t ∷ []) ts (IsDistinct-concat merged t unseen d))
]

-- The tokens already known stay in front, in order, and some of the new ones come behind them.
merge-append :
    (merged tokens : List Text)
    → (fresh : List Text) × (merge merged tokens ≡ merged ++ fresh) × Sublist fresh tokens
unfolding merge
merge-append merged [] = ([], sym (append-nil merged), sub_nil)
merge-append merged (t ∷ ts) = elim (Bool-cases (holds merged t)) [
  | inl seen ↦
      let (fresh, e, some_of) = merge-append merged ts in (fresh, rw seen e, sub_skip some_of)
  | inr unseen ↦
      let (fresh, e, some_of) = merge-append (merged ++ t ∷ []) ts in
      (t ∷ fresh, rw unseen (e ∙ append_assoc merged (t ∷ []) fresh), sub_keep some_of)
]

holds-append : (xs ys : List Text) (t : Text) → holds xs t ≡ true → holds (xs ++ ys) t ≡ true
holds-append [] ys t h = cc
holds-append (x ∷ xs) ys t h = ground (arith, holds-append xs ys t)

holds-concat : (xs : List Text) (t : Text) → holds (xs ++ t ∷ []) t ≡ true
unfolding eq_ignore_ascii_case
holds-concat [] t = rw (eq_text_refl (to_ascii_lowercase t))
holds-concat (x ∷ xs) t = ground (arith, holds-concat xs t)

merge_keeps :
    (merged tokens : List Text) (t : Text)
    → holds merged t ≡ true
    → holds (merge merged tokens) t ≡ true
merge_keeps merged tokens t h =
    let (fresh, e, _) = merge-append merged tokens in rw e (holds-append merged fresh t h)

holds_after :
    (merged : List Text) (t : Text)
    → holds (if holds merged t then merged else merged ++ t ∷ []) t ≡ true
holds_after merged t = elim (Bool-cases (holds merged t)) [
  | inl seen ↦ rw seen seen
  | inr unseen ↦ rw unseen (holds-concat merged t)
]

-- Every token of the client is in the result, up to case.
merge-holds : (merged tokens : List Text) → All (λ t. holds (merge merged tokens) t ≡ true) tokens
unfolding merge
merge-holds merged [] = tt
merge-holds merged (t ∷ ts) =
    let merged' : List Text = if holds merged t then merged else merged ++ t ∷ [] in
    (merge_keeps merged' ts t (holds_after merged t), merge-holds merged' ts)

-- The tokens that are kept for a session.
abbrev pub known : Key → Inner → List Text
known key inner = (take_entry key inner.betas).0

-- At most 1000 sessions, one entry for each, and no entry with a token twice.
pub record IsValid (inner : Inner) : Type 0 where
  pub bounded : length inner.betas ≤ max_beta_sessions
  pub unique : HasUniqueKeys inner.betas
  pub distinct : All (λ e. IsDistinct e.1) inner.betas

HasUniqueKeys-concat :
    (l : Betas) (key : Key) (tokens : List Text)
    → HasUniqueKeys l
    → Lacks key l
    → HasUniqueKeys (l ++ (key, tokens) ∷ [])
HasUniqueKeys-concat [] key tokens u h = (tt, tt)
HasUniqueKeys-concat ((k, t) ∷ l) key tokens u h = (
  All-append (λ e. eq_key k e.0 ≡ false) l ((key, tokens) ∷ []) u.0
      (ground (arith, eq_key_iff k key, eq_key_iff key k), tt),
  HasUniqueKeys-concat l key tokens u.1 h.1,
)

known-IsDistinct :
    (key : Key) (l : Betas) → All (λ e. IsDistinct e.1) l → IsDistinct (take_entry key l).0
unfolding take_entry
known-IsDistinct key [] h = tt
known-IsDistinct key ((k, t) ∷ l) h = elim (Bool-cases (eq_key k key)) [
  | inl same ↦ rw same h.0
  | inr apart ↦ rw apart (known-IsDistinct key l h.1)
]

-- From a valid state, every call keeps at most 1000 sessions, one entry for each, and no token
-- twice in an entry.
pub sticky_betas-IsValid :
    (key : Key) (client_value : Option Text) (inner : Inner)
    → IsValid inner
    → IsValid (sticky_betas key client_value inner).1
unfolding sticky_betas
sticky_betas-IsValid key client_value inner v =
    let others : Betas = (take_entry key inner.betas).1 in
    let merged : List Text = merge (known key inner) (client_tokens client_value) in
    record {
      bounded = length-evict (others ++ (key, merged) ∷ []);
      unique = evict-HasUniqueKeys (others ++ (key, merged) ∷ []) (
          HasUniqueKeys-concat others key merged (take_entry-HasUniqueKeys key inner.betas v.unique)
            (take_entry-Lacks key inner.betas v.unique));
      distinct =
          evict-All (λ e. IsDistinct e.1) (others ++ (key, merged) ∷ [])
            (All-append (λ e. IsDistinct e.1) others ((key, merged) ∷ [])
              (take_entry-All (λ e. IsDistinct e.1) key inner.betas v.distinct)
              (
                merge-IsDistinct (known key inner) (client_tokens client_value)
                    (known-IsDistinct key inner.betas v.distinct),
                tt,
              ));
    }

-- From a valid state, the header value of a call is the tokens known to the session, in their
-- order, and behind them some of the client's, in the client's order; no two of all these differ in
-- case only; every token of the client is among them up to case; and they are the tokens known from
-- then on.
pub sticky_betas_lem :
    (key : Key) (client_value : Option Text) (inner : Inner)
    → IsValid inner
    → (fresh : List Text) × ((sticky_betas key client_value inner).0
        ≡ join (lit ",") (known key inner ++ fresh))
      × Sublist fresh (client_tokens client_value)
      × IsDistinct (known key inner ++ fresh)
      × All (λ t. holds (known key inner ++ fresh) t ≡ true) (client_tokens client_value)
      × (known key (sticky_betas key client_value inner).1 ≡ known key inner ++ fresh)
unfolding sticky_betas
sticky_betas_lem key client_value inner v =
    let tokens = client_tokens client_value in
    let (fresh, e, some_of) = merge-append (known key inner) tokens in
    (
      fresh,
      ap (join (lit ",")) e,
      some_of,
      subst IsDistinct e
          (merge-IsDistinct (known key inner) tokens (known-IsDistinct key inner.betas v.distinct)),
      subst (λ m. All (λ t. holds m t ≡ true) tokens) e (merge-holds (known key inner) tokens),
      take_entry-evict key _ _ (take_entry-Lacks key inner.betas v.unique) ∙ e,
    )

-- While there is room for one more session, a call leaves the tokens of every other session alone.
pub sticky_betas_ne :
    (key other : Key) (client_value : Option Text) (inner : Inner)
    → key ≢ other
    → length inner.betas < max_beta_sessions
    → known other (sticky_betas key client_value inner).1 ≡ known other inner
unfolding sticky_betas
sticky_betas_ne key other client_value inner n room =
    let others : Betas = (take_entry key inner.betas).1 in
    let merged : List Text = merge (known key inner) (client_tokens client_value) in
    rw
      (evict_small (others ++ (key, merged) ∷ []) (
        omega
          (arith, length-append others ((key, merged) ∷ []), length-take_entry key inner.betas)))
      (take_entry-append_ne key other merged others n
        ∙ take_entry-take_entry_ne key other inner.betas n)
