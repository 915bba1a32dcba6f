-- ===== src/Proxy/Route/BatchPath.antt =====
-- The paths from which `anthropic_batch_results_batch_id` reads a batch id.
use mathlib.Core.Path.{subst}
use hr.Prelude.{
  ℕ, ◌≡◌, ◌≢◌, ◌↔◌, inl, inr, refl, ap, ◌∙◌, true, false, Option, none, some, [], ◌∷◌, ◌++◌, ◌==◌,
  ==_iff, Bool-cases, Option-cases, eq_text, eq_text_iff, eq_text_refl, All, lit, Text,
}
use hr.Prelude.Strings.{strip_prefix, is_empty}
use hr.Proxy.Route.{onto_before, split_once, results_id, anthropic_batch_results_batch_id}

strip_prefix-some : (p t rest : Text) → strip_prefix p t ≡ some rest → t ≡ p ++ rest
unfolding strip_prefix
strip_prefix-some [] t rest h = cc
strip_prefix-some (p ∷ ps) [] rest h = absurd (cc)
strip_prefix-some (p ∷ ps) (c ∷ cs) rest h = elim (Bool-cases (p == c)) [
  | inl same ↦
      let e = (==_iff p c).0 same in let later = strip_prefix-some ps cs rest (rw same at h) in cc
  | inr apart ↦ absurd (cc (rw apart at h))
]

strip_prefix-append : (p rest : Text) → strip_prefix p (p ++ rest) ≡ some rest
unfolding strip_prefix
strip_prefix-append [] rest = refl
strip_prefix-append (p ∷ ps) rest =
    let same : (p == p) ≡ true = (==_iff p p).1 refl in rw same (strip_prefix-append ps rest)

-- No character of the text is the separator.
abbrev pub IsFree : ℕ → Text → Type 0
IsFree separator = All (λ c. (c == separator) ≡ false)

onto_before-some :
    (separator c : ℕ) (t : Text) (rest : Option (Text × Text)) (before after : Text)
    → (c == separator) ≡ false
    → ((b a : Text) → rest ≡ some (b, a) → (t ≡ b ++ separator ∷ a) × IsFree separator b)
    → onto_before c rest ≡ some (before, after)
    → (c ∷ t ≡ before ++ separator ∷ after) × IsFree separator before
onto_before-some separator c t none before after n ih h = absurd (cc)
onto_before-some separator c t (some (b, a)) before after n ih h =
    let (e, free) = ih b a refl in
    let head : c ∷ b ≡ before = cc in
    let tail : a ≡ after = cc in
    subst (λ x. (c ∷ t ≡ x ++ separator ∷ after) × IsFree separator x) head
      (ap (◌∷◌ c) (e ∙ ap (λ x. b ++ separator ∷ x) tail), (n, free))

split_once-some :
    (separator : ℕ) (t before after : Text)
    → split_once separator t ≡ some (before, after)
    → (t ≡ before ++ separator ∷ after) × IsFree separator before
unfolding split_once
split_once-some separator [] before after h = absurd (cc)
split_once-some separator (c ∷ t) before after h = elim (Bool-cases (c == separator)) [
  | inl same ↦
      let k : ◌≡◌ {A = Option (Text × Text)} (some ([], t)) (some (before, after)) = rw same at h in
      let head : [] ≡ before = cc in
      let tail : t ≡ after = cc in
      let e = (==_iff c separator).0 same in
      subst (λ x. (c ∷ t ≡ x ++ separator ∷ after) × IsFree separator x) head (cc, tt)
  | inr apart ↦
      onto_before-some separator c t (split_once separator t) before after apart
        (split_once-some separator t) (rw apart at h)
]

split_once-append :
    (separator : ℕ) (before after : Text)
    → IsFree separator before
    → split_once separator (before ++ separator ∷ after) ≡ some (before, after)
unfolding split_once
split_once-append separator [] after f =
    let same : (separator == separator) ≡ true = (==_iff separator separator).1 refl in rw same refl
split_once-append separator (c ∷ before) after (f, fs) =
    rw (split_once-append separator before after fs, f) refl

results_id-some :
    (parts : Option (Text × Text)) (batch_id : Text)
    → results_id parts ≡ some batch_id
    → (parts ≡ some (batch_id, lit "results")) × (batch_id ≢ [])
unfolding results_id is_empty
results_id-some none batch_id h = absurd (cc)
results_id-some (some ([], tail)) batch_id h = elim (Bool-cases (eq_text tail (lit "results"))) [
  | inl e ↦ absurd (cc (rw e at h))
  | inr n ↦ absurd (cc (rw n at h))
]
results_id-some (some (c ∷ cs, tail)) batch_id h =
    elim (Bool-cases (eq_text tail (lit "results"))) [
      | inl e ↦
          let same = (eq_text_iff tail (lit "results")).0 e in
          let found : some (c ∷ cs) ≡ some batch_id = rw e at h in
          let id_of : c ∷ cs ≡ batch_id = cc in (cc, λ nil. let clash : c ∷ cs ≡ [] = cc in cc)
      | inr n ↦ absurd (cc (rw n at h))
    ]

results_id-some_of :
    (batch_id : Text) → batch_id ≢ [] → results_id (some (batch_id, lit "results")) ≡ some batch_id
unfolding results_id is_empty
results_id-some_of [] n = absurd (n refl)
results_id-some_of (c ∷ cs) n = rw (eq_text_refl (lit "results")) refl

-- A batch id is read from exactly the GET requests of `/v1/messages/batches/<id>/results`, with an id
-- that is not empty and has no slash.
pub anthropic_batch_results_batch_id_iff :
    (method path batch_id : Text)
    → (anthropic_batch_results_batch_id method path ≡ some batch_id) ↔ (
        (method ≡ lit "GET")
        × (path ≡ lit "/v1/messages/batches/" ++ (batch_id ++ b'/' ∷ lit "results"))
        × (batch_id ≢ [])
        × IsFree b'/' batch_id)
unfolding anthropic_batch_results_batch_id
anthropic_batch_results_batch_id_iff method path batch_id = (to, from)
  where
    prefix : Text
    prefix = lit "/v1/messages/batches/"

    to :
        anthropic_batch_results_batch_id method path ≡ some batch_id
        → (method ≡ lit "GET")
          × (path ≡ prefix ++ (batch_id ++ b'/' ∷ lit "results"))
          × (batch_id ≢ [])
          × IsFree b'/' batch_id
    to h = elim (Bool-cases (eq_text method (lit "GET"))) [
      | inl get ↦ elim (Option-cases (strip_prefix prefix path)) [
        | inl outside ↦ absurd (cc (rw (get, outside) at h))
        | inr (rest, below) ↦
            let (parts, filled) =
              results_id-some (split_once b'/' rest) batch_id (rw (get, below) at h) in
            let (e, free) = split_once-some b'/' rest batch_id (lit "results") parts in
            (
              (eq_text_iff method (lit "GET")).0 get,
              strip_prefix-some prefix path rest below ∙ ap (λ t. prefix ++ t) e,
              filled,
              free,
            )
      ]
      | inr other ↦ absurd (cc (rw other at h))
    ]

    from :
        (method ≡ lit "GET")
          × (path ≡ prefix ++ (batch_id ++ b'/' ∷ lit "results"))
          × (batch_id ≢ [])
          × IsFree b'/' batch_id
        → anthropic_batch_results_batch_id method path ≡ some batch_id
    from (g, p, filled, free) =
        rw
          (
            g,
            p,
            eq_text_refl (lit "GET"),
            strip_prefix-append prefix (batch_id ++ b'/' ∷ lit "results"),
            split_once-append b'/' batch_id (lit "results") free,
            results_id-some_of batch_id filled,
          )
          refl
