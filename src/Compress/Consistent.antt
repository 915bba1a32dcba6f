-- ===== src/Compress/Consistent.antt =====
-- `compress` keeps the store consistent.
use mathlib.Core.Path.{subst}
use hr.Prelude.{
  ℕ, ◌≡◌, ◌≢◌, inl, inr, refl, sym, ap, ◌∙◌, Bool, Option, none, some, ltb, Bool-cases, eq_text,
  eq_text_iff, Text, Bytes,
}
use hr.Prelude.Strings.{trim, is_empty, byte_len}
use hr.Result.{Result, ok, err}
use hr.Stats.{Stats}
use hr.Ccr.{CcrStore, CcrStoreLaws, kept_or, content_hash}
use hr.Compress.{stored_result, compress}
use hr.Compress.Content.{IsConsistent}

module _ (sha256 : Bytes → Bytes) (S : CcrStore) (L : CcrStoreLaws S) where
  -- A hash can be read, and what it is mapped to has it.
  abbrev IsGood : Text → S.State → Type 0
  IsGood hash s =
      (known : Option Text) × (S.get hash s ≡ ok known)
      × ((original : Text) → known ≡ some original → content_hash sha256 original ≡ hash)

  kept_or-IsGood :
      (input : Text) (s : S.State) (known : Option Text)
      → IsConsistent sha256 S L s
      → S.get (content_hash sha256 input) s ≡ ok known
      → content_hash sha256 (kept_or input known) ≡ content_hash sha256 input
  kept_or-IsGood input s none c h = refl
  kept_or-IsGood input s (some kept) c h = c.matching _ kept h

  put-IsGood_same :
      (input : Text) (s : S.State) (known : Option Text) (r : Result Bool)
      → IsConsistent sha256 S L s
      → S.get (content_hash sha256 input) s ≡ ok known
      → (S.put (content_hash sha256 input) input s).0 ≡ r
      → IsGood (content_hash sha256 input) (S.put (content_hash sha256 input) input s).1
  put-IsGood_same input s known r c h p =
      let written : Text = kept_or input known in
      let good : (original : Text)
          → some written ≡ some original
          → content_hash sha256 original ≡ content_hash sha256 input =
        λ original e.
          ap (content_hash sha256) (let f : original ≡ written = cc in f)
          ∙ kept_or-IsGood input s known c h in
      elim r as (λ r'. (S.put (content_hash sha256 input) input s).0 ≡ r' → IsGood _ _) [
        | ok b ↦ λ q. (some written, L.get_after_put _ input s known b h q, good)
        | err e ↦ λ q. elim (L.get_after_failure _ input s known e h q) [
          | inl nothing ↦ (known, nothing, λ original k. c.matching _ original (h ∙ ap ok k))
          | inr done ↦ (some written, done, good)
        ]
      ]
        p

  put-IsGood :
      (input hash : Text) (s : S.State)
      → IsConsistent sha256 S L s
      → IsGood hash (S.put (content_hash sha256 input) input s).1
  put-IsGood input hash s c = elim (Bool-cases (eq_text (content_hash sha256 input) hash)) [
    | inl same ↦
        let (known, e) = c.readable (content_hash sha256 input) in
        subst (λ h. IsGood h (S.put (content_hash sha256 input) input s).1)
          ((eq_text_iff (content_hash sha256 input) hash).0 same)
          (put-IsGood_same input s known _ c e refl)
    | inr apart ↦
        let ne : content_hash sha256 input ≢ hash =
          λ e. cc (apart, (eq_text_iff (content_hash sha256 input) hash).1 e) in
        let (known, e) = c.readable hash in
        (
          known,
          L.get_other (content_hash sha256 input) input hash s ne ∙ e,
          λ original k. c.matching hash original (e ∙ ap ok k),
        )
  ]

  pub put-IsConsistent :
      (input : Text) (s : S.State)
      → IsConsistent sha256 S L s
      → IsConsistent sha256 S L (S.put (content_hash sha256 input) input s).1
  put-IsConsistent input s c = record {
    readable = λ hash. let (known, e, _) = put-IsGood input hash s c in (known, e);
    matching = λ hash original h.
        let (known, e, good) = put-IsGood input hash s c in
        good original (let f : known ≡ some original = cc in f);
  }

  stored_result-state :
      (input : Text) (put : Result Bool × S.State) (stats : Stats)
      → (stored_result sha256 S input put stats).1 ≡ put.1
  unfolding stored_result
  stored_result-state input (ok b, s) stats = refl
  stored_result-state input (err e, s) stats = refl

  -- `compress` keeps a consistent store with the laws consistent, whatever it answers and whether
  -- or not the store fails.
  pub compress-IsConsistent :
      (input : Text) (min_bytes : ℕ) (s : S.State) (stats : Stats)
      → IsConsistent sha256 S L s
      → IsConsistent sha256 S L (compress sha256 S input min_bytes s stats).1
  unfolding compress
  compress-IsConsistent input min_bytes s stats c = elim (Bool-cases (is_empty (trim input))) [
    | inl blank ↦ rw blank c
    | inr text ↦ elim (Bool-cases (ltb (byte_len input) min_bytes)) [
      | inl short ↦ rw (text, short) c
      | inr enough ↦
          rw (text, enough)
            (subst (IsConsistent sha256 S L) (sym (stored_result-state input _ stats))
              (put-IsConsistent input s c))
    ]
  ]
