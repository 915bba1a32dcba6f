-- ===== src/Compress/Content.antt =====
-- What `compress` leaves in the store, and that `decompress_text` takes it back.
use hr.Prelude.{
  ℕ, ◌-◌, ◌≡◌, inl, inr, refl, ap, ◌∙◌, Bool, true, Option, none, some, List, [], ◌∷◌, ◌++◌,
  append-nil, ltb, Bool-cases, arith, length, Text, Bytes,
}
use hr.Prelude.Strings.{trim, is_empty, byte_len}
use hr.Result.{Result, ok, err}
use hr.Stats.{Stats}
use hr.Ccr.{
  CcrStore, CcrStoreLaws, Captures, slice, DecompressResult, found, expand, decompress_hash,
  expand_all, decompress_text, content_hash, marker_for_hash,
}
use hr.Compress.{CompressResult, stored_result, compress}

slice_none : (t : Text) (a : ℕ) → slice t a a ≡ []
unfolding slice
slice_none t a = let e : a - a ≡ 0 = omega arith in rw e

module _ (sha256 : Bytes → Bytes) (S : CcrStore) (L : CcrStoreLaws S) where
  -- Every hash can be read, and is the hash of what is stored under it.
  pub record IsConsistent (s : S.State) : Type 0 where
    pub readable : (hash : Text) → (known : Option Text) × (S.get hash s ≡ ok known)
    pub matching :
        (hash original : Text)
        → S.get hash s ≡ ok (some original)
        → content_hash sha256 original ≡ hash

  -- No other text has the hash of this one.
  abbrev pub NoCollision : Text → Type 0
  NoCollision input =
      (other : Text) → content_hash sha256 other ≡ content_hash sha256 input → other ≡ input

  -- The regular expression engine sees the marker of a text as one match, of the text's hash.
  abbrev pub MarkerMatches : (Text → List Captures) → Text → Type 0
  MarkerMatches captures_iter input =
      captures_iter (marker_for_hash (content_hash sha256 input))
      ≡ record {
        start = 0;
        end = length (marker_for_hash (content_hash sha256 input));
        hash = content_hash sha256 input;
      }
        ∷ []

  pub put_stores :
      (input : Text) (s : S.State) (inserted : Bool)
      → IsConsistent s
      → NoCollision input
      → (S.put (content_hash sha256 input) input s).0 ≡ ok inserted
      → S.get (content_hash sha256 input) (S.put (content_hash sha256 input) input s).1
        ≡ ok (some input)
  put_stores input s inserted c n p = go (c.readable hash).0 (c.readable hash).1
    where
      hash : Text
      hash = content_hash sha256 input

      go :
          (known : Option Text)
          → S.get (content_hash sha256 input) s ≡ ok known
          → S.get (content_hash sha256 input) (S.put (content_hash sha256 input) input s).1
            ≡ ok (some input)
      go none h = L.get_after_put hash input s none inserted h p
      go (some kept) h =
          L.get_after_put hash input s (some kept) inserted h p
          ∙ ap (λ t. ok (some t)) (n kept (c.matching hash kept h))

  -- The body of the loop for one match that is a hit.
  expand_marker :
      (marker hash original : Text) (s : S.State) (stats : Stats)
      → S.get hash s ≡ ok (some original)
      → (expand_all S marker 0
          (record { start = 0; end = length marker; hash = hash } ∷ [])
          s
          (record { output = []; hits = 0; misses = 0; missing_hashes = [] })
          stats).0.output
        ≡ original
  unfolding expand_all decompress_hash slice
  expand_marker marker hash original s stats h =
      let r0 : DecompressResult = record {
        output = [];
        hits = 0;
        misses = 0;
        missing_hashes = [];
      } in
      let none_left = slice marker (length marker) (length marker) in
      ap
        (λ r.
          (expand (slice marker 0 (length marker)) hash (found r stats).0 r0).output ++ none_left)
        h
      ∙ ap (◌++◌ original) (slice_none marker (length marker))
      ∙ append-nil original

  -- What a stored result says of the answer of the store.
  record Stored (input : Text) (put : Result Bool × S.State) (r : CompressResult × S.State × Stats)
      : Type 0 where
    inserted : Bool
    accepted : put.0 ≡ ok inserted
    state : r.1 ≡ put.1
    output : r.0.output ≡ marker_for_hash (content_hash sha256 input)

  stored_result-Stored :
      (input : Text) (r : Result Bool) (s : S.State) (stats : Stats)
      → (stored_result sha256 S input (r, s) stats).0.stored ≡ true
      → Stored input (r, s) (stored_result sha256 S input (r, s) stats)
  unfolding stored_result
  stored_result-Stored input (ok b) s stats h = record {
    inserted = b;
    accepted = refl;
    state = refl;
    output = refl;
  }
  stored_result-Stored input (err e) s stats h = cc

  compress-Stored :
      (input : Text) (min_bytes : ℕ) (s : S.State) (stats : Stats)
      → (compress sha256 S input min_bytes s stats).0.stored ≡ true
      → Stored input
          (S.put (content_hash sha256 input) input s)
          (compress sha256 S input min_bytes s stats)
  unfolding compress
  compress-Stored input min_bytes s stats h = elim (Bool-cases (is_empty (trim input))) [
    | inl blank ↦ absurd (cc (rw blank at h))
    | inr text ↦ elim (Bool-cases (ltb (byte_len input) min_bytes)) [
      | inl short ↦ absurd (cc (rw (text, short) at h))
      | inr enough ↦
          rw (text, enough) (stored_result-Stored input _ _ stats (rw (text, enough) at h))
    ]
  ]

  pub compress_stores :
      (input : Text) (min_bytes : ℕ) (s : S.State) (stats : Stats)
      → IsConsistent s
      → NoCollision input
      → (compress sha256 S input min_bytes s stats).0.stored ≡ true
      → S.get (content_hash sha256 input) (compress sha256 S input min_bytes s stats).1
        ≡ ok (some input)
  compress_stores input min_bytes s stats c n h =
      let did = compress-Stored input min_bytes s stats h in
      rw did.state (put_stores input s did.inserted c n did.accepted)

  -- What was compressed comes back: the output of a `compress` that stored its input decompresses
  -- to that input, where the store has the laws and is consistent, no other text has the hash of
  -- the input, and the regular expression engine matches its marker as one whole.
  pub decompress-compress :
      (captures_iter : Text → List Captures) (input : Text) (min_bytes : ℕ) (s : S.State)
      (stats stats' : Stats)
      → IsConsistent s
      → NoCollision input
      → MarkerMatches captures_iter input
      → (compress sha256 S input min_bytes s stats).0.stored ≡ true
      → (decompress_text S captures_iter
          (compress sha256 S input min_bytes s stats).0.output
          (compress sha256 S input min_bytes s stats).1
          stats').0.output
        ≡ input
  unfolding decompress_text
  decompress-compress captures_iter input min_bytes s stats stats' c n m h =
      let did = compress-Stored input min_bytes s stats h in
      let hash = content_hash sha256 input in
      rw (did.output, did.state, m)
        (expand_marker (marker_for_hash hash) hash input (S.put hash input s).1 stats'
          (put_stores input s did.inserted c n did.accepted))
