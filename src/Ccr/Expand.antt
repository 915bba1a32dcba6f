-- ===== src/Ccr/Expand.antt =====
-- What `decompress_text` writes and counts.
use hr.Prelude.{
  ℕ, zero, suc, ◌+◌, ◌-◌, ◌≤◌, ◌≡◌, refl, sym, ap, ◌∙◌, Option, none, some, List, [], ◌∷◌, ◌++◌,
  map, append-nil, append_assoc, arith, length, take, drop, length-append, Text,
}
use native.Mathlib.Nat.{add-zero, zero-add}
use hr.Stats.{Stats}
use hr.Ccr.{
  CcrStore, Captures, DecompressResult, slice, expand, decompress_hash, expand_all, decompress_text,
}

-- Matches lie in a text of `total` characters, behind `last`, and do not overlap.
abbrev pub Ascending : ℕ → ℕ → List Captures → Type 0
Ascending total last [] = last ≤ total
Ascending total last (m ∷ ms) = (last ≤ m.start) × (m.start ≤ m.end) × Ascending total m.end ms

take-nil : (n : ℕ) → take {A = ℕ} n [] ≡ []
take-nil zero = refl
take-nil (suc n) = refl

take-take-drop : (a b : ℕ) (t : Text) → take a t ++ take b (drop a t) ≡ take (a + b) t
take-take-drop zero b t = let e : 0 + b ≡ b = omega arith in rw e
take-take-drop (suc a) b [] = rw (take-nil b, take-nil (suc a + b))
take-take-drop (suc a) b (c ∷ t) =
    let e : suc a + b ≡ suc (a + b) = omega arith in rw e (ap (◌∷◌ c) (take-take-drop a b t))

drop-drop : (a b : ℕ) (t : Text) → drop b (drop a t) ≡ drop (a + b) t
drop-drop zero b t = let e : 0 + b ≡ b = omega arith in rw e
drop-drop (suc a) b (c ∷ t) =
    let e : suc a + b ≡ suc (a + b) = omega arith in rw e (drop-drop a b t)
drop-drop (suc a) b [] = let e : suc a + b ≡ suc (a + b) = omega arith in rw e (drop-nil b)
  where
    drop-nil : (n : ℕ) → drop {A = ℕ} n [] ≡ []
    drop-nil zero = refl
    drop-nil (suc n) = refl

take_all : (n : ℕ) (t : Text) → length t ≤ n → take n t ≡ t
take_all zero [] h = refl
take_all zero (c ∷ t) h = absurd (omega arith)
take_all (suc n) [] h = refl
take_all (suc n) (c ∷ t) h = ap (◌∷◌ c) (take_all n t (omega arith))

-- Slices that meet are one slice.
slice-append : (t : Text) (a b c : ℕ) → a ≤ b → b ≤ c → slice t a b ++ slice t b c ≡ slice t a c
unfolding slice
slice-append t a b c h k =
    let e : b ≡ a + (b - a) = omega arith in
    let f : c - a ≡ (b - a) + (c - b) = omega arith in
    let g : drop b t ≡ drop (b - a) (drop a t) =
      ap (λ n. drop n t) e ∙ sym (drop-drop a (b - a) t) in
    rw (g, f) (take-take-drop (b - a) (c - b) (drop a t))

pub slice_whole : (t : Text) → slice t 0 (length t) ≡ t
unfolding slice
slice_whole t = take_all (length t - 0) t (omega arith)

Ascending-le : {total last : ℕ} (ms : List Captures) → Ascending total last ms → last ≤ total
Ascending-le [] a = a
Ascending-le (m ∷ ms) a = omega (arith, Ascending-le ms a.2)

copied_through :
    (text : Text) (last : ℕ) (m : Captures) (out : Text)
    → last ≤ m.start
    → m.start ≤ m.end
    → m.end ≤ length text
    → ((out ++ slice text last m.start) ++ slice text m.start m.end)
        ++ slice text m.end (length text)
      ≡ out ++ slice text last (length text)
copied_through text last m out h k l =
    append_assoc (out ++ slice text last m.start) _ _
    ∙ append_assoc out _ _
    ∙ ap (◌++◌ out) (
        ap (◌++◌ (slice text last m.start)) (slice-append text m.start m.end (length text) k l)
        ∙ slice-append text last m.start (length text) h (omega arith))

expand_counts :
    (marker hash : Text) (o : Option Text) (r : DecompressResult)
    → (let r' = expand marker hash o r in
        (r'.hits + r'.misses ≡ r.hits + r.misses + 1)
        × (length r'.missing_hashes + r.misses ≡ length r.missing_hashes + r'.misses))
unfolding expand
expand_counts marker hash none r =
    (omega arith, omega (arith, length-append r.missing_hashes (hash ∷ [])))
expand_counts marker hash (some original) r = (omega arith, omega arith)

module _ (S : CcrStore) where
  -- Nothing is stored under a hash, or the store fails on it.
  abbrev pub Misses : S.State → Text → Type 0
  Misses s hash = (o : Stats) → (decompress_hash S hash s o).0 ≡ none

  -- The four fields after the loop, when every match misses.
  expand_all_missing :
      (text : Text) (last : ℕ) (ms : List Captures) (s : S.State) (r : DecompressResult)
      (stats : Stats)
      → Ascending (length text) last ms
      → ((hash : Text) → Misses s hash)
      → (expand_all S text last ms s r stats).0 ≡ record {
        output = r.output ++ slice text last (length text);
        hits = r.hits;
        misses = r.misses + length ms;
        missing_hashes = r.missing_hashes ++ map (λ m. m.hash) ms;
      }
  unfolding expand_all
  expand_all_missing text last [] s r stats a h =
      cc (add-zero r.misses, append-nil r.missing_hashes)
  expand_all_missing text last (m ∷ ms) s r stats a h =
      let copied : DecompressResult = record r { output = r.output ++ slice text last m.start } in
      let stats' : Stats = (decompress_hash S m.hash s stats).1 in
      let next = λ (o : Option Text). expand (slice text m.start m.end) m.hash o copied in
      ap (λ o. (expand_all S text m.end ms s (next o) stats').0) (h m.hash stats)
      ∙ expand_all_missing text m.end ms s (next none) stats' a.2 h
      ∙ cc (
        copied_through text last m r.output a.0 a.1 (Ascending-le ms a.2),
        append_assoc r.missing_hashes (m.hash ∷ []) (map (λ n. n.hash) ms),
        (let e : r.misses + 1 + length ms ≡ r.misses + suc (length ms) = omega arith in e),
      )

  -- Where nothing is found under any hash, and the matches lie in the text one behind the other,
  -- the text comes out as it went in, and the hash of every match is reported as missing, in
  -- order.
  pub decompress_text_unknown :
      (captures_iter : Text → List Captures) (text : Text) (s : S.State) (stats : Stats)
      → Ascending (length text) 0 (captures_iter text)
      → ((hash : Text) → Misses s hash)
      → (decompress_text S captures_iter text s stats).0 ≡ record {
        output = text;
        hits = 0;
        misses = length (captures_iter text);
        missing_hashes = map (λ m. m.hash) (captures_iter text);
      }
  unfolding decompress_text
  decompress_text_unknown captures_iter text s stats a h =
      expand_all_missing text 0 (captures_iter text) s _ stats a h
      ∙ cc (slice_whole text, zero-add (length (captures_iter text)))

  expand_all_counts :
      (text : Text) (last : ℕ) (ms : List Captures) (s : S.State) (r : DecompressResult)
      (stats : Stats)
      → (let r' = (expand_all S text last ms s r stats).0 in
          (r'.hits + r'.misses ≡ r.hits + r.misses + length ms)
          × (length r'.missing_hashes + r.misses ≡ length r.missing_hashes + r'.misses))
  unfolding expand_all
  expand_all_counts text last [] s r stats = (omega arith, omega arith)
  expand_all_counts text last (m ∷ ms) s r stats =
      let (original, stats') = decompress_hash S m.hash s stats in
      let copied : DecompressResult = record r { output = r.output ++ slice text last m.start } in
      let next = expand (slice text m.start m.end) m.hash original copied in
      let step = expand_counts (slice text m.start m.end) m.hash original copied in
      let rest = expand_all_counts text m.end ms s next stats' in
      (omega (arith, step.0, rest.0), omega (arith, step.1, rest.1))

  -- Every match is a hit or a miss, and each miss is reported once, whatever the store answers.
  pub decompress_text_counts :
      (captures_iter : Text → List Captures) (text : Text) (s : S.State) (stats : Stats)
      → (let r = (decompress_text S captures_iter text s stats).0 in
          (r.hits + r.misses ≡ length (captures_iter text)) × (length r.missing_hashes ≡ r.misses))
  unfolding decompress_text
  decompress_text_counts captures_iter text s stats =
      let counts =
        expand_all_counts text 0 (captures_iter text) s
          (record { output = []; hits = 0; misses = 0; missing_hashes = [] }) stats in
      (omega (arith, counts.0), omega (arith, counts.1))
