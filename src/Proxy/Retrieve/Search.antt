-- ===== src/Proxy/Retrieve/Search.antt =====
-- What a search of a stored text finds.
use hr.Prelude.{
  ℕ, zero, suc, ◌+◌, ◌≤◌, ◌≡◌, inl, inr, refl, ap, ◌∙◌, true, false, Option, none, some, List, [],
  ◌∷◌, ◌==◌, if◌then◌else◌, Bool-cases, arith, Text,
}
use hr.Proxy.Retrieve.{RetrieveSearchResult, matches, lines, search_lines, search_content}

abbrev pub line_at : ℕ → List Text → Option Text
line_at k [] = none
line_at zero (line ∷ rest) = some line
line_at (suc k) (line ∷ rest) = line_at k rest

-- The texts of the results with a number, in order.
abbrev pub texts_of : ℕ → List RetrieveSearchResult → List Text
texts_of n [] = []
texts_of n (r ∷ rs) = let later = texts_of n rs in if r.line == n then r.text ∷ later else later

module _ (to_lowercase : Text → Text) where
  abbrev pub hit : Text → Option Text → List Text
  hit query none = []
  hit query (some line) = if matches to_lowercase query line then line ∷ [] else []

  texts_of-before :
      (query : Text) (index n : ℕ) (ls : List Text)
      → n ≤ index
      → texts_of n (search_lines to_lowercase query index ls) ≡ []
  unfolding search_lines
  texts_of-before query index n [] h = refl
  texts_of-before query index n (line ∷ rest) h =
      let apart : (index + 1 == n) ≡ false = ground arith in
      let later = texts_of-before query (index + 1) n rest (omega arith) in
      elim (Bool-cases (matches to_lowercase query line)) [
        | inl yes_match ↦ rw (yes_match, apart) later
        | inr no_match ↦ rw no_match later
      ]

  texts_of-search_lines :
      (query : Text) (index k : ℕ) (ls : List Text)
      → texts_of (index + k + 1) (search_lines to_lowercase query index ls)
        ≡ hit query (line_at k ls)
  unfolding search_lines
  texts_of-search_lines query index k [] = refl
  texts_of-search_lines query index zero (line ∷ rest) =
      let same : (index + 1 == index + 0 + 1) ≡ true = ground arith in
      let later = texts_of-before query (index + 1) (index + 0 + 1) rest (omega arith) in
      elim (Bool-cases (matches to_lowercase query line)) [
        | inl found ↦ rw (found, same, later) refl
        | inr missed ↦ rw (missed, later) refl
      ]
  texts_of-search_lines query index (suc k) (line ∷ rest) =
      let apart : (index + 1 == index + suc k + 1) ≡ false = ground arith in
      let shift : index + suc k + 1 ≡ index + 1 + k + 1 = omega arith in
      let later =
        ap (λ n. texts_of n (search_lines to_lowercase query (index + 1) rest)) shift
        ∙ texts_of-search_lines query (index + 1) k rest in
      elim (Bool-cases (matches to_lowercase query line)) [
        | inl found ↦ rw (found, apart) later
        | inr missed ↦ rw missed later
      ]

  -- A search reports, under each number from 1 on, the line of that number once if it contains the
  -- query up to case, and nothing otherwise.
  pub search_content_lem :
      (content query : Text) (k : ℕ)
      → texts_of (k + 1) (search_content to_lowercase content query)
        ≡ hit (to_lowercase query) (line_at k (lines content))
  unfolding search_content
  search_content_lem content query k =
      let number : k + 1 ≡ 0 + k + 1 = omega arith in
      ap (λ n. texts_of n (search_lines to_lowercase (to_lowercase query) 0 (lines content))) number
      ∙ texts_of-search_lines (to_lowercase query) 0 k (lines content)
