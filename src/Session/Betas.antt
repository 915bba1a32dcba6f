-- ===== src/Session/Betas.antt =====
-- src/session.rs: `sticky_betas`, the session-sticky merge of the `anthropic-beta` header.
use hr.Prelude.{
  ℕ, not, Option, none, some, List, [], ◌∷◌, ◌++◌, map, ltb, if◌then◌else◌, any, retain, length,
  lit, Text,
}
use hr.Prelude.Strings.{split, join, trim, is_empty, eq_ignore_ascii_case}
use hr.Session.{Key, eq_key, Inner}

abbrev pub max_beta_sessions : ℕ
max_beta_sessions = 1000

abbrev pub Betas : Type 0
Betas = List (Key × List Text)

abbrev pub header_or_empty : Option Text → Text
header_or_empty none = []
header_or_empty (some value) = value

-- `split(',').map(str::trim).filter(|token| !token.is_empty())`
unfoldable pub client_tokens : Option Text → List Text
client_tokens client_value =
    retain (λ token. not (is_empty token)) (map trim (split b',' (header_or_empty client_value)))

-- `position` and `remove`: the tokens of the first entry of the key, and the list without it.
unfoldable pub take_entry : Key → Betas → List Text × Betas
unfolding eq_key
take_entry key [] = ([], [])
take_entry key ((k, tokens) ∷ rest) =
    let (found, others) = take_entry key rest in
    if eq_key k key then (tokens, rest) else (found, (k, tokens) ∷ others)

-- The loop over the client's tokens.
unfoldable pub merge : List Text → List Text → List Text
merge merged [] = merged
merge merged (token ∷ tokens) =
    merge
      (if any (λ seen. eq_ignore_ascii_case seen token) merged
        then merged
        else merged ++ token ∷ [])
      tokens

-- `while betas.len() > MAX_BETA_SESSIONS { betas.remove(0); }`
unfoldable pub evict : Betas → Betas
evict [] = []
evict (entry ∷ rest) =
    if ltb max_beta_sessions (length (entry ∷ rest)) then evict rest else entry ∷ rest

unfoldable pub sticky_betas : Key → Option Text → Inner → Text × Inner
unfolding client_tokens take_entry merge evict
sticky_betas key client_value inner =
    let (known, others) = take_entry key inner.betas in
    let merged = merge known (client_tokens client_value) in
    (join (lit ",") merged, record inner { betas = evict (others ++ (key, merged) ∷ []) })
