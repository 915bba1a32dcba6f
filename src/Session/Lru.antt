-- ===== src/Session/Lru.antt =====
-- The list of sessions under `take_entry` and `evict`.
use hr.Prelude.{
  suc, ◌≤◌, ◌≡◌, ◌≢◌, refl, false, List, [], ◌∷◌, ◌++◌, ltb, length, arith, Bool-cases, inl, inr,
  All, Text,
}
use hr.Session.{Key, eq_key, eq_key_iff}
use mathlib.Core.Path.{subst}
use hr.Session.Betas.{Betas, max_beta_sessions, take_entry, evict}

-- No entry is of this key.
abbrev pub Lacks : Key → Betas → Type 0
Lacks key = All (λ e. eq_key key e.0 ≡ false)

abbrev pub HasUniqueKeys : Betas → Type 0
HasUniqueKeys [] = Unit
HasUniqueKeys (e ∷ rest) = Lacks e.0 rest × HasUniqueKeys rest

module _ (P : Key × List Text → Type 0) where
  pub take_entry-All : (key : Key) (l : Betas) → All P l → All P (take_entry key l).1
  unfolding take_entry
  take_entry-All key [] h = h
  take_entry-All key ((k, t) ∷ l) h = elim (Bool-cases (eq_key k key)) [
    | inl e ↦ rw e h.1
    | inr e ↦ rw e (h.0, take_entry-All key l h.1)
  ]

  pub evict-All : (l : Betas) → All P l → All P (evict l)
  unfolding evict
  evict-All [] h = h
  evict-All (e ∷ l) h = elim (Bool-cases (ltb max_beta_sessions (length (e ∷ l)))) [
    | inl more ↦ rw more (evict-All l h.1)
    | inr less ↦ rw less h
  ]

pub take_entry-HasUniqueKeys :
    (key : Key) (l : Betas) → HasUniqueKeys l → HasUniqueKeys (take_entry key l).1
unfolding take_entry
take_entry-HasUniqueKeys key [] h = h
take_entry-HasUniqueKeys key ((k, t) ∷ l) h = elim (Bool-cases (eq_key k key)) [
  | inl e ↦ rw e h.1
  | inr e ↦
      rw e
        (take_entry-All (λ e. eq_key k e.0 ≡ false) key l h.0, take_entry-HasUniqueKeys key l h.1)
]

pub take_entry-Lacks : (key : Key) (l : Betas) → HasUniqueKeys l → Lacks key (take_entry key l).1
unfolding take_entry
take_entry-Lacks key [] h = tt
take_entry-Lacks key ((k, t) ∷ l) h = elim (Bool-cases (eq_key k key)) [
  | inl e ↦ rw e (subst (λ j. Lacks j l) ((eq_key_iff k key).0 e) h.0)
  | inr e ↦ rw e (ground (arith, eq_key_iff k key, eq_key_iff key k), take_entry-Lacks key l h.1)
]

pub evict-HasUniqueKeys : (l : Betas) → HasUniqueKeys l → HasUniqueKeys (evict l)
unfolding evict
evict-HasUniqueKeys [] h = h
evict-HasUniqueKeys (e ∷ l) h = elim (Bool-cases (ltb max_beta_sessions (length (e ∷ l)))) [
  | inl more ↦ rw more (evict-HasUniqueKeys l h.1)
  | inr less ↦ rw less h
]

pub length-evict : (l : Betas) → length (evict l) ≤ max_beta_sessions
unfolding evict
length-evict [] = omega arith
length-evict (e ∷ l) = ground (arith, length-evict l)

take_entry-append :
    (key : Key) (tokens : List Text) (l : Betas)
    → Lacks key l
    → (take_entry key (l ++ (key, tokens) ∷ [])).0 ≡ tokens
unfolding take_entry
take_entry-append key tokens [] h = rw ((eq_key_iff key key).1 refl)
take_entry-append key tokens ((k, t) ∷ l) h =
    ground (arith, take_entry-append key tokens l h.1, eq_key_iff key k, eq_key_iff k key)

-- A key that is appended last is found there, also behind evictions.
pub take_entry-evict :
    (key : Key) (tokens : List Text) (l : Betas)
    → Lacks key l
    → (take_entry key (evict (l ++ (key, tokens) ∷ []))).0 ≡ tokens
unfolding take_entry evict
take_entry-evict key tokens [] h = rw ((eq_key_iff key key).1 refl)
take_entry-evict key tokens ((k, t) ∷ l) h =
    elim (Bool-cases (ltb max_beta_sessions (suc (length (l ++ (key, tokens) ∷ []))))) [
      | inl more ↦ rw more (take_entry-evict key tokens l h.1)
      | inr less ↦
          rw less
            (ground (arith, take_entry-append key tokens l h.1, eq_key_iff key k, eq_key_iff k key))
    ]

pub take_entry-append_ne :
    (key other : Key) (tokens : List Text) (l : Betas)
    → key ≢ other
    → (take_entry other (l ++ (key, tokens) ∷ [])).0 ≡ (take_entry other l).0
unfolding take_entry
take_entry-append_ne key other tokens [] n = ground (arith, eq_key_iff key other)
take_entry-append_ne key other tokens ((k, t) ∷ l) n =
    ground (arith, take_entry-append_ne key other tokens l n)

pub take_entry-take_entry_ne :
    (key other : Key) (l : Betas)
    → key ≢ other
    → (take_entry other (take_entry key l).1).0 ≡ (take_entry other l).0
unfolding take_entry
take_entry-take_entry_ne key other [] n = refl
take_entry-take_entry_ne key other ((k, t) ∷ l) n =
    ground (arith, take_entry-take_entry_ne key other l n, eq_key_iff k key, eq_key_iff k other)

pub evict_small : (l : Betas) → length l ≤ max_beta_sessions → evict l ≡ l
unfolding evict
evict_small [] h = refl
evict_small (e ∷ l) h = ground arith

pub length-take_entry : (key : Key) (l : Betas) → length (take_entry key l).1 ≤ length l
unfolding take_entry
length-take_entry key [] = omega arith
length-take_entry key ((k, t) ∷ l) = ground (arith, length-take_entry key l)
