-- ===== src/Session/Floor.antt =====
-- The frozen floor that a session has after the provider confirmed cached tokens.
use hr.Prelude.{
  ℕ, suc, ◌+◌, ◌≤◌, ◌<◌, ◌%◌, ◌^◌, ◌≡◌, ap, ◌∙◌, inl, inr, false, ◌||◌, some, List, [], ◌∷◌, ltb,
  leb, ◌==◌, if◌then◌else◌, length, take, arith, le→leb, lt→ltb, leb→le, Bool-cases,
}
use hr.Session.Entries.{lookup-write_self, lookup-retain}
use hr.Session.{
  Key, PrefixState, Inner, min_cached_tokens, session_ttl, u64_max, saturating_add, lookup, is_live,
  maybe_cleanup, floor_of, frozen_message_count, count_fitting, or_fresh, confirm, cleaned_recently,
  update_from_response,
}

-- What the first `length` estimates come to, with the sums of `u64::saturating_add`.
abbrev pub covered : ℕ → List ℕ → ℕ
covered acc [] = acc
covered acc (tokens ∷ rest) = covered (saturating_add acc tokens) rest

-- `n` is the number of messages in the longest prefix that fits into `total` tokens.
pub record IsLongestFit (total : ℕ) (estimates : List ℕ) (n : ℕ) : Type 0 where
  pub within : n ≤ length estimates
  pub fits : covered 0 (take n estimates) ≤ total
  pub longest : n < length estimates → total < covered 0 (take (suc n) estimates)

-- The loop returns the longest fit, or goes on from the `i` messages already counted.
count_fitting_from :
    (total i acc : ℕ) (estimates : List ℕ)
    → acc ≤ total
    → (k : ℕ) × (count_fitting total i acc i estimates ≡ i + k)
      × (k ≤ length estimates)
      × (covered acc (take k estimates) ≤ total)
      × (k < length estimates → total < covered acc (take (suc k) estimates))
unfolding count_fitting
count_fitting_from total i acc [] h = (0, omega arith, omega arith, h, λ x. elim x [ ])
count_fitting_from total i acc (t ∷ ts) h = elim (Bool-cases (leb (saturating_add acc t) total)) [
  | inl fits ↦
      let (k, e, w, f, l) =
        count_fitting_from total (suc i) (saturating_add acc t) ts (leb→le _ _ fits) in
      (suc k, ground arith, omega arith, f, λ x. l (omega arith))
  | inr over ↦ (0, ground arith, omega arith, h, λ _. ground arith)
]

-- The loop of `update_from_response` finds the longest prefix of messages that fits.
count_fitting-IsLongestFit :
    (total : ℕ) (estimates : List ℕ)
    → IsLongestFit total estimates (count_fitting total 0 0 0 estimates)
count_fitting-IsLongestFit total estimates =
    let (k, e, w, f, l) = count_fitting_from total 0 0 estimates (omega arith) in
    let e' : count_fitting total 0 0 0 estimates ≡ k = omega arith in
    rw e' (record { within = w; fits = f; longest = l })

-- The floor that `total` confirmed tokens give.
pub record FloorIs (total : ℕ) (estimates : List ℕ) (floor : ℕ) : Type 0 where
  pub cold : total < min_cached_tokens → floor ≡ 0
  pub warm : min_cached_tokens ≤ total → IsLongestFit total estimates floor

confirm-FloorIs :
    (touched read written : ℕ) (estimates : List ℕ) (s : PrefixState)
    → s.turn_number < u64_max
    → (let c = confirm touched read written estimates s in
        FloorIs (saturating_add read written) estimates (
          if c.turn_number == 0 || ltb c.cached_token_count min_cached_tokens
          then 0
          else c.cached_message_count))
unfolding confirm
confirm-FloorIs touched read written estimates s h =
    let total = saturating_add read written in
    let turned : ((s.turn_number + 1) % 2 ^ 64 == 0) ≡ false = ground arith in
    record {
      cold = λ c. rw (lt→ltb _ _ c) (ground arith);
      warm = λ w.
          let few : ltb total min_cached_tokens ≡ false = ground arith in
          let some_ : (total == 0) ≡ false = ground arith in
          rw (turned, few, some_) (count_fitting-IsLongestFit total estimates);
    }

-- What the map holds of a session right behind an update, through a sweep in its lifetime.
lookup-update :
    (now touched : ℕ) (key : Key) (read written : ℕ) (estimates : List ℕ) (inner : Inner)
    → lookup key (update_from_response now touched key read written estimates inner).prefixes
      ≡ some (
          confirm touched read written estimates
            (or_fresh touched (lookup key (maybe_cleanup now inner).prefixes)))
unfolding update_from_response
lookup-update now touched key read written estimates inner = lookup-write_self key _ _

lookup-maybe_cleanup :
    (now : ℕ) (key : Key) (s : PrefixState) (inner : Inner)
    → lookup key inner.prefixes ≡ some s
    → now ≤ s.last_activity + session_ttl
    → lookup key (maybe_cleanup now inner).prefixes ≡ some s
unfolding maybe_cleanup
lookup-maybe_cleanup now key s inner h live =
    elim (Bool-cases (cleaned_recently now inner.last_cleanup)) [
      | inl recent ↦ rw recent h
      | inr due ↦
          rw due (lookup-retain (is_live now) key s inner.prefixes h (le→leb _ _ (omega arith)))
    ]

frozen_lem :
    (now touched : ℕ) (key : Key) (s : PrefixState) (inner : Inner)
    → lookup key (maybe_cleanup now inner).prefixes ≡ some s
    → (frozen_message_count now touched key inner).0 ≡ (
        if s.turn_number == 0 || ltb s.cached_token_count min_cached_tokens
        then 0
        else s.cached_message_count)
unfolding frozen_message_count
frozen_lem now touched key s inner h =
    ap (λ o. (floor_of (maybe_cleanup now inner) key touched o).0) h ∙ ground arith

-- After an update, before the session has been idle for its lifetime, and where the turn counter
-- does not wrap, the floor is 0 if fewer than 1024 tokens were confirmed as cached, and else the
-- length of the longest prefix of the messages whose estimates fit into the confirmed tokens.
pub frozen_after_update :
    (now touched now' touched' : ℕ) (key : Key) (read written : ℕ) (estimates : List ℕ)
    (inner : Inner)
    → now' ≤ touched + session_ttl
    → (or_fresh touched (lookup key (maybe_cleanup now inner).prefixes)).turn_number < u64_max
    → FloorIs
        (saturating_add read written)
        estimates
        (frozen_message_count now' touched' key
          (update_from_response now touched key read written estimates inner)).0
frozen_after_update now touched now' touched' key read written estimates inner live turns =
    let s : PrefixState = or_fresh touched (lookup key (maybe_cleanup now inner).prefixes) in
    let c : PrefixState = confirm touched read written estimates s in
    let live' : now' ≤ c.last_activity + session_ttl = unfold confirm in live in
    let inner' : Inner = update_from_response now touched key read written estimates inner in
    let found = lookup-update now touched key read written estimates inner in
    rw (frozen_lem now' touched' key c inner' (lookup-maybe_cleanup now' key c inner' found live'))
      (confirm-FloorIs touched read written estimates s turns)
