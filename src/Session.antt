-- ===== src/Session.antt =====
-- src/session.rs: `SessionTrackers` with its prefix tracker. The lock is held for a whole method, so
-- a method is a function of the state; an `Instant` is a number of nanoseconds, and each call of
-- `Instant::now` is an argument. A `HashMap` is an association list.
pub mod Entries
pub mod Estimates
pub mod Betas
pub mod Floor
pub mod Isolation
pub mod Ids
mod Lru
pub mod Sticky
mod Tests
use hr.Prelude.{
  ℕ, zero, suc, ◌+◌, ◌-◌, ◌*◌, ◌%◌, ◌^◌, Bool, true, false, not, ◌&&◌, ◌||◌, Option, none, some,
  List, [], ◌∷◌, ltb, leb, ◌==◌, if◌then◌else◌, eq_text, eq_text_iff, ◌≡◌, ◌↔◌, arith, retain, Text,
  min,
}

pub data SessionProvider : Type 0 where
  anthropic open_ai : SessionProvider

abbrev pub eq_provider : SessionProvider → SessionProvider → Bool
eq_provider anthropic anthropic = true
eq_provider open_ai open_ai = true
eq_provider _ _ = false

-- `(SessionProvider, String)`, the key of both maps
abbrev pub Key : Type 0
Key = SessionProvider × Text

unfoldable pub eq_key : Key → Key → Bool
eq_key (p, s) (q, t) = eq_provider p q && eq_text s t

pub eq_key_iff : (j k : Key) → (eq_key j k ≡ true) ↔ (j ≡ k)
unfolding eq_key
eq_key_iff (anthropic, s) (anthropic, t) = ground (arith, eq_text_iff s t)
eq_key_iff (anthropic, s) (open_ai, t) = ground (arith, eq_text_iff s t)
eq_key_iff (open_ai, s) (anthropic, t) = ground (arith, eq_text_iff s t)
eq_key_iff (open_ai, s) (open_ai, t) = ground (arith, eq_text_iff s t)

pub record PrefixState : Type 0 where
  pub cached_token_count : ℕ
  pub cached_message_count : ℕ
  pub turn_number : ℕ
  pub last_activity : ℕ

abbrev pub Prefixes : Type 0
Prefixes = List (Key × PrefixState)

pub record Inner : Type 0 where
  pub prefixes : Prefixes
  pub last_cleanup : Option ℕ
  pub betas : List (Key × List Text)

-- `SessionTrackers::new`
abbrev pub new : Inner
new = record { prefixes = []; last_cleanup = none; betas = [] }

abbrev pub min_cached_tokens : ℕ
min_cached_tokens = 1024

abbrev pub nanos : ℕ
nanos = 1_000_000_000

abbrev pub session_ttl : ℕ
session_ttl = 600 * nanos

abbrev pub cleanup_interval : ℕ
cleanup_interval = 60 * nanos

-- `u64::saturating_add`
abbrev pub u64_max : ℕ
u64_max = 2 ^ 64 - 1

unfoldable pub saturating_add : ℕ → ℕ → ℕ
saturating_add a b = min (a + b) u64_max

unfoldable pub lookup : Key → Prefixes → Option PrefixState
unfolding eq_key
lookup k [] = none
lookup k ((j, s) ∷ m) = if eq_key j k then some s else lookup k m

-- Writes through the reference that `get_mut` and `entry` give: the first entry of the key.
unfoldable pub write : Key → PrefixState → Prefixes → Prefixes
unfolding eq_key
write k s [] = (k, s) ∷ []
write k s ((j, t) ∷ m) = if eq_key j k then (j, s) ∷ m else (j, t) ∷ write k s m

-- `last_cleanup.is_some_and(|last| now.duration_since(last) < CLEANUP_INTERVAL)`
unfoldable pub cleaned_recently : ℕ → Option ℕ → Bool
cleaned_recently now none = false
cleaned_recently now (some last) = ltb (now - last) cleanup_interval

abbrev pub is_live : ℕ → Key × PrefixState → Bool
is_live now (k, s) = leb (now - s.last_activity) session_ttl

unfoldable pub maybe_cleanup : ℕ → Inner → Inner
unfolding cleaned_recently
maybe_cleanup now inner =
    if cleaned_recently now inner.last_cleanup
    then inner
    else record inner { prefixes = retain (is_live now) inner.prefixes; last_cleanup = some now }

-- Behind the lookup of `frozen_message_count`; `touched` is the second reading of the clock.
unfoldable pub floor_of : Inner → Key → ℕ → Option PrefixState → ℕ × Inner
unfolding write
floor_of inner key touched none = (0, inner)
floor_of inner key touched (some state) =
    let state' = record state { last_activity = touched } in
    let inner' = record inner { prefixes = write key state' inner.prefixes } in
    if state.turn_number == 0 || ltb state.cached_token_count min_cached_tokens
    then (0, inner')
    else (state.cached_message_count, inner')

unfoldable pub frozen_message_count : ℕ → ℕ → Key → Inner → ℕ × Inner
unfolding maybe_cleanup lookup floor_of
frozen_message_count now touched key inner =
    let cleaned = maybe_cleanup now inner in
    floor_of cleaned key touched (lookup key cleaned.prefixes)

-- The loop over the estimates, at message `index`, with `accumulated` and `frozen_count`.
unfoldable pub count_fitting : ℕ → ℕ → ℕ → ℕ → List ℕ → ℕ
unfolding saturating_add
count_fitting total index accumulated frozen [] = frozen
count_fitting total index accumulated frozen (tokens ∷ rest) =
    let accumulated' = saturating_add accumulated tokens in
    let further = count_fitting total (suc index) accumulated' (index + 1) rest in
    if leb accumulated' total then further else frozen

abbrev pub fresh : ℕ → PrefixState
fresh touched = record {
  cached_token_count = 0;
  cached_message_count = 0;
  turn_number = 0;
  last_activity = touched;
}

abbrev pub or_fresh : ℕ → Option PrefixState → PrefixState
or_fresh touched none = fresh touched
or_fresh touched (some s) = s

-- `update_from_response` on the entry of its session; `turn_number` wraps as a release build does.
unfoldable pub confirm : ℕ → ℕ → ℕ → List ℕ → PrefixState → PrefixState
unfolding count_fitting
confirm touched cache_read cache_write estimates state =
    let total_cached = saturating_add cache_read cache_write in
    let frozen = if total_cached == 0 then 0 else count_fitting total_cached 0 0 0 estimates in
    record {
      cached_token_count = total_cached;
      cached_message_count = frozen;
      turn_number = (state.turn_number + 1) % 2 ^ 64;
      last_activity = touched;
    }

unfoldable pub update_from_response : ℕ → ℕ → Key → ℕ → ℕ → List ℕ → Inner → Inner
unfolding maybe_cleanup lookup write confirm
update_from_response now touched key cache_read cache_write estimates inner =
    let cleaned = maybe_cleanup now inner in
    let state = or_fresh touched (lookup key cleaned.prefixes) in
    record cleaned {
      prefixes =
          write key (confirm touched cache_read cache_write estimates state) cleaned.prefixes;
    }
