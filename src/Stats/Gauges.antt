-- ===== src/Stats/Gauges.antt =====
-- src/stats.rs: `RateLimitSnapshot::is_empty` and `record_rate_limit_snapshot`. An `i64` gauge is
-- copied and never computed with, so it stands here as a number.
use hr.Prelude.{
  ℕ, ◌≡◌, Bool, true, false, ◌&&◌, Option, none, some, List, [], ◌∷◌, if◌then◌else◌, eq_text,
  eq_text_iff, arith, Bool-cases, inl, inr, Text,
}
use hr.Stats.{RateLimitSnapshot, Stats}

abbrev pub is_none {ℓ} : {A : Type ℓ} → Option A → Bool
is_none none = true
is_none (some _) = false

unfoldable pub is_empty : RateLimitSnapshot → Bool
is_empty r =
    is_none r.remaining_requests
    && is_none r.remaining_tokens
    && is_none r.remaining_input_tokens
    && is_none r.remaining_output_tokens

-- `if new.is_some() { old = new; }`
abbrev pub or_keep : Option ℕ → Option ℕ → Option ℕ
or_keep none old = old
or_keep (some v) old = some v

abbrev pub no_gauges : RateLimitSnapshot
no_gauges = record {
  remaining_requests = none;
  remaining_tokens = none;
  remaining_input_tokens = none;
  remaining_output_tokens = none;
}

unfoldable pub overwrite : RateLimitSnapshot → RateLimitSnapshot → RateLimitSnapshot
overwrite new old = record {
  remaining_requests = or_keep new.remaining_requests old.remaining_requests;
  remaining_tokens = or_keep new.remaining_tokens old.remaining_tokens;
  remaining_input_tokens = or_keep new.remaining_input_tokens old.remaining_input_tokens;
  remaining_output_tokens = or_keep new.remaining_output_tokens old.remaining_output_tokens;
}

-- `entry(provider).or_default()`, written through
unfoldable pub write_gauges :
    Text → RateLimitSnapshot → List (Text × RateLimitSnapshot) → List (Text × RateLimitSnapshot)
write_gauges provider new [] = (provider, overwrite new no_gauges) ∷ []
write_gauges provider new ((p, old) ∷ m) =
    if eq_text p provider
    then (p, overwrite new old) ∷ m
    else (p, old) ∷ write_gauges provider new m

unfoldable pub record_rate_limit_snapshot : Text → RateLimitSnapshot → Stats → Stats
unfolding is_empty write_gauges overwrite
record_rate_limit_snapshot provider snapshot s =
    if is_empty snapshot
    then s
    else record s { rate_limit_remaining = write_gauges provider snapshot s.rate_limit_remaining }

unfoldable pub gauges_of : Text → List (Text × RateLimitSnapshot) → RateLimitSnapshot
gauges_of provider [] = no_gauges
gauges_of provider ((p, g) ∷ m) = if eq_text p provider then g else gauges_of provider m

differ :
    (provider other p : Text)
    → eq_text p provider ≡ false
    → eq_text p other ≡ true
    → eq_text provider other ≡ false
differ provider other p h k =
    ground (arith, eq_text_iff p provider, eq_text_iff p other, eq_text_iff provider other)

gauges_of-write_gauges :
    (provider other : Text) (new : RateLimitSnapshot) (m : List (Text × RateLimitSnapshot))
    → gauges_of other (write_gauges provider new m)
      ≡ (if eq_text provider other then overwrite new (gauges_of provider m) else gauges_of other m)
unfolding gauges_of write_gauges
gauges_of-write_gauges provider other new [] = elim (Bool-cases (eq_text provider other)) [
  | inl same ↦ rw same
  | inr apart ↦ rw apart
]
gauges_of-write_gauges provider other new ((p, g) ∷ m) = elim (Bool-cases (eq_text p provider)) [
  | inl here ↦
      rw (here, (eq_text_iff p provider).0 here, gauges_of)
        (elim (Bool-cases (eq_text provider other)) [ inl same ↦ rw same | inr apart ↦ rw apart ])
  | inr later ↦ rw later (elim (Bool-cases (eq_text p other)) [
    | inl found ↦ rw (found, differ provider other p later found)
    | inr further ↦ rw further (gauges_of-write_gauges provider other new m)
  ])
]

overwrite_empty : (new old : RateLimitSnapshot) → is_empty new ≡ true → overwrite new old ≡ old
unfolding is_empty overwrite
overwrite_empty new old h = ground arith

-- A snapshot overwrites, of its provider's gauges, those that it reports, and keeps the others, and
-- those of every other provider; this also where it reports none at all.
pub gauges_of-record :
    (provider other : Text) (new : RateLimitSnapshot) (s : Stats)
    → gauges_of other (record_rate_limit_snapshot provider new s).rate_limit_remaining ≡ (
        if eq_text provider other
        then overwrite new (gauges_of provider s.rate_limit_remaining)
        else gauges_of other s.rate_limit_remaining)
unfolding record_rate_limit_snapshot
gauges_of-record provider other new s = elim (Bool-cases (is_empty new)) [
  | inl nothing ↦ rw nothing (elim (Bool-cases (eq_text provider other)) [
    | inl same ↦
        rw (same, overwrite_empty new (gauges_of provider s.rate_limit_remaining) nothing)
          (rw ((eq_text_iff provider other).0 same))
    | inr apart ↦ rw apart
  ])
  | inr something ↦ rw something (gauges_of-write_gauges provider other new s.rate_limit_remaining)
]
