-- ===== src/Sse/Stream.antt =====
-- src/sse.rs: `SseStreamState`, the state machine that reads the usage out of a stream's events, with
-- what it writes outside: the counters, the session trackers, and the cache hit rates, of which a
-- sample is the quotient of two numbers. `serde_json::from_str` is the argument `from_str`. A call of
-- `apply` has the two readings of the clock that an update of the trackers takes.
pub mod Apply
pub mod Once
pub mod Usage
use hr.Prelude.{
  ℕ, ◌+◌, ◌-◌, ◌*◌, ◌/◌, max, Bool, true, false, not, ◌&&◌, ◌||◌, Option, none, some, List, [], ◌∷◌,
  ◌++◌, ltb, leb, ◌==◌, if◌then◌else◌, eq_text, any, length, lit, Text,
}
use hr.Prelude.Strings.{ends_with}
use hr.Json.{
  Value, get, as_str, as_u64, as_array, is_object, and_then, or_else, filter, is_some_and,
  unwrap_or, get_str,
}
use hr.Session.{SessionProvider, Inner, saturating_add, update_from_response}
use hr.Stats.{
  Stats, record_sse_usage, record_inferred_cache_write_tokens, record_ccr_stream_tool_call,
  record_service_tier, record_response_status,
}
use hr.Sse.Framer.{SseEvent, data_str, is_done_sentinel}

pub data SseKind : Type 0 where
  openai_chat openai_responses anthropic : SseKind

abbrev pub provider_label : SseKind → Text
provider_label openai_chat = lit "openai_chat"
provider_label openai_responses = lit "openai_responses"
provider_label anthropic = lit "anthropic"

pub record SseSessionCtx : Type 0 where
  pub provider : SessionProvider
  pub session_id : Text
  pub message_token_estimates : List ℕ

pub record SseStreamState : Type 0 where
  pub kind : SseKind
  pub input_tokens : ℕ
  pub output_tokens : ℕ
  pub cache_read_input_tokens : ℕ
  pub cache_creation_input_tokens : ℕ
  pub emitted : Bool
  pub responses_last_status : Option Text
  pub assistant_chars : ℕ
  pub session : Option SseSessionCtx

abbrev pub new : SseKind → Option SseSessionCtx → SseStreamState
new kind session = record {
  kind = kind;
  input_tokens = 0;
  output_tokens = 0;
  cache_read_input_tokens = 0;
  cache_creation_input_tokens = 0;
  emitted = false;
  responses_last_status = none;
  assistant_chars = 0;
  session = session;
}

-- What the machine writes outside of itself.
pub record World : Type 0 where
  pub stats : Stats
  pub trackers : Inner
  pub hit_rates : List (Text × ℕ × ℕ)

unfoldable pub count : (Stats → Stats) → World → World
count record_it w = record w { stats = record_it w.stats }

unfoldable pub usage_u64_opt : Value → List Text → Option ℕ
usage_u64_opt value [] = none
usage_u64_opt value (key ∷ keys) =
    or_else (and_then (get key value) as_u64) (usage_u64_opt value keys)

unfoldable pub usage_u64 : Value → List Text → ℕ
unfolding usage_u64_opt
usage_u64 value keys = unwrap_or 0 (usage_u64_opt value keys)

unfoldable pub absorb_usage : Value → SseStreamState → SseStreamState
unfolding usage_u64
absorb_usage usage st =
    let input = usage_u64 usage (lit "prompt_tokens" ∷ lit "input_tokens" ∷ []) in
    let output = usage_u64 usage (lit "completion_tokens" ∷ lit "output_tokens" ∷ []) in
    let details =
      or_else (get (lit "prompt_tokens_details") usage) (get (lit "input_tokens_details") usage) in
    let cache_read = unwrap_or 0 (
      or_else (and_then details (λ d. usage_u64_opt d (lit "cached_tokens" ∷ [])))
        (usage_u64_opt usage (lit "cache_read_input_tokens" ∷ []))) in
    let cache_creation = usage_u64 usage (lit "cache_creation_input_tokens" ∷ []) in
    record st {
      input_tokens = max st.input_tokens input;
      output_tokens = max st.output_tokens output;
      cache_read_input_tokens = max st.cache_read_input_tokens cache_read;
      cache_creation_input_tokens = max st.cache_creation_input_tokens cache_creation;
    }

-- `((chars as f64 + 20.0) / 3.5).floor().max(1.0) as u64`, exact below 2^50 characters
abbrev pub assistant_estimate : ℕ → ℕ
assistant_estimate chars = max ((chars + 20) * 2 / 7) 1

abbrev pub is_anthropic : SseKind → Bool
is_anthropic anthropic = true
is_anthropic _ = false

-- The cache writes, explicit or inferred, and whether they were inferred.
unfoldable pub cache_write : SseStreamState → ℕ
cache_write st =
    if is_anthropic st.kind || ltb 0 st.cache_creation_input_tokens
    then st.cache_creation_input_tokens
    else st.input_tokens - st.cache_read_input_tokens

unfoldable pub record_inferred : SseStreamState → World → World
unfolding count
record_inferred st w =
    if is_anthropic st.kind || ltb 0 st.cache_creation_input_tokens
    then w
    else count (record_inferred_cache_write_tokens (st.input_tokens - st.cache_read_input_tokens)) w

unfoldable pub denominator : SseStreamState → ℕ
unfolding saturating_add
denominator st =
    if is_anthropic st.kind
    then saturating_add (saturating_add st.input_tokens st.cache_read_input_tokens)
        st.cache_creation_input_tokens
    else st.input_tokens

unfoldable pub record_hit_rate : SseStreamState → World → World
unfolding denominator
record_hit_rate st w =
    if ltb 0 (denominator st) && leb st.cache_read_input_tokens (denominator st)
    then record w {
      hit_rates =
          (provider_label st.kind, st.cache_read_input_tokens, denominator st) ∷ w.hit_rates;
    }
    else w

unfoldable pub estimates_of : SseStreamState → SseSessionCtx → List ℕ
estimates_of st session =
    if is_anthropic st.kind && ltb 0 st.assistant_chars
    then session.message_token_estimates ++ assistant_estimate st.assistant_chars ∷ []
    else session.message_token_estimates

unfoldable pub feed_session : ℕ → ℕ → SseStreamState → Option SseSessionCtx → World → World
unfolding estimates_of cache_write
feed_session now touched st none w = w
feed_session now touched st (some session) w = record w {
  trackers =
      update_from_response now touched (session.provider, session.session_id)
        st.cache_read_input_tokens (cache_write st) (estimates_of st session) w.trackers;
}

abbrev pub no_usage : SseStreamState → Bool
no_usage st =
    (st.input_tokens == 0)
    && (st.output_tokens == 0)
    && (st.cache_read_input_tokens == 0)
    && (st.cache_creation_input_tokens == 0)

-- What `emit_final` writes outside behind its two guards.
unfoldable pub report : ℕ → ℕ → SseStreamState → World → World
unfolding record_inferred record_hit_rate feed_session
report now touched st w = feed_session now touched st st.session (
    record_hit_rate st (
      record_inferred st (
        count
          (record_sse_usage st.input_tokens st.output_tokens st.cache_read_input_tokens
            st.cache_creation_input_tokens)
          w)))

unfoldable pub emit_final : ℕ → ℕ → SseStreamState → World → SseStreamState × World
unfolding report
emit_final now touched st w =
    if st.emitted
    then (st, w)
    else if no_usage st
    then (record st { emitted = true }, w)
    else (record st { emitted = true }, report now touched st w)
