-- ===== src/Stats.antt =====
-- src/stats.rs: the counters, one function for each `record_*`. `fetch_add` wraps at 2^64. The two
-- values that are floats, `savings_ratio` and `sse_cache_hit_rates`, are not here.
pub mod Gauges
use hr.Prelude.{
  ℕ, ◌+◌, ◌-◌, ◌%◌, ◌^◌, ◌≡◌, Option, none, some, List, [], ◌∷◌, if◌then◌else◌, eq_text, Text,
}

pub record RateLimitSnapshot : Type 0 where
  pub remaining_requests : Option ℕ
  pub remaining_tokens : Option ℕ
  pub remaining_input_tokens : Option ℕ
  pub remaining_output_tokens : Option ℕ

pub record Stats : Type 0 where
  pub total_requests : ℕ
  pub compressed_requests : ℕ
  pub bytes_before : ℕ
  pub bytes_after : ℕ
  pub tokens_before : ℕ
  pub tokens_after : ℕ
  pub ccr_entry_count : ℕ
  pub decompress_hits : ℕ
  pub decompress_misses : ℕ
  pub websocket_sessions : ℕ
  pub active_websocket_sessions : ℕ
  pub sse_streams : ℕ
  pub sse_input_tokens : ℕ
  pub sse_output_tokens : ℕ
  pub sse_cache_read_input_tokens : ℕ
  pub sse_cache_creation_input_tokens : ℕ
  pub skipped_requests : List (Text × ℕ)
  pub ccr_continuation_rounds : ℕ
  pub ccr_continuation_retrievals : ℕ
  pub ccr_stream_tool_calls : ℕ
  pub ccr_batch_results_processed : ℕ
  pub sse_inferred_cache_write_tokens : ℕ
  pub service_tier_counts : List (Text × ℕ)
  pub response_status_counts : List (Text × ℕ)
  pub rate_limit_remaining : List (Text × RateLimitSnapshot)

-- `Stats::default`
abbrev pub default : Stats
default = record {
  total_requests = 0;
  compressed_requests = 0;
  bytes_before = 0;
  bytes_after = 0;
  tokens_before = 0;
  tokens_after = 0;
  ccr_entry_count = 0;
  decompress_hits = 0;
  decompress_misses = 0;
  websocket_sessions = 0;
  active_websocket_sessions = 0;
  sse_streams = 0;
  sse_input_tokens = 0;
  sse_output_tokens = 0;
  sse_cache_read_input_tokens = 0;
  sse_cache_creation_input_tokens = 0;
  skipped_requests = [];
  ccr_continuation_rounds = 0;
  ccr_continuation_retrievals = 0;
  ccr_stream_tool_calls = 0;
  ccr_batch_results_processed = 0;
  sse_inferred_cache_write_tokens = 0;
  service_tier_counts = [];
  response_status_counts = [];
  rate_limit_remaining = [];
}

-- `fetch_add` of a `u64`
unfoldable pub fetch_add : ℕ → ℕ → ℕ
fetch_add a b = (a + b) % 2 ^ 64

-- `*counts.entry(label).or_insert(0) += 1`
unfoldable pub bump : Text → List (Text × ℕ) → List (Text × ℕ)
unfolding fetch_add
bump label [] = (label, 1) ∷ []
bump label ((l, n) ∷ m) = if eq_text l label then (l, fetch_add n 1) ∷ m else (l, n) ∷ bump label m

unfoldable pub record_request : Stats → Stats
unfolding fetch_add
record_request s = record s { total_requests = fetch_add s.total_requests 1 }

unfoldable pub record_compressed_request : ℕ → ℕ → ℕ → ℕ → Stats → Stats
unfolding fetch_add
record_compressed_request before after tokens tokens' s = record s {
  compressed_requests = fetch_add s.compressed_requests 1;
  bytes_before = fetch_add s.bytes_before before;
  bytes_after = fetch_add s.bytes_after after;
  tokens_before = fetch_add s.tokens_before tokens;
  tokens_after = fetch_add s.tokens_after tokens';
}

unfoldable pub record_skipped_request : Text → Stats → Stats
unfolding bump
record_skipped_request reason s = record s { skipped_requests = bump reason s.skipped_requests }

unfoldable pub record_ccr_entry_inserted : Stats → Stats
unfolding fetch_add
record_ccr_entry_inserted s = record s { ccr_entry_count = fetch_add s.ccr_entry_count 1 }

unfoldable pub record_decompress_hit : Stats → Stats
unfolding fetch_add
record_decompress_hit s = record s { decompress_hits = fetch_add s.decompress_hits 1 }

unfoldable pub record_decompress_miss : Stats → Stats
unfolding fetch_add
record_decompress_miss s = record s { decompress_misses = fetch_add s.decompress_misses 1 }

unfoldable pub record_websocket_open : Stats → Stats
unfolding fetch_add
record_websocket_open s = record s {
  websocket_sessions = fetch_add s.websocket_sessions 1;
  active_websocket_sessions = fetch_add s.active_websocket_sessions 1;
}

-- `saturating_sub(1)`
unfoldable pub record_websocket_close : Stats → Stats
record_websocket_close s = record s { active_websocket_sessions = s.active_websocket_sessions - 1 }

unfoldable pub record_sse_stream : Stats → Stats
unfolding fetch_add
record_sse_stream s = record s { sse_streams = fetch_add s.sse_streams 1 }

unfoldable pub record_sse_usage : ℕ → ℕ → ℕ → ℕ → Stats → Stats
unfolding fetch_add
record_sse_usage input output cache_read cache_creation s = record s {
  sse_input_tokens = fetch_add s.sse_input_tokens input;
  sse_output_tokens = fetch_add s.sse_output_tokens output;
  sse_cache_read_input_tokens = fetch_add s.sse_cache_read_input_tokens cache_read;
  sse_cache_creation_input_tokens = fetch_add s.sse_cache_creation_input_tokens cache_creation;
}

unfoldable pub record_ccr_continuation_round : Stats → Stats
unfolding fetch_add
record_ccr_continuation_round s = record s {
  ccr_continuation_rounds = fetch_add s.ccr_continuation_rounds 1;
}

unfoldable pub record_ccr_continuation_retrievals : ℕ → Stats → Stats
unfolding fetch_add
record_ccr_continuation_retrievals count s = record s {
  ccr_continuation_retrievals = fetch_add s.ccr_continuation_retrievals count;
}

unfoldable pub record_ccr_stream_tool_call : Stats → Stats
unfolding fetch_add
record_ccr_stream_tool_call s = record s {
  ccr_stream_tool_calls = fetch_add s.ccr_stream_tool_calls 1;
}

unfoldable pub record_ccr_batch_result_processed : Stats → Stats
unfolding fetch_add
record_ccr_batch_result_processed s = record s {
  ccr_batch_results_processed = fetch_add s.ccr_batch_results_processed 1;
}

unfoldable pub record_inferred_cache_write_tokens : ℕ → Stats → Stats
unfolding fetch_add
record_inferred_cache_write_tokens tokens s = record s {
  sse_inferred_cache_write_tokens = fetch_add s.sse_inferred_cache_write_tokens tokens;
}

unfoldable pub record_service_tier : Text → Stats → Stats
unfolding bump
record_service_tier tier s = record s { service_tier_counts = bump tier s.service_tier_counts }

unfoldable pub record_response_status : Text → Stats → Stats
unfolding bump
record_response_status status s = record s {
  response_status_counts = bump status s.response_status_counts;
}
