-- ===== src/Proxy/BatchResults.antt =====
-- src/proxy.rs: `forward_batch_create`, which writes down the contexts of a batch, and
-- `forward_batch_results`, which continues the results of a batch line by line. The upstream of the
-- continuations is the argument `send`, by the number of the line among those that are not blank.
pub mod Matches
mod Tests
use hr.Prelude.{
  ℕ, ◌+◌, Bool, true, false, not, ◌&&◌, ◌||◌, Option, none, some, List, [], ◌∷◌, ◌++◌, ◌==◌,
  if◌then◌else◌, eq_text, lit, from_utf8, Text, Bytes,
}
use hr.Prelude.Strings.{trim, is_empty, join, as_bytes}
use hr.Json.{Value, get, and_then, get_str}
use hr.Json.Edit.{set_key}
use hr.Result.{Result, ok, err}
use hr.Stats.{Stats, record_ccr_batch_result_processed}
use hr.Ccr.{CcrStore}
use hr.Proxy.Headers
use hr.Proxy.Retrieve.{lines}
use hr.Proxy.Batches.{Contexts, BatchContextEntry, record_batch_context}
use hr.Proxy.Continuation.{anthropic, extract_ccr_tool_calls}
use hr.Proxy.Continuation.Rounds.{Library, Loop, is_nil, run_ccr_continuation}
use hr.Proxy.Forward.{
  Reply, streamed, buffered, UpstreamResponse, is_none, ccr_response_buffer_eligible,
}

-- `contexts.get(&custom_id)`
unfoldable pub lookup_context : Text → Contexts → Option Value
lookup_context id [] = none
lookup_context id ((k, params) ∷ contexts) =
    if eq_text k id then some params else lookup_context id contexts

-- The write of a batch's contexts behind the answer to its creation.
unfoldable pub record_created :
    ℕ → Option Value → Option Value → List BatchContextEntry → List BatchContextEntry
unfolding record_batch_context
record_created now (some compressed_body) (some response) store =
    elim (get_str (lit "id") response) [
      | none ↦ store
      | some batch_id ↦ record_batch_context now batch_id compressed_body store
    ]
record_created now _ _ store = store

-- `forward_batch_create` behind its request, with the contexts
unfoldable pub forward_batch_create :
    (Bytes → Option Text)
    → (Bytes → Option Value)
    → ℕ
    → Bytes
    → UpstreamResponse
    → List BatchContextEntry
    → Result Reply × List BatchContextEntry
unfolding record_created ccr_response_buffer_eligible
forward_batch_create to_str from_slice now body response store =
    if ccr_response_buffer_eligible to_str response
    then elim response.bytes [
      | err e ↦ (err e, store)
      | ok bytes ↦ (
        ok (buffered response bytes false),
        record_created now (from_slice body) (from_slice bytes) store,
      )
    ]
    else (ok (streamed response none), store)

-- A line written to the client, whether it was continued, and the counters.
pub record Line : Type 0 where
  pub text : Text
  pub processed : Bool
  pub stats : Stats

abbrev pub kept : Text → Stats → Line
kept text stats = record { text = text; processed = false; stats = stats }

-- `result["result"]["message"] = final_message`
unfoldable pub put_message : Value → Value → Value
unfolding set_key
put_message message result = elim (get (lit "result") result) [
  | none ↦ result
  | some inner ↦ set_key (lit "result") (set_key (lit "message") message inner) result
]

abbrev pub is_blank : Text → Bool
is_blank line = is_empty (trim line)

abbrev pub written_onto : Line → List Line × Stats → Option (List Line × Stats)
written_onto out (outs, stats) = some (out ∷ outs, stats)

abbrev pub any_processed : List Line → Bool
any_processed [] = false
any_processed (out ∷ outs) = out.processed || any_processed outs

abbrev pub texts : List Line → List Text
texts [] = []
texts (out ∷ outs) = out.text ∷ texts outs

-- The reply to the client: the upstream's bytes, or the lines joined.
unfoldable pub reply_of : UpstreamResponse → Bytes → List Line → Reply
reply_of response bytes outs =
    if any_processed outs
    then buffered response (as_bytes (join (lit "\n") (texts outs) ++ lit "\n")) true
    else buffered response bytes false

module _ (lib : Library) (S : CcrStore) (s : S.State) (contexts : Contexts) where
  unfoldable pub continued_line : Text → Value → Loop → Line
  unfolding put_message
  continued_line line result loop =
      if loop.changed
      then record {
        text = lib.to_string (put_message loop.current result);
        processed = true;
        stats = record_ccr_batch_result_processed loop.stats;
      }
      else kept line loop.stats

  module _ (send : List Value → Value → Result Value) where
    -- A line with a result whose request has a context; `none` is a panic.
    unfoldable pub continue_line : Text → Value → Option Value → Option Value → Stats → Option Line
    unfolding continued_line
    continue_line line result (some params) (some message) stats =
        if is_nil (extract_ccr_tool_calls lib.from_str anthropic message)
        then some (kept line stats)
        else and_then (run_ccr_continuation lib S s anthropic send params message stats)
            (λ (loop : Loop). some (continued_line line result loop))
    continue_line line result _ _ stats = some (kept line stats)

    unfoldable pub process_result : Text → Option Value → Stats → Option Line
    unfolding continue_line lookup_context
    process_result line none stats = some (kept line stats)
    process_result line (some result) stats =
        continue_line line result
          (and_then (get_str (lit "custom_id") result) (λ id. lookup_context id contexts))
          (and_then (get (lit "result") result) (get (lit "message"))) stats

  module _ (send : ℕ → List Value → Value → Result Value) where
    -- The loop over the lines: those written, and the counters behind them.
    unfoldable pub process_lines : ℕ → List Text → Stats → Option (List Line × Stats)
    unfolding process_result
    process_lines index [] stats = some ([], stats)
    process_lines index (line ∷ rest) stats =
        let skipped = process_lines index rest stats in
        let written =
          and_then (process_result (send index) line (lib.from_str line) stats) (λ (out : Line).
            and_then (process_lines (index + 1) rest out.stats) (written_onto out)) in
        if is_blank line then skipped else written

    unfoldable pub continue_text :
        UpstreamResponse → Bytes → Option Text → Stats → Option (Reply × Stats)
    unfolding process_lines reply_of
    continue_text response bytes none stats = some (buffered response bytes false, stats)
    continue_text response bytes (some text) stats =
        and_then (process_lines 0 (lines text) stats)
          (λ (done : List Line × Stats). some (reply_of response bytes done.0, done.1))

    -- `forward_batch_results` behind its request
    unfoldable pub forward_batch_results : UpstreamResponse → Stats → Option (Result Reply × Stats)
    unfolding continue_text
    forward_batch_results response stats =
        if not (response.status == 200)
          || not (is_none (Headers.get (lit "content-encoding") response.headers))
        then some (ok (streamed response none), stats)
        else elim response.bytes [
          | err e ↦ some (err e, stats)
          | ok bytes ↦
              and_then (continue_text response bytes (from_utf8 bytes) stats)
                (λ (done : Reply × Stats). some (ok done.0, done.1))
        ]
