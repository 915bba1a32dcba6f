-- ===== src/Proxy/Continuation/Rounds.antt =====
-- src/proxy.rs: `run_ccr_continuation`, which answers the proxy's own calls and sends the conversation
-- on. The upstream is the argument `send`: what it answers a body, by the bodies that it was sent before,
-- the newest first (Send has the request that `send_ccr_continuation` makes of a body). A panic of `continuation_body["messages"] = …`, on
-- a body that is no object, is `none`.
use hr.Prelude.{
  ℕ, zero, suc, Bool, true, false, not, ◌&&◌, Option, none, some, List, [], ◌∷◌, ◌++◌, ◌==◌,
  if◌then◌else◌, length, lit, Text,
}
use hr.Json.{Value, array, object, string, get, as_array, and_then, unwrap_or}
use hr.Json.Edit.{json_object, index_set, values_of}
use hr.Result.{Result, ok, err}
use hr.Stats.{Stats, record_ccr_continuation_round, record_ccr_continuation_retrievals}
use hr.Ccr.{CcrStore}
use hr.Proxy.Retrieve.{retrieve_value}
use hr.Proxy.Continuation.{
  CcrProvider, anthropic, open_ai, provider_str, ParsedToolCall, provider_tool_calls,
  extract_ccr_tool_calls, openai_choice_count, strip_ccr_tool_calls, extract_assistant_message,
  format_tool_result,
}

abbrev pub max_ccr_continuation_rounds : ℕ
max_ccr_continuation_rounds = 3

abbrev pub is_open_ai : CcrProvider → Bool
is_open_ai open_ai = true
is_open_ai anthropic = false

abbrev pub is_nil {ℓ} : {A : Type ℓ} → List A → Bool
is_nil [] = true
is_nil (_ ∷ _) = false

-- The variables of the loop, the counters, and the bodies sent, the newest first.
pub record Loop : Type 0 where
  pub messages : List Value
  pub current : Value
  pub changed : Bool
  pub sent : List Value
  pub stats : Stats

-- What a round does with the loop: leave it, go on, or panic.
pub data Turn : Type 0 where
  leave : Loop → Turn
  go_on : Loop → Turn
  panics : Turn

unfoldable pub take_turn : (Loop → Option Loop) → Turn → Option Loop
take_turn next (leave loop) = some loop
take_turn next (go_on loop) = next loop
take_turn next panics = none

-- What the program calls that is not part of it.
pub record Library : Type 0 where
  pub from_str : Text → Option Value
  pub to_string : Value → Text
  pub to_lowercase : Text → Text

-- `if let Some(stripped) = strip_ccr_tool_calls(…)` with its two assignments
unfoldable pub take_stripped : Option Value → Loop → Loop
take_stripped none loop = loop
take_stripped (some stripped) loop = record loop { current = stripped; changed = true }

-- The messages that answer the calls: one of a user with every result, or one for each.
unfoldable pub result_messages : CcrProvider → List Value → List Value
unfolding json_object values_of
result_messages anthropic blocks =
    object (
      json_object
        ((lit "role", string (lit "user")) ∷ (lit "content", array (values_of blocks)) ∷ []))
    ∷ []
result_messages open_ai results = results

-- Behind a request: the body is written down, and an error leaves the loop.
unfoldable pub after_send : Value → Result Value → Loop → Turn
after_send body (err _) loop = leave (record loop { sent = body ∷ loop.sent })
after_send body (ok next) loop = go_on (record loop {
  current = next;
  changed = true;
  sent = body ∷ loop.sent;
  stats = record_ccr_continuation_round loop.stats;
})

unfoldable pub send_body : (List Value → Value → Result Value) → Option Value → Loop → Turn
unfolding after_send
send_body send none loop = panics
send_body send (some body) loop = after_send body (send loop.sent body) loop

abbrev pub strip_loop : Library → CcrProvider → Loop → Loop
strip_loop lib provider loop =
    take_stripped (strip_ccr_tool_calls lib.from_str provider loop.current) loop

module _ (lib : Library) (S : CcrStore) (s : S.State) (provider : CcrProvider) where
  -- The results of the calls, in their order.
  unfoldable pub answers : List (Value × ParsedToolCall) → Stats → List Value × Stats
  unfolding format_tool_result
  answers [] stats = ([], stats)
  answers ((call, parsed) ∷ calls) stats =
      let (value, stats') = retrieve_value lib.to_lowercase S parsed.hash parsed.query s stats in
      let (rest, stats'') = answers calls stats' in
      (format_tool_result lib.to_string call (provider_str provider) value ∷ rest, stats'')

  -- The calls answered: the assistant's turn and the results join the messages.
  unfoldable pub resolve : List (Value × ParsedToolCall) → Loop → Loop
  unfolding answers result_messages
  resolve calls loop =
      let (results, stats) =
        answers calls (record_ccr_continuation_retrievals (length calls) loop.stats) in
      record loop {
        messages =
            loop.messages
            ++ (extract_assistant_message provider loop.current ∷ result_messages provider results);
        stats = stats;
      }

  module _ (send : List Value → Value → Result Value) (request_body : Value) where
    -- One pass through the body of the loop.
    unfoldable pub turn : Loop → Turn
    unfolding resolve send_body take_stripped
    turn loop =
        let calls = extract_ccr_tool_calls lib.from_str provider loop.current in
        let resolved = resolve calls loop in
        if is_nil calls
        then leave loop
        else if is_open_ai provider && not (openai_choice_count loop.current == 1)
        then leave (strip_loop lib provider loop)
        else if not (length (provider_tool_calls provider loop.current) == length calls)
        then leave (strip_loop lib provider loop)
        else send_body send
            (index_set (lit "messages") (array (values_of resolved.messages)) request_body) resolved

    -- `while rounds < MAX_CCR_CONTINUATION_ROUNDS`, by the rounds that are left
    unfoldable pub rounds : ℕ → Loop → Option Loop
    unfolding take_turn
    rounds zero loop = some loop
    rounds (suc left) loop = take_turn (rounds left) (turn loop)

    abbrev pub start : Value → Stats → Loop
    start initial stats = record {
      messages = unwrap_or [] (and_then (get (lit "messages") request_body) as_array);
      current = initial;
      changed = false;
      sent = [];
      stats = stats;
    }

    unfoldable pub run_ccr_continuation : Value → Stats → Option Loop
    unfolding rounds
    run_ccr_continuation initial stats =
        and_then (rounds max_ccr_continuation_rounds (start initial stats))
          (λ loop. some (strip_loop lib provider loop))
