-- ===== src/Proxy/Continuation/Sent.antt =====
-- What a continuation sends to the upstream: the client's request with a longer conversation, in which
-- each call is answered once.
use hr.Prelude.{
  ℕ, zero, suc, ◌≡◌, ◌≢◌, refl, sym, ◌∙◌, ap, false, not, ◌&&◌, Option, none, some, List, [], ◌∷◌,
  ◌++◌, append_assoc, append-nil, ◌==◌, eq_text, map, All, lit, length, Text,
}
use mathlib.Core.Path.{subst}
use hr.Prelude.Strings.{eq_ignore_ascii_case, to_ascii_lowercase, ascii_lower}
use hr.Proxy.Retrieve.{retrieve_value}
use hr.Json.{field, Value, array, get, get_str, as_array, and_then, unwrap_or}
use hr.Json.Edit.{
  json_object, insert, lt_text, index_set, values_of, elements-values_of, get-index_set,
  get-index_set_ne,
}
use hr.Result.{Result, ok, err}
use hr.Stats.{Stats, record_ccr_continuation_retrievals}
use hr.Ccr.{CcrStore}
use hr.Proxy.Continuation.{
  CcrProvider, provider_str, format_tool_result, anthropic, open_ai, ParsedToolCall,
  extract_assistant_message, extract_ccr_tool_calls, openai_choice_count, provider_tool_calls,
  strip_ccr_tool_calls,
}
use hr.Proxy.Continuation.Bounded.{if-intro}
use hr.Proxy.Continuation.Strip.{and_then-eq_some}
use hr.Proxy.Continuation.Rounds.{
  Loop, Turn, leave, go_on, panics, Library, take_stripped, answers, result_messages, resolve,
  strip_loop, send_body, after_send, take_turn, turn, rounds, start, run_ccr_continuation, is_nil,
  is_open_ai, max_ccr_continuation_rounds,
}

abbrev pub messages_of : Value → List Value
messages_of body = unwrap_or [] (and_then (get (lit "messages") body) as_array)

-- A body that differs from the request's in its messages alone, which are the request's and more.
abbrev pub Continues : Value → Value → Type 0
Continues request_body body =
    ((key : Text) → eq_text (lit "messages") key ≡ false → get key body ≡ get key request_body)
    × ((more : List Value) × (messages_of body ≡ messages_of request_body ++ more) × (more ≢ []))

append-cons-ne-nil {ℓ} : {A : Type ℓ} (xs ys : List A) (y : A) → xs ++ (y ∷ ys) ≢ []
append-cons-ne-nil [] ys y = λ h. cc
append-cons-ne-nil (x ∷ xs) ys y = λ h. cc

module _ (request_body : Value) where
  index_set-Continues :
      (more messages : List Value) (body : Value)
      → messages ≡ messages_of request_body ++ more
      → more ≢ []
      → index_set (lit "messages") (array (values_of messages)) request_body ≡ some body
      → Continues request_body body
  index_set-Continues more messages body e ne h = (
    λ key other. get-index_set_ne key (lit "messages") _ request_body body h other,
    (
      more,
      rw (get-index_set (lit "messages") _ request_body body h) (elements-values_of messages ∙ e),
      ne,
    ),
  )

  -- The messages so far are the request's and more, and every body sent continues the request.
  abbrev Keeps : List Value → List Value → Type 0
  Keeps messages sent =
      ((more : List Value) × (messages ≡ messages_of request_body ++ more))
      × All (Continues request_body) sent

  abbrev KeepsTurn : Turn → Type 0
  KeepsTurn (leave loop) = Keeps loop.messages loop.sent
  KeepsTurn (go_on loop) = Keeps loop.messages loop.sent
  KeepsTurn panics = Unit {0}

  after_send-Keeps :
      (body : Value) (answer : Result Value) (loop : Loop)
      → Continues request_body body
      → Keeps loop.messages loop.sent
      → KeepsTurn (after_send body answer loop)
  unfolding after_send
  after_send-Keeps body (err e) loop c k = (k.0, (c, k.1))
  after_send-Keeps body (ok next) loop c k = (k.0, (c, k.1))

  send_body-Keeps :
      (send : List Value → Value → Result Value) (more : List Value) (loop : Loop)
      (o : Option Value)
      → loop.messages ≡ messages_of request_body ++ more
      → more ≢ []
      → All (Continues request_body) loop.sent
      → index_set (lit "messages") (array (values_of loop.messages)) request_body ≡ o
      → KeepsTurn (send_body send o loop)
  unfolding send_body
  send_body-Keeps send more loop none e ne k h = tt
  send_body-Keeps send more loop (some body) e ne k h =
      after_send-Keeps body (send loop.sent body) loop
        (index_set-Continues more loop.messages body e ne h) ((more, e), k)

  take_stripped-Keeps :
      (o : Option Value) (loop : Loop)
      → Keeps loop.messages loop.sent
      → KeepsTurn (leave (take_stripped o loop))
  unfolding take_stripped
  take_stripped-Keeps none loop k = k
  take_stripped-Keeps (some v) loop k = k

  module _ (lib : Library) (S : CcrStore) (s : S.State) (provider : CcrProvider)
      (send : List Value → Value → Result Value) where
    turn-Keeps :
        (loop : Loop)
        → Keeps loop.messages loop.sent
        → KeepsTurn (turn lib S s provider send request_body loop)
    unfolding turn resolve
    turn-Keeps loop k =
        let calls = extract_ccr_tool_calls lib.from_str provider loop.current in
        let resolved = resolve lib S s provider calls loop in
        let assistant = extract_assistant_message provider loop.current in
        let stats = record_ccr_continuation_retrievals (length calls) loop.stats in
        let results = result_messages provider (answers lib S s provider calls stats).0 in
        let stripped =
          take_stripped-Keeps (strip_ccr_tool_calls lib.from_str provider loop.current) loop k in
        let ((more, e), sent) = k in
        if-intro KeepsTurn (is_nil calls) _ _ k (
          if-intro KeepsTurn (is_open_ai provider && not (openai_choice_count loop.current == 1)) _
            _ stripped
            (if-intro KeepsTurn
              (not (length (provider_tool_calls provider loop.current) == length calls)) _ _
              stripped
              (send_body-Keeps send (more ++ (assistant ∷ results)) resolved _
                (ap (λ m. m ++ (assistant ∷ results)) e
                  ∙ append_assoc (messages_of request_body) more (assistant ∷ results))
                (append-cons-ne-nil more results assistant) sent refl)))

    take_turn-Keeps :
        (next : Loop → Option Loop) (t : Turn) (loop' : Loop)
        → ((l : Loop)
            → Keeps l.messages l.sent
            → next l ≡ some loop'
            → Keeps loop'.messages loop'.sent)
        → KeepsTurn t
        → take_turn next t ≡ some loop'
        → Keeps loop'.messages loop'.sent
    unfolding take_turn
    take_turn-Keeps next (leave loop) loop' ih k h =
        subst (λ l. Keeps l.messages l.sent) {x = loop} {y = loop'} (cc) k
    take_turn-Keeps next (go_on loop) loop' ih k h = ih loop k h
    take_turn-Keeps next panics loop' ih k h = cc

    rounds-Keeps :
        (left : ℕ) (loop loop' : Loop)
        → Keeps loop.messages loop.sent
        → rounds lib S s provider send request_body left loop ≡ some loop'
        → Keeps loop'.messages loop'.sent
    unfolding rounds
    rounds-Keeps zero loop loop' k h =
        subst (λ l. Keeps l.messages l.sent) {x = loop} {y = loop'} (cc) k
    rounds-Keeps (suc left) loop loop' k h =
        take_turn-Keeps (rounds lib S s provider send request_body left)
          (turn lib S s provider send request_body loop) loop'
          (λ l kept runs. rounds-Keeps left l loop' kept runs) (turn-Keeps loop k) h

    -- Every body that the continuation sends is the client's request with more messages: the
    -- messages of the request come first, others follow them, and every other field is the request's.
    pub run_ccr_continuation-Continues :
        (initial : Value) (stats : Stats) (loop : Loop)
        → run_ccr_continuation lib S s provider send request_body initial stats ≡ some loop
        → All (Continues request_body) loop.sent
    unfolding run_ccr_continuation
    run_ccr_continuation-Continues initial stats loop h =
        let (end, runs, ends) =
          and_then-eq_some
            (rounds lib S s provider send request_body max_ccr_continuation_rounds
              (start lib S s provider send request_body initial stats))
            (λ (l : Loop). some (strip_loop lib provider l)) h in
        let kept =
          rounds-Keeps max_ccr_continuation_rounds
            (start lib S s provider send request_body initial stats) end
            (([], sym (append-nil _)), tt) runs in
        let stripped =
          take_stripped-Keeps (strip_ccr_tool_calls lib.from_str provider end.current) end kept in
        subst (λ (l : Loop). All (Continues request_body) l.sent) {x = strip_loop lib provider end}
          {y = loop} (cc) stripped.1

-- The field of a result that names the call it answers.
abbrev pub id_key : CcrProvider → Text
id_key anthropic = lit "tool_use_id"
id_key open_ai = lit "tool_call_id"

abbrev pub id_of : Value → Option Text
id_of call = some (unwrap_or [] (get_str (lit "id") call))

format_tool_result-id :
    (to_string : Value → Text) (provider : CcrProvider) (call answer : Value)
    → get_str (id_key provider) (format_tool_result to_string call (provider_str provider) answer)
      ≡ id_of call
unfolding format_tool_result eq_ignore_ascii_case to_ascii_lowercase ascii_lower eq_text lit
    json_object insert lt_text get field
format_tool_result-id to_string anthropic call answer = refl
format_tool_result-id to_string open_ai call answer = refl

module _ (lib : Library) (S : CcrStore) (s : S.State) (provider : CcrProvider) where
  -- Each call is answered by one result, in order, under the identifier of the call.
  pub answers-ids :
      (calls : List (Value × ParsedToolCall)) (stats : Stats)
      → map (get_str (id_key provider)) (answers lib S s provider calls stats).0
        ≡ map (λ (pair : Value × ParsedToolCall). id_of pair.0) calls
  unfolding answers
  answers-ids [] stats = refl
  answers-ids ((call, parsed) ∷ calls) stats =
      let (value, stats') = retrieve_value lib.to_lowercase S parsed.hash parsed.query s stats in
      rw (format_tool_result-id lib.to_string provider call value)
        (ap (◌∷◌ (id_of call)) (answers-ids calls stats'))
