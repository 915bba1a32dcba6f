-- ===== src/Sse/Stream/Apply.antt =====
-- src/sse.rs: `apply`, `finish`, `run_sse_state_machine` behind its channel, and the detection of
-- retrieval tool calls.
use hr.Prelude.{
  ℕ, ◌+◌, ◌%◌, ◌^◌, Bool, ◌&&◌, ◌||◌, Option, none, some, List, [], ◌∷◌, if◌then◌else◌, eq_text,
  any, length, lit, String, Text,
}
use hr.Prelude.Strings.{ends_with}
use hr.Json.{
  Value, get, as_str, as_array, is_object, and_then, or_else, filter, is_some_and, unwrap_or,
  get_str,
}
use hr.Stats.{record_ccr_stream_tool_call, record_service_tier, record_response_status}
use hr.Sse.Framer.{SseEvent, data_str, is_done_sentinel}
use hr.Sse.Stream.{
  SseKind, openai_chat, openai_responses, anthropic, SseStreamState, World, count, absorb_usage,
  emit_final,
}

abbrev pub is_str : String → Option Text → Bool
is_str text = is_some_and (eq_text (lit text))

unfoldable pub is_retrieve_tool_name : Text → Bool
is_retrieve_tool_name name =
    eq_text name (lit "headroom_retrieve") || ends_with (lit "__headroom_retrieve") name

abbrev pub names_retrieve : Value → Bool
names_retrieve value = is_some_and is_retrieve_tool_name (get_str (lit "name") value)

abbrev is_retrieve_block : Value → Bool
is_retrieve_block block = is_str "tool_use" (get_str (lit "type") block) && names_retrieve block

abbrev is_retrieve_call : Value → Bool
is_retrieve_call call = is_some_and names_retrieve (get (lit "function") call)

abbrev is_retrieve_choice : Value → Bool
is_retrieve_choice choice =
    is_some_and (any is_retrieve_call)
      (and_then (and_then (get (lit "delta") choice) (get (lit "tool_calls"))) as_array)

abbrev is_retrieve_item : Value → Bool
is_retrieve_item item = is_str "function_call" (get_str (lit "type") item) && names_retrieve item

unfoldable pub ccr_stream_tool_call_detected : SseKind → Value → Bool
unfolding is_retrieve_tool_name
ccr_stream_tool_call_detected anthropic value =
    is_str "content_block_start" (get_str (lit "type") value)
    && is_some_and is_retrieve_block (get (lit "content_block") value)
ccr_stream_tool_call_detected openai_chat value =
    is_some_and (any is_retrieve_choice) (and_then (get (lit "choices") value) as_array)
ccr_stream_tool_call_detected openai_responses value =
    is_str "response.output_item.added" (get_str (lit "type") value)
    && is_some_and is_retrieve_item (get (lit "item") value)

-- `service_tier::validate`
abbrev pub service_tiers : List Text
service_tiers =
    lit "auto" ∷ lit "default" ∷ lit "flex" ∷ lit "on_demand" ∷ lit "priority" ∷ lit "scale" ∷ []

unfoldable pub validate : Text → Text
validate raw = if any (eq_text raw) service_tiers then raw else lit "other"

unfoldable pub terminal_status : Text → Option Text
terminal_status kind =
    if eq_text kind (lit "response.completed")
    then some (lit "completed")
    else if eq_text kind (lit "response.failed")
    then some (lit "failed")
    else if eq_text kind (lit "response.incomplete")
    then some (lit "incomplete")
    else none

-- `if let Some(usage) = … { self.absorb_usage(usage); }`
unfoldable pub absorb : Option Value → SseStreamState → SseStreamState
absorb none st = st
absorb (some usage) st = absorb_usage usage st

unfoldable pub record_tier : Option Text → World → World
unfolding validate count
record_tier none w = w
record_tier (some tier) w = count (record_service_tier (validate tier)) w

abbrev delta_chars : Option Text → ℕ
delta_chars none = 0
delta_chars (some text) = length text

abbrev assistant_delta : Option Value → ℕ
assistant_delta none = 0
assistant_delta (some delta) =
    delta_chars (get_str (lit "text") delta)
    + delta_chars (get_str (lit "partial_json") delta)
    + delta_chars (get_str (lit "thinking") delta)

abbrev pub usage_of : Value → Option Value
usage_of value = filter is_object (get (lit "usage") value)

unfoldable pub detect : SseKind → Value → World → World
unfolding ccr_stream_tool_call_detected count
detect kind value w =
    if ccr_stream_tool_call_detected kind value then count record_ccr_stream_tool_call w else w

-- The three arms of `apply`, at a reading of the clock.
module _ (now touched : ℕ) where
  unfoldable pub apply_chat : Option Value → SseStreamState → World → SseStreamState × World
  apply_chat none st w = (st, w)
  apply_chat (some usage) st w = emit_final now touched (absorb_usage usage st) w

  unfoldable pub apply_responses :
      Option Text → Value → SseStreamState → World → SseStreamState × World
  unfolding absorb record_tier
  apply_responses none value st w = (st, w)
  apply_responses (some status) value st w =
      let usage = filter is_object (
        or_else (get (lit "usage") value)
          (and_then (get (lit "response") value) (get (lit "usage")))) in
      let tier =
        and_then
          (or_else (and_then (get (lit "response") value) (get (lit "service_tier")))
            (get (lit "service_tier") value))
          as_str in
      emit_final now touched (absorb usage (record st { responses_last_status = some status }))
        (record_tier tier w)

  -- The count of characters is a `usize`, which wraps at 2^64.
  unfoldable pub apply_anthropic :
      Option Text → Value → SseStreamState → World → SseStreamState × World
  unfolding absorb
  apply_anthropic kind value st w =
      if is_str "message_start" kind
      then (
        absorb
            (filter is_object (
              or_else (and_then (get (lit "message") value) (get (lit "usage")))
                (get (lit "usage") value)))
            st,
        w,
      )
      else if is_str "message_delta" kind
      then (absorb (usage_of value) st, w)
      else if is_str "content_block_delta" kind
      then (
        record st {
          assistant_chars =
              (st.assistant_chars + assistant_delta (get (lit "delta") value)) % 2 ^ 64;
        },
        w,
      )
      else if is_str "message_stop" kind
      then emit_final now touched st w
      else (st, w)

  unfoldable pub apply_kind :
      SseKind → Option Text → Value → SseStreamState → World → SseStreamState × World
  unfolding terminal_status
  apply_kind openai_chat name value st w = apply_chat (usage_of value) st w
  apply_kind openai_responses name value st w =
      apply_responses (terminal_status (unwrap_or [] (or_else (get_str (lit "type") value) name)))
        value st w
  apply_kind anthropic name value st w =
      apply_anthropic (or_else (get_str (lit "type") value) name) value st w

  unfoldable pub apply_value :
      Option Text → Option Value → SseStreamState → World → SseStreamState × World
  unfolding apply_chat apply_responses apply_anthropic apply_kind detect
  apply_value name none st w = (st, w)
  apply_value name (some value) st w = apply_kind st.kind name value st (detect st.kind value w)

  unfoldable pub apply :
      (Text → Option Value) → SseEvent → SseStreamState → World → SseStreamState × World
  unfolding apply_value
  apply from_str event st w =
      if is_done_sentinel event
      then (st, w)
      else apply_value event.event_name (and_then (data_str event) from_str) st w

unfoldable pub finish_with : SseKind → Option Text → World → World
unfolding count
finish_with openai_responses (some status) w = count (record_response_status status) w
finish_with _ _ w = w

unfoldable pub finish : SseStreamState → World → World
unfolding finish_with
finish st w = finish_with st.kind st.responses_last_status w

-- The events of the stream, each with the two readings of the clock at its turn.
unfoldable pub apply_all :
    (Text → Option Value)
    → List (ℕ × ℕ × SseEvent)
    → SseStreamState
    → World
    → SseStreamState × World
apply_all from_str [] st w = (st, w)
apply_all from_str ((now, touched, event) ∷ events) st w =
    let (st', w') = apply now touched from_str event st w in apply_all from_str events st' w'
