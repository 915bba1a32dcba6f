-- ===== src/Proxy/Continuation.antt =====
-- src/proxy.rs: the retrieval calls in a provider's response, which the proxy resolves by itself: how
-- they are read, stripped and answered. `serde_json::from_str` and `to_string` are the arguments
-- `from_str` and `to_string`.
pub mod Strip
pub mod Choices
pub mod Stripped
pub mod Rounds
pub mod Bounded
pub mod Sent
pub mod Send
pub mod Samples
mod Tests
use hr.Prelude.{
  ℕ, zero, suc, ◌+◌, Bool, true, false, not, ◌&&◌, ◌||◌, Option, none, some, List, [], ◌∷◌, ◌++◌,
  ◌==◌, ltb, if◌then◌else◌, eq_text, any, retain, map, length, lit, Text,
}
use hr.Prelude.Strings.{eq_ignore_ascii_case}
use hr.Json.{
  Value, null, string, array, object, no_values, no_fields, get, as_str, as_array, and_then,
  unwrap_or, get_str,
}
use hr.Json.Edit.{json_object, set_key, remove_key, values_of}
use hr.Sse.Stream.Apply.{is_str, is_retrieve_tool_name}

pub data CcrProvider : Type 0 where
  anthropic open_ai : CcrProvider

-- `CcrProvider::as_str`
abbrev pub provider_str : CcrProvider → Text
provider_str anthropic = lit "anthropic"
provider_str open_ai = lit "openai"

pub record ParsedToolCall : Type 0 where
  pub hash : Text
  pub query : Option Text

abbrev pub is_some : Option ParsedToolCall → Bool
is_some none = false
is_some (some _) = true

-- One step of `filter_map`
abbrev pub onto :
    Option (Value × ParsedToolCall) → List (Value × ParsedToolCall) → List (Value × ParsedToolCall)
onto none pairs = pairs
onto (some pair) pairs = pair ∷ pairs

-- `Vec::first`
abbrev pub first : List Value → Option Value
first [] = none
first (v ∷ _) = some v

-- `assistant["tool_calls"] = tool_calls.clone()`, where there are any
unfoldable pub with_calls : Option Value → Value → Value
unfolding set_key
with_calls none assistant = assistant
with_calls (some calls) assistant = set_key (lit "tool_calls") calls assistant

unfoldable pub parse_retrieve_arguments : Value → Option ParsedToolCall
parse_retrieve_arguments arguments =
    and_then (get_str (lit "hash") arguments)
      (λ hash. some (record { hash = hash; query = get_str (lit "query") arguments }))

unfoldable pub is_tool_use : Value → Bool
is_tool_use block = is_str "tool_use" (get_str (lit "type") block)

-- `choice.get("message").and_then(|message| message.get("tool_calls")).and_then(as_array)`
unfoldable pub calls_of_choice : Value → Option (List Value)
calls_of_choice choice =
    and_then (and_then (get (lit "message") choice) (get (lit "tool_calls"))) as_array

-- `flat_map` over the choices
unfoldable pub calls_of_choices : List Value → List Value
unfolding calls_of_choice
calls_of_choices [] = []
calls_of_choices (choice ∷ choices) =
    unwrap_or [] (calls_of_choice choice) ++ calls_of_choices choices

abbrev pub content_of : Value → List Value
content_of response = unwrap_or [] (and_then (get (lit "content") response) as_array)

abbrev pub choices_of : Value → List Value
choices_of response = unwrap_or [] (and_then (get (lit "choices") response) as_array)

-- `message.remove("tool_calls")`, in place
unfoldable pub with_message : Option Value → Value → Value
unfolding remove_key set_key
with_message none choice = choice
with_message (some message) choice =
    set_key (lit "message") (remove_key (lit "tool_calls") message) choice

-- A choice left without calls is rewritten as a turn of text.
unfoldable pub without_calls : Value → Value
unfolding with_message
without_calls choice =
    let bare = with_message (get (lit "message") choice) choice in
    if is_str "tool_calls" (get_str (lit "finish_reason") bare)
    then set_key (lit "finish_reason") (string (lit "stop")) bare
    else bare

unfoldable pub with_put_calls : List Value → Option Value → Value → Value
unfolding set_key values_of
with_put_calls calls none choice = choice
with_put_calls calls (some message) choice =
    set_key (lit "message") (set_key (lit "tool_calls") (array (values_of calls)) message) choice

-- The calls of a choice, replaced in place.
unfoldable pub put_calls : List Value → Value → Value
unfolding with_put_calls
put_calls calls choice = with_put_calls calls (get (lit "message") choice) choice

unfoldable pub provider_tool_calls : CcrProvider → Value → List Value
unfolding is_tool_use calls_of_choices
provider_tool_calls anthropic response = retain is_tool_use (content_of response)
provider_tool_calls open_ai response = calls_of_choices (choices_of response)

unfoldable pub openai_choice_count : Value → ℕ
openai_choice_count response = length (choices_of response)

unfoldable pub extract_assistant_message : CcrProvider → Value → Value
unfolding json_object set_key
extract_assistant_message anthropic response = object (
    json_object (
      (lit "role", string (lit "assistant"))
      ∷ (lit "content", unwrap_or (array no_values) (get (lit "content") response))
      ∷ []))
extract_assistant_message open_ai response =
    let message = unwrap_or (object no_fields) (
      and_then (and_then (and_then (get (lit "choices") response) as_array) first)
        (get (lit "message"))) in
    let assistant = object (
      json_object (
        (lit "role", string (lit "assistant"))
        ∷ (lit "content", unwrap_or null (get (lit "content") message))
        ∷ [])) in
    with_calls (get (lit "tool_calls") message) assistant

-- A choice behind its calls that stay, where it had `original_len`.
unfoldable pub rewrite_choice : ℕ → List Value → Value → Value
unfolding put_calls without_calls
rewrite_choice original_len kept choice =
    if ltb 0 original_len && (length kept == 0)
    then without_calls (put_calls kept choice)
    else put_calls kept choice

module _ (from_str : Text → Option Value) where
  unfoldable pub parse_openai_call : Value → Option ParsedToolCall
  unfolding parse_retrieve_arguments
  parse_openai_call tool_call = and_then (get (lit "function") tool_call) λ function.
      and_then (get_str (lit "name") function) λ name.
        if is_retrieve_tool_name name
        then and_then (from_str (unwrap_or (lit "{}") (get_str (lit "arguments") function)))
            parse_retrieve_arguments
        else none

  unfoldable pub parse_other_call : Value → Option ParsedToolCall
  unfolding parse_retrieve_arguments
  parse_other_call tool_call =
      if is_retrieve_tool_name (unwrap_or [] (get_str (lit "name") tool_call))
      then and_then (get (lit "input") tool_call) parse_retrieve_arguments
      else none

  unfoldable pub parse_retrieve_tool_call : Value → Text → Option ParsedToolCall
  parse_retrieve_tool_call tool_call provider =
      if eq_ignore_ascii_case provider (lit "openai")
      then parse_openai_call tool_call
      else parse_other_call tool_call

  -- `parse_retrieve_tool_call(call, provider.as_str()).is_some()`: a call that is the proxy's own
  unfoldable pub is_private : CcrProvider → Value → Bool
  is_private provider call = is_some (parse_retrieve_tool_call call (provider_str provider))

  unfoldable pub parsed_call : CcrProvider → Value → Option (Value × ParsedToolCall)
  unfolding parse_retrieve_tool_call
  parsed_call provider call =
      and_then (parse_retrieve_tool_call call (provider_str provider))
        (λ parsed. some (call, parsed))

  -- `filter_map` over the calls
  unfoldable pub extract_from : CcrProvider → List Value → List (Value × ParsedToolCall)
  unfolding parsed_call
  extract_from provider [] = []
  extract_from provider (call ∷ calls) =
      onto (parsed_call provider call) (extract_from provider calls)

  unfoldable pub extract_ccr_tool_calls : CcrProvider → Value → List (Value × ParsedToolCall)
  unfolding extract_from provider_tool_calls
  extract_ccr_tool_calls provider response =
      extract_from provider (provider_tool_calls provider response)

  abbrev pub not_private : CcrProvider → Value → Bool
  not_private provider call = not (is_private provider call)

  -- A choice stripped, whether a call was removed, and the number of calls that remain.
  unfoldable pub strip_calls : CcrProvider → Option (List Value) → Value → Value × Bool × ℕ
  unfolding rewrite_choice
  strip_calls provider none choice = (choice, false, 0)
  strip_calls provider (some calls) choice =
      let kept = retain (not_private provider) calls in
      (rewrite_choice (length calls) kept choice, not (length kept == length calls), length kept)

  -- The loop over the choices.
  unfoldable pub strip_choices : CcrProvider → List Value → List Value × Bool × ℕ
  unfolding strip_calls
  strip_choices provider [] = ([], false, 0)
  strip_choices provider (choice ∷ choices) =
      let (stripped, removed, remaining) = strip_calls provider (calls_of_choice choice) choice in
      let (rest, removed', remaining') = strip_choices provider choices in
      (stripped ∷ rest, removed || removed', remaining + remaining')

  abbrev pub stays : CcrProvider → Value → Bool
  stays provider block = not (is_tool_use block && is_private provider block)

  unfoldable pub strip_content : CcrProvider → List Value → Value → Option Value
  unfolding set_key values_of
  strip_content provider content response =
      let removed = any (λ block. not (stays provider block)) content in
      let stripped_content = retain (stays provider) content in
      let remaining = length (retain is_tool_use stripped_content) in
      if not removed || (remaining == 0)
      then none
      else some (set_key (lit "content") (array (values_of stripped_content)) response)

  unfoldable pub strip_all : CcrProvider → List Value → Value → Option Value
  unfolding strip_choices set_key values_of
  strip_all provider [] response = none
  strip_all provider (c ∷ cs) response =
      let (choices, removed, remaining) = strip_choices provider (c ∷ cs) in
      if not removed || (remaining == 0)
      then none
      else some (set_key (lit "choices") (array (values_of choices)) response)

  unfoldable pub strip_ccr_tool_calls : CcrProvider → Value → Option Value
  unfolding strip_content strip_all
  strip_ccr_tool_calls anthropic response =
      and_then (and_then (get (lit "content") response) as_array)
        (λ content. strip_content anthropic content response)
  strip_ccr_tool_calls open_ai response =
      and_then (and_then (get (lit "choices") response) as_array)
        (λ choices. strip_all open_ai choices response)

module _ (to_string : Value → Text) where
  unfoldable pub format_tool_result : Value → Text → Value → Value
  unfolding json_object
  format_tool_result tool_call provider answer =
      let id = string (unwrap_or [] (get_str (lit "id") tool_call)) in
      if eq_ignore_ascii_case provider (lit "openai")
      then object (
          json_object (
            (lit "role", string (lit "tool"))
            ∷ (lit "tool_call_id", id)
            ∷ (lit "content", string (to_string answer))
            ∷ []))
      else object (
          json_object (
            (lit "type", string (lit "tool_result"))
            ∷ (lit "tool_use_id", id)
            ∷ (lit "content", string (to_string answer))
            ∷ []))
