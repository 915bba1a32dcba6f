-- ===== src/Proxy/Batches.antt =====
-- src/proxy.rs: the contexts of Anthropic batches, `record_batch_context` and `batch_context`. The lock
-- is held for a whole method; the front of the deque is the head of the list; a `HashMap` is an
-- association list.
pub mod Bounded
pub mod Latest
use mathlib.Core.List.{reverse}
use hr.Prelude.{
  ℕ, ◌+◌, ◌*◌, not, ◌&&◌, Bool, true, false, Option, none, some, List, [], ◌∷◌, ◌++◌, ltb,
  if◌then◌else◌, eq_text, retain, find, length, lit, Text,
}
use hr.Json.{Value, get, as_array, and_then, get_str}

abbrev pub Contexts : Type 0
Contexts = List (Text × Value)

pub record BatchContextEntry : Type 0 where
  pub batch_id : Text
  pub contexts : Contexts
  pub expires_at : ℕ

abbrev pub batch_context_ttl : ℕ
batch_context_ttl = 24 * 60 * 60 * 1_000_000_000

abbrev pub max_batch_contexts : ℕ
max_batch_contexts = 10_000

-- `HashMap::insert`
unfoldable pub insert_context : Text → Value → Contexts → Contexts
insert_context key value [] = (key, value) ∷ []
insert_context key value ((k, v) ∷ contexts) =
    let later = insert_context key value contexts in
    if eq_text k key then (k, value) ∷ contexts else (k, v) ∷ later

-- The body of the loop over the requests.
unfoldable pub add_context : Option Text → Option Value → Contexts → Contexts
unfolding insert_context
add_context (some custom_id) (some params) contexts = insert_context custom_id params contexts
add_context _ _ contexts = contexts

unfoldable pub contexts_of : List Value → Contexts → Contexts
unfolding add_context
contexts_of [] contexts = contexts
contexts_of (request ∷ requests) contexts =
    contexts_of requests
      (add_context (get_str (lit "custom_id") request) (get (lit "params") request) contexts)

abbrev pub is_live : ℕ → BatchContextEntry → Bool
is_live now entry = ltb now entry.expires_at

abbrev pub has_id : Text → BatchContextEntry → Bool
has_id batch_id entry = eq_text entry.batch_id batch_id

-- `while store.len() > MAX_BATCH_CONTEXTS { store.pop_front(); }`
unfoldable pub pop_excess : List BatchContextEntry → List BatchContextEntry
pop_excess [] = []
pop_excess (entry ∷ entries) =
    let popped = pop_excess entries in
    if ltb max_batch_contexts (length (entry ∷ entries)) then popped else entry ∷ entries

unfoldable pub push_entry : ℕ → Text → Contexts → List BatchContextEntry → List BatchContextEntry
unfolding pop_excess
push_entry now batch_id contexts store = pop_excess (
    retain (λ entry. is_live now entry && not (has_id batch_id entry)) store
    ++ record { batch_id = batch_id; contexts = contexts; expires_at = now + batch_context_ttl }
      ∷ [])

unfoldable pub record_contexts :
    ℕ → Text → Contexts → List BatchContextEntry → List BatchContextEntry
unfolding push_entry
record_contexts now batch_id [] store = store
record_contexts now batch_id (context ∷ contexts) store =
    push_entry now batch_id (context ∷ contexts) store

unfoldable pub record_requests :
    ℕ → Text → Option (List Value) → List BatchContextEntry → List BatchContextEntry
unfolding record_contexts contexts_of
record_requests now batch_id none store = store
record_requests now batch_id (some requests) store =
    record_contexts now batch_id (contexts_of requests []) store

unfoldable pub record_batch_context :
    ℕ → Text → Value → List BatchContextEntry → List BatchContextEntry
unfolding record_requests
record_batch_context now batch_id compressed_body store =
    record_requests now batch_id (and_then (get (lit "requests") compressed_body) as_array) store

abbrev pub contexts_in : Option BatchContextEntry → Option Contexts
contexts_in none = none
contexts_in (some entry) = some entry.contexts

unfoldable pub batch_context :
    ℕ → Text → List BatchContextEntry → Option Contexts × List BatchContextEntry
batch_context now batch_id store =
    let live = retain (is_live now) store in
    (contexts_in (find (has_id batch_id) (reverse live)), live)
