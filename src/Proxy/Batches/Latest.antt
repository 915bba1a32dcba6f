-- ===== src/Proxy/Batches/Latest.antt =====
-- What is looked up is what was recorded last.
use mathlib.Core.List.{reverse, reverse-append}
use hr.Prelude.{
  ℕ, ◌+◌, ◌<◌, ◌≡◌, ◌≢◌, inl, inr, refl, ap, ◌∙◌, Bool, true, not, ◌&&◌, some, List, [], ◌∷◌, ◌++◌,
  ltb, lt→ltb, Bool-cases, eq_text_iff, retain, find, length, lit, Text,
}
use hr.Json.{Value, get, as_array, and_then}
use hr.Proxy.Batches.{
  BatchContextEntry, Contexts, max_batch_contexts, batch_context_ttl, is_live, has_id, pop_excess,
  push_entry, contexts_of, record_contexts, record_requests, record_batch_context, contexts_in,
  batch_context,
}

-- The entry at the back is never popped, as the bound is not 0.
pop_excess-append :
    (l : List BatchContextEntry) (e : BatchContextEntry)
    → (rest : List BatchContextEntry) × (pop_excess (l ++ e ∷ []) ≡ rest ++ e ∷ [])
unfolding pop_excess
pop_excess-append [] e = ([], refl)
pop_excess-append (x ∷ xs) e =
    elim (Bool-cases (ltb max_batch_contexts (length (x ∷ (xs ++ e ∷ []))))) [
      | inl over ↦ let (rest, p) = pop_excess-append xs e in (rest, rw over p)
      | inr within ↦ (x ∷ xs, rw within refl)
    ]

retain-append :
    (p : BatchContextEntry → Bool) (l : List BatchContextEntry) (e : BatchContextEntry)
    → p e ≡ true
    → retain p (l ++ e ∷ []) ≡ retain p l ++ e ∷ []
retain-append p [] e h = rw h refl
retain-append p (x ∷ xs) e h = elim (Bool-cases (p x)) [
  | inl kept ↦ rw kept (ap (◌∷◌ x) (retain-append p xs e h))
  | inr gone ↦ rw gone (retain-append p xs e h)
]

find_latest :
    (batch_id : Text) (l : List BatchContextEntry) (e : BatchContextEntry)
    → e.batch_id ≡ batch_id
    → contexts_in (find (has_id batch_id) (reverse (l ++ e ∷ []))) ≡ some e.contexts
find_latest batch_id l e h =
    let same : has_id batch_id e ≡ true = (eq_text_iff e.batch_id batch_id).1 h in
    rw (reverse-append l (e ∷ []), same) refl

batch_context-push :
    (now later : ℕ) (batch_id : Text) (contexts : Contexts) (store : List BatchContextEntry)
    → later < now + batch_context_ttl
    → (batch_context later batch_id (push_entry now batch_id contexts store)).0 ≡ some contexts
unfolding batch_context push_entry
batch_context-push now later batch_id contexts store live =
    let e : BatchContextEntry = record {
      batch_id = batch_id;
      contexts = contexts;
      expires_at = now + batch_context_ttl;
    } in
    let kept = retain (λ x. is_live now x && not (has_id batch_id x)) store in
    let (rest, p) = pop_excess-append kept e in
    ap (λ l. contexts_in (find (has_id batch_id) (reverse (retain (is_live later) l)))) p
    ∙ ap (λ l. contexts_in (find (has_id batch_id) (reverse l)))
        (retain-append (is_live later) rest e (lt→ltb later e.expires_at live))
    ∙ find_latest batch_id (retain (is_live later) rest) e refl

batch_context-record_contexts :
    (now later : ℕ) (batch_id : Text) (contexts : Contexts) (store : List BatchContextEntry)
    → contexts ≢ []
    → later < now + batch_context_ttl
    → (batch_context later batch_id (record_contexts now batch_id contexts store)).0 ≡ some contexts
unfolding record_contexts
batch_context-record_contexts now later batch_id [] store n live = absurd (n refl)
batch_context-record_contexts now later batch_id (c ∷ cs) store n live =
    batch_context-push now later batch_id (c ∷ cs) store live

-- For less than 24 hours behind the recording of a batch whose requests give at least one context,
-- a lookup of its id gives the contexts of its requests, whatever the store held before.
pub batch_context-record :
    (now later : ℕ) (batch_id : Text) (body : Value) (requests : List Value)
    (store : List BatchContextEntry)
    → and_then (get (lit "requests") body) as_array ≡ some requests
    → contexts_of requests [] ≢ []
    → later < now + batch_context_ttl
    → (batch_context later batch_id (record_batch_context now batch_id body store)).0
      ≡ some (contexts_of requests [])
unfolding record_batch_context record_requests
batch_context-record now later batch_id body requests store h n live =
    rw h (batch_context-record_contexts now later batch_id (contexts_of requests []) store n live)
