-- ===== src/Proxy/Batches/Bounded.antt =====
-- The store of batch contexts stays within its bound, with one entry for a batch id.
use hr.Prelude.{
  ℕ, ◌+◌, ◌≤◌, ◌≡◌, inl, inr, sym, Bool, false, not, ◌&&◌, Option, none, some, List, [], ◌∷◌, ◌++◌,
  ltb, Bool-cases, arith, eq_text, eq_text_iff, All, All-append, retain, length, length-retain, lit,
  Text,
}
use hr.Json.{Value, get, as_array, and_then}
use hr.Proxy.Batches.{
  BatchContextEntry, Contexts, max_batch_contexts, batch_context_ttl, is_live, has_id, pop_excess,
  push_entry, record_contexts, record_requests, record_batch_context, batch_context,
}

abbrev pub Distinct : List BatchContextEntry → Type 0
Distinct [] = Unit
Distinct (entry ∷ entries) =
    All (λ later. has_id entry.batch_id later ≡ false) entries × Distinct entries

pub record IsValid (store : List BatchContextEntry) : Type 0 where
  pub bounded : length store ≤ max_batch_contexts
  pub distinct : Distinct store

All-retain :
    (P : BatchContextEntry → Type 0) (p : BatchContextEntry → Bool) (l : List BatchContextEntry)
    → All P l
    → All P (retain p l)
All-retain P p [] h = h
All-retain P p (x ∷ xs) h = elim (Bool-cases (p x)) [
  | inl kept ↦ rw kept (h.0, All-retain P p xs h.1)
  | inr gone ↦ rw gone (All-retain P p xs h.1)
]

retain-Distinct :
    (p : BatchContextEntry → Bool) (l : List BatchContextEntry) → Distinct l → Distinct (retain p l)
retain-Distinct p [] h = h
retain-Distinct p (x ∷ xs) h = elim (Bool-cases (p x)) [
  | inl kept ↦ rw kept (All-retain _ p xs h.0, retain-Distinct p xs h.1)
  | inr gone ↦ rw gone (retain-Distinct p xs h.1)
]

retain_other :
    (now : ℕ) (batch_id : Text) (l : List BatchContextEntry)
    → All
        (λ e. has_id batch_id e ≡ false)
        (retain (λ e. is_live now e && not (has_id batch_id e)) l)
retain_other now batch_id [] = tt
retain_other now batch_id (x ∷ xs) = elim (Bool-cases (is_live now x && not (has_id batch_id x))) [
  | inl kept ↦ rw kept (ground arith, retain_other now batch_id xs)
  | inr gone ↦ rw gone (retain_other now batch_id xs)
]

apart_sym : (a b : Text) → eq_text a b ≡ false → eq_text b a ≡ false
apart_sym a b n = elim (Bool-cases (eq_text b a)) [
  | inl same ↦ absurd (cc (n, (eq_text_iff a b).1 (sym ((eq_text_iff b a).0 same))))
  | inr apart ↦ apart
]

Distinct-append :
    (l : List BatchContextEntry) (e : BatchContextEntry)
    → Distinct l
    → All (λ x. has_id e.batch_id x ≡ false) l
    → Distinct (l ++ e ∷ [])
Distinct-append [] e h f = (tt, tt)
Distinct-append (x ∷ xs) e h f = (
  All-append _ xs (e ∷ []) h.0 (apart_sym x.batch_id e.batch_id f.0, tt),
  Distinct-append xs e h.1 f.1,
)

pop_excess-Distinct : (l : List BatchContextEntry) → Distinct l → Distinct (pop_excess l)
unfolding pop_excess
pop_excess-Distinct [] h = h
pop_excess-Distinct (x ∷ xs) h = elim (Bool-cases (ltb max_batch_contexts (length (x ∷ xs)))) [
  | inl over ↦ rw over (pop_excess-Distinct xs h.1)
  | inr within ↦ rw within h
]

length-pop_excess : (l : List BatchContextEntry) → length (pop_excess l) ≤ max_batch_contexts
unfolding pop_excess
length-pop_excess [] = omega arith
length-pop_excess (x ∷ xs) = elim (Bool-cases (ltb max_batch_contexts (length (x ∷ xs)))) [
  | inl over ↦ rw over (length-pop_excess xs)
  | inr within ↦ rw within (ground arith)
]

push_entry-IsValid :
    (now : ℕ) (batch_id : Text) (contexts : Contexts) (store : List BatchContextEntry)
    → IsValid store
    → IsValid (push_entry now batch_id contexts store)
unfolding push_entry
push_entry-IsValid now batch_id contexts store v =
    let keep = λ (e : BatchContextEntry). is_live now e && not (has_id batch_id e) in
    let entry : BatchContextEntry = record {
      batch_id = batch_id;
      contexts = contexts;
      expires_at = now + batch_context_ttl;
    } in
    record {
      bounded = length-pop_excess (retain keep store ++ entry ∷ []);
      distinct = pop_excess-Distinct (retain keep store ++ entry ∷ []) (
          Distinct-append (retain keep store) entry (retain-Distinct keep store v.distinct)
            (retain_other now batch_id store));
    }

record_contexts-IsValid :
    (now : ℕ) (batch_id : Text) (contexts : Contexts) (store : List BatchContextEntry)
    → IsValid store
    → IsValid (record_contexts now batch_id contexts store)
unfolding record_contexts
record_contexts-IsValid now batch_id [] store v = v
record_contexts-IsValid now batch_id (c ∷ cs) store v =
    push_entry-IsValid now batch_id (c ∷ cs) store v

record_requests-IsValid :
    (now : ℕ) (batch_id : Text) (requests : Option (List Value)) (store : List BatchContextEntry)
    → IsValid store
    → IsValid (record_requests now batch_id requests store)
unfolding record_requests
record_requests-IsValid now batch_id none store v = v
record_requests-IsValid now batch_id (some rs) store v =
    record_contexts-IsValid now batch_id _ store v

-- From a store of at most 10 000 entries with distinct ids, recording a batch and looking one up
-- give such a store.
pub batches-IsValid :
    (now : ℕ) (batch_id : Text) (body : Value) (store : List BatchContextEntry)
    → IsValid store
    → IsValid (record_batch_context now batch_id body store)
      × IsValid (batch_context now batch_id store).1
unfolding record_batch_context batch_context
batches-IsValid now batch_id body store v = (
  record_requests-IsValid now batch_id (and_then (get (lit "requests") body) as_array) store v,
  record {
    bounded = ground (arith, v.bounded, length-retain (is_live now) store);
    distinct = retain-Distinct (is_live now) store v.distinct;
  },
)
