-- ===== src/Proxy/Headers/Copied.antt =====
-- Which values of a response's headers reach the client.
use mathlib.Core.Path.{subst}
use hr.Prelude.{
  ◌≡◌, ◌≢◌, inl, inr, refl, sym, ap, ◌∙◌, Bool, true, false, not, Option, none, some, List, [], ◌∷◌,
  if◌then◌else◌, Bool-cases, Option-cases, eq_text, eq_text_iff, eq_text_refl, retain, lit, Text,
  Bytes,
}
use hr.Json.{is_some_and}
use hr.Proxy.Headers.{HeaderMap, get, of_option, connection_listed_headers, upstream_request_id}
use hr.Proxy.Headers.Forwarded.{values}
use hr.Proxy.Headers.Response.{
  insert, into_iter, copy_named, is_copied, insert_header, insert_ids, buffered_response_to_axum,
  response_to_axum,
}

apart : (a b : Text) → a ≢ b → eq_text a b ≡ false
apart a b h = elim (Bool-cases (eq_text a b)) [
  | inl same ↦ absurd (h ((eq_text_iff a b).0 same))
  | inr e ↦ e
]

values-retain :
    (p : Text → Bool) (m : Text) (headers : HeaderMap)
    → values m (retain (λ (h : Text × Bytes). p h.0) headers)
      ≡ (if p m then values m headers else [])
values-retain p m [] = elim (Bool-cases (p m)) [ inl e ↦ rw e refl | inr e ↦ rw e refl ]
values-retain p m ((n, v) ∷ headers) =
    let later = values-retain p m headers in
    elim (Bool-cases (eq_text n m)) [
      | inl same ↦
          subst
            (λ k.
              values m (retain (λ (h : Text × Bytes). p h.0) ((k, v) ∷ headers))
              ≡ (if p m then values m ((k, v) ∷ headers) else []))
            {x = m} {y = n} (sym ((eq_text_iff n m).0 same))
            (elim (Bool-cases (p m)) [
              | inl e ↦ rw (e, eq_text_refl m) (ap (◌∷◌ v) (rw e at later))
              | inr e ↦ rw e (rw e at later)
            ])
      | inr other ↦ elim (Bool-cases (p n)) [
        | inl e ↦ rw (e, other) later
        | inr e ↦ rw (e, other) later
      ]
    ]

values-insert :
    (m name : Text) (value : Bytes) (headers : HeaderMap)
    → name ≢ m
    → values m (insert name value headers) ≡ values m headers
unfolding insert
values-insert m name value [] h = rw (apart name m h) refl
values-insert m name value ((n, v) ∷ headers) h = elim (Bool-cases (eq_text n name)) [
  | inl same ↦
      let none_of : eq_text n m ≡ false =
        apart n m (λ e. h (cc ((eq_text_iff n name).0 same, e))) in
      rw (same, apart name m h, none_of)
        (values-retain (λ k. not (eq_text k name)) m headers
          ∙ rw (apart m name (λ e. h (sym e))) refl)
  | inr other ↦ elim (Bool-cases (eq_text n m)) [
    | inl e ↦ rw (other, e) (ap (◌∷◌ v) (values-insert m name value headers h))
    | inr e ↦ rw (other, e) (values-insert m name value headers h)
  ]
]

-- The values of one name stand together, as in a map's iteration.
abbrev pub drop_run : Text → HeaderMap → HeaderMap
drop_run name [] = []
drop_run name ((n, v) ∷ headers) =
    let rest = drop_run name headers in if eq_text n name then rest else (n, v) ∷ headers

pub data IsGrouped : HeaderMap → Type 0 where
  no_headers : IsGrouped []
  grouped :
      (n : Text) (v : Bytes) (headers : HeaderMap)
      → get n (drop_run n headers) ≡ none
      → IsGrouped headers
      → IsGrouped ((n, v) ∷ headers)

module _ (p : Text → Bool) (m : Text) where
  -- A named entry of another name adds nothing.
  skip :
      (o : Option Text) (v : Bytes) (entries : List (Option Text × Bytes))
      → is_some_and (λ q. eq_text q m) o ≡ false
      → values m (copy_named p ((o, v) ∷ entries)) ≡ values m (copy_named p entries)
  unfolding copy_named
  skip none v entries h = refl
  skip (some n) v entries h = elim (Bool-cases (p n)) [ inl e ↦ rw (e, h) refl | inr e ↦ rw e refl ]

  named_other :
      (test : Bool) (n : Text)
      → eq_text n m ≡ false
      → is_some_and (λ q. eq_text q m) (if test then none else some n) ≡ false
  named_other true n h = refl
  named_other false n h = h

  step_other :
      (previous : Option Text) (n : Text) (v : Bytes) (headers : HeaderMap)
      → eq_text n m ≡ false
      → values m (copy_named p (into_iter previous ((n, v) ∷ headers)))
        ≡ values m (copy_named p (into_iter (some n) headers))
  unfolding into_iter
  step_other previous n v headers h =
      skip (if is_some_and (λ q. eq_text q n) previous then none else some n) v
        (into_iter (some n) headers) (named_other (is_some_and (λ q. eq_text q n) previous) n h)

  absent :
      (previous : Option Text) (headers : HeaderMap)
      → get m headers ≡ none
      → values m (copy_named p (into_iter previous headers)) ≡ []
  unfolding get into_iter copy_named
  absent previous [] h = refl
  absent previous ((n, v) ∷ headers) h = elim (Bool-cases (eq_text n m)) [
    | inl e ↦ absurd (cc (rw e at h))
    | inr e ↦ step_other previous n v headers e ∙ absent (some n) headers (rw e at h)
  ]

  run :
      (headers : HeaderMap)
      → get m (drop_run m headers) ≡ none
      → values m (copy_named p (into_iter (some m) headers)) ≡ []
  unfolding into_iter copy_named get
  run [] h = refl
  run ((n, v) ∷ headers) h = elim (Bool-cases (eq_text n m)) [
    | inl e ↦
        subst (λ k. values m (copy_named p (into_iter (some m) ((k, v) ∷ headers))) ≡ []) {x = m}
          {y = n} (sym ((eq_text_iff n m).0 e)) (rw (eq_text_refl m) (run headers (rw e at h)))
    | inr e ↦ absent (some m) ((n, v) ∷ headers) (rw e at h)
  ]

  here :
      (previous : Option Text) (v : Bytes) (headers : HeaderMap)
      → is_some_and (λ q. eq_text q m) previous ≡ false
      → p m ≡ true
      → get m (drop_run m headers) ≡ none
      → values m (copy_named p (into_iter previous ((m, v) ∷ headers))) ≡ v ∷ []
  unfolding into_iter copy_named
  here previous v headers h keep alone =
      rw (h, copy_named, keep, eq_text_refl m) (ap (◌∷◌ v) (run headers alone))

  firsts :
      (previous : Option Text) (headers : HeaderMap)
      → is_some_and (λ q. eq_text q m) previous ≡ false
      → p m ≡ true
      → IsGrouped headers
      → values m (copy_named p (into_iter previous headers)) ≡ of_option (get m headers)
  unfolding into_iter copy_named get
  firsts previous [] h keep g = refl
  firsts previous ((n, v) ∷ headers) h keep (grouped _ _ _ alone g) =
      elim (Bool-cases (eq_text n m)) [
        | inl e ↦
            let same = (eq_text_iff n m).0 e in
            subst
              (λ k.
                values m (copy_named p (into_iter previous ((k, v) ∷ headers)))
                ≡ of_option (get m ((k, v) ∷ headers)))
              {x = m} {y = n} (sym same)
              (rw (eq_text_refl m) (
                here previous v headers h keep
                  (subst (λ k. get k (drop_run k headers) ≡ none) same alone)))
        | inr e ↦ rw e (step_other previous n v headers e ∙ firsts (some n) headers e keep g)
      ]

  nothing :
      (entries : List (Option Text × Bytes)) → p m ≡ false → values m (copy_named p entries) ≡ []
  unfolding copy_named
  nothing [] h = refl
  nothing ((none, v) ∷ entries) h = nothing entries h
  nothing ((some n, v) ∷ entries) h = elim (Bool-cases (eq_text n m)) [
    | inl e ↦
        subst (λ k. values m (copy_named p ((some k, v) ∷ entries)) ≡ []) {x = m} {y = n}
          (sym ((eq_text_iff n m).0 e)) (rw h (nothing entries h))
    | inr e ↦ skip (some n) v entries e ∙ nothing entries h
  ]

module _ (from_str : Text → Option Bytes) (m : Text) where
  pub values-insert_header :
      (name value : Text) (headers : HeaderMap)
      → name ≢ m
      → values m (insert_header from_str name value headers) ≡ values m headers
  unfolding insert_header
  values-insert_header name value headers h = elim (Option-cases (from_str value)) [
    | inl e ↦ rw e refl
    | inr (v, e) ↦ rw e (values-insert m name v headers h)
  ]

  values-insert_ids :
      (request_id : Text) (upstream_id : Option Text) (headers : HeaderMap)
      → lit "x-request-id" ≢ m
      → lit "headroom-upstream-request-id" ≢ m
      → values m (insert_ids from_str request_id upstream_id headers) ≡ values m headers
  unfolding insert_ids
  values-insert_ids request_id none headers h k =
      values-insert_header (lit "x-request-id") request_id headers h
  values-insert_ids request_id (some upstream_id) headers h k =
      values-insert_header (lit "headroom-upstream-request-id") upstream_id
        (insert_header from_str (lit "x-request-id") request_id headers) k
      ∙ values-insert_header (lit "x-request-id") request_id headers h

  -- Of a header that is not one of the two ids the proxy sets: where it is not to be copied, no value
  -- reaches the client; where it is, all its values do, in order, when the body was read, and the
  -- first of them alone when the response is a stream.
  pub response_to_axum-first :
      (to_str : Bytes → Option Text) (headers : HeaderMap) (request_id : Text)
      (body_replaced : Bool)
      → IsGrouped headers
      → lit "x-request-id" ≢ m
      → lit "headroom-upstream-request-id" ≢ m
      → (values m (buffered_response_to_axum from_str to_str headers request_id body_replaced) ≡ (
          if is_copied (connection_listed_headers to_str headers) body_replaced m
          then values m headers
          else []))
        × (values m (response_to_axum from_str to_str headers request_id) ≡ (
            if is_copied (connection_listed_headers to_str headers) false m
            then of_option (get m headers)
            else []))
  unfolding buffered_response_to_axum response_to_axum
  response_to_axum-first to_str headers request_id body_replaced g h k =
      let listed = connection_listed_headers to_str headers in
      let upstream_id = upstream_request_id to_str headers in
      let all = λ (name : Text). is_copied listed body_replaced name in
      let streamed = copy_named (is_copied listed false) (into_iter none headers) in
      (
        values-insert_ids request_id upstream_id
              (retain (λ (x : Text × Bytes). is_copied listed body_replaced x.0) headers) h k
            ∙ values-retain all m headers,
        values-insert_ids request_id upstream_id streamed h k
            ∙ elim (Bool-cases (is_copied listed false m)) [
              | inl e ↦ rw e (firsts (is_copied listed false) m none headers refl e g)
              | inr e ↦ rw e (nothing (is_copied listed false) m (into_iter none headers) e)
            ],
      )
