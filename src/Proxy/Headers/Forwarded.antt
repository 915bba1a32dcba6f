-- ===== src/Proxy/Headers/Forwarded.antt =====
-- What a client's headers cannot do to the headers of the forwarded request.
use mathlib.Core.Path.{subst}
use hr.Prelude.{
  ◌≡◌, inl, inr, refl, ap, ◌∙◌, true, ◌||◌, Option, none, some, List, [], ◌∷◌, append-nil, ◌++◌,
  if◌then◌else◌, Bool-cases, eq_text, eq_text_iff, retain, map, lit, Text, Bytes,
}
use hr.Prelude.Strings.{
  as_bytes, ascii_lower, strip_prefix, starts_with, to_ascii_lowercase, eq_ignore_ascii_case,
}
use hr.Proxy.Headers.{
  HeaderMap, get, is_hop_by_hop, is_request_drop_header, listed_in, of_option,
  connection_listed_headers, forwarded_for, is_kept, own_headers, apply_headers,
}

-- All values of a name, in order.
abbrev pub values : Text → HeaderMap → List Bytes
values name [] = []
values name ((n, value) ∷ headers) =
    let later = values name headers in if eq_text n name then value ∷ later else later

values-append :
    (name : Text) (a b : HeaderMap) → values name (a ++ b) ≡ values name a ++ values name b
values-append name [] b = refl
values-append name ((n, v) ∷ a) b = elim (Bool-cases (eq_text n name)) [
  | inl same ↦ rw same (ap (◌∷◌ v) (values-append name a b))
  | inr apart ↦ rw apart (values-append name a b)
]

-- The values of the four names among the proxy's own headers.
abbrev OwnValues : HeaderMap → Text → Option Bytes → Option Text → Type 0
OwnValues headers request_id host xff =
    (values (lit "x-request-id") headers ≡ as_bytes request_id ∷ [])
    × (values (lit "x-forwarded-proto") headers ≡ lit "http" ∷ [])
    × (values (lit "x-forwarded-host") headers ≡ of_option host)
    × (values (lit "x-forwarded-for") headers ≡ map as_bytes (of_option xff))

own_headers-OwnValues :
    (request_id : Text) (host : Option Bytes) (xff account_id : Option Text)
    → OwnValues (own_headers request_id host xff account_id) request_id host xff
unfolding eq_text lit
own_headers-OwnValues r none none none = (refl, refl, refl, refl)
own_headers-OwnValues r none none (some a) = (refl, refl, refl, refl)
own_headers-OwnValues r none (some x) none = (refl, refl, refl, refl)
own_headers-OwnValues r none (some x) (some a) = (refl, refl, refl, refl)
own_headers-OwnValues r (some h) none none = (refl, refl, refl, refl)
own_headers-OwnValues r (some h) none (some a) = (refl, refl, refl, refl)
own_headers-OwnValues r (some h) (some x) none = (refl, refl, refl, refl)
own_headers-OwnValues r (some h) (some x) (some a) = (refl, refl, refl, refl)

-- Of these names nothing is copied.
own_names-dropped :
    (is_request_drop_header (lit "x-request-id") ≡ true)
    × (is_request_drop_header (lit "x-forwarded-proto") ≡ true)
    × (is_request_drop_header (lit "x-forwarded-host") ≡ true)
    × (is_request_drop_header (lit "x-forwarded-for") ≡ true)
unfolding is_request_drop_header is_hop_by_hop eq_text lit eq_ignore_ascii_case to_ascii_lowercase
    ascii_lower starts_with strip_prefix
own_names-dropped = (refl, refl, refl, refl)

module _ (to_str : Bytes → Option Text) where
  -- Nothing is kept of a name that the request's copying drops.
  values_dropped :
      (name : Text) (listed : List Text) (headers : HeaderMap)
      → (is_request_drop_header name || listed_in listed name) ≡ true
      → values name (retain (is_kept to_str listed) headers) ≡ []
  values_dropped name listed [] h = refl
  values_dropped name listed ((n, v) ∷ headers) h =
      elim (Bool-cases (is_kept to_str listed (n, v))) [
        | inl kept ↦ elim (Bool-cases (eq_text n name)) [
          | inl same ↦
              let e = (eq_text_iff n name).0 same in
              let k : is_kept to_str listed (name, v) ≡ true =
                subst (λ m. is_kept to_str listed (m, v) ≡ true) e kept in
              absurd (cc (rw h at k))
          | inr apart ↦ rw (kept, apart) (values_dropped name listed headers h)
        ]
        | inr gone ↦ rw gone (values_dropped name listed headers h)
      ]

  -- Whatever the client sends under these names, a forwarded request has the given request id and
  -- `http` as its only `x-request-id` and `x-forwarded-proto`, the `host` of the client as its
  -- only `x-forwarded-host`, and what `forwarded_for` computes as its only `x-forwarded-for`.
  pub apply_headers_own :
      (headers : HeaderMap) (client_ip : Option Text) (request_id : Text) (account_id : Option Text)
      → (values (lit "x-request-id") (apply_headers to_str headers client_ip request_id account_id)
          ≡ as_bytes request_id ∷ [])
        × (values
              (lit "x-forwarded-proto")
              (apply_headers to_str headers client_ip request_id account_id)
            ≡ lit "http" ∷ [])
        × (values
              (lit "x-forwarded-host")
              (apply_headers to_str headers client_ip request_id account_id)
            ≡ of_option (get (lit "host") headers))
        × (values
              (lit "x-forwarded-for")
              (apply_headers to_str headers client_ip request_id account_id)
            ≡ map as_bytes (of_option (forwarded_for to_str headers client_ip)))
  unfolding apply_headers
  apply_headers_own headers client_ip request_id account_id =
      let own =
        own_headers request_id (get (lit "host") headers) (forwarded_for to_str headers client_ip)
          account_id in
      let listed = connection_listed_headers to_str headers in
      let kept = retain (is_kept to_str listed) headers in
      let only = λ (name : Text) (d : is_request_drop_header name ≡ true).
        values-append name own kept
        ∙ ap (λ vs. values name own ++ vs) (values_dropped name listed headers (rw d refl))
        ∙ append-nil (values name own) in
      let (a, b, c, d) = own_names-dropped in
      let (p, q, r, s) =
        own_headers-OwnValues request_id (get (lit "host") headers)
          (forwarded_for to_str headers client_ip) account_id in
      (
        only (lit "x-request-id") a ∙ p,
        only (lit "x-forwarded-proto") b ∙ q,
        only (lit "x-forwarded-host") c ∙ r,
        only (lit "x-forwarded-for") d ∙ s,
      )
