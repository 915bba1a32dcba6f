-- ===== src/Proxy/Headers.antt =====
-- src/proxy.rs: what the proxy reads from headers, and the headers of a forwarded request. A header map
-- is the list of its names, in lower case, with their values, as its iterator gives them. The
-- conversion `HeaderValue::to_str` is not part of the program: it is the argument `to_str`.
pub mod Forwarded
pub mod Response
pub mod Copied
use hr.Prelude.{
  ℕ, leb, Bool, true, false, not, ◌&&◌, ◌||◌, Option, none, some, List, [], ◌∷◌, ◌++◌, ◌==◌,
  if◌then◌else◌, eq_text, any, retain, map, length, lit, String, Text, Bytes,
}
use hr.Prelude.Strings.{
  starts_with, strip_prefix, contains, trim, split, is_empty, as_bytes, to_ascii_lowercase,
  eq_ignore_ascii_case,
}
use hr.Json.{and_then, or_else, filter, is_some_and, unwrap_or}
use hr.Proxy.Route.{is_one_of, first_part}

abbrev pub HeaderMap : Type 0
HeaderMap = List (Text × Bytes)

pub data RequestAuthMode : Type 0 where
  payg o_auth subscription : RequestAuthMode

-- `headers.get(name)`: the first value
unfoldable pub get : Text → HeaderMap → Option Bytes
get name [] = none
get name ((n, value) ∷ headers) = if eq_text n name then some value else get name headers

unfoldable pub is_hop_by_hop : Text → Bool
is_hop_by_hop name =
    is_one_of
      (lit "connection"
        ∷ lit "keep-alive"
        ∷ lit "proxy-authenticate"
        ∷ lit "proxy-authorization"
        ∷ lit "te"
        ∷ lit "trailer"
        ∷ lit "trailers"
        ∷ lit "transfer-encoding"
        ∷ lit "upgrade"
        ∷ [])
      (to_ascii_lowercase name)

unfoldable pub is_request_drop_header : Text → Bool
is_request_drop_header name =
    is_hop_by_hop name
    || (is_one_of (lit "host" ∷ lit "content-length" ∷ []) name
        || (any (eq_ignore_ascii_case name) (
              lit "x-request-id"
              ∷ lit "x-forwarded-for"
              ∷ lit "x-forwarded-proto"
              ∷ lit "x-forwarded-host"
              ∷ lit "x-headroom-bypass"
              ∷ lit "x-headroom-mode"
              ∷ [])
            || starts_with (lit "x-headroom-") name))

unfoldable pub is_response_drop_header : Text → Bool
is_response_drop_header name = is_hop_by_hop name

abbrev pub listed_in : List Text → Text → Bool
listed_in listed name = any (λ l. eq_ignore_ascii_case l name) listed

abbrev pub of_option {ℓ} : {A : Type ℓ} → Option A → List A
of_option none = []
of_option (some a) = a ∷ []

-- The headers that the proxy sets, before it copies the request's.
abbrev pub own_headers : Text → Option Bytes → Option Text → Option Text → HeaderMap
own_headers request_id host xff account_id =
    (lit "x-request-id", as_bytes request_id)
    ∷ (lit "x-forwarded-proto", lit "http")
    ∷ (map (λ value. (lit "x-forwarded-host", value)) (of_option host)
        ++ (map (λ value. (lit "x-forwarded-for", as_bytes value)) (of_option xff)
            ++ map (λ value. (lit "chatgpt-account-id", as_bytes value)) (of_option account_id)))

module _ (to_str : Bytes → Option Text) where
  abbrev pub get_text : String → HeaderMap → Option Text
  get_text name headers = and_then (get (lit name) headers) to_str

  abbrev pub is_not_blank : Text → Bool
  is_not_blank value = not (is_empty (trim value))

  abbrev tokens_of : Option Text → List Text
  tokens_of none = []
  tokens_of (some value) =
      retain (λ t. not (is_empty t)) (map (λ t. to_ascii_lowercase (trim t)) (split b',' value))

  unfoldable pub connection_listed_headers : HeaderMap → List Text
  connection_listed_headers [] = []
  connection_listed_headers ((name, value) ∷ headers) =
      let later = connection_listed_headers headers in
      if eq_text name (lit "connection") then tokens_of (to_str value) ++ later else later

  unfoldable pub forwarded_for : HeaderMap → Option Text → Option Text
  forwarded_for headers none = filter is_not_blank (get_text "x-forwarded-for" headers)
  forwarded_for headers (some ip) =
      elim (filter is_not_blank (get_text "x-forwarded-for" headers)) as (λ _. Option Text) [
        | none ↦ some ip
        | some existing ↦ some (existing ++ (lit ", " ++ ip))
      ]

  unfoldable pub ensure_request_id : HeaderMap → Text → Text
  ensure_request_id headers generated =
      unwrap_or generated (filter is_not_blank (get_text "x-request-id" headers))

  unfoldable pub upstream_request_id : HeaderMap → Option Text
  upstream_request_id headers = filter is_not_blank (
      and_then (or_else (get (lit "request-id") headers) (get (lit "x-request-id") headers)) to_str)

  unfoldable pub is_application_json : HeaderMap → Bool
  is_application_json headers =
      is_some_and
        (λ value.
          eq_ignore_ascii_case (trim (first_part (split b';' value))) (lit "application/json"))
        (get_text "content-type" headers)

  unfoldable pub compression_bypass_requested : HeaderMap → Bool
  compression_bypass_requested headers =
      is_some_and (λ value. eq_ignore_ascii_case (trim value) (lit "true"))
        (get_text "x-headroom-bypass" headers)
      || is_some_and (λ value. eq_ignore_ascii_case (trim value) (lit "passthrough"))
          (get_text "x-headroom-mode" headers)

  -- Behind the test of the user agent, the value of `authorization` without its `Bearer `; every path
  -- that the source lets fall through ends in its last line.
  unfoldable pub auth_mode_of : Option Text → Text → RequestAuthMode
  auth_mode_of none auth = if is_empty auth then payg else o_auth
  auth_mode_of (some token) auth =
      if starts_with (lit "sk-ant-oat-") token
      then o_auth
      else if starts_with (lit "sk-ant-api") token || starts_with (lit "sk-") token
      then payg
      else if leb 3 (length (split b'.' token))
      then o_auth
      else payg

  abbrev pub subscription_agents : List Text
  subscription_agents =
      lit "claude-cli/"
      ∷ lit "claude-code/"
      ∷ lit "codex-cli/"
      ∷ lit "cursor/"
      ∷ lit "claude-vscode/"
      ∷ lit "github-copilot/"
      ∷ lit "anthropic-cli/"
      ∷ lit "antigravity/"
      ∷ []

  unfoldable pub classify_auth_mode : HeaderMap → RequestAuthMode
  unfolding auth_mode_of
  classify_auth_mode headers =
      let user_agent = to_ascii_lowercase (unwrap_or [] (get_text "user-agent" headers)) in
      let auth = unwrap_or [] (get_text "authorization" headers) in
      if any (λ prefix. contains prefix user_agent) subscription_agents
      then subscription
      else auth_mode_of (strip_prefix (lit "Bearer ") auth) auth

  abbrev pub is_kept : List Text → Text × Bytes → Bool
  is_kept listed (name, value) = not (is_request_drop_header name || listed_in listed name)

  -- The headers that `apply_headers` gives the builder, in order; the account is the answer of
  -- `chatgpt_account_id_from_authorization`.
  unfoldable pub apply_headers : HeaderMap → Option Text → Text → Option Text → HeaderMap
  unfolding forwarded_for
  apply_headers headers client_ip request_id account_id =
      own_headers request_id (get (lit "host") headers) (forwarded_for headers client_ip) account_id
      ++ retain (is_kept (connection_listed_headers headers)) headers
