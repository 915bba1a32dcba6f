-- ===== src/Proxy/Http/Prepared.antt =====
-- What a forwarded request has of the one that came.
use mathlib.Core.Path.{subst}
use hr.Prelude.{
  ℕ, ◌≤◌, All, ltb, length, arith, ◌≡◌, ◌≢◌, inl, inr, refl, not, ◌&&◌, Option, none, some,
  Bool-cases, lit, Text, Bytes,
}
use hr.Prelude.Strings.{is_empty}
use hr.Json.{Value, and_then}
use hr.Result.{Result, ok, err}
use hr.Stats.{Stats}
use hr.Session.{Key, Inner}
use hr.Session.Betas.{sticky_betas}
use hr.Ccr.{CcrStore}
use hr.Compress.Request.{RequestCompression, Library, compress_json_request_ctx}
use hr.Proxy.Route.{
  CompressionTarget, chat_completions_target, responses_target, messages_target,
  message_batches_target,
}
use hr.Proxy.Headers.{HeaderMap, of_option}
use hr.Proxy.Headers
use hr.Proxy.Headers.Forwarded.{values}
use hr.Proxy.Headers.Copied.{values-insert_header}
use hr.Proxy.Http.Prepare.{
  read_limited_body, body_error, is_empty_batch, session_id_of, frozen_of, beta_header_name,
  merge_betas, put_betas, is_same, shape_of, forwarded_estimates, session_of,
}
use hr.Proxy.Http.Buffer.{
  Request, forward, Environment, context, after_compression, prepare_request, prepare_body,
  prepare_known_json,
}

module _ (m : Text) (from_str : Text → Option Bytes) where
  values-put_betas :
      (name merged : Text) (client_value : Option Text) (headers : HeaderMap)
      → name ≢ m
      → values m (put_betas from_str name merged client_value headers) ≡ values m headers
  unfolding put_betas
  values-put_betas name merged client_value headers h =
      elim (Bool-cases (not (is_empty merged) && not (is_same merged client_value))) [
        | inl e ↦ rw e (values-insert_header from_str m name merged headers h)
        | inr e ↦ rw e refl
      ]

  values-merge_betas :
      (to_str : Bytes → Option Text) (name : Option Text) (key : Option Key) (headers : HeaderMap)
      (trackers : Inner)
      → ((n : Text) → name ≡ some n → n ≢ m)
      → values m (merge_betas to_str from_str name key headers trackers).0 ≡ values m headers
  unfolding merge_betas
  values-merge_betas to_str none key headers trackers h = refl
  values-merge_betas to_str (some name) none headers trackers h = refl
  values-merge_betas to_str (some name) (some key) headers trackers h =
      let client_value = and_then (Headers.get name headers) to_str in
      values-put_betas name (sticky_betas key client_value trackers).0 client_value headers
        (h name refl)

beta_header_name-ne :
    (m : Text) (target : CompressionTarget)
    → lit "anthropic-beta" ≢ m
    → lit "openai-beta" ≢ m
    → (n : Text) → beta_header_name target ≡ some n
    → n ≢ m
unfolding beta_header_name
beta_header_name-ne m chat_completions_target a o n h = λ e. o (cc)
beta_header_name-ne m responses_target a o n h = λ e. o (cc)
beta_header_name-ne m messages_target a o n h = λ e. a (cc)
beta_header_name-ne m message_batches_target a o n h = absurd (cc)

module _ (show : ℕ → Text) (limit : ℕ) (to_bytes : ℕ → Result Bytes) where
  body_error-eq_ok :
      (text : Text) (read : Result Bytes) (body : Bytes)
      → body_error text read ≡ ok body
      → read ≡ ok body
  body_error-eq_ok text (ok b) body h = h
  body_error-eq_ok text (err e) body h = absurd (cc)

  -- A body is what is read under the limit, and none that declares more is read.
  read_limited_body-eq_ok :
      (declared : Option ℕ) (body : Bytes)
      → read_limited_body show declared limit to_bytes ≡ ok body
      → (to_bytes limit ≡ ok body) × All (λ n. n ≤ limit) (of_option declared)
  unfolding read_limited_body
  read_limited_body-eq_ok none body h = (body_error-eq_ok (show limit) (to_bytes limit) body h, tt)
  read_limited_body-eq_ok (some m) body h = elim (Bool-cases (ltb limit m)) [
    | inl e ↦ absurd (cc (rw e at h))
    | inr e ↦
        let small : m ≤ limit = ground arith in
        (body_error-eq_ok (show limit) (to_bytes limit) body (rw e at h), (small, tt))
  ]

-- What a client declares the length of its body to be.
abbrev pub declared_length : Environment → HeaderMap → Option ℕ
declared_length env headers =
    and_then (and_then (Headers.get (lit "content-length") headers) env.to_str) env.parse_usize

module _ (lib : Library) (env : Environment) (S : CcrStore) (target : CompressionTarget) where
  -- The messages that are frozen for the session of the request.
  abbrev pub frozen_for : HeaderMap → Option Value → Inner → ℕ
  frozen_for headers parsed trackers =
      let session_header =
        and_then (Headers.get (lit "x-headroom-session-id") headers) env.to_str in
      (frozen_of env.now env.touched (session_id_of lib.sha256 target session_header parsed)
        trackers).0

  -- The result is the one that the compression gives for the body, by the context of the headers and
  -- of the session.
  abbrev pub IsCompressed : Bytes → ℕ → S.State → Stats → Request → Type 0
  IsCompressed body frozen s stats request =
      (compress_json_request_ctx lib S (context lib env S target request.headers frozen)
        (shape_of target) body s stats).0
      ≡ some request.mutation

  after_compression-keeps :
      (headers : HeaderMap) (session_id : Option Key) (trackers : Inner)
      (o : Option RequestCompression) (s : S.State) (stats : Stats) (request : Request)
      → (after_compression lib env S target headers session_id trackers (o, s, stats)).0
        ≡ some (forward request)
      → (o ≡ some request.mutation) × (headers ≡ request.headers)
  unfolding after_compression
  after_compression-keeps headers session_id trackers none s stats request h = absurd (cc)
  after_compression-keeps headers session_id trackers (some r) s stats request h =
      subst (λ (q : Request). (some r ≡ some q.mutation) × (headers ≡ q.headers))
        {x = record {
          headers = headers;
          mutation = r;
          session =
              session_of session_id
                (forwarded_estimates env.to_string target (lib.from_slice r.body));
        }}
        {y = request} (cc) (refl, refl)

  -- What the request has of the body and the headers that came.
  abbrev pub IsPrepared : Bytes → ℕ → HeaderMap → S.State → Stats → Request → Type 0
  IsPrepared body frozen headers s stats request =
      IsCompressed body frozen s stats request
      × ((m : Text)
          → lit "anthropic-beta" ≢ m
          → lit "openai-beta" ≢ m
          → values m request.headers ≡ values m headers)

  prepare_request-IsPrepared :
      (headers : HeaderMap) (body : Bytes) (parsed : Option Value) (trackers : Inner) (s : S.State)
      (stats : Stats) (request : Request)
      → (prepare_request lib env S target headers body parsed trackers s stats).0
        ≡ some (forward request)
      → IsPrepared body (frozen_for headers parsed trackers) headers s stats request
  unfolding prepare_request
  prepare_request-IsPrepared headers body parsed trackers s stats request h =
      let session_header =
        and_then (Headers.get (lit "x-headroom-session-id") headers) env.to_str in
      let session_id = session_id_of lib.sha256 target session_header parsed in
      let (frozen, trackers') = frozen_of env.now env.touched session_id trackers in
      let name = beta_header_name target in
      let (merged, trackers'') =
        merge_betas env.to_str env.from_str name session_id headers trackers' in
      let (o, s', stats') =
        compress_json_request_ctx lib S (context lib env S target merged frozen) (shape_of target)
          body s stats in
      let (made, same) =
        after_compression-keeps merged session_id trackers'' o s' stats' request h in
      (
        subst
            (λ (hs : HeaderMap).
              (compress_json_request_ctx lib S (context lib env S target hs frozen)
                (shape_of target) body s stats).0
              ≡ some request.mutation)
            same made,
        λ m a b.
            subst (λ (hs : HeaderMap). values m hs ≡ values m headers) same
              (values-merge_betas m env.from_str env.to_str name session_id headers trackers'
                (beta_header_name-ne m target a b)),
      )

  prepare_body-IsPrepared :
      (headers : HeaderMap) (read : Result Bytes) (trackers : Inner) (s : S.State) (stats : Stats)
      (request : Request)
      → (prepare_body lib env S target headers read trackers s stats).0 ≡ some (forward request)
      → (body : Bytes) × (read ≡ ok body)
        × IsPrepared body
            (frozen_for headers (lib.from_slice body) trackers)
            headers
            s
            stats
            request
  unfolding prepare_body
  prepare_body-IsPrepared headers (err e) trackers s stats request h = absurd (cc)
  prepare_body-IsPrepared headers (ok body) trackers s stats request h =
      elim (Bool-cases (is_empty_batch target (lib.from_slice body))) [
        | inl e ↦ absurd (cc (rw e at h))
        | inr e ↦ (
          body,
          refl,
          prepare_request-IsPrepared headers body (lib.from_slice body) trackers s stats request
              (rw e at h),
        )
      ]

  -- Where a reader under a limit gives no body above it, a request that is forwarded to be compressed has
  -- a body of at most the configured bytes, and declared no more; what goes on is what the
  -- compression makes of that body, by the authorization of the headers that go on and with the
  -- messages frozen that the trackers have for the session of the request; and of
  -- these every one but the two beta headers has the values, in order, that the client sent.
  pub prepare_known_json-IsPrepared :
      (headers : HeaderMap) (to_bytes : ℕ → Result Bytes) (trackers : Inner) (s : S.State)
      (stats : Stats) (request : Request)
      → ((limit : ℕ) (body : Bytes) → to_bytes limit ≡ ok body → length body ≤ limit)
      → (prepare_known_json lib env S target headers to_bytes trackers s stats).0
        ≡ some (forward request)
      → (body : Bytes) × (to_bytes env.max_body_bytes ≡ ok body)
        × (length body ≤ env.max_body_bytes)
        × All (λ n. n ≤ env.max_body_bytes) (of_option (declared_length env headers))
        × IsPrepared body
            (frozen_for headers (lib.from_slice body) trackers)
            headers
            s
            stats
            request
  unfolding prepare_known_json
  prepare_known_json-IsPrepared headers to_bytes trackers s stats request limited h =
      let declared = declared_length env headers in
      let (body, read, prepared) =
        prepare_body-IsPrepared headers
          (read_limited_body env.show declared env.max_body_bytes to_bytes) trackers s stats request
          h in
      let (whole, small) =
        read_limited_body-eq_ok env.show env.max_body_bytes to_bytes declared body read in
      (body, whole, limited env.max_body_bytes body whole, small, prepared)
