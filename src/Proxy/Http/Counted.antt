-- ===== src/Proxy/Http/Counted.antt =====
-- That every request is counted, and counted as skipped unless it is compressed.
use hr.Prelude.{ℕ, ◌≡◌, ◌⊎◌, refl, inl, inr, Option, none, some, List, Text, Bytes}
use hr.Result.{Result, ok, err}
use hr.Stats.{Stats, fetch_add, bump, record_request, record_skipped_request}
use hr.Proxy.Route.{
  CompressionTarget, RequestClass, classify_request, anthropic_batch_results_batch_id,
}
use hr.Proxy.Route.Targets.{classify_request-exclusive}
use hr.Proxy.Batches.{BatchContextEntry, Contexts, batch_context}
use hr.Proxy.Http.{
  Routed, bad_gateway, streaming, batch_results, known_json, Settings, Incoming, opt_out,
  route_target, route_batch, results_or_stream, route_class, proxy_http,
}

module _ (to_str : Bytes → Option Text) (settings : Settings) (request : Incoming)
    (class : RequestClass) (url : Result Text) (stats stats' : Stats) where
  -- One reason more is counted: the class's, of a request without a target.
  abbrev pub IsUntargeted : Text → Type 0
  IsUntargeted reason =
      (class.target ≡ none)
      × (class.skipped_reason ≡ some reason)
      × (stats'.skipped_requests ≡ bump reason stats.skipped_requests)

  abbrev pub IsOptedOut : Text → Type 0
  IsOptedOut reason =
      ((target : CompressionTarget) × (class.target ≡ some target))
      × (opt_out to_str settings request.headers ≡ some reason)
      × (stats'.skipped_requests ≡ bump reason stats.skipped_requests)

  -- What each way out of the decision says of the request and of the reasons counted.
  abbrev pub Tally : Routed → Type 0
  Tally (bad_gateway e) = (url ≡ err e) × (stats'.skipped_requests ≡ stats.skipped_requests)
  Tally streaming = (reason : Text) × (IsUntargeted reason ⊎ IsOptedOut reason)
  Tally (batch_results contexts) = (reason : Text) × IsUntargeted reason
  Tally (known_json target) =
      (class.target ≡ some target)
      × (opt_out to_str settings request.headers ≡ none)
      × (stats'.skipped_requests ≡ stats.skipped_requests)

module _ (to_str : Bytes → Option Text) (settings : Settings) (now : ℕ) (request : Incoming)
    (class : RequestClass) (url : Result Text) (stats : Stats) where
  target-Tally :
      (target : CompressionTarget) (o : Option Text)
      → class.target ≡ some target
      → opt_out to_str settings request.headers ≡ o
      → Tally to_str settings request class url stats
          (route_target target o (record_request stats)).1
          (route_target target o (record_request stats)).0
  unfolding route_target record_request record_skipped_request
  target-Tally target none h e = (h, e, refl)
  target-Tally target (some reason) h e = (reason, inr ((target, h), e, refl))

  results-Tally :
      (reason : Text) (o : Option Contexts)
      → class.target ≡ none
      → class.skipped_reason ≡ some reason
      → Tally to_str settings request class url stats
          (record_skipped_request reason (record_request stats))
          (results_or_stream o)
  unfolding record_request record_skipped_request
  results-Tally reason none h e = (reason, inl (h, e, refl))
  results-Tally reason (some contexts) h e = (reason, (h, e, refl))

  batch-Tally :
      (reason : Text) (batch_id : Option Text) (entries : List BatchContextEntry)
      → class.target ≡ none
      → class.skipped_reason ≡ some reason
      → Tally to_str settings request class url stats
          (record_skipped_request reason (record_request stats))
          (route_batch now batch_id entries).0
  unfolding route_batch
  batch-Tally reason none entries h e = results-Tally reason none h e
  batch-Tally reason (some id) entries h e =
      results-Tally reason (batch_context now id entries).0 h e

module _ (to_str : Bytes → Option Text) (settings : Settings) (now : ℕ) (request : Incoming) where
  target-total :
      (target : CompressionTarget) (o : Option Text) (stats : Stats)
      → (route_target target o stats).1.total_requests ≡ stats.total_requests
  unfolding route_target record_skipped_request
  target-total target none stats = refl
  target-total target (some reason) stats = refl

  route-total :
      (t : Option CompressionTarget) (r : Option Text) (stats : Stats)
      (entries : List BatchContextEntry)
      → (route_class to_str settings now request t r stats entries).1.total_requests
        ≡ stats.total_requests
  unfolding route_class record_skipped_request
  route-total (some target) r stats entries =
      target-total target (opt_out to_str settings request.headers) stats
  route-total none none stats entries = refl
  route-total none (some reason) stats entries = refl

  route-Tally :
      (class : RequestClass) (url : Result Text) (t : Option CompressionTarget) (r : Option Text)
      (stats : Stats) (entries : List BatchContextEntry)
      → class.target ≡ t
      → class.skipped_reason ≡ r
      → ((target : CompressionTarget) × (t ≡ some target)) ⊎ ((reason : Text) × (r ≡ some reason))
      → Tally to_str settings request class url stats
          (route_class to_str settings now request t r (record_request stats) entries).1
          (route_class to_str settings now request t r (record_request stats) entries).0
  unfolding route_class
  route-Tally class url (some target) r stats entries h e x =
      target-Tally to_str settings now request class url stats target
        (opt_out to_str settings request.headers) h refl
  route-Tally class url none (some reason) stats entries h e x =
      batch-Tally to_str settings now request class url stats reason
        (anthropic_batch_results_batch_id request.method request.path) entries h e
  route-Tally class url none none stats entries h e (inl (target, n)) = absurd (cc)
  route-Tally class url none none stats entries h e (inr (reason, n)) = absurd (cc)

  shown :
      (class : RequestClass)
      → ((target : CompressionTarget) × (class.target ≡ some target)
          × (class.skipped_reason ≡ none))
        ⊎ ((reason : Text) × (class.target ≡ none) × (class.skipped_reason ≡ some reason))
      → ((target : CompressionTarget) × (class.target ≡ some target))
        ⊎ ((reason : Text) × (class.skipped_reason ≡ some reason))
  shown class (inl (target, e, _)) = inl (target, e)
  shown class (inr (reason, _, e)) = inr (reason, e)

  -- A request is counted once, whatever becomes of it. With a URL it is handed to the compression just where its
  -- path has a target and nothing opts out, and then no reason is counted; where it is streamed on, or
  -- answered as the results of a batch, exactly one reason is counted: the opt-out of a request with
  -- a target, and the reason of the class of one without. Without a URL no reason is counted.
  pub proxy_http-Tally :
      (url : Result Text) (stats : Stats) (entries : List BatchContextEntry)
      → ((proxy_http to_str settings now request
            (classify_request request.method request.path)
            url
            stats
            entries).1.total_requests
          ≡ fetch_add stats.total_requests 1)
        × Tally to_str settings request
            (classify_request request.method request.path)
            url
            stats
            (proxy_http to_str settings now request
              (classify_request request.method request.path)
              url
              stats
              entries).1
            (proxy_http to_str settings now request
              (classify_request request.method request.path)
              url
              stats
              entries).0
  unfolding proxy_http record_request
  proxy_http-Tally (err e) stats entries = (refl, (refl, refl))
  proxy_http-Tally (ok url) stats entries =
      let class = classify_request request.method request.path in
      (
        route-total class.target class.skipped_reason (record_request stats) entries,
        route-Tally class (ok url) class.target class.skipped_reason stats entries refl refl
            (shown class (classify_request-exclusive request.method request.path)),
      )
