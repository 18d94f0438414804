-- ===== src/Gateway/Dispatch.antt =====
-- `execute` of src/modules/gateway/gateway.service.ts: a request to a product's API is authorized,
-- limited, charged and sent on, in this order.
pub mod Ends
pub mod Outcome
mod Tests
use hivepoint_backend.Common.{
  ℕ, String, Bool, true, false, Option, none, some, List, [], ◌∷◌, ◌&&◌, ◌==◌, not, str_eq, or_else,
  is_truthy, if◌then◌else◌,
}
use hivepoint_backend.Prisma.{Delegate, desc}
use hivepoint_backend.Errors.{
  Failure, Result, ok, throw, app_error, unauthorized, product_not_found, product_not_public,
  version_not_found, invalid_api_key, no_active_subscription, quota_exceeded, rate_limit_exceeded,
  forbidden, gateway_upstream_unavailable,
}
use hivepoint_backend.Schema.{
  ApiProduct, ProductStatus, ApiVersion, VersionStatus, GatewayBurstBucket, clash_version,
  clash_bucket,
}
use hivepoint_backend.ExternalUrl.{SafeExternalUrlOptions}
use hivepoint_backend.Usage.Store.{Db, Client, Config, AuthorizeUsageInput}
use hivepoint_backend.Usage.Authorize.{
  AuthorizeResponse, Decision, Reason, authorize_usage_internal, decided,
}
use hivepoint_backend.Gateway.Burst.{BurstConfig, BurstDecision, check_and_consume}
use hivepoint_backend.Gateway.Target.{
  UrlWorld, normalize_path, resolve_upstream_base_url, build_upstream_url,
}
use hivepoint_backend.Gateway.Messages.{
  Method, RequestBody, SentBody, Upstream, BodyEncoding, ParsedBody, Platform, get_header,
  build_request_headers, build_request_body, assert_request_body_size, parse_response_body,
  should_stream_proxy_response, serialize_headers,
}
use hivepoint_backend.Gateway.Requests.{
  GatewayDispatchInput, GatewayUsage, GatewayExecutionResult, State, World, is_published,
  is_published_version, allowed_decision, map_authorization_failure, gateway_usage,
}

module _ (world : World) (input : GatewayDispatchInput) where
  abbrev pub url_options : SafeExternalUrlOptions
  url_options = record {
    allow_private_network_targets = world.allow_private_network_targets;
    http_status = 502;
  }

  -- The streamed answer of the proxy.
  abbrev pub streamed : String → Upstream → Decision → BurstDecision → GatewayExecutionResult
  streamed upstream_url response d burst = record {
    ok_flag = response.ok_flag;
    status = response.status;
    method = input.method;
    upstream_url = upstream_url;
    content_type = get_header "content-type" response.headers;
    headers = serialize_headers world.platform response.headers;
    body = none;
    body_encoding = none;
    raw_body = none;
    response_stream = response.body;
    usage = gateway_usage input d burst;
  }

  -- The answer with its body read.
  abbrev pub complete :
      Bool → String → Upstream → Decision → BurstDecision → ParsedBody → GatewayExecutionResult
  complete proxy_mode upstream_url response d burst parsed = record {
    ok_flag = response.ok_flag;
    status = response.status;
    method = input.method;
    upstream_url = upstream_url;
    content_type = get_header "content-type" response.headers;
    headers = serialize_headers world.platform response.headers;
    body = parsed.parsed_body;
    body_encoding = parsed.body_encoding;
    raw_body = if proxy_mode then parsed.raw_body else none;
    response_stream = none;
    usage = gateway_usage input d burst;
  }

  -- What follows the answer of `fetch`.
  unfoldable pub answer_upstream :
      Bool → String → Upstream → Decision → BurstDecision → Result GatewayExecutionResult
  answer_upstream proxy_mode upstream_url response d burst =
      if proxy_mode && should_stream_proxy_response world.platform response
      then ok (streamed upstream_url response d burst)
      else elim (parse_response_body world.platform response) [
        | throw e ↦ throw e
        | ok parsed ↦ ok (complete proxy_mode upstream_url response d burst parsed)
      ]

  -- `fetchUpstream` with its headers, and what follows. The size of the body is checked before
  -- anything is sent.
  unfoldable pub fetch_with_headers :
      Bool
      → String
      → Decision
      → BurstDecision
      → State
      → List (String × String)
      → Result GatewayExecutionResult × State
  fetch_with_headers proxy_mode upstream_url d burst st headers =
      let (body, sent_headers) =
        build_request_body world.platform input.method input.body headers in
      let after : State = record st { sent = upstream_url ∷ st.sent } in
      elim (assert_request_body_size world.platform body) [
        | throw e ↦ (throw e, st)
        | ok _ ↦ elim (world.fetch upstream_url input.method sent_headers body) [
          | throw e ↦ (throw (app_error gateway_upstream_unavailable 502), after)
          | ok response ↦ (answer_upstream proxy_mode upstream_url response d burst, after)
        ]
      ]

  unfoldable pub fetch_upstream :
      Bool → String → Decision → BurstDecision → State → Result GatewayExecutionResult × State
  fetch_upstream proxy_mode upstream_url d burst st =
      elim (build_request_headers world.platform input.headers) [
        | throw e ↦ (throw e, st)
        | ok headers ↦ fetch_with_headers proxy_mode upstream_url d burst st headers
      ]

  -- From the charged request on: the target is resolved and called.
  unfoldable pub send :
      Bool
      → ApiVersion
      → String
      → Decision
      → BurstDecision
      → State
      → Result GatewayExecutionResult × State
  send proxy_mode version path d burst st =
      elim (resolve_upstream_base_url world.urls url_options version.open_api_snapshot
        version.open_api_url) [
          | throw e ↦ (throw e, st)
          | ok base ↦ elim (build_upstream_url world.urls url_options base path input.query) [
            | throw e ↦ (throw e, st)
            | ok upstream_url ↦ fetch_upstream proxy_mode upstream_url d burst st
          ]
        ]

  -- `usageService.authorizeGatewayUsage`
  abbrev pub authorize : ℕ → String → String → ℕ → Bool → Db → Result (AuthorizeResponse × Db)
  authorize now api_key path occurred_at consume db =
      authorize_usage_internal world.config world.client now db (record {
        api_key = api_key;
        product_id = input.product_id;
        endpoint = path;
        request_count = input.request_count;
        occurred_at = some occurred_at;
        consume = some consume;
      })

  -- What the second authorization is answered with.
  unfoldable pub after_charge :
      Bool
      → ApiVersion
      → String
      → BurstDecision
      → State
      → AuthorizeResponse
      → Db
      → Result GatewayExecutionResult × State
  after_charge proxy_mode version path burst st response db =
      let after : State = record st { db = db } in
      elim (allowed_decision response) [
        | none ↦ (throw (map_authorization_failure response), after)
        | some d ↦ send proxy_mode version path d burst after
      ]

  -- The second authorization, which charges the request.
  unfoldable pub charge :
      Bool
      → ApiVersion
      → String
      → String
      → ℕ
      → BurstDecision
      → State
      → Result GatewayExecutionResult × State
  charge proxy_mode version api_key path now burst st =
      elim (authorize now api_key path now true st.db) [
        | throw e ↦ (throw e, st)
        | ok (response, db) ↦ after_charge proxy_mode version path burst st response db
      ]

  -- From the first authorization on. `faults` are those of the limiter's transactions.
  unfoldable pub limit_and_charge :
      Bool
      → ApiVersion
      → String
      → ℕ
      → (ℕ → Option Failure)
      → State
      → Result GatewayExecutionResult × State
  limit_and_charge proxy_mode version api_key now faults st =
      let path = normalize_path world.urls input.path in
      elim (authorize now api_key path now false st.db) [
        | throw e ↦ (throw e, st)
        | ok (response, db) ↦
            let seen : State = record st { db = db } in
            elim (allowed_decision response) [
              | none ↦ (throw (map_authorization_failure response), seen)
              | some d ↦
                  elim (check_and_consume world.burst_config world.gateway_burst_bucket faults
                    (world.key_of d.subscription_id) input.request_count d.rate_limit_rpm now
                    seen.buckets) [
                      | throw e ↦ (throw e, seen)
                      | ok (burst, buckets) ↦
                          let after : State = record seen { buckets = buckets } in
                          if not burst.allowed
                          then (throw (app_error rate_limit_exceeded 429), after)
                          else charge proxy_mode version api_key path now burst after
                    ]
            ]
      ]

  unfoldable pub find_published_version : List ApiVersion → Option ApiVersion
  find_published_version =
      world.api_version.find_first
        (λ v. v.product_id == input.product_id && is_published_version v.status)
        (desc (λ v. some v.created_at) ∷ [])

  -- `now` is the date of every `new Date()` of the request.
  unfoldable pub execute :
      Option String
      → Bool
      → ℕ
      → (ℕ → Option Failure)
      → State
      → Result GatewayExecutionResult × State
  execute provided_api_key proxy_mode now faults st =
      let api_key = world.urls.net.trim (or_else provided_api_key "") in
      if str_eq api_key ""
      then (throw (app_error unauthorized 401), st)
      else elim (world.client.api_product.find_unique (λ p. p.id == input.product_id)
          st.db.products) [
            | none ↦ (throw (app_error product_not_found 404), st)
            | some product ↦
                if not (is_published product.status)
                then (throw (app_error product_not_public 403), st)
                else elim (find_published_version st.versions) [
                  | none ↦ (throw (app_error version_not_found 404), st)
                  | some version ↦ limit_and_charge proxy_mode version api_key now faults st
                ]
          ]
