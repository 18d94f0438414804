-- ===== src/Gateway/Dispatch/Ends.antt =====
-- How a request through the gateway can end, and that it does once it is charged.
use hivepoint_backend.Common.{
  ℕ, String, List, ◌≡◌, ◌⊎◌, inl, inr, Bool, true, some, ◌∷◌, ◌&&◌, arith, Bool-cases,
}
use hivepoint_backend.Errors.{Failure, Result, ok, throw, Result-cases}
use hivepoint_backend.Schema.{ApiVersion}
use hivepoint_backend.Usage.Store.{Db}
use hivepoint_backend.Usage.Authorize.{Decision}
use hivepoint_backend.Usage.Authorize.Consumption.{IsChargedFor}
use hivepoint_backend.Gateway.Burst.{BurstDecision}
use hivepoint_backend.Gateway.Target.{normalize_path, resolve_upstream_base_url, build_upstream_url}
use hivepoint_backend.Gateway.Messages.{
  Upstream, build_request_headers, build_request_body, assert_request_body_size,
  parse_response_body, should_stream_proxy_response,
}
use hivepoint_backend.Gateway.Dispatch.{
  answer_upstream, fetch_upstream, fetch_with_headers, send, url_options,
}
use hivepoint_backend.Gateway.Requests.{
  GatewayDispatchInput, GatewayExecutionResult, State, World, gateway_usage,
}

-- What a request charges: the tables have it recorded for the subscription of its key.
abbrev pub IsPaid : World → GatewayDispatchInput → String → ℕ → Db → Db → Type 0
IsPaid world input api_key now before after =
    IsChargedFor world.config world.client now
      (record {
        api_key = api_key;
        product_id = input.product_id;
        endpoint = normalize_path world.urls input.path;
        request_count = input.request_count;
        occurred_at = some now;
        consume = some true;
      })
      before after

-- The three ends of a request: it throws, with nothing charged and nothing sent; it throws after it
-- was charged, with at most one request sent; or it answers, it was charged to the subscription that
-- the answer names, and exactly the request to the address that the answer names was sent.
pub data IsOutcome (world : World) (input : GatewayDispatchInput) (api_key : String) (now : ℕ)
    (before after : State) : Result GatewayExecutionResult → Type 0 where
  stopped :
      (e : Failure)
      → after.db ≡ before.db
      → after.sent ≡ before.sent
      → IsOutcome world input api_key now before after (throw e)
  failed :
      (e : Failure)
      → IsPaid world input api_key now before.db after.db
      → (after.sent ≡ before.sent) ⊎ ((url : String) × (after.sent ≡ url ∷ before.sent))
      → IsOutcome world input api_key now before after (throw e)
  answered :
      (r : GatewayExecutionResult) (paid : IsPaid world input api_key now before.db after.db)
      → after.sent ≡ r.upstream_url ∷ before.sent
      → r.usage.subscription_id ≡ paid.subscription.id
      → IsOutcome world input api_key now before after (ok r)

module _ (world : World) (input : GatewayDispatchInput) where
  answer_upstream_names :
      (proxy_mode : Bool) (url : String) (response : Upstream) (d : Decision)
      (burst : BurstDecision) (r : GatewayExecutionResult)
      → answer_upstream world input proxy_mode url response d burst ≡ ok r
      → (r.upstream_url ≡ url) × (r.usage ≡ gateway_usage input d burst)
  unfolding answer_upstream
  answer_upstream_names proxy_mode url response d burst r e =
      elim (Bool-cases (proxy_mode && should_stream_proxy_response world.platform response)) [
        | inl streams ↦ ground (arith, e, streams)
        | inr whole ↦ elim (Result-cases (parse_response_body world.platform response)) [
          | inl (f, bad) ↦ absurd (ground (arith, e, whole, bad))
          | inr (parsed, good) ↦ ground (arith, e, whole, good)
        ]
      ]

  -- What follows the charge.
  module _ (api_key : String) (now : ℕ) (before : State) (proxy_mode : Bool) (d : Decision)
      (burst : BurstDecision) (st : State) (paid : IsPaid world input api_key now before.db st.db)
      (same_subscription : d.subscription_id ≡ paid.subscription.id)
      (quiet : st.sent ≡ before.sent) where
    answer_upstream-IsOutcome :
        (url : String) (response : Upstream)
        → IsOutcome world input api_key now before
            (record st { sent = url ∷ st.sent })
            (answer_upstream world input proxy_mode url response d burst)
    answer_upstream-IsOutcome url response =
        elim (Result-cases (answer_upstream world input proxy_mode url response d burst)) [
          | inl (e, threw) ↦ rw threw (failed e paid (inr (url, ground (arith, quiet))))
          | inr (r, gave) ↦
              let (named, usage) = answer_upstream_names proxy_mode url response d burst r gave in
              rw gave (
                answered r paid (ground (arith, quiet, named))
                  (ground (arith, usage, same_subscription)))
        ]

    fetch_with_headers-IsOutcome :
        (url : String) (headers : List (String × String))
        → IsOutcome world input api_key now before
            (fetch_with_headers world input proxy_mode url d burst st headers).1
            (fetch_with_headers world input proxy_mode url d burst st headers).0
    unfolding fetch_with_headers
    fetch_with_headers-IsOutcome url headers =
        let (body, sent_headers) =
          build_request_body world.platform input.method input.body headers in
        elim (Result-cases (assert_request_body_size world.platform body)) [
          | inl (e, big) ↦ rw (fetch_with_headers, big) (failed e paid (inl quiet))
          | inr (_, fits) ↦ elim (Result-cases (world.fetch url input.method sent_headers body)) [
            | inl (e, away) ↦
                rw (fetch_with_headers, fits, away)
                  (failed _ paid (inr (url, ground (arith, quiet))))
            | inr (response, came) ↦
                rw (fetch_with_headers, fits, came) (answer_upstream-IsOutcome url response)
          ]
        ]

    fetch_upstream-IsOutcome :
        (url : String)
        → IsOutcome world input api_key now before
            (fetch_upstream world input proxy_mode url d burst st).1
            (fetch_upstream world input proxy_mode url d burst st).0
    unfolding fetch_upstream
    fetch_upstream-IsOutcome url =
        elim (Result-cases (build_request_headers world.platform input.headers)) [
          | inl (e, bad) ↦ rw (fetch_upstream, bad) (failed e paid (inl quiet))
          | inr (headers, good) ↦
              rw (fetch_upstream, good) (fetch_with_headers-IsOutcome url headers)
        ]

    pub send-IsOutcome :
        (version : ApiVersion) (path : String)
        → IsOutcome world input api_key now before
            (send world input proxy_mode version path d burst st).1
            (send world input proxy_mode version path d burst st).0
    unfolding send
    send-IsOutcome version path =
        elim (Result-cases (
          resolve_upstream_base_url world.urls (url_options world input) version.open_api_snapshot
            version.open_api_url)) [
              | inl (e, none_named) ↦ rw (send, none_named) (failed e paid (inl quiet))
              | inr (base, named) ↦
                  elim (Result-cases (
                    build_upstream_url world.urls (url_options world input) base path
                      input.query)) [
                        | inl (e, unsafe) ↦ rw (send, named, unsafe) (failed e paid (inl quiet))
                        | inr (url, built) ↦ rw (send, named, built) (fetch_upstream-IsOutcome url)
                      ]
            ]
