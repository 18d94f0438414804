-- ===== src/Gateway/Requests.antt =====
-- What `execute` of src/modules/gateway/gateway.service.ts takes and answers, and what it calls.
use hivepoint_backend.Common.{ℕ, String, Bool, true, false, Option, none, some, List, if◌then◌else◌}
use hivepoint_backend.Prisma.{Delegate}
use hivepoint_backend.Errors.{
  Failure, Result, app_error, invalid_api_key, no_active_subscription, quota_exceeded,
  rate_limit_exceeded, forbidden,
}
use hivepoint_backend.Schema.{
  ProductStatus, ApiVersion, VersionStatus, GatewayBurstBucket, clash_version, clash_bucket,
}
use hivepoint_backend.Usage.Store.{Db, Client, Config}
use hivepoint_backend.Usage.Authorize.{AuthorizeResponse, Decision, Reason, decided}
use hivepoint_backend.Gateway.Burst.{BurstConfig, BurstDecision}
use hivepoint_backend.Gateway.Target.{UrlWorld}
use hivepoint_backend.Gateway.Messages.{
  Method, Chunk, RequestBody, SentBody, Upstream, BodyEncoding, Platform,
}

-- `GatewayDispatchInput` of src/modules/gateway/gateway.schemas.ts; the query's values are written as
-- texts.
pub record GatewayDispatchInput : Type 0 where
  pub product_id : ℕ
  pub path : String
  pub method : Method
  pub headers : List (String × String)
  pub query : List (String × String)
  pub body : RequestBody
  pub request_count : ℕ

-- The `usage` of the answer.
pub record GatewayUsage : Type 0 where
  pub subscription_id : ℕ
  pub request_count : ℕ
  pub remaining_requests : ℕ
  pub rate_limit_rpm : Option ℕ
  pub remaining_rate_limit_requests : Option ℕ
  pub burst_limit : Option ℕ
  pub remaining_burst_requests : Option ℕ
  pub burst_window_seconds : Option ℕ
  pub usage_recorded : Bool
  pub period_end : ℕ

-- `GatewayExecutionResult`
pub record GatewayExecutionResult : Type 0 where
  pub ok_flag : Bool
  pub status : ℕ
  pub method : Method
  pub upstream_url : String
  pub content_type : Option String
  pub headers : List (String × String)
  pub body : Option String
  pub body_encoding : Option BodyEncoding
  pub raw_body : Option (List ℕ)
  pub response_stream : Option (List Chunk)
  pub usage : GatewayUsage

-- The tables that a request reads and writes, and the addresses that were sent requests, the last
-- one first.
pub record State : Type 0 where
  pub db : Db
  pub versions : List ApiVersion
  pub buckets : List GatewayBurstBucket
  pub sent : List String

-- What the service calls and is configured with. `fetch` may reject, which the timeout makes it do
-- too; `key_of` writes a subscription's id.
pub record World : Type 0 where
  pub config : Config
  pub client : Client
  pub api_version : Delegate clash_version
  pub burst_config : BurstConfig
  pub gateway_burst_bucket : Delegate clash_bucket
  pub urls : UrlWorld
  pub platform : Platform
  pub allow_private_network_targets : Bool
  pub fetch : String → Method → List (String × String) → SentBody → Result Upstream
  pub key_of : ℕ → String

abbrev pub is_published : ProductStatus → Bool
is_published s = elim s [ ProductStatus.published ↦ true | _ ↦ false ]

abbrev pub is_published_version : VersionStatus → Bool
is_published_version s = elim s [ VersionStatus.published ↦ true | _ ↦ false ]

-- The decision that lets a request pass. Every decision names its subscription.
abbrev pub allowed_decision : AuthorizeResponse → Option Decision
allowed_decision (decided d) = if d.allowed then some d else none
allowed_decision _ = none

-- `mapAuthorizationFailure`, by the reason of the answer.
unfoldable pub map_authorization_failure : AuthorizeResponse → Failure
map_authorization_failure (AuthorizeResponse.invalid_api_key p n) = app_error invalid_api_key 401
map_authorization_failure (AuthorizeResponse.no_active_subscription k u n) =
    app_error no_active_subscription 403
map_authorization_failure (decided d) = elim d.reason [
  | none ↦ app_error forbidden 403
  | some Reason.quota_exceeded ↦ app_error quota_exceeded 429
  | some Reason.rate_limit_exceeded ↦ app_error rate_limit_exceeded 429
]

-- The `usage` that both answers spell out.
abbrev pub gateway_usage : GatewayDispatchInput → Decision → BurstDecision → GatewayUsage
gateway_usage input d burst = record {
  subscription_id = d.subscription_id;
  request_count = input.request_count;
  remaining_requests = d.remaining_requests;
  rate_limit_rpm = d.rate_limit_rpm;
  remaining_rate_limit_requests = d.remaining_rate_limit_requests;
  burst_limit = burst.burst_limit;
  remaining_burst_requests = burst.remaining_burst_requests;
  burst_window_seconds = burst.burst_window_seconds;
  usage_recorded = d.usage_recorded;
  period_end = d.period_end;
}
