-- ===== src/Schema.antt =====
-- The rows of prisma/schema.prisma that the services read and write, with their fields. Ids are
-- numbers, since the code only compares them; dates are milliseconds since 1970 in UTC. A column of
-- type Int holds any natural number here, where the database refuses one over 2147483647.
use hivepoint_backend.Common.{
  ℕ, String, Bool, false, Option, none, some, List, ◌&&◌, ◌||◌, ◌==◌, str_eq,
}

-- model UsageRecord
pub record UsageRecord : Type 0 where
  pub subscription_id : ℕ
  pub source_job_id : Option ℕ
  pub aggregated_at : Option ℕ
  pub occurred_at : ℕ
  pub endpoint : String
  pub request_count : ℕ

-- model UsageDailyAggregate
pub record UsageDailyAggregate : Type 0 where
  pub subscription_id : ℕ
  pub bucket_date : ℕ
  pub request_count : ℕ

-- model UsageEndpointDailyAggregate
pub record UsageEndpointDailyAggregate : Type 0 where
  pub subscription_id : ℕ
  pub bucket_date : ℕ
  pub endpoint : String
  pub request_count : ℕ

-- Two values of a nullable unique column: nulls never clash.
abbrev pub same_key : Option ℕ → Option ℕ → Bool
same_key none _ = false
same_key (some a) none = false
same_key (some a) (some b) = a == b

-- sourceJobId String? @unique
abbrev pub clash_usage_record : UsageRecord → UsageRecord → Bool
clash_usage_record r s = same_key r.source_job_id s.source_job_id

-- @@id([subscriptionId, bucketDate])
abbrev pub clash_daily : UsageDailyAggregate → UsageDailyAggregate → Bool
clash_daily r s = r.subscription_id == s.subscription_id && r.bucket_date == s.bucket_date

-- @@id([subscriptionId, bucketDate, endpoint])
abbrev pub clash_endpoint_daily : UsageEndpointDailyAggregate → UsageEndpointDailyAggregate → Bool
clash_endpoint_daily r s =
    r.subscription_id == s.subscription_id
    && (r.bucket_date == s.bucket_date && str_eq r.endpoint s.endpoint)

-- The tables that hold usage.
pub record UsageTables : Type 0 where
  pub records : List UsageRecord
  pub daily : List UsageDailyAggregate
  pub endpoint_daily : List UsageEndpointDailyAggregate

pub data ProductStatus : Type 0 where
  draft published hidden : ProductStatus

pub data SubscriptionStatus : Type 0 where
  pending active canceled past_due : SubscriptionStatus

pub data BillingProvider : Type 0 where
  mock stripe : BillingProvider

-- model ApiProduct
pub record ApiProduct : Type 0 where
  pub id : ℕ
  pub owner_id : ℕ
  pub title : String
  pub description : String
  pub category : String
  pub tags : List String
  pub status : ProductStatus

pub data PlanPeriod : Type 0 where
  month : PlanPeriod

-- model Plan
pub record Plan : Type 0 where
  pub id : ℕ
  pub product_id : ℕ
  pub name : String
  pub price_cents : ℕ
  pub currency : String
  pub period : PlanPeriod
  pub quota_requests : ℕ
  pub rate_limit_rpm : Option ℕ
  pub allow_overage : Bool
  pub overage_unit_requests : Option ℕ
  pub overage_price_cents : Option ℕ
  pub is_active : Bool

-- model Subscription
pub record Subscription : Type 0 where
  pub id : ℕ
  pub user_id : ℕ
  pub plan_id : ℕ
  pub payment_provider : BillingProvider
  pub external_subscription_id : Option String
  pub status : SubscriptionStatus
  pub current_period_start : Option ℕ
  pub current_period_end : Option ℕ
  pub grace_period_ends_at : Option ℕ
  pub cancel_at_period_end : Bool
  pub created_at : ℕ

-- model ApiKey
pub record ApiKey : Type 0 where
  pub id : ℕ
  pub user_id : ℕ
  pub label : String
  pub key_hash : String
  pub is_active : Bool
  pub created_at : ℕ
  pub revoked_at : Option ℕ

-- The primary key of a model.
abbrev pub clash_product : ApiProduct → ApiProduct → Bool
clash_product r s = r.id == s.id

abbrev pub clash_api_key : ApiKey → ApiKey → Bool
clash_api_key r s = r.id == s.id

abbrev pub clash_plan : Plan → Plan → Bool
clash_plan r s = r.id == s.id

-- Two values of a nullable unique text column.
abbrev pub same_text : Option String → Option String → Bool
same_text none _ = false
same_text (some a) none = false
same_text (some a) (some b) = str_eq a b

-- @id and externalSubscriptionId String? @unique
abbrev pub clash_subscription : Subscription → Subscription → Bool
clash_subscription r s =
    r.id == s.id || same_text r.external_subscription_id s.external_subscription_id

-- model GatewayBurstBucket. `tokens` is a double, counted as `Doubles` of Gateway/Burst does.
pub record GatewayBurstBucket : Type 0 where
  pub key : String
  pub tokens : ℕ
  pub last_refill_at : ℕ

abbrev pub clash_bucket : GatewayBurstBucket → GatewayBurstBucket → Bool
clash_bucket r s = str_eq r.key s.key

pub data VersionStatus : Type 0 where
  draft published : VersionStatus

pub data InvoiceStatus : Type 0 where
  draft paid past_due void : InvoiceStatus

pub data InvoiceKind : Type 0 where
  subscription overage : InvoiceKind

pub data Role : Type 0 where
  buyer seller admin : Role

-- model ApiVersion
pub record ApiVersion : Type 0 where
  pub id : ℕ
  pub product_id : ℕ
  pub version : String
  pub status : VersionStatus
  pub open_api_url : String
  pub open_api_snapshot : Option String
  pub open_api_fetched_at : Option ℕ
  pub created_at : ℕ

-- The columns `managed*` of model Invoice, as `ManagedRetryState` of
-- src/modules/billing/billing-managed-retry.policy.ts groups them.
pub record ManagedRetryState : Type 0 where
  pub managed_retry_count : ℕ
  pub managed_next_retry_at : Option ℕ
  pub managed_last_retry_at : Option ℕ
  pub managed_retry_exhausted_at : Option ℕ
  pub managed_last_retry_error : Option String

-- model Invoice
pub record Invoice : Type 0 where
  pub id : ℕ
  pub subscription_id : ℕ
  pub payment_provider : BillingProvider
  pub kind : InvoiceKind
  pub external_checkout_session_id : Option String
  pub external_invoice_id : Option String
  pub overage_source_invoice_id : Option ℕ
  pub overage_processed_at : Option ℕ
  pub overage_requests : Option ℕ
  pub overage_units : Option ℕ
  pub amount_cents : ℕ
  pub currency : String
  pub status : InvoiceStatus
  pub attempt_count : ℕ
  pub next_payment_attempt_at : Option ℕ
  pub retry : ManagedRetryState
  pub period_start : ℕ
  pub period_end : ℕ
  pub created_at : ℕ

-- @id and @@unique([productId, version])
abbrev pub clash_version : ApiVersion → ApiVersion → Bool
clash_version r s = r.id == s.id || r.product_id == s.product_id && str_eq r.version s.version

-- @id, and the @unique columns externalCheckoutSessionId, externalInvoiceId and
-- overageSourceInvoiceId
abbrev pub clash_invoice : Invoice → Invoice → Bool
clash_invoice r s =
    r.id == s.id
    || (same_text r.external_checkout_session_id s.external_checkout_session_id
        || (same_text r.external_invoice_id s.external_invoice_id
            || same_key r.overage_source_invoice_id s.overage_source_invoice_id))

pub data UsageIngestJobStatus : Type 0 where
  pending processed failed : UsageIngestJobStatus

-- model UsageIngestJob
pub record UsageIngestJob : Type 0 where
  pub id : ℕ
  pub subscription_id : ℕ
  pub occurred_at : ℕ
  pub endpoint : String
  pub request_count : ℕ
  pub status : UsageIngestJobStatus
  pub attempts : ℕ
  pub available_at : ℕ
  pub processed_at : Option ℕ
  pub last_error : Option String
  pub created_at : ℕ

abbrev pub clash_job : UsageIngestJob → UsageIngestJob → Bool
clash_job r s = r.id == s.id

-- model BackgroundJobLease
pub record BackgroundJobLease : Type 0 where
  pub name : String
  pub owner_id : ℕ
  pub expires_at : ℕ

abbrev pub clash_lease : BackgroundJobLease → BackgroundJobLease → Bool
clash_lease r s = str_eq r.name s.name
