-- ===== src/Usage/Store.antt =====
-- The state and the outside world of src/modules/usage/usage.service.ts: its tables, its database
-- client, its configuration and its inputs.
use hivepoint_backend.Common.{
  ℕ, String, Bool, true, false, Option, none, some, List, ◌&&◌, ◌||◌, ◌==◌, ltb, leb, find,
}
use hivepoint_backend.Prisma.{Delegate}
use hivepoint_backend.Schema.{
  ApiProduct, Plan, Subscription, SubscriptionStatus, ApiKey, UsageTables, clash_product,
  clash_plan, clash_api_key, clash_subscription,
}
use hivepoint_backend.Usage.Aggregation.{UsageClient}

pub record Db : Type 0 where
  pub products : List ApiProduct
  pub plans : List Plan
  pub subscriptions : List Subscription
  pub api_keys : List ApiKey
  pub usage : UsageTables

pub record Client : Type 0 where
  pub api_product : Delegate clash_product
  pub api_key : Delegate clash_api_key
  pub subscription : Delegate clash_subscription
  pub plan : Delegate clash_plan
  pub usage : UsageClient

-- `sha256` is `createHash('sha256').update(_).digest('hex')` of node's crypto.
pub record Config : Type 0 where
  pub usage_ingest_secret : String
  pub api_key_salt : String
  pub usage_ingest_queue_enabled : Bool
  pub sha256 : String → String

-- `AuthorizeUsageInput` of src/modules/usage/usage.schemas.ts
pub record AuthorizeUsageInput : Type 0 where
  pub api_key : String
  pub product_id : ℕ
  pub endpoint : String
  pub request_count : ℕ
  pub occurred_at : Option ℕ
  pub consume : Option Bool

-- `RecordUsageInput` of src/modules/usage/usage.schemas.ts
pub record RecordUsageInput : Type 0 where
  pub subscription_id : ℕ
  pub endpoint : String
  pub request_count : ℕ
  pub occurred_at : Option ℕ

-- `{lte}` and `{gt}` on a nullable column: null passes neither.
abbrev pub lte_column : Option ℕ → ℕ → Bool
lte_column none t = false
lte_column (some c) t = leb c t

abbrev pub gt_column : Option ℕ → ℕ → Bool
gt_column none t = false
gt_column (some c) t = ltb t c

abbrev pub is_active : SubscriptionStatus → Bool
is_active s = elim s [ SubscriptionStatus.active ↦ true | _ ↦ false ]

abbrev pub is_past_due : SubscriptionStatus → Bool
is_past_due s = elim s [ SubscriptionStatus.past_due ↦ true | _ ↦ false ]

-- The `OR` of the subscription query.
abbrev pub is_usable_at : ℕ → Subscription → Bool
is_usable_at occurred_at s =
    (is_active s.status
      && (lte_column s.current_period_start occurred_at
          && gt_column s.current_period_end occurred_at))
    || (is_past_due s.status
        && (lte_column s.current_period_start occurred_at
            && gt_column s.grace_period_ends_at occurred_at))

-- The plan that a subscription's `planId` references, and the test `plan: {productId}`.
abbrev pub plan_of : List Plan → Subscription → Option Plan
plan_of plans s = find (λ p. p.id == s.plan_id) plans

abbrev pub is_for_product : Option Plan → ℕ → Bool
is_for_product none product_id = false
is_for_product (some p) product_id = p.product_id == product_id
