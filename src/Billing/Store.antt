-- ===== src/Billing/Store.antt =====
-- The state and the outside world of src/modules/billing/subscriptions.service.ts.
use hivepoint_backend.Common.{ℕ, Bool, List}
use hivepoint_backend.Prisma.{Delegate}
use hivepoint_backend.Schema.{
  ApiProduct, ApiVersion, Plan, Subscription, Invoice, clash_version, clash_plan,
  clash_subscription, clash_invoice,
}

pub record Db : Type 0 where
  pub products : List ApiProduct
  pub versions : List ApiVersion
  pub plans : List Plan
  pub subscriptions : List Subscription
  pub invoices : List Invoice

pub record Client : Type 0 where
  pub plan : Delegate clash_plan
  pub api_version : Delegate clash_version
  pub subscription : Delegate clash_subscription
  pub invoice : Delegate clash_invoice

-- The settings BILLING_*, of src/common/config/config.service.ts.
pub record Config : Type 0 where
  pub billing_grace_period_days : ℕ
  pub billing_managed_retry_enabled : Bool
  pub billing_managed_retry_delays_minutes : List ℕ

-- What `markInvoicePaid` and `markInvoiceFailed` return: `{ok: true}`, or with `ignored: true`.
pub data Ack : Type 0 where
  done ignored : Ack
