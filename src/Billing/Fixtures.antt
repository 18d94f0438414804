-- ===== src/Billing/Fixtures.antt =====
-- A subscription with a running period and a draft invoice for the next one.
use hivepoint_backend.Common.{true, false, none, some, [], ◌∷◌}
use hivepoint_backend.Prisma.Lists.{list_delegate}
use hivepoint_backend.Schema.{
  ProductStatus, VersionStatus, Plan, PlanPeriod, Subscription, SubscriptionStatus, Invoice,
  InvoiceStatus, InvoiceKind, BillingProvider, clash_version, clash_plan, clash_subscription,
  clash_invoice,
}
use hivepoint_backend.Billing.Store.{Db, Client, Config}
use hivepoint_backend.Billing.Retry.{clear_managed_retry_state}
use hivepoint_backend.Billing.Invoices.{InvoiceEvent}

abbrev pub client : Client
client = record {
  plan = list_delegate clash_plan;
  api_version = list_delegate clash_version;
  subscription = list_delegate clash_subscription;
  invoice = list_delegate clash_invoice;
}

abbrev pub config : Config
config = record {
  billing_grace_period_days = 3;
  billing_managed_retry_enabled = true;
  billing_managed_retry_delays_minutes = 60 ∷ 1440 ∷ [];
}

abbrev pub plan : Plan
plan = record {
  id = 5;
  product_id = 3;
  name = "basic";
  price_cents = 900;
  currency = "EUR";
  period = PlanPeriod.month;
  quota_requests = 10;
  rate_limit_rpm = none;
  allow_overage = false;
  overage_unit_requests = none;
  overage_price_cents = none;
  is_active = true;
}

abbrev pub subscription : Subscription
subscription = record {
  id = 7;
  user_id = 2;
  plan_id = 5;
  payment_provider = BillingProvider.mock;
  external_subscription_id = none;
  status = SubscriptionStatus.active;
  current_period_start = some 1000;
  current_period_end = some 5000;
  grace_period_ends_at = none;
  cancel_at_period_end = false;
  created_at = 0;
}

abbrev pub invoice : Invoice
invoice = record {
  id = 9;
  subscription_id = 7;
  payment_provider = BillingProvider.mock;
  kind = InvoiceKind.subscription;
  external_checkout_session_id = none;
  external_invoice_id = none;
  overage_source_invoice_id = none;
  overage_processed_at = none;
  overage_requests = none;
  overage_units = none;
  amount_cents = 900;
  currency = "EUR";
  status = InvoiceStatus.draft;
  attempt_count = 0;
  next_payment_attempt_at = none;
  retry = clear_managed_retry_state;
  period_start = 5000;
  period_end = 9000;
  created_at = 4000;
}

abbrev pub with_rows : Subscription → Invoice → Db
with_rows s i = record {
  products =
      record {
        id = 3;
        owner_id = 1;
        title = "maps";
        description = "maps of towns";
        category = "geo";
        tags = [];
        status = ProductStatus.published;
      }
      ∷ [];
  versions =
      record {
        id = 4;
        product_id = 3;
        version = "1";
        status = VersionStatus.published;
        open_api_url = "https://a.example/api.json";
        open_api_snapshot = none;
        open_api_fetched_at = none;
        created_at = 0;
      }
      ∷ [];
  plans = plan ∷ [];
  subscriptions = s ∷ [];
  invoices = i ∷ [];
}

abbrev pub db : Db
db = with_rows subscription invoice

abbrev pub event : InvoiceEvent
event = record {
  invoice_id = 9;
  payment_provider = BillingProvider.mock;
  external_checkout_session_id = none;
  external_invoice_id = some "in_1";
  external_subscription_id = none;
  invoice_status = some InvoiceStatus.past_due;
  attempt_count = none;
  next_payment_attempt_at = none;
}
