-- ===== src/Billing/Reconciliation/Tests.antt =====
-- A subscription that Stripe has forgotten.
use hivepoint_backend.Common.{◌≡◌, refl, true, false, none, some, find}
use hivepoint_backend.Errors.{ok}
use hivepoint_backend.Schema.{Subscription, SubscriptionStatus, BillingProvider}
use hivepoint_backend.Usage.Store.{is_usable_at}
use hivepoint_backend.Billing.Store.{Db}
use hivepoint_backend.Billing.Fixtures.{client, config, subscription, invoice, with_rows}
use hivepoint_backend.Billing.Sync.{subscription_with_external_id}
use hivepoint_backend.Billing.Webhooks.{Stripe, other_event}
use hivepoint_backend.Billing.Reconciliation.{WorkerConfig, missing, reconcile_subscription}
use hivepoint_backend.Billing.Reconciliation.Removed.{reconcile_subscription_removed}

abbrev stripe : Stripe
stripe = record {
  construct_webhook_event = λ body signature. ok other_event;
  subscription_invoice_id = λ id. ok none;
  to_upper_case = λ s. s;
}

abbrev worker : WorkerConfig
worker = record {
  payment_provider = BillingProvider.stripe;
  billing_reconciliation_enabled = true;
  billing_reconciliation_interval_seconds = 300;
  billing_reconciliation_batch_size = 20;
  retrieve = λ id. missing;
}

abbrev forgotten : Subscription
forgotten = record subscription {
  payment_provider = BillingProvider.stripe;
  external_subscription_id = some "sub_1";
}

abbrev db : Db
db = with_rows forgotten invoice

reconcile_subscription_removed_example :
    (db' : Db) × (s' : Subscription) × (reconcile_subscription config client stripe worker 2000 30
        db "sub_1"
      ≡ (ok tt, db'))
    × (find (subscription_with_external_id "sub_1") db'.subscriptions ≡ some s')
    × (s'.status ≡ SubscriptionStatus.canceled)
    × (s'.grace_period_ends_at ≡ none)
    × (is_usable_at 3000 s' ≡ false)
reconcile_subscription_removed_example =
    reconcile_subscription_removed config client stripe worker 2000 30 3000 db "sub_1" forgotten
      refl refl refl
