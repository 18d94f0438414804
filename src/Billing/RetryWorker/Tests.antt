-- ===== src/Billing/RetryWorker/Tests.antt =====
-- A renewal of Stripe that is past due, with a provider that is out of reach.
use hivepoint_backend.Common.{refl, some, [], ◌∷◌, arith}
use hivepoint_backend.Errors.{throw, external_error}
use hivepoint_backend.Schema.{
  Subscription, SubscriptionStatus, Invoice, InvoiceStatus, BillingProvider,
}
use hivepoint_backend.Billing.Fixtures.{client, config, subscription, invoice, with_rows}
use hivepoint_backend.Billing.Store.{Db}
use hivepoint_backend.Billing.Retry.{create_initial_managed_retry_state}
use hivepoint_backend.Billing.Invoices.{find_invoice}
use hivepoint_backend.Billing.RetryWorker.{WorkerConfig, process_invoice_retry}
use hivepoint_backend.Billing.RetryWorker.Progress.{IsRested, process_invoice_retry-IsRested}

abbrev worker : WorkerConfig
worker = record {
  payment_provider = BillingProvider.stripe;
  billing_managed_retry_interval_seconds = 300;
  billing_managed_retry_batch_size = 20;
  retry_invoice_payment = λ id. throw external_error;
  describe_error = λ e. "card";
}

abbrev late : Invoice
late = record invoice {
  payment_provider = BillingProvider.stripe;
  external_invoice_id = some "in_1";
  status = InvoiceStatus.past_due;
  retry = create_initial_managed_retry_state 4500 (60 ∷ 1440 ∷ []);
}

abbrev late_subscription : Subscription
late_subscription = record subscription { status = SubscriptionStatus.past_due }

abbrev db : Db
db = with_rows late_subscription late

process_invoice_retry-IsRested_example :
    IsRested 3700000 (process_invoice_retry config client worker 3700000 db 9 "in_1" 0).1 9
unfolding find_invoice
process_invoice_retry-IsRested_example =
    process_invoice_retry-IsRested config client worker 3700000 db 9 "in_1" 0 late late_subscription
      refl refl (λ r answered. absurd (ground (arith, answered)))
