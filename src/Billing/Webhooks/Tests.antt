-- ===== src/Billing/Webhooks/Tests.antt =====
-- Stripe reports the payment of an invoice that it is known by.
use hivepoint_backend.Common.{ℕ, ◌≡◌, ◌≤◌, ◌<◌, ◌↔◌, refl, none, some, [], ◌∷◌}
use hivepoint_backend.Errors.{ok}
use hivepoint_backend.Schema.{
  Invoice, InvoiceStatus, Subscription, SubscriptionStatus, BillingProvider,
}
use hivepoint_backend.Usage.Windows.{UsageWindow, get_usage_window}
use hivepoint_backend.Billing.Store.{Db}
use hivepoint_backend.Billing.Fixtures.{client, config, subscription, invoice, with_rows}
use hivepoint_backend.Billing.Invoices.{find_invoice}
use hivepoint_backend.Billing.Webhooks.{
  Stripe, StripeInvoice, invoice_paid, other_event, should_allow_metadata_invoice_id, handle_event,
  resolve_metadata_invoice_id, extract_stripe_subscription_period,
}
use hivepoint_backend.Billing.Webhooks.Accepted.{handle_invoice_paid_access}

abbrev stripe : Stripe
stripe = record {
  construct_webhook_event = λ body signature. ok other_event;
  subscription_invoice_id = λ id. ok none;
  to_upper_case = λ s. s;
}

abbrev reported : StripeInvoice
reported = record {
  id = "in_1";
  metadata_invoice_id = none;
  subscription = some "sub_1";
  details_invoice_id = none;
  billing_reason = "subscription_cycle";
  total = 900;
  currency = "EUR";
  period_start = 5;
  period_end = 9;
  attempt_count = some 1;
  next_payment_attempt = none;
}

abbrev known : Invoice
known = record invoice {
  payment_provider = BillingProvider.stripe;
  external_invoice_id = some "in_1";
  status = InvoiceStatus.past_due;
}

abbrev db : Db
db = with_rows subscription known

handle_invoice_paid_access_example :
    (db' : Db) × (i' : Invoice) × (s' : Subscription) × (handle_event config client stripe 8000 10
        db
        (invoice_paid reported)
      ≡ (ok tt, db'))
    × (find_invoice config client db' 9 ≡ some (i', s'))
    × (i'.status ≡ InvoiceStatus.paid)
    × (s'.status ≡ SubscriptionStatus.active)
    × ((t : ℕ) (w : UsageWindow)
        → (get_usage_window s' t ≡ some w)
          ↔ ((w.gte ≡ 5000) × (w.lt ≡ 9000) × (5000 ≤ t) × (t < 9000)))
unfolding find_invoice resolve_metadata_invoice_id should_allow_metadata_invoice_id
handle_invoice_paid_access_example =
    handle_invoice_paid_access config client stripe 8000 10 db reported none known subscription refl
      refl refl refl

-- The period of two items is from the earlier start to the later end.
two_items :
    extract_stripe_subscription_period (
      record { start = some 5; end = some 9 }
      ∷ record { start = none; end = some 20 }
      ∷ record { start = some 3; end = some 8 }
      ∷ [])
    ≡ (some 3000, some 9000)
unfolding extract_stripe_subscription_period
two_items = refl
