-- ===== src/Billing/Tests.antt =====
-- Runs of the billing services on the tables of Billing/Fixtures.
use hivepoint_backend.Common.{
  ℕ, ◌≤◌, ◌<◌, ◌≡◌, ◌↔◌, inl, refl, false, none, some, [], ◌∷◌, arith, find,
}
use hivepoint_backend.Errors.{Result, ok, throw, external_error}
use hivepoint_backend.Schema.{
  Subscription, SubscriptionStatus, Invoice, InvoiceStatus, BillingProvider, Role,
}
use hivepoint_backend.Billing.Fixtures.{client, config, subscription, invoice, with_rows, db, event}
use hivepoint_backend.Usage.Windows.{UsageWindow, get_usage_window}
use hivepoint_backend.Billing.Store.{Db, Ack, done}
use hivepoint_backend.Billing.Retry.{create_initial_managed_retry_state, retries}
use hivepoint_backend.Billing.Retry.Schedule.{retries-eq-length}
use hivepoint_backend.Billing.Invoices.{
  is_stale, find_invoice, update_invoice, update_subscription, mark_invoice_paid,
  mark_invoice_failed, invoice_with_id,
}
use hivepoint_backend.Billing.Invoices.Access.{mark_invoice_paid_access, mark_invoice_failed_access}
use hivepoint_backend.Billing.Invoices.Replay.{mark_invoice_paid_twice}
use hivepoint_backend.Billing.Sync.{
  ExternalInvoice, resolve_invoice_for_external_sync, sync_invoice_from_external, find_by_metadata,
  create_for_subscription, created_invoice,
}
use hivepoint_backend.Billing.Sync.Settled.{
  sync_draft_keeps_settled, resolve_invoice_for_external_sync_twice,
}
use hivepoint_backend.Billing.Subscriptions.{User, PaymentProvider, subscribe, cancel_subscription}
use hivepoint_backend.Billing.Subscriptions.Live.{live_count, live_count-subscribe}
use hivepoint_backend.Billing.Subscriptions.Access.{IsAnswered, cancel_subscription_keeps_access}

-- The tables of a result that is there, and the first tables otherwise.
abbrev tables : Db → Result (Ack × Db) → Db
tables d (ok (_, after)) = after
tables d (throw e) = d

abbrev paid : Db
paid = tables db (mark_invoice_paid config client db event)

abbrev failed : Db
failed = tables db (mark_invoice_failed config client 4500 db event)

mark_invoice_paid_access_example :
    (i' : Invoice) × (s' : Subscription) × (find_invoice config client paid 9 ≡ some (i', s'))
    × (i'.status ≡ InvoiceStatus.paid)
    × (s'.status ≡ SubscriptionStatus.active)
    × ((t : ℕ) (w : UsageWindow)
        → (get_usage_window s' t ≡ some w)
          ↔ ((w.gte ≡ 5000) × (w.lt ≡ 9000) × (5000 ≤ t) × (t < 9000)))
unfolding mark_invoice_paid find_invoice is_stale update_invoice update_subscription
mark_invoice_paid_access_example =
    mark_invoice_paid_access config client db event invoice subscription refl refl paid refl

mark_invoice_failed_access_example :
    (i' : Invoice) × (s' : Subscription) × (w : UsageWindow) × (find_invoice config client failed 9
      ≡ some (i', s'))
    × (s'.status ≡ SubscriptionStatus.past_due)
    × (get_usage_window s' 200000000 ≡ some w)
    × (w.gte ≡ 1000)
unfolding mark_invoice_failed find_invoice is_stale update_invoice update_subscription
mark_invoice_failed_access_example =
    mark_invoice_failed_access config client db event invoice subscription refl refl 4500 failed
      1000 200000000 (omega arith) refl refl (omega arith) (inl (omega arith))

-- The same subscription before its first payment.
abbrev unpaid : Subscription
unpaid = record subscription {
  status = SubscriptionStatus.pending;
  current_period_start = none;
  current_period_end = none;
}

abbrev first_failed : Db
first_failed =
    tables (with_rows unpaid invoice)
      (mark_invoice_failed config client 4500 (with_rows unpaid invoice) event)

mark_invoice_paid_twice_example : mark_invoice_paid config client paid event ≡ ok (done, paid)
unfolding mark_invoice_paid find_invoice is_stale update_invoice update_subscription
mark_invoice_paid_twice_example = mark_invoice_paid_twice config client event db done paid refl

retries-eq-length_example :
    retries 5 (60 ∷ 1440 ∷ []) (create_initial_managed_retry_state 4500 (60 ∷ 1440 ∷ [])) ≡ 2
retries-eq-length_example =
    retries-eq-length (60 ∷ 1440 ∷ []) 5 4500 (omega arith, (omega arith, tt)) (omega arith)

abbrev external : ExternalInvoice
external = record {
  payment_provider = BillingProvider.stripe;
  external_invoice_id = "in_1";
  external_subscription_id = some "sub_1";
  external_checkout_session_id = none;
  metadata_invoice_id = none;
  allow_metadata_invoice_id = false;
  amount_cents = 900;
  currency = "EUR";
  period_start = 5000;
  period_end = 9000;
  status = InvoiceStatus.draft;
  attempt_count = none;
  next_payment_attempt_at = none;
}

-- A paid invoice, known to Stripe as in_1.
abbrev settled : Db
settled =
    with_rows subscription
      (record invoice { status = InvoiceStatus.paid; external_invoice_id = some "in_1" })

sync_draft_keeps_settled_example :
    (db' : Db) × (after : Invoice) × (sync_invoice_from_external config client 8000 10 settled
        external
      ≡ ok (9, db'))
    × (find (invoice_with_id 9) db'.invoices ≡ some after)
    × (after.status ≡ InvoiceStatus.paid)
    × (after.attempt_count ≡ 0)
    × (after.next_payment_attempt_at ≡ none)
    × (db'.subscriptions ≡ settled.subscriptions)
unfolding resolve_invoice_for_external_sync
sync_draft_keeps_settled_example =
    sync_draft_keeps_settled config client 8000 10 settled external 9 settled
      (record invoice { status = InvoiceStatus.paid; external_invoice_id = some "in_1" }) refl refl
      refl refl

abbrev stripe_db : Db
stripe_db =
    with_rows
      (record subscription {
        payment_provider = BillingProvider.stripe;
        external_subscription_id = some "sub_1";
      })
      invoice

abbrev resolved_or : Db → Result (ℕ × Db) → Db
resolved_or d (ok (_, after)) = after
resolved_or d (throw e) = d

abbrev resolved : Db
resolved =
    resolved_or db (resolve_invoice_for_external_sync config client 8000 10 stripe_db external)

resolve_invoice_for_external_sync_twice_example :
    resolve_invoice_for_external_sync config client 8500 11 resolved external ≡ ok (10, resolved)
unfolding resolve_invoice_for_external_sync find_by_metadata create_for_subscription created_invoice
resolve_invoice_for_external_sync_twice_example =
    resolve_invoice_for_external_sync_twice config client 8000 8500 10 11 stripe_db external 10
      resolved refl

-- A provider that is out of reach.
abbrev payments : PaymentProvider
payments = record {
  provider = BillingProvider.mock;
  create_payment = λ p. throw external_error;
  schedule_cancel = λ s. ok none;
}

abbrev subscriber : User
subscriber = record { id = 2; email = "a@b.c"; role = Role.buyer }

live_count-subscribe_example :
    live_count (subscribe config client payments 6000 8 10 db 5 subscriber).1 2 3 ≤ 1
live_count-subscribe_example =
    live_count-subscribe config client payments 6000 8 10 db 5 subscriber 2 3 (omega arith)

cancel_subscription_keeps_access_example :
    IsAnswered db 7 subscription subscriber
      (cancel_subscription config client payments db 7 subscriber)
cancel_subscription_keeps_access_example =
    cancel_subscription_keeps_access config client payments db 7 subscriber subscription refl refl
