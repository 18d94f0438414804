-- ===== src/Billing/Invoices.antt =====
-- `markInvoicePaid`, `markInvoiceFailed` and the synchronisation with the payment provider, of
-- src/modules/billing/subscriptions.service.ts.
pub mod Tables
pub mod Access
pub mod Replay
pub mod Handled
use hivepoint_backend.Common.{
  ℕ, ◌+◌, String, Bool, true, false, Option, none, some, List, [], ◌∷◌, ◌&&◌, ◌||◌, ◌==◌, not, max,
  or_else, or_other, is_some, is_truthy, str_eq, find, if◌then◌else◌,
}
use hivepoint_backend.Errors.{
  Result, ok, throw, app_error, prisma_error, invoice_not_found, subscription_not_found, ◌>>=◌,
}
use hivepoint_backend.Prisma.{p2002}
use hivepoint_backend.Schema.{
  Subscription, SubscriptionStatus, Invoice, InvoiceStatus, InvoiceKind, BillingProvider,
  ManagedRetryState,
}
use hivepoint_backend.Billing.Store.{Db, Client, Config, Ack, done, ignored}
use hivepoint_backend.Billing.Retry.{
  clear_managed_retry_state, create_initial_managed_retry_state, has_managed_retry_state,
}
use hivepoint_backend.Billing.Grace.{resolve_grace_period_ends_at}

-- The parameters that both handlers take; `invoice_status` and `next_payment_attempt_at` are those
-- of `markInvoiceFailed`.
pub record InvoiceEvent : Type 0 where
  pub invoice_id : ℕ
  pub payment_provider : BillingProvider
  pub external_checkout_session_id : Option String
  pub external_invoice_id : Option String
  pub external_subscription_id : Option String
  pub invoice_status : Option InvoiceStatus
  pub attempt_count : Option ℕ
  pub next_payment_attempt_at : Option ℕ

abbrev pub is_paid : InvoiceStatus → Bool
is_paid s = elim s [ InvoiceStatus.paid ↦ true | _ ↦ false ]

abbrev pub is_past_due : InvoiceStatus → Bool
is_past_due s = elim s [ InvoiceStatus.past_due ↦ true | _ ↦ false ]

abbrev pub is_draft : InvoiceStatus → Bool
is_draft s = elim s [ InvoiceStatus.draft ↦ true | _ ↦ false ]

abbrev pub is_overage : InvoiceKind → Bool
is_overage k = elim k [ InvoiceKind.overage ↦ true | _ ↦ false ]

abbrev pub is_stripe : BillingProvider → Bool
is_stripe p = elim p [ BillingProvider.stripe ↦ true | _ ↦ false ]

-- `where: {id}`
abbrev pub invoice_with_id : ℕ → Invoice → Bool
invoice_with_id id i = i.id == id

abbrev pub subscription_with_id : ℕ → Subscription → Bool
subscription_with_id id s = s.id == id

-- A paid invoice ignores the events of another external invoice.
unfoldable pub is_stale : Invoice → InvoiceEvent → Bool
is_stale invoice event =
    is_paid invoice.status
    && (is_truthy invoice.external_invoice_id
        && (is_truthy event.external_invoice_id
            && not (
                str_eq (or_else invoice.external_invoice_id "")
                  (or_else event.external_invoice_id ""))))

-- The data of `invoice.update` in `markInvoicePaid`.
unfoldable pub paid_invoice : InvoiceEvent → Invoice → Invoice → Invoice
paid_invoice event invoice i = record i {
  status = InvoiceStatus.paid;
  payment_provider = event.payment_provider;
  external_checkout_session_id =
      or_other event.external_checkout_session_id invoice.external_checkout_session_id;
  external_invoice_id = or_other event.external_invoice_id invoice.external_invoice_id;
  attempt_count = or_else event.attempt_count invoice.attempt_count;
  next_payment_attempt_at = none;
  retry = if has_managed_retry_state invoice.retry then clear_managed_retry_state else i.retry;
}

-- The data of `subscription.update` in `markInvoicePaid`.
unfoldable pub paid_subscription :
    InvoiceEvent → Invoice → Subscription → Subscription → Subscription
paid_subscription event invoice subscription s = record s {
  status = SubscriptionStatus.active;
  payment_provider = event.payment_provider;
  external_subscription_id =
      or_other event.external_subscription_id subscription.external_subscription_id;
  current_period_start = some invoice.period_start;
  current_period_end = some invoice.period_end;
  grace_period_ends_at = none;
}

-- `shouldUseManagedRenewalRetry`
should_use_managed_renewal_retry :
    Config → InvoiceKind → BillingProvider → InvoiceStatus → Option ℕ → Bool
should_use_managed_renewal_retry config kind provider status current_period_start =
    config.billing_managed_retry_enabled
    && (not (is_overage kind)
        && (is_stripe provider && (is_past_due status && is_some current_period_start)))

-- `resolveManagedRetryState`: none leaves the state as it is.
unfoldable pub resolve_managed_retry_state :
    Config
    → ℕ
    → InvoiceKind
    → BillingProvider
    → InvoiceStatus
    → InvoiceStatus
    → Option ℕ
    → ManagedRetryState
    → Option ManagedRetryState
unfolding should_use_managed_renewal_retry
resolve_managed_retry_state config now kind provider status current_status current_period_start
      current =
    if not (should_use_managed_renewal_retry config kind provider status current_period_start)
    then (if has_managed_retry_state current then some clear_managed_retry_state else none)
    else if is_past_due current_status && has_managed_retry_state current
    then none
    else some (create_initial_managed_retry_state now config.billing_managed_retry_delays_minutes)

-- The data of `invoice.update` in `markInvoiceFailed`.
unfoldable pub failed_invoice :
    Config → ℕ → InvoiceEvent → Invoice → Subscription → Invoice → Invoice
failed_invoice config now event invoice subscription i =
    let status = or_else event.invoice_status InvoiceStatus.void in
    record i {
      status = status;
      payment_provider = event.payment_provider;
      external_checkout_session_id =
          or_other event.external_checkout_session_id invoice.external_checkout_session_id;
      external_invoice_id = or_other event.external_invoice_id invoice.external_invoice_id;
      attempt_count =
          or_else event.attempt_count
            (if is_past_due status then max 1 invoice.attempt_count else 0);
      next_payment_attempt_at = if is_past_due status then event.next_payment_attempt_at else none;
      retry =
          or_else
            (resolve_managed_retry_state config now invoice.kind event.payment_provider status
              invoice.status subscription.current_period_start invoice.retry)
            i.retry;
    }

-- The data of `subscription.update` in `markInvoiceFailed`.
unfoldable pub failed_subscription :
    Config → ℕ → InvoiceEvent → Subscription → Subscription → Subscription
failed_subscription config now event subscription s = record s {
  status = SubscriptionStatus.past_due;
  payment_provider = event.payment_provider;
  external_subscription_id =
      or_other event.external_subscription_id subscription.external_subscription_id;
  grace_period_ends_at =
      resolve_grace_period_ends_at now config.billing_grace_period_days SubscriptionStatus.past_due
        subscription.current_period_start subscription.current_period_end
        subscription.grace_period_ends_at;
}

module _ (config : Config) (client : Client) where
  -- The invoice with the subscription that it references; a foreign key, so it is there.
  unfoldable pub find_invoice : Db → ℕ → Option (Invoice × Subscription)
  find_invoice db id = elim (client.invoice.find_unique (invoice_with_id id) db.invoices) [
    | none ↦ none
    | some invoice ↦ elim (find (subscription_with_id invoice.subscription_id) db.subscriptions) [
      | none ↦ none
      | some subscription ↦ some (invoice, subscription)
    ]
  ]

  unfoldable pub update_invoice : Db → ℕ → (Invoice → Invoice) → Db
  update_invoice db id u = record db {
    invoices = client.invoice.update (invoice_with_id id) u db.invoices;
  }

  unfoldable pub update_subscription : Db → ℕ → (Subscription → Subscription) → Db
  update_subscription db id u = record db {
    subscriptions = client.subscription.update (subscription_with_id id) u db.subscriptions;
  }

  unfoldable pub mark_invoice_paid : Db → InvoiceEvent → Result (Ack × Db)
  mark_invoice_paid db event = elim (find_invoice db event.invoice_id) [
    | none ↦ throw (app_error invoice_not_found 404)
    | some (invoice, subscription) ↦
        if is_stale invoice event
        then ok (ignored, db)
        else (let db' = update_invoice db invoice.id (paid_invoice event invoice) in
            if is_overage invoice.kind
            then ok (done, db')
            else ok (
              done,
              update_subscription db' subscription.id
                  (paid_subscription event invoice subscription),
            ))
  ]

  unfoldable pub mark_invoice_failed : ℕ → Db → InvoiceEvent → Result (Ack × Db)
  mark_invoice_failed now db event = elim (find_invoice db event.invoice_id) [
    | none ↦ throw (app_error invoice_not_found 404)
    | some (invoice, subscription) ↦
        if is_stale invoice event
        then ok (ignored, db)
        else (let db' =
              update_invoice db invoice.id (failed_invoice config now event invoice subscription) in
            if is_overage invoice.kind
            then ok (done, db')
            else ok (
              done,
              update_subscription db' subscription.id
                  (failed_subscription config now event subscription),
            ))
  ]
