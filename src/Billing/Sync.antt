-- ===== src/Billing/Sync.antt =====
-- What the payment provider reports, of src/modules/billing/subscriptions.service.ts: invoices,
-- checkouts and the state of subscriptions.
pub mod Settled
use hivepoint_backend.Common.{
  ℕ, String, Bool, true, false, Option, none, some, List, ◌&&◌, ◌||◌, not, str_eq, or_else,
  or_other, is_some, is_truthy, if◌then◌else◌,
}
use hivepoint_backend.Errors.{
  Result, ok, throw, app_error, prisma_error, invoice_not_found, subscription_not_found, ◌>>=◌,
}
use hivepoint_backend.Prisma.{p2002}
use hivepoint_backend.Schema.{
  Subscription, SubscriptionStatus, Invoice, InvoiceStatus, InvoiceKind, BillingProvider,
}
use hivepoint_backend.Billing.Store.{Db, Client, Config, Ack}
use hivepoint_backend.Billing.Retry.{clear_managed_retry_state}
use hivepoint_backend.Billing.Grace.{resolve_grace_period_ends_at}
use hivepoint_backend.Billing.Invoices.{
  InvoiceEvent, invoice_with_id, subscription_with_id, is_draft, is_paid, update_invoice,
  update_subscription, find_invoice, mark_invoice_paid, mark_invoice_failed,
}

-- The parameters of `syncInvoiceFromExternal`; metadata names an invoice by its id.
pub record ExternalInvoice : Type 0 where
  pub payment_provider : BillingProvider
  pub external_invoice_id : String
  pub external_subscription_id : Option String
  pub external_checkout_session_id : Option String
  pub metadata_invoice_id : Option ℕ
  pub allow_metadata_invoice_id : Bool
  pub amount_cents : ℕ
  pub currency : String
  pub period_start : ℕ
  pub period_end : ℕ
  pub status : InvoiceStatus
  pub attempt_count : Option ℕ
  pub next_payment_attempt_at : Option ℕ

-- `where` on a nullable unique text column
abbrev pub text_is : Option String → String → Bool
text_is none t = false
text_is (some s) t = str_eq s t

abbrev pub invoice_with_external_id : String → Invoice → Bool
invoice_with_external_id external_id i = text_is i.external_invoice_id external_id

abbrev pub subscription_with_external_id : String → Subscription → Bool
subscription_with_external_id external_id s = text_is s.external_subscription_id external_id

module _ (config : Config) (client : Client) where
  -- The invoice that `metadataInvoiceId` names, if it may stand for this external invoice.
  unfoldable pub find_by_metadata : Db → ExternalInvoice → Option Invoice
  find_by_metadata db p =
      if p.allow_metadata_invoice_id && is_some p.metadata_invoice_id
      then elim (client.invoice.find_unique (invoice_with_id (or_else p.metadata_invoice_id 0))
          db.invoices) [
            | none ↦ none
            | some invoice ↦
                if not (is_truthy invoice.external_invoice_id)
                  || text_is invoice.external_invoice_id p.external_invoice_id
                then some invoice
                else none
          ]
      else none

  -- The row that is created for an external invoice that is not known yet; the schema's defaults
  -- stand for the fields that the code leaves out.
  unfoldable pub created_invoice : ℕ → ℕ → ExternalInvoice → Subscription → Invoice
  created_invoice now id p subscription = record {
    id = id;
    subscription_id = subscription.id;
    payment_provider = p.payment_provider;
    kind = InvoiceKind.subscription;
    external_checkout_session_id = p.external_checkout_session_id;
    external_invoice_id = some p.external_invoice_id;
    overage_source_invoice_id = none;
    overage_processed_at = none;
    overage_requests = none;
    overage_units = none;
    amount_cents = p.amount_cents;
    currency = p.currency;
    status = InvoiceStatus.draft;
    attempt_count = 0;
    next_payment_attempt_at = none;
    retry = clear_managed_retry_state;
    period_start = p.period_start;
    period_end = p.period_end;
    created_at = now;
  }

  unfoldable pub create_for_subscription : ℕ → ℕ → Db → ExternalInvoice → Result (ℕ × Db)
  create_for_subscription now new_id db p =
      if not (is_truthy p.external_subscription_id)
      then throw (app_error subscription_not_found 404)
      else elim (client.subscription.find_unique
          (subscription_with_external_id (or_else p.external_subscription_id ""))
          db.subscriptions) [
            | none ↦ throw (app_error subscription_not_found 404)
            | some subscription ↦
                elim (client.invoice.create (created_invoice now new_id p subscription)
                  db.invoices) [
                    | none ↦ throw (prisma_error p2002)
                    | some invoices ↦ ok (new_id, record db { invoices = invoices })
                  ]
          ]

  -- `resolveInvoiceForExternalSync`. `new_id` is the UUID that the database draws.
  unfoldable pub resolve_invoice_for_external_sync : ℕ → ℕ → Db → ExternalInvoice → Result (ℕ × Db)
  resolve_invoice_for_external_sync now new_id db p =
      elim (client.invoice.find_unique (invoice_with_external_id p.external_invoice_id)
        db.invoices) [
          | some invoice ↦ ok (invoice.id, db)
          | none ↦ elim (find_by_metadata db p) [
            | some invoice ↦ ok (invoice.id, db)
            | none ↦ create_for_subscription now new_id db p
          ]
        ]

  -- The data of the update for a DRAFT: what is settled keeps its status and attempts.
  unfoldable pub draft_invoice : ExternalInvoice → Invoice → Invoice → Invoice
  draft_invoice p current i =
      let preserve = not (is_draft current.status) in
      record i {
        payment_provider = p.payment_provider;
        external_checkout_session_id =
            or_other p.external_checkout_session_id i.external_checkout_session_id;
        external_invoice_id = some p.external_invoice_id;
        amount_cents = p.amount_cents;
        currency = p.currency;
        status = if preserve then current.status else InvoiceStatus.draft;
        attempt_count = if preserve then current.attempt_count else or_else p.attempt_count 0;
        next_payment_attempt_at =
            if preserve then current.next_payment_attempt_at else p.next_payment_attempt_at;
        period_start = p.period_start;
        period_end = p.period_end;
      }

  -- The event that is passed on to `markInvoicePaid` and `markInvoiceFailed`.
  abbrev pub external_event : ExternalInvoice → ℕ → InvoiceEvent
  external_event p id = record {
    invoice_id = id;
    payment_provider = p.payment_provider;
    external_checkout_session_id = p.external_checkout_session_id;
    external_invoice_id = some p.external_invoice_id;
    external_subscription_id = p.external_subscription_id;
    invoice_status = some p.status;
    attempt_count = p.attempt_count;
    next_payment_attempt_at = p.next_payment_attempt_at;
  }

  unfoldable pub apply_external : ℕ → Db → ExternalInvoice → ℕ → Invoice → Result (ℕ × Db)
  apply_external now db p id current =
      if is_draft p.status
      then ok (id, update_invoice config client db id (draft_invoice p current))
      else if is_paid p.status
      then (do
        (_, after) ← mark_invoice_paid config client db (external_event p id)
        ok (id, after))
      else do
        (_, after) ← mark_invoice_failed config client now db (external_event p id)
        ok (id, after)

  unfoldable pub sync_invoice_from_external : ℕ → ℕ → Db → ExternalInvoice → Result (ℕ × Db)
  unfolding apply_external
  sync_invoice_from_external now new_id db p = do
    (id, resolved) ← resolve_invoice_for_external_sync now new_id db p
    elim (client.invoice.find_unique (invoice_with_id id) resolved.invoices) [
      | none ↦ throw (app_error invoice_not_found 404)
      | some current ↦ apply_external now resolved p id current
    ]

  -- `markSubscriptionCanceledByExternalId`
  abbrev pub canceled : Subscription → Subscription
  canceled s = record s {
    status = SubscriptionStatus.canceled;
    grace_period_ends_at = none;
    cancel_at_period_end = false;
  }

  unfoldable pub mark_subscription_canceled_by_external_id : Db → String → Result Db
  mark_subscription_canceled_by_external_id db external_id =
      elim (client.subscription.find_unique (subscription_with_external_id external_id)
        db.subscriptions) [
          | none ↦ throw (app_error subscription_not_found 404)
          | some subscription ↦ ok (update_subscription config client db subscription.id canceled)
        ]

-- The parameters of `syncSubscriptionFromExternal`: an outer none is undefined, an inner one null.
pub record ExternalSubscription : Type 0 where
  pub external_subscription_id : String
  pub cancel_at_period_end : Bool
  pub status : Option SubscriptionStatus
  pub current_period_start : Option (Option ℕ)
  pub current_period_end : Option (Option ℕ)

module _ (config : Config) (client : Client) where
  -- The grace period is written where a status is given, from the periods that will stand.
  synced_grace : ℕ → ExternalSubscription → Subscription → Option SubscriptionStatus → Option ℕ
  synced_grace now p current none = current.grace_period_ends_at
  synced_grace now p current (some status) =
      resolve_grace_period_ends_at now config.billing_grace_period_days status
        (or_else p.current_period_start current.current_period_start)
        (or_else p.current_period_end current.current_period_end) current.grace_period_ends_at

  pub synced_subscription : ℕ → ExternalSubscription → Subscription → Subscription → Subscription
  unfolding synced_grace
  synced_subscription now p current s = record s {
    cancel_at_period_end = p.cancel_at_period_end;
    status = or_else p.status s.status;
    grace_period_ends_at = synced_grace now p current p.status;
    current_period_start = or_else p.current_period_start s.current_period_start;
    current_period_end = or_else p.current_period_end s.current_period_end;
  }

  unfoldable pub sync_subscription_from_external : ℕ → Db → ExternalSubscription → Result Db
  sync_subscription_from_external now db p =
      elim (client.subscription.find_unique
        (subscription_with_external_id p.external_subscription_id) db.subscriptions) [
          | none ↦ throw (app_error subscription_not_found 404)
          | some subscription ↦ ok (
              update_subscription config client db subscription.id
                (synced_subscription now p subscription))
        ]

  -- `recordExternalCheckout`
  unfoldable pub record_external_checkout :
      Db → ℕ → BillingProvider → Option String → Option String → Result Db
  record_external_checkout db invoice_id provider checkout_session_id external_subscription_id =
      elim (find_invoice config client db invoice_id) [
        | none ↦ throw (app_error invoice_not_found 404)
        | some (invoice, subscription) ↦
            let db' = update_invoice config client db invoice.id (λ i. record i {
              payment_provider = provider;
              external_checkout_session_id =
                  or_other checkout_session_id invoice.external_checkout_session_id;
            }) in
            if is_truthy external_subscription_id
            then ok (
                update_subscription config client db' subscription.id (λ s. record s {
                  payment_provider = provider;
                  external_subscription_id =
                      or_other external_subscription_id subscription.external_subscription_id;
                }))
            else ok db'
      ]
