-- ===== src/Billing/Reconciliation.antt =====
-- src/modules/billing/billing-reconciliation.service.ts: the worker that asks Stripe for the state of
-- each subscription, and passes it on to the synchronisation of Billing/Sync.
pub mod Removed
mod Tests
use hivepoint_backend.Common.{
  ℕ, ◌+◌, ◌*◌, String, Bool, true, false, Option, none, some, List, [], ◌∷◌, ◌&&◌, ◌||◌, not, max,
  is_some, or_other, if◌then◌else◌,
}
use hivepoint_backend.Errors.{Failure, Result, ok, throw, prisma_error}
use hivepoint_backend.Prisma.{Delegate, OrderBy, asc, p2034}
use hivepoint_backend.Schema.{
  Subscription, SubscriptionStatus, InvoiceStatus, BillingProvider, BackgroundJobLease, clash_lease,
}
use hivepoint_backend.Lease.{take_lease}
use hivepoint_backend.Billing.Store.{Db, Client, Config}
use hivepoint_backend.Billing.Invoices.{is_stripe}
use hivepoint_backend.Billing.Sync.{
  sync_invoice_from_external, mark_subscription_canceled_by_external_id,
  sync_subscription_from_external,
}
use hivepoint_backend.Billing.Webhooks.{
  Stripe, StripeInvoice, StripeSubscription, extract_stripe_subscription_period,
  map_stripe_subscription_status, should_allow_metadata_invoice_id, external_invoice,
}

-- The statuses of an invoice of Stripe that are told apart.
pub data StripeInvoiceStatus : Type 0 where
  paid void uncollectible other_status : StripeInvoiceStatus

-- What Stripe answers of a subscription: it is gone (`resource_missing`), the call fails, or it is
-- there with the invoice id of its metadata, and its latest invoice, if it has one, with its status.
-- That invoice may have to be retrieved, which may fail.
pub data Retrieved : Type 0 where
  missing : Retrieved
  failing : Failure → Retrieved
  present :
      StripeSubscription
      → Option ℕ
      → Result (Option (StripeInvoice × StripeInvoiceStatus))
      → Retrieved

-- The settings of the worker, and `subscriptions.retrieve`.
pub record WorkerConfig : Type 0 where
  pub payment_provider : BillingProvider
  pub billing_reconciliation_enabled : Bool
  pub billing_reconciliation_interval_seconds : ℕ
  pub billing_reconciliation_batch_size : ℕ
  pub retrieve : String → Retrieved

-- `find_many_subscriptions` is `subscription.findMany`; `updated_at` is the column that it orders by.
pub record WorkerClient : Type 0 where
  pub background_job_lease : Delegate clash_lease
  pub updated_at : Subscription → Option ℕ
  pub find_many_subscriptions :
      (Subscription → Bool)
      → List (OrderBy Subscription)
      → ℕ
      → List Subscription
      → List Subscription

abbrev pub lease_name : String
lease_name = "billing:stripe-reconciliation"

-- `status: {in: [PENDING, ACTIVE, PAST_DUE]}`
abbrev pub is_open : SubscriptionStatus → Bool
is_open s = elim s [ SubscriptionStatus.canceled ↦ false | _ ↦ true ]

abbrev pub is_reconciled : Subscription → Bool
is_reconciled s =
    is_stripe s.payment_provider && (is_some s.external_subscription_id && is_open s.status)

abbrev pub map_stripe_invoice_status : StripeInvoiceStatus → SubscriptionStatus → InvoiceStatus
map_stripe_invoice_status StripeInvoiceStatus.paid status = InvoiceStatus.paid
map_stripe_invoice_status StripeInvoiceStatus.void status = InvoiceStatus.void
map_stripe_invoice_status uncollectible status = InvoiceStatus.void
map_stripe_invoice_status StripeInvoiceStatus.other_status status = elim status [
  | SubscriptionStatus.past_due ↦ InvoiceStatus.past_due
  | _ ↦ InvoiceStatus.draft
]

-- `resolveMetadataInvoiceId`
unfoldable pub resolve_reconciled_invoice_id : StripeInvoice → Option ℕ → Option ℕ
resolve_reconciled_invoice_id invoice metadata_invoice_id = or_other invoice.metadata_invoice_id (
    or_other invoice.details_invoice_id
      (if should_allow_metadata_invoice_id invoice then metadata_invoice_id else none))

module _ (config : Config) (client : Client) (stripe : Stripe) (worker : WorkerConfig) where
  -- The latest invoice is passed on as the subscription's, whatever it names itself.
  unfoldable pub reconcile_invoice :
      ℕ
      → ℕ
      → Db
      → StripeSubscription
      → Option ℕ
      → StripeInvoice
      → StripeInvoiceStatus
      → Result (Unit {0}) × Db
  reconcile_invoice now new_id db subscription metadata_invoice_id invoice status =
      elim (sync_invoice_from_external config client now new_id db (
        external_invoice config client stripe
          (record invoice { subscription = some subscription.id })
          (map_stripe_invoice_status status (map_stripe_subscription_status subscription.status))
          (resolve_reconciled_invoice_id invoice metadata_invoice_id))) [
            | throw e ↦ (throw e, db)
            | ok (_, after) ↦ (ok tt, after)
          ]

  -- A subscription that Stripe has: its state is written first, and stays where the rest fails.
  unfoldable pub reconcile_present :
      ℕ
      → ℕ
      → Db
      → StripeSubscription
      → Option ℕ
      → Result (Option (StripeInvoice × StripeInvoiceStatus))
      → Result (Unit {0}) × Db
  reconcile_present now new_id db subscription metadata_invoice_id latest =
      let (start, end) = extract_stripe_subscription_period subscription.items in
      elim (sync_subscription_from_external config client now db (record {
        external_subscription_id = subscription.id;
        cancel_at_period_end = subscription.cancel_at_period_end;
        status = some (map_stripe_subscription_status subscription.status);
        current_period_start = some start;
        current_period_end = some end;
      })) [
        | throw e ↦ (throw e, db)
        | ok synced ↦ elim latest [
          | throw e ↦ (throw e, synced)
          | ok none ↦ (ok tt, synced)
          | ok (some (invoice, status)) ↦
              reconcile_invoice now new_id synced subscription metadata_invoice_id invoice status
        ]
      ]

  unfoldable pub reconcile_subscription : ℕ → ℕ → Db → String → Result (Unit {0}) × Db
  reconcile_subscription now new_id db external_id = elim (worker.retrieve external_id) [
    | failing e ↦ (throw e, db)
    | missing ↦ elim (mark_subscription_canceled_by_external_id config client db external_id) [
      | throw e ↦ (throw e, db)
      | ok after ↦ (ok tt, after)
    ]
    | present subscription metadata_invoice_id latest ↦
        reconcile_present now new_id db subscription metadata_invoice_id latest
  ]

  -- The loop: the subscriptions that were processed, those that failed, and the tables. `fresh` is
  -- the id that the database gives an invoice that is created for a subscription.
  unfoldable pub reconcile_all : (ℕ → ℕ) → ℕ → List Subscription → Db → ℕ × ℕ × Db
  reconcile_all fresh now [] db = (0, 0, db)
  reconcile_all fresh now (s ∷ rest) db = elim s.external_subscription_id [
    | none ↦ reconcile_all fresh now rest db
    | some external_id ↦
        let (answer, after) = reconcile_subscription now (fresh s.id) db external_id in
        let (processed, failed, last) = reconcile_all fresh now rest after in
        elim answer [
          | ok _ ↦ (processed + 1, failed, last)
          | throw e ↦ (processed, failed + 1, last)
        ]
  ]

  should_run : Bool
  should_run = is_stripe worker.payment_provider && worker.billing_reconciliation_enabled

  -- `fault` is the error with which the database aborts the transaction of the lease.
  unfoldable pub try_acquire_lease :
      WorkerClient
      → ℕ
      → ℕ
      → Option Failure
      → List BackgroundJobLease
      → Result (Bool × List BackgroundJobLease)
  try_acquire_lease wc now owner (some (prisma_error p2034)) leases = ok (false, leases)
  try_acquire_lease wc now owner (some e) leases = throw e
  try_acquire_lease wc now owner none leases = ok (
      take_lease wc.background_job_lease lease_name
        (max (worker.billing_reconciliation_interval_seconds * 2) 60 * 1000) now owner leases)

  unfoldable pub reconcile_stripe_state :
      WorkerClient
      → (ℕ → ℕ)
      → ℕ
      → ℕ
      → Option Failure
      → Db
      → List BackgroundJobLease
      → Result (ℕ × ℕ × Db × List BackgroundJobLease)
  unfolding should_run
  reconcile_stripe_state wc fresh now owner fault db leases =
      if not should_run
      then ok (0, 0, db, leases)
      else elim (try_acquire_lease wc now owner fault leases) [
        | throw e ↦ throw e
        | ok (false, after) ↦ ok (0, 0, db, after)
        | ok (true, after) ↦
            let due =
              wc.find_many_subscriptions is_reconciled (asc wc.updated_at ∷ [])
                worker.billing_reconciliation_batch_size db.subscriptions in
            let (processed, failed, last) = reconcile_all fresh now due db in
            ok (processed, failed, last, after)
      ]
