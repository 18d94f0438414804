-- ===== src/Billing/RetryWorker.antt =====
-- src/modules/billing/billing-managed-retry.service.ts: the worker that retries renewals of Stripe
-- whose payment failed, by the schedule of Billing/Retry.
pub mod Progress
mod Tests
use hivepoint_backend.Common.{
  ℕ, ◌+◌, ◌*◌, String, Bool, true, false, Option, none, some, List, [], ◌∷◌, ◌&&◌, ◌||◌, ◌==◌, not,
  leb, max, find, is_some, or_else, if◌then◌else◌,
}
use hivepoint_backend.Errors.{Failure, Result, ok, throw, prisma_error}
use hivepoint_backend.Prisma.{Delegate, OrderBy, asc, p2034}
use hivepoint_backend.Schema.{
  Subscription, SubscriptionStatus, Invoice, InvoiceStatus, BillingProvider, BackgroundJobLease,
  clash_lease,
}
use hivepoint_backend.Lease.{take_lease}
use hivepoint_backend.Usage.Store.{is_past_due as is_past_due_subscription}
use hivepoint_backend.Billing.Store.{Db, Client, Config, Ack}
use hivepoint_backend.Billing.Retry.{create_managed_retry_state_after_attempt}
use hivepoint_backend.Billing.Invoices.{
  InvoiceEvent, is_stripe, is_paid, is_past_due, subscription_with_id, update_invoice,
  mark_invoice_paid, mark_invoice_failed,
}

-- `RetryInvoicePaymentResult` of src/modules/billing/payment/payment.provider.ts, less the amount,
-- the currency and the period, which no caller reads.
pub record PaymentResult : Type 0 where
  pub external_invoice_id : String
  pub external_subscription_id : Option String
  pub status : InvoiceStatus
  pub attempt_count : Option ℕ
  pub next_payment_attempt_at : Option ℕ

-- The settings of the worker; `retry_invoice_payment` is the Stripe provider's, which may fail, and
-- `describe_error` is the message that is kept of an error.
pub record WorkerConfig : Type 0 where
  pub payment_provider : BillingProvider
  pub billing_managed_retry_interval_seconds : ℕ
  pub billing_managed_retry_batch_size : ℕ
  pub retry_invoice_payment : String → Result PaymentResult
  pub describe_error : Failure → String

-- `find_many_invoices` is `invoice.findMany`; its test reads the subscriptions too.
pub record WorkerClient : Type 0 where
  pub background_job_lease : Delegate clash_lease
  pub find_many_invoices :
      (Invoice → Bool) → List (OrderBy Invoice) → ℕ → List Invoice → List Invoice

abbrev pub lease_name : String
lease_name = "billing:managed-retry"

abbrev pub is_void : InvoiceStatus → Bool
is_void s = elim s [ InvoiceStatus.void ↦ true | _ ↦ false ]

-- `subscription: {status: PAST_DUE, currentPeriodStart: {not: null}}`
abbrev pub is_renewing : Option Subscription → Bool
is_renewing none = false
is_renewing (some s) = is_past_due_subscription s.status && is_some s.current_period_start

-- `OR: [{managedNextRetryAt: {lte: now}}, {managedNextRetryAt: null, managedRetryCount: 0}]`
abbrev pub is_due_at : ℕ → Option ℕ → ℕ → Bool
is_due_at now none count = count == 0
is_due_at now (some date) count = leb date now

-- The `where` of the selection.
abbrev pub is_due_retry : ℕ → List Subscription → Invoice → Bool
is_due_retry now subscriptions i =
    is_stripe i.payment_provider
    && (is_past_due i.status
        && (is_some i.external_invoice_id
            && (not (is_some i.retry.managed_retry_exhausted_at)
                && (is_due_at now i.retry.managed_next_retry_at i.retry.managed_retry_count
                    && is_renewing (find (subscription_with_id i.subscription_id) subscriptions)))))

-- What the provider answered, as the event that both handlers take.
abbrev pub payment_event : ℕ → PaymentResult → InvoiceEvent
payment_event id r = record {
  invoice_id = id;
  payment_provider = BillingProvider.stripe;
  external_checkout_session_id = none;
  external_invoice_id = some r.external_invoice_id;
  external_subscription_id = r.external_subscription_id;
  invoice_status = some (if is_void r.status then InvoiceStatus.void else InvoiceStatus.past_due);
  attempt_count = r.attempt_count;
  next_payment_attempt_at = r.next_payment_attempt_at;
}

module _ (config : Config) (client : Client) (worker : WorkerConfig) where
  -- `invoice.update` with the state after an attempt.
  unfoldable pub reschedule : ℕ → Db → ℕ → ℕ → Option String → Db
  reschedule attempted_at db id count message = update_invoice config client db id (λ i. record i {
    retry =
        create_managed_retry_state_after_attempt count attempted_at
          config.billing_managed_retry_delays_minutes message;
  })

  -- The `catch`.
  unfoldable pub give_up_attempt : ℕ → Db → ℕ → ℕ → Failure → Result (Unit {0}) × Db
  give_up_attempt attempted_at db id count e =
      (throw e, reschedule attempted_at db id count (some (worker.describe_error e)))

  -- What follows an answer of the provider.
  unfoldable pub settle_attempt : ℕ → Db → ℕ → ℕ → PaymentResult → Result (Unit {0}) × Db
  settle_attempt attempted_at db id count r =
      if is_paid r.status
      then elim (mark_invoice_paid config client db (payment_event id r)) [
        | throw e ↦ give_up_attempt attempted_at db id count e
        | ok (_, after) ↦ (ok tt, after)
      ]
      else elim (mark_invoice_failed config client attempted_at db (payment_event id r)) [
        | throw e ↦ give_up_attempt attempted_at db id count e
        | ok (_, after) ↦ (
          ok tt,
          if is_past_due r.status then reschedule attempted_at after id count none else after,
        )
      ]

  unfoldable pub process_invoice_retry : ℕ → Db → ℕ → String → ℕ → Result (Unit {0}) × Db
  process_invoice_retry attempted_at db id external_invoice_id count =
      elim (worker.retry_invoice_payment external_invoice_id) [
        | throw e ↦ give_up_attempt attempted_at db id count e
        | ok r ↦ settle_attempt attempted_at db id count r
      ]

  -- The loop: the invoices that were processed, the ones that failed, and the tables. The selection
  -- leaves no invoice without an external id.
  unfoldable pub process_retries : ℕ → Db → List Invoice → ℕ × ℕ × Db
  process_retries now db [] = (0, 0, db)
  process_retries now db (i ∷ rest) = elim i.external_invoice_id [
    | none ↦ process_retries now db rest
    | some external ↦
        let (answer, after) =
          process_invoice_retry now db i.id external i.retry.managed_retry_count in
        let (processed, failed, last) = process_retries now after rest in
        elim answer [
          | ok _ ↦ (processed + 1, failed, last)
          | throw e ↦ (processed, failed + 1, last)
        ]
  ]

  should_run : Bool
  should_run = is_stripe worker.payment_provider && config.billing_managed_retry_enabled

  -- `fault` is the error with which the database aborts the transaction of the lease; P2034 is taken
  -- for a lease that was not given.
  unfoldable pub try_acquire_lease :
      WorkerClient
      → ℕ
      → ℕ
      → Option Failure
      → List BackgroundJobLease
      → Result (Bool × List BackgroundJobLease)
  try_acquire_lease wc now owner (some (prisma_error p2034)) leases = ok (false, leases)
  try_acquire_lease wc now owner (some e) leases = throw e
  try_acquire_lease wc now owner none leases = ok (
      take_lease wc.background_job_lease lease_name
        (max (worker.billing_managed_retry_interval_seconds * 2) 60 * 1000) now owner leases)

  unfoldable pub process_due_retries :
      WorkerClient
      → ℕ
      → ℕ
      → Option Failure
      → Db
      → List BackgroundJobLease
      → Result (ℕ × ℕ × Db × List BackgroundJobLease)
  unfolding should_run
  process_due_retries wc now owner fault db leases =
      if not should_run
      then ok (0, 0, db, leases)
      else elim (try_acquire_lease wc now owner fault leases) [
        | throw e ↦ throw e
        | ok (false, after) ↦ ok (0, 0, db, after)
        | ok (true, after) ↦
            let due =
              wc.find_many_invoices (is_due_retry now db.subscriptions)
                (asc (λ i. i.retry.managed_next_retry_at) ∷ asc (λ i. some i.created_at) ∷ [])
                worker.billing_managed_retry_batch_size db.invoices in
            let (processed, failed, last) = process_retries now db due in
            ok (processed, failed, last, after)
      ]
