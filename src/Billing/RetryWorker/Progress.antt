-- ===== src/Billing/RetryWorker/Progress.antt =====
-- An attempt moves its invoice on: it is not due again at the moment of the attempt.
use hivepoint_backend.Common.{
  ℕ, ◌≡◌, ◌⊎◌, inl, inr, subst, refl, String, true, false, Option, none, some, List, find, arith,
}
use hivepoint_backend.Errors.{ok, Result-cases}
use hivepoint_backend.Schema.{Subscription, Invoice, InvoiceStatus}
use hivepoint_backend.Billing.Store.{Db, Client, Config}
use hivepoint_backend.Billing.Retry.{create_managed_retry_state_after_attempt}
use hivepoint_backend.Billing.Retry.Schedule.{
  IsScheduled, open_until, exhausted, after_attempt-IsScheduled,
}
use hivepoint_backend.Billing.Invoices.{
  is_past_due, is_paid, is_draft, find_invoice, update_invoice, paid_invoice, failed_invoice,
  invoice_with_id,
}
use hivepoint_backend.Billing.Invoices.Tables.{IsRead, find_invoice-IsRead, update_invoice-IsRead}
use hivepoint_backend.Billing.Invoices.Handled.{
  mark_invoice_paid-IsRead, mark_invoice_failed-IsRead,
}
use hivepoint_backend.Billing.RetryWorker.{
  PaymentResult, WorkerConfig, is_void, is_due_retry, payment_event, reschedule, give_up_attempt,
  settle_attempt, process_invoice_retry,
}

-- A schedule that was set at `now` has nothing due at `now`.
scheduled-is_due_retry :
    (now : ℕ) (subscriptions : List Subscription) (i : Invoice)
    → IsScheduled now i.retry
    → is_due_retry now subscriptions i ≡ false
scheduled-is_due_retry now subscriptions i (open_until date later next live) =
    ground (arith, next, live)
scheduled-is_due_retry now subscriptions i (exhausted over at) = ground (arith, at)

settled-is_due_retry :
    (now : ℕ) (subscriptions : List Subscription) (i : Invoice)
    → is_past_due i.status ≡ false
    → is_due_retry now subscriptions i ≡ false
settled-is_due_retry now subscriptions i h = ground (arith, h)

past_due_unpaid : (s : InvoiceStatus) → is_past_due s ≡ true → is_paid s ≡ false
past_due_unpaid s h = ground (arith, h)

-- The three statuses that the provider tells.
status_told :
    (s : InvoiceStatus)
    → is_draft s ≡ false
    → (is_paid s ≡ true)
      ⊎ ((is_paid s ≡ false) × (is_void s ≡ true) × (is_past_due s ≡ false))
      ⊎ ((is_paid s ≡ false) × (is_void s ≡ false) × (is_past_due s ≡ true))
status_told InvoiceStatus.draft h = absurd (ground arith)
status_told InvoiceStatus.paid h = inl refl
status_told InvoiceStatus.past_due h = inr (inr (refl, refl, refl))
status_told InvoiceStatus.void h = inr (inl (refl, refl, refl))

-- The invoice stands in the tables, and no retry of it is due.
pub record IsRested (now : ℕ) (db : Db) (id : ℕ) : Type 0 where
  pub invoice : Invoice
  pub found : find (invoice_with_id id) db.invoices ≡ some invoice
  pub rests : is_due_retry now db.subscriptions invoice ≡ false

module _ (config : Config) (client : Client) (worker : WorkerConfig) where
  -- Writing the state after an attempt puts the invoice to rest.
  reschedule-IsRested :
      (now : ℕ) (db : Db) (id count : ℕ) (message : Option String) (i : Invoice) (s : Subscription)
      → IsRead config client db id i s
      → IsRested now (reschedule config client worker now db id count message) id
  unfolding reschedule
  reschedule-IsRested now db id count message i s read =
      let u : Invoice → Invoice = λ i. record i {
        retry =
            create_managed_retry_state_after_attempt count now
              config.billing_managed_retry_delays_minutes message;
      } in
      let after = update_invoice-IsRead config client db id i s read u (λ x. refl) refl in
      let found : find (invoice_with_id id) (update_invoice config client db id u).invoices
          ≡ some (u i) =
        subst
          (λ (k : ℕ).
            find (invoice_with_id id) (update_invoice config client db k u).invoices ≡ some (u i))
          read.invoice_id after.invoice_row in
      record {
        invoice = u i;
        found = found;
        rests =
            scheduled-is_due_retry now _ (u i)
              (after_attempt-IsScheduled config.billing_managed_retry_delays_minutes count now
                message).1;
      }

  -- An invoice whose status is no longer past due is at rest.
  left-IsRested :
      (now : ℕ) (db : Db) (id : ℕ) (i : Invoice) (s : Subscription)
      → IsRead config client db id i s
      → is_past_due i.status ≡ false
      → IsRested now db id
  left-IsRested now db id i s read gone = record {
    invoice = i;
    found = read.invoice_row;
    rests = settled-is_due_retry now db.subscriptions i gone;
  }

  -- Whatever the provider answered, the attempt leaves the invoice at rest.
  settle_attempt-IsRested :
      (now : ℕ) (db : Db) (id count : ℕ) (r : PaymentResult) (i : Invoice) (s : Subscription)
      → IsRead config client db id i s
      → is_past_due i.status ≡ true
      → is_draft r.status ≡ false
      → IsRested now (settle_attempt config client worker now db id count r).1 id
  unfolding settle_attempt paid_invoice failed_invoice
  settle_attempt-IsRested now db id count r i s read late told =
      let (paid, s1, e1, read1) =
        mark_invoice_paid-IsRead config client db (payment_event id r) i s read
          (past_due_unpaid i.status late) in
      let (failed, s2, e2, read2) =
        mark_invoice_failed-IsRead config client now db (payment_event id r) i s read
          (past_due_unpaid i.status late) in
      elim (status_told r.status told) [
        | inl settled ↦ rw (settled) (rw (e1) (left-IsRested now paid id _ s1 read1 refl))
        | inr (inl (unpaid, void, gone)) ↦
            rw (unpaid)
              (rw (e2) (rw (gone) (left-IsRested now failed id _ s2 read2 (ground (arith, void)))))
        | inr (inr (unpaid, void, due)) ↦
            rw (unpaid)
              (rw (e2) (rw (due) (reschedule-IsRested now failed id count none _ s2 read2)))
      ]

  -- Where an invoice that is past due stands in the tables with its subscription, and the provider,
  -- where it answers, does not answer with a draft, one attempt to collect it leaves the invoice
  -- there and not due for another attempt at that moment: it is paid or void, the next attempt is
  -- later, or the schedule is exhausted. This holds where the provider throws too.
  pub process_invoice_retry-IsRested :
      (now : ℕ) (db : Db) (id : ℕ) (external_invoice_id : String) (count : ℕ) (i : Invoice)
      (s : Subscription)
      → find_invoice config client db id ≡ some (i, s)
      → is_past_due i.status ≡ true
      → ((r : PaymentResult)
          → worker.retry_invoice_payment external_invoice_id ≡ ok r
          → is_draft r.status ≡ false)
      → IsRested now
          (process_invoice_retry config client worker now db id external_invoice_id count).1
          id
  unfolding process_invoice_retry give_up_attempt
  process_invoice_retry-IsRested now db id external count i s found late told =
      let read = find_invoice-IsRead config client db id i s found in
      elim (Result-cases (worker.retry_invoice_payment external)) [
        | inl (e, failed) ↦
            rw (process_invoice_retry, failed) (reschedule-IsRested now db id count _ i s read)
        | inr (r, answered) ↦
            rw (process_invoice_retry, answered)
              (settle_attempt-IsRested now db id count r i s read late (told r answered))
      ]
