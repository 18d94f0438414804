-- ===== src/Billing/Invoices/Replay.antt =====
-- A webhook may deliver an event twice: the second delivery of a payment changes nothing.
use hivepoint_backend.Common.{
  ◌≡◌, refl, false, some, or_else, arith, Option-cases, Bool-cases, inl, inr, update_first_same,
  if◌then◌else◌, ◌⊎◌,
}
use text.Mathlib.TextPositions.{eq_refl}
use hivepoint_backend.Errors.{ok}
use hivepoint_backend.Schema.{Subscription, Invoice, InvoiceKind, ManagedRetryState}
use hivepoint_backend.Billing.Retry.{has_managed_retry_state, clear_managed_retry_state}
use hivepoint_backend.Billing.Store.{Db, Client, Config, Ack, done}
use hivepoint_backend.Billing.Invoices.{
  InvoiceEvent, find_invoice, mark_invoice_paid, paid_invoice, paid_subscription, update_invoice,
  update_subscription, is_stale, is_overage, invoice_with_id, subscription_with_id,
}
use hivepoint_backend.Billing.Invoices.Tables.{
  IsRead, find_invoice-IsRead, IsRead-find_invoice, update_invoice-IsRead,
  update_subscription-IsRead,
}

cleared_again :
    (r : ManagedRetryState)
    → let c = if has_managed_retry_state r then clear_managed_retry_state else r in
      (if has_managed_retry_state c then clear_managed_retry_state else c) ≡ c
cleared_again r = elim (Bool-cases (has_managed_retry_state r)) [
  | inl scheduled ↦ rw (scheduled, cleared) refl
  | inr bare ↦ rw (bare, bare) refl
]
  where
    cleared : has_managed_retry_state clear_managed_retry_state ≡ false
    cleared = unfold has_managed_retry_state clear_managed_retry_state in refl

module _ (event : InvoiceEvent) (i : Invoice) (s : Subscription) where
  paid_invoice_again :
      paid_invoice event (paid_invoice event i i) (paid_invoice event i i) ≡ paid_invoice event i i
  unfolding paid_invoice
  paid_invoice_again = ground (arith, cleared_again i.retry)

  paid_subscription_again :
      paid_subscription event
        (paid_invoice event i i)
        (paid_subscription event i s s)
        (paid_subscription event i s s)
      ≡ paid_subscription event i s s
  unfolding paid_invoice paid_subscription
  paid_subscription_again = ground arith

  -- The event that paid an invoice is never stale for it.
  not_stale_again : is_stale (paid_invoice event i i) event ≡ false
  unfolding is_stale paid_invoice
  not_stale_again = ground (arith, eq_refl (or_else event.external_invoice_id ""))

module _ (config : Config) (client : Client) (event : InvoiceEvent) where
  -- At rows that the event would leave as they are, the handler changes nothing.
  settled :
      (db : Db) (i : Invoice) (s : Subscription)
      → IsRead config client db event.invoice_id i s
      → is_stale i event ≡ false
      → paid_invoice event i i ≡ i
      → ((i.kind ≡ InvoiceKind.overage) ⊎ (paid_subscription event i s s ≡ s))
      → mark_invoice_paid config client db event ≡ ok (done, db)
  unfolding mark_invoice_paid update_invoice update_subscription
  settled db i s read fresh same_invoice same_subscription = ground (
    arith,
    IsRead-find_invoice config client db event.invoice_id i s read,
    client.invoice.update_lem (invoice_with_id i.id) (paid_invoice event i) db.invoices,
    client.subscription.update_lem (subscription_with_id s.id) (paid_subscription event i s)
        db.subscriptions,
    update_first_same (invoice_with_id event.invoice_id) (paid_invoice event i) db.invoices i
        read.invoice_row same_invoice,
    update_first_same (subscription_with_id i.subscription_id) (paid_subscription event i s)
        db.subscriptions s read.subscription_row,
    read.invoice_id,
    read.subscription_id,
  )

  -- The rows after the first delivery, and the second one.
  twice :
      (db : Db) (i : Invoice) (s : Subscription) (db' : Db)
      → find_invoice config client db event.invoice_id ≡ some (i, s)
      → is_stale i event ≡ false
      → mark_invoice_paid config client db event ≡ ok (done, db')
      → mark_invoice_paid config client db' event ≡ ok (done, db')
  unfolding mark_invoice_paid
  twice db i s db' found fresh e =
      let read = find_invoice-IsRead config client db event.invoice_id i s found in
      let first =
        update_invoice-IsRead config client db event.invoice_id i s read (paid_invoice event i)
          (λ x. unfold paid_invoice in refl) (unfold paid_invoice in refl) in
      let i' = paid_invoice event i i in
      elim (Bool-cases (is_overage i.kind)) [
        | inl other ↦
            let result : db' ≡ update_invoice config client db i.id (paid_invoice event i) =
              ground (arith, found) in
            rw result (
              settled _ i' s first (not_stale_again event i s) (paid_invoice_again event i s)
                (inl (unfold paid_invoice in ground arith)))
        | inr own ↦
            let second =
              update_subscription-IsRead config client _ event.invoice_id _ s first
                (paid_subscription event i s) (λ x. unfold paid_subscription in refl) in
            let result : db'
                ≡ update_subscription config client
                    (update_invoice config client db i.id (paid_invoice event i)) s.id
                    (paid_subscription event i s) =
              ground (arith, found) in
            rw result (
              settled _ i' (paid_subscription event i s s) second (not_stale_again event i s)
                (paid_invoice_again event i s) (inr (paid_subscription_again event i s)))
      ]

  -- Whatever the first delivery of a payment answered, the same event delivered again answers the
  -- same and leaves the tables as the first delivery left them.
  pub mark_invoice_paid_twice :
      (db : Db) (a : Ack) (db' : Db)
      → mark_invoice_paid config client db event ≡ ok (a, db')
      → mark_invoice_paid config client db' event ≡ ok (a, db')
  unfolding mark_invoice_paid
  mark_invoice_paid_twice db a db' e =
      elim (Option-cases (find_invoice config client db event.invoice_id)) [
        | inl missing ↦ absurd (ground (arith, missing))
        | inr ((i, s), found) ↦ elim (Bool-cases (is_stale i event)) [
          | inl stale ↦ ground (arith, found, stale)
          | inr fresh ↦
              let accepted : a ≡ done = ground (arith, found, fresh) in
              rw accepted (twice db i s db' found fresh (rw accepted at e))
        ]
      ]
