-- ===== src/Billing/Webhooks/Accepted.antt =====
-- What a webhook that is accepted has done.
use hivepoint_backend.Common.{
  ℕ, ◌≡◌, ◌≤◌, ◌<◌, ◌↔◌, inl, inr, ◌∙◌, true, false, Option, some, find, find-some, arith,
  Option-cases,
}
use hivepoint_backend.Errors.{ok}
use hivepoint_backend.Schema.{Invoice, InvoiceStatus, InvoiceKind, Subscription, SubscriptionStatus}
use hivepoint_backend.Usage.Windows.{UsageWindow, get_usage_window}
use hivepoint_backend.Billing.Store.{Db, Client, Config, done}
use hivepoint_backend.Billing.Invoices.{
  find_invoice, mark_invoice_paid, is_stale, invoice_with_id, update_invoice, update_subscription,
  paid_invoice, paid_subscription,
}
use hivepoint_backend.Billing.Invoices.Tables.{find_invoice-IsRead}
use hivepoint_backend.Billing.Invoices.Access.{mark_invoice_paid_access}
use hivepoint_backend.Billing.Sync.{
  ExternalInvoice, invoice_with_external_id, text_is, external_event,
  resolve_invoice_for_external_sync, apply_external, sync_invoice_from_external,
}
use hivepoint_backend.Billing.Webhooks.{
  Stripe, invoice_paid, StripeInvoice, resolve_metadata_invoice_id, sync_invoice, handle_event,
  external_invoice,
}

-- An invoice that is known by the external id of the event is not stale for it.
known_fresh :
    (config : Config) (client : Client) (i : Invoice) (p : ExternalInvoice) (id : ℕ)
    → text_is i.external_invoice_id p.external_invoice_id ≡ true
    → is_stale i (external_event config client p id) ≡ false
unfolding is_stale
known_fresh config client i p id h = elim (Option-cases i.external_invoice_id) [
  | inl unknown ↦ absurd (ground (arith, h, unknown))
  | inr (external_id, named) ↦ ground (arith, h, named)
]

module _ (config : Config) (client : Client) (stripe : Stripe) where
  -- A payment that Stripe reports of an invoice that is known by its external id, a subscription's,
  -- is accepted: the invoice is PAID and its subscription ACTIVE, with access exactly in the period of
  -- the invoice. The metadata, which are read first, must be there to read.
  pub handle_invoice_paid_access :
      (now new_id : ℕ) (db : Db) (invoice : StripeInvoice) (metadata : Option ℕ) (i : Invoice)
      (s : Subscription)
      → resolve_metadata_invoice_id config client stripe invoice ≡ ok metadata
      → find (invoice_with_external_id invoice.id) db.invoices ≡ some i
      → find_invoice config client db i.id ≡ some (i, s)
      → i.kind ≡ InvoiceKind.subscription
      → (db' : Db) × (i' : Invoice) × (s' : Subscription) × (handle_event config client stripe now
            new_id db
            (invoice_paid invoice)
          ≡ (ok tt, db'))
        × (find_invoice config client db' i.id ≡ some (i', s'))
        × (i'.status ≡ InvoiceStatus.paid)
        × (s'.status ≡ SubscriptionStatus.active)
        × ((t : ℕ) (w : UsageWindow)
            → (get_usage_window s' t ≡ some w) ↔ (
                (w.gte ≡ i.period_start)
                × (w.lt ≡ i.period_end)
                × (i.period_start ≤ t)
                × (t < i.period_end)))
  unfolding handle_event sync_invoice mark_invoice_paid sync_invoice_from_external
      resolve_invoice_for_external_sync apply_external
  handle_invoice_paid_access now new_id db invoice metadata i s told known found kind =
      let p = external_invoice config client stripe invoice InvoiceStatus.paid metadata in
      let event = external_event config client p i.id in
      let read = find_invoice-IsRead config client db i.id i s found in
      let paid =
        update_subscription config client
          (update_invoice config client db i.id (paid_invoice event i)) s.id
          (paid_subscription event i s) in
      let runs : mark_invoice_paid config client db event ≡ ok (done, paid) = ground (
        arith,
        found,
        kind,
        known_fresh config client i p i.id
            (find-some (invoice_with_external_id invoice.id) db.invoices i known),
      ) in
      let by_id =
        client.invoice.find_unique_lem (invoice_with_id i.id) db.invoices ∙ read.invoice_row in
      let by_external_id =
        client.invoice.find_unique_lem (invoice_with_external_id invoice.id) db.invoices ∙ known in
      let resolved : resolve_invoice_for_external_sync config client now new_id db p
          ≡ ok (i.id, db) =
        ground (arith, by_external_id) in
      let synced : sync_invoice_from_external config client now new_id db p ≡ ok (i.id, paid) =
        ground (arith, resolved, by_id, runs) in
      let (i', s', there, settled, live, window) =
        mark_invoice_paid_access config client db event i s found kind paid runs in
      (paid, i', s', ground (arith, told, synced), there, settled, live, window)
