-- ===== src/Billing/Invoices/Handled.antt =====
-- What the two handlers leave in the tables, of an invoice that is not paid yet.
use hivepoint_backend.Common.{ℕ, ◌≡◌, inl, inr, refl, false, arith, Bool-cases}
use hivepoint_backend.Errors.{ok}
use hivepoint_backend.Schema.{Subscription, Invoice}
use hivepoint_backend.Billing.Store.{Db, Client, Config, done}
use hivepoint_backend.Billing.Invoices.{
  InvoiceEvent, is_paid, is_overage, is_stale, update_invoice, update_subscription,
  mark_invoice_paid, mark_invoice_failed, paid_invoice, paid_subscription, failed_invoice,
  failed_subscription,
}
use hivepoint_backend.Billing.Invoices.Tables.{
  IsRead, IsRead-find_invoice, update_invoice-IsRead, update_subscription-IsRead,
}

module _ (config : Config) (client : Client) where
  -- What the handlers leave of an invoice that they do not ignore.
  pub mark_invoice_paid-IsRead :
      (db : Db) (event : InvoiceEvent) (i : Invoice) (s : Subscription)
      → IsRead config client db event.invoice_id i s
      → is_paid i.status ≡ false
      → (db' : Db) × (s' : Subscription) × (mark_invoice_paid config client db event
          ≡ ok (done, db'))
        × IsRead config client db' event.invoice_id (paid_invoice event i i) s'
  unfolding mark_invoice_paid paid_invoice paid_subscription is_stale
  mark_invoice_paid-IsRead db event i s read late =
      let found = IsRead-find_invoice config client db event.invoice_id i s read in
      let after =
        update_invoice-IsRead config client db event.invoice_id i s read (paid_invoice event i)
          (λ x. refl) refl in
      elim (Bool-cases (is_overage i.kind)) [
        | inl over ↦ (
          update_invoice config client db i.id (paid_invoice event i),
          s,
          ground (arith, found, late, over),
          after,
        )
        | inr own ↦ (
          update_subscription config client
              (update_invoice config client db i.id (paid_invoice event i)) s.id
              (paid_subscription event i s),
          paid_subscription event i s s,
          ground (arith, found, late, own),
          update_subscription-IsRead config client _ event.invoice_id _ s after
              (paid_subscription event i s) (λ x. refl),
        )
      ]

  pub mark_invoice_failed-IsRead :
      (now : ℕ) (db : Db) (event : InvoiceEvent) (i : Invoice) (s : Subscription)
      → IsRead config client db event.invoice_id i s
      → is_paid i.status ≡ false
      → (db' : Db) × (s' : Subscription) × (mark_invoice_failed config client now db event
          ≡ ok (done, db'))
        × IsRead config client db' event.invoice_id (failed_invoice config now event i s i) s'
  unfolding mark_invoice_failed failed_invoice failed_subscription is_stale
  mark_invoice_failed-IsRead now db event i s read late =
      let found = IsRead-find_invoice config client db event.invoice_id i s read in
      let u = failed_invoice config now event i s in
      let v = failed_subscription config now event s in
      let after =
        update_invoice-IsRead config client db event.invoice_id i s read u (λ x. refl) refl in
      elim (Bool-cases (is_overage i.kind)) [
        | inl over ↦
            (update_invoice config client db i.id u, s, ground (arith, found, late, over), after)
        | inr own ↦ (
          update_subscription config client (update_invoice config client db i.id u) s.id v,
          v s,
          ground (arith, found, late, own),
          update_subscription-IsRead config client _ event.invoice_id _ s after v (λ x. refl),
        )
      ]
