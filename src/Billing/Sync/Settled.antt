-- ===== src/Billing/Sync/Settled.antt =====
-- An external invoice that is reported again, and a draft that is reported of a settled invoice.
use hivepoint_backend.Common.{
  ℕ, ◌∙◌, ◌≡◌, false, some, List, ◌∷◌, find, find-some, find-update_first, arith, eq_iff,
  Option-cases, inl, inr, or_else,
}
use hivepoint_backend.Errors.{ok}
use hivepoint_backend.Schema.{Invoice, InvoiceStatus, Subscription}
use hivepoint_backend.Billing.Store.{Db, Client, Config}
use hivepoint_backend.Billing.Invoices.{invoice_with_id, update_invoice, is_draft}
use hivepoint_backend.Billing.Sync.{
  ExternalInvoice, resolve_invoice_for_external_sync, sync_invoice_from_external, draft_invoice,
  find_by_metadata, create_for_subscription, created_invoice, invoice_with_external_id,
  subscription_with_external_id, apply_external,
}

module _ (config : Config) (client : Client) where
  subscriptions-resolve :
      (now new_id : ℕ) (db : Db) (p : ExternalInvoice) (id : ℕ) (resolved : Db)
      → resolve_invoice_for_external_sync config client now new_id db p ≡ ok (id, resolved)
      → resolved.subscriptions ≡ db.subscriptions
  unfolding resolve_invoice_for_external_sync create_for_subscription
  subscriptions-resolve now new_id db p id resolved resolves = ground arith

  -- A report that an invoice is a draft, which resolves to an invoice that is there and is settled
  -- already, succeeds: it changes no subscription, and the invoice keeps its status, its attempts
  -- and the date of its next attempt.
  pub sync_draft_keeps_settled :
      (now new_id : ℕ) (db : Db) (p : ExternalInvoice) (id : ℕ) (resolved : Db) (current : Invoice)
      → p.status ≡ InvoiceStatus.draft
      → resolve_invoice_for_external_sync config client now new_id db p ≡ ok (id, resolved)
      → find (invoice_with_id id) resolved.invoices ≡ some current
      → is_draft current.status ≡ false
      → (db' : Db) × (after : Invoice) × (sync_invoice_from_external config client now new_id db p
          ≡ ok (id, db'))
        × (find (invoice_with_id id) db'.invoices ≡ some after)
        × (after.status ≡ current.status)
        × (after.attempt_count ≡ current.attempt_count)
        × (after.next_payment_attempt_at ≡ current.next_payment_attempt_at)
        × (db'.subscriptions ≡ db.subscriptions)
  unfolding sync_invoice_from_external apply_external update_invoice draft_invoice
  sync_draft_keeps_settled now new_id db p id resolved current draft resolves found settled =
      let u = draft_invoice config client p current in
      let w = invoice_with_id id in
      let loaded : client.invoice.find_unique w resolved.invoices ≡ some current =
        client.invoice.find_unique_lem w resolved.invoices ∙ found in
      let table = client.invoice.update_lem w u resolved.invoices in
      let named = find-some w resolved.invoices current found in
      (
        update_invoice config client resolved id u,
        u current,
        ground (arith, resolves, loaded, draft),
        simp table (find-update_first w u resolved.invoices current found named),
        ground (arith, settled),
        ground (arith, settled),
        ground (arith, settled),
        subscriptions-resolve now new_id db p id resolved resolves,
      )

  find_unique-created_invoice :
      (now new_id : ℕ) (p : ExternalInvoice) (s : Subscription) (rows : List Invoice)
      → client.invoice.find_unique
          (invoice_with_external_id p.external_invoice_id)
          (created_invoice config client now new_id p s ∷ rows)
        ≡ some (created_invoice config client now new_id p s)
  unfolding created_invoice
  find_unique-created_invoice now new_id p s rows = ground (
    arith,
    eq_iff p.external_invoice_id p.external_invoice_id,
    client.invoice.find_unique_lem (invoice_with_external_id p.external_invoice_id)
        (created_invoice config client now new_id p s ∷ rows),
  )

  created_rows :
      (now new_id : ℕ) (db : Db) (p : ExternalInvoice) (id : ℕ) (resolved : Db)
      → create_for_subscription config client now new_id db p ≡ ok (id, resolved)
      → (s : Subscription) × (id ≡ new_id)
        × (resolved
            ≡ record db { invoices = created_invoice config client now new_id p s ∷ db.invoices })
  unfolding create_for_subscription
  created_rows now new_id db p id resolved e =
      elim (Option-cases (
        client.subscription.find_unique
          (subscription_with_external_id (or_else p.external_subscription_id ""))
          db.subscriptions)) [
            | inl missing ↦ absurd (ground (arith, missing, e))
            | inr (s, found) ↦ (
              s,
              ground (arith, found, e),
              ground (
                arith,
                found,
                e,
                client.invoice.create_lem (created_invoice config client now new_id p s)
                    db.invoices,
              ),
            )
          ]

  -- An external invoice that has been resolved, and created where it was not known, resolves to the
  -- same invoice without a write when it is reported again, whatever id would be drawn.
  pub resolve_invoice_for_external_sync_twice :
      (now later new_id other_id : ℕ) (db : Db) (p : ExternalInvoice) (id : ℕ) (resolved : Db)
      → resolve_invoice_for_external_sync config client now new_id db p ≡ ok (id, resolved)
      → resolve_invoice_for_external_sync config client later other_id resolved p
        ≡ ok (id, resolved)
  unfolding resolve_invoice_for_external_sync create_for_subscription created_invoice
  resolve_invoice_for_external_sync_twice now later new_id other_id db p id resolved resolves =
      let w = invoice_with_external_id p.external_invoice_id in
      elim (Option-cases (client.invoice.find_unique w db.invoices)) [
        | inr (i, known) ↦ ground (arith, known, resolves)
        | inl unknown ↦ elim (Option-cases (find_by_metadata config client db p)) [
          | inr (i, named) ↦ ground (arith, unknown, named, resolves)
          | inl unnamed ↦
              let (s, id_is, db_is) =
                created_rows now new_id db p id resolved
                  (ground (arith, unknown, unnamed, resolves)) in
              simp (id_is, db_is)
                (ground (arith, find_unique-created_invoice now new_id p s db.invoices))
        ]
      ]
