-- ===== src/Billing/OverageCollection/Collection.antt =====
-- An overage invoice is collected once.
use hivepoint_backend.Common.{
  ℕ, String, ◌≡◌, inl, inr, sym, subst, refl, true, false, some, arith, Bool-cases,
}
use hivepoint_backend.Errors.{ok}
use hivepoint_backend.Schema.{Plan, Subscription, Invoice}
use hivepoint_backend.Billing.Store.{Db, Client, Config}
use hivepoint_backend.Billing.Invoices.{
  is_paid, is_draft, find_invoice, paid_invoice, failed_invoice,
}
use hivepoint_backend.Billing.Invoices.Tables.{IsRead, find_invoice-IsRead, IsRead-find_invoice}
use hivepoint_backend.Billing.Invoices.Handled.{
  mark_invoice_paid-IsRead, mark_invoice_failed-IsRead,
}
use hivepoint_backend.Billing.RetryWorker.{PaymentResult, payment_event, is_void}
use hivepoint_backend.Billing.OverageCollection.Collect.{
  Provider, managed_invoice_input, is_uncollected, plan_and_title, settle_collection,
  collect_overage_invoice,
}

module _ (config : Config) (client : Client) (provider : Provider) where
  collected_waits :
      (i : Invoice) → is_draft i.status ≡ false → is_uncollected config client provider i ≡ false
  collected_waits i h = ground (arith, h)

module _ (config : Config) (client : Client) (provider : Provider) where
  draft_unpaid :
      (i : Invoice) → is_uncollected config client provider i ≡ true → is_paid i.status ≡ false
  draft_unpaid i h = ground (arith, h)

  -- What the provider answered leaves an invoice that is no longer a draft.
  settle_collection-runs :
      (now : ℕ) (db : Db) (id : ℕ) (r : PaymentResult) (i : Invoice) (s : Subscription)
      → IsRead config client db id i s
      → is_paid i.status ≡ false
      → (db' : Db) × (i' : Invoice) × (s' : Subscription) × (settle_collection config client
            provider now db id r
          ≡ ok (true, db'))
        × IsRead config client db' id i' s'
        × (is_draft i'.status ≡ false)
  unfolding settle_collection paid_invoice failed_invoice
  settle_collection-runs now db id r i s read unpaid =
      let event = payment_event id r in
      let (paid, s1, e1, read1) = mark_invoice_paid-IsRead config client db event i s read unpaid in
      let (failed, s2, e2, read2) =
        mark_invoice_failed-IsRead config client now db event i s read unpaid in
      elim (Bool-cases (is_paid r.status)) [
        | inl settled ↦ (paid, _, s1, rw (settled, e1) refl, read1, refl)
        | inr not_yet ↦ (
          failed,
          _,
          s2,
          rw (not_yet, e2) refl,
          read2,
          elim (Bool-cases (is_void r.status)) [ inl void ↦ rw void refl | inr due ↦ rw due refl ],
        )
      ]

  -- Where an overage invoice, a draft without an external id, stands in the tables with its
  -- subscription, plan and product, and the provider answers, whatever the status is that it tells,
  -- the invoice is collected, and a second run for it, at any date and with any provider, does not
  -- reach the provider: it answers false and changes nothing.
  pub collect_overage_invoice_once :
      (now later : ℕ) (again : Provider) (db : Db) (id : ℕ) (i : Invoice) (s : Subscription)
      (plan : Plan) (title : String) (r : PaymentResult)
      → find_invoice config client db id ≡ some (i, s)
      → is_uncollected config client provider i ≡ true
      → plan_and_title config client provider db s ≡ some (plan, title)
      → provider.create_managed_invoice
          (managed_invoice_input config client provider i s plan title)
        ≡ ok r
      → (db' : Db) × (collect_overage_invoice config client provider now db id ≡ ok (true, db'))
        × (collect_overage_invoice config client again later db' id ≡ ok (false, db'))
  unfolding collect_overage_invoice
  collect_overage_invoice_once now later again db id i s plan title r found waits known answered =
      let read = find_invoice-IsRead config client db id i s found in
      let named : IsRead config client db i.id i s =
        subst (λ (k : ℕ). IsRead config client db k i s) (sym read.invoice_id) read in
      let (db', i', s', runs, after, told) =
        settle_collection-runs now db i.id r i s named (draft_unpaid i waits) in
      let there = IsRead-find_invoice config client db' i.id i' s' after in
      (
        db',
        rw (collect_overage_invoice, found, waits, known, answered) runs,
        subst (λ (k : ℕ). collect_overage_invoice config client again later db' k ≡ ok (false, db'))
            read.invoice_id
            (rw (collect_overage_invoice, there, collected_waits config client again i' told) refl),
      )
