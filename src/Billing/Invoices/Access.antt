-- ===== src/Billing/Invoices/Access.antt =====
-- What a paid or failed invoice means for the access to the product: the usage window of
-- src/modules/usage/usage.service.ts for the subscription that the handlers leave behind.
use hivepoint_backend.Common.{
  ℕ, ◌+◌, ◌*◌, ◌≤◌, ◌<◌, ◌≡◌, ◌↔◌, refl, Option, none, some, ltb, leb, max, or_else, ◌⊎◌, arith,
  if◌then◌else◌,
}
use hivepoint_backend.Errors.{ok}
use hivepoint_backend.Schema.{Subscription, SubscriptionStatus, Invoice, InvoiceStatus, InvoiceKind}
use hivepoint_backend.Usage.Days.{day_ms}
use hivepoint_backend.Usage.Windows.{UsageWindow, get_usage_window}
use hivepoint_backend.Billing.Grace.{resolve_grace_period_ends_at}
use hivepoint_backend.Billing.Store.{Db, Client, Config, done}
use hivepoint_backend.Billing.Invoices.{
  InvoiceEvent, find_invoice, mark_invoice_paid, mark_invoice_failed, paid_invoice,
  paid_subscription, failed_invoice, failed_subscription, update_invoice, update_subscription,
}
use hivepoint_backend.Billing.Invoices.Tables.{
  find_invoice-IsRead, IsRead-find_invoice, update_invoice-IsRead, update_subscription-IsRead,
}

module _ (config : Config) (client : Client) (db : Db) (event : InvoiceEvent) where
  -- The invoice and the subscription after `markInvoicePaid` of a subscription invoice.
  pub mark_invoice_paid_reads :
      (i : Invoice) (s : Subscription) (db' : Db)
      → find_invoice config client db event.invoice_id ≡ some (i, s)
      → i.kind ≡ InvoiceKind.subscription
      → mark_invoice_paid config client db event ≡ ok (done, db')
      → find_invoice config client db' event.invoice_id
        ≡ some (paid_invoice event i i, paid_subscription event i s s)
  unfolding mark_invoice_paid paid_invoice paid_subscription
  mark_invoice_paid_reads i s db' found kind e =
      let read = find_invoice-IsRead config client db event.invoice_id i s found in
      let first =
        update_invoice-IsRead config client db event.invoice_id i s read (paid_invoice event i)
          (λ x. refl) refl in
      let second =
        update_subscription-IsRead config client _ event.invoice_id _ s first
          (paid_subscription event i s) (λ x. refl) in
      let result : db'
          ≡ update_subscription config client
              (update_invoice config client db i.id (paid_invoice event i)) s.id
              (paid_subscription event i s) =
        ground (arith, found) in
      rw result (IsRead-find_invoice config client _ event.invoice_id _ _ second)

  -- The same after `markInvoiceFailed`.
  pub mark_invoice_failed_reads :
      (now : ℕ) (i : Invoice) (s : Subscription) (db' : Db)
      → find_invoice config client db event.invoice_id ≡ some (i, s)
      → i.kind ≡ InvoiceKind.subscription
      → mark_invoice_failed config client now db event ≡ ok (done, db')
      → find_invoice config client db' event.invoice_id
        ≡ some (failed_invoice config now event i s i, failed_subscription config now event s s)
  unfolding mark_invoice_failed failed_invoice failed_subscription
  mark_invoice_failed_reads now i s db' found kind e =
      let read = find_invoice-IsRead config client db event.invoice_id i s found in
      let first =
        update_invoice-IsRead config client db event.invoice_id i s read
          (failed_invoice config now event i s) (λ x. refl) refl in
      let second =
        update_subscription-IsRead config client _ event.invoice_id _ s first
          (failed_subscription config now event s) (λ x. refl) in
      let result : db'
          ≡ update_subscription config client
              (update_invoice config client db i.id (failed_invoice config now event i s)) s.id
              (failed_subscription config now event s) =
        ground (arith, found) in
      rw result (IsRead-find_invoice config client _ event.invoice_id _ _ second)

-- A subscription that was paid has access in the period of its invoice, and at no other date.
paid_window :
    (event : InvoiceEvent) (i : Invoice) (s : Subscription) (t : ℕ)
    → get_usage_window (paid_subscription event i s s) t ≡ (
        if ltb t i.period_start
        then none
        else if leb i.period_end t
        then none
        else some (record { gte = i.period_start; lt = i.period_end }))
unfolding get_usage_window paid_subscription
paid_window event i s t = refl

-- The end of the grace of a payment that failed at `now`: the days are counted from `now` at the
-- earliest, and a later end that was granted before stays.
grace_bounds :
    (now days start : ℕ) (current_end existing : Option ℕ)
    → 0 < days
    → (g : ℕ) × (resolve_grace_period_ends_at now days SubscriptionStatus.past_due
          (some start)
          current_end
          existing
        ≡ some g)
      × (now + days * day_ms ≤ g)
      × (or_else current_end 0 + days * day_ms ≤ g)
      × (or_else existing 0 ≤ g)
unfolding resolve_grace_period_ends_at
grace_bounds now days start none none h =
    (now + days * day_ms, ground arith, omega arith, omega arith, omega arith)
grace_bounds now days start none (some g) h =
    (max g (now + days * day_ms), ground arith, omega arith, omega arith, omega arith)
grace_bounds now days start (some end) none h =
    (max end now + days * day_ms, ground arith, omega arith, omega arith, omega arith)
grace_bounds now days start (some end) (some g) h =
    (max g (max end now + days * day_ms), ground arith, omega arith, omega arith, omega arith)

module _ (config : Config) (now : ℕ) (event : InvoiceEvent) (s : Subscription) where
  failed_window :
      (start t : ℕ)
      → 0 < config.billing_grace_period_days
      → s.current_period_start ≡ some start
      → start ≤ t
      → (t < now + config.billing_grace_period_days * day_ms)
        ⊎ (t < or_else s.grace_period_ends_at 0)
      → (w : UsageWindow) × (get_usage_window (failed_subscription config now event s s) t ≡ some w)
        × (w.gte ≡ start)
  unfolding get_usage_window failed_subscription
  failed_window start t d p h l =
      let (g, ends, after_now, _, after_old) =
        grace_bounds now config.billing_grace_period_days start s.current_period_end
          s.grace_period_ends_at d in
      (record { gte = start; lt = g }, ground arith, refl)

module _ (config : Config) (client : Client) (db : Db) (event : InvoiceEvent) (i : Invoice)
    (s : Subscription) (found : find_invoice config client db event.invoice_id ≡ some (i, s))
    (kind : i.kind ≡ InvoiceKind.subscription) where
  -- A payment of a subscription invoice that is not ignored leaves that invoice PAID and its
  -- subscription ACTIVE, with access exactly in the period of that invoice.
  pub mark_invoice_paid_access :
      (db' : Db)
      → mark_invoice_paid config client db event ≡ ok (done, db')
      → (i' : Invoice) × (s' : Subscription) × (find_invoice config client db' event.invoice_id
          ≡ some (i', s'))
        × (i'.status ≡ InvoiceStatus.paid)
        × (s'.status ≡ SubscriptionStatus.active)
        × ((t : ℕ) (w : UsageWindow)
            → (get_usage_window s' t ≡ some w) ↔ (
                (w.gte ≡ i.period_start)
                × (w.lt ≡ i.period_end)
                × (i.period_start ≤ t)
                × (t < i.period_end)))
  unfolding paid_invoice paid_subscription
  mark_invoice_paid_access db' e = (
    paid_invoice event i i,
    paid_subscription event i s s,
    mark_invoice_paid_reads config client db event i s db' found kind e,
    refl,
    refl,
    λ t w. rw (paid_window event i s t) (ground arith),
  )

  -- A failure of a subscription invoice that is not ignored makes its subscription PAST_DUE. Where
  -- a period had started and there is at least one day of grace, the subscriber has access at
  -- every date from that start on until the days of grace from now are over, or until a grace that
  -- was granted before ends.
  pub mark_invoice_failed_access :
      (now : ℕ) (db' : Db) (start t : ℕ)
      → 0 < config.billing_grace_period_days
      → mark_invoice_failed config client now db event ≡ ok (done, db')
      → s.current_period_start ≡ some start
      → start ≤ t
      → (t < now + config.billing_grace_period_days * day_ms)
        ⊎ (t < or_else s.grace_period_ends_at 0)
      → (i' : Invoice) × (s' : Subscription) × (w : UsageWindow) × (find_invoice config client db'
            event.invoice_id
          ≡ some (i', s'))
        × (s'.status ≡ SubscriptionStatus.past_due)
        × (get_usage_window s' t ≡ some w)
        × (w.gte ≡ start)
  unfolding failed_subscription
  mark_invoice_failed_access now db' start t d e p h l =
      let (w, window, from) = failed_window config now event s start t d p h l in
      (
        failed_invoice config now event i s i,
        failed_subscription config now event s s,
        w,
        mark_invoice_failed_reads config client db event now i s db' found kind e,
        refl,
        window,
        from,
      )
