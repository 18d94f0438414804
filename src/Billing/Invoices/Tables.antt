-- ===== src/Billing/Invoices/Tables.antt =====
-- What the two updates of a handler leave in the tables.
use hivepoint_backend.Common.{
  ℕ, ◌≡◌, ◌≢◌, sym, ◌∙◌, some, find, find-some, find-update_first, find-update_first_ne, arith,
}
use hivepoint_backend.Schema.{Subscription, Invoice}
use hivepoint_backend.Billing.Store.{Db, Client, Config}
use hivepoint_backend.Billing.Invoices.{
  find_invoice, update_invoice, update_subscription, invoice_with_id, subscription_with_id,
}

module _ (config : Config) (client : Client) (db : Db) where
  -- The invoice and the subscription that a handler reads.
  pub record IsRead (id : ℕ) (i : Invoice) (s : Subscription) : Type 0 where
    pub invoice_row : find (invoice_with_id id) db.invoices ≡ some i
    pub subscription_row : find (subscription_with_id i.subscription_id) db.subscriptions ≡ some s
    pub invoice_id : i.id ≡ id
    pub subscription_id : s.id ≡ i.subscription_id

  pub find_invoice-IsRead :
      (id : ℕ) (i : Invoice) (s : Subscription)
      → find_invoice config client db id ≡ some (i, s)
      → IsRead id i s
  unfolding find_invoice
  find_invoice-IsRead id i s e =
      let found : find (invoice_with_id id) db.invoices ≡ some i =
        ground (arith, client.invoice.find_unique_lem (invoice_with_id id) db.invoices) in
      let owner : find (subscription_with_id i.subscription_id) db.subscriptions ≡ some s =
        ground (arith, client.invoice.find_unique_lem (invoice_with_id id) db.invoices) in
      let named = find-some (invoice_with_id id) db.invoices i found in
      let owned = find-some (subscription_with_id i.subscription_id) db.subscriptions s owner in
      record {
        invoice_row = found;
        subscription_row = owner;
        invoice_id = ground (arith, named);
        subscription_id = ground (arith, owned);
      }

  pub IsRead-find_invoice :
      (id : ℕ) (i : Invoice) (s : Subscription)
      → IsRead id i s
      → find_invoice config client db id ≡ some (i, s)
  unfolding find_invoice
  IsRead-find_invoice id i s r = ground (
    arith,
    client.invoice.find_unique_lem (invoice_with_id id) db.invoices,
    r.invoice_row,
    r.subscription_row,
  )

-- After an invoice and its subscription are rewritten, both are read as they were written, and
-- every other row as before.
module _ (config : Config) (client : Client) (db : Db) (id : ℕ) (i : Invoice) (s : Subscription)
    (r : IsRead config client db id i s) (u : Invoice → Invoice)
    (keeps : (x : Invoice) → (u x).id ≡ x.id) where
  abbrev pub after_invoice : Db
  after_invoice = update_invoice config client db i.id u

  pub update_invoice-IsRead :
      (u i).subscription_id ≡ i.subscription_id → IsRead config client after_invoice id (u i) s
  unfolding update_invoice
  update_invoice-IsRead k = record {
    invoice_row =
        simp (client.invoice.update_lem, r.invoice_id)
          (find-update_first (invoice_with_id id) u db.invoices i r.invoice_row
            (ground (arith, keeps i, r.invoice_id)));
    subscription_row = rw k r.subscription_row;
    invoice_id = keeps i ∙ r.invoice_id;
    subscription_id = r.subscription_id ∙ sym k;
  }

  pub update_invoice_others :
      (other : ℕ)
      → other ≢ id
      → find (invoice_with_id other) after_invoice.invoices
        ≡ find (invoice_with_id other) db.invoices
  unfolding update_invoice
  update_invoice_others other ne = rw (client.invoice.update_lem) (
      find-update_first_ne (invoice_with_id i.id) u (invoice_with_id other) db.invoices
        (λ x h. ground (arith, keeps x, r.invoice_id)))

module _ (config : Config) (client : Client) (db : Db) (id : ℕ) (i : Invoice) (s : Subscription)
    (r : IsRead config client db id i s) (v : Subscription → Subscription)
    (keeps : (x : Subscription) → (v x).id ≡ x.id) where
  abbrev pub after_subscription : Db
  after_subscription = update_subscription config client db s.id v

  pub update_subscription-IsRead : IsRead config client after_subscription id i (v s)
  unfolding update_subscription
  update_subscription-IsRead = record {
    invoice_row = r.invoice_row;
    subscription_row =
        simp (client.subscription.update_lem, r.subscription_id)
          (find-update_first (subscription_with_id i.subscription_id) v db.subscriptions s
            r.subscription_row (ground (arith, keeps s, r.subscription_id)));
    invoice_id = r.invoice_id;
    subscription_id = keeps s ∙ r.subscription_id;
  }

  pub update_subscription_others :
      (other : ℕ)
      → other ≢ s.id
      → find (subscription_with_id other) after_subscription.subscriptions
        ≡ find (subscription_with_id other) db.subscriptions
  unfolding update_subscription
  update_subscription_others other ne = rw (client.subscription.update_lem) (
      find-update_first_ne (subscription_with_id s.id) v (subscription_with_id other)
        db.subscriptions (λ x h. ground (arith, keeps x)))
