-- ===== src/Billing/OverageCollection/Settlement.antt =====
-- What settling an elapsed period leaves in the tables: the overage invoice, and the mark that keeps
-- the period from being settled again.
use hivepoint_backend.Common.{
  ℕ, ◌≡◌, ◌≢◌, ◌⊎◌, inl, inr, sym, subst, refl, true, false, none, some, ◌∷◌, any, find, arith,
  Option-cases, Bool-cases, ltb, find-update_first, find-update_first-some, find-update_first-none,
  ◌<◌, if◌then◌else◌,
}
use hivepoint_backend.Errors.{ok}
use hivepoint_backend.Schema.{Plan, Subscription, Invoice, InvoiceStatus, InvoiceKind, UsageTables}
use hivepoint_backend.Usage.Aggregation.{UsageClient, sum_usage_for_window}
use hivepoint_backend.Usage.Aggregation.Invariant.{IsAggregated}
use hivepoint_backend.Usage.Aggregation.Windows.{window_usage, sum_usage_for_window-eq-window_usage}
use hivepoint_backend.Usage.Overage.{OverageState, get_overage_state}
use hivepoint_backend.Usage.Store.{plan_of}
use hivepoint_backend.Billing.Store.{Db, Client, Config}
use hivepoint_backend.Billing.Invoices.{
  invoice_with_id, subscription_with_id, find_invoice, update_invoice,
}
use hivepoint_backend.Billing.Invoices.Tables.{find_invoice-IsRead}
use hivepoint_backend.Billing.OverageCollection.{
  build_settlement, derived_from, is_unsettled_source, overage_invoice, processed_invoice,
  settle_source, materialize_source_invoice,
}
use hivepoint_backend.Billing.OverageCollection.Rows.{
  create_overage-fresh, renew_local-fresh, settled-rows,
}

-- The amount that is invoiced for a period is the amount that the authorization of its last request
-- foretold, and so are the requests: `buildSettlement` and `getOverageState` agree on every plan and
-- usage.
pub build_settlement-agrees :
    (plan : Plan) (used : ℕ)
    → ((build_settlement plan used).amount_cents
        ≡ (get_overage_state plan used).projected_overage_amount_cents)
      × ((build_settlement plan used).overage_requests
          ≡ (get_overage_state plan used).overage_requests)
unfolding build_settlement get_overage_state
build_settlement-agrees plan used = (ground arith, ground arith)

-- An elapsed period is settled: its invoice carries the mark, and exactly where something is due
-- there is one overage invoice for it, a draft of that amount.
pub record IsSettled (processed_at : ℕ) (i : Invoice) (s : Subscription) (due : OverageState)
    (db : Db) : Type 0 where
  pub source : Invoice
  pub marked : find (invoice_with_id i.id) db.invoices ≡ some source
  pub mark : source.overage_processed_at ≡ some processed_at
  pub billing :
      ((due.projected_overage_amount_cents ≡ 0) × (find (derived_from i.id) db.invoices ≡ none))
      ⊎ ((o : Invoice) × (find (derived_from i.id) db.invoices ≡ some o)
          × (0 < due.projected_overage_amount_cents)
          × (o.amount_cents ≡ due.projected_overage_amount_cents)
          × (o.overage_requests ≡ some due.overage_requests)
          × (o.kind ≡ InvoiceKind.overage)
          × (o.status ≡ InvoiceStatus.draft)
          × (o.subscription_id ≡ s.id))

module _ (config : Config) (client : Client) (usage_client : UsageClient) where
  -- The mark is written over the rows of the settlement.
  marked-IsSettled :
      (now overage_id : ℕ) (db : Db) (i : Invoice) (s : Subscription) (plan : Plan) (used : ℕ)
      → find (invoice_with_id i.id) db.invoices ≡ some i
      → find (derived_from i.id) db.invoices ≡ (
          if ltb 0 (build_settlement plan used).amount_cents
          then some (overage_invoice now overage_id i s plan (build_settlement plan used))
          else none)
      → IsSettled now i s
          (get_overage_state plan used)
          (update_invoice config client db i.id (processed_invoice config client now))
  unfolding update_invoice
  marked-IsSettled now o db i s plan used found derived =
      let u = processed_invoice config client now in
      let w = invoice_with_id i.id in
      let st = build_settlement plan used in
      let (amount, requests) = build_settlement-agrees plan used in
      let new = overage_invoice now o i s plan st in
      record {
        source = u i;
        marked =
            rw (client.invoice.update_lem)
              (find-update_first w u db.invoices i found (ground arith));
        mark = refl;
        billing = elim (Bool-cases (ltb 0 st.amount_cents)) [
          | inr free ↦ inl (
            ground (arith, free, amount),
            rw (client.invoice.update_lem) (
                find-update_first-none w (derived_from i.id) u db.invoices (λ x. refl)
                  (ground (arith, derived, free))),
          )
          | inl owed ↦
              let (o', there, is) =
                find-update_first-some w (derived_from i.id) u db.invoices new (λ x. refl)
                  (ground (arith, derived, owed)) in
              inr (
                o',
                rw (client.invoice.update_lem) there,
                ground (arith, owed, amount),
                ground (arith, is, amount),
                ground (arith, is, requests),
                ground (arith, is),
                ground (arith, is),
                ground (arith, is),
              )
        ];
      }

  -- The transaction runs, over rows that clash with neither new id.
  settle_source-IsSettled :
      (now overage_id renewal_id : ℕ) (usage : UsageTables) (db : Db) (i : Invoice)
      (s : Subscription) (plan : Plan)
      → find (invoice_with_id i.id) db.invoices ≡ some i
      → find (derived_from i.id) db.invoices ≡ none
      → any (invoice_with_id overage_id) db.invoices ≡ false
      → any (invoice_with_id renewal_id) db.invoices ≡ false
      → overage_id ≢ renewal_id
      → (db' : Db) × (settle_source config client usage_client now overage_id renewal_id usage db i
            s plan
          ≡ ok (true, db'))
        × IsSettled now i s
            (get_overage_state plan
              (sum_usage_for_window usage_client usage s.id i.period_start i.period_end))
            db'
  unfolding settle_source
  settle_source-IsSettled now o r usage db i s plan found none_yet fresh_o fresh_r apart =
      let used = sum_usage_for_window usage_client usage s.id i.period_start i.period_end in
      let st = build_settlement plan used in
      let rows =
        if ltb 0 st.amount_cents
        then overage_invoice now o i s plan st ∷ db.invoices
        else db.invoices in
      let billed : Db = record db { invoices = rows } in
      let made = create_overage-fresh config client now o db i s plan st fresh_o none_yet in
      let free : any (invoice_with_id r) rows ≡ false = elim (Bool-cases (ltb 0 st.amount_cents)) [
        | inl due ↦ ground (arith, due, fresh_r, apart)
        | inr nothing ↦ ground (arith, nothing, fresh_r)
      ] in
      let (renewed, runs, is_last) = renew_local-fresh config client now r billed i s plan free in
      let (there, derived) =
        settled-rows config client now o r db.invoices renewed.invoices i s plan st rows found
          none_yet fresh_o free refl is_last in
      (
        update_invoice config client renewed i.id (processed_invoice config client now),
        rw (made) (rw (runs) refl),
        marked-IsSettled now o renewed i s plan used there derived,
      )

  -- An invoice that is not one to settle is refused.
  settled_refused :
      (now overage_id renewal_id : ℕ) (usage : UsageTables) (db : Db) (id : ℕ) (i : Invoice)
      → find (invoice_with_id id) db.invoices ≡ some i
      → is_unsettled_source i ≡ false
      → materialize_source_invoice config client usage_client now overage_id renewal_id usage db id
        ≡ ok (false, db)
  unfolding materialize_source_invoice find_invoice
  settled_refused now o r usage db id i found settled =
      let there = client.invoice.find_unique_lem (invoice_with_id id) db.invoices in
      elim (Option-cases (find (subscription_with_id i.subscription_id) db.subscriptions)) [
        | inl gone ↦ rw (materialize_source_invoice, find_invoice, there, found, gone) refl
        | inr (s, owner) ↦
            rw (materialize_source_invoice, find_invoice, there, found, owner, settled) refl
      ]

  module _ (now overage_id renewal_id : ℕ) (usage : UsageTables) (db : Db) (id : ℕ) (i : Invoice)
      (s : Subscription) (plan : Plan) (aggregated : IsAggregated usage)
      (found : find_invoice config client db id ≡ some (i, s))
      (planned : plan_of db.plans s ≡ some plan) (unsettled : is_unsettled_source i ≡ true)
      (none_yet : find (derived_from i.id) db.invoices ≡ none)
      (fresh_overage : any (invoice_with_id overage_id) db.invoices ≡ false)
      (fresh_renewal : any (invoice_with_id renewal_id) db.invoices ≡ false)
      (apart : overage_id ≢ renewal_id) where
    -- A paid invoice of Stripe for a period, not settled before and with no overage invoice, is
    -- settled, where the aggregates agree with the aggregated records and the database gives new
    -- ids: the transaction succeeds and marks the invoice, and it makes one overage invoice for it,
    -- a draft over the amount that the raw usage of the period costs beyond the plan's quota, where
    -- that is positive, and none where it is zero.
    pub materialize_source_invoice-IsSettled :
        (db' : Db) × (materialize_source_invoice config client usage_client now overage_id
            renewal_id usage db id
          ≡ ok (true, db'))
        × IsSettled now i s
            (get_overage_state plan (window_usage usage s.id i.period_start i.period_end))
            db'
    unfolding materialize_source_invoice
    materialize_source_invoice-IsSettled =
        let read = find_invoice-IsRead config client db id i s found in
        let named : find (invoice_with_id i.id) db.invoices ≡ some i =
          subst (λ (k : ℕ). find (invoice_with_id k) db.invoices ≡ some i) (sym read.invoice_id)
            read.invoice_row in
        let (db', runs, settled) =
          settle_source-IsSettled now overage_id renewal_id usage db i s plan named none_yet
            fresh_overage fresh_renewal apart in
        (
          db',
          rw (materialize_source_invoice, found, unsettled, planned) runs,
          subst (λ (n : ℕ). IsSettled now i s (get_overage_state plan n) db')
              (sum_usage_for_window-eq-window_usage usage s.id usage_client aggregated
                i.period_start i.period_end)
              settled,
        )

    -- Under the same conditions, a second run for the same invoice, at any date and over any usage,
    -- answers false and changes nothing: a period is billed once.
    pub materialize_source_invoice_once :
        (later other_overage other_renewal : ℕ) (later_usage : UsageTables)
        → (db' : Db) × (materialize_source_invoice config client usage_client now overage_id
              renewal_id usage db id
            ≡ ok (true, db'))
          × (materialize_source_invoice config client usage_client later other_overage other_renewal
                later_usage db' id
              ≡ ok (false, db'))
    materialize_source_invoice_once later other_o other_r later_usage =
        let (db', runs, settled) = materialize_source_invoice-IsSettled in
        let read = find_invoice-IsRead config client db id i s found in
        (
          db',
          runs,
          settled_refused later other_o other_r later_usage db' id settled.source
              (subst (λ (k : ℕ). find (invoice_with_id k) db'.invoices ≡ some settled.source)
                read.invoice_id settled.marked)
              (ground (arith, settled.mark)),
        )
