-- ===== src/Billing/OverageCollection/Rows.antt =====
-- The rows that one settlement writes.
use hivepoint_backend.Common.{
  find-fresh, ℕ, ◌≡◌, ◌⊎◌, inl, inr, refl, false, none, some, List, [], ◌∷◌, any, find, arith,
  Bool-cases, ltb, if◌then◌else◌,
}
use hivepoint_backend.Errors.{ok}
use hivepoint_backend.Schema.{Plan, Subscription, SubscriptionStatus, Invoice, clash_invoice}
use hivepoint_backend.Billing.Store.{Db, Client, Config}
use hivepoint_backend.Billing.Invoices.{invoice_with_id, update_subscription}
use hivepoint_backend.Billing.OverageCollection.{
  OverageSettlement, is_local_managed_stripe_subscription, is_canceled, add_plan_period,
  derived_from, overage_invoice, renewal_invoice, create_invoice, renew_local, create_overage,
}

-- A row with a new id, without external ids, and for a source that has no overage invoice yet, is
-- not refused.
fresh-clash :
    (new : Invoice) (rows : List Invoice)
    → new.external_checkout_session_id ≡ none
    → new.external_invoice_id ≡ none
    → any (invoice_with_id new.id) rows ≡ false
    → (new.overage_source_invoice_id ≡ none)
      ⊎ ((id : ℕ) × (new.overage_source_invoice_id ≡ some id)
          × (find (derived_from id) rows ≡ none))
    → any (clash_invoice new) rows ≡ false
fresh-clash new [] c e fresh k = refl
fresh-clash new (x ∷ rows) c e fresh (inl k) =
    ground (arith, c, e, k, fresh, fresh-clash new rows c e (ground (arith, fresh)) (inl k))
fresh-clash new (x ∷ rows) c e fresh (inr (id, k, none_yet)) = ground (
  arith,
  c,
  e,
  k,
  fresh,
  none_yet,
  fresh-clash new rows c e (ground (arith, fresh)) (inr (id, k, ground (arith, none_yet))),
)

module _ (config : Config) (client : Client) where
  create_invoice-fresh :
      (db : Db) (new : Invoice)
      → any (clash_invoice new) db.invoices ≡ false
      → create_invoice config client db new ≡ ok (record db { invoices = new ∷ db.invoices })
  unfolding create_invoice
  create_invoice-fresh db new fresh =
      ground (arith, client.invoice.create_lem new db.invoices, fresh)

  pub create_overage-fresh :
      (now new_id : ℕ) (db : Db) (i : Invoice) (s : Subscription) (plan : Plan)
      (st : OverageSettlement)
      → any (invoice_with_id new_id) db.invoices ≡ false
      → find (derived_from i.id) db.invoices ≡ none
      → create_overage config client now new_id db i s plan st
        ≡ ok (record db {
          invoices =
              if ltb 0 st.amount_cents
              then overage_invoice now new_id i s plan st ∷ db.invoices
              else db.invoices;
        })
  unfolding create_overage
  create_overage-fresh now new_id db i s plan st fresh none_yet =
      let new = overage_invoice now new_id i s plan st in
      let made =
        create_invoice-fresh db new
          (fresh-clash new db.invoices refl refl fresh (inr (i.id, refl, none_yet))) in
      elim (Bool-cases (ltb 0 st.amount_cents)) [
        | inl due ↦ ground (
          arith,
          made,
          due,
          none_yet,
          client.invoice.find_unique_lem (derived_from i.id) db.invoices,
        )
        | inr free ↦ ground (arith, free)
      ]

  pub renew_local-fresh :
      (now new_id : ℕ) (db : Db) (i : Invoice) (s : Subscription) (plan : Plan)
      → any (invoice_with_id new_id) db.invoices ≡ false
      → (db' : Db) × (renew_local config client now new_id db i s plan ≡ ok db')
        × ((db'.invoices ≡ db.invoices)
            ⊎ (db'.invoices ≡ renewal_invoice now new_id i s plan ∷ db.invoices))
  unfolding renew_local update_subscription
  renew_local-fresh now new_id db i s plan fresh =
      let new = renewal_invoice now new_id i s plan in
      let made =
        create_invoice-fresh db new (fresh-clash new db.invoices refl refl fresh (inl refl)) in
      let canceled = update_subscription config client db s.id (λ x. record x {
        status = SubscriptionStatus.canceled;
        cancel_at_period_end = false;
        grace_period_ends_at = none;
      }) in
      let renewed =
        update_subscription config client (record db { invoices = new ∷ db.invoices }) s.id
          (λ x. record x {
            status = SubscriptionStatus.active;
            current_period_start = some i.period_end;
            current_period_end = some (add_plan_period i.period_end plan.period);
            grace_period_ends_at = none;
          }) in
      elim (Bool-cases (is_local_managed_stripe_subscription s plan)) [
        | inr remote ↦ (db, ground (arith, remote), inl refl)
        | inl local ↦ elim (Bool-cases s.cancel_at_period_end) [
          | inl ends ↦ (canceled, ground (arith, local, ends), inl refl)
          | inr goes_on ↦ elim (Bool-cases (is_canceled s.status)) [
            | inl ended ↦ (db, ground (arith, local, goes_on, ended), inl refl)
            | inr lives ↦ (renewed, ground (arith, local, goes_on, lives, made), inr refl)
          ]
        ]
      ]

  -- What the rows of one settlement leave to be found: the source as it was, and the overage
  -- invoice where something is due.
  pub settled-rows :
      (now overage_id renewal_id : ℕ) (rows last : List Invoice) (i : Invoice) (s : Subscription)
      (plan : Plan) (st : OverageSettlement) (billed : List Invoice)
      → find (invoice_with_id i.id) rows ≡ some i
      → find (derived_from i.id) rows ≡ none
      → any (invoice_with_id overage_id) rows ≡ false
      → any (invoice_with_id renewal_id) billed ≡ false
      → billed ≡ (
          if ltb 0 st.amount_cents then overage_invoice now overage_id i s plan st ∷ rows else rows)
      → (last ≡ billed) ⊎ (last ≡ renewal_invoice now renewal_id i s plan ∷ billed)
      → (find (invoice_with_id i.id) last ≡ some i)
        × (find (derived_from i.id) last ≡ (
            if ltb 0 st.amount_cents
            then some (overage_invoice now overage_id i s plan st)
            else none))
  settled-rows now o r rows last i s plan st billed found none_yet fresh_o fresh_r is_billed
        is_last =
      let w = invoice_with_id i.id in
      let apart_o = find-fresh (invoice_with_id o) w rows i found fresh_o in
      let here : find w billed ≡ some i = elim (Bool-cases (ltb 0 st.amount_cents)) [
        | inl due ↦ ground (arith, due, is_billed, apart_o, found)
        | inr free ↦ ground (arith, free, is_billed, found)
      ] in
      let derived : find (derived_from i.id) billed
          ≡ (if ltb 0 st.amount_cents then some (overage_invoice now o i s plan st) else none) =
        elim (Bool-cases (ltb 0 st.amount_cents)) [
          | inl due ↦ ground (arith, due, is_billed)
          | inr free ↦ ground (arith, free, is_billed, none_yet)
        ] in
      let apart_r = find-fresh (invoice_with_id r) w billed i here fresh_r in
      elim is_last [
        | inl same ↦ (rw same here, rw same derived)
        | inr renewed ↦ (rw renewed (ground (arith, apart_r, here)), rw renewed derived)
      ]
