-- ===== src/Billing/Subscriptions/Live.antt =====
-- A user has at most one subscription to a product that is active or waits for its first payment,
-- as far as `subscribe` goes.
use hivepoint_backend.Common.{
  ℕ, ◌≤◌, ◌≡◌, sym, some, [], ◌==◌, find, find-some, sum_where, sum_where-none,
  sum_where-update_first_le, ◌&&◌, arith, Option-cases, inl, inr,
}
use hivepoint_backend.Errors.{Failure, ok, Result-cases}
use hivepoint_backend.Schema.{ApiProduct, Plan, Subscription}
use hivepoint_backend.Billing.Store.{Db, Client, Config, Ack}
use hivepoint_backend.Billing.Invoices.{
  InvoiceEvent, mark_invoice_failed, failed_subscription, update_invoice, update_subscription,
  subscription_with_id, find_invoice,
}
use hivepoint_backend.Billing.Subscriptions.{
  User, PaymentProvider, is_live_for, pending_subscription, check_plan, open_subscription, abandon,
  plain_event, request_payment, subscribe,
}

-- How many live subscriptions a user has to a product.
abbrev pub live_count : Db → ℕ → ℕ → ℕ
live_count db user_id product_id =
    sum_where (is_live_for db.plans user_id product_id) (λ s. 1) db.subscriptions

module _ (config : Config) (client : Client) where
  -- A failed invoice makes no subscription live.
  live_count-mark_invoice_failed :
      (now : ℕ) (db : Db) (event : InvoiceEvent) (u p : ℕ)
      → (a : Ack) (db' : Db) → mark_invoice_failed config client now db event ≡ ok (a, db')
      → live_count db' u p ≤ live_count db u p
  unfolding mark_invoice_failed update_invoice update_subscription failed_subscription
  live_count-mark_invoice_failed now db event u p a db' e =
      elim (Option-cases (find_invoice config client db event.invoice_id)) [
        | inl missing ↦ absurd (ground (arith, missing))
        | inr ((i, s), found) ↦ ground (
          arith,
          found,
          client.subscription.update_lem (subscription_with_id s.id)
              (failed_subscription config now event s) db.subscriptions,
          sum_where-update_first_le (λ (x : Subscription). 1) (is_live_for db.plans u p)
              (subscription_with_id s.id) (failed_subscription config now event s) db.subscriptions
              (λ x. ground arith),
        )
      ]

module _ (config : Config) (client : Client) (payments : PaymentProvider) where
  check_plan_found :
      (db : Db) (plan_id : ℕ) (plan : Plan) (product : ApiProduct)
      → check_plan config client payments db plan_id ≡ ok (plan, product)
      → find (λ (x : Plan). x.id == plan.id) db.plans ≡ some plan
  unfolding check_plan
  check_plan_found db plan_id plan product e =
      let found : find (λ (x : Plan). x.id == plan_id) db.plans ≡ some plan =
        ground (arith, client.plan.find_unique_lem (λ x. x.id == plan_id) db.plans) in
      let named = find-some (λ (x : Plan). x.id == plan_id) db.plans plan found in
      let same : plan.id ≡ plan_id = ground (arith, named) in simp same found

  live_count-open_subscription :
      (now sub_id inv_id : ℕ) (db : Db) (plan : Plan) (user : User) (db' : Db) (u p : ℕ)
      → find (λ (x : Plan). x.id == plan.id) db.plans ≡ some plan
      → open_subscription config client payments now sub_id inv_id db plan user ≡ ok db'
      → live_count db u p ≤ 1
      → live_count db' u p ≤ 1
  unfolding open_subscription pending_subscription
  live_count-open_subscription now sub_id inv_id db plan user db' u p known e h =
      let test = is_live_for db.plans user.id plan.product_id in
      let row = pending_subscription now sub_id user.id plan.id payments.provider in
      elim (Option-cases (client.subscription.find_first test [] db.subscriptions)) [
        | inr (r, found) ↦ absurd (ground (arith, found))
        | inl missing ↦
            let none_live : sum_where test (λ (x : Subscription). 1) db.subscriptions ≡ 0 =
              sum_where-none (λ (x : Subscription). 1) test db.subscriptions
                (client.subscription.find_first_none test [] db.subscriptions missing) in
            let row_live : is_live_for db.plans u p row ≡ (user.id == u) && (plan.product_id == p) =
              simp known in
            let counted : user.id ≡ u → plan.product_id ≡ p → live_count db u p ≡ 0 =
              λ a b. simp (sym a, sym b) none_live in
            ground (
              arith,
              missing,
              row_live,
              counted,
              client.subscription.create_lem row db.subscriptions,
            )
      ]

  live_count-abandon :
      (now : ℕ) (db : Db) (inv_id : ℕ) (f : Failure) (u p : ℕ)
      → live_count (abandon config client payments now db inv_id f).1 u p ≤ live_count db u p
  unfolding abandon
  live_count-abandon now db inv_id f u p =
      let event = plain_event inv_id payments.provider in
      elim (Result-cases (mark_invoice_failed config client now db event)) [
        | inl (e, failed) ↦ ground (arith, failed)
        | inr ((a, db'), failed) ↦ ground (
          arith,
          failed,
          live_count-mark_invoice_failed config client now db event u p a db' failed,
        )
      ]

  live_count-request_payment :
      (now sub_id inv_id : ℕ) (db : Db) (plan : Plan) (product : ApiProduct) (user : User) (u p : ℕ)
      → live_count
          (request_payment config client payments now sub_id inv_id db plan product user).1
          u
          p
        ≤ live_count db u p
  unfolding request_payment update_invoice
  live_count-request_payment now sub_id inv_id db plan product user u p =
      grind (arith, live_count-abandon now db inv_id)

  -- Where a user has at most one subscription to a product that is active or pending, `subscribe`,
  -- by whomever to whichever plan and whatever the payment provider answers, leaves at most one.
  pub live_count-subscribe :
      (now sub_id inv_id : ℕ) (db : Db) (plan_id : ℕ) (user : User) (u p : ℕ)
      → live_count db u p ≤ 1
      → live_count (subscribe config client payments now sub_id inv_id db plan_id user).1 u p ≤ 1
  unfolding subscribe
  live_count-subscribe now sub_id inv_id db plan_id user u p h =
      elim (Result-cases (check_plan config client payments db plan_id)) [
        | inl (e, refused) ↦ ground (arith, refused, h)
        | inr ((plan, product), checked) ↦
            elim (Result-cases
              (open_subscription config client payments now sub_id inv_id db plan user)) [
                | inl (e, refused) ↦ ground (arith, checked, refused, h)
                | inr (opened, created) ↦ ground (
                  arith,
                  checked,
                  created,
                  live_count-open_subscription now sub_id inv_id db plan user opened u p
                      (check_plan_found db plan_id plan product checked) created h,
                  live_count-request_payment now sub_id inv_id opened plan product user u p,
                )
              ]
      ]
