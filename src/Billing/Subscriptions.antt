-- ===== src/Billing/Subscriptions.antt =====
-- `subscribe`, `cancelSubscription` and the mock payments of
-- src/modules/billing/subscriptions.service.ts.
pub mod Live
pub mod Access
use hivepoint_backend.Common.{
  ℕ, ◌+◌, String, Bool, true, false, Option, none, some, List, [], ◌∷◌, ◌&&◌, ◌||◌, ◌==◌, not, find,
  is_some, is_truthy, or_else, if◌then◌else◌,
}
use hivepoint_backend.Errors.{
  Failure, Result, ok, throw, app_error, prisma_error, plan_not_found, plan_inactive,
  product_not_public, product_not_ready, already_subscribed, subscription_pending,
  subscription_not_found, not_owner, ◌>>=◌,
}
use hivepoint_backend.Prisma.{p2002}
use hivepoint_backend.Schema.{
  ApiProduct, ProductStatus, ApiVersion, VersionStatus, Plan, Subscription, SubscriptionStatus,
  Invoice, InvoiceStatus, InvoiceKind, BillingProvider, Role,
}
use hivepoint_backend.Usage.Store.{plan_of, is_for_product}
use hivepoint_backend.Billing.Store.{Db, Client, Config, Ack}
use hivepoint_backend.Billing.Retry.{clear_managed_retry_state}
use hivepoint_backend.Billing.Calendar.{add_utc_month}
use hivepoint_backend.Billing.Invoices.{
  InvoiceEvent, is_stripe, subscription_with_id, invoice_with_id, update_invoice,
  update_subscription, mark_invoice_failed, mark_invoice_paid,
}

pub record User : Type 0 where
  pub id : ℕ
  pub email : String
  pub role : Role

-- `CreatePaymentParams` of src/modules/billing/payment/payment.provider.ts
pub record PaymentParams : Type 0 where
  pub invoice_id : ℕ
  pub subscription_id : ℕ
  pub user_id : ℕ
  pub user_email : String
  pub plan_id : ℕ
  pub plan_name : String
  pub product_title : String
  pub amount_cents : ℕ
  pub currency : String
  pub setup_only : Bool

-- `CreatePaymentResult`
pub record Payment : Type 0 where
  pub payment_link : String
  pub external_payment_id : Option String

-- The active payment provider; what a call answers, an error included, is the provider's choice.
-- `schedule_cancel` is the Stripe provider's, for a subscription that Stripe holds; it answers the end
-- of the period, if it tells one.
pub record PaymentProvider : Type 0 where
  pub provider : BillingProvider
  pub create_payment : PaymentParams → Result Payment
  pub schedule_cancel : String → Result (Option (Option ℕ))

pub record SubscribeResponse : Type 0 where
  pub subscription_id : ℕ
  pub invoice_id : ℕ
  pub payment_link : String

abbrev pub is_published : ProductStatus → Bool
is_published s = elim s [ ProductStatus.published ↦ true | _ ↦ false ]

abbrev pub is_published_version : ℕ → ApiVersion → Bool
is_published_version product_id v =
    v.product_id == product_id && elim v.status [ VersionStatus.published ↦ true | _ ↦ false ]

abbrev pub is_active : SubscriptionStatus → Bool
is_active s = elim s [ SubscriptionStatus.active ↦ true | _ ↦ false ]

-- `status: {in: [ACTIVE, PENDING]}`
abbrev pub is_live : SubscriptionStatus → Bool
is_live s = elim s [
  | SubscriptionStatus.active ↦ true
  | SubscriptionStatus.pending ↦ true
  | _ ↦ false
]

-- The query for an existing subscription of the user to the product.
abbrev pub is_live_for : List Plan → ℕ → ℕ → Subscription → Bool
is_live_for plans user_id product_id s =
    s.user_id == user_id && (is_live s.status && is_for_product (plan_of plans s) product_id)

abbrev pub is_admin : Role → Bool
is_admin r = elim r [ Role.admin ↦ true | _ ↦ false ]

-- The two rows that `subscribe` creates.
unfoldable pub pending_subscription : ℕ → ℕ → ℕ → ℕ → BillingProvider → Subscription
pending_subscription now id user_id plan_id provider = record {
  id = id;
  user_id = user_id;
  plan_id = plan_id;
  payment_provider = provider;
  external_subscription_id = none;
  status = SubscriptionStatus.pending;
  current_period_start = none;
  current_period_end = none;
  grace_period_ends_at = none;
  cancel_at_period_end = false;
  created_at = now;
}

unfoldable pub draft_invoice : ℕ → ℕ → ℕ → Plan → BillingProvider → Invoice
draft_invoice now id subscription_id plan provider = record {
  id = id;
  subscription_id = subscription_id;
  payment_provider = provider;
  kind = InvoiceKind.subscription;
  external_checkout_session_id = none;
  external_invoice_id = none;
  overage_source_invoice_id = none;
  overage_processed_at = none;
  overage_requests = none;
  overage_units = none;
  amount_cents = plan.price_cents;
  currency = plan.currency;
  status = InvoiceStatus.draft;
  attempt_count = 0;
  next_payment_attempt_at = none;
  retry = clear_managed_retry_state;
  period_start = now;
  period_end = add_utc_month now;
  created_at = now;
}

-- The event of an invoice that names nothing but the invoice and the provider.
abbrev pub plain_event : ℕ → BillingProvider → InvoiceEvent
plain_event invoice_id provider = record {
  invoice_id = invoice_id;
  payment_provider = provider;
  external_checkout_session_id = none;
  external_invoice_id = none;
  external_subscription_id = none;
  invoice_status = none;
  attempt_count = none;
  next_payment_attempt_at = none;
}

-- `mockSucceed` and `mockFail`
pub mock_succeed : Config → Client → Db → ℕ → Result Db
mock_succeed config client db invoice_id = do
  (_, after) ← mark_invoice_paid config client db (plain_event invoice_id BillingProvider.mock)
  ok after

pub mock_fail : Config → Client → ℕ → Db → ℕ → Result Db
mock_fail config client now db invoice_id = do
  (_, after) ←
      mark_invoice_failed config client now db (plain_event invoice_id BillingProvider.mock)
  ok after

module _ (config : Config) (client : Client) (payments : PaymentProvider) where
  -- The checks before the transaction: the plan, with its product; a foreign key, so that is there.
  unfoldable pub check_plan : Db → ℕ → Result (Plan × ApiProduct)
  check_plan db plan_id = elim (client.plan.find_unique (λ p. p.id == plan_id) db.plans) [
    | none ↦ throw (app_error plan_not_found 404)
    | some plan ↦
        if not plan.is_active
        then throw (app_error plan_inactive 400)
        else elim (find (λ (p : ApiProduct). p.id == plan.product_id) db.products) [
          | none ↦ throw (app_error product_not_public 403)
          | some product ↦
              if not (is_published product.status)
              then throw (app_error product_not_public 403)
              else elim (client.api_version.find_first (is_published_version plan.product_id) []
                  db.versions) [
                    | none ↦ throw (app_error product_not_ready 409)
                    | some version ↦ ok (plan, product)
                  ]
        ]
  ]

  -- The transaction; `subscription_id` and `invoice_id` are the ids that the database draws.
  unfoldable pub open_subscription : ℕ → ℕ → ℕ → Db → Plan → User → Result Db
  open_subscription now subscription_id invoice_id db plan user =
      elim (client.subscription.find_first (is_live_for db.plans user.id plan.product_id) []
        db.subscriptions) [
          | some existing ↦ throw (
              app_error
                (if is_active existing.status then already_subscribed else subscription_pending)
                409)
          | none ↦
              elim (client.subscription.create
                (pending_subscription now subscription_id user.id plan.id payments.provider)
                db.subscriptions) [
                  | none ↦ throw (prisma_error p2002)
                  | some subscriptions ↦
                      elim (client.invoice.create
                        (draft_invoice now invoice_id subscription_id plan payments.provider)
                        db.invoices) [
                          | none ↦ throw (prisma_error p2002)
                          | some invoices ↦
                              ok (record db { subscriptions = subscriptions; invoices = invoices })
                        ]
                ]
        ]

  -- The `catch` behind `createPayment`: the invoice fails, and the error is thrown again.
  unfoldable pub abandon : ℕ → Db → ℕ → Failure → Result SubscribeResponse × Db
  abandon now db invoice_id e =
      elim (mark_invoice_failed config client now db (plain_event invoice_id payments.provider)) [
        | ok (ack, after) ↦ (throw e, after)
        | throw other ↦ (throw other, db)
      ]

  unfoldable pub request_payment :
      ℕ → ℕ → ℕ → Db → Plan → ApiProduct → User → Result SubscribeResponse × Db
  unfolding abandon
  request_payment now subscription_id invoice_id db plan product user =
      elim (payments.create_payment (record {
        invoice_id = invoice_id;
        subscription_id = subscription_id;
        user_id = user.id;
        user_email = user.email;
        plan_id = plan.id;
        plan_name = plan.name;
        product_title = product.title;
        amount_cents = plan.price_cents;
        currency = plan.currency;
        setup_only = is_stripe payments.provider && plan.price_cents == 0;
      })) [
        | throw e ↦ abandon now db invoice_id e
        | ok payment ↦ (
          ok (record {
            subscription_id = subscription_id;
            invoice_id = invoice_id;
            payment_link = payment.payment_link;
          }),
          if is_truthy payment.external_payment_id
              then update_invoice config client db invoice_id
                  (λ i. record i { external_checkout_session_id = payment.external_payment_id })
              else db,
        )
      ]

  -- What was written before an error is thrown stays written, so the tables come back with it.
  unfoldable pub subscribe : ℕ → ℕ → ℕ → Db → ℕ → User → Result SubscribeResponse × Db
  subscribe now subscription_id invoice_id db plan_id user = elim (check_plan db plan_id) [
    | throw e ↦ (throw e, db)
    | ok (plan, product) ↦ elim (open_subscription now subscription_id invoice_id db plan user) [
      | throw e ↦ (throw e, db)
      | ok opened ↦ request_payment now subscription_id invoice_id opened plan product user
    ]
  ]

  unfoldable pub mark_cancel : Db → ℕ → Option (Option ℕ) → Db
  mark_cancel db id period_end = update_subscription config client db id (λ s. record s {
    cancel_at_period_end = true;
    current_period_end = or_else period_end s.current_period_end;
  })

  unfoldable pub cancel_subscription : Db → ℕ → User → Result Db
  unfolding mark_cancel
  cancel_subscription db id user =
      elim (client.subscription.find_unique (subscription_with_id id) db.subscriptions) [
        | none ↦ throw (app_error subscription_not_found 404)
        | some subscription ↦
            if not (is_admin user.role) && not (subscription.user_id == user.id)
            then throw (app_error not_owner 403)
            else if is_stripe subscription.payment_provider
                && is_truthy subscription.external_subscription_id
            then elim (payments.schedule_cancel
                (or_else subscription.external_subscription_id "")) [
                  | throw e ↦ throw e
                  | ok period_end ↦ ok (mark_cancel db id period_end)
                ]
            else ok (mark_cancel db id none)
      ]
