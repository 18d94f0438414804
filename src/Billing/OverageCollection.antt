-- ===== src/Billing/OverageCollection.antt =====
-- src/modules/billing/billing-overage-collection.service.ts: what the usage of an elapsed period
-- costs over its quota becomes an invoice, and such invoices are collected. A subscription to a
-- free plan, which the provider does not know, is renewed or ended here too.

pub mod Collect
pub mod Worker
mod Rows
pub mod Collection
mod Tests
pub mod Settlement
use hivepoint_backend.Common.{
  ℕ, ◌+◌, ◌-◌, ◌*◌, String, Bool, true, false, Option, none, some, List, ◌&&◌, ◌||◌, ◌==◌, not, ltb,
  leb, find, is_some, is_truthy, or_else, if◌then◌else◌,
}
use Prim.Native.String.{◌++◌}
use hivepoint_backend.Errors.{Result, ok, throw, prisma_error, ◌>>=◌}
use hivepoint_backend.Prisma.{p2002}
use hivepoint_backend.Schema.{
  ApiProduct, Plan, PlanPeriod, Subscription, SubscriptionStatus, Invoice, InvoiceStatus,
  InvoiceKind, BillingProvider, UsageTables, same_key,
}
use hivepoint_backend.Usage.Aggregation.{UsageClient, sum_usage_for_window}
use hivepoint_backend.Usage.Overage.{is_zero_or_null, ceil_div}
use hivepoint_backend.Usage.Store.{plan_of}
use hivepoint_backend.Billing.Store.{Db, Client, Config}
use hivepoint_backend.Billing.Retry.{clear_managed_retry_state}
use hivepoint_backend.Billing.Calendar.{add_utc_month}
use hivepoint_backend.Billing.Invoices.{
  InvoiceEvent, is_stripe, is_paid, is_draft, is_overage, find_invoice, update_invoice,
  update_subscription, mark_invoice_paid, mark_invoice_failed,
}
use hivepoint_backend.Billing.RetryWorker.{PaymentResult, payment_event}

-- The result of `buildSettlement`.
pub record OverageSettlement : Type 0 where
  pub overage_requests : ℕ
  pub overage_units : ℕ
  pub amount_cents : ℕ

unfoldable pub build_settlement : Plan → ℕ → OverageSettlement
build_settlement plan used_requests =
    if not plan.allow_overage
      || (is_zero_or_null plan.overage_unit_requests
          || (is_zero_or_null plan.overage_price_cents || leb used_requests plan.quota_requests))
    then (record { overage_requests = 0; overage_units = 0; amount_cents = 0 })
    else (let overage_requests = used_requests - plan.quota_requests in
        let overage_units = ceil_div overage_requests (or_else plan.overage_unit_requests 0) in
        record {
          overage_requests = overage_requests;
          overage_units = overage_units;
          amount_cents = overage_units * or_else plan.overage_price_cents 0;
        })

unfoldable pub is_local_managed_stripe_subscription : Subscription → Plan → Bool
is_local_managed_stripe_subscription s plan =
    if not (is_stripe s.payment_provider)
      || (is_truthy s.external_subscription_id || not (plan.price_cents == 0))
    then false
    else is_some s.current_period_end

unfoldable pub add_plan_period : ℕ → PlanPeriod → ℕ
add_plan_period period_start PlanPeriod.month = add_utc_month period_start

abbrev pub is_canceled : SubscriptionStatus → Bool
is_canceled s = elim s [ SubscriptionStatus.canceled ↦ true | _ ↦ false ]

-- `derivedOverageInvoice`: the invoice whose unique `overageSourceInvoiceId` is the id.
abbrev pub derived_from : ℕ → Invoice → Bool
derived_from id i = same_key i.overage_source_invoice_id (some id)

-- What the transaction refuses.
abbrev pub is_unsettled_source : Invoice → Bool
is_unsettled_source i =
    not (is_overage i.kind)
    && (is_paid i.status && (is_stripe i.payment_provider && not (is_some i.overage_processed_at)))

-- What `invoice.create` writes of an overage; `now` is the default of `createdAt`.
abbrev pub overage_invoice : ℕ → ℕ → Invoice → Subscription → Plan → OverageSettlement → Invoice
overage_invoice now new_id source s plan settlement = record {
  id = new_id;
  subscription_id = s.id;
  payment_provider = BillingProvider.stripe;
  kind = InvoiceKind.overage;
  external_checkout_session_id = none;
  external_invoice_id = none;
  overage_source_invoice_id = some source.id;
  overage_processed_at = none;
  overage_requests = some settlement.overage_requests;
  overage_units = some settlement.overage_units;
  amount_cents = settlement.amount_cents;
  currency = plan.currency;
  status = InvoiceStatus.draft;
  attempt_count = 0;
  next_payment_attempt_at = none;
  retry = clear_managed_retry_state;
  period_start = source.period_start;
  period_end = source.period_end;
  created_at = now;
}

-- What `invoice.create` writes of a free renewal.
abbrev pub renewal_invoice : ℕ → ℕ → Invoice → Subscription → Plan → Invoice
renewal_invoice now new_id source s plan = record {
  id = new_id;
  subscription_id = s.id;
  payment_provider = BillingProvider.stripe;
  kind = InvoiceKind.subscription;
  external_checkout_session_id = none;
  external_invoice_id = none;
  overage_source_invoice_id = none;
  overage_processed_at = none;
  overage_requests = none;
  overage_units = none;
  amount_cents = plan.price_cents;
  currency = plan.currency;
  status = InvoiceStatus.paid;
  attempt_count = 0;
  next_payment_attempt_at = none;
  retry = clear_managed_retry_state;
  period_start = source.period_end;
  period_end = add_plan_period source.period_end plan.period;
  created_at = now;
}

module _ (config : Config) (client : Client) where
  -- `invoice.create`; a unique constraint aborts the transaction.
  unfoldable pub create_invoice : Db → Invoice → Result Db
  create_invoice db i = elim (client.invoice.create i db.invoices) [
    | none ↦ throw (prisma_error p2002)
    | some invoices ↦ ok (record db { invoices = invoices })
  ]

  -- The renewal of a free subscription, or its end.
  unfoldable pub renew_local : ℕ → ℕ → Db → Invoice → Subscription → Plan → Result Db
  renew_local now new_id db source s plan =
      let renewed = create_invoice db (renewal_invoice now new_id source s plan) in
      if not (is_local_managed_stripe_subscription s plan)
      then ok db
      else if s.cancel_at_period_end
      then ok (
          update_subscription config client db s.id (λ x. record x {
            status = SubscriptionStatus.canceled;
            cancel_at_period_end = false;
            grace_period_ends_at = none;
          }))
      else if is_canceled s.status
      then ok db
      else (renewed >>= λ after. ok (
          update_subscription config client after s.id (λ x. record x {
            status = SubscriptionStatus.active;
            current_period_start = some source.period_end;
            current_period_end = some (add_plan_period source.period_end plan.period);
            grace_period_ends_at = none;
          })))

  -- The overage invoice, where there is something to pay and none was made before.
  unfoldable pub create_overage :
      ℕ → ℕ → Db → Invoice → Subscription → Plan → OverageSettlement → Result Db
  create_overage now new_id db source s plan settlement =
      let created = create_invoice db (overage_invoice now new_id source s plan settlement) in
      if ltb 0 settlement.amount_cents
        && not (is_some (client.invoice.find_unique (derived_from source.id) db.invoices))
      then created
      else ok db

  abbrev pub processed_invoice : ℕ → Invoice → Invoice
  processed_invoice processed_at i = record i { overage_processed_at = some processed_at }

  module _ (usage_client : UsageClient) where
    -- The transaction, from the invoice with its plan on.
    unfoldable pub settle_source :
        ℕ → ℕ → ℕ → UsageTables → Db → Invoice → Subscription → Plan → Result (Bool × Db)
    settle_source processed_at overage_id renewal_id usage db i s plan = do
      let used = sum_usage_for_window usage_client usage s.id i.period_start i.period_end
      billed ← create_overage processed_at overage_id db i s plan (build_settlement plan used)
      renewed ← renew_local processed_at renewal_id billed i s plan
      ok (true, update_invoice config client renewed i.id (processed_invoice processed_at))

    -- The ids are those that the database gives to new rows. A subscription always has its plan.
    unfoldable pub materialize_source_invoice :
        ℕ → ℕ → ℕ → UsageTables → Db → ℕ → Result (Bool × Db)
    materialize_source_invoice processed_at overage_id renewal_id usage db id =
        elim (find_invoice config client db id) [
          | none ↦ ok (false, db)
          | some (i, s) ↦
              if not (is_unsettled_source i) then ok (false, db) else elim (plan_of db.plans s) [
                | none ↦ ok (false, db)
                | some plan ↦ settle_source processed_at overage_id renewal_id usage db i s plan
              ]
        ]
