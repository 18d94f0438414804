-- ===== src/Billing/OverageCollection/Collect.antt =====
-- `collectOverageInvoice` of src/modules/billing/billing-overage-collection.service.ts.
use hivepoint_backend.Common.{
  ℕ, String, Bool, true, false, Option, none, some, ◌&&◌, ◌==◌, not, find, is_truthy, or_else,
  if◌then◌else◌,
}
use Prim.Native.String.{◌++◌}
use hivepoint_backend.Errors.{Result, ok, ◌>>=◌}
use hivepoint_backend.Schema.{ApiProduct, Plan, Subscription, Invoice}
use hivepoint_backend.Usage.Overage.{is_zero_or_null}
use hivepoint_backend.Usage.Store.{plan_of}
use hivepoint_backend.Billing.Store.{Db, Client, Config}
use hivepoint_backend.Billing.Invoices.{
  is_paid, is_draft, is_overage, find_invoice, mark_invoice_paid, mark_invoice_failed,
}
use hivepoint_backend.Billing.RetryWorker.{PaymentResult, payment_event}

-- The parameters of `createManagedInvoice`.
pub record ManagedInvoiceInput : Type 0 where
  pub invoice_id : ℕ
  pub external_subscription_id : Option String
  pub user_id : ℕ
  pub user_email : String
  pub amount_cents : ℕ
  pub currency : String
  pub description : String
  pub period_start : ℕ
  pub period_end : ℕ

-- The Stripe provider's call, which may fail; the user's address; and how JavaScript writes a
-- number and a date.
pub record Provider : Type 0 where
  pub create_managed_invoice : ManagedInvoiceInput → Result PaymentResult
  pub email_of : ℕ → String
  pub number_text : ℕ → String
  pub to_iso_string : ℕ → String

module _ (config : Config) (client : Client) where
  module _ (provider : Provider) where
    build_overage_description : Invoice → Plan → String → String
    build_overage_description i plan title =
        let suffix =
          if not (is_zero_or_null i.overage_requests) && not (is_zero_or_null i.overage_units)
          then " ("
            ++ provider.number_text (or_else i.overage_requests 0)
            ++ " requests across "
            ++ provider.number_text (or_else i.overage_units 0)
            ++ " units)"
          else "" in
        "Overage charges for "
        ++ title
        ++ " / "
        ++ plan.name
        ++ " from "
        ++ provider.to_iso_string i.period_start
        ++ " to "
        ++ provider.to_iso_string i.period_end
        ++ suffix

    pub managed_invoice_input : Invoice → Subscription → Plan → String → ManagedInvoiceInput
    unfolding build_overage_description
    managed_invoice_input i s plan title = record {
      invoice_id = i.id;
      external_subscription_id = s.external_subscription_id;
      user_id = s.user_id;
      user_email = provider.email_of s.user_id;
      amount_cents = i.amount_cents;
      currency = i.currency;
      description = build_overage_description i plan title;
      period_start = i.period_start;
      period_end = i.period_end;
    }

    -- What follows the provider's answer.
    unfoldable pub settle_collection : ℕ → Db → ℕ → PaymentResult → Result (Bool × Db)
    settle_collection now db id r =
        if is_paid r.status
        then (mark_invoice_paid config client db (payment_event id r) >>= λ answer.
            ok (true, answer.1))
        else (mark_invoice_failed config client now db (payment_event id r) >>= λ answer.
            ok (true, answer.1))

    -- The plan of a subscription and the title of its product, which are always there.
    unfoldable pub plan_and_title : Db → Subscription → Option (Plan × String)
    plan_and_title db s = elim (plan_of db.plans s) [
      | none ↦ none
      | some plan ↦ elim (find (λ (p : ApiProduct). p.id == plan.product_id) db.products) [
        | none ↦ none
        | some product ↦ some (plan, product.title)
      ]
    ]

    abbrev pub is_uncollected : Invoice → Bool
    is_uncollected i =
        is_overage i.kind && (is_draft i.status && not (is_truthy i.external_invoice_id))

    unfoldable pub collect_overage_invoice : ℕ → Db → ℕ → Result (Bool × Db)
    unfolding managed_invoice_input
    collect_overage_invoice now db id = elim (find_invoice config client db id) [
      | none ↦ ok (false, db)
      | some (i, s) ↦
          if not (is_uncollected i) then ok (false, db) else elim (plan_and_title db s) [
            | none ↦ ok (false, db)
            | some (plan, title) ↦
                (provider.create_managed_invoice (managed_invoice_input i s plan title) >>= λ r.
                settle_collection now db i.id r)
          ]
    ]
