-- ===== src/Billing/Webhooks.antt =====
-- src/modules/billing/stripe-webhooks.service.ts and stripe-subscription-period.ts: what Stripe tells
-- of checkouts, invoices and subscriptions is passed on to the synchronisation.
pub mod Accepted
mod Tests
use hivepoint_backend.Common.{
  ℕ, ◌*◌, String, Bool, true, false, Option, none, some, List, [], ◌∷◌, ◌&&◌, ◌||◌, ◌==◌, not, min,
  max, or_else, is_some, is_truthy, str_eq, if◌then◌else◌,
}
use hivepoint_backend.Errors.{
  Failure, ErrorCode, Result, ok, throw, app_error, invoice_not_found, subscription_not_found,
  stripe_webhook_invalid,
}
use hivepoint_backend.Schema.{InvoiceStatus, SubscriptionStatus, BillingProvider}
use hivepoint_backend.Billing.Store.{Db, Client, Config, Ack}
use hivepoint_backend.Billing.Invoices.{InvoiceEvent, mark_invoice_paid, mark_invoice_failed}
use hivepoint_backend.Billing.Sync.{
  ExternalInvoice, ExternalSubscription, sync_invoice_from_external,
  mark_subscription_canceled_by_external_id, sync_subscription_from_external,
  record_external_checkout,
}

-- The fields of `Stripe.Checkout.Session` that are read. A subscription that is not a text is none.
pub record Session : Type 0 where
  pub id : String
  pub metadata_invoice_id : Option ℕ
  pub subscription : Option String
  pub setup : Bool

-- Those of `Stripe.Invoice`; times are seconds. `details` are the subscription's, and
-- `details_invoice_id` their metadata.
pub record StripeInvoice : Type 0 where
  pub id : String
  pub metadata_invoice_id : Option ℕ
  pub subscription : Option String
  pub details_invoice_id : Option ℕ
  pub billing_reason : String
  pub total : ℕ
  pub currency : String
  pub period_start : ℕ
  pub period_end : ℕ
  pub attempt_count : Option ℕ
  pub next_payment_attempt : Option ℕ

pub data StripeStatus : Type 0 where
  active trialing canceled past_due unpaid other_status : StripeStatus

-- The period of an item of a subscription, either end of which may be missing.
pub record ItemPeriod : Type 0 where
  pub start : Option ℕ
  pub end : Option ℕ

pub record StripeSubscription : Type 0 where
  pub id : String
  pub cancel_at_period_end : Bool
  pub status : StripeStatus
  pub items : List ItemPeriod

-- The events that are told apart; `invoice_draft` is `invoice.created` and `invoice.finalized`.
pub data Event : Type 0 where
  checkout_completed checkout_expired : Session → Event
  invoice_draft invoice_paid invoice_payment_failed : StripeInvoice → Event
  subscription_updated : StripeSubscription → Event
  subscription_deleted : String → Event
  other_event : Event

-- The Stripe client: the check of a signature with the event that was signed, and the invoice id in a
-- subscription's metadata, which may fail; and `toUpperCase`.
pub record Stripe : Type 0 where
  pub construct_webhook_event : String → String → Result Event
  pub subscription_invoice_id : String → Result (Option ℕ)
  pub to_upper_case : String → String

-- The items with both ends, as pairs.
abbrev pub item_periods : List ItemPeriod → List (ℕ × ℕ)
item_periods [] = []
item_periods (item ∷ items) = elim item.start [
  | none ↦ item_periods items
  | some start ↦ elim item.end [
    | none ↦ item_periods items
    | some end ↦ (start, end) ∷ item_periods items
  ]
]

-- `Math.min` of the starts and `Math.max` of the ends.
abbrev pub least_start : ℕ → List (ℕ × ℕ) → ℕ
least_start n [] = n
least_start n ((start, end) ∷ rest) = min n (least_start start rest)

abbrev pub greatest_end : ℕ → List (ℕ × ℕ) → ℕ
greatest_end n [] = n
greatest_end n ((start, end) ∷ rest) = max n (greatest_end end rest)

unfoldable pub extract_stripe_subscription_period : List ItemPeriod → Option ℕ × Option ℕ
extract_stripe_subscription_period items = elim (item_periods items) [
  | [] ↦ (none, none)
  | (start, end) ∷ rest ↦
      (some (least_start start rest * 1000), some (greatest_end end rest * 1000))
]

abbrev pub map_stripe_subscription_status : StripeStatus → SubscriptionStatus
map_stripe_subscription_status StripeStatus.active = SubscriptionStatus.active
map_stripe_subscription_status trialing = SubscriptionStatus.active
map_stripe_subscription_status StripeStatus.canceled = SubscriptionStatus.canceled
map_stripe_subscription_status StripeStatus.past_due = SubscriptionStatus.past_due
map_stripe_subscription_status unpaid = SubscriptionStatus.past_due
map_stripe_subscription_status other_status = SubscriptionStatus.pending

-- `ignoreNotFound`
abbrev pub ignore_not_found : Failure → Result (Unit {0})
ignore_not_found (app_error invoice_not_found status) = ok tt
ignore_not_found (app_error subscription_not_found status) = ok tt
ignore_not_found e = throw e

-- A call in a `try` whose `catch` ignores what is not found; what was written before it stays.
abbrev pub trying {ℓ} : {A : Type ℓ} → Result A → (A → Db) → Db → Result (Unit {0}) × Db
trying (ok a) after before = (ok tt, after a)
trying (throw e) after before = (ignore_not_found e, before)

unfoldable pub should_allow_metadata_invoice_id : StripeInvoice → Bool
should_allow_metadata_invoice_id invoice =
    is_some invoice.metadata_invoice_id
    || (str_eq invoice.billing_reason "subscription"
        || str_eq invoice.billing_reason "subscription_create")

-- The event that both handlers of a checkout pass on.
abbrev pub session_event : ℕ → Session → Option String → InvoiceEvent
session_event invoice_id session subscription = record {
  invoice_id = invoice_id;
  payment_provider = BillingProvider.stripe;
  external_checkout_session_id = some session.id;
  external_invoice_id = none;
  external_subscription_id = subscription;
  invoice_status = none;
  attempt_count = none;
  next_payment_attempt_at = none;
}

-- A date in seconds that may be missing; 0 is falsy.
abbrev pub date_of_seconds : Option ℕ → Option ℕ
date_of_seconds none = none
date_of_seconds (some n) = if n == 0 then none else some (n * 1000)

module _ (config : Config) (client : Client) (stripe : Stripe) where
  unfoldable pub handle_checkout_completed : Db → Session → Result (Unit {0}) × Db
  handle_checkout_completed db session = elim session.metadata_invoice_id [
    | none ↦ (ok tt, db)
    | some invoice_id ↦
        elim (record_external_checkout config client db invoice_id BillingProvider.stripe
          (some session.id) session.subscription) [
            | throw e ↦ (ignore_not_found e, db)
            | ok recorded ↦
                if session.setup || not (is_some session.subscription)
                then trying
                    (mark_invoice_paid config client recorded
                      (session_event invoice_id session none))
                    (λ answer. answer.1) recorded
                else (ok tt, recorded)
          ]
  ]

  unfoldable pub handle_checkout_expired : ℕ → Db → Session → Result (Unit {0}) × Db
  handle_checkout_expired now db session = elim session.metadata_invoice_id [
    | none ↦ (ok tt, db)
    | some invoice_id ↦
        trying
          (mark_invoice_failed config client now db
            (session_event invoice_id session session.subscription))
          (λ answer. answer.1) db
  ]

  -- The metadata are read first of the invoice, then of its details, then of the subscription.
  unfoldable pub resolve_metadata_invoice_id : StripeInvoice → Result (Option ℕ)
  resolve_metadata_invoice_id invoice =
      if is_some invoice.metadata_invoice_id
      then ok invoice.metadata_invoice_id
      else if is_some invoice.details_invoice_id
      then ok invoice.details_invoice_id
      else if not (should_allow_metadata_invoice_id invoice) || not (is_truthy invoice.subscription)
      then ok none
      else stripe.subscription_invoice_id (or_else invoice.subscription "")

  abbrev pub external_invoice : StripeInvoice → InvoiceStatus → Option ℕ → ExternalInvoice
  external_invoice invoice status metadata_invoice_id = record {
    payment_provider = BillingProvider.stripe;
    external_invoice_id = invoice.id;
    external_subscription_id = invoice.subscription;
    external_checkout_session_id = none;
    metadata_invoice_id = metadata_invoice_id;
    allow_metadata_invoice_id = should_allow_metadata_invoice_id invoice;
    amount_cents = invoice.total;
    currency = stripe.to_upper_case invoice.currency;
    period_start = invoice.period_start * 1000;
    period_end = invoice.period_end * 1000;
    status = status;
    attempt_count = some (or_else invoice.attempt_count 0);
    next_payment_attempt_at = date_of_seconds invoice.next_payment_attempt;
  }

  -- The metadata are read outside of the `try`. `new_id` is the id that the database draws.
  unfoldable pub sync_invoice : ℕ → ℕ → Db → StripeInvoice → InvoiceStatus → Result (Unit {0}) × Db
  sync_invoice now new_id db invoice status = elim (resolve_metadata_invoice_id invoice) [
    | throw e ↦ (throw e, db)
    | ok metadata_invoice_id ↦
        trying
          (sync_invoice_from_external config client now new_id db
            (external_invoice invoice status metadata_invoice_id))
          (λ answer. answer.1) db
  ]

  unfoldable pub handle_subscription_updated : ℕ → Db → StripeSubscription → Result (Unit {0}) × Db
  handle_subscription_updated now db subscription =
      let (start, end) = extract_stripe_subscription_period subscription.items in
      trying
        (sync_subscription_from_external config client now db (record {
          external_subscription_id = subscription.id;
          cancel_at_period_end = subscription.cancel_at_period_end;
          status = some (map_stripe_subscription_status subscription.status);
          current_period_start = some start;
          current_period_end = some end;
        }))
        (λ after. after) db

  unfoldable pub handle_event : ℕ → ℕ → Db → Event → Result (Unit {0}) × Db
  handle_event now new_id db (checkout_completed session) = handle_checkout_completed db session
  handle_event now new_id db (checkout_expired session) = handle_checkout_expired now db session
  handle_event now new_id db (invoice_draft invoice) =
      sync_invoice now new_id db invoice InvoiceStatus.draft
  handle_event now new_id db (invoice_paid invoice) =
      sync_invoice now new_id db invoice InvoiceStatus.paid
  handle_event now new_id db (invoice_payment_failed invoice) =
      sync_invoice now new_id db invoice InvoiceStatus.past_due
  handle_event now new_id db (subscription_updated subscription) =
      handle_subscription_updated now db subscription
  handle_event now new_id db (subscription_deleted external_id) =
      trying (mark_subscription_canceled_by_external_id config client db external_id)
        (λ after. after) db
  handle_event now new_id db other_event = (ok tt, db)

  unfoldable pub handle_webhook :
      ℕ → ℕ → Db → Option String → Option String → Result (Unit {0}) × Db
  handle_webhook now new_id db raw_body signature_header =
      if not (is_some raw_body) || not (is_truthy signature_header)
      then (throw (app_error stripe_webhook_invalid 400), db)
      else elim (stripe.construct_webhook_event (or_else raw_body "")
          (or_else signature_header "")) [
            | throw e ↦ (throw e, db)
            | ok event ↦ handle_event now new_id db event
          ]
