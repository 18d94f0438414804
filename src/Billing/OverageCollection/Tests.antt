-- ===== src/Billing/OverageCollection/Tests.antt =====
-- A period with 30 requests on a plan of 10, and 3 cents for each 8 further ones.
use hivepoint_backend.Common.{◌≡◌, refl, true, false, none, some, [], ◌∷◌, arith}
use hivepoint_backend.Prisma.Lists.{list_delegate}
use hivepoint_backend.Errors.{ok}
use hivepoint_backend.Schema.{
  Plan, Invoice, InvoiceStatus, InvoiceKind, BillingProvider, UsageTables, clash_usage_record,
  clash_daily, clash_endpoint_daily,
}
use hivepoint_backend.Usage.Aggregation.{UsageClient}
use hivepoint_backend.Usage.Aggregation.Invariant.{IsAggregated}
use hivepoint_backend.Usage.Aggregation.Windows.{window_usage}
use hivepoint_backend.Usage.Overage.{get_overage_state}
use hivepoint_backend.Billing.Store.{Db}
use hivepoint_backend.Billing.Fixtures.{config, client, plan, subscription, invoice, with_rows}
use hivepoint_backend.Billing.Invoices.{find_invoice}
use hivepoint_backend.Billing.RetryWorker.{PaymentResult}
use hivepoint_backend.Billing.OverageCollection.{build_settlement, materialize_source_invoice}
use hivepoint_backend.Billing.OverageCollection.Collect.{
  Provider, collect_overage_invoice, plan_and_title,
}
use hivepoint_backend.Billing.OverageCollection.Settlement.{
  build_settlement-agrees, IsSettled, materialize_source_invoice-IsSettled,
  materialize_source_invoice_once,
}
use hivepoint_backend.Billing.OverageCollection.Collection.{collect_overage_invoice_once}

abbrev usage_client : UsageClient
usage_client = record {
  usage_record = list_delegate clash_usage_record;
  usage_daily_aggregate = list_delegate clash_daily;
  usage_endpoint_daily_aggregate = list_delegate clash_endpoint_daily;
}

abbrev usage : UsageTables
usage = record {
  records =
      record {
        subscription_id = 7;
        source_job_id = none;
        aggregated_at = some 2000;
        occurred_at = 2000;
        endpoint = "/a";
        request_count = 30;
      }
      ∷ [];
  daily = record { subscription_id = 7; bucket_date = 0; request_count = 30 } ∷ [];
  endpoint_daily =
      record { subscription_id = 7; bucket_date = 0; endpoint = "/a"; request_count = 30 } ∷ [];
}

usage-IsAggregated : IsAggregated usage
usage-IsAggregated = record { days = λ sub p. refl; endpoint_days = λ sub e p. refl }

abbrev metered : Plan
metered = record plan {
  allow_overage = true;
  overage_unit_requests = some 8;
  overage_price_cents = some 3;
}

abbrev source : Invoice
source = record invoice {
  payment_provider = BillingProvider.stripe;
  status = InvoiceStatus.paid;
  period_start = 1000;
  period_end = 5000;
}

abbrev db : Db
db = record (with_rows subscription source) { plans = metered ∷ [] }

build_settlement_value :
    build_settlement metered 30
    ≡ record { overage_requests = 20; overage_units = 3; amount_cents = 9 }
unfolding build_settlement
build_settlement_value = refl

build_settlement-agrees_example :
    ((build_settlement metered 30).amount_cents
      ≡ (get_overage_state metered 30).projected_overage_amount_cents)
    × ((build_settlement metered 30).overage_requests
        ≡ (get_overage_state metered 30).overage_requests)
build_settlement-agrees_example = build_settlement-agrees metered 30

materialize_source_invoice-IsSettled_example :
    (db' : Db) × (materialize_source_invoice config client usage_client 6000 20 21 usage db 9
      ≡ ok (true, db'))
    × IsSettled 6000 source subscription
        (get_overage_state metered (window_usage usage 7 1000 5000))
        db'
unfolding find_invoice
materialize_source_invoice-IsSettled_example =
    materialize_source_invoice-IsSettled config client usage_client 6000 20 21 usage db 9 source
      subscription metered usage-IsAggregated refl refl refl refl refl refl (omega arith)

materialize_source_invoice_once_example :
    (db' : Db) × (materialize_source_invoice config client usage_client 6000 20 21 usage db 9
      ≡ ok (true, db'))
    × (materialize_source_invoice config client usage_client 6500 22 23 usage db' 9
        ≡ ok (false, db'))
unfolding find_invoice
materialize_source_invoice_once_example =
    materialize_source_invoice_once config client usage_client 6000 20 21 usage db 9 source
      subscription metered usage-IsAggregated refl refl refl refl refl refl (omega arith) 6500 22 23
      usage

abbrev answer : PaymentResult
answer = record {
  external_invoice_id = "in_2";
  external_subscription_id = none;
  status = InvoiceStatus.past_due;
  attempt_count = some 1;
  next_payment_attempt_at = none;
}

abbrev provider : Provider
provider = record {
  create_managed_invoice = λ input. ok answer;
  email_of = λ id. "a@b.c";
  number_text = λ n. "n";
  to_iso_string = λ n. "t";
}

abbrev waiting : Invoice
waiting = record invoice {
  payment_provider = BillingProvider.stripe;
  kind = InvoiceKind.overage;
  overage_source_invoice_id = some 8;
}

collect_overage_invoice_once_example :
    (db' : Db) × (collect_overage_invoice config client provider 6000
        (with_rows subscription waiting)
        9
      ≡ ok (true, db'))
    × (collect_overage_invoice config client provider 7000 db' 9 ≡ ok (false, db'))
unfolding find_invoice plan_and_title
collect_overage_invoice_once_example =
    collect_overage_invoice_once config client provider 6000 7000 provider
      (with_rows subscription waiting) 9 waiting subscription plan "maps" answer refl refl refl refl
