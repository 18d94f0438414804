-- ===== src/Usage/Aggregation/Tests.antt =====
-- A window of two and a half days over a table with aggregated and unaggregated records.
use hivepoint_backend.Common.{ℕ, ◌≡◌, refl, Option, none, some, [], ◌∷◌}
use hivepoint_backend.Prisma.Lists.{list_delegate}
use hivepoint_backend.Schema.{
  UsageRecord, UsageTables, clash_usage_record, clash_daily, clash_endpoint_daily,
}
use hivepoint_backend.Usage.Days.{is_utc_day_boundary, full_days_start}
use hivepoint_backend.Usage.Aggregation.{
  UsageClient, UsageRecordWriteInput, new_record, record_usage_in_transaction, sum_usage_for_window,
  sum_raw_usage, sum_daily_aggregate_usage,
}
use hivepoint_backend.Usage.Aggregation.Invariant.{IsAggregated, record_usage-IsAggregated}
use hivepoint_backend.Usage.Aggregation.Windows.{window_usage, sum_usage_for_window-eq-window_usage}

abbrev client : UsageClient
client = record {
  usage_record = list_delegate clash_usage_record;
  usage_daily_aggregate = list_delegate clash_daily;
  usage_endpoint_daily_aggregate = list_delegate clash_endpoint_daily;
}

abbrev old_record : Option ℕ → ℕ → ℕ → UsageRecord
old_record aggregated_at occurred_at request_count = record {
  subscription_id = 7;
  source_job_id = some 4;
  aggregated_at = aggregated_at;
  occurred_at = occurred_at;
  endpoint = "/a";
  request_count = request_count;
}

abbrev db : UsageTables
db = record {
  records = old_record (some 0) 100000000 5 ∷ old_record none 120000000 3 ∷ [];
  daily = record { subscription_id = 7; bucket_date = 86400000; request_count = 5 } ∷ [];
  endpoint_daily =
      record { subscription_id = 7; bucket_date = 86400000; endpoint = "/a"; request_count = 5 }
      ∷ [];
}

db-IsAggregated : IsAggregated db
db-IsAggregated = record { days = λ sub p. refl; endpoint_days = λ sub e p. refl }

sum_usage_for_window_example :
    sum_usage_for_window client db 7 50000 200000000 ≡ window_usage db 7 50000 200000000
sum_usage_for_window_example =
    sum_usage_for_window-eq-window_usage db 7 client db-IsAggregated 50000 200000000

sum_usage_for_window_value : sum_usage_for_window client db 7 50000 200000000 ≡ 8
unfolding sum_usage_for_window sum_raw_usage sum_daily_aggregate_usage full_days_start
    is_utc_day_boundary
sum_usage_for_window_value = refl

abbrev input : UsageRecordWriteInput
input = record {
  subscription_id = 7;
  occurred_at = 100000500;
  endpoint = "/a";
  request_count = 2;
  source_job_id = some 9;
}

abbrev after : UsageTables
after = record {
  records = new_record 300 input ∷ db.records;
  daily = record { subscription_id = 7; bucket_date = 86400000; request_count = 7 } ∷ [];
  endpoint_daily =
      record { subscription_id = 7; bucket_date = 86400000; endpoint = "/a"; request_count = 7 }
      ∷ [];
}

record_usage-IsAggregated_example :
    IsAggregated after × (after.records ≡ new_record 300 input ∷ db.records)
unfolding record_usage_in_transaction
record_usage-IsAggregated_example =
    record_usage-IsAggregated client 300 db input after db-IsAggregated refl
