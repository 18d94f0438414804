-- ===== src/Usage/Aggregation/Invariant.antt =====
-- The aggregates agree with the records that were aggregated, and a write keeps it so.
use hivepoint_backend.Common.{
  ℕ, String, ◌≡◌, Bool, none, some, ◌∷◌, ◌&&◌, ◌==◌, str_eq, is_some, sum_where, any, arith, true,
  ◌↔◌,
}
use hivepoint_backend.Schema.{UsageRecord, UsageTables, clash_usage_record}
use hivepoint_backend.Usage.Days.{get_utc_day_start}
use hivepoint_backend.Usage.Aggregation.{
  UsageClient, UsageRecordWriteInput, new_record, record_usage_in_transaction, upsert_daily,
  upsert_endpoint_daily,
}
use hivepoint_backend.Usage.Aggregation.Sums.{
  bucket_on, endpoint_bucket_on, sum_where-upsert_daily, sum_where-upsert_endpoint_daily,
}

-- The aggregated records of a subscription on the days that `p` chooses.
abbrev pub aggregated_on : ℕ → (ℕ → Bool) → UsageRecord → Bool
aggregated_on sub p r =
    is_some r.aggregated_at && (r.subscription_id == sub && p (get_utc_day_start r.occurred_at))

-- Those of one endpoint.
abbrev pub endpoint_aggregated_on : ℕ → String → (ℕ → Bool) → UsageRecord → Bool
endpoint_aggregated_on sub e p r =
    is_some r.aggregated_at
    && (r.subscription_id == sub && (str_eq r.endpoint e && p (get_utc_day_start r.occurred_at)))

-- For every subscription, endpoint and set of days, the aggregates sum to the aggregated records.
pub record IsAggregated (db : UsageTables) : Type 0 where
  pub days :
      (sub : ℕ) (p : ℕ → Bool)
      → sum_where (bucket_on sub p) (λ a. a.request_count) db.daily
        ≡ sum_where (aggregated_on sub p) (λ r. r.request_count) db.records
  pub endpoint_days :
      (sub : ℕ) (e : String) (p : ℕ → Bool)
      → sum_where (endpoint_bucket_on sub e p) (λ a. a.request_count) db.endpoint_daily
        ≡ sum_where (endpoint_aggregated_on sub e p) (λ r. r.request_count) db.records

module _ (client : UsageClient) (now : ℕ) (db : UsageTables) (input : UsageRecordWriteInput) where
  -- What a write that succeeds has written.
  pub record_usage_written :
      (db' : UsageTables)
      → record_usage_in_transaction client now db input ≡ some db'
      → (db'.records ≡ new_record now input ∷ db.records)
        × (db'.daily ≡ upsert_daily client input (get_utc_day_start input.occurred_at) db.daily)
        × (db'.endpoint_daily
            ≡ upsert_endpoint_daily client input
                (get_utc_day_start input.occurred_at)
                db.endpoint_daily)
  unfolding record_usage_in_transaction
  record_usage_written db' h =
      ground (arith, client.usage_record.create_lem (new_record now input) db.records)

  -- Where the aggregates agree with the aggregated records, a write that succeeds adds its record
  -- to the table, keeps the records that were there, and keeps the daily and the endpoint
  -- aggregates equal to the aggregated records.
  pub record_usage-IsAggregated :
      (db' : UsageTables)
      → IsAggregated db
      → record_usage_in_transaction client now db input ≡ some db'
      → IsAggregated db' × (db'.records ≡ new_record now input ∷ db.records)
  record_usage-IsAggregated db' v h =
      let (records, daily, endpoints) = record_usage_written db' h in
      let day = get_utc_day_start input.occurred_at in
      (
        record {
          days = λ sub p.
              rw (records, daily, sum_where-upsert_daily client input day)
                (ground (arith, v.days sub p));
          endpoint_days = λ sub e p.
              rw (records, endpoints, sum_where-upsert_endpoint_daily client input day)
                (ground (arith, v.endpoint_days sub e p));
        },
        records,
      )

  -- A write is refused exactly where a record with the same source job is there already.
  pub record_usage_refused_iff :
      (record_usage_in_transaction client now db input ≡ none)
      ↔ (any (clash_usage_record (new_record now input)) db.records ≡ true)
  unfolding record_usage_in_transaction
  record_usage_refused_iff =
      ground (arith, client.usage_record.create_lem (new_record now input) db.records)
