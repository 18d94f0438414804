-- ===== src/Usage/Aggregation.antt =====
-- src/modules/usage/usage-aggregation.service.ts: raw usage records with daily aggregates beside
-- them, and the sum over a window that reads whole days from the aggregates.
mod Sums
pub mod Invariant
pub mod Windows
mod Tests
use hivepoint_backend.Common.{
  ℕ, ◌+◌, String, Bool, true, false, Option, none, some, List, ◌&&◌, ◌==◌, str_eq, ltb, leb, not,
  is_some, or_else, if◌then◌else◌,
}
use hivepoint_backend.Prisma.{Delegate}
use hivepoint_backend.Schema.{
  UsageRecord, UsageDailyAggregate, UsageEndpointDailyAggregate, UsageTables, clash_usage_record,
  clash_daily, clash_endpoint_daily,
}
use hivepoint_backend.Usage.Days.{get_utc_day_start, full_days_start}

-- The delegates that the service calls.
pub record UsageClient : Type 0 where
  pub usage_record : Delegate clash_usage_record
  pub usage_daily_aggregate : Delegate clash_daily
  pub usage_endpoint_daily_aggregate : Delegate clash_endpoint_daily

pub record UsageRecordWriteInput : Type 0 where
  pub subscription_id : ℕ
  pub occurred_at : ℕ
  pub endpoint : String
  pub request_count : ℕ
  pub source_job_id : Option ℕ

-- `{subscriptionId, occurredAt: {gte, lt}}`
abbrev pub raw_in : ℕ → ℕ → ℕ → UsageRecord → Bool
raw_in subscription_id gte lt r =
    r.subscription_id == subscription_id && (leb gte r.occurred_at && ltb r.occurred_at lt)

-- `{subscriptionId, aggregatedAt: null, occurredAt: {gte, lt}}`
abbrev pub unaggregated_in : ℕ → ℕ → ℕ → UsageRecord → Bool
unaggregated_in subscription_id gte lt r =
    not (is_some r.aggregated_at) && raw_in subscription_id gte lt r

-- `{subscriptionId, bucketDate: {gte, lt}}`
abbrev pub days_in : ℕ → ℕ → ℕ → UsageDailyAggregate → Bool
days_in subscription_id gte lt a =
    a.subscription_id == subscription_id && (leb gte a.bucket_date && ltb a.bucket_date lt)

-- `subscriptionId_bucketDate`
abbrev pub on_day : ℕ → ℕ → UsageDailyAggregate → Bool
on_day subscription_id bucket_date a =
    a.subscription_id == subscription_id && a.bucket_date == bucket_date

-- `subscriptionId_bucketDate_endpoint`
abbrev pub on_endpoint_day : ℕ → ℕ → String → UsageEndpointDailyAggregate → Bool
on_endpoint_day subscription_id bucket_date endpoint a =
    a.subscription_id == subscription_id
    && (a.bucket_date == bucket_date && str_eq a.endpoint endpoint)

-- The row that `usageRecord.create` writes.
abbrev pub new_record : ℕ → UsageRecordWriteInput → UsageRecord
new_record aggregated_at input = record {
  subscription_id = input.subscription_id;
  source_job_id = input.source_job_id;
  aggregated_at = some aggregated_at;
  occurred_at = input.occurred_at;
  endpoint = input.endpoint;
  request_count = input.request_count;
}

module _ (client : UsageClient) where
  open client use {usage_record, usage_daily_aggregate, usage_endpoint_daily_aggregate}

  unfoldable pub upsert_daily :
      UsageRecordWriteInput → ℕ → List UsageDailyAggregate → List UsageDailyAggregate
  upsert_daily input bucket_date =
      usage_daily_aggregate.upsert (on_day input.subscription_id bucket_date)
        (record {
          subscription_id = input.subscription_id;
          bucket_date = bucket_date;
          request_count = input.request_count;
        })
        (λ a. record a { request_count = a.request_count + input.request_count })

  unfoldable pub upsert_endpoint_daily :
      UsageRecordWriteInput
      → ℕ
      → List UsageEndpointDailyAggregate
      → List UsageEndpointDailyAggregate
  upsert_endpoint_daily input bucket_date =
      usage_endpoint_daily_aggregate.upsert
        (on_endpoint_day input.subscription_id bucket_date input.endpoint)
        (record {
          subscription_id = input.subscription_id;
          bucket_date = bucket_date;
          endpoint = input.endpoint;
          request_count = input.request_count;
        })
        (λ a. record a { request_count = a.request_count + input.request_count })

  -- `now` is `new Date()`. None is the P2002 that `usageRecord.create` throws, and the transaction
  -- around the call is rolled back.
  unfoldable pub record_usage_in_transaction :
      ℕ → UsageTables → UsageRecordWriteInput → Option UsageTables
  unfolding upsert_daily upsert_endpoint_daily
  record_usage_in_transaction now db input =
      let bucket_date = get_utc_day_start input.occurred_at in
      let created = usage_record.create (new_record now input) db.records in
      elim created [
        | none ↦ none
        | some records ↦ some (record {
          records = records;
          daily = upsert_daily input bucket_date db.daily;
          endpoint_daily = upsert_endpoint_daily input bucket_date db.endpoint_daily;
        })
      ]

  unfoldable pub sum_raw_usage : UsageTables → (UsageRecord → Bool) → ℕ
  sum_raw_usage db w = or_else (usage_record.sum w (λ r. r.request_count) db.records) 0

  unfoldable pub sum_daily_aggregate_usage : UsageTables → (UsageDailyAggregate → Bool) → ℕ
  sum_daily_aggregate_usage db w =
      or_else (usage_daily_aggregate.sum w (λ a. a.request_count) db.daily) 0

  -- The three parts of the window: up to the first midnight, the whole days, and the rest.
  unfoldable pub sum_usage_for_window : UsageTables → ℕ → ℕ → ℕ → ℕ
  sum_usage_for_window db subscription_id period_start period_end =
      if leb period_end period_start
      then 0
      else (let full_start = full_days_start period_start in
          let full_end = get_utc_day_start period_end in
          let start_partial_end = if ltb full_start period_end then full_start else period_end in
          let end_partial_start =
            if ltb start_partial_end full_end then full_end else start_partial_end in
          (if ltb period_start start_partial_end
            then sum_raw_usage db (raw_in subscription_id period_start start_partial_end)
            else 0)
          + (if ltb full_start full_end
              then sum_daily_aggregate_usage db (days_in subscription_id full_start full_end)
                + sum_raw_usage db (unaggregated_in subscription_id full_start full_end)
              else 0)
          + (if ltb end_partial_start period_end
              then sum_raw_usage db (raw_in subscription_id end_partial_start period_end)
              else 0))
