-- ===== src/Usage/Aggregation/Sums.antt =====
-- What the two upserts of `record_usage_in_transaction` add to the sums over the aggregates.
use hivepoint_backend.Common.{
  ℕ, ◌+◌, String, ◌≡◌, Bool, inl, inr, List, ◌&&◌, ◌==◌, str_eq, eq_iff, sum_where, any,
  sum_where-update_first, if◌then◌else◌, arith, Bool-cases,
}
use hivepoint_backend.Schema.{UsageDailyAggregate, UsageEndpointDailyAggregate}
use hivepoint_backend.Usage.Aggregation.{
  UsageClient, UsageRecordWriteInput, on_day, on_endpoint_day, upsert_daily, upsert_endpoint_daily,
}

-- The aggregates of a subscription on the days that `p` chooses.
abbrev pub bucket_on : ℕ → (ℕ → Bool) → UsageDailyAggregate → Bool
bucket_on sub p a = a.subscription_id == sub && p a.bucket_date

-- The aggregates of a subscription's endpoint on the days that `p` chooses.
abbrev pub endpoint_bucket_on : ℕ → String → (ℕ → Bool) → UsageEndpointDailyAggregate → Bool
endpoint_bucket_on sub e p a = a.subscription_id == sub && (str_eq a.endpoint e && p a.bucket_date)

module _ (client : UsageClient) (input : UsageRecordWriteInput) (day : ℕ) where
  pub sum_where-upsert_daily :
      (rows : List UsageDailyAggregate) (sub : ℕ) (p : ℕ → Bool)
      → sum_where (bucket_on sub p) (λ a. a.request_count) (upsert_daily client input day rows)
        ≡ sum_where (bucket_on sub p) (λ a. a.request_count) rows
          + (if input.subscription_id == sub && p day then input.request_count else 0)
  unfolding upsert_daily
  sum_where-upsert_daily rows sub p =
      rw (client.usage_daily_aggregate.upsert_lem)
        (elim (Bool-cases (any (on_day input.subscription_id day) rows)) [
          | inl hit ↦ rw hit (
              sum_where-update_first (λ a. a.request_count) (on_day input.subscription_id day)
                (bucket_on sub p)
                (λ a. record a { request_count = a.request_count + input.request_count })
                (if input.subscription_id == sub && p day then input.request_count else 0) rows hit
                (λ x e. ground arith))
          | inr miss ↦ rw miss (ground arith)
        ])

  pub sum_where-upsert_endpoint_daily :
      (rows : List UsageEndpointDailyAggregate) (sub : ℕ) (e : String) (p : ℕ → Bool)
      → sum_where
          (endpoint_bucket_on sub e p)
          (λ a. a.request_count)
          (upsert_endpoint_daily client input day rows)
        ≡ sum_where (endpoint_bucket_on sub e p) (λ a. a.request_count) rows
          + (if input.subscription_id == sub && (str_eq input.endpoint e && p day)
              then input.request_count
              else 0)
  unfolding upsert_endpoint_daily
  sum_where-upsert_endpoint_daily rows sub e p =
      rw (client.usage_endpoint_daily_aggregate.upsert_lem)
        (elim (Bool-cases (any (on_endpoint_day input.subscription_id day input.endpoint) rows)) [
          | inl hit ↦ rw hit (
              sum_where-update_first (λ a. a.request_count)
                (on_endpoint_day input.subscription_id day input.endpoint)
                (endpoint_bucket_on sub e p)
                (λ a. record a { request_count = a.request_count + input.request_count })
                (if input.subscription_id == sub && (str_eq input.endpoint e && p day)
                  then input.request_count
                  else 0)
                rows hit (λ x m. ground (arith, eq_iff x.endpoint input.endpoint)))
          | inr miss ↦ rw miss (ground arith)
        ])
