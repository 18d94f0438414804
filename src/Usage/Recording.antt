-- ===== src/Usage/Recording.antt =====
-- `recordUsage` and `ingestUsage` of src/modules/usage/usage.service.ts: usage that is reported after
-- the fact, recorded at once or queued for the worker.
pub mod Deferred
mod Tests
use hivepoint_backend.Common.{
  ℕ, String, Bool, Option, none, some, List, ◌∷◌, ◌==◌, or_else, if◌then◌else◌,
}
use hivepoint_backend.Errors.{
  Failure, Result, ok, throw, app_error, prisma_error, subscription_not_found,
  subscription_not_active, ◌>>=◌, ◌>>◌,
}
use hivepoint_backend.Prisma.{Delegate, p2002}
use hivepoint_backend.Schema.{UsageIngestJob, UsageIngestJobStatus, clash_job}
use hivepoint_backend.Usage.Aggregation.{UsageRecordWriteInput, record_usage_in_transaction}
use hivepoint_backend.Usage.Windows.{get_usage_window}
use hivepoint_backend.Usage.Store.{Db, Client, Config, RecordUsageInput}
use hivepoint_backend.Usage.Authorize.{assert_usage_secret}

-- The row that `usageIngestJob.create` writes, with the schema's defaults.
abbrev pub pending_job : ℕ → ℕ → UsageRecordWriteInput → UsageIngestJob
pending_job now id r = record {
  id = id;
  subscription_id = r.subscription_id;
  occurred_at = r.occurred_at;
  endpoint = r.endpoint;
  request_count = r.request_count;
  status = UsageIngestJobStatus.pending;
  attempts = 0;
  available_at = now;
  processed_at = none;
  last_error = none;
  created_at = now;
}

module _ (config : Config) (client : Client) (job_client : Delegate clash_job) where
  unfoldable pub validate_usage_record_input :
      ℕ → Db → RecordUsageInput → Result UsageRecordWriteInput
  validate_usage_record_input now db input =
      elim (client.subscription.find_unique (λ s. s.id == input.subscription_id) db.subscriptions) [
        | none ↦ throw (app_error subscription_not_found 404)
        | some subscription ↦
            let occurred_at = or_else input.occurred_at now in
            elim (get_usage_window subscription occurred_at) [
              | none ↦ throw (app_error subscription_not_active 400)
              | some window ↦ ok (record {
                subscription_id = subscription.id;
                occurred_at = occurred_at;
                endpoint = input.endpoint;
                request_count = input.request_count;
                source_job_id = none;
              })
            ]
      ]

  -- `recordUsage` of the aggregation is `recordUsageInTransaction` in a transaction of its own.
  unfoldable pub create_usage_record : ℕ → Db → RecordUsageInput → Result Db
  create_usage_record now db input = elim (validate_usage_record_input now db input) [
    | throw e ↦ throw e
    | ok validated ↦ elim (record_usage_in_transaction client.usage now db.usage validated) [
      | none ↦ throw (prisma_error p2002)
      | some usage ↦ ok (record db { usage = usage })
    ]
  ]

  -- `id` is the UUID that the database draws.
  unfoldable pub enqueue_usage_record :
      ℕ → ℕ → Db → List UsageIngestJob → RecordUsageInput → Result (List UsageIngestJob)
  enqueue_usage_record now id db jobs input = elim (validate_usage_record_input now db input) [
    | throw e ↦ throw e
    | ok validated ↦ elim (job_client.create (pending_job now id validated) jobs) [
      | none ↦ throw (prisma_error p2002)
      | some created ↦ ok created
    ]
  ]

  unfoldable pub ingest_usage :
      ℕ
      → ℕ
      → Db
      → List UsageIngestJob
      → RecordUsageInput
      → Option String
      → Result (Db × List UsageIngestJob)
  ingest_usage now id db jobs input provided =
      assert_usage_secret config client provided
      >> (if config.usage_ingest_queue_enabled
          then (do created ← enqueue_usage_record now id db jobs input; ok (db, created))
          else (do after ← create_usage_record now db input; ok (after, jobs)))
