-- ===== src/Usage/Ingest/Processed.antt =====
-- What one job leaves in the usage tables and in the queue.
use hivepoint_backend.Common.{
  ℕ, false, or_else, ◌≡◌, true, none, some, ◌∷◌, find, find-some, find-update_first, any, arith,
  Option-cases, inl, inr,
}
use hivepoint_backend.Errors.{ok}
use hivepoint_backend.Schema.{
  UsageTables, UsageRecord, same_key, UsageIngestJob, clash_usage_record,
}
use hivepoint_backend.Usage.Aggregation.{new_record, record_usage_in_transaction}
use hivepoint_backend.Usage.Aggregation.Invariant.{record_usage_refused_iff, record_usage_written}
use hivepoint_backend.Usage.Ingest.{
  Db, Client, Config, job_with_id, job_record, processed_job, process_job, mark_job_processed,
}

module _ (config : Config) (client : Client) where
  -- The usage tables behind a job that was processed without a fault.
  unfoldable pub usage_after : ℕ → UsageTables → UsageIngestJob → UsageTables
  usage_after now usage job =
      or_else (record_usage_in_transaction client.usage now usage (job_record job)) usage

  pub process_job-usage_after :
      (now : ℕ) (db : Db) (job : UsageIngestJob)
      → ((process_job config client now none db job).0 ≡ ok tt)
        × ((process_job config client now none db job).1.usage ≡ usage_after now db.usage job)
  unfolding process_job mark_job_processed usage_after
  process_job-usage_after now db job =
      elim (Option-cases (record_usage_in_transaction client.usage now db.usage (job_record job))) [
        | inl refused ↦ (ground (arith, refused), ground (arith, refused))
        | inr (usage, written) ↦ (ground (arith, written), ground (arith, written))
      ]

  -- The record of the job is there.
  pub usage_after-records :
      (now later : ℕ) (usage : UsageTables) (job : UsageIngestJob)
      → any
          (clash_usage_record (new_record later (job_record job)))
          (usage_after now usage job).records
        ≡ true
  unfolding usage_after
  usage_after-records now later usage job =
      elim (Option-cases (record_usage_in_transaction client.usage now usage (job_record job))) [
        | inl refused ↦
            ground
              (arith, refused, record_usage_refused_iff client.usage now usage (job_record job))
        | inr (after, written) ↦
            let (records, _, _) =
              record_usage_written client.usage now usage (job_record job) after written in
            ground (arith, written, records)
      ]

  -- Where the record of the job is there, processing it changes nothing.
  pub usage_after-again :
      (later : ℕ) (usage : UsageTables) (job : UsageIngestJob)
      → any (clash_usage_record (new_record later (job_record job))) usage.records ≡ true
      → usage_after later usage job ≡ usage
  unfolding usage_after
  usage_after-again later usage job there =
      ground (arith, (record_usage_refused_iff client.usage later usage (job_record job)).1 there)

  -- Where no record names the job, processing it writes one record, its own.
  pub usage_after-fresh :
      (now : ℕ) (usage : UsageTables) (job : UsageIngestJob)
      → any (λ (r : UsageRecord). same_key (some job.id) r.source_job_id) usage.records ≡ false
      → (usage_after now usage job).records ≡ new_record now (job_record job) ∷ usage.records
  unfolding usage_after
  usage_after-fresh now usage job fresh =
      elim (Option-cases (record_usage_in_transaction client.usage now usage (job_record job))) [
        | inl refused ↦ absurd (
            ground (
              arith,
              refused,
              fresh,
              record_usage_refused_iff client.usage now usage (job_record job),
            ))
        | inr (after, written) ↦
            let (records, _, _) =
              record_usage_written client.usage now usage (job_record job) after written in
            ground (arith, written, records)
      ]

  -- The row of a job that the database let through.
  pub process_job-done :
      (now : ℕ) (db : Db) (job j : UsageIngestJob)
      → find (job_with_id job.id) db.jobs ≡ some j
      → find (job_with_id job.id) (process_job config client now none db job).1.jobs
        ≡ some (processed_job now j)
  unfolding process_job mark_job_processed
  process_job-done now db job j found =
      let u = processed_job now in
      let w = job_with_id job.id in
      let table = client.usage_ingest_job.update_lem w u db.jobs in
      let row = find-update_first w u db.jobs j found (find-some w db.jobs j found) in
      elim (Option-cases (record_usage_in_transaction client.usage now db.usage (job_record job))) [
        | inl refused ↦ ground (arith, refused, table, row)
        | inr (usage, written) ↦ ground (arith, written, table, row)
      ]
