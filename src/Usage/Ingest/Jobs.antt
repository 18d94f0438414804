-- ===== src/Usage/Ingest/Jobs.antt =====
-- A job is recorded once, whatever fails and however often it is tried, and a failed one waits.
use hivepoint_backend.Common.{
  ℕ, ◌+◌, ap, ◌∙◌, false, if◌then◌else◌, sym, subst, ◌≤◌, ◌<◌, ◌≡◌, refl, Bool, true, Option, none,
  some, List, [], ◌∷◌, find, find-some, find-update_first, any, arith, Bool-cases, ◌≢◌,
  Option-cases, inl, inr, length,
}
use hivepoint_backend.Errors.{Failure, ok, throw, Result-cases}
use hivepoint_backend.Prisma.{OrderBy, asc}
use hivepoint_backend.Usage.Ingest.Lease.{try_acquire_lease_iff}
use hivepoint_backend.Schema.{
  UsageTables, UsageRecord, same_key, BackgroundJobLease, UsageIngestJob, UsageIngestJobStatus,
  clash_usage_record,
}
use hivepoint_backend.Usage.Aggregation.{new_record, raw_in, record_usage_in_transaction}
use hivepoint_backend.Usage.Aggregation.Windows.{window_usage}
use hivepoint_backend.Usage.Aggregation.Invariant.{IsAggregated, record_usage-IsAggregated}
use hivepoint_backend.Lease.{lease_named}
use hivepoint_backend.Usage.Ingest.{
  lease_name, Db, Client, Config, job_with_id, job_record, processed_job, process_job, process_jobs,
  is_due, try_acquire_lease, drain_queue, mark_job_failed, get_retry_delay_milliseconds,
}
use hivepoint_backend.Usage.Ingest.Processed.{
  usage_after, process_job-usage_after, usage_after-records, usage_after-again, usage_after-fresh,
  process_job-done,
}

module _ (config : Config) (client : Client) where
  -- A job in the queue whose transaction is aborted throws that error and records nothing; it is
  -- FAILED, with one more attempt, and due again in 30 to 300 seconds.
  pub process_job_aborted :
      (now : ℕ) (e : Failure) (db : Db) (job j : UsageIngestJob)
      → find (job_with_id job.id) db.jobs ≡ some j
      → (j' : UsageIngestJob) × ((process_job config client now (some e) db job).0 ≡ throw e)
        × ((process_job config client now (some e) db job).1.usage ≡ db.usage)
        × (find (job_with_id job.id) (process_job config client now (some e) db job).1.jobs
            ≡ some j')
        × (j'.status ≡ UsageIngestJobStatus.failed)
        × (j'.attempts ≡ job.attempts + 1)
        × (now + 30000 ≤ j'.available_at)
        × (j'.available_at ≤ now + 300000)
  unfolding process_job mark_job_failed get_retry_delay_milliseconds
  process_job_aborted now e db job j found =
      let attempts = job.attempts + 1 in
      let u : UsageIngestJob → UsageIngestJob = λ j. record j {
        status = UsageIngestJobStatus.failed;
        attempts = attempts;
        available_at = now + get_retry_delay_milliseconds attempts;
        last_error = some (config.describe_error e);
      } in
      let w = job_with_id job.id in
      let table = client.usage_ingest_job.update_lem w u db.jobs in
      (
        u j,
        refl,
        refl,
        simp table (find-update_first w u db.jobs j found (find-some w db.jobs j found)),
        refl,
        refl,
        ground arith,
        ground arith,
      )

  -- A job of the queue that no record names yet, and that the database lets through, is recorded
  -- once. It is answered without an error, and becomes PROCESSED; one record is added, which has
  -- the job's subscription, date, endpoint and count and names the job, so that the usage of every
  -- window grows by the count exactly where it is the job's. Processed again (its worker died, or
  -- two workers took it), it is answered without an error and the usage tables stay as they are.
  pub process_job_twice :
      (now later : ℕ) (db : Db) (job j : UsageIngestJob)
      → find (job_with_id job.id) db.jobs ≡ some j
      → any (λ (r : UsageRecord). same_key (some job.id) r.source_job_id) db.usage.records ≡ false
      → let first = process_job config client now none db job in
        let rerun = process_job config client later none first.1 job in
        (first.0 ≡ ok tt)
        × ((j' : UsageIngestJob) × (find (job_with_id job.id) first.1.jobs ≡ some j')
            × (j'.status ≡ UsageIngestJobStatus.processed))
        × (first.1.usage.records
            ≡ record {
              subscription_id = job.subscription_id;
              source_job_id = some job.id;
              aggregated_at = some now;
              occurred_at = job.occurred_at;
              endpoint = job.endpoint;
              request_count = job.request_count;
            }
              ∷ db.usage.records)
        × ((sub gte lt : ℕ)
            → window_usage first.1.usage sub gte lt
              ≡ (if raw_in sub gte lt (new_record now (job_record job))
                  then job.request_count
                  else 0)
                + window_usage db.usage sub gte lt)
        × (rerun.0 ≡ ok tt)
        × (rerun.1.usage ≡ first.1.usage)
  process_job_twice now later db job j found fresh =
      let once = (process_job config client now none db job).1 in
      let (fine, first) = process_job-usage_after config client now db job in
      let (again, second) = process_job-usage_after config client later once job in
      let there = usage_after-records config client now later db.usage job in
      let records : once.usage.records ≡ new_record now (job_record job) ∷ db.usage.records =
        ap (λ (u : UsageTables). u.records) first
        ∙ usage_after-fresh config client now db.usage job fresh in
      (
        fine,
        (processed_job now j, process_job-done config client now db job j found, refl),
        records,
        λ sub gte lt. rw records refl,
        again,
        second
            ∙ usage_after-again config client later once.usage job (
                subst
                  (λ (u : UsageTables).
                    any (clash_usage_record (new_record later (job_record job))) u.records ≡ true)
                  (sym first) there),
      )

  process_job-IsAggregated :
      (now : ℕ) (fault : Option Failure) (db : Db) (job : UsageIngestJob)
      → IsAggregated db.usage
      → IsAggregated (process_job config client now fault db job).1.usage
  unfolding process_job mark_job_failed usage_after
  process_job-IsAggregated now (some e) db job v = v
  process_job-IsAggregated now none db job v =
      let (_, after) = process_job-usage_after config client now db job in
      elim (Option-cases (record_usage_in_transaction client.usage now db.usage (job_record job))) [
        | inl refused ↦
            let same : (process_job config client now none db job).1.usage ≡ db.usage =
              ground (arith, after, refused) in
            subst IsAggregated (sym same) v
        | inr (usage, written) ↦
            let same : (process_job config client now none db job).1.usage ≡ usage =
              ground (arith, after, written) in
            subst IsAggregated (sym same)
              (record_usage-IsAggregated client.usage now db.usage (job_record job) usage v
                written).0
      ]

  process_jobs-IsAggregated :
      (now : ℕ) (faults : ℕ → Option Failure) (db : Db) (jobs : List UsageIngestJob)
      → IsAggregated db.usage
      → IsAggregated (process_jobs config client now faults db jobs).2.usage
        × ((process_jobs config client now faults db jobs).0
              + (process_jobs config client now faults db jobs).1
            ≡ length jobs)
  unfolding process_jobs
  process_jobs-IsAggregated now faults db [] v = (v, refl)
  process_jobs-IsAggregated now faults db (job ∷ jobs) v =
      let after = (process_job config client now (faults job.id) db job).1 in
      let (kept, counted) =
        process_jobs-IsAggregated now faults after jobs
          (process_job-IsAggregated now (faults job.id) db job v) in
      elim (Result-cases (process_job config client now (faults job.id) db job).0) [
        | inl (e, failed) ↦ rw (failed, process_jobs) (kept, omega (arith, counted))
        | inr (_, answered) ↦ rw (answered, process_jobs) (kept, omega (arith, counted))
      ]

  -- Where the aggregates agree with the aggregated records, and if `findMany` takes no more rows
  -- than it is told, a run of the worker, whatever fails in it, handles at most a batch of jobs
  -- and keeps the aggregates equal to the aggregated records.
  pub drain_queue-IsAggregated :
      (now owner : ℕ) (faults : ℕ → Option Failure) (db : Db)
      → ((w : UsageIngestJob → Bool) (o : List (OrderBy UsageIngestJob)) (n : ℕ)
            (rows : List UsageIngestJob)
          → length (client.find_many_jobs w o n rows) ≤ n)
      → IsAggregated db.usage
      → IsAggregated (drain_queue config client now owner faults db).2.usage
        × ((drain_queue config client now owner faults db).0
              + (drain_queue config client now owner faults db).1
            ≤ config.usage_ingest_queue_batch_size)
  unfolding drain_queue
  drain_queue-IsAggregated now owner faults db takes v =
      let o : List (OrderBy UsageIngestJob) =
        asc (λ j. some j.available_at) ∷ asc (λ j. some j.created_at) ∷ [] in
      let jobs =
        client.find_many_jobs (is_due now) o config.usage_ingest_queue_batch_size db.jobs in
      let leases = (try_acquire_lease config client now owner db.leases).1 in
      let (kept, counted) =
        process_jobs-IsAggregated now faults (record db { leases = leases }) jobs v in
      let most = takes (is_due now) o config.usage_ingest_queue_batch_size db.jobs in
      elim (Bool-cases config.usage_ingest_queue_enabled) [
        | inr off ↦ simp off (v, omega arith)
        | inl on ↦ elim (Bool-cases (try_acquire_lease config client now owner db.leases).0) [
          | inr excluded ↦ simp (on, excluded) (v, omega arith)
          | inl acquired ↦ simp (on, acquired) (kept, omega (arith, counted, most))
        ]
      ]

  -- A worker that comes while another one holds the lease does nothing.
  pub drain_queue_excluded :
      (now owner : ℕ) (faults : ℕ → Option Failure) (db : Db) (l : BackgroundJobLease)
      → find (lease_named lease_name) db.leases ≡ some l
      → l.owner_id ≢ owner
      → now < l.expires_at
      → drain_queue config client now owner faults db ≡ (0, 0, db)
  unfolding drain_queue
  drain_queue_excluded now owner faults db l found differs before = ground (
    arith,
    try_acquire_lease_iff config client now owner db.leases l found,
    Bool-cases (try_acquire_lease config client now owner db.leases).0,
  )
