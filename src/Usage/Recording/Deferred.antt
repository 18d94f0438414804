-- ===== src/Usage/Recording/Deferred.antt =====
-- A record that goes through the queue counts like one that is written at once.
use hivepoint_backend.Common.{
  ℕ, ◌≡◌, refl, Bool, true, false, String, Option, none, some, List, [], ◌∷◌, ◌∙◌, ap, any,
  sum_where, arith, inl, inr,
}
use hivepoint_backend.Errors.{ok, Result-cases}
use hivepoint_backend.Prisma.{Delegate}
use hivepoint_backend.Schema.{
  UsageRecord, UsageTables, UsageIngestJob, BackgroundJobLease, clash_job, clash_usage_record,
  same_key,
}
use hivepoint_backend.Usage.Days.{get_utc_day_start}
use hivepoint_backend.Usage.Aggregation.{
  UsageClient, UsageRecordWriteInput, new_record, raw_in, upsert_daily, upsert_endpoint_daily,
  record_usage_in_transaction,
}
use hivepoint_backend.Usage.Store.{Db, Client, Config, RecordUsageInput}
use hivepoint_backend.Usage.Authorize.{assert_usage_secret}
use hivepoint_backend.Usage.Ingest.{process_job, job_record, mark_job_processed}
use hivepoint_backend.Usage.Ingest as Ingest
use hivepoint_backend.Usage.Recording.{
  pending_job, validate_usage_record_input, create_usage_record, enqueue_usage_record, ingest_usage,
}

-- Two states of the usage tables that no sum tells apart: the same aggregates, and the same number
-- of raw requests of every subscription in every stretch of time.
pub record IsSameUsage (a b : UsageTables) : Type 0 where
  pub daily : a.daily ≡ b.daily
  pub endpoint_daily : a.endpoint_daily ≡ b.endpoint_daily
  pub raw :
      (sub gte lt : ℕ)
      → sum_where (raw_in sub gte lt) (λ r. r.request_count) a.records
        ≡ sum_where (raw_in sub gte lt) (λ r. r.request_count) b.records

-- A record without a source job is never refused.
source_free :
    (now : ℕ) (input : UsageRecordWriteInput) (rows : List UsageRecord)
    → input.source_job_id ≡ none
    → any (clash_usage_record (new_record now input)) rows ≡ false
source_free now input [] h = refl
source_free now input (r ∷ rows) h = ground (arith, h, source_free now input rows h)

-- The tables after a write that is not refused.
abbrev written : UsageClient → ℕ → UsageTables → UsageRecordWriteInput → UsageTables
written client now usage input = record {
  records = new_record now input ∷ usage.records;
  daily = upsert_daily client input (get_utc_day_start input.occurred_at) usage.daily;
  endpoint_daily =
      upsert_endpoint_daily client input (get_utc_day_start input.occurred_at) usage.endpoint_daily;
}

record_usage_accepts :
    (client : UsageClient) (now : ℕ) (usage : UsageTables) (input : UsageRecordWriteInput)
    → any (clash_usage_record (new_record now input)) usage.records ≡ false
    → record_usage_in_transaction client now usage input ≡ some (written client now usage input)
unfolding record_usage_in_transaction
record_usage_accepts client now usage input h =
    ground (arith, h, client.usage_record.create_lem (new_record now input) usage.records)

-- Two writes of the same request leave the same usage, whenever they are made and whichever job they
-- are made for.
written-IsSameUsage :
    (client : UsageClient) (now later id : ℕ) (usage : UsageTables) (input : UsageRecordWriteInput)
    → IsSameUsage
        (written client later usage (job_record (pending_job now id input)))
        (written client now usage input)
unfolding upsert_daily upsert_endpoint_daily
written-IsSameUsage client now later id usage input = record {
  daily = refl;
  endpoint_daily = refl;
  raw = λ sub gte lt. refl;
}

module _ (config : Config) (client : Client) (job_client : Delegate clash_job) where
  validated_source :
      (now : ℕ) (db : Db) (input : RecordUsageInput) (v : UsageRecordWriteInput)
      → validate_usage_record_input config client job_client now db input ≡ ok v
      → v.source_job_id ≡ none
  unfolding validate_usage_record_input
  validated_source now db input v e = ground arith

  create_validated :
      (now : ℕ) (db : Db) (input : RecordUsageInput) (v : UsageRecordWriteInput)
      → validate_usage_record_input config client job_client now db input ≡ ok v
      → create_usage_record config client job_client now db input
        ≡ ok (record db { usage = written client.usage now db.usage v })
  unfolding create_usage_record
  create_validated now db input v e =
      let accepted =
        record_usage_accepts client.usage now db.usage v
          (source_free now v db.usage.records (validated_source now db input v e)) in
      ground (arith, e, accepted)

  enqueue_validated :
      (now id : ℕ) (db : Db) (jobs queued : List UsageIngestJob) (input : RecordUsageInput)
      → enqueue_usage_record config client job_client now id db jobs input ≡ ok queued
      → (v : UsageRecordWriteInput) × (validate_usage_record_input config client job_client now db
            input
          ≡ ok v)
        × (queued ≡ pending_job now id v ∷ jobs)
  unfolding enqueue_usage_record
  enqueue_validated now id db jobs queued input e =
      elim (Result-cases (validate_usage_record_input config client job_client now db input)) [
        | inl (f, refused) ↦ absurd (ground (arith, refused))
        | inr (v, valid) ↦
            (v, valid, ground (arith, valid, job_client.create_lem (pending_job now id v) jobs))
      ]

-- Neither the validation nor the secret depends on the switch of the queue.
validated_alike :
    (a b : Config) (client : Client) (job_client : Delegate clash_job) (now : ℕ) (db : Db)
    (input : RecordUsageInput)
    → validate_usage_record_input a client job_client now db input
      ≡ validate_usage_record_input b client job_client now db input
unfolding validate_usage_record_input
validated_alike a b client job_client now db input = refl

secret_alike :
    (config : Config) (client : Client) (switched : Bool) (provided : Option String)
    → assert_usage_secret (record config { usage_ingest_queue_enabled = switched }) client provided
      ≡ assert_usage_secret config client provided
unfolding assert_usage_secret
secret_alike config client switched provided = refl

-- The tables of the worker, with the usage and the queue of the service.
abbrev pub worker_db : Db → List UsageIngestJob → List BackgroundJobLease → Ingest.Db
worker_db db jobs leases = record { usage = db.usage; jobs = jobs; leases = leases }

module _ (config : Config) (client : Client) (worker_config : Ingest.Config)
    (worker : Ingest.Client) (shared : worker.usage ≡ client.usage) where
  -- What the worker leaves of a queued job whose source is not recorded yet.
  processed_usage :
      (now later id : ℕ) (db : Db) (queued : List UsageIngestJob) (leases : List BackgroundJobLease)
      (v : UsageRecordWriteInput)
      → any (λ (r : UsageRecord). same_key (some id) r.source_job_id) db.usage.records ≡ false
      → (process_job worker_config worker later none
          (worker_db db queued leases)
          (pending_job now id v)).1.usage
        ≡ written client.usage later db.usage (job_record (pending_job now id v))
  unfolding process_job mark_job_processed
  processed_usage now later id db queued leases v fresh =
      let accepted : record_usage_in_transaction worker.usage later db.usage
            (job_record (pending_job now id v))
          ≡ some (written worker.usage later db.usage (job_record (pending_job now id v))) =
        record_usage_accepts worker.usage later db.usage (job_record (pending_job now id v))
          fresh in
      ground (arith, accepted)
      ∙ ap (λ (u : UsageClient). written u later db.usage (job_record (pending_job now id v)))
          shared

  -- The worker writes to the tables of the service. Where a report of usage is queued, under an id
  -- that no record names yet, the report would have been recorded if the queue were switched off; and
  -- once the worker has processed the job, at whatever date, the usage that is left is the same.
  pub ingest_usage_deferred :
      (now later id : ℕ) (db db' : Db) (jobs queued : List UsageIngestJob)
      (leases : List BackgroundJobLease) (input : RecordUsageInput) (provided : Option String)
      → ingest_usage
          (record config { usage_ingest_queue_enabled = true })
          client
          worker.usage_ingest_job
          now
          id
          db
          jobs
          input
          provided
        ≡ ok (db', queued)
      → any (λ (r : UsageRecord). same_key (some id) r.source_job_id) db.usage.records ≡ false
      → (job : UsageIngestJob) × (direct : Db) × (queued ≡ job ∷ jobs)
        × (db' ≡ db)
        × (ingest_usage
              (record config { usage_ingest_queue_enabled = false })
              client
              worker.usage_ingest_job
              now
              id
              db
              jobs
              input
              provided
            ≡ ok (direct, jobs))
        × IsSameUsage
            (process_job worker_config worker later none (worker_db db' queued leases) job).1.usage
            direct.usage
  unfolding ingest_usage
  ingest_usage_deferred now later id db db' jobs queued leases input provided e fresh =
      let on = record config { usage_ingest_queue_enabled = true } in
      let off = record config { usage_ingest_queue_enabled = false } in
      let job_client = worker.usage_ingest_job in
      elim (Result-cases (assert_usage_secret on client provided)) [
        | inl (f, refused) ↦ absurd (ground (arith, refused))
        | inr (_, allowed) ↦
            elim (Result-cases (enqueue_usage_record on client job_client now id db jobs input)) [
              | inl (f, refused) ↦ absurd (ground (arith, allowed, refused))
              | inr (q, created) ↦
                  let (v, valid, is_queued) =
                    enqueue_validated on client job_client now id db jobs q input created in
                  let same : queued ≡ pending_job now id v ∷ jobs =
                    ground (arith, allowed, created, is_queued) in
                  let kept : db' ≡ db = ground (arith, allowed, created) in
                  let direct = record db { usage = written client.usage now db.usage v } in
                  (
                    pending_job now id v,
                    direct,
                    same,
                    kept,
                    ground (
                      arith,
                      allowed,
                      secret_alike config client true provided,
                      secret_alike config client false provided,
                      create_validated off client job_client now db input v
                          (validated_alike off on client job_client now db input ∙ valid),
                    ),
                    simp (kept, processed_usage now later id db queued leases v fresh)
                        (written-IsSameUsage client.usage now later id db.usage v),
                  )
            ]
      ]
