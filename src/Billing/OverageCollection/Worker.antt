-- ===== src/Billing/OverageCollection/Worker.antt =====
-- The cycle of the overage collection: the lease, the invoices of elapsed periods, and the overage
-- invoices that wait to be collected.
use hivepoint_backend.Common.{
  ℕ, ◌+◌, ◌*◌, String, Bool, true, false, Option, none, some, List, [], ◌∷◌, ◌&&◌, not, leb, max,
  is_some, if◌then◌else◌,
}
use hivepoint_backend.Errors.{Failure, Result, ok, throw, prisma_error}
use hivepoint_backend.Prisma.{asc, p2034}
use hivepoint_backend.Schema.{Invoice, BillingProvider, UsageTables, BackgroundJobLease}
use hivepoint_backend.Lease.{take_lease}
use hivepoint_backend.Usage.Aggregation.{UsageClient}
use hivepoint_backend.Billing.Store.{Db, Client, Config}
use hivepoint_backend.Billing.Invoices.{is_stripe, is_paid, is_draft, is_overage}
use hivepoint_backend.Billing.RetryWorker.{WorkerClient}
use hivepoint_backend.Billing.OverageCollection.{materialize_source_invoice}
use hivepoint_backend.Billing.OverageCollection.Collect.{Provider, collect_overage_invoice}

-- The settings of the worker.
pub record WorkerConfig : Type 0 where
  pub payment_provider : BillingProvider
  pub billing_overage_collection_enabled : Bool
  pub billing_overage_collection_interval_seconds : ℕ
  pub billing_overage_collection_batch_size : ℕ

abbrev pub lease_name : String
lease_name = "billing:overage-collection"

-- The `where` of the first selection.
abbrev pub is_due_source : ℕ → Invoice → Bool
is_due_source now i =
    is_stripe i.payment_provider
    && (not (is_overage i.kind)
        && (is_paid i.status && (not (is_some i.overage_processed_at) && leb i.period_end now)))

-- The `where` of the second.
abbrev pub is_pending_overage : Invoice → Bool
is_pending_overage i =
    is_stripe i.payment_provider
    && (is_overage i.kind && (is_draft i.status && not (is_some i.external_invoice_id)))

-- What the three counters become after one call.
pub record Counts : Type 0 where
  pub materialized : ℕ
  pub collected : ℕ
  pub failed : ℕ

module _ (config : Config) (client : Client) (usage_client : UsageClient) (provider : Provider)
    (worker : WorkerConfig) where
  -- The first loop. A call that throws leaves the tables as they are. `fresh` are the ids that the
  -- database gives the rows that a source invoice gets.
  unfoldable pub materialize_all :
      (ℕ → ℕ × ℕ) → ℕ → UsageTables → List Invoice → Counts → Db → Counts × Db
  materialize_all fresh now usage [] counts db = (counts, db)
  materialize_all fresh now usage (i ∷ rest) counts db =
      let (overage_id, renewal_id) = fresh i.id in
      elim (materialize_source_invoice config client usage_client now overage_id renewal_id usage db
        i.id) [
          | throw e ↦
              materialize_all fresh now usage rest (record counts { failed = counts.failed + 1 }) db
          | ok (processed, after) ↦
              materialize_all fresh now usage rest
                (if processed
                  then record counts { materialized = counts.materialized + 1 }
                  else counts)
                after
        ]

  -- The second loop.
  unfoldable pub collect_all : ℕ → List Invoice → Counts → Db → Counts × Db
  collect_all now [] counts db = (counts, db)
  collect_all now (i ∷ rest) counts db =
      elim (collect_overage_invoice config client provider now db i.id) [
        | throw e ↦ collect_all now rest (record counts { failed = counts.failed + 1 }) db
        | ok (processed, after) ↦
            collect_all now rest
              (if processed then record counts { collected = counts.collected + 1 } else counts)
              after
      ]

  should_run : Bool
  should_run = is_stripe worker.payment_provider && worker.billing_overage_collection_enabled

  -- `fault` is the error with which the database aborts the transaction of the lease.
  unfoldable pub try_acquire_lease :
      WorkerClient
      → ℕ
      → ℕ
      → Option Failure
      → List BackgroundJobLease
      → Result (Bool × List BackgroundJobLease)
  try_acquire_lease wc now owner (some (prisma_error p2034)) leases = ok (false, leases)
  try_acquire_lease wc now owner (some e) leases = throw e
  try_acquire_lease wc now owner none leases = ok (
      take_lease wc.background_job_lease lease_name
        (max (worker.billing_overage_collection_interval_seconds * 2) 60 * 1000) now owner leases)

  unfoldable pub process_due_overage_collection :
      WorkerClient
      → (ℕ → ℕ × ℕ)
      → ℕ
      → ℕ
      → Option Failure
      → UsageTables
      → Db
      → List BackgroundJobLease
      → Result (Counts × Db × List BackgroundJobLease)
  unfolding should_run
  process_due_overage_collection wc fresh now owner fault usage db leases =
      let zeros : Counts = record { materialized = 0; collected = 0; failed = 0 } in
      if not should_run
      then ok (zeros, db, leases)
      else elim (try_acquire_lease wc now owner fault leases) [
        | throw e ↦ throw e
        | ok (false, after) ↦ ok (zeros, db, after)
        | ok (true, after) ↦
            let due =
              wc.find_many_invoices (is_due_source now)
                (asc (λ i. some i.period_end) ∷ asc (λ i. some i.created_at) ∷ [])
                worker.billing_overage_collection_batch_size db.invoices in
            let (counts, settled) = materialize_all fresh now usage due zeros db in
            let pending =
              wc.find_many_invoices is_pending_overage (asc (λ i. some i.created_at) ∷ [])
                worker.billing_overage_collection_batch_size settled.invoices in
            let (totals, collected) = collect_all now pending counts settled in
            ok (totals, collected, after)
      ]
