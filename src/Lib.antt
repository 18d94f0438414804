-- ===== src/Lib.antt =====
-- The backend of an API marketplace (TypeScript, NestJS over PostgreSQL by Prisma): sellers publish
-- API products with plans, buyers subscribe, and a gateway meters every request. Modelled is what
-- decides who may send a request, what is counted, and what a payment changes.
--
-- The parts and their files:
--   Usage/Days, Usage/Aggregation: src/modules/usage/usage-aggregation.service.ts. Raw records with
--     daily aggregates beside them (`recordUsageInTransaction`), and the sum over a window that
--     reads the whole days from the aggregates (`sumUsageForWindow`). Aggregation/Invariant has what
--     the tables keep, Aggregation/Windows what the sum is.
--   Usage/Windows, Usage/Overage, Usage/Store, Usage/Authorize: src/modules/usage/usage.service.ts.
--     The window of access of a subscription (`getUsageWindow`), the billed overage
--     (`getOverageState`) and the authorization of a request, as a preview
--     (`authorizeUsageInternal`) and with consumption (`authorizeUsageWithConsumption`), which writes
--     through Usage/Aggregation.
--   Usage/Recording: of the same file, usage that is reported (`ingestUsage`), recorded at once or
--     queued as a job.
--   Usage/Ingest: src/modules/usage/usage-ingest-worker.service.ts. The queue of records that wait,
--     with the lease of its worker and its retries; it writes through Usage/Aggregation.
--   Gateway/Burst: src/modules/gateway/gateway-burst-limiter.service.ts. A token bucket for each key.
--   Billing/Retry: src/modules/billing/billing-managed-retry.policy.ts.
--   Billing/Grace, Billing/Calendar, Billing/Invoices, Billing/Sync, Billing/Subscriptions:
--     src/modules/billing/subscriptions.service.ts. A checkout (`subscribe`), payments and failures
--     of invoices (`markInvoicePaid`, `markInvoiceFailed`), what the provider reports
--     (`syncInvoiceFromExternal` and its like) and cancellation. The subscriptions that they leave
--     are those whose window Usage/Windows computes.
--   Billing/RetryWorker: src/modules/billing/billing-managed-retry.service.ts. Failed renewals are
--     tried again (`processDueRetries`); each attempt ends in the handlers of Billing/Invoices.
--   Billing/OverageCollection: src/modules/billing/billing-overage-collection.service.ts. The usage
--     of an elapsed period over its quota becomes an invoice (`materializeSourceInvoice`), by the sum
--     of Usage/Aggregation, and is collected (`collectOverageInvoice`, in Collect); Worker has the
--     cycle.
--   Billing/Plans: src/modules/billing/plans.service.ts. A seller adds a plan (`createPlan`), whose
--     overage columns Billing/OverageCollection reads.
--   Gateway/Dispatch, Gateway/Requests, Gateway/Target, Gateway/Messages:
--     src/modules/gateway/gateway.service.ts. A request is authorized by Usage/Authorize, limited by
--     Gateway/Burst, charged, and sent on (`execute`), to an address that ExternalUrl lets pass.
--   Billing/Webhooks: src/modules/billing/stripe-webhooks.service.ts and stripe-subscription-period.ts.
--     Stripe's events are passed on to Billing/Sync and Billing/Invoices.
--   Billing/Reconciliation: src/modules/billing/billing-reconciliation.service.ts. A worker that asks
--     Stripe for what its events should have told.
--   Catalog/Products, Catalog/Versions: src/modules/catalog/products.service.ts and
--     versions.service.ts. The products and versions that the gateway looks up.
--   Keys: src/modules/keys/keys.service.ts. The keys by which Usage/Authorize knows a user.
--   ExternalUrl: src/common/utils/external-url.ts. Lease: the lease that the four workers share.
--   Schema: prisma/schema.prisma. Errors: src/common/errors. Prisma: the database client.
--   Common: lists, Boolean tests and options.
--
-- How the code is read. The state of a service is a record of tables, a table is a list of rows,
-- and an operation takes the tables and gives the answer with the tables after it; what is thrown
-- is the `throw` of `Result`. A call that runs in one transaction, and a call that takes an
-- advisory lock or locks its row, is one step. The database client is not code of this repository:
-- it is the interface `Prisma.Delegate`, with documented behaviour as its laws, and Prisma/Lists
-- shows that they can hold. A `create` is refused by the model's unique constraints, and which row
-- `findFirst` picks is open. Updates by a row's id are taken not to fail, and references to be
-- there: an update that sets a unique column (an external id of an invoice or a subscription) is
-- taken to find its value free. The columns of type Int are taken to be wide enough: the request
-- schemas set no maximum, and a count or a price over 2147483647, which the database refuses with
-- an error and an aborted transaction, is outside the model. The payment provider, `fetch`, DNS,
-- the URL parser, regular expressions on YAML, SHA-256, the clock and the ids that the database
-- draws are parameters; where a call reads the clock several times, it reads one date. Ids are
-- numbers, since the code only compares them. Dates are milliseconds since 1970 in UTC, so a day
-- has 86400000 of them, and counts are natural numbers. The burst limiter computes with doubles:
-- their operations are the parameter `Doubles` of Gateway/Burst, a double is a whole number of the
-- smallest one, and a theorem that depends on their rounding takes a bound on its error as a
-- hypothesis. The error with which the database aborts a transaction is a parameter of the calls
-- that handle it.
--
-- Fuel: `lock_bucket_row` has the two attempts and `run_attempts` the three of the code's loops, and
-- what stands behind those loops is their last clause. `retries` follows a schedule for as many
-- attempts as it is told; as many as there are delays are enough.
--
-- Not modelled: summaries and other listings, which only read; accounts and administration; the
-- calls of the Stripe SDK; controllers, configuration and monitoring.
pub mod Common
pub mod Prisma
pub mod Schema
pub mod Errors
pub mod Lease
pub mod ExternalUrl
pub mod Usage
pub mod Gateway
pub mod Billing
pub mod Catalog
pub mod Keys
