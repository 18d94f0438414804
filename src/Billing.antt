-- ===== src/Billing.antt =====
-- The billing module (src/modules/billing).
pub mod Store
pub mod Retry
pub mod Grace
pub mod Invoices
pub mod Calendar
pub mod Sync
pub mod Subscriptions
pub mod RetryWorker
pub mod OverageCollection
pub mod Webhooks
pub mod Reconciliation
pub mod Plans
mod Fixtures
mod Tests
