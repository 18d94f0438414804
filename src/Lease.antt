-- ===== src/Lease.antt =====
-- The lease of a background worker: one row of `BackgroundJobLease` for each kind of worker. Four
-- services take it by the same transaction, `tryAcquireLease`.
pub mod Exclusion
use hivepoint_backend.Common.{
  ℕ, ◌+◌, String, Bool, true, false, Option, none, some, List, ◌&&◌, ◌==◌, not, ltb, str_eq,
  if◌then◌else◌,
}
use hivepoint_backend.Prisma.{Delegate}
use hivepoint_backend.Schema.{BackgroundJobLease, clash_lease}

-- `where: {name}`
abbrev pub lease_named : String → BackgroundJobLease → Bool
lease_named name l = str_eq l.name name

-- The transaction is serializable, so no other one comes between the read and the write, and
-- `updateMany` finds the row that was read.
unfoldable pub take_lease :
    Delegate clash_lease
    → String
    → ℕ
    → ℕ
    → ℕ
    → List BackgroundJobLease
    → Bool × List BackgroundJobLease
take_lease client name duration now owner leases =
    let expires_at = now + duration in
    elim (client.find_unique (lease_named name) leases) [
      | none ↦
          elim (client.create (record { name = name; owner_id = owner; expires_at = expires_at })
            leases) [ none ↦ (false, leases) | some created ↦ (true, created) ]
      | some lease ↦
          if not (lease.owner_id == owner) && ltb now lease.expires_at then (false, leases) else (
            true,
            client.update (lease_named name)
                (λ l. record l { owner_id = owner; expires_at = expires_at }) leases,
          )
    ]
