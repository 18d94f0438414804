-- ===== src/Lease/Exclusion.antt =====
-- The lease keeps two workers of a kind from running at the same time.
use hivepoint_backend.Common.{
  ℕ, ◌+◌, ◌≤◌, ◌<◌, ◌≡◌, ◌≢◌, String, ◌⊎◌, ◌↔◌, inl, inr, true, false, some, List, find, find-some,
  find-update_first, arith, Option-cases, Bool-cases, eq_iff,
}
use hivepoint_backend.Prisma.{Delegate}
use hivepoint_backend.Schema.{BackgroundJobLease, clash_lease}
use hivepoint_backend.Lease.{lease_named, take_lease}

module _ (client : Delegate clash_lease) (name : String) (duration : ℕ) where
  -- A lease that is there is given exactly to the worker that holds it, and to any worker once it
  -- has expired.
  pub take_lease_iff :
      (now owner : ℕ) (leases : List BackgroundJobLease) (l : BackgroundJobLease)
      → find (lease_named name) leases ≡ some l
      → ((take_lease client name duration now owner leases).0 ≡ true)
        ↔ ((l.owner_id ≡ owner) ⊎ (l.expires_at ≤ now))
  unfolding take_lease
  take_lease_iff now owner leases l found =
      ground (arith, found, client.find_unique_lem (lease_named name) leases)

  -- What a worker that was given the lease leaves in the table.
  acquired_row :
      (now owner : ℕ) (leases : List BackgroundJobLease)
      → (take_lease client name duration now owner leases).0 ≡ true
      → find (lease_named name) (take_lease client name duration now owner leases).1
        ≡ some (record { name = name; owner_id = owner; expires_at = now + duration })
  unfolding take_lease
  acquired_row now owner leases e =
      let new : BackgroundJobLease = record {
        name = name;
        owner_id = owner;
        expires_at = now + duration;
      } in
      let u : BackgroundJobLease → BackgroundJobLease =
        λ l. record l { owner_id = owner; expires_at = now + duration } in
      let read = client.find_unique_lem (lease_named name) leases in
      elim (Option-cases (find (lease_named name) leases)) [
        | inl free ↦ ground (arith, read, free, client.create_lem new leases, eq_iff name name)
        | inr (l, held) ↦
            let named = find-some (lease_named name) leases l held in
            ground (
              arith,
              read,
              held,
              client.update_lem (lease_named name) u leases,
              find-update_first (lease_named name) u leases l held named,
              (eq_iff l.name name).0 named,
            )
      ]

  -- A worker that was given the lease excludes every other one until the lease expires, and is
  -- given it again itself.
  pub take_lease_excludes :
      (now later owner other : ℕ) (leases : List BackgroundJobLease)
      → (take_lease client name duration now owner leases).0 ≡ true
      → later < now + duration
      → owner ≢ other
      → ((take_lease client name duration later other
            (take_lease client name duration now owner leases).1).0
          ≡ false)
        × ((take_lease client name duration later owner
              (take_lease client name duration now owner leases).1).0
            ≡ true)
  take_lease_excludes now later owner other leases e before differ =
      let after = (take_lease client name duration now owner leases).1 in
      let row = acquired_row now owner leases e in
      (
        ground (
          arith,
          take_lease_iff later other after _ row,
          Bool-cases (take_lease client name duration later other after).0,
        ),
        ground (arith, take_lease_iff later owner after _ row),
      )
