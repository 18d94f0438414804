-- ===== src/Usage/Ingest/Lease.antt =====
-- The lease keeps two workers from draining the queue at the same time.
use hivepoint_backend.Common.{ℕ, ◌+◌, ◌≤◌, ◌<◌, ◌≡◌, ◌≢◌, ◌⊎◌, ◌↔◌, true, false, some, List, find}
use hivepoint_backend.Schema.{BackgroundJobLease}
use hivepoint_backend.Lease.{lease_named}
use hivepoint_backend.Lease.Exclusion.{take_lease_iff, take_lease_excludes}
use hivepoint_backend.Usage.Ingest.{
  Client, Config, lease_name, try_acquire_lease, get_lease_duration_milliseconds,
}

module _ (config : Config) (client : Client) where
  -- A lease that is there is given exactly to the worker that holds it, and to any worker once it
  -- has expired.
  pub try_acquire_lease_iff :
      (now owner : ℕ) (leases : List BackgroundJobLease) (l : BackgroundJobLease)
      → find (lease_named lease_name) leases ≡ some l
      → ((try_acquire_lease config client now owner leases).0 ≡ true)
        ↔ ((l.owner_id ≡ owner) ⊎ (l.expires_at ≤ now))
  unfolding try_acquire_lease
  try_acquire_lease_iff now owner leases l found =
      take_lease_iff client.background_job_lease lease_name (get_lease_duration_milliseconds config)
        now owner leases l found

  -- A worker that was given the lease excludes every other one until the lease expires, and is
  -- given it again itself.
  pub try_acquire_lease_excludes :
      (now later owner other : ℕ) (leases : List BackgroundJobLease)
      → (try_acquire_lease config client now owner leases).0 ≡ true
      → later < now + get_lease_duration_milliseconds config
      → owner ≢ other
      → ((try_acquire_lease config client later other
            (try_acquire_lease config client now owner leases).1).0
          ≡ false)
        × ((try_acquire_lease config client later owner
              (try_acquire_lease config client now owner leases).1).0
            ≡ true)
  unfolding try_acquire_lease
  try_acquire_lease_excludes now later owner other leases e before differ =
      take_lease_excludes client.background_job_lease lease_name
        (get_lease_duration_milliseconds config) now later owner other leases e before differ
