-- ===== src/Gateway/Burst/Buckets.antt =====
-- What one transaction of the limiter does to the bucket of its key, and to the others.
use hivepoint_backend.Common.{
  ℕ, suc, ◌≡◌, refl, String, false, Option, none, some, List, [], ◌∷◌, str_eq, eq_iff, find,
  find-some, any, ltb, arith, if◌then◌else◌, Option-cases, Bool-cases, inl, inr, find-update_first,
  find-update_first_ne, not,
}
use text.Mathlib.TextPositions.{eq_refl}
use hivepoint_backend.Prisma.{Delegate}
use hivepoint_backend.Schema.{GatewayBurstBucket, clash_bucket}
use hivepoint_backend.Gateway.Burst.{
  BurstConfig, double, refill_tokens, has_key, set_bucket, lock_bucket_row, transact,
}

-- The tokens that a request at `now` finds: the bucket of a key that was never seen is full.
abbrev pub balance : BurstConfig → ℕ → ℕ → Option GatewayBurstBucket → ℕ
balance c burst_limit now none = refill_tokens c (double c burst_limit) now now burst_limit
balance c burst_limit now (some b) = refill_tokens c b.tokens b.last_refill_at now burst_limit

module _ (c : BurstConfig) (client : Delegate clash_bucket) (key : String) where
  find-none-any :
      (rows : List GatewayBurstBucket) (b : GatewayBurstBucket)
      → b.key ≡ key
      → find (has_key key) rows ≡ none
      → any (clash_bucket b) rows ≡ false
  find-none-any [] b e h = refl
  find-none-any (x ∷ rows) b e h =
      ground (arith, eq_iff x.key key, eq_iff b.key x.key, find-none-any rows b e)

  -- The row is found on the first of the two attempts, and it is in the table.
  lock_bucket_row-finds :
      (fuel burst_limit now : ℕ) (rows : List GatewayBurstBucket)
      → (b : GatewayBurstBucket) × (locked : List GatewayBurstBucket) × (lock_bucket_row c client
            (suc fuel)
            key
            burst_limit
            now
            rows
          ≡ (b, locked))
        × (find (has_key key) locked ≡ some b)
        × (balance c burst_limit now (some b) ≡ balance c burst_limit now (find (has_key key) rows))
        × ((other : String)
            → str_eq key other ≡ false
            → find (has_key other) locked ≡ find (has_key other) rows)
  unfolding lock_bucket_row
  lock_bucket_row-finds fuel burst_limit now rows = elim (Option-cases (find (has_key key) rows)) [
    | inl missing ↦
        let fresh : GatewayBurstBucket = record {
          key = key;
          tokens = double c burst_limit;
          last_refill_at = now;
        } in
        (
          fresh,
          fresh ∷ rows,
          ground (
            arith,
            client.find_unique_lem (has_key key) rows,
            client.find_unique_lem (has_key key) (fresh ∷ rows),
            client.create_lem fresh rows,
            find-none-any rows fresh refl missing,
            eq_refl key,
          ),
          ground (arith, eq_refl key),
          rw missing refl,
          λ other e. ground (arith, e),
        )
    | inr (b, there) ↦ (
      b,
      rows,
      ground (arith, client.find_unique_lem (has_key key) rows, there),
      there,
      rw there refl,
      λ other e. refl,
    )
  ]

  module _ (tokens now : ℕ) (locked : List GatewayBurstBucket) where
    find-update :
        (b : GatewayBurstBucket)
        → find (has_key key) locked ≡ some b
        → find (has_key key) (client.update (has_key key) (set_bucket tokens now) locked)
          ≡ some (record { key = key; tokens = tokens; last_refill_at = now })
    find-update b found =
        let named = find-some (has_key key) locked b found in
        rw (client.update_lem) (
          ground (
            arith,
            find-update_first (has_key key) (set_bucket tokens now) locked b found named,
            (eq_iff b.key key).0 named,
          ))

    find-update_other :
        (other : String)
        → str_eq key other ≡ false
        → find (has_key other) (client.update (has_key key) (set_bucket tokens now) locked)
          ≡ find (has_key other) locked
    find-update_other other e = rw (client.update_lem) (
        find-update_first_ne (has_key key) (set_bucket tokens now) (has_key other) locked
          (λ x h. ground (arith, eq_iff x.key key, eq_iff x.key other, eq_iff key other)))

  -- A transaction takes the request from the refilled bucket where it has enough tokens, and then
  -- it is allowed; otherwise it takes nothing. Either way the bucket is dated to `now`, and the
  -- buckets of other keys stay as they are.
  pub transact_lem :
      (request_count burst_limit now : ℕ) (rows : List GatewayBurstBucket)
      → let before = balance c burst_limit now (find (has_key key) rows) in
        let refused = ltb before (double c request_count) in
        let (decision, after) = transact c client key request_count burst_limit now rows in
        (decision.allowed ≡ not refused)
        × (find (has_key key) after
            ≡ some (record {
              key = key;
              tokens = if refused then before else c.doubles.minus before (double c request_count);
              last_refill_at = now;
            }))
        × ((other : String)
            → str_eq key other ≡ false
            → find (has_key other) after ≡ find (has_key other) rows)
  unfolding transact
  transact_lem request_count burst_limit now rows =
      let (b, locked, is_locked, found, same, others) =
        lock_bucket_row-finds 1 burst_limit now rows in
      let refilled = refill_tokens c b.tokens b.last_refill_at now burst_limit in
      let kept = c.doubles.minus refilled (double c request_count) in
      rw (← same) (elim (Bool-cases (ltb refilled (double c request_count))) [
        | inl short ↦ (
          ground (arith, is_locked, short),
          ground (arith, is_locked, short, find-update refilled now locked b found),
          λ other e. ground (
            arith,
            is_locked,
            short,
            find-update_other refilled now locked other e,
            others other e,
          ),
        )
        | inr enough ↦ (
          ground (arith, is_locked, enough),
          ground (arith, is_locked, enough, find-update kept now locked b found),
          λ other e.
              ground (
                arith,
                is_locked,
                enough,
                find-update_other kept now locked other e,
                others other e,
              ),
        )
      ])
