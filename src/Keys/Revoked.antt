-- ===== src/Keys/Revoked.antt =====
-- A key that was revoked authorizes nothing.
use hivepoint_backend.Common.{
  ℕ, ◌≡◌, ◌≢◌, refl, String, Bool, false, some, List, [], ◌∷◌, inl, inr, any, find, ◌&&◌, ◌||◌,
  ◌==◌, not, is_some, str_eq, arith, update_first, Option-cases, Bool-cases,
}
use hivepoint_backend.Errors.{ok}
use hivepoint_backend.Schema.{ApiKey, clash_api_key}
use hivepoint_backend.Usage.Store.{Db, Config, Client}
use hivepoint_backend.Usage.Authorize.{find_api_key, hash_api_key}
use hivepoint_backend.Billing.Subscriptions.{User}
use hivepoint_backend.Catalog.Products.{is_admin}
use hivepoint_backend.Keys.{key_with_id, revoked, new_key, create_key, revoke_key}

-- No two keys have one id.
abbrev pub IsKeyed : List ApiKey → Type 0
IsKeyed [] = Unit
IsKeyed (k ∷ keys) = (any (clash_api_key k) keys ≡ false) × IsKeyed keys

-- A key of the id that can be used.
abbrev usable : ℕ → ApiKey → Bool
usable id k = k.id == id && (k.is_active && not (is_some k.revoked_at))

usable-none :
    (id : ℕ) (k : ApiKey) (keys : List ApiKey)
    → k.id ≡ id
    → any (clash_api_key k) keys ≡ false
    → any (usable id) keys ≡ false
usable-none id k [] same h = refl
usable-none id k (x ∷ keys) same h = ground (arith, same, h, usable-none id k keys)

-- Where ids are unique and the key is found to be unusable, none of its id can be used.
usable-found :
    (id : ℕ) (keys : List ApiKey) (k : ApiKey)
    → IsKeyed keys
    → find (key_with_id id) keys ≡ some k
    → (k.is_active && not (is_some k.revoked_at)) ≡ false
    → any (usable id) keys ≡ false
usable-found id [] k v found dead = refl
usable-found id (x ∷ keys) k (apart, v) found dead = elim (Bool-cases (x.id == id)) [
  | inl here ↦ ground (arith, here, found, dead, usable-none id x keys (ground (arith, here)) apart)
  | inr there ↦ ground (arith, there, usable-found id keys k v (ground (arith, there, found)) dead)
]

usable-revoked :
    (now id : ℕ) (keys : List ApiKey)
    → IsKeyed keys
    → any (usable id) (update_first (key_with_id id) (revoked now) keys) ≡ false
usable-revoked now id [] v = refl
usable-revoked now id (x ∷ keys) (apart, v) = elim (Bool-cases (x.id == id)) [
  | inl here ↦ ground (arith, here, usable-none id x keys (ground (arith, here)) apart)
  | inr there ↦ ground (arith, there, usable-revoked now id keys v)
]

module _ (config : Config) (client : Client) where
  revoke_key-usable :
      (now id : ℕ) (user : User) (keys after : List ApiKey)
      → IsKeyed keys
      → revoke_key config client now id user keys ≡ ok after
      → any (usable id) after ≡ false
  unfolding revoke_key
  revoke_key-usable now id user keys after v e =
      let read = client.api_key.find_unique_lem (key_with_id id) keys in
      elim (Option-cases (find (key_with_id id) keys)) [
        | inl gone ↦ absurd (ground (arith, e, read, gone))
        | inr (key, there) ↦
            elim (Bool-cases (not (is_admin user.role) && not (key.user_id == user.id))) [
              | inl stranger ↦ absurd (ground (arith, e, read, there, stranger))
              | inr owner ↦ elim (Bool-cases (not key.is_active || is_some key.revoked_at)) [
                | inl before ↦
                    let same : after ≡ keys = ground (arith, e, read, there, owner, before) in
                    rw same (usable-found id keys key v there (ground (arith, before)))
                | inr live ↦
                    let table : after ≡ update_first (key_with_id id) (revoked now) keys = ground (
                      arith,
                      e,
                      read,
                      there,
                      owner,
                      live,
                      client.api_key.update_lem (key_with_id id) (revoked now) keys,
                    ) in
                    rw table (usable-revoked now id keys v)
              ]
            ]
      ]

  -- Where no two keys have one id, a key that was revoked, just then or before, by its owner or an
  -- administrator, is not found by any raw key any more: no request is authorized by it.
  pub revoke_key-find_api_key :
      (now id : ℕ) (user : User) (db : Db) (after : List ApiKey) (raw_key : String) (k : ApiKey)
      → IsKeyed db.api_keys
      → revoke_key config client now id user db.api_keys ≡ ok after
      → find_api_key config client (record db { api_keys = after }) raw_key ≡ some k
      → k.id ≢ id
  unfolding find_api_key
  revoke_key-find_api_key now id user db after raw_key k v e found same =
      let w = λ (x : ApiKey).
        str_eq x.key_hash (hash_api_key config client raw_key config.api_key_salt)
        && (x.is_active && not (is_some x.revoked_at)) in
      let passes = client.api_key.find_first_some w [] after k found in
      let dead =
        client.api_key.find_first_in w [] after k (usable id) found
          (revoke_key-usable now id user db.api_keys after v e) in
      ground (arith, passes, dead, same)

  -- Drawing a new id keeps the ids of keys unique.
  pub create_key-IsKeyed :
      (now new_id : ℕ) (raw_key label : String) (user : User) (keys after : List ApiKey)
      (key : ApiKey)
      → IsKeyed keys
      → create_key config client now new_id raw_key label user keys ≡ ok (key, after)
      → IsKeyed after
  unfolding create_key
  create_key-IsKeyed now new_id raw_key label user keys after key v e =
      let new = new_key config client now new_id raw_key label user in
      let table = client.api_key.create_lem new keys in
      elim (Bool-cases (any (clash_api_key new) keys)) [
        | inl clash ↦ absurd (ground (arith, e, table, clash))
        | inr apart ↦
            let is : after ≡ new ∷ keys = ground (arith, e, table, apart) in rw is (apart, v)
      ]
