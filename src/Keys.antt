-- ===== src/Keys.antt =====
-- src/modules/keys/keys.service.ts: the API keys of a user. Only the hash of a key is kept.
pub mod Revoked
mod Tests
use hivepoint_backend.Common.{
  ℕ, String, Bool, true, false, Option, none, some, List, ◌&&◌, ◌||◌, ◌==◌, not, is_some,
  if◌then◌else◌,
}
use hivepoint_backend.Errors.{Result, ok, throw, app_error, prisma_error, key_not_found, not_owner}
use hivepoint_backend.Prisma.{Delegate, p2002}
use hivepoint_backend.Schema.{ApiKey, Role, clash_api_key}
use hivepoint_backend.Usage.Store.{Config, Client}
use hivepoint_backend.Usage.Authorize.{hash_api_key}
use hivepoint_backend.Billing.Subscriptions.{User}
use hivepoint_backend.Catalog.Products.{is_admin}

-- `where: {id}`
abbrev pub key_with_id : ℕ → ApiKey → Bool
key_with_id id k = k.id == id

-- The data of `apiKey.update`.
abbrev pub revoked : ℕ → ApiKey → ApiKey
revoked now k = record k { is_active = false; revoked_at = some now }

module _ (config : Config) (client : Client) where
  -- The row of `apiKey.create`.
  abbrev pub new_key : ℕ → ℕ → String → String → User → ApiKey
  new_key now new_id raw_key label user = record {
    id = new_id;
    user_id = user.id;
    label = label;
    key_hash = hash_api_key config client raw_key config.api_key_salt;
    is_active = true;
    created_at = now;
    revoked_at = none;
  }

  -- `raw_key` is what `generateRawApiKey` draws, and `new_id` the id that the database draws. The
  -- answer is the row; the raw key is told beside it and not kept.
  unfoldable pub create_key :
      ℕ → ℕ → String → String → User → List ApiKey → Result (ApiKey × List ApiKey)
  create_key now new_id raw_key label user keys =
      let key = new_key now new_id raw_key label user in
      elim (client.api_key.create key keys) [
        | none ↦ throw (prisma_error p2002)
        | some created ↦ ok (key, created)
      ]

  unfoldable pub revoke_key : ℕ → ℕ → User → List ApiKey → Result (List ApiKey)
  revoke_key now id user keys = elim (client.api_key.find_unique (key_with_id id) keys) [
    | none ↦ throw (app_error key_not_found 404)
    | some key ↦
        if not (is_admin user.role) && not (key.user_id == user.id)
        then throw (app_error not_owner 403)
        else if not key.is_active || is_some key.revoked_at
        then ok keys
        else ok (client.api_key.update (key_with_id id) (revoked now) keys)
  ]
