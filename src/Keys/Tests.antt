-- ===== src/Keys/Tests.antt =====
-- A key that its owner revokes.
use hivepoint_backend.Common.{◌≢◌, refl, true, none, [], ◌∷◌}
use hivepoint_backend.Schema.{ApiKey, Role}
use hivepoint_backend.Billing.Subscriptions.{User}
use hivepoint_backend.Usage.Authorize.Fixtures.{client, config, db}
use hivepoint_backend.Usage.Store.{Db}
use hivepoint_backend.Usage.Authorize.{find_api_key}
use hivepoint_backend.Keys.{revoked, revoke_key}
use hivepoint_backend.Keys.Revoked.{revoke_key-find_api_key}

abbrev key : ApiKey
key = record {
  id = 1;
  user_id = 2;
  label = "k";
  key_hash = "ksalt";
  is_active = true;
  created_at = 0;
  revoked_at = none;
}

-- A second key of the same hash.
abbrev other : ApiKey
other = record key { id = 6 }

abbrev owner : User
owner = record { id = 2; email = "a@b.c"; role = Role.buyer }

abbrev with_keys : Db
with_keys = record db { api_keys = key ∷ other ∷ [] }

revoke_key-find_api_key_example : other.id ≢ 1
unfolding revoke_key find_api_key
revoke_key-find_api_key_example =
    revoke_key-find_api_key config client 500 1 owner with_keys (revoked 500 key ∷ other ∷ []) "k"
      other (refl, (refl, tt)) refl refl
