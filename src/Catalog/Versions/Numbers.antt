-- ===== src/Catalog/Versions/Numbers.antt =====
-- A product has each version once.
use hivepoint_backend.Common.{
  ℕ, ◌≡◌, refl, inl, inr, String, true, false, some, List, [], ◌∷◌, any, find, eq_iff, arith,
  Option-cases, Bool-cases, if◌then◌else◌,
}
use hivepoint_backend.Errors.{ok, throw, app_error, version_already_exists}
use hivepoint_backend.Schema.{ApiProduct, ApiVersion, clash_version}
use hivepoint_backend.Billing.Subscriptions.{User}
use hivepoint_backend.Catalog.Products.{is_owner_or_admin, product_with_id}
use hivepoint_backend.Catalog.Versions.{
  World, CreateVersionInput, is_numbered, version_with_id, new_version, fetch_open_api_snapshot,
  insert_version, create_version,
}

-- A row with a new id clashes exactly with the rows of its number.
fresh-clash :
    (now new_id product_id : ℕ) (input : CreateVersionInput) (snapshot : String)
    (rows : List ApiVersion)
    → any (version_with_id new_id) rows ≡ false
    → any (clash_version (new_version now new_id product_id input snapshot)) rows
      ≡ any (is_numbered product_id input.version) rows
fresh-clash now new_id product_id input snapshot [] fresh = refl
fresh-clash now new_id product_id input snapshot (x ∷ rows) fresh = ground (
  arith,
  fresh,
  eq_iff x.version input.version,
  eq_iff input.version x.version,
  fresh-clash now new_id product_id input snapshot rows,
)

module _ (world : World) (now new_id product_id : ℕ) (input : CreateVersionInput) (user : User)
    (products : List ApiProduct) (versions : List ApiVersion) (p : ApiProduct)
    (snapshot : String) where
  -- The owner of a product, or an administrator, who creates a version whose document can be read,
  -- under an id that is new: the call is refused with VERSION_ALREADY_EXISTS exactly where the product
  -- has a version of that number, and otherwise adds the version, a draft with the document.
  pub create_version_lem :
      find (product_with_id product_id) products ≡ some p
      → is_owner_or_admin p.owner_id (some user) ≡ true
      → fetch_open_api_snapshot world input.open_api_url ≡ ok snapshot
      → any (version_with_id new_id) versions ≡ false
      → create_version world now new_id product_id input user products versions ≡ (
          if any (is_numbered product_id input.version) versions
          then throw (app_error version_already_exists 409)
          else ok (
            new_version now new_id product_id input snapshot,
            new_version now new_id product_id input snapshot ∷ versions,
          ))
  unfolding create_version insert_version
  create_version_lem found owner fetched fresh =
      let w = is_numbered product_id input.version in
      let new = new_version now new_id product_id input snapshot in
      let read = world.api_product.find_unique_lem (product_with_id product_id) products in
      let table = world.api_version.create_lem new versions in
      let clash = fresh-clash now new_id product_id input snapshot versions fresh in
      elim (Option-cases (world.api_version.find_first w [] versions)) [
        | inl free ↦ ground (
          arith,
          read,
          found,
          owner,
          free,
          fetched,
          table,
          clash,
          world.api_version.find_first_none w [] versions free,
        )
        | inr (existing, taken) ↦ elim (Bool-cases (any w versions)) [
          | inl there ↦ ground (arith, read, found, owner, taken, there)
          | inr missing ↦ absurd (
              ground (
                arith,
                world.api_version.find_first_some w [] versions existing taken,
                world.api_version.find_first_in w [] versions existing w taken missing,
              ))
        ]
      ]
