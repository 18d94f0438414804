-- ===== src/Prisma/Lists.antt =====
-- A delegate over plain lists: the laws of `Delegate` can hold.
use hivepoint_backend.Common.{
  ℕ, ◌≡◌, refl, Bool, none, some, List, [], ◌∷◌, or_else, any, find, find-some, find-none,
  find-fresh, sum_where, update_first, if◌then◌else◌, arith,
}
use hivepoint_backend.Prisma.{Delegate}

module _ {Row : Type 0} where
  pub sum_or_none :
      (w : Row → Bool) (f : Row → ℕ) (rows : List Row)
      → or_else (if any w rows then some (sum_where w f rows) else none) 0 ≡ sum_where w f rows
  sum_or_none w f [] = refl
  sum_or_none w f (x ∷ rows) = ground (arith, sum_or_none w f rows)

  abbrev pub list_delegate : (clash : Row → Row → Bool) → Delegate clash
  list_delegate clash = record {
    find_unique = find;
    find_unique_lem = λ w rows. refl;
    find_first = λ w o rows. find w rows;
    find_first_some = λ w o rows r h. find-some w rows r h;
    find_first_in = λ w o rows r p h k. find-fresh p w rows r h k;
    find_first_none = λ w o rows h. find-none w rows h;
    sum = λ w f rows. if any w rows then some (sum_where w f rows) else none;
    sum_lem = sum_or_none;
    create = λ r rows. if any (clash r) rows then none else some (r ∷ rows);
    create_lem = λ r rows. refl;
    update = update_first;
    update_lem = λ w u rows. refl;
    upsert = λ w r u rows. if any w rows then update_first w u rows else r ∷ rows;
    upsert_lem = λ w r u rows. refl;
  }
