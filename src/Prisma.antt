-- ===== src/Prisma.antt =====
-- The database client that the services call (`PrismaService`, generated from prisma/schema.prisma):
-- the methods of a model's delegate that the code uses, as an interface. A table is a list of rows.
-- Each law is documented behaviour of the client; nothing is assumed of the order of results.
pub mod Lists
use hivepoint_backend.Common.{
  ℕ, ◌≡◌, Bool, true, false, Option, none, some, List, ◌∷◌, or_else, any, find, sum_where,
  update_first, if◌then◌else◌,
}

-- The errors that the services tell apart: P2002 (unique constraint), P2034 (write conflict or
-- deadlock), and every other one.
pub data PrismaError : Type 0 where
  p2002 p2034 other_error : PrismaError

-- `orderBy: {field: 'asc' | 'desc'}`
pub data OrderBy (Row : Type 0) : Type 0 where
  asc desc : (Row → Option ℕ) → OrderBy Row

-- The delegate of one model; `clash` says which rows break its unique constraints.
pub record Delegate {Row : Type 0} (clash : Row → Row → Bool) : Type 0 where
  -- findUnique: the one row that a unique field chooses
  pub find_unique : (Row → Bool) → List Row → Option Row
  pub find_unique_lem : (w : Row → Bool) (rows : List Row) → find_unique w rows ≡ find w rows
  -- findFirst
  pub find_first : (Row → Bool) → List (OrderBy Row) → List Row → Option Row
  pub find_first_some :
      (w : Row → Bool) (o : List (OrderBy Row)) (rows : List Row) (r : Row)
      → find_first w o rows ≡ some r
      → w r ≡ true
  -- the row is one of the table: a test that fails of every row fails of it
  pub find_first_in :
      (w : Row → Bool) (o : List (OrderBy Row)) (rows : List Row) (r : Row) (p : Row → Bool)
      → find_first w o rows ≡ some r
      → any p rows ≡ false
      → p r ≡ false
  pub find_first_none :
      (w : Row → Bool) (o : List (OrderBy Row)) (rows : List Row)
      → find_first w o rows ≡ none
      → any w rows ≡ false
  -- aggregate({where, _sum}): null where no row is chosen
  pub sum : (Row → Bool) → (Row → ℕ) → List Row → Option ℕ
  pub sum_lem :
      (w : Row → Bool) (f : Row → ℕ) (rows : List Row)
      → or_else (sum w f rows) 0 ≡ sum_where w f rows
  -- create: none where a unique constraint refuses the row
  pub create : Row → List Row → Option (List Row)
  pub create_lem :
      (r : Row) (rows : List Row)
      → create r rows ≡ (if any (clash r) rows then none else some (r ∷ rows))
  -- update, by a unique field; a unique column that it sets finds its value free
  pub update : (Row → Bool) → (Row → Row) → List Row → List Row
  pub update_lem :
      (w : Row → Bool) (u : Row → Row) (rows : List Row) → update w u rows ≡ update_first w u rows
  -- upsert, by a unique field
  pub upsert : (Row → Bool) → Row → (Row → Row) → List Row → List Row
  pub upsert_lem :
      (w : Row → Bool) (r : Row) (u : Row → Row) (rows : List Row)
      → upsert w r u rows ≡ (if any w rows then update_first w u rows else r ∷ rows)
