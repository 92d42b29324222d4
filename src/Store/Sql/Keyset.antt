-- ===== src/Store/Sql/Keyset.antt =====
-- ORDER BY id [DESC] LIMIT n over the rows after a cursor, for the two kinds of listing. `before` is
-- the order of the listing on ids.
use storefront.Common.{Bool, List, [], filter, if◌then◌else◌, ltb, not, take, ℕ, ◌||◌, ◌∷◌}
use storefront.Domain.Pages.{Uuid}

module _ {A : Type 0} (key : A → ℕ) (before : ℕ → ℕ → Bool) where
  unfoldable pub insert_row : A → List A → List A
  insert_row x [] = x ∷ []
  insert_row x (y ∷ ys) = if before (key y) (key x) then y ∷ insert_row x ys else x ∷ y ∷ ys

  -- ORDER BY
  unfoldable pub order_by : List A → List A
  unfolding insert_row
  order_by [] = []
  order_by (x ∷ xs) = insert_row x (order_by xs)

  -- WHERE id > $1 (or <), or every row
  abbrev pub past : Uuid × Bool → A → Bool
  past (c, valid) x = not valid || before c (key x)

  -- the rows of one page: the query at the cursor, with LIMIT n
  unfoldable pub page_rows : Uuid × Bool → ℕ → List A → List A
  unfolding order_by
  page_rows c n rows = take n (order_by (filter (past c) rows))

abbrev pub ascending : ℕ → ℕ → Bool
ascending a b = ltb a b

abbrev pub descending : ℕ → ℕ → Bool
descending a b = ltb b a
