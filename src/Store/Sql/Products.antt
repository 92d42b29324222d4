-- ===== src/Store/Sql/Products.antt =====
-- The statements on products. RETURNING is the value that comes back; no row is pgx.ErrNoRows.
use storefront.Common.{
  Bool, List, Option, any, false, filter, find?, if◌then◌else◌, leb_ℤ, map_if, none, not, some,
  true, ℕ, ℤ, ◌+◌, ◌-ℤ◌, ◌==◌, ◌∷◌,
}
use storefront.Domain.Orders.{Order}
use storefront.Domain.Pages.{Uuid}
use storefront.Domain.Products.{Product}
use storefront.Errors.{Result, err, no_rows, ok, sentinel, ◌>>=◌}
use storefront.Store.Schema.{
  Db, Sql, in_int4, in_int8, numeric_out_of_range, restrict_violation, stored_product,
  unable_to_encode, unique_violation,
}

abbrev pub has_id : Uuid → Product → Bool
has_id id p = p.id == id

unfoldable pub select_product : Uuid → List Product → Option Product
select_product id rows = find? (has_id id) rows

-- UPDATE ... WHERE id = $1
unfoldable pub replace_product : Uuid → Product → List Product → List Product
replace_product id p rows = map_if (has_id id) (λ _. p) rows

abbrev pub absent : Option Product → Bool
absent none = true
absent (some p) = false

-- the primary key is checked behind the columns and the CHECK constraints
abbrev pub store_row : Uuid → Result Product → Db → Result (ℕ × Db)
store_row id (err e) db = err e
store_row id (ok row) db =
    if absent (select_product id db.products)
    then ok (row.version, record db { products = row ∷ db.products })
    else err unique_violation

-- queryInsert
unfoldable pub insert_product : Product → Sql ℕ
insert_product p db =
    if not (in_int4 p.stock)
    then err unable_to_encode
    else store_row p.id (stored_product (record p { version = 1 })) db

abbrev pub found_product : Option Product → Result Product
found_product none = err (sentinel no_rows)
found_product (some p) = ok p

-- queryGetByID
unfoldable pub get_product : Uuid → Sql Product
get_product id db = do p ← found_product (select_product id db.products); ok (p, db)

-- the row that an UPDATE writes and returns
abbrev pub write_product : Product → Sql Product
write_product p db = do
  row ← stored_product p
  ok (row, record db { products = replace_product row.id row db.products })

-- queryUpdate
unfoldable pub update_product : Product → Sql Product
update_product p db = do
  old ← found_product (select_product p.id db.products)
  write_product (record old { name = p.name; price = p.price; version = old.version + 1 }) db

abbrev pub of_product : Uuid → Order → Bool
of_product id o = o.product_id == id

-- queryDelete; orders refer to their product ON DELETE RESTRICT
unfoldable pub delete_product : Uuid → Sql ℕ
delete_product id db = do
  p ← found_product (select_product id db.products)
  if any (of_product id) db.orders
      then err restrict_violation
      else if in_int8 (p.version + 1)
      then ok (p.version + 1, record db { products = filter (λ r. not (has_id id r)) db.products })
      else err numeric_out_of_range

abbrev pub in_stock : ℤ → Option Product → Option Product
in_stock qty none = none
in_stock qty (some p) = if leb_ℤ qty p.stock then some p else none

-- queryPurchase
unfoldable pub purchase_product : Uuid → ℤ → Sql Product
purchase_product id qty db = if not (in_int4 qty) then err unable_to_encode else do
  p ← found_product (in_stock qty (select_product id db.products))
  write_product (record p { stock = p.stock -ℤ qty; version = p.version + 1 }) db

-- queryProductExists
unfoldable pub product_exists : Uuid → Sql Bool
product_exists id db = ok (not (absent (select_product id db.products)), db)
