-- ===== src/Store/Sql/Orders.antt =====
-- The statements on orders.
use storefront.Common.{
  Bool, List, Option, find?, if◌then◌else◌, is_some, leb, none, not, some, ℕ, ◌&&◌, ◌==◌, ◌∷◌,
}
use storefront.Domain.Orders.{Order}
use storefront.Domain.Pages.{Uuid}
use storefront.Errors.{Result, err, no_rows, ok, sentinel, ◌>>=◌}
use storefront.Store.Schema.{
  Sql, char_count, check_violation, foreign_key_violation, order_checks,
  string_data_right_truncation, unique_violation,
}
use storefront.Store.Sql.Products.{select_product}

abbrev pub is_order : Uuid → Order → Bool
is_order id o = o.id == id

unfoldable pub select_order : Uuid → List Order → Option Order
select_order id rows = find? (is_order id) rows

-- queryInsertOrder: the row's created_at is the transaction's now()
unfoldable pub insert_order : ℕ → Order → Sql ℕ
insert_order now o db =
    if not (order_checks o)
    then err check_violation
    else if leb 4 (char_count o.unit_price.currency)
    then err string_data_right_truncation
    else if is_some (select_order o.id db.orders)
    then err unique_violation
    else if is_some (select_product o.product_id db.products)
    then ok (now, record db { orders = record o { created_at = now } ∷ db.orders })
    else err foreign_key_violation

abbrev pub owned_by : Uuid → Order → Bool
owned_by user o = o.user_id == user

abbrev pub found_order : Option Order → Result Order
found_order none = err (sentinel no_rows)
found_order (some o) = ok o

-- queryGetOrderByID: WHERE id = $1 AND user_id = $2
unfoldable pub get_order : Uuid → Uuid → Sql Order
get_order id user db = do
  o ← found_order (find? (λ o. is_order id o && owned_by user o) db.orders)
  ok (o, db)
