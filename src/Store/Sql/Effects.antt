-- ===== src/Store/Sql/Effects.antt =====
-- What a statement that succeeded has done to the tables.
use storefront.Common.{
  Option-cases, any, arith, false, filter, inl, inr, is_some, none, not, pos, some, true, ℕ, ℤ, ◌+◌,
  ◌-ℤ◌, ◌<ℤ◌, ◌∷◌, ◌≡◌, ◌≤ℤ◌,
}
use storefront.Domain.Money.{valid_currency}
use storefront.Domain.Orders.{Order}
use storefront.Domain.Pages.{Uuid}
use storefront.Domain.Products.{Product}
use storefront.Errors.{Result-cases, ok}
use storefront.Store.Schema.{Db, order_checks, product_checks, stored_product, varchar}
use storefront.Store.Sql.Orders.{insert_order, select_order}
use storefront.Store.Sql.Products.{
  absent, delete_product, has_id, insert_product, of_product, purchase_product, replace_product,
  select_product, update_product,
}

-- A stored row has the fields that were written, its name as its column stores it (which cuts off an
-- excess of spaces), and meets the constraints of the table.
pub record IsStored (p row : Product) : Type 0 where
  pub same_id : row.id ≡ p.id
  pub stored_name : varchar 100 p.name ≡ some row.name
  pub same_price : row.price ≡ p.price
  pub same_stock : row.stock ≡ p.stock
  pub same_version : row.version ≡ p.version
  pub stocked : pos 0 ≤ℤ row.stock
  pub priced : pos 0 <ℤ row.price.minor_amount
  pub in_currency : valid_currency row.price.currency ≡ true

pub stored_product-IsStored : (p row : Product) → stored_product p ≡ ok row → IsStored p row
unfolding stored_product product_checks
stored_product-IsStored p row h = ground arith

-- What queryPurchase has done when it returned a row.
pub record Decrement (id : Uuid) (qty : ℤ) (db : Db) (row : Product) (db' : Db) : Type 0 where
  pub before : Product
  pub found : select_product id db.products ≡ some before
  pub enough : qty ≤ℤ before.stock
  pub stored :
      IsStored (record before { stock = before.stock -ℤ qty; version = before.version + 1 }) row
  pub tables : db' ≡ record db { products = replace_product row.id row db.products }

pub purchase_product-Decrement :
    (id : Uuid) (qty : ℤ) (db : Db) (row : Product) (db' : Db)
    → purchase_product id qty db ≡ ok (row, db')
    → Decrement id qty db row db'
unfolding purchase_product
purchase_product-Decrement id qty db row db' h =
    elim (Option-cases (select_product id db.products)) [
      | inl absent ↦ ground arith
      | inr (p, found) ↦
          let q : Product = record p { stock = p.stock -ℤ qty; version = p.version + 1 } in
          elim (Result-cases (stored_product q)) [
            | inr (e, refused) ↦ ground arith
            | inl (r, stored) ↦ record {
              before = p;
              found = found;
              enough = ground arith;
              stored = stored_product-IsStored q row (ground arith);
              tables = ground arith;
            }
          ]
    ]

pub record Placed (now : ℕ) (o : Order) (db : Db) (created_at : ℕ) (db' : Db) : Type 0 where
  pub at_clock : created_at ≡ now
  pub wanted : pos 0 <ℤ o.quantity
  pub known : is_some (select_product o.product_id db.products) ≡ true
  pub new_id : is_some (select_order o.id db.orders) ≡ false
  pub tables : db' ≡ record db { orders = record o { created_at = now } ∷ db.orders }

pub insert_order-Placed :
    (now : ℕ) (o : Order) (db : Db) (created_at : ℕ) (db' : Db)
    → insert_order now o db ≡ ok (created_at, db')
    → Placed now o db created_at db'
unfolding insert_order order_checks
insert_order-Placed now o db created_at db' h = ground arith

pub record Inserted (p : Product) (db : Db) (version : ℕ) (db' : Db) : Type 0 where
  pub row : Product
  pub stored : IsStored (record p { version = 1 }) row
  pub first_version : version ≡ row.version
  pub new_id : select_product p.id db.products ≡ none
  pub tables : db' ≡ record db { products = row ∷ db.products }

pub insert_product-Inserted :
    (p : Product) (db : Db) (version : ℕ) (db' : Db)
    → insert_product p db ≡ ok (version, db')
    → Inserted p db version db'
unfolding insert_product
insert_product-Inserted p db version db' h = elim (Option-cases (select_product p.id db.products)) [
  | inr (old, found) ↦ ground arith
  | inl fresh ↦ elim (Result-cases (stored_product (record p { version = 1 }))) [
    | inr (e, refused) ↦ ground arith
    | inl (row, stored) ↦ record {
      row = row;
      stored = stored_product-IsStored (record p { version = 1 }) row stored;
      first_version = ground arith;
      new_id = fresh;
      tables = ground arith;
    }
  ]
]

-- What queryUpdate has done when it returned a row: the stock stays, the version goes up.
pub record Updated (p : Product) (db : Db) (row : Product) (db' : Db) : Type 0 where
  pub before : Product
  pub found : select_product p.id db.products ≡ some before
  pub stored :
      IsStored (record before { name = p.name; price = p.price; version = before.version + 1 }) row
  pub tables : db' ≡ record db { products = replace_product row.id row db.products }

pub update_product-Updated :
    (p : Product) (db : Db) (row : Product) (db' : Db)
    → update_product p db ≡ ok (row, db')
    → Updated p db row db'
unfolding update_product
update_product-Updated p db row db' h = elim (Option-cases (select_product p.id db.products)) [
  | inl absent ↦ ground arith
  | inr (b, found) ↦
      let q : Product = record b { name = p.name; price = p.price; version = b.version + 1 } in
      elim (Result-cases (stored_product q)) [
        | inr (e, refused) ↦ ground arith
        | inl (r, stored) ↦ record {
          before = b;
          found = found;
          stored = stored_product-IsStored q row (ground arith);
          tables = ground arith;
        }
      ]
]

-- What queryDelete has done when it returned a row: no order referred to the product.
pub record Deleted (id : Uuid) (db : Db) (version : ℕ) (db' : Db) : Type 0 where
  pub before : Product
  pub found : select_product id db.products ≡ some before
  pub unordered : any (of_product id) db.orders ≡ false
  pub next_version : version ≡ before.version + 1
  pub tables : db' ≡ record db { products = filter (λ r. not (has_id id r)) db.products }

pub delete_product-Deleted :
    (id : Uuid) (db : Db) (version : ℕ) (db' : Db)
    → delete_product id db ≡ ok (version, db')
    → Deleted id db version db'
unfolding delete_product
delete_product-Deleted id db version db' h = elim (Option-cases (select_product id db.products)) [
  | inl absent ↦ ground arith
  | inr (b, found) ↦ record {
    before = b;
    found = found;
    unordered = ground arith;
    next_version = ground arith;
    tables = ground arith;
  }
]
