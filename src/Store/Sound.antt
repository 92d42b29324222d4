-- ===== src/Store/Sound.antt =====
-- The invariant of the tables, and the changes of a table against it.
pub mod Calls
use storefront.Common.{
  All, All-map, Bool-cases, List, Option, Text, [], any, arith, false, filter, inl, inr, is_some,
  none, not, pos, refl, some, text_eq_refl, true, ℕ, ◌<ℤ◌, ◌∷◌, ◌≡◌, ◌≤ℤ◌, ◌⊎◌,
}
use storefront.Domain.Orders.{Order}
use storefront.Domain.Pages.{Uuid}
use storefront.Domain.Products.{Product}
use storefront.Store.Claims.{claim_row, claimed_rows}
use storefront.Store.Orders.{hash_order_request}
use storefront.Store.Replays.{keys_after}
use storefront.Store.Schema.{Db, IdempotencyRow}
use storefront.Store.Sql.Effects.{IsStored}
use storefront.Store.Sql.Keys.{is_key, linked, replace_key, select_key}
use storefront.Store.Sql.Orders.{select_order}
use storefront.Store.Sql.Products.{has_id, of_product, replace_product, select_product}
use storefront.Store.Sql.Rows.{All-map_if, link_row, select-filter_ne, select-replace}
use storefront.Store.Tx.{Platform}

abbrev pub IsStocked : Product → Type 0
IsStocked p = (pos 0 ≤ℤ p.stock) × (pos 0 <ℤ p.price.minor_amount)

abbrev pub IsPlaced : List Product → Order → Type 0
IsPlaced products o =
    (pos 0 <ℤ o.quantity) × (is_some (select_product o.product_id products) ≡ true)

abbrev pub IsLinked : List Order → IdempotencyRow → Type 0
IsLinked orders r = is_some (linked r.order_id orders) ≡ true

-- No stock is negative, no price is zero, every order is of a product that exists, and every
-- committed idempotency key leads to an order.
pub record IsSound (db : Db) : Type 0 where
  pub stocked : All IsStocked db.products
  pub placed : All (IsPlaced db.products) db.orders
  pub keyed : All (IsLinked db.orders) db.keys

pub stored-IsStocked : (p row : Product) → IsStored p row → IsStocked row
stored-IsStocked p row s = (s.stocked, s.priced)

-- a row in place of another keeps every product in place
pub replace-IsPlaced :
    (row : Product) (products : List Product) (orders : List Order)
    → All (IsPlaced products) orders
    → All (IsPlaced (replace_product row.id row products)) orders
replace-IsPlaced row products orders h =
    All-map (IsPlaced products) (IsPlaced (replace_product row.id row products)) orders
      (λ o p. ground (arith, select-replace row.id o.product_id row products refl)) h

pub replace-IsStocked :
    (row : Product) (products : List Product)
    → IsStocked row
    → All IsStocked products
    → All IsStocked (replace_product row.id row products)
unfolding replace_product
replace-IsStocked row products s h =
    All-map_if IsStocked IsStocked (has_id row.id) (λ _. row) products (λ p k e. s) (λ p k e. k) h

pub insert-IsPlaced :
    (row : Product) (products : List Product) (orders : List Order)
    → All (IsPlaced products) orders
    → All (IsPlaced (row ∷ products)) orders
unfolding select_product
insert-IsPlaced row products orders h =
    All-map (IsPlaced products) (IsPlaced (row ∷ products)) orders (λ o p. ground arith) h

pub remove-IsPlaced :
    (id : Uuid) (products : List Product) (orders : List Order)
    → any (of_product id) orders ≡ false
    → All (IsPlaced products) orders
    → All (IsPlaced (filter (λ r. not (has_id id r)) products)) orders
remove-IsPlaced id products [] none_of h = tt
remove-IsPlaced id products (o ∷ orders) none_of h = (
  ground (arith, select-filter_ne id o.product_id products),
  remove-IsPlaced id products orders (ground arith) h.1,
)

linked_cons :
    (b : Order) (orders : List Order) (id : Option Uuid)
    → is_some (linked id orders) ≡ true
    → is_some (linked id (b ∷ orders)) ≡ true
unfolding select_order
linked_cons b orders none h = cc
linked_cons b orders (some id) h = ground arith

-- In the table that a purchase leaves, every key is linked: the others as before, its own to its order.
module _ (now : ℕ) (pf : Platform) (o b : Order) (key : Text) (orders : List Order)
    (same_user : b.user_id ≡ o.user_id) where
  abbrev LinkedOrOwn : IdempotencyRow → Type 0
  LinkedOrOwn r = IsLinked (b ∷ orders) r ⊎ (is_key b.user_id key r ≡ true)

  abbrev own : IdempotencyRow
  own = claim_row now o.user_id key (hash_order_request pf o) pf.idempotency_ttl

  own_key : is_key b.user_id key own ≡ true
  own_key = ground (arith, text_eq_refl key)

  claimed-LinkedOrOwn :
      (keys : List IdempotencyRow)
      → All (IsLinked orders) keys
      → All LinkedOrOwn
          (claimed_rows now o.user_id key (hash_order_request pf o) pf.idempotency_ttl keys)
  unfolding replace_key
  claimed-LinkedOrOwn keys h = elim (Bool-cases (is_some (select_key o.user_id key keys))) [
    | inl taken ↦ rw taken (
        All-map_if (IsLinked orders) LinkedOrOwn (is_key own.user_id own.key) (λ _. own) keys
          (λ r l e. inr own_key) (λ r l e. inl (linked_cons b orders r.order_id l)) h)
    | inr free ↦ rw free (
      inr own_key,
      All-map (IsLinked orders) LinkedOrOwn keys (λ r l. inl (linked_cons b orders r.order_id l)) h,
    )
  ]

  link-IsLinked : (r : IdempotencyRow) → IsLinked (b ∷ orders) (link_row b.user_id key b.id r)
  unfolding select_order
  link-IsLinked r = ground arith

  pub keys_after-IsLinked :
      (keys : List IdempotencyRow)
      → All (IsLinked orders) keys
      → All (IsLinked (b ∷ orders)) (keys_after now pf o key b keys)
  keys_after-IsLinked keys h =
      All-map_if LinkedOrOwn (IsLinked (b ∷ orders)) (is_key b.user_id key)
        (link_row b.user_id key b.id)
        (claimed_rows now o.user_id key (hash_order_request pf o) pf.idempotency_ttl keys)
        (λ r l e. link-IsLinked r) (λ r l e. ground arith) (claimed-LinkedOrOwn keys h)
