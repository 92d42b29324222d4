-- ===== src/Grpc.antt =====
-- internal/transport/grpc/handler.go and dto.go: the methods over the service. A status is kept by its
-- code, without its message.
pub mod Statuses
pub mod Requests
pub mod Products
pub mod Interceptors
pub mod Server
pub mod Ownership
pub mod Served
pub mod Orders
pub mod Oversized
use storefront.Common.{
  Bool, List, Option, Text, [], if◌then◌else◌, length, ltb, map, negsuc, none, pos, some, text_eq,
  ℕ, ℤ, ◌∷◌,
}
use storefront.Domain.Money.{Money}
use storefront.Domain.Orders.{Order, OrderPage, order_next_cursor}
use storefront.Domain.Pages.{Cursor, Uuid, UuidText, normalize_page_size, parse_cursor}
use storefront.Domain.Products.{
  Product, ProductPage, max_idempotency_key_len, product_next_cursor, valid_purchase_quantity,
  validate_product,
}
use storefront.Errors.{
  GoError, Result, canceled, deadline_exceeded, err, idempotency_mismatch, insufficient_stock, is,
  not_found, ok, product_in_use, unavailable,
}
use storefront.Service.{
  Services, State, create, create_order_for, delete_and_invalidate, find_product, on_store,
  update_and_invalidate,
}
use storefront.Store.Orders.{find_order, find_orders}
use storefront.Store.Products.{find_all}

-- google.golang.org/grpc/codes
pub data Code : Type 0 where
  as_invalid_argument as_not_found as_failed_precondition as_unavailable : Code
  as_canceled as_deadline_exceeded as_internal as_unauthenticated : Code

pub data Reply (A : Type 0) : Type 0 where
  replies_with : A → Reply A
  refuses : Code → Reply A

pub record MoneyProto : Type 0 where
  pub minor_amount : ℤ
  pub currency : Text

pub record ProductProto : Type 0 where
  pub id : Text
  pub name : Text
  pub stock : ℤ
  pub price : MoneyProto

pub record OrderProto : Type 0 where
  pub id : Text
  pub product_id : Text
  pub quantity : ℤ
  pub unit_price : MoneyProto
  pub created_at : ℕ

abbrev pub money_proto : Money → MoneyProto
money_proto m = record { minor_amount = m.minor_amount; currency = m.currency }

-- `toDomainMoney`
abbrev pub domain_money : MoneyProto → Money
domain_money m = record { minor_amount = m.minor_amount; currency = m.currency }

-- `toProductProto`
abbrev pub product_proto : UuidText → Product → ProductProto
product_proto u p = record {
  id = u.format p.id;
  name = p.name;
  stock = p.stock;
  price = money_proto p.price;
}

-- `toOrderProto`
abbrev pub order_proto : UuidText → Order → OrderProto
order_proto u o = record {
  id = u.format o.id;
  product_id = u.format o.product_id;
  quantity = o.quantity;
  unit_price = money_proto o.unit_price;
  created_at = o.created_at;
}

-- `toStatus`
unfoldable pub to_status : GoError → Code
to_status e =
    if is canceled e
    then as_canceled
    else if is deadline_exceeded e
    then as_deadline_exceeded
    else if is not_found e
    then as_not_found
    else if is insufficient_stock e
    then as_failed_precondition
    else if is idempotency_mismatch e
    then as_invalid_argument
    else if is product_in_use e
    then as_failed_precondition
    else if is unavailable e
    then as_unavailable
    else as_internal

abbrev pub Rpc : Type 0 → Type 0
Rpc A = State → Reply A × State

abbrev pub refuse : {A : Type 0} → Code → Rpc A
refuse code s = (refuses code, s)

-- the answer of the service, as a message or a status
abbrev pub answered_by : {A B : Type 0} → (A → B) → Result A × State → Reply B × State
answered_by f (ok a, s) = (replies_with (f a), s)
answered_by f (err e, s) = (refuses (to_status e), s)

-- uuid.Parse of a field of the request
abbrev pub with_id : {A : Type 0} → Option Uuid → (Uuid → Rpc A) → Rpc A
with_id none method = refuse as_invalid_argument
with_id (some id) method = method id

abbrev pub with_cursor : {A : Type 0} → Result Cursor → (Cursor → Rpc A) → Rpc A
with_cursor (err e) method = refuse as_invalid_argument
with_cursor (ok cursor) method = method cursor

abbrev pub when_valid : {A : Type 0} → Result (Unit {0}) → Rpc A → Rpc A
when_valid (err e) method = refuse as_invalid_argument
when_valid (ok u) method = method

-- the handlers' limits are positive
abbrev pub size_of : ℤ → ℕ
size_of (pos n) = n
size_of (negsuc n) = 0

abbrev pub page_size : ℤ → ℕ
page_size limit = size_of (normalize_page_size limit)

abbrev pub requested_product : Uuid → Text → MoneyProto → ℤ → Product
requested_product id name price stock = record {
  id = id;
  name = name;
  price = domain_money price;
  stock = stock;
  version = 0;
}

-- `callerID`, on the user that the interceptor has put into the context
abbrev pub with_caller : {A : Type 0} → Option Uuid → (Uuid → Rpc A) → Rpc A
with_caller none method = refuse as_internal
with_caller (some user) method = method user

-- `idempotencyFromMetadata`, on the values of the key
abbrev pub valid_key : List Text → Option Text
valid_key [] = none
valid_key (key ∷ more) =
    if text_eq key []
    then none
    else if ltb max_idempotency_key_len (length key)
    then none
    else some key

abbrev pub with_key : {A : Type 0} → Option Text → (Text → Rpc A) → Rpc A
with_key none method = refuse as_invalid_argument
with_key (some key) method = method key

module _ (c : Services) where
  abbrev pub texts_of : UuidText
  texts_of = c.cache.texts

  -- `CreateProduct`
  unfoldable pub create_product_rpc : Text → MoneyProto → ℤ → Rpc ProductProto
  create_product_rpc name price stock s =
      let p = requested_product 0 name price stock in
      when_valid (validate_product p) (λ s. answered_by (product_proto texts_of) (create c p s)) s

  -- `GetProduct`
  unfoldable pub get_product_rpc : Text → Rpc ProductProto
  get_product_rpc raw s =
      with_id (texts_of.parse raw)
        (λ id s. answered_by (product_proto texts_of) (find_product c id s)) s

  -- `ListProducts`, with the next cursor
  unfoldable pub list_products_rpc : Text → ℤ → Rpc (List ProductProto × Text)
  list_products_rpc raw limit s =
      with_cursor (parse_cursor texts_of raw)
        (λ cursor s.
          answered_by
            (λ (page : ProductPage).
              (map (product_proto texts_of) page.items, product_next_cursor texts_of page))
            (on_store (find_all cursor (page_size limit)) s))
        s

  -- `UpdateProduct`
  unfoldable pub update_product_rpc : Text → Text → MoneyProto → Rpc ProductProto
  update_product_rpc raw name price s =
      with_id (texts_of.parse raw)
        (λ id s.
          let p = requested_product id name price (pos 0) in
          when_valid (validate_product p)
            (λ s. answered_by (product_proto texts_of) (update_and_invalidate c p s)) s)
        s

  -- `DeleteProduct`
  unfoldable pub delete_product_rpc : Text → Rpc (Unit {0})
  delete_product_rpc raw s =
      with_id (texts_of.parse raw) (λ id s. answered_by (λ u. u) (delete_and_invalidate c id s)) s

  -- `CreateOrder`; the flag is the idempotency-replayed header
  unfoldable pub create_order_rpc : Option Uuid → List Text → Text → ℤ → Rpc (OrderProto × Bool)
  create_order_rpc caller keys raw qty s =
      with_caller caller
        (λ user s.
          with_id (texts_of.parse raw)
            (λ product s.
              with_key (valid_key keys)
                (λ key s.
                  if valid_purchase_quantity qty
                  then answered_by (λ (r : Order × Bool). (order_proto texts_of r.0, r.1))
                      (create_order_for c user product qty key s)
                  else (refuses as_invalid_argument, s))
                s)
            s)
        s

  -- `GetOrder`
  unfoldable pub get_order_rpc : Option Uuid → Text → Rpc OrderProto
  get_order_rpc caller raw s =
      with_caller caller
        (λ user s.
          with_id (texts_of.parse raw)
            (λ id s. answered_by (order_proto texts_of) (on_store (find_order user id) s)) s)
        s

  -- `ListOrders`
  unfoldable pub list_orders_rpc : Option Uuid → Text → ℤ → Rpc (List OrderProto × Text)
  list_orders_rpc caller raw limit s =
      with_caller caller
        (λ user s.
          with_cursor (parse_cursor texts_of raw)
            (λ cursor s.
              answered_by
                (λ (page : OrderPage).
                  (map (order_proto texts_of) page.items, order_next_cursor texts_of page))
                (on_store (find_orders user cursor (page_size limit)) s))
            s)
        s
