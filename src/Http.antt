-- ===== src/Http.antt =====
-- internal/transport/http/handler.go, dto.go and codec.go: the handlers over the service. An answer is
-- kept by its status and its body, an error by its status. A body comes with what the JSON decoder made
-- of it.
pub mod Parity
pub mod Effects
pub mod Limit
pub mod Lists
pub mod Wire
pub mod Router
pub mod Middleware
pub mod Polite
pub mod Answers
pub mod Arrivals
pub mod Late
pub mod Permits
pub mod Ownership
pub mod Orders
pub mod Api
use storefront.Common.{
  Bool, Option, Text, [], codes, if◌then◌else◌, length, ltb, none, pos, some, text_eq, ℕ, ℤ, ◌++◌,
}
use storefront.Domain.Money.{Money}
use storefront.Domain.Orders.{Order}
use storefront.Domain.Pages.{Uuid, UuidText}
use storefront.Domain.Products.{
  Product, max_idempotency_key_len, valid_purchase_quantity, validate_product,
}
use storefront.Errors.{
  GoError, Result, err, idempotency_mismatch, insufficient_stock, is, not_found, ok, product_in_use,
  unavailable,
}
use storefront.Service.{
  Services, State, create, create_order_for, delete_and_invalidate, find_product, on_store,
  update_and_invalidate,
}
use storefront.Store.Orders.{find_order}

-- what decodeBody returned for a body, whose length may be 0
pub data Body (A : Type 0) : Type 0 where
  empty_body too_large malformed : Body A
  decoded : A → Body A

pub data Answer (A : Type 0) : Type 0 where
  responds : ℕ → A → Answer A
  responds_error : ℕ → Answer A

pub record AddInput : Type 0 where
  pub name : Text
  pub stock : ℤ
  pub price : Money

pub record UpdateInput : Type 0 where
  pub name : Text
  pub price : Money

pub record CreateOrderInput : Type 0 where
  pub product_id : Text
  pub quantity : ℤ

pub record ProductResponse : Type 0 where
  pub id : Uuid
  pub name : Text
  pub stock : ℤ
  pub price : Money

pub record OrderResponse : Type 0 where
  pub id : Uuid
  pub product_id : Uuid
  pub quantity : ℤ
  pub unit_price : Money
  pub created_at : ℕ

-- `toProductResponse`
abbrev pub product_response : Product → ProductResponse
product_response p = record { id = p.id; name = p.name; stock = p.stock; price = p.price }

-- `toOrderResponse` and `toCreateOrderResponse`
abbrev pub order_response : Order → OrderResponse
order_response o = record {
  id = o.id;
  product_id = o.product_id;
  quantity = o.quantity;
  unit_price = o.unit_price;
  created_at = o.created_at;
}

-- the answer of CreateOrder, with its Location and its Idempotency-Replayed headers
pub record Created : Type 0 where
  pub location : Text
  pub replayed : Bool
  pub order : OrderResponse

abbrev pub created_response : UuidText → Order × Bool → Created
created_response u (o, replayed) = record {
  location = codes "/v1/orders/" ++ u.format o.id;
  replayed = replayed;
  order = order_response o;
}

abbrev pub Handler : Type 0 → Type 0
Handler A = State → Answer A × State

abbrev pub error_of : {A : Type 0} → ℕ → Handler A
error_of status s = (responds_error status, s)

-- `respondServerError`
unfoldable pub server_error : GoError → ℕ
server_error e = if is unavailable e then 503 else 500

-- the errors of GetByID, Update and GetOrder
unfoldable pub lookup_error : GoError → ℕ
lookup_error e = if is not_found e then 404 else server_error e

-- the errors of Delete
unfoldable pub removal_error : GoError → ℕ
removal_error e =
    if is not_found e then 404 else if is product_in_use e then 409 else server_error e

-- the errors of CreateOrder
unfoldable pub order_error : GoError → ℕ
order_error e =
    if is not_found e
    then 404
    else if is insufficient_stock e
    then 409
    else if is idempotency_mismatch e
    then 422
    else server_error e

-- the answer of the service, as a body with its status or an error
abbrev pub respond :
    {A B : Type 0} → (GoError → ℕ) → ℕ → (A → B) → Result A × State → Answer B × State
respond status n f (ok a, s) = (responds n (f a), s)
respond status n f (err e, s) = (responds_error (status e), s)

-- uuid.Parse of a part of the request
abbrev pub if_parsed : {A : Type 0} → Option Uuid → (Uuid → Handler A) → Handler A
if_parsed none h = error_of 400
if_parsed (some id) h = h id

-- the empty body, `decodeBody` and `mapDecodeError`
abbrev pub if_decoded : {A B : Type 0} → Body A → (A → Handler B) → Handler B
if_decoded empty_body h = error_of 400
if_decoded too_large h = error_of 413
if_decoded malformed h = error_of 400
if_decoded (decoded a) h = h a

abbrev pub if_valid : {A : Type 0} → Result (Unit {0}) → Handler A → Handler A
if_valid (err e) h = error_of 422
if_valid (ok u) h = h

-- `callerID`
abbrev pub if_caller : {A : Type 0} → Option Uuid → (Uuid → Handler A) → Handler A
if_caller none h = error_of 500
if_caller (some user) h = h user

-- `idempotencyFromHeader`, on the value of the header, which is empty when the header is missing
abbrev pub header_key : Text → Option Text
header_key key =
    if text_eq key []
    then none
    else if ltb max_idempotency_key_len (length key)
    then none
    else some key

abbrev pub if_key : {A : Type 0} → Option Text → (Text → Handler A) → Handler A
if_key none h = error_of 400
if_key (some key) h = h key

module _ (c : Services) where
  abbrev pub path_id : Text → Option Uuid
  path_id raw = c.cache.texts.parse raw

  -- `GetByID`
  unfoldable pub get_by_id : Text → Handler ProductResponse
  get_by_id raw s =
      if_parsed (path_id raw)
        (λ id s. respond lookup_error 200 product_response (find_product c id s)) s

  -- `Add`
  unfoldable pub add : Body AddInput → Handler ProductResponse
  add body s =
      if_decoded body
        (λ i s.
          let p : Product = record {
            id = 0;
            name = i.name;
            price = i.price;
            stock = i.stock;
            version = 0;
          } in
          if_valid (validate_product p)
            (λ s. respond server_error 201 product_response (create c p s)) s)
        s

  -- `Delete`
  unfoldable pub delete_handler : Text → Handler (Unit {0})
  delete_handler raw s =
      if_parsed (path_id raw)
        (λ id s. respond removal_error 200 (λ u. u) (delete_and_invalidate c id s)) s

  -- `Update`
  unfoldable pub update_handler : Text → Body UpdateInput → Handler ProductResponse
  update_handler raw body s =
      if_parsed (path_id raw)
        (λ id s.
          if_decoded body
            (λ i s.
              let p : Product = record {
                id = id;
                name = i.name;
                price = i.price;
                stock = pos 0;
                version = 0;
              } in
              if_valid (validate_product p)
                (λ s. respond lookup_error 200 product_response (update_and_invalidate c p s)) s)
            s)
        s

  -- `CreateOrder`
  unfoldable pub create_order_handler : Option Uuid → Text → Body CreateOrderInput → Handler Created
  create_order_handler caller key body s =
      if_caller caller
        (λ user s.
          if_decoded body
            (λ i s.
              if_parsed (path_id i.product_id)
                (λ product s.
                  if_key (header_key key)
                    (λ k s.
                      if valid_purchase_quantity i.quantity
                      then respond order_error 201 (created_response c.cache.texts)
                          (create_order_for c user product i.quantity k s)
                      else (responds_error 422, s))
                    s)
                s)
            s)
        s

  -- `GetOrder`
  unfoldable pub get_order_handler : Option Uuid → Text → Handler OrderResponse
  get_order_handler caller raw s =
      if_caller caller
        (λ user s.
          if_parsed (path_id raw)
            (λ id s. respond lookup_error 200 order_response (on_store (find_order user id) s)) s)
        s
