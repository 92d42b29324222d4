-- ===== src/Grpc/Ownership.antt =====
-- From a method of gRPC down to the orders table: the methods, the service and the store together.
use storefront.Common.{
  Bool, List, Option, Text, ap, false, if◌then◌else◌, inl, inr, none, pos, refl, some, subst, sym,
  true, ℤ, ◌∷◌, ◌≡◌, ◌⊎◌,
}
use storefront.Domain.Orders.{Order}
use storefront.Domain.Pages.{Cursor, Uuid, parse_cursor}
use storefront.Domain.Products.{valid_purchase_quantity, validate_product}
use storefront.Errors.{Result, err, ok}
use storefront.Grpc.{
  MoneyProto, OrderProto, Rpc, answered_by, as_invalid_argument, create_order_rpc,
  create_product_rpc, delete_product_rpc, get_order_rpc, get_product_rpc, list_orders_rpc,
  list_products_rpc, order_proto, page_size, product_proto, refuses, requested_product,
  update_product_rpc, valid_key, when_valid, with_caller, with_cursor, with_id, with_key,
}
use storefront.Service.{
  Services, State, create, create_order_for, delete_and_invalidate, find_product, on_store,
  update_and_invalidate,
}
use storefront.Service.Ownership.{
  SameOrders, create-same, delete-same, find-same, order-AddsFor, orders_in, update-same,
}
use storefront.Store.Orders.{find_order, find_orders}
use storefront.Store.Ownership.{AddsFor, find_all-db, find_order-db, find_orders-db}
use storefront.Store.Products.{find_all}
use storefront.Store.Schema.{Db}

answered_by-state :
    {A B : Type 0} (f : A → B) (out : Result A × State) → (answered_by f out).1 ≡ out.1
answered_by-state f (ok a, s) = refl
answered_by-state f (err e, s) = refl

-- a property of the state behind a method that its refusals have
module _ (P : State → Type 0) (s : State) (unchanged : P s) where
  answered : {A B : Type 0} (f : A → B) (out : Result A × State) → P out.1 → P (answered_by f out).1
  answered f out h = subst P (sym (answered_by-state f out)) h

  id_state :
      {A : Type 0} (o : Option Uuid) (m : Uuid → Rpc A)
      → ((id : Uuid) → P (m id s).1)
      → P (with_id o m s).1
  id_state none m p = unchanged
  id_state (some id) m p = p id

  cursor_state :
      {A : Type 0} (r : Result Cursor) (m : Cursor → Rpc A)
      → ((a : Cursor) → P (m a s).1)
      → P (with_cursor r m s).1
  cursor_state (ok a) m p = p a
  cursor_state (err e) m p = unchanged

  valid_state :
      {A : Type 0} (v : Result (Unit {0})) (m : Rpc A) → P (m s).1 → P (when_valid v m s).1
  valid_state (ok u) m p = p
  valid_state (err e) m p = unchanged

  caller_state :
      {A : Type 0} (o : Option Uuid) (m : Uuid → Rpc A)
      → ((user : Uuid) → o ≡ some user → P (m user s).1)
      → P (with_caller o m s).1
  caller_state none m p = unchanged
  caller_state (some user) m p = p user refl

  key_state :
      {A : Type 0} (o : Option Text) (m : Text → Rpc A)
      → ((key : Text) → P (m key s).1)
      → P (with_key o m s).1
  key_state none m p = unchanged
  key_state (some key) m p = p key

module _ (c : Services) (s : State) where
  abbrev Unordered : State → Type 0
  Unordered t = SameOrders s t

  pub create_rpc-Unordered :
      (name : Text) (price : MoneyProto) (stock : ℤ)
      → Unordered (create_product_rpc c name price stock s).1
  unfolding create_product_rpc
  create_rpc-Unordered name price stock =
      let p = requested_product 0 name price stock in
      valid_state Unordered s refl (validate_product p) _
        (answered Unordered s refl (product_proto c.cache.texts) (create c p s) (create-same c p s))

  pub update_rpc-Unordered :
      (raw name : Text) (price : MoneyProto) → Unordered (update_product_rpc c raw name price s).1
  unfolding update_product_rpc
  update_rpc-Unordered raw name price = id_state Unordered s refl (c.cache.texts.parse raw) _ (λ id.
      let p = requested_product id name price (pos 0) in
      valid_state Unordered s refl (validate_product p) _ (
        answered Unordered s refl (product_proto c.cache.texts) (update_and_invalidate c p s)
          (update-same c p s)))

  pub delete_rpc-Unordered : (raw : Text) → Unordered (delete_product_rpc c raw s).1
  unfolding delete_product_rpc
  delete_rpc-Unordered raw =
      id_state Unordered s refl (c.cache.texts.parse raw) _ (λ id.
        answered Unordered s refl (λ u. u) (delete_and_invalidate c id s) (delete-same c id s))

  pub get_rpc-Unordered : (raw : Text) → Unordered (get_product_rpc c raw s).1
  unfolding get_product_rpc
  get_rpc-Unordered raw = id_state Unordered s refl (c.cache.texts.parse raw) _ (λ id.
      answered Unordered s refl (product_proto c.cache.texts) (find_product c id s)
        (find-same c id s))

  pub list_rpc-Unordered : (raw : Text) (limit : ℤ) → Unordered (list_products_rpc c raw limit s).1
  unfolding list_products_rpc
  list_rpc-Unordered raw limit =
      cursor_state Unordered s refl (parse_cursor c.cache.texts raw) _ (λ a.
        answered Unordered s refl _ (on_store (find_all a (page_size limit)) s)
          (ap (λ (db : Db). db.orders) (find_all-db a (page_size limit) s.world)))

  pub get_order_rpc-Unordered :
      (caller : Option Uuid) (raw : Text) → Unordered (get_order_rpc c caller raw s).1
  unfolding get_order_rpc
  get_order_rpc-Unordered caller raw = caller_state Unordered s refl caller _ (λ user e.
      id_state Unordered s refl (c.cache.texts.parse raw) _ (λ id.
        answered Unordered s refl _ (on_store (find_order user id) s)
          (ap (λ (db : Db). db.orders) (find_order-db user id s.world))))

  pub list_orders_rpc-Unordered :
      (caller : Option Uuid) (raw : Text) (limit : ℤ)
      → Unordered (list_orders_rpc c caller raw limit s).1
  unfolding list_orders_rpc
  list_orders_rpc-Unordered caller raw limit = caller_state Unordered s refl caller _ (λ user e.
      cursor_state Unordered s refl (parse_cursor c.cache.texts raw) _ (λ a.
        answered Unordered s refl _ (on_store (find_orders user a (page_size limit)) s)
          (ap (λ (db : Db). db.orders) (find_orders-db user a (page_size limit) s.world))))

  -- the order of a user, if one has been added
  abbrev pub AddedFor : (Uuid → Text → Type 0) → State → Type 0
  AddedFor By t =
      SameOrders s t
      ⊎ ((user : Uuid) × (key : Text) × (o : Order) × By user key
          × (o.user_id ≡ user)
          × (orders_in t ≡ o ∷ orders_in s))

  pub create_order_rpc-AddedFor :
      (caller : Option Uuid) (keys : List Text) (raw : Text) (qty : ℤ)
      → AddedFor
          (λ user key. (caller ≡ some user) × (valid_key keys ≡ some key))
          (create_order_rpc c caller keys raw qty s).1
  unfolding create_order_rpc
  create_order_rpc-AddedFor caller keys raw qty = caller_state P s (inl refl) caller _ (λ user e.
      id_state P s (inl refl) (c.cache.texts.parse raw) _
        (λ id. by_key user e id (valid_key keys) refl))
    where
      P : State → Type 0
      P = AddedFor (λ user key. (caller ≡ some user) × (valid_key keys ≡ some key))

      added :
          (user : Uuid) (key : Text) (t : State)
          → caller ≡ some user
          → valid_key keys ≡ some key
          → AddsFor user s.world t.world
          → P t
      added user key t e k (inl unchanged) = inl unchanged
      added user key t e k (inr (o, owner, more)) = inr (user, key, o, (e, k), owner, more)

      in_range :
          (user : Uuid)
          → caller ≡ some user
          → (id : Uuid) (key : Text) → valid_key keys ≡ some key
          → (b : Bool)
          → P
              (if b
                then answered_by {B = OrderProto × Bool}
                    (λ (r : Order × Bool). (order_proto c.cache.texts r.0, r.1))
                    (create_order_for c user id qty key s)
                else (refuses as_invalid_argument, s)).1
      in_range user e id key k true =
          answered P s (inl refl) _ (create_order_for c user id qty key s) (
            added user key (create_order_for c user id qty key s).1 e k
              (order-AddsFor c user id qty key s))
      in_range user e id key k false = inl refl

      by_key :
          (user : Uuid)
          → caller ≡ some user
          → (id : Uuid) (o : Option Text) → valid_key keys ≡ o
          → P
              (with_key o
                (λ key s.
                  if valid_purchase_quantity qty
                  then answered_by {B = OrderProto × Bool}
                      (λ (r : Order × Bool). (order_proto c.cache.texts r.0, r.1))
                      (create_order_for c user id qty key s)
                  else (refuses as_invalid_argument, s))
                s).1
      by_key user e id none k = inl refl
      by_key user e id (some key) k = in_range user e id key k (valid_purchase_quantity qty)
