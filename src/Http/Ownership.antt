-- ===== src/Http/Ownership.antt =====
-- From a request to the public server down to the orders table: the server, the handlers, the service
-- and the store together.
use storefront.Common.{
  Bool, Option, Text, ap, false, if◌then◌else◌, inl, inr, none, pos, refl, some, subst, sym, true,
  ℕ, ◌∷◌, ◌≡◌, ◌⊎◌,
}
use storefront.Domain.Orders.{Order}
use storefront.Domain.Pages.{Uuid, parse_cursor}
use storefront.Domain.Products.{Product, valid_purchase_quantity, validate_product}
use storefront.Errors.{GoError, Result, err, ok, same}
use storefront.Grpc.{size_of}
use storefront.Http.{
  AddInput, Body, CreateOrderInput, Handler, UpdateInput, add, create_order_handler,
  created_response, decoded, delete_handler, empty_body, get_by_id, get_order_handler, header_key,
  if_caller, if_decoded, if_key, if_parsed, if_valid, lookup_error, malformed, order_error,
  order_response, path_id, product_response, removal_error, respond, responds_error, server_error,
  too_large, update_handler,
}
use storefront.Http.Limit.{parse_limit}
use storefront.Http.Lists.{get_handler, if_ok, list_orders_handler, orders_page, products_page}
use storefront.Service.{
  Services, State, create, create_order_for, delete_and_invalidate, find_product, on_store,
  update_and_invalidate,
}
use storefront.Service.Ownership.{
  SameOrders, create-same, delete-same, find-same, order-AddsFor, orders_in, update-same,
}
use storefront.Store.Orders.{find_order, find_orders}
use storefront.Store.Ownership.{AddsFor, find_all-db, find_order-db, find_orders-db}
use storefront.Store.Products.{find_all}
use storefront.Store.Schema.{Db}

respond-state :
    {A B : Type 0} (status : GoError → ℕ) (n : ℕ) (f : A → B) (out : Result A × State)
    → (respond status n f out).1 ≡ out.1
respond-state status n f (ok a, s) = refl
respond-state status n f (err e, s) = refl

-- a property of the state behind a handler that its refusals have
module _ (P : State → Type 0) (s : State) (unchanged : P s) where
  answered_state :
      {A B : Type 0} (status : GoError → ℕ) (n : ℕ) (f : A → B) (out : Result A × State)
      → P out.1
      → P (respond status n f out).1
  answered_state status n f out h = subst P (sym (respond-state status n f out)) h

  parsed_state :
      {A : Type 0} (o : Option Uuid) (h : Uuid → Handler A)
      → ((id : Uuid) → P (h id s).1)
      → P (if_parsed o h s).1
  parsed_state none h p = unchanged
  parsed_state (some id) h p = p id

  decoded_state :
      {A B : Type 0} (b : Body A) (h : A → Handler B)
      → ((a : A) → P (h a s).1)
      → P (if_decoded b h s).1
  decoded_state empty_body h p = unchanged
  decoded_state too_large h p = unchanged
  decoded_state malformed h p = unchanged
  decoded_state (decoded a) h p = p a

  valid_state :
      {A : Type 0} (v : Result (Unit {0})) (h : Handler A) → P (h s).1 → P (if_valid v h s).1
  valid_state (ok u) h p = p
  valid_state (err e) h p = unchanged

  caller_state :
      {A : Type 0} (o : Option Uuid) (h : Uuid → Handler A)
      → ((user : Uuid) → o ≡ some user → P (h user s).1)
      → P (if_caller o h s).1
  caller_state none h p = unchanged
  caller_state (some user) h p = p user refl

  key_state :
      {A : Type 0} (o : Option Text) (h : Text → Handler A)
      → ((key : Text) → P (h key s).1)
      → P (if_key o h s).1
  key_state none h p = unchanged
  key_state (some key) h p = p key

  ok_state :
      {A B : Type 0} (r : Result A) (h : A → Handler B)
      → ((a : A) → P (h a s).1)
      → P (if_ok r h s).1
  ok_state (err e) h p = unchanged
  ok_state (ok a) h p = p a

module _ (c : Services) (s : State) where
  abbrev pub Unordered : State → Type 0
  Unordered t = SameOrders s t

  pub add-Unordered : (b : Body AddInput) → Unordered (add c b s).1
  unfolding add
  add-Unordered b = decoded_state Unordered s refl b _ (λ i.
      let p : Product = record {
        id = 0;
        name = i.name;
        price = i.price;
        stock = i.stock;
        version = 0;
      } in
      valid_state Unordered s refl (validate_product p) _ (
        answered_state Unordered s refl server_error 201 product_response (create c p s)
          (create-same c p s)))

  pub update-Unordered :
      (raw : Text) (b : Body UpdateInput) → Unordered (update_handler c raw b s).1
  unfolding update_handler
  update-Unordered raw b = parsed_state Unordered s refl (path_id c raw) _ (λ id.
      decoded_state Unordered s refl b _ (λ i.
        let p : Product = record {
          id = id;
          name = i.name;
          price = i.price;
          stock = pos 0;
          version = 0;
        } in
        valid_state Unordered s refl (validate_product p) _ (
          answered_state Unordered s refl lookup_error 200 product_response
            (update_and_invalidate c p s) (update-same c p s))))

  pub delete-Unordered : (raw : Text) → Unordered (delete_handler c raw s).1
  unfolding delete_handler
  delete-Unordered raw = parsed_state Unordered s refl (path_id c raw) _ (λ id.
      answered_state Unordered s refl removal_error 200 (λ u. u) (delete_and_invalidate c id s)
        (delete-same c id s))

  pub get-Unordered : (raw : Text) → Unordered (get_by_id c raw s).1
  unfolding get_by_id
  get-Unordered raw = parsed_state Unordered s refl (path_id c raw) _ (λ id.
      answered_state Unordered s refl lookup_error 200 product_response (find_product c id s)
        (find-same c id s))

  pub list-Unordered : (limit cursor : Text) → Unordered (get_handler c limit cursor s).1
  unfolding get_handler
  list-Unordered limit cursor = ok_state Unordered s refl (parse_limit limit) _ (λ n.
      ok_state Unordered s refl (parse_cursor c.cache.texts cursor) _ (λ a.
        answered_state Unordered s refl server_error 200 (products_page c.cache.texts)
          (on_store (find_all a (size_of n)) s)
          (ap (λ (db : Db). db.orders) (find_all-db a (size_of n) s.world))))

  pub get_order-Unordered :
      (caller : Option Uuid) (raw : Text) → Unordered (get_order_handler c caller raw s).1
  unfolding get_order_handler
  get_order-Unordered caller raw = caller_state Unordered s refl caller _ (λ user e.
      parsed_state Unordered s refl (path_id c raw) _ (λ id.
        answered_state Unordered s refl lookup_error 200 order_response
          (on_store (find_order user id) s)
          (ap (λ (db : Db). db.orders) (find_order-db user id s.world))))

  pub list_orders-Unordered :
      (caller : Option Uuid) (limit cursor : Text)
      → Unordered (list_orders_handler c caller limit cursor s).1
  unfolding list_orders_handler
  list_orders-Unordered caller limit cursor = caller_state Unordered s refl caller _ (λ user e.
      ok_state Unordered s refl (parse_limit limit) _ (λ n.
        ok_state Unordered s refl (parse_cursor c.cache.texts cursor) _ (λ a.
          answered_state Unordered s refl server_error 200 (orders_page c.cache.texts)
            (on_store (find_orders user a (size_of n)) s)
            (ap (λ (db : Db). db.orders) (find_orders-db user a (size_of n) s.world)))))

  -- the caller's order, if any
  abbrev pub Owned : Option Uuid → State → Type 0
  Owned caller t =
      SameOrders s t
      ⊎ ((user : Uuid) × (o : Order) × (caller ≡ some user)
          × (o.user_id ≡ user)
          × (orders_in t ≡ o ∷ orders_in s))

  pub create_order-Owned :
      (caller : Option Uuid) (key : Text) (b : Body CreateOrderInput)
      → Owned caller (create_order_handler c caller key b s).1
  unfolding create_order_handler
  create_order-Owned caller key b = caller_state (Owned caller) s (inl refl) caller _ (λ user e.
      decoded_state (Owned caller) s (inl refl) b _ (λ i.
        parsed_state (Owned caller) s (inl refl) (path_id c i.product_id) _ (λ id.
          key_state (Owned caller) s (inl refl) (header_key key) _
            (λ k. in_range user e i id k (valid_purchase_quantity i.quantity)))))
    where
      added :
          (user : Uuid) (t : State)
          → caller ≡ some user
          → AddsFor user s.world t.world
          → Owned caller t
      added user t e (inl same) = inl same
      added user t e (inr (o, owner, more)) = inr (user, o, e, owner, more)

      in_range :
          (user : Uuid)
          → caller ≡ some user
          → (i : CreateOrderInput) (id : Uuid) (k : Text) (b : Bool)
          → Owned caller
              (if b
                then respond order_error 201
                    (created_response c.cache.texts)
                    (create_order_for c user id i.quantity k s)
                else (responds_error 422, s)).1
      in_range user e i id k true =
          answered_state (Owned caller) s (inl refl) order_error 201
            (created_response c.cache.texts) (create_order_for c user id i.quantity k s)
            (added user (create_order_for c user id i.quantity k s).1 e
              (order-AddsFor c user id i.quantity k s))
      in_range user e i id k false = inl refl
