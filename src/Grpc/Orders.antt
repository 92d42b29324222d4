-- ===== src/Grpc/Orders.antt =====
-- Who can place an order through the gRPC server, and for whom.
use storefront.Common.{
  Bool, Option, Text, ap, false, if◌then◌else◌, inl, inr, none, refl, some, subst, sym, text_eq,
  true, ℤ, ◌+◌, ◌∙◌, ◌∷◌, ◌≡◌, ◌⊎◌,
}
use storefront.Auth.{verify}
use storefront.Domain.Orders.{Order}
use storefront.Domain.Pages.{Uuid, UuidText}
use storefront.Errors.{Result, err, ok}
use storefront.Grpc.{valid_key}
use storefront.Grpc.Interceptors.{
  Context, Ending, Serving, Unary, bearer_from, crashed, earlier, is_public, logged_reply,
  logging_rpc, recovered_reply, recovery_rpc, replied, require_auth, timeout_rpc, verified,
  with_token,
}
use storefront.Grpc.Ownership.{
  AddedFor, create_order_rpc-AddedFor, create_rpc-Unordered, delete_rpc-Unordered,
  get_order_rpc-Unordered, get_rpc-Unordered, list_orders_rpc-Unordered, list_rpc-Unordered,
  update_rpc-Unordered,
}
use storefront.Grpc.Served.{Shown, require_auth_cases}
use storefront.Grpc.Server.{
  Call, GrpcServer, Message, call_handler, create_order_call, create_product_call,
  delete_product_call, full_method, get_order_call, get_product_call, health_call, list_orders_call,
  list_products_call, new_server, update_product_call,
}
use storefront.Service.{State}
use storefront.Service.Ownership.{SameOrders, orders_in}

-- An order has been added: the call is CreateOrder with a key, it shows a token that Verify accepts, and
-- the order is of the user that the token names.
pub record PlacesRpc (g : GrpcServer) (call : Call) (c : Context) (before after_it : State)
    : Type 0 where
  pub user : Uuid
  pub key : Text
  pub product_id : Text
  pub quantity : ℤ
  pub placed : Order
  pub shown : Shown g.services.cache.texts g.parser c.authorization user
  pub keyed : valid_key c.idempotency_key ≡ some key
  pub asked : call ≡ create_order_call product_id quantity
  pub owner : placed.user_id ≡ user
  pub added : orders_in after_it ≡ placed ∷ orders_in before

logged_reply-state :
    {A : Type 0} (method : Text) (out : Ending A × Serving)
    → (logged_reply method out).1.state ≡ out.1.state
logged_reply-state method (replied r, s) = refl
logged_reply-state method (crashed, s) = refl

recovered_reply-state :
    {A : Type 0} (method : Text) (out : Ending A × Serving)
    → (recovered_reply method out).1.state ≡ out.1.state
recovered_reply-state method (replied r, s) = refl
recovered_reply-state method (crashed, s) = refl

create_order_call-IsPrivate :
    (id : Text) (qty : ℤ) → is_public (full_method (create_order_call id qty)) ≡ false
unfolding is_public text_eq
create_order_call-IsPrivate id qty = refl

module _ (g : GrpcServer) (call : Call) (c : Context) (s : Serving) where
  abbrev Explained : State → Type 0
  Explained t = SameOrders s.state t ⊎ PlacesRpc g call c s.state t

  abbrev u : UuidText
  u = g.services.cache.texts

  -- a handler that no caller makes add an order
  same-Explained :
      (name : Text) (handler : Unary Message) (d : Context)
      → ((d : Context) → SameOrders s.state (handler d s).1.state)
      → Explained (require_auth u g.parser name handler d s).1.state
  unfolding require_auth
  same-Explained name handler d h = inl (go (is_public name))
    where
      by_user : (r : Result Uuid) → SameOrders s.state (verified r handler d s).1.state
      by_user (err e) = refl
      by_user (ok user) = h (record d { user = some user })

      by_token :
          (o : Option Text) → SameOrders s.state (with_token u g.parser o handler d s).1.state
      by_token none = refl
      by_token (some token) = by_user (verify u g.parser token)

      go :
          (b : Bool)
          → SameOrders s.state
              (if b
                then handler d s
                else with_token u g.parser (bearer_from d.authorization) handler d s).1.state
      go true = h d
      go false = by_token (bearer_from d.authorization)

  placing-Explained :
      (id : Text) (qty : ℤ)
      → call ≡ create_order_call id qty
      → (d : Context) → d.authorization ≡ c.authorization
      → d.idempotency_key ≡ c.idempotency_key
      → Explained
          (require_auth u g.parser
            (full_method (create_order_call id qty))
            (call_handler g (create_order_call id qty))
            d
            s).1.state
  unfolding call_handler
  placing-Explained id qty asked d shows keys =
      elim (require_auth_cases u g.parser (full_method (create_order_call id qty))
        (call_handler g (create_order_call id qty)) d s (create_order_call-IsPrivate id qty)) [
          | inl (_, unchanged) ↦ inl (ap orders_in unchanged)
          | inr (user, shown, runs_for) ↦
              subst Explained (sym (ap (λ (out : Ending Message × Serving). out.1.state) runs_for))
                (placed user shown (
                  create_order_rpc-AddedFor g.services s.state (some user) d.idempotency_key id
                    qty))
        ]
    where
      placed :
          (user : Uuid)
          → Shown u g.parser d.authorization user
          → {t : State}
          → AddedFor g.services s.state
              (λ by key. (some user ≡ some by) × (valid_key d.idempotency_key ≡ some key))
              t
          → Explained t
      placed user shown (inl unchanged) = inl unchanged
      placed user shown (inr (by, key, o, (e, k), owner, added)) = inr record {
        user = user;
        key = key;
        product_id = id;
        quantity = qty;
        placed = o;
        shown = subst (λ values. Shown u g.parser values user) shows shown;
        keyed = subst (λ values. valid_key values ≡ some key) keys k;
        asked = asked;
        owner = cc;
        added = added;
      }

  call-Explained :
      (called : Call)
      → call ≡ called
      → (d : Context) → d.authorization ≡ c.authorization
      → d.idempotency_key ≡ c.idempotency_key
      → Explained (require_auth u g.parser (full_method called) (call_handler g called) d s).1.state
  unfolding call_handler
  call-Explained (create_product_call name price stock) e d a k =
      same-Explained _ (call_handler g (create_product_call name price stock)) d
        (λ d. create_rpc-Unordered g.services s.state name price stock)
  call-Explained (get_product_call id) e d a k =
      same-Explained _ (call_handler g (get_product_call id)) d
        (λ d. get_rpc-Unordered g.services s.state id)
  call-Explained (list_products_call cursor limit) e d a k =
      same-Explained _ (call_handler g (list_products_call cursor limit)) d
        (λ d. list_rpc-Unordered g.services s.state cursor limit)
  call-Explained (update_product_call id name price) e d a k =
      same-Explained _ (call_handler g (update_product_call id name price)) d
        (λ d. update_rpc-Unordered g.services s.state id name price)
  call-Explained (delete_product_call id) e d a k =
      same-Explained _ (call_handler g (delete_product_call id)) d
        (λ d. delete_rpc-Unordered g.services s.state id)
  call-Explained (create_order_call id qty) e d a k = placing-Explained id qty e d a k
  call-Explained (get_order_call id) e d a k =
      same-Explained _ (call_handler g (get_order_call id)) d
        (λ d. get_order_rpc-Unordered g.services s.state d.user id)
  call-Explained (list_orders_call cursor limit) e d a k =
      same-Explained _ (call_handler g (list_orders_call cursor limit)) d
        (λ d. list_orders_rpc-Unordered g.services s.state d.user cursor limit)
  call-Explained health_call e d a k = same-Explained _ (call_handler g health_call) d (λ d. refl)

-- Whatever is called on the gRPC server and whatever its calls meet, the orders table stays as it was or
-- has one order more; it has one more only for a CreateOrder with a valid key that shows a token which
-- Verify accepts, and the order is of the user whom the token names.
pub server_orders :
    (g : GrpcServer) (call : Call) (c : Context) (s : Serving)
    → (orders_in (new_server g call c s).1.state ≡ orders_in s.state)
      ⊎ PlacesRpc g call c s.state (new_server g call c s).1.state
unfolding new_server logging_rpc recovery_rpc timeout_rpc
server_orders g call c s =
    let d : Context = record c {
      deadline = some (earlier c.deadline (s.state.world.clock + g.request_timeout));
    } in
    let out =
      require_auth g.services.cache.texts g.parser (full_method call) (call_handler g call) d s in
    subst (Explained g call c s)
      (sym (
        logged_reply-state (full_method call) (recovered_reply (full_method call) out)
        ∙ recovered_reply-state (full_method call) out))
      (call-Explained g call c s call refl d refl refl)
