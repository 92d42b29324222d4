-- ===== src/Http/Orders.antt =====
-- Who can place an order through the public server, and for whom.
use storefront.Common.{
  Bool, Option, Text, ap, codes, false, if◌then◌else◌, inl, inr, none, refl, some, subst, sym,
  text_eq, text_eq_sound, true, ℕ, ◌∷◌, ◌≡◌, ◌⊎◌,
}
use storefront.Auth.{bearer_token, verify}
use storefront.Domain.Orders.{Order}
use storefront.Domain.Pages.{Uuid, UuidText}
use storefront.Errors.{Result, err, ok}
use storefront.Http.{Answer}
use storefront.Http.Api.{Deployment, api, api_mux, require_token}
use storefront.Http.Arrivals.{middleware_effect}
use storefront.Http.Late.{created_headers-state, unauthorized-state, written-state}
use storefront.Http.Middleware.{has_body, limited}
use storefront.Http.Ownership.{
  Owned, add-Unordered, create_order-Owned, delete-Unordered, get-Unordered, get_order-Unordered,
  list-Unordered, list_orders-Unordered, update-Unordered,
}
use storefront.Http.Router.{
  Resource, auth, create_order_http, get_order_http, if_bearer, is_get, list_orders_http, new_mux,
  not_allowed, one_order, one_product, order_list, product_list, resource_of, route, unknown,
  with_user,
}
use storefront.Http.Wire.{
  Exchange, HttpHandler, Payload, Request, body_of, created_headers, no_extra, order, orders,
  plain_error, product, product_deleted, products, write_header, written,
}
use storefront.Service.{Services, State}
use storefront.Service.Ownership.{SameOrders, orders_in}

-- An order has been added: the request is a POST to the list of orders, it shows a token that Verify
-- accepts, and the order is of the user that the token names.
pub record Places (d : Deployment) (r : Request) (before after_it : State) : Type 0 where
  pub user : Uuid
  pub token : Text
  pub placed : Order
  pub bears : bearer_token (r.header (codes "Authorization")) ≡ some token
  pub accepted : verify d.services.cache.texts d.parser token ≡ ok user
  pub posted : r.method ≡ codes "POST"
  pub at_orders : resource_of r.path ≡ order_list
  pub owner : placed.user_id ≡ user
  pub added : orders_in after_it ≡ placed ∷ orders_in before

module _ (d : Deployment) (r : Request) (x : Exchange) where
  abbrev Explained : State → Type 0
  Explained t = SameOrders x.state t ⊎ Places d r x.state t

  abbrev with_limit : Option ℕ → Request
  with_limit l = record r { limit = l }

  written-Explained :
      {A : Type 0} (extra : A → Exchange → Exchange) (show : A → Payload) (out : Answer A × State)
      (q : Request)
      → ((a : A) (y : Exchange) → (extra a y).state ≡ y.state)
      → Explained out.1
      → Explained (written extra show out q x).1.state
  written-Explained extra show out q keeps h =
      subst Explained (sym (written-state extra show out q x keeps)) h

  -- behind Auth: for each accepted token the handler has to be explained
  auth-Explained :
      (h : HttpHandler) (q : Request)
      → ((user : Uuid) (token : Text)
          → bearer_token (q.header (codes "Authorization")) ≡ some token
          → verify d.services.cache.texts d.parser token ≡ ok user
          → Explained (h (record q { caller = some user }) x).1.state)
      → Explained (require_token d h q x).1.state
  unfolding auth
  auth-Explained h q k = by_bearer (bearer_token (q.header (codes "Authorization"))) refl
    where
      u : UuidText
      u = d.services.cache.texts

      by_user :
          (token : Text) (v : Result Uuid)
          → bearer_token (q.header (codes "Authorization")) ≡ some token
          → verify u d.parser token ≡ v
          → Explained (with_user v h q x).1.state
      by_user token (err e) b v = inl (ap orders_in (unauthorized-state q x))
      by_user token (ok user) b v = k user token b v

      by_bearer :
          (t : Option Text)
          → bearer_token (q.header (codes "Authorization")) ≡ t
          → Explained (if_bearer u d.parser t h q x).1.state
      by_bearer none b = inl (ap orders_in (unauthorized-state q x))
      by_bearer (some token) b = by_user token (verify u d.parser token) b refl

  if-Explained :
      (b : Bool) (h k : HttpHandler) (q : Request)
      → Explained (h q x).1.state
      → (b ≡ false → Explained (k q x).1.state)
      → Explained ((if b then h else k) q x).1.state
  if-Explained true h k q p e = p
  if-Explained false h k q p e = e refl

  abbrev c : Services
  c = d.services

  posted-Explained :
      (l : Option ℕ)
      → resource_of r.path ≡ order_list
      → r.method ≡ codes "POST"
      → Explained (require_token d (create_order_http c d.decoders) (with_limit l) x).1.state
  posted-Explained l at_orders posted =
      auth-Explained (create_order_http c d.decoders) (with_limit l) λ user token b v.
        written-Explained created_headers (λ o. order o.order) _ _ created_headers-state
          (placed_by user token b v (
            create_order-Owned c x.state (some user) (r.header (codes "Idempotency-Key"))
              (body_of d.decoders.order_body (with_limit l))))
    where
      placed_by :
          (user : Uuid) (token : Text)
          → bearer_token (r.header (codes "Authorization")) ≡ some token
          → verify d.services.cache.texts d.parser token ≡ ok user
          → {t : State} → Owned c x.state (some user) t
          → Explained t
      placed_by user token b v (inl unchanged) = inl unchanged
      placed_by user token b v (inr (u, o, e, owner, added)) = inr (record {
        user = user;
        token = token;
        placed = o;
        bears = b;
        accepted = v;
        posted = posted;
        at_orders = at_orders;
        owner = cc;
        added = added;
      })

  route-Explained :
      (l : Option ℕ) (p : Resource)
      → resource_of r.path ≡ p
      → Explained (route c d.decoders (require_token d) p r.method (with_limit l) x).1.state
  unfolding route plain_error write_header
  route-Explained l product_list e =
      if-Explained (is_get r.method) _ _ (with_limit l)
        (written-Explained no_extra products _ (with_limit l) (λ a y. refl)
          (inl (list-Unordered c x.state (r.query (codes "limit")) (r.query (codes "cursor")))))
        λ n.
          if-Explained (text_eq r.method (codes "POST")) _ _ (with_limit l)
            (written-Explained no_extra product _ (with_limit l) (λ a y. refl)
              (inl (add-Unordered c x.state (body_of d.decoders.add_body (with_limit l)))))
            λ m. inl refl
  route-Explained l (one_product id) e =
      if-Explained (is_get r.method) _ _ (with_limit l)
        (written-Explained no_extra product _ (with_limit l) (λ a y. refl)
          (inl (get-Unordered c x.state id)))
        λ n.
          if-Explained (text_eq r.method (codes "PUT")) _ _ (with_limit l)
            (written-Explained no_extra product _ (with_limit l) (λ a y. refl)
              (inl (update-Unordered c x.state id (body_of d.decoders.update_body (with_limit l)))))
            λ m.
              if-Explained (text_eq r.method (codes "DELETE")) _ _ (with_limit l)
                (written-Explained no_extra (λ u. product_deleted) _ (with_limit l) (λ a y. refl)
                  (inl (delete-Unordered c x.state id)))
                λ k. inl refl
  route-Explained l order_list e =
      if-Explained (is_get r.method) _ _ (with_limit l)
        (auth-Explained (list_orders_http c d.decoders) (with_limit l) λ user token b v.
          written-Explained no_extra orders _ _ (λ a y. refl)
            (inl (
              list_orders-Unordered c x.state (some user) (r.query (codes "limit"))
                (r.query (codes "cursor")))))
        λ n. go (text_eq r.method (codes "POST")) refl
    where
      go :
          (b : Bool)
          → text_eq r.method (codes "POST") ≡ b
          → Explained
              ((if b
                  then require_token d (create_order_http c d.decoders)
                  else not_allowed (codes "GET, HEAD, POST"))
                (with_limit l)
                x).1.state
      go true m = posted-Explained l e (text_eq_sound r.method (codes "POST") m)
      go false m = inl refl
  route-Explained l (one_order id) e =
      if-Explained (is_get r.method) _ _ (with_limit l)
        (auth-Explained (get_order_http c d.decoders id) (with_limit l) λ user token b v.
          written-Explained no_extra order _ _ (λ a y. refl)
            (inl (get_order-Unordered c x.state (some user) id)))
        λ n. inl refl
  route-Explained l unknown e = inl refl

limited_mux :
    (d : Deployment) (r : Request) (x : Exchange)
    → Explained d r x (api_mux d (limited d.settings.max_body_bytes r) x).1.state
unfolding new_mux
limited_mux d r x = go (has_body r.method)
  where
    go :
        (b : Bool)
        → Explained d r x
            (api_mux d
              (if b then record r { limit = some d.settings.max_body_bytes } else r)
              x).1.state
    go true = route-Explained d r x (some d.settings.max_body_bytes) (resource_of r.path) refl
    go false = route-Explained d r x r.limit (resource_of r.path) refl

-- Whatever is requested of the public server and whatever its calls meet, the orders table stays as it
-- was or has one order more; it has one more only for a POST to the list of orders that shows a token
-- which Verify accepts, and the order is of the user whom the token names.
pub api_orders :
    (d : Deployment) (r : Request) (x : Exchange)
    → (orders_in (api d r x).1.state ≡ orders_in x.state) ⊎ Places d r x.state (api d r x).1.state
unfolding api
api_orders d r x =
    middleware_effect (λ s t. SameOrders s t ⊎ Places d r s t) (λ s. inl refl) d.settings d.outside
      (api_mux d) r (λ site y. limited_mux d r y) x
