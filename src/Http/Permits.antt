-- ===== src/Http/Permits.antt =====
-- What a request to the public server needs to change the program's state.
use storefront.Common.{
  Bool, Option, Text, codes, false, if◌then◌else◌, inl, inr, leb, leb→le, length, none, refl, some,
  subst, text_eq, true, ℕ, ◌≡◌, ◌⊎◌,
}
use storefront.Auth.{bearer_token, verify}
use storefront.Domain.Pages.{Uuid, UuidText}
use storefront.Errors.{Result, err, ok, same}
use storefront.Http.Api.{Deployment, api, api_mux, require_token}
use storefront.Http.Arrivals.{Fits, IsOrders, NeedsEnd, Permitted, ShowsToken, middleware_effect}
use storefront.Http.Late.{late_unchanged, unauthorized-state}
use storefront.Http.Middleware.{allows_origin, has_body, limited}
use storefront.Http.Router.{
  Resource, auth, create_order_http, get_order_http, if_bearer, is_get, list_orders_http, new_mux,
  not_allowed, one_order, one_product, order_list, product_list, resource_of, route, unknown,
  with_user,
}
use storefront.Http.Wire.{Exchange, HttpHandler, Request, plain_error, write_header}

module _ (d : Deployment) where
  -- an order route without an accepted token
  auth_effect :
      (h : HttpHandler) (r : Request) (x : Exchange)
      → ((require_token d h r x).1.state ≡ x.state) ⊎ ShowsToken d r
  unfolding auth
  auth_effect h r x = by_bearer (bearer_token (r.header (codes "Authorization"))) refl
    where
      u : UuidText
      u = d.services.cache.texts

      by_user :
          (token : Text) (v : Result Uuid)
          → bearer_token (r.header (codes "Authorization")) ≡ some token
          → verify u d.parser token ≡ v
          → ((with_user v h r x).1.state ≡ x.state) ⊎ ShowsToken d r
      by_user token (err e) b v = inl (unauthorized-state r x)
      by_user token (ok user) b v = inr (user, token, b, v)

      by_bearer :
          (t : Option Text)
          → bearer_token (r.header (codes "Authorization")) ≡ t
          → ((if_bearer u d.parser t h r x).1.state ≡ x.state) ⊎ ShowsToken d r
      by_bearer none b = inl (unauthorized-state r x)
      by_bearer (some token) b = by_user token (verify u d.parser token) b refl

  orders_effect :
      (p : Resource) (m : Text) (r : Request) (x : Exchange)
      → IsOrders p
      → ((route d.services d.decoders (require_token d) p m r x).1.state ≡ x.state) ⊎ ShowsToken d r
  unfolding route plain_error write_header
  orders_effect order_list m r x i = go (is_get m) (text_eq m (codes "POST"))
    where
      go :
          (g p : Bool)
          → (((if g
                  then require_token d (list_orders_http d.services d.decoders)
                  else if p
                  then require_token d (create_order_http d.services d.decoders)
                  else not_allowed (codes "GET, HEAD, POST"))
                r x).1.state
              ≡ x.state)
            ⊎ ShowsToken d r
      go true p = auth_effect (list_orders_http d.services d.decoders) r x
      go false true = auth_effect (create_order_http d.services d.decoders) r x
      go false false = inl refl
  orders_effect (one_order id) m r x i = go (is_get m)
    where
      go :
          (g : Bool)
          → (((if g
                  then require_token d (get_order_http d.services d.decoders id)
                  else not_allowed (codes "GET, HEAD"))
                r x).1.state
              ≡ x.state)
            ⊎ ShowsToken d r
      go true = auth_effect (get_order_http d.services d.decoders id) r x
      go false = inl refl
  orders_effect product_list m r x i = elim i [ ]
  orders_effect (one_product id) m r x i = elim i [ ]
  orders_effect unknown m r x i = elim i [ ]

  -- the mux behind the limit
  allowed_effect :
      NeedsEnd d.decoders
      → (r : Request) (x : Exchange)
      → allows_origin d.settings.cors_allowed_origins d.outside r ≡ true
      → ((api_mux d (limited d.settings.max_body_bytes r) x).1.state ≡ x.state) ⊎ Permitted d r
  unfolding new_mux
  allowed_effect complete r x site = go (has_body r.method) (leb (length r.body) max) refl refl
    where
      max : ℕ
      max = d.settings.max_body_bytes

      permits : Fits max r → (IsOrders (resource_of r.path) → ShowsToken d r) → Permitted d r
      permits fits known = record { same_site = site; in_size = fits; known = known }

      Routed : Option ℕ → Resource → Type 0
      Routed l p =
          ((route d.services d.decoders (require_token d) p r.method (record r { limit = l })
              x).1.state
            ≡ x.state)
          ⊎ Permitted d r

      no_orders :
          (p : Resource) → resource_of r.path ≡ p → (IsOrders p → ⊥) → Fits max r → Permitted d r
      no_orders p k n fits = permits fits (λ i. absurd (n (subst IsOrders k i)))

      with_token :
          (l : Option ℕ) (p : Resource)
          → Fits max r
          → ((route d.services d.decoders
                (require_token d)
                p
                r.method
                (record r { limit = l })
                x).1.state
              ≡ x.state)
            ⊎ ShowsToken d r
          → Routed l p
      with_token l p fits (inl same) = inl same
      with_token l p fits (inr shown) = inr (permits fits (λ i. shown))

      routed : (l : Option ℕ) (p : Resource) → resource_of r.path ≡ p → Fits max r → Routed l p
      routed l order_list k fits =
          with_token l order_list fits
            (orders_effect order_list r.method (record r { limit = l }) x tt)
      routed l (one_order id) k fits =
          with_token l (one_order id) fits
            (orders_effect (one_order id) r.method (record r { limit = l }) x tt)
      routed l product_list k fits = inr (no_orders product_list k (λ i. i) fits)
      routed l (one_product id) k fits = inr (no_orders (one_product id) k (λ i. i) fits)
      routed l unknown k fits = inr (no_orders unknown k (λ i. i) fits)

      go :
          (b fits : Bool)
          → has_body r.method ≡ b
          → leb (length r.body) max ≡ fits
          → ((api_mux d (if b then record r { limit = some max } else r) x).1.state ≡ x.state)
            ⊎ Permitted d r
      go true true h l =
          routed (some max) (resource_of r.path) refl (λ b. leb→le (length r.body) max l)
      go true false h l =
          inl (late_unchanged d complete max (record r { limit = some max }) x h (refl, l))
      go false fits h l = routed r.limit (resource_of r.path) refl (λ b. cc)

-- A request to the public server changes nothing unless it comes from the same site or a trusted origin
-- (or its method is safe), its body, where its method carries one, is within the limit, and, on the
-- paths of orders, it shows a bearer token that Verify accepts. This holds for decoders that decode
-- nothing when the limit cuts a body off.
pub api_permits :
    (d : Deployment) (r : Request) (x : Exchange)
    → NeedsEnd d.decoders
    → ((api d r x).1.state ≡ x.state) ⊎ Permitted d r
unfolding api
api_permits d r x complete =
    middleware_effect (λ s t. (t ≡ s) ⊎ Permitted d r) (λ s. inl refl) d.settings d.outside
      (api_mux d) r (λ site y. allowed_effect d complete r y site) x
