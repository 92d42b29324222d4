-- ===== src/Http/Arrivals.antt =====
-- Which requests to internal/transport/http reach the program's state.
use storefront.Common.{
  Bool, List, Option, Text, [], codes, false, if◌then◌else◌, length, none, refl, some, subst, sym,
  true, ℕ, ℤ, ◌∷◌, ◌≡◌, ◌≢◌, ◌≤◌,
}
use storefront.Auth.{bearer_token, verify}
use storefront.Domain.Pages.{Uuid}
use storefront.Errors.{ok}
use storefront.Http.{AddInput, CreateOrderInput, UpdateInput, decoded}
use storefront.Http.Api.{Deployment}
use storefront.Http.Middleware.{
  MiddlewareCfg, Outside, allows_origin, body_limit, closed_by, compression, content_policy,
  cors_policy, csrf, has_body, hsts, let_go-state, limited, logging, new_middleware, or_preflight,
  recovered, recovery, security_headers, transport_security, with_headers,
}
use storefront.Http.Router.{Decoders, Resource, one_order, order_list, resource_of}
use storefront.Http.Wire.{
  Ended, Exchange, HttpHandler, Request, cut, error_message, nosniff, panicked, respond_json,
  respond_json-state, returned, with_header, write_header,
}
use storefront.Service.{State}

-- a body, where the method carries one, is within the limit
abbrev pub Fits : ℕ → Request → Type 0
Fits max r = has_body r.method ≡ true → length r.body ≤ max

-- the caller has shown a token that Verify accepts
abbrev pub ShowsToken : Deployment → Request → Type 0
ShowsToken d r =
    (user : Uuid) × (token : Text) × (bearer_token (r.header (codes "Authorization")) ≡ some token)
    × (verify d.services.cache.texts d.parser token ≡ ok user)

abbrev pub IsOrders : Resource → Type 0
IsOrders order_list = Unit
IsOrders (one_order id) = Unit
IsOrders other = ⊥

-- what a request needs to have any effect
pub record Permitted (d : Deployment) (r : Request) : Type 0 where
  pub same_site : allows_origin d.settings.cors_allowed_origins d.outside r ≡ true
  pub in_size : Fits d.settings.max_body_bytes r
  pub known : IsOrders (resource_of r.path) → ShowsToken d r

-- a decoder that meets the limit before the end of the body decodes nothing
pub record NeedsEnd (d : Decoders) : Type 0 where
  pub add_end : (t : Text) (a : AddInput) → d.add_body (cut t) ≢ decoded a
  pub update_end : (t : Text) (a : UpdateInput) → d.update_body (cut t) ≢ decoded a
  pub order_end : (t : Text) (a : CreateOrderInput) → d.order_body (cut t) ≢ decoded a

-- the middlewares, for a relation between the states that holds of equal ones
module _ (Q : State → State → Type 0) (same : (s : State) → Q s s) where
  abbrev Effect : HttpHandler → Request → Type 0
  Effect h r = (x : Exchange) → Q x.state (h r x).1.state

  module _ (o : Outside) (h : HttpHandler) (r : Request) where
    csrf-Effect :
        (origins : List Text)
        → (allows_origin origins o r ≡ true → Effect h r)
        → Effect (csrf origins o h) r
    unfolding csrf
    csrf-Effect origins e x = go (allows_origin origins o r) refl
      where
        go :
            (b : Bool)
            → allows_origin origins o r ≡ b
            → Q x.state (if b then h r x else (returned, respond_json 403 error_message x)).1.state
        go true h = e h x
        go false h = subst (Q x.state) (sym (respond_json-state 403 error_message x)) (same x.state)

    with_headers-state :
        (ps : List (Text × Text)) (x : Exchange) → (with_headers ps x).state ≡ x.state
    with_headers-state [] x = refl
    with_headers-state (p ∷ ps) x = with_headers-state ps (with_header p.0 p.1 x)

    cors-Effect : (origins : List Text) → Effect h r → Effect (cors_policy origins o h) r
    unfolding cors_policy write_header
    cors-Effect [] e x = e x
    cors-Effect (origin ∷ origins) e x =
        subst (λ (s : State). Q s (or_preflight (o.preflight r) h r y).1.state)
          (with_headers-state (o.cors_headers r) x) (go (o.preflight r))
      where
        y : Exchange
        y = with_headers (o.cors_headers r) x

        go : (n : Option ℕ) → Q y.state (or_preflight n h r y).1.state
        go (some n) = same y.state
        go none = e y

    compression-Effect : Effect h r → Effect (compression o h) r
    unfolding compression
    compression-Effect e x = go (h r x) (e x)
      where
        go :
            (out : Ended × Exchange) → Q x.state out.1.state → Q x.state (closed_by o r out).1.state
        go (e, y) q = subst (Q x.state) (sym (let_go-state (o.holds_back r y.payloads) y.sent y)) q

  security-Effect :
      (h : HttpHandler) (r : Request) (enabled : Bool) (age : ℤ)
      → Effect h r
      → Effect (security_headers enabled age h) r
  unfolding security_headers
  security-Effect h r true age e x = e (
      with_header transport_security (hsts age) (
        with_header content_policy (codes "frame-ancestors 'none'")
          (with_header nosniff (codes "nosniff") x)))
  security-Effect h r false age e x = e (
      with_header content_policy (codes "frame-ancestors 'none'")
        (with_header nosniff (codes "nosniff") x))

  recovery-Effect : (h : HttpHandler) (r : Request) → Effect h r → Effect (recovery h) r
  unfolding recovery
  recovery-Effect h r e x = go (h r x) (e x)
    where
      go : (out : Ended × Exchange) → Q x.state out.1.state → Q x.state (recovered out).1.state
      go (returned, y) q = q
      go (panicked, y) q = subst (Q x.state) (sym (respond_json-state 500 error_message y)) q

  -- the chain calls the handler with the limited request, and only from the same site
  pub middleware_effect :
      (cfg : MiddlewareCfg) (o : Outside) (h : HttpHandler) (r : Request)
      → (allows_origin cfg.cors_allowed_origins o r ≡ true
          → (x : Exchange) → Q x.state (h (limited cfg.max_body_bytes r) x).1.state)
      → (x : Exchange) → Q x.state (new_middleware cfg o h r x).1.state
  unfolding new_middleware logging body_limit compression
  middleware_effect cfg o h r e x =
      recovery-Effect _ r
        (security-Effect _ r cfg.hsts_enabled cfg.hsts_max_age (
          cors-Effect o _ r cfg.cors_allowed_origins (
            csrf-Effect o (body_limit cfg.max_body_bytes (compression o h)) r
              cfg.cors_allowed_origins
              (λ a. compression-Effect o h (limited cfg.max_body_bytes r) (e a)))))
        (record x { recorded = 200 })
