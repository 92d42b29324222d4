-- ===== src/Http/Answers.antt =====
-- The answers of the public server and its log: internal/transport/http/middleware.go, router.go
-- and codec.go.
use storefront.Common.{
  All, Bool, List, Option, Text, [], any, ap, codes, false, if◌then◌else◌, inl, map, none, refl,
  some, subst, sym, text_eq, true, ℕ, ◌∙◌, ◌∷◌, ◌≡◌, ◌⊎◌,
}
use storefront.Errors.{same}
use storefront.Grpc.Interceptors.{log}
use storefront.Http.Api.{Deployment, api, api_mux, require_token}
use storefront.Http.Middleware.{
  MiddlewareCfg, Outside, allows_origin, body_limit, closed_by, compression, content_policy,
  cors_policy, csrf, encode, hsts, is_security_header, let_go, limited, log_line, logging,
  new_middleware, or_preflight, recovered, recovery, security_headers, transport_security,
  with_headers,
}
use storefront.Http.Polite.{
  Answered, IsFresh, Polite, Secure, auth-Polite, created_headers-IsFresh, created_headers-logged,
  if_Polite, not_allowed-Polite, plain_error-Answered, plainly_written-Answered,
  respond_json-Answered, with_header-IsFresh, write_header-Answered, written-Answered,
}
use storefront.Http.Router.{
  Around, Decoders, Resource, create_order_http, get_order_http, is_get, list_orders_http, new_mux,
  one_order, one_product, order_list, product_list, resource_of, route, unknown,
}
use storefront.Http.Wire.{
  Ended, Exchange, Header, HttpHandler, LogLine, Payload, Request, Sent, created_headers,
  error_message, is_broken, nosniff, order, orders, panicked, product, product_deleted, products,
  respond_json, returned, with_header,
}
use storefront.Service.{Services}

abbrev header_of : Option Sent → Header
header_of none = λ k. none
header_of (some s) = s.header

module _ (cfg : MiddlewareCfg) where
  module _ (c : Services) (d : Decoders) (around : Around)
      (keeps : (h : HttpHandler) → Polite cfg h → Polite cfg (around h)) where
    list_orders-Polite : Polite cfg (list_orders_http c d)
    list_orders-Polite r x f = plainly_written-Answered cfg orders _ r x f

    create_order-Polite : Polite cfg (create_order_http c d)
    create_order-Polite r x f =
        written-Answered cfg created_headers (λ o. order o.order) (created_headers-IsFresh cfg)
          (created_headers-logged cfg) _ r x f

    route-Polite : (p : Resource) (m : Text) → Polite cfg (route c d around p m)
    unfolding route
    route-Polite product_list m =
        if_Polite cfg (is_get m) _ _ (λ r x f. plainly_written-Answered cfg products _ r x f)
          (if_Polite cfg (text_eq m (codes "POST")) _ _
            (λ r x f. plainly_written-Answered cfg product _ r x f)
            (not_allowed-Polite cfg (codes "GET, HEAD, POST")))
    route-Polite (one_product id) m =
        if_Polite cfg (is_get m) _ _ (λ r x f. plainly_written-Answered cfg product _ r x f)
          (if_Polite cfg (text_eq m (codes "PUT")) _ _
            (λ r x f. plainly_written-Answered cfg product _ r x f)
            (if_Polite cfg (text_eq m (codes "DELETE")) _ _
              (λ r x f. plainly_written-Answered cfg (λ u. product_deleted) _ r x f)
              (not_allowed-Polite cfg (codes "DELETE, GET, HEAD, PUT"))))
    route-Polite order_list m =
        if_Polite cfg (is_get m) _ _ (keeps (list_orders_http c d) list_orders-Polite) (
          if_Polite cfg (text_eq m (codes "POST")) _ _
            (keeps (create_order_http c d) create_order-Polite)
            (not_allowed-Polite cfg (codes "GET, HEAD, POST")))
    route-Polite (one_order id) m =
        if_Polite cfg (is_get m) _ _
          (keeps (get_order_http c d id) (λ r x f. plainly_written-Answered cfg order _ r x f))
          (not_allowed-Polite cfg (codes "GET, HEAD"))
    route-Polite unknown m = λ r x f. plain_error-Answered cfg 404 x f

    mux-Polite : Polite cfg (new_mux c d around)
    unfolding new_mux
    mux-Polite r x f = route-Polite (resource_of r.path) r.method r x f

  module _ (o : Outside) (h : HttpHandler) (p : Polite cfg h) where
    compression-Polite : Polite cfg (compression o h)
    unfolding compression
    compression-Polite r x f = closed (h r x) (p r x f)
      where
        -- the status and the headers that the compression lets through
        let_go-Answered :
            (back : Bool) (sent : Option Sent) (e : Ended) (y : Exchange) (ps : List Payload)
            → y.sent ≡ sent
            → Answered cfg x.logged (e, y)
            → Answered cfg x.logged (e, record (let_go back sent y) { payloads = ps })
        let_go-Answered back none e y ps s a = cc (a.was_sent)
        let_go-Answered false (some t) e y ps s a = record {
          has_returned = a.has_returned;
          status = t.status;
          header = t.header;
          was_sent = s;
          is_secure = subst (Secure cfg) (ap header_of (sym a.was_sent ∙ s)) a.is_secure;
          stays_secure = a.stays_secure;
          records = inl refl;
          same_log = a.same_log;
        }
        let_go-Answered true (some s) e y ps eq a = record {
          has_returned = a.has_returned;
          status = y.recorded;
          header = y.header;
          was_sent = refl;
          is_secure = a.stays_secure;
          stays_secure = a.stays_secure;
          records = inl refl;
          same_log = a.same_log;
        }

        closed :
            (out : Ended × Exchange)
            → Answered cfg x.logged out
            → Answered cfg x.logged (closed_by o r out)
        closed (e, y) a =
            let z = let_go (o.holds_back r y.payloads) y.sent y in
            let_go-Answered (o.holds_back r y.payloads) y.sent e y
              (map (λ q. encode (o.encoding r q) q) z.payloads) refl a

    body_limit-Polite : (max : ℕ) → Polite cfg (body_limit max h)
    unfolding body_limit
    body_limit-Polite max r x f = p (limited max r) x f

    csrf-Polite : (origins : List Text) → Polite cfg (csrf origins o h)
    unfolding csrf
    csrf-Polite origins r x f = go (allows_origin origins o r)
      where
        go :
            (b : Bool)
            → Answered cfg x.logged
                (if b then h r x else (returned, respond_json 403 error_message x))
        go true = p r x f
        go false = respond_json-Answered cfg 403 error_message x f

    with_headers-IsFresh :
        (ps : List (Text × Text)) (x : Exchange)
        → All (λ q. is_security_header q.0 ≡ false) ps
        → IsFresh cfg x
        → IsFresh cfg (with_headers ps x) × ((with_headers ps x).logged ≡ x.logged)
    with_headers-IsFresh [] x n f = (f, refl)
    with_headers-IsFresh (q ∷ ps) x n f =
        with_headers-IsFresh ps (with_header q.0 q.1 x) n.1
          (with_header-IsFresh cfg q.0 q.1 x n.0 f)

    cors_policy-Polite : (origins : List Text) → Polite cfg (cors_policy origins o h)
    unfolding cors_policy
    cors_policy-Polite [] r x f = p r x f
    cors_policy-Polite (origin ∷ origins) r x f =
        let (g, same) = with_headers-IsFresh (o.cors_headers r) x (o.cors_names r) f in
        subst (λ (l : List LogLine). Answered cfg l (or_preflight (o.preflight r) h r y)) same
          (go (o.preflight r) g)
      where
        y : Exchange
        y = with_headers (o.cors_headers r) x

        go : (n : Option ℕ) → IsFresh cfg y → Answered cfg y.logged (or_preflight n h r y)
        go (some n) g = write_header-Answered cfg n y g
        go none g = p r y g

  -- the answer under securityHeaders does not depend on the headers before it
  secured_answer :
      (h : HttpHandler) (r : Request) (x : Exchange)
      → Polite cfg h
      → x.sent ≡ none
      → Answered cfg x.logged (security_headers cfg.hsts_enabled cfg.hsts_max_age h r x)
  unfolding security_headers text_eq
  secured_answer h r x p unsent = go cfg.hsts_enabled refl
    where
      y : Exchange
      y =
          with_header content_policy (codes "frame-ancestors 'none'")
            (with_header nosniff (codes "nosniff") x)

      go :
          (b : Bool)
          → cfg.hsts_enabled ≡ b
          → Answered cfg x.logged
              (h r (if b then with_header transport_security (hsts cfg.hsts_max_age) y else y))
      go true on =
          p r (with_header transport_security (hsts cfg.hsts_max_age) y)
            (record { unsent = unsent; secure_so_far = (refl, refl, λ e. refl) })
      go false off = p r y (record { unsent = unsent; secure_so_far = (refl, refl, λ e. cc) })

  recovered-Answered :
      (log : List LogLine) (out : Ended × Exchange)
      → Answered cfg log out
      → Answered cfg log (recovered out)
  recovered-Answered log (returned, x) a = a
  recovered-Answered log (panicked, x) a = cc (a.has_returned)

-- What the client gets and what the log says of it: the status that was sent, or 500 where the writing
-- of a payload has failed.
pub record Served (cfg : MiddlewareCfg) (r : Request) (x : Exchange) (out : Ended × Exchange)
    : Type 0 where
  pub has_returned : out.0 ≡ returned
  pub status : ℕ
  pub header : Header
  pub was_sent : out.1.sent ≡ some (record { status = status; header = header })
  pub is_secure : Secure cfg header
  pub log_status : ℕ
  pub one_line :
      out.1.logged ≡ record { method = r.method; path = r.path; status = log_status } ∷ x.logged
  pub is_logged :
      (log_status ≡ status) ⊎ ((log_status ≡ 500) × (any is_broken out.1.payloads ≡ true))

logged_answer :
    (cfg : MiddlewareCfg) (r : Request) (x : Exchange) (out : Ended × Exchange)
    → Answered cfg x.logged out
    → Served cfg r x (log_line r out)
logged_answer cfg r x (e, y) a = record {
  has_returned = a.has_returned;
  status = a.status;
  header = a.header;
  was_sent = a.was_sent;
  is_secure = a.is_secure;
  log_status = y.recorded;
  is_logged = a.records;
  one_line =
      ap (λ l. record { method = r.method; path = r.path; status = y.recorded } ∷ l) a.same_log;
}

-- Every request to the public server, whatever its path, method, headers and body and whatever the
-- calls of the store and the cache meet, is answered without a panic by one status with the headers
-- X-Content-Type-Options, Content-Security-Policy and, where HSTS is enabled,
-- Strict-Transport-Security; and one line is logged, with the status that was sent, or with 500 where the
-- writing of a payload has failed: http.Error comes behind the first WriteHeader, and only the log
-- takes its status.
pub api_answers :
    (d : Deployment) (r : Request) (x : Exchange)
    → x.sent ≡ none
    → Served d.settings r x (api d r x)
unfolding api new_middleware logging recovery
api_answers d r x unsent =
    let cfg = d.settings in
    let origins = cfg.cors_allowed_origins in
    let mux =
      mux-Polite cfg d.services d.decoders (require_token d)
        (auth-Polite cfg d.services.cache.texts d.parser) in
    let inner = compression-Polite cfg d.outside (api_mux d) mux in
    let sized = body_limit-Polite cfg d.outside _ inner cfg.max_body_bytes in
    let checked = csrf-Polite cfg d.outside _ sized origins in
    let shared = cors_policy-Polite cfg d.outside _ checked origins in
    logged_answer cfg r x _ (
      recovered-Answered cfg x.logged _
        (secured_answer cfg _ r (record x { recorded = 200 }) shared unsent))
