-- ===== src/Http/Middleware.antt =====
-- The middleware chain of internal/transport/http/middleware.go. A handler may panic; what it has sent
-- before stays sent.
use storefront.Common.{
  All, Bool, List, Option, Text, [], any, codes, false, if◌then◌else◌, map, none, not, refl, some,
  text_eq, true, ℕ, ℤ, ◌&&◌, ◌++◌, ◌||◌, ◌∷◌, ◌≡◌,
}
use storefront.Http.Router.{Around}
use storefront.Http.Wire.{
  Ended, Exchange, HttpHandler, Payload, Request, Sent, encoded, error_message, nosniff, panicked,
  respond_json, returned, with_header, write_header,
}
use storefront.Store.Orders.{format_int}

-- `MiddlewareCfg`
pub record MiddlewareCfg : Type 0 where
  pub max_body_bytes : ℕ
  pub cors_allowed_origins : List Text
  pub hsts_enabled : Bool
  pub hsts_max_age : ℤ

abbrev pub content_policy : Text
content_policy = codes "Content-Security-Policy"

abbrev pub transport_security : Text
transport_security = codes "Strict-Transport-Security"

abbrev pub is_security_header : Text → Bool
is_security_header k = text_eq nosniff k || text_eq content_policy k || text_eq transport_security k

-- The CORS package (github.com/jub0bs/cors): it sets its own headers, those named Access-Control-* and
-- Vary, and answers a preflight request itself. The compression package (gzhttp) encodes what a handler
-- has written; as it documents, its WriteHeader only saves the status until enough has been written or
-- the handler has returned: `holds_back` tells, of the payloads written, whether that was not enough.
-- url.Parse yields the host of an origin.
pub record Outside : Type 0 where
  pub cors_headers : Request → List (Text × Text)
  pub cors_names : (r : Request) → All (λ p. is_security_header p.0 ≡ false) (cors_headers r)
  pub preflight : Request → Option ℕ
  pub encoding : Request → Payload → Option Text
  pub holds_back : Request → List Payload → Bool
  pub host_of : Text → Option Text

-- `chain`
unfoldable pub chain : HttpHandler → List Around → HttpHandler
chain h [] = h
chain h (mw ∷ mws) = mw (chain h mws)

-- the deferred log line, written also when the handler panics
abbrev pub log_line : Request → Ended × Exchange → Ended × Exchange
log_line r (e, x) = (
  e,
  record x { logged = record { method = r.method; path = r.path; status = x.recorded } ∷ x.logged },
)

-- `logging`, with a new statusRecorder
unfoldable pub logging : Around
logging inner r x = log_line r (inner r (record x { recorded = 200 }))

abbrev pub recovered : Ended × Exchange → Ended × Exchange
recovered (returned, x) = (returned, x)
recovered (panicked, x) = (returned, respond_json 500 error_message x)

-- `recovery`
unfoldable pub recovery : Around
recovery inner r x = recovered (inner r x)

abbrev pub hsts : ℤ → Text
hsts age = codes "max-age=" ++ (format_int age ++ codes "; includeSubDomains")

-- `securityHeaders`
unfoldable pub security_headers : Bool → ℤ → Around
security_headers enabled age inner r x =
    let y =
      with_header content_policy (codes "frame-ancestors 'none'")
        (with_header nosniff (codes "nosniff") x) in
    inner r (if enabled then with_header transport_security (hsts age) y else y)

abbrev pub with_headers : List (Text × Text) → Exchange → Exchange
with_headers [] x = x
with_headers (p ∷ ps) x = with_headers ps (with_header p.0 p.1 x)

abbrev pub or_preflight : Option ℕ → Around
or_preflight (some n) inner r x = (returned, write_header n x)
or_preflight none inner r x = inner r x

-- `corsPolicy`
unfoldable pub cors_policy : List Text → Outside → Around
cors_policy [] o inner r x = inner r x
cors_policy (origin ∷ origins) o inner r x =
    or_preflight (o.preflight r) inner r (with_headers (o.cors_headers r) x)

abbrev pub same_host : Option Text → Text → Bool
same_host none host = false
same_host (some h) host = text_eq h host

abbrev pub is_trusted : List Text → Text → Bool
is_trusted origins origin = not (text_eq origin []) && any (text_eq origin) origins

-- http.CrossOriginProtection.Check, with the trusted origins
unfoldable pub allows_origin : List Text → Outside → Request → Bool
allows_origin origins o r =
    if text_eq r.method (codes "GET")
      || (text_eq r.method (codes "HEAD") || text_eq r.method (codes "OPTIONS"))
    then true
    else let site = r.header (codes "Sec-Fetch-Site") in
      let origin = r.header (codes "Origin") in
      if text_eq site []
      then text_eq origin [] || (same_host (o.host_of origin) r.host || is_trusted origins origin)
      else text_eq site (codes "same-origin")
        || (text_eq site (codes "none") || is_trusted origins origin)

-- `csrf`
unfoldable pub csrf : List Text → Outside → Around
csrf origins o inner r x =
    if allows_origin origins o r then inner r x else (returned, respond_json 403 error_message x)

abbrev pub has_body : Text → Bool
has_body m = text_eq m (codes "POST") || (text_eq m (codes "PUT") || text_eq m (codes "PATCH"))

abbrev pub limited : ℕ → Request → Request
limited max r = if has_body r.method then record r { limit = some max } else r

-- `bodyLimit`
unfoldable pub body_limit : ℕ → Around
body_limit max inner r x = inner (limited max r) x

abbrev pub encode : Option Text → Payload → Payload
encode none p = p
encode (some how) p = encoded how p

-- a status that is held back goes out at the end: the last one that was written
abbrev pub let_go : Bool → Option Sent → Exchange → Exchange
let_go back none y = y
let_go false (some s) y = record y { recorded = s.status }
let_go true (some s) y = record y {
  sent = some (record { status = y.recorded; header = y.header });
}

-- the compressing writer closes behind the handler
abbrev pub closed_by : Outside → Request → Ended × Exchange → Ended × Exchange
closed_by o r (e, y) =
    let z = let_go (o.holds_back r y.payloads) y.sent y in
    (e, record z { payloads = map (λ p. encode (o.encoding r p) p) z.payloads })

-- `compression`: the statusRecorder, which is outside, gets the one status that is sent
unfoldable pub compression : Outside → Around
compression o inner r x = closed_by o r (inner r x)

pub let_go-state :
    (back : Bool) (s : Option Sent) (y : Exchange) → (let_go back s y).state ≡ y.state
let_go-state back none y = refl
let_go-state false (some s) y = refl
let_go-state true (some s) y = refl

-- `NewMiddleware`, once its parts have been made
unfoldable pub new_middleware : MiddlewareCfg → Outside → Around
unfolding chain
new_middleware cfg o inner = chain inner (
    logging
    ∷ recovery
    ∷ security_headers cfg.hsts_enabled cfg.hsts_max_age
    ∷ cors_policy cfg.cors_allowed_origins o
    ∷ csrf cfg.cors_allowed_origins o
    ∷ body_limit cfg.max_body_bytes
    ∷ compression o
    ∷ [])
