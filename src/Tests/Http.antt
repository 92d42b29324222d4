-- ===== src/Tests/Http.antt =====
-- The theorems on the public HTTP server, applied to requests of a small shop.
use storefront.Common.{
  All, List, Option, Text, [], codes, false, if◌then◌else◌, none, pos, refl, some, text_eq, true, ℕ,
  ◌++◌, ◌∷◌, ◌≡◌, ◌⊎◌,
}
use storefront.Auth.{Parser, bearer_token, equal_fold, verify}
use storefront.Domain.Products.{valid_purchase_quantity}
use storefront.Errors.{ok}
use storefront.Http.{Body, CreateOrderInput, create_order_handler, decoded, malformed}
use storefront.Http.Answers.{Served, api_answers}
use storefront.Http.Api.{Deployment, api}
use storefront.Http.Arrivals.{NeedsEnd, Permitted}
use storefront.Http.Middleware.{
  Outside, allows_origin, body_limit, compression, cors_policy, csrf, is_security_header, logging,
  new_middleware, recovery, security_headers,
}
use storefront.Http.Orders.{Places, api_orders}
use storefront.Http.Permits.{api_permits}
use storefront.Http.Router.{Decoders, auth, new_mux, resource_of, route}
use storefront.Http.Wire.{
  Ended, Exchange, LogLine, Request, Seen, Sent, plain_error, respond_json, whole, write_header,
  written,
}
use storefront.Service.{create_order_for}
use storefront.Service.Ownership.{orders_in}
use storefront.Tests.Cache.{cached, services}
use storefront.Tests.Data.{plain_format}
use storefront.Tests.Store.{runs}

-- a token is its subject
abbrev token_parser : Parser
token_parser token = ok token

-- a body of one symbol is an order of as many widgets, read to its end
abbrev order_decoder : Seen → Body CreateOrderInput
order_decoder (whole (q ∷ [])) = decoded (record { product_id = plain_format 7; quantity = pos q })
order_decoder _ = malformed

abbrev decoders : Decoders
decoders = record {
  add_body = λ s. malformed;
  update_body = λ s. malformed;
  order_body = order_decoder;
}

abbrev vary : List (Text × Text)
vary = (codes "Vary", codes "Origin") ∷ []

vary_is_no_security_header : All (λ (p : Text × Text). is_security_header p.0 ≡ false) vary
unfolding text_eq
vary_is_no_security_header = (refl, tt)

abbrev outside : Outside
outside = record {
  cors_headers = λ r. vary;
  cors_names = λ r. vary_is_no_security_header;
  preflight = λ r. none;
  encoding = λ r p. none;
  holds_back = λ r ps. true;
  host_of = λ origin. none;
}

abbrev shop_api : Deployment
shop_api = record {
  services = services;
  parser = token_parser;
  decoders = decoders;
  outside = outside;
  settings = record {
    max_body_bytes = 1;
    cors_allowed_origins = codes "https://shop.example" ∷ [];
    hsts_enabled = true;
    hsts_max_age = pos 31536000;
  };
}

abbrev order_header : Text → Text
order_header k =
    if text_eq k (codes "Authorization")
    then codes "Bearer " ++ plain_format 3
    else if text_eq k (codes "Idempotency-Key")
    then codes "k"
    else []

-- user 3 orders two widgets
abbrev order_request : Request
order_request = record {
  method = codes "POST";
  path = codes "v1" ∷ codes "orders" ∷ [];
  query = λ k. [];
  header = order_header;
  host = codes "shop.example";
  content_length = pos 1;
  body = 2 ∷ [];
  limit = none;
  caller = none;
}

abbrev began : Exchange
began = record {
  header = λ k. none;
  sent = none;
  recorded = 0;
  payloads = [];
  fails = [];
  logged = [];
  state = cached;
}

abbrev ordered_exchange : Ended × Exchange
ordered_exchange = api shop_api order_request began

api_answers_example : Served shop_api.settings order_request began ordered_exchange
api_answers_example = api_answers shop_api order_request began refl

decoders-NeedsEnd : NeedsEnd decoders
decoders-NeedsEnd = record {
  add_end = λ t a e. cc;
  update_end = λ t a e. cc;
  order_end = λ t a e. cc;
}

api_permits_example : (ordered_exchange.1.state ≡ cached) ⊎ Permitted shop_api order_request
api_permits_example = api_permits shop_api order_request began decoders-NeedsEnd

abbrev status_of : Option Sent → ℕ
status_of none = 0
status_of (some s) = s.status

-- what a run of the server computes with
serves : Unit {0}
unfolding runs api new_middleware logging recovery security_headers cors_policy csrf body_limit
    compression allows_origin new_mux route resource_of auth bearer_token equal_fold verify written
    create_order_handler valid_purchase_quantity create_order_for
serves = tt

-- the order is created
orders_status : status_of ordered_exchange.1.sent ≡ 201
unfolding serves write_header
orders_status = refl

abbrev logs : List LogLine → ℕ
logs [] = 0
logs (l ∷ ls) = l.status

-- the writing of the next payload fails
abbrev failing : Exchange
failing = record began { fails = true ∷ [] }

abbrev flushing_api : Deployment
flushing_api = record shop_api { outside = record outside { holds_back = λ r ps. false } }

-- an answer breaks off that the compression still holds back: 500 is sent and logged
broken_held_back :
    let out = (api shop_api order_request failing).1 in
    (status_of out.sent ≡ 500) × (logs out.logged ≡ 500)
unfolding serves respond_json plain_error write_header
broken_held_back = (refl, refl)

-- and one of which a part has gone out
broken_flushed :
    let out = (api flushing_api order_request failing).1 in
    (status_of out.sent ≡ 201) × (logs out.logged ≡ 201)
unfolding serves respond_json plain_error write_header
broken_flushed = (refl, refl)

abbrev foreign_request : Request
foreign_request = record order_request {
  header = λ k. if text_eq k (codes "Sec-Fetch-Site") then codes "cross-site" else order_header k;
}

-- a refusal outside the compression: the log says 500, but 403 was sent
broken_refusal :
    let out = (api shop_api foreign_request failing).1 in
    (status_of out.sent ≡ 403) × (logs out.logged ≡ 500)
unfolding serves respond_json plain_error write_header
broken_refusal = (refl, refl)

abbrev long_request : Request
long_request = record order_request { body = 2 ∷ 2 ∷ [] }

-- a longer body is refused
long_status : status_of (api shop_api long_request began).1.sent ≡ 400
unfolding serves write_header
long_status = refl

api_orders_example :
    (orders_in ordered_exchange.1.state ≡ orders_in cached)
    ⊎ Places shop_api order_request cached ordered_exchange.1.state
api_orders_example = api_orders shop_api order_request began
