-- ===== src/Http/Router.antt =====
-- NewMux of internal/transport/http/router.go over http.ServeMux, and Auth of
-- internal/transport/http/middleware.go. A path is kept in its clean form, in segments; the empty last
-- segment stands for a trailing slash, which no pattern of the mux matches.
use storefront.Common.{
  Bool, List, Option, Text, [], codes, if◌then◌else◌, none, some, text_eq, ◌||◌, ◌∷◌,
}
use storefront.Auth.{Parser, bearer_token, verify}
use storefront.Domain.Pages.{Uuid, UuidText}
use storefront.Errors.{Result, err, ok}
use storefront.Http.{
  AddInput, Body, CreateOrderInput, UpdateInput, add, create_order_handler, delete_handler,
  get_by_id, get_order_handler, update_handler,
}
use storefront.Http.Lists.{get_handler, list_orders_handler}
use storefront.Http.Wire.{
  HttpHandler, Seen, body_of, created_headers, error_message, no_extra, order, orders, plain_error,
  product, product_deleted, products, respond_json, returned, with_header, written,
}
use storefront.Service.{Services}

pub data Resource : Type 0 where
  product_list order_list unknown : Resource
  one_product one_order : Text → Resource

abbrev pub if_segment : Text → Resource → Resource
if_segment id found = if text_eq id [] then unknown else found

-- the patterns of the mux without their methods
unfoldable pub resource_of : List Text → Resource
resource_of (v ∷ kind ∷ []) =
    if text_eq v (codes "v1")
    then if text_eq kind (codes "products")
      then product_list
      else if text_eq kind (codes "orders")
      then order_list
      else unknown
    else unknown
resource_of (v ∷ kind ∷ id ∷ []) =
    if text_eq v (codes "v1")
    then if text_eq kind (codes "products")
      then if_segment id (one_product id)
      else if text_eq kind (codes "orders")
      then if_segment id (one_order id)
      else unknown
    else unknown
resource_of other = unknown

-- a pattern of GET also matches HEAD
abbrev pub is_get : Text → Bool
is_get m = text_eq m (codes "GET") || text_eq m (codes "HEAD")

-- the decoders of the JSON package for the three kinds of body
pub record Decoders : Type 0 where
  pub add_body : Seen → Body AddInput
  pub update_body : Seen → Body UpdateInput
  pub order_body : Seen → Body CreateOrderInput

abbrev pub Around : Type 0
Around = HttpHandler → HttpHandler

-- no pattern has the path, or none of those that have it has the method
abbrev pub not_found_handler : HttpHandler
not_found_handler r x = (returned, plain_error 404 x)

abbrev pub not_allowed : Text → HttpHandler
not_allowed methods r x = (returned, plain_error 405 (with_header (codes "Allow") methods x))

module _ (c : Services) (d : Decoders) where
  abbrev pub add_http : HttpHandler
  add_http r x = written no_extra product (add c (body_of d.add_body r) x.state) r x

  abbrev pub list_http : HttpHandler
  list_http r x =
      written no_extra products
        (get_handler c (r.query (codes "limit")) (r.query (codes "cursor")) x.state) r x

  abbrev pub get_http : Text → HttpHandler
  get_http id r x = written no_extra product (get_by_id c id x.state) r x

  abbrev pub update_http : Text → HttpHandler
  update_http id r x =
      written no_extra product (update_handler c id (body_of d.update_body r) x.state) r x

  abbrev pub delete_http : Text → HttpHandler
  delete_http id r x = written no_extra (λ u. product_deleted) (delete_handler c id x.state) r x

  abbrev pub create_order_http : HttpHandler
  create_order_http r x =
      written created_headers (λ o. order o.order)
        (create_order_handler c r.caller (r.header (codes "Idempotency-Key"))
          (body_of d.order_body r) x.state)
        r x

  abbrev pub list_orders_http : HttpHandler
  list_orders_http r x =
      written no_extra orders
        (list_orders_handler c r.caller (r.query (codes "limit")) (r.query (codes "cursor"))
          x.state)
        r x

  abbrev pub get_order_http : Text → HttpHandler
  get_order_http id r x = written no_extra order (get_order_handler c r.caller id x.state) r x

  -- the handler that the mux picks
  unfoldable pub route : Around → Resource → Text → HttpHandler
  route require_token product_list m =
      if is_get m
      then list_http
      else if text_eq m (codes "POST")
      then add_http
      else not_allowed (codes "GET, HEAD, POST")
  route require_token (one_product id) m =
      if is_get m
      then get_http id
      else if text_eq m (codes "PUT")
      then update_http id
      else if text_eq m (codes "DELETE")
      then delete_http id
      else not_allowed (codes "DELETE, GET, HEAD, PUT")
  route require_token order_list m =
      if is_get m
      then require_token list_orders_http
      else if text_eq m (codes "POST")
      then require_token create_order_http
      else not_allowed (codes "GET, HEAD, POST")
  route require_token (one_order id) m =
      if is_get m then require_token (get_order_http id) else not_allowed (codes "GET, HEAD")
  route require_token unknown m = not_found_handler

  -- `NewMux`
  unfoldable pub new_mux : Around → HttpHandler
  new_mux require_token r = route require_token (resource_of r.path) r.method r

-- `unauthorized`
abbrev pub unauthorized : HttpHandler
unauthorized r x = (
  returned,
  respond_json 401 error_message (with_header (codes "WWW-Authenticate") (codes "Bearer") x),
)

abbrev pub with_user : Result Uuid → HttpHandler → HttpHandler
with_user (err e) inner r x = unauthorized r x
with_user (ok user) inner r x = inner (record r { caller = some user }) x

abbrev pub if_bearer : UuidText → Parser → Option Text → HttpHandler → HttpHandler
if_bearer u parser none inner = unauthorized
if_bearer u parser (some token) inner = with_user (verify u parser token) inner

-- `Auth`
unfoldable pub auth : UuidText → Parser → Around
auth u parser inner r = if_bearer u parser (bearer_token (r.header (codes "Authorization"))) inner r
