-- ===== src/Http/Lists.antt =====
-- The two list handlers of internal/transport/http/handler.go.
use storefront.Common.{List, Option, Text, map}
use storefront.Domain.Orders.{OrderPage, order_next_cursor}
use storefront.Domain.Pages.{Uuid, UuidText, parse_cursor}
use storefront.Domain.Products.{ProductPage, product_next_cursor}
use storefront.Errors.{Result, err, ok}
use storefront.Grpc.{size_of}
use storefront.Http.{
  Handler, OrderResponse, ProductResponse, error_of, if_caller, order_response, product_response,
  respond, server_error,
}
use storefront.Http.Limit.{parse_limit}
use storefront.Service.{Services, on_store}
use storefront.Store.Orders.{find_orders}
use storefront.Store.Products.{find_all}

-- the items of a page and its next cursor
abbrev pub Listed : Type 0 → Type 0
Listed A = List A × Text

-- `toProductsPage`
abbrev pub products_page : UuidText → ProductPage → Listed ProductResponse
products_page u page = (map product_response page.items, product_next_cursor u page)

-- `toOrdersPage`
abbrev pub orders_page : UuidText → OrderPage → Listed OrderResponse
orders_page u page = (map order_response page.items, order_next_cursor u page)

abbrev pub if_ok : {A B : Type 0} → Result A → (A → Handler B) → Handler B
if_ok (err e) h = error_of 400
if_ok (ok a) h = h a

module _ (c : Services) where
  -- `Get`, on the parameters limit and cursor of the query
  unfoldable pub get_handler : Text → Text → Handler (Listed ProductResponse)
  get_handler limit cursor s =
      if_ok (parse_limit limit)
        (λ n s.
          if_ok (parse_cursor c.cache.texts cursor)
            (λ after_id s.
              respond server_error 200 (products_page c.cache.texts)
                (on_store (find_all after_id (size_of n)) s))
            s)
        s

  -- `ListOrders`
  unfoldable pub list_orders_handler : Option Uuid → Text → Text → Handler (Listed OrderResponse)
  list_orders_handler caller limit cursor s =
      if_caller caller
        (λ user s.
          if_ok (parse_limit limit)
            (λ n s.
              if_ok (parse_cursor c.cache.texts cursor)
                (λ after_id s.
                  respond server_error 200 (orders_page c.cache.texts)
                    (on_store (find_orders user after_id (size_of n)) s))
                s)
            s)
        s
