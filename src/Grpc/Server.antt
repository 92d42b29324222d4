-- ===== src/Grpc/Server.antt =====
-- newServer of internal/transport/grpc/server.go: the interceptors around the registered methods. What
-- grpc-go refuses before them, an unknown method or a message over the limit, is not a call here.
use storefront.Common.{Bool, List, Text, codes, ℕ, ℤ}
use storefront.Auth.{Parser}
use storefront.Grpc.{
  MoneyProto, OrderProto, ProductProto, Reply, Rpc, create_order_rpc, create_product_rpc,
  delete_product_rpc, get_order_rpc, get_product_rpc, list_orders_rpc, list_products_rpc, refuses,
  replies_with, update_product_rpc,
}
use storefront.Grpc.Interceptors.{
  Ending, Serving, Unary, logging_rpc, recovery_rpc, replied, require_auth, timeout_rpc,
}
use storefront.Service.{Services}

-- the unary calls that the server has a method for, with the fields of their requests
pub data Call : Type 0 where
  create_product_call : Text → MoneyProto → ℤ → Call
  get_product_call : Text → Call
  list_products_call : Text → ℤ → Call
  update_product_call : Text → Text → MoneyProto → Call
  delete_product_call : Text → Call
  create_order_call : Text → ℤ → Call
  get_order_call : Text → Call
  list_orders_call : Text → ℤ → Call
  health_call : Call

abbrev pub full_method : Call → Text
full_method (create_product_call name price stock) =
    codes "/catalog.v1.ProductService/CreateProduct"
full_method (get_product_call id) = codes "/catalog.v1.ProductService/GetProduct"
full_method (list_products_call cursor limit) = codes "/catalog.v1.ProductService/ListProducts"
full_method (update_product_call id name price) = codes "/catalog.v1.ProductService/UpdateProduct"
full_method (delete_product_call id) = codes "/catalog.v1.ProductService/DeleteProduct"
full_method (create_order_call id qty) = codes "/order.v1.OrderService/CreateOrder"
full_method (get_order_call id) = codes "/order.v1.OrderService/GetOrder"
full_method (list_orders_call cursor limit) = codes "/order.v1.OrderService/ListOrders"
full_method health_call = codes "/grpc.health.v1.Health/Check"

pub data Message : Type 0 where
  product_message : ProductProto → Message
  products_message : List ProductProto × Text → Message
  order_message : OrderProto × Bool → Message
  one_order_message : OrderProto → Message
  orders_message : List OrderProto × Text → Message
  deleted_message : Unit {0} → Message
  health_message : Text → Message

-- What the server is given. The health service is grpc-go's; it does not reach the program's state.
pub record GrpcServer : Type 0 where
  pub services : Services
  pub parser : Parser
  pub request_timeout : ℕ
  pub health : Ending Message

abbrev pub packed : {A : Type 0} → (A → Message) → Reply A → Ending Message
packed f (replies_with a) = replied (replies_with (f a))
packed f (refuses code) = replied (refuses code)

-- a method of Handler, as the server calls it
abbrev pub called : {A : Type 0} → (A → Message) → Rpc A → Serving → Ending Message × Serving
called f method s = let out = method s.state in (packed f out.0, record s { state = out.1 })

unfoldable pub call_handler : GrpcServer → Call → Unary Message
call_handler g (create_product_call name price stock) c s =
    called product_message (create_product_rpc g.services name price stock) s
call_handler g (get_product_call id) c s = called product_message (get_product_rpc g.services id) s
call_handler g (list_products_call cursor limit) c s =
    called products_message (list_products_rpc g.services cursor limit) s
call_handler g (update_product_call id name price) c s =
    called product_message (update_product_rpc g.services id name price) s
call_handler g (delete_product_call id) c s =
    called deleted_message (delete_product_rpc g.services id) s
call_handler g (create_order_call id qty) c s =
    called order_message (create_order_rpc g.services c.user c.idempotency_key id qty) s
call_handler g (get_order_call id) c s =
    called one_order_message (get_order_rpc g.services c.user id) s
call_handler g (list_orders_call cursor limit) c s =
    called orders_message (list_orders_rpc g.services c.user cursor limit) s
call_handler g health_call c s = (g.health, s)

-- `newServer`
unfoldable pub new_server : GrpcServer → Call → Unary Message
new_server g call = logging_rpc (full_method call) (
    recovery_rpc (full_method call) (
      timeout_rpc g.request_timeout
        (require_auth g.services.cache.texts g.parser (full_method call) (call_handler g call))))
