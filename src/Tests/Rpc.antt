-- ===== src/Tests/Rpc.antt =====
-- The theorems on the gRPC methods and the HTTP handlers, applied to requests of a small shop.
use storefront.Common.{
  Text, [], arith, codes, false, if◌then◌else◌, none, pos, refl, some, text_eq, ◌∷◌, ◌≡◌, ◌⊎◌,
}
use storefront.Auth.{Parser}
use storefront.Cache.{invalidate_key, write_key}
use storefront.Domain.Money.{valid_currency, validate_money}
use storefront.Domain.Products.{valid_purchase_quantity, validate_product}
use storefront.Errors.{canceled, deadline_exceeded, is, ok, pg_error}
use storefront.Grpc.{
  MoneyProto, as_canceled, as_deadline_exceeded, as_internal, as_unavailable, create_order_rpc,
  create_product_rpc, delete_product_rpc, domain_money, get_product_rpc, refuses, replies_with,
  requested_product, to_status, update_product_rpc,
}
use storefront.Grpc.Interceptors.{
  Context, Serving, crashed, is_public, logging_rpc, panic_line, recovery_rpc, replied,
  request_line, require_auth, timeout_rpc,
}
use storefront.Grpc.Orders.{PlacesRpc, server_orders}
use storefront.Grpc.Oversized.{create_product_rpc-oversized}
use storefront.Grpc.Products.{get_product_rpc-told, told}
use storefront.Grpc.Server.{
  GrpcServer, call_handler, create_order_call, full_method, health_call, new_server,
}
use storefront.Grpc.Statuses.{FromOutside, to_status-map_db_error}
use storefront.Http.{add, create_order_handler, decoded, delete_handler, get_by_id, update_handler}
use storefront.Http.Effects.{transports_same_effect}
use storefront.Http.Parity.{Agree, create_order_parity}
use storefront.Service.{create_order_for, invalidate}
use storefront.Service.Ownership.{orders_in}
use storefront.Service.Reads.{row_of}
use storefront.Store.Schema.{all_spaces, char_count, drop_chars}
use storefront.Store.Tx.{map_db_error}
use storefront.Store.Tx.Unavailable.{is_temporary}
use storefront.Tests.Cache.{cached, cached-Fresh, services}
use storefront.Tests.Data.{plain_format, plain_texts, shop}
use storefront.Tests.Store.{runs}

get_product_rpc-told_example :
    (get_product_rpc services (plain_format 7) cached).0 ≡ told plain_texts (row_of 7 shop.db)
get_product_rpc-told_example =
    get_product_rpc-told services (plain_format 7) 7 cached refl refl cached-Fresh

-- the order is bought, with the next generated id
created_order :
    (create_order_rpc services (some 3) (codes "k" ∷ []) (plain_format 7) (pos 2) cached).0
    ≡ replies_with (
      record {
        id = plain_format 1000;
        product_id = plain_format 7;
        quantity = pos 2;
        unit_price = record { minor_amount = pos 999; currency = codes "PLN" };
        created_at = 5000;
      },
      false,
    )
unfolding runs create_order_rpc create_order_for valid_purchase_quantity invalidate invalidate_key
    write_key
created_order = refl

shutdown-FromOutside : FromOutside (pg_error (codes "57P01"))
unfolding is
shutdown-FromOutside = record {
  no_absence = refl;
  no_shortage = refl;
  no_mismatch = refl;
  no_use = refl;
  no_outage = refl;
}

to_status-map_db_error_example : to_status (map_db_error (pg_error (codes "57P01"))) ≡ (
    if is canceled (pg_error (codes "57P01"))
    then as_canceled
    else if is deadline_exceeded (pg_error (codes "57P01"))
    then as_deadline_exceeded
    else if is_temporary (pg_error (codes "57P01"))
    then as_unavailable
    else as_internal)
to_status-map_db_error_example =
    to_status-map_db_error (pg_error (codes "57P01")) shutdown-FromOutside

-- a token is its subject
abbrev plain_parser : Parser
plain_parser token = ok token

abbrev create_order_method : Text
create_order_method = codes "/order.v1.OrderService/CreateOrder"

abbrev server : GrpcServer
server = record {
  services = services;
  parser = plain_parser;
  request_timeout = 2000;
  health = crashed;
}

abbrev buyer : Context
buyer = record {
  authorization = codes "bearer 3" ∷ [];
  idempotency_key = codes "k" ∷ [];
  deadline = none;
  user = none;
}

abbrev idle : Serving
idle = record { state = cached; lines = [] }

-- a crash of the health service is answered and logged
health_recovered : new_server server health_call buyer idle ≡ (
  replied (refuses as_internal),
  record {
    state = cached;
    lines =
        panic_line (full_method health_call)
        ∷ request_line (full_method health_call) (some as_internal)
        ∷ [];
  },
)
unfolding new_server logging_rpc recovery_rpc timeout_rpc require_auth is_public call_handler
    text_eq
health_recovered = refl

server_orders_example :
    let after_it =
      (new_server server (create_order_call (plain_format 7) (pos 2)) buyer idle).1.state in
    (orders_in after_it ≡ orders_in cached)
    ⊎ PlacesRpc server (create_order_call (plain_format 7) (pos 2)) buyer cached after_it
server_orders_example = server_orders server (create_order_call (plain_format 7) (pos 2)) buyer idle

-- 101 letters
abbrev long_name : Text
long_name =
    codes
      "aaaaaaaaaaaaaaaaaaaaaaaaaaaaaaaaaaaaaaaaaaaaaaaaaaaaaaaaaaaaaaaaaaaaaaaaaaaaaaaaaaaaaaaaaaaaaaaaaaaaa"

abbrev price_proto : MoneyProto
price_proto = record { minor_amount = pos 999; currency = codes "PLN" }

long_name_is_valid : validate_product (requested_product 0 long_name price_proto (pos 1)) ≡ ok tt
unfolding validate_product validate_money valid_currency text_eq
long_name_is_valid = refl

long_name-count : char_count long_name ≡ 101
unfolding char_count
long_name-count = refl

no_space_behind : all_spaces (drop_chars 100 long_name) ≡ false
unfolding all_spaces drop_chars
no_space_behind = refl

create_product_rpc-oversized_example :
    (create_product_rpc services long_name price_proto (pos 1) cached).0 ≡ refuses as_internal
create_product_rpc-oversized_example =
    create_product_rpc-oversized services long_name price_proto (pos 1) cached refl
      long_name_is_valid (omega (arith, long_name-count)) no_space_behind

create_order_parity_example :
    Agree plain_texts
      (create_order_handler services
        (some 3)
        (codes "k")
        (decoded (record { product_id = plain_format 7; quantity = pos 2 }))
        cached)
      (create_order_rpc services (some 3) (codes "k" ∷ []) (plain_format 7) (pos 2) cached)
create_order_parity_example =
    create_order_parity services (some 3) (codes "k") (plain_format 7) (pos 2) cached

transports_same_effect_example :
    ((add services
        (decoded (record { name = codes "lamp"; stock = pos 4; price = domain_money price_proto }))
        cached).1
      ≡ (create_product_rpc services (codes "lamp") price_proto (pos 4) cached).1)
    × ((update_handler services
          (plain_format 7)
          (decoded (record { name = codes "lamp"; price = domain_money price_proto }))
          cached).1
        ≡ (update_product_rpc services (plain_format 7) (codes "lamp") price_proto cached).1)
    × ((delete_handler services (plain_format 7) cached).1
        ≡ (delete_product_rpc services (plain_format 7) cached).1)
    × ((get_by_id services (plain_format 7) cached).1
        ≡ (get_product_rpc services (plain_format 7) cached).1)
transports_same_effect_example =
    transports_same_effect services (plain_format 7) (codes "lamp") price_proto (pos 4) cached
