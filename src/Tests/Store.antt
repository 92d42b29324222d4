-- ===== src/Tests/Store.antt =====
-- Runs of the store.
use storefront.Common.{Bool, [], codes, false, map, pos, refl, text_eq, ◌+ℤ◌, ◌-ℤ◌, ◌∷◌, ◌≡◌}
use storefront.Domain.Money.{valid_currency}
use storefront.Domain.Orders.{Order}
use storefront.Domain.Pages.{after}
use storefront.Errors.{as_net_error, as_pg_error, is, ok}
use storefront.Events.{new_event, new_purchased}
use storefront.Store.Orders.{
  claim_and_buy, create_order, digit_loop, find_order, find_orders, format_int, format_nat,
  hash_order_request, list_orders, order_page, order_request, purchase_tx, purge_idempotency_keys,
  replay_idempotent,
}
use storefront.Store.Products.{
  delete, find_all, find_by_id, insert_outbox, is_product_in_use, list_products, product_page, save,
  update,
}
use storefront.Store.Schema.{
  char_count, in_int4, in_int8, order_checks, product_checks, stored_product, varchar,
}
use storefront.Store.Sql.Keys.{
  insert_key, link_key, purge_keys, replace_key, select_key, select_replay,
}
use storefront.Store.Sql.Keyset.{insert_row, order_by, page_rows}
use storefront.Store.Sql.Orders.{get_order, insert_order, select_order}
use storefront.Store.Sql.Outbox.{insert_event}
use storefront.Store.Sql.Products.{
  delete_product, get_product, insert_product, product_exists, purchase_product, replace_product,
  select_product, update_product,
}
use storefront.Store.Tx.{
  autocommit, commit, exec, is_unavailable_code, map_db_error, query, with_tx,
}
use storefront.Tests.Data.{empty_world, platform, price, shop, two_widgets, widget}

-- what a run of the store computes with
unfoldable pub runs : Unit {0}
unfolding save update delete find_by_id find_all create_order find_order find_orders
    purge_idempotency_keys claim_and_buy purchase_tx replay_idempotent insert_outbox with_tx exec
    commit query autocommit map_db_error is_unavailable_code is as_pg_error as_net_error
    is_product_in_use insert_product get_product update_product delete_product purchase_product
    product_exists select_product replace_product stored_product varchar in_int4 in_int8
    product_checks order_checks valid_currency text_eq char_count list_products list_orders
    page_rows order_by insert_row after insert_order select_order get_order insert_key select_key
    replace_key select_replay link_key purge_keys hash_order_request order_request format_int
    format_nat digit_loop new_event new_purchased insert_event product_page order_page ◌+ℤ◌ ◌-ℤ◌
runs = tt

pub saved_version : (save platform widget empty_world).0 ≡ ok (record widget { version = 1 })
unfolding runs
saved_version = refl

abbrev pub bought_widgets : Order × Bool
bought_widgets = (record two_widgets { unit_price = price; created_at = 5000 }, false)

pub create_order_runs : (create_order platform two_widgets (codes "k") shop).0 ≡ ok bought_widgets
unfolding runs
create_order_runs = refl

create_order_stock :
    map (λ p. p.stock) (create_order platform two_widgets (codes "k") shop).1.db.products
    ≡ pos 8 ∷ []
unfolding runs
create_order_stock = refl
