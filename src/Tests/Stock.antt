-- ===== src/Tests/Stock.antt =====
-- The theorems on stock and sales, applied to a small shop.
use storefront.Common.{arith, codes, length, none, pos, refl, true, ◌<◌, ◌∷◌, ◌≡◌, ◌≤ℤ◌}
use storefront.Domain.Orders.{Order}
use storefront.Domain.Pages.{no_cursor}
use storefront.Domain.Products.{Product}
use storefront.Errors.{GoError, err, ok}
use storefront.Store.Committed.{Done, perform, perform_ok, updates}
use storefront.Store.Orders.{create_order, purchase_tx}
use storefront.Store.Paging.{Distinct}
use storefront.Store.Paging.Client.{list_all, list_all_complete}
use storefront.Store.Products.{product_key, update}
use storefront.Store.Refusals.{Refusal, purchase_refused}
use storefront.Store.Schema.{in_int4}
use storefront.Store.Sound.{IsSound}
use storefront.Store.Sound.Calls.{orders_from}
use storefront.Store.Sql.Keyset.{ascending, order_by}
use storefront.Store.Sql.Products.{in_stock, select_product}
use storefront.Store.Stock.{
  Trades, Trades-units, create_order_units, never_oversold, sold_of, then_trade, units_of, untraded,
}
use storefront.Store.Tx.{World}
use storefront.Tests.Data.{plain_texts, platform, shop, two_widgets, widget}
use storefront.Tests.Store.{runs}

shop-IsSound : IsSound shop.db
shop-IsSound = record { stocked = ((omega arith, omega arith), tt); placed = tt; keyed = tt }

abbrev traded : World
traded = (create_order platform two_widgets (codes "k") shop).1

one_trade : Trades platform 7 shop traded
one_trade = then_trade untraded (orders_from two_widgets (codes "k") shop) tt

Trades-units_example : units_of 7 traded.db ≡ units_of 7 shop.db
Trades-units_example = Trades-units 7 one_trade

never_oversold_example : sold_of 7 traded.db.orders ≤ℤ units_of 7 shop.db
never_oversold_example = never_oversold 7 shop-IsSound one_trade

create_order_units_example :
    units_of 7 (create_order platform two_widgets (codes "k") shop).1.db ≡ units_of 7 shop.db
create_order_units_example = create_order_units platform two_widgets (codes "k") 7 shop

abbrev many_widgets : Order
many_widgets = record two_widgets { quantity = pos 11 }

fits : in_int4 (pos 11) ≡ true
unfolding runs
fits = refl

short : in_stock (pos 11) (select_product 7 shop.db.products) ≡ none
unfolding runs
short = refl

purchase_refused_example :
    (e : GoError) × ((purchase_tx platform many_widgets shop).0 ≡ err e)
    × Refusal (select_product 7 shop.db.products) (pos 11) e
purchase_refused_example = purchase_refused platform many_widgets shop refl fits short

abbrev renamed : Product
renamed = record widget { name = codes "gadget"; version = 2 }

updated_runs : (update platform renamed shop).0 ≡ ok renamed
unfolding runs
updated_runs = refl

abbrev two_products : World
two_products = record shop {
  db = record shop.db { products = record widget { id = 9 } ∷ shop.db.products };
}

two_products-Distinct : Distinct product_key ascending two_products.db.products
two_products-Distinct = (((λ e. absurd (omega (arith, e))), tt), (tt, tt))

enough_fuel : length (order_by product_key ascending two_products.db.products) < 3
unfolding runs
enough_fuel = omega arith

list_all_complete_example :
    list_all plain_texts two_products 1 3 no_cursor
    ≡ order_by product_key ascending two_products.db.products
list_all_complete_example =
    list_all_complete plain_texts two_products 1 3 refl two_products-Distinct (omega arith)
      enough_fuel

perform_ok_example :
    Done platform (updates renamed) shop.db renamed (update platform renamed shop).1.db
unfolding perform
perform_ok_example = perform_ok platform (updates renamed) shop renamed updated_runs
