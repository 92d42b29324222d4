-- ===== src/Tests/Sales.antt =====
-- The theorems on the store, applied to requests of a small shop.
use storefront.Common.{Bool, [], arith, codes, refl, some, ◌↔◌, ◌∷◌, ◌≡◌, ◌⊎◌}
use storefront.Domain.Laws.{IsSellable, validate_product_iff}
use storefront.Domain.Orders.{Order}
use storefront.Domain.Pages.{no_cursor}
use storefront.Domain.Products.{Product, validate_product}
use storefront.Errors.{err, net_error, ok}
use storefront.Store.Orders.{create_order, find_order, find_orders, hash_order_request}
use storefront.Store.Privacy.{orders_private, own_orders}
use storefront.Store.Products.{save_body}
use storefront.Store.Replays.{Outcome, Remembers}
use storefront.Store.Retries.{
  OrderEnding, create_order_answers, create_order_ok, create_order_remembered, replies,
  retry_buys_once,
}
use storefront.Store.Sound.{IsSound}
use storefront.Store.Sound.Calls.{Reach-IsSound, here, next, orders_from}
use storefront.Store.Tx.{World, after_call, lost, map_db_error, pass, with_tx}
use storefront.Store.Tx.Atomic.{with_tx_atomic}
use storefront.Tests.Data.{platform, shop, two_widgets, widget}
use storefront.Tests.Store.{bought_widgets, create_order_runs, runs}

-- the request, whose answer is lost at the commit, and its retry
abbrev lost_commit : World
lost_commit = record shop {
  faults = pass ∷ pass ∷ pass ∷ pass ∷ pass ∷ pass ∷ pass ∷ lost net_error ∷ [];
}

abbrev after_lost : World
after_lost = (create_order platform two_widgets (codes "k") lost_commit).1

lost_commit_answer :
    (create_order platform two_widgets (codes "k") lost_commit).0 ≡ err (map_db_error net_error)
unfolding runs
lost_commit_answer = refl

-- the retry comes a second later
abbrev retried : World
retried = record after_lost { clock = 6000; faults = [] }

retry_buys_once_example :
    (after_lost.db ≡ lost_commit.db)
    ⊎ ((create_order platform two_widgets (codes "k") retried).1.db ≡ after_lost.db)
retry_buys_once_example =
    retry_buys_once platform two_widgets two_widgets (codes "k") lost_commit retried refl refl refl
      (omega arith)

create_order_ok_example :
    Outcome 5000 platform two_widgets
      (codes "k")
      shop.db
      bought_widgets
      (create_order platform two_widgets (codes "k") shop).1.db
create_order_ok_example =
    create_order_ok platform two_widgets (codes "k") shop bought_widgets create_order_runs

create_order_answers_example :
    OrderEnding platform two_widgets
      (codes "k")
      lost_commit
      (create_order platform two_widgets (codes "k") lost_commit)
create_order_answers_example = create_order_answers platform two_widgets (codes "k") lost_commit

shop-IsSound : IsSound shop.db
shop-IsSound = record { stocked = ((omega arith, omega arith), tt); placed = tt; keyed = tt }

Reach-IsSound_example : IsSound after_lost.db
Reach-IsSound_example =
    Reach-IsSound shop-IsSound (next here (orders_from two_widgets (codes "k") lost_commit))

abbrev sold : World
sold = record shop { db = (create_order platform two_widgets (codes "k") shop).1.db; clock = 6000 }

sold-Remembers : Remembers platform two_widgets (codes "k") bought_widgets.0 86405000 sold.db
unfolding runs
sold-Remembers = record {
  row = record {
    user_id = 3;
    key = codes "k";
    request_hash = hash_order_request platform two_widgets;
    order_id = some 21;
    expires_at = 86405000;
  };
  live_until = refl;
  found = refl;
  same_request = refl;
  link = refl;
  order = refl;
}

create_order_remembered_example :
    ((create_order platform two_widgets (codes "k") sold).1.db ≡ sold.db)
    × ((out : Order × Bool)
        → (create_order platform two_widgets (codes "k") sold).0 ≡ ok out
        → out ≡ replies platform two_widgets (codes "k") bought_widgets.0 86405000)
    × (sold.faults ≡ []
        → (create_order platform two_widgets (codes "k") sold).0
          ≡ ok (replies platform two_widgets (codes "k") bought_widgets.0 86405000))
create_order_remembered_example =
    create_order_remembered platform two_widgets (codes "k") bought_widgets.0 86405000 sold
      sold-Remembers (omega arith)

with_tx_atomic_example :
    ((with_tx (save_body platform widget) lost_commit).1.db ≡ lost_commit.db)
    ⊎ ((a : Product) × ((save_body platform widget (after_call lost_commit)).0 ≡ ok a)
        × ((with_tx (save_body platform widget) lost_commit).1.db
            ≡ (save_body platform widget (after_call lost_commit)).1.db))
with_tx_atomic_example = with_tx_atomic (save_body platform widget) lost_commit

-- another customer's order
abbrev other_order : Order
other_order = record two_widgets { id = 30; user_id = 4; created_at = 4000 }

abbrev two_customers : World
two_customers = record sold { db = record sold.db { orders = other_order ∷ sold.db.orders } }

same_own_orders : own_orders 3 two_customers ≡ own_orders 3 sold
unfolding runs
same_own_orders = refl

validate_product_iff_example : (validate_product widget ≡ ok tt) ↔ IsSellable widget
validate_product_iff_example = validate_product_iff widget

orders_private_example :
    ((find_order 3 21 two_customers).0 ≡ (find_order 3 21 sold).0)
    × ((find_orders 3 no_cursor 10 two_customers).0 ≡ (find_orders 3 no_cursor 10 sold).0)
orders_private_example = orders_private 3 21 no_cursor 10 two_customers sold same_own_orders refl
