-- ===== src/Store/Orders.antt =====
-- internal/store/order_store.go and idempotency_store.go, and purchaseTx of product_store.go
use storefront.Common.{
  Bool, List, Text, [], false, filter, if◌then◌else◌, leb, length, negsuc, pos, suc, take, text_eq,
  true, zero, ℕ, ℤ, ◌%◌, ◌++◌, ◌+◌, ◌/◌, ◌==◌, ◌∷◌,
}
use storefront.Domain.Orders.{Order, OrderPage}
use storefront.Domain.Pages.{Cursor, Uuid, after}
use storefront.Domain.Products.{Product}
use storefront.Errors.{
  GoError, err, idempotency_mismatch, insufficient_stock, is, no_rows, not_found, ok, sentinel,
}
use storefront.Events.{new_purchased}
use storefront.Store.Products.{draw, insert_outbox, lookup_result, read_clock}
use storefront.Store.Schema.{Sql}
use storefront.Store.Sql.Keys.{insert_key, link_key, purge_keys, select_replay}
use storefront.Store.Sql.Keyset.{descending, page_rows}
use storefront.Store.Sql.Orders.{get_order, insert_order, owned_by}
use storefront.Store.Sql.Products.{product_exists, purchase_product}
use storefront.Store.Tx.{Platform, Tx, autocommit, exec, pure, query, throw, with_tx, ◌>>=◌, ◌>>◌}

-- strconv.FormatInt(n, 10)
unfoldable pub digit_loop : ℕ → ℕ → Text → Text
digit_loop zero n acc = acc
digit_loop (suc f) n acc =
    let rest = digit_loop f (n / 10) ((48 + n % 10) ∷ acc) in if n == 0 then acc else rest

unfoldable pub format_nat : ℕ → Text
format_nat n = if n == 0 then b'0' ∷ [] else digit_loop n n []

unfoldable pub format_int : ℤ → Text
format_int (pos n) = format_nat n
format_int (negsuc n) = b'-' ∷ format_nat (n + 1)

-- what `hashOrderRequest` hashes
unfoldable pub order_request : Platform → Order → Text
order_request pf o = pf.texts.format o.product_id ++ b'|' ∷ format_int o.quantity

-- `hashOrderRequest`
unfoldable pub hash_order_request : Platform → Order → Text
hash_order_request pf o = pf.sha256 (order_request pf o)

abbrev pub no_row_cause : Bool → GoError
no_row_cause true = sentinel insufficient_stock
no_row_cause false = sentinel not_found

-- `purchaseNoRowError`
abbrev pub no_row_error : {A : Type 0} → Uuid → Tx A
no_row_error id = do found ← exec (product_exists id); throw (no_row_cause found)

-- `scanProduct` of queryPurchase, and the error of its missing row
abbrev pub decremented : Uuid → ℤ → Tx Product
decremented id qty w =
    let (r, w') = exec (purchase_product id qty) w in
    elim r [ ok p ↦ (ok p, w') | err e ↦ if is no_rows e then no_row_error id w' else (err e, w') ]

-- the order snapshots the unit price that the decrement returned
abbrev pub snapshot : Order → Product → ℕ → Order
snapshot o p created_at = record o { unit_price = p.price; created_at = created_at }

-- the rest of `purchaseTx`, after the decrement: the order and its event
abbrev pub record_purchase : Platform → Order → Product → Tx Order
record_purchase pf o p = do
  t ← read_clock
  created_at ← exec (insert_order t (record o { unit_price = p.price }))
  id ← draw pf
  insert_outbox (new_purchased id t p o.quantity)
  pure (snapshot o p created_at)

-- `purchaseTx`
unfoldable pub purchase_tx : Platform → Order → Tx Order
purchase_tx pf o = do p ← decremented o.product_id o.quantity; record_purchase pf o p

-- the scan of the stored order over the caller's, which keeps its user
abbrev pub replayed_order : Order → Order → Order
replayed_order o stored = record o {
  id = stored.id;
  product_id = stored.product_id;
  quantity = stored.quantity;
  unit_price = stored.unit_price;
  created_at = stored.created_at;
}

-- `replayIdempotent`
unfoldable pub replay_idempotent : Platform → Order → Text → Tx (Order × Bool)
replay_idempotent pf o key = do
  found ← exec (select_replay o.user_id key)
  if text_eq found.0 (hash_order_request pf o)
      then pure (replayed_order o found.1, true)
      else throw (sentinel idempotency_mismatch)

-- the branch on RowsAffected: a claim buys, a conflict replays
abbrev pub buy_or_replay : Platform → Order → Text → ℕ → Tx (Order × Bool)
buy_or_replay pf o key zero = replay_idempotent pf o key
buy_or_replay pf o key (suc n) = do
  bought ← purchase_tx pf o
  exec (link_key bought.user_id key bought.id)
  pure (bought, false)

-- the function that `createOrderIdempotent` runs in its transaction
unfoldable pub claim_and_buy : Platform → Order → Text → Tx (Order × Bool)
claim_and_buy pf o key = do
  t ← read_clock
  affected ← exec (insert_key t o.user_id key (hash_order_request pf o) pf.idempotency_ttl)
  buy_or_replay pf o key affected

-- `CreateOrder` and `createOrderIdempotent`
unfoldable pub create_order : Platform → Order → Text → Tx (Order × Bool)
create_order pf o key = with_tx (claim_and_buy pf o key)

-- `FindOrder`
unfoldable pub find_order : Uuid → Uuid → Tx Order
find_order user id w = let (r, w') = exec (get_order id user) w in (lookup_result r, w')

-- `orderPage`
unfoldable pub order_page : List Order → ℕ → OrderPage
order_page orders limit =
    if leb (length orders) limit
    then record { items = orders; has_more = false }
    else record { items = take limit orders; has_more = true }

abbrev pub order_key : Order → Uuid
order_key o = o.id

-- queryGetOrders and queryGetOrdersAfterCursor
unfoldable pub list_orders : Uuid → Uuid × Bool → ℕ → Sql (List Order)
list_orders user c n db =
    ok (page_rows order_key descending c n (filter (owned_by user) db.orders), db)

-- `FindOrders`
unfoldable pub find_orders : Uuid → Cursor → ℕ → Tx OrderPage
find_orders user cursor limit = do
  orders ← query (list_orders user (after cursor) (limit + 1))
  pure (order_page orders limit)

-- `PurgeIdempotencyKeys`
unfoldable pub purge_idempotency_keys : Tx ℕ
purge_idempotency_keys = do t ← read_clock; autocommit (purge_keys t)
