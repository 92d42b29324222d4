-- ===== src/Store/Stock.antt =====
-- Stock and sales of a product over the calls of the store: internal/store/product_store.go and
-- order_store.go.
use storefront.Common.{
  All-find?, Bool, List, Option, Text, [], ap, arith, if◌then◌else◌, inl, inr, int_laws, neg_part,
  none, pos, pos_part, refl, some, ℕ, ℤ, ◌+ℤ◌, ◌∙◌, ◌∷◌, ◌≡◌, ◌≢◌, ◌≤ℤ◌,
}
use storefront.Domain.Orders.{Order}
use storefront.Domain.Pages.{Uuid}
use storefront.Domain.Products.{Product}
use storefront.Events.{Event}
use storefront.Store.Orders.{create_order, purge_idempotency_keys}
use storefront.Store.Products.{delete, delete_body, save, save_body, update, update_body}
use storefront.Store.Purchases.{Announced, Bought, orders-Bought, products-Bought}
use storefront.Store.Replays.{Outcome, bought, replayed}
use storefront.Store.Retries.{create_order-Outcome}
use storefront.Store.Schema.{Db}
use storefront.Store.Sound.{IsSound, IsStocked}
use storefront.Store.Sound.Calls.{
  Step, Step-IsSound, deletes, orders_from, passes, purges, saves, updates,
}
use storefront.Store.Sql.Keys.{purge_keys}
use storefront.Store.Sql.Products.{has_id, of_product, select_product}
use storefront.Store.Sql.Rows.{select-filter_ne, select-replace, select_id}
use storefront.Store.Tx.{Platform, World, after_call, autocommit}
use storefront.Store.Tx.Atomic.{with_tx-Post}
use storefront.Store.Writes.{
  Removed, Rewritten, Saved, delete_body-Removed, save_body-Saved, update_body-Rewritten,
}

abbrev pub stock_in : Option Product → ℤ
stock_in none = pos 0
stock_in (some p) = p.stock

-- the units of a product in stock
unfoldable pub stock_of : Uuid → Db → ℤ
stock_of id db = stock_in (select_product id db.products)

-- the units of a product over all orders
unfoldable pub sold_of : Uuid → List Order → ℤ
sold_of id [] = pos 0
sold_of id (o ∷ orders) =
    let rest = sold_of id orders in if of_product id o then o.quantity +ℤ rest else rest

unfoldable pub units_of : Uuid → Db → ℤ
units_of id db = stock_of id db +ℤ sold_of id db.orders

units_of_same :
    (id : Uuid) (a b : Db)
    → a.products ≡ b.products
    → a.orders ≡ b.orders
    → units_of id a ≡ units_of id b
unfolding units_of stock_of
units_of_same id a b p o = cc

-- the decrement takes from the stock what the order adds to the sales
Bought-units :
    (id : Uuid) {o b : Order} {before after_it : Db}
    → Bought o before after_it b
    → units_of id after_it ≡ units_of id before
unfolding units_of stock_of sold_of
Bought-units id {o} {b} {before} {after_it} buys =
    let d = buys.decrement in
    grind (
      int_laws,
      products-Bought buys,
      orders-Bought buys,
      ap (λ (x : Order). x.product_id) buys.order,
      ap (λ (x : Order). x.quantity) buys.order,
      d.found,
      d.stored.same_id,
      d.stored.same_stock,
      select_id o.product_id d.before before.products d.found,
      select-replace buys.row.id id buys.row before.products refl,
    )

Announced-units :
    (id : Uuid) {e : Event} {before after_it : Db}
    → Announced e before after_it
    → units_of id after_it ≡ units_of id before
Announced-units id {before} {after_it} a = ground (
  arith,
  units_of_same id after_it before (ap (λ (d : Db). d.products) a.tables)
      (ap (λ (d : Db). d.orders) a.tables),
)

Outcome-units :
    (id : Uuid) (now : ℕ) (pf : Platform) (o : Order) (key : Text) (before : Db)
    (out : Order × Bool) (after_it : Db)
    → Outcome now pf o key before out after_it
    → units_of id after_it ≡ units_of id before
Outcome-units id now pf o key before out after_it (replayed stored until r unchanged m) =
    ap (units_of id) unchanged
Outcome-units id now pf o key before out after_it (bought middle last fresh buys start end m keys) =
    units_of_same id after_it last (ap (λ (d : Db). d.products) end) (ap (λ (d : Db). d.orders) end)
    ∙ Bought-units id buys
    ∙ units_of_same id middle before (ap (λ (d : Db). d.products) start)
        (ap (λ (d : Db). d.orders) start)

-- An order request, whether it buys, replays or fails, leaves the sum of stock and sales of every
-- product as it was.
pub create_order_units :
    (pf : Platform) (o : Order) (key : Text) (id : Uuid) (w : World)
    → units_of id (create_order pf o key w).1.db ≡ units_of id w.db
create_order_units pf o key id w = elim (create_order-Outcome pf o key w) [
  | inl same_db ↦ ap (units_of id) same_db
  | inr (out, result) ↦ Outcome-units id w.clock pf o key w.db out _ result
]

Rewritten-units :
    (id : Uuid) (p out : Product) (before after_it : Db)
    → Rewritten p before out after_it
    → units_of id after_it ≡ units_of id before
unfolding units_of stock_of
Rewritten-units id p out before after_it r =
    Announced-units id r.reported.announced
    ∙ (let u = r.updated in
        grind (
          arith,
          u.found,
          u.stored.same_id,
          u.stored.same_stock,
          u.tables,
          select_id p.id u.before before.products u.found,
          select-replace out.id id out before.products refl,
        ))

Saved-units :
    (id : Uuid) (p out : Product) (before after_it : Db)
    → p.id ≢ id
    → Saved p before out after_it
    → units_of id after_it ≡ units_of id before
unfolding units_of stock_of select_product
Saved-units id p out before after_it other r =
    Announced-units id r.reported.announced
    ∙ grind (arith, r.inserted.tables, r.inserted.stored.same_id)

Removed-units :
    (id gone : Uuid) (before after_it : Db)
    → gone ≢ id
    → Removed gone before after_it
    → units_of id after_it ≡ units_of id before
unfolding units_of stock_of
Removed-units id gone before after_it other r =
    Announced-units id r.reported.announced
    ∙ grind (arith, r.deleted.tables, select-filter_ne gone id before.products)

-- A step that neither creates nor deletes the product.
abbrev pub Spares : {pf : Platform} {w u : World} → Uuid → Step pf w u → Type 0
Spares id (saves p w) = p.id ≢ id
Spares id (deletes gone w) = gone ≢ id
Spares id _ = Unit

pub data Trades (pf : Platform) (id : Uuid) (w : World) : World → Type 0 where
  untraded : Trades pf id w w
  then_trade : {v u : World} → Trades pf id w v → (s : Step pf v u) → Spares id s → Trades pf id w u

purge_units :
    (id : Uuid) (w : World) → units_of id (purge_idempotency_keys w).1.db ≡ units_of id w.db
unfolding purge_idempotency_keys autocommit purge_keys units_of stock_of
purge_units id w = ground arith

Step-units :
    {pf : Platform} {w u : World} (id : Uuid) (s : Step pf w u)
    → Spares id s
    → units_of id u.db ≡ units_of id w.db
unfolding save update delete
Step-units {pf} id (saves p w) other =
    elim (with_tx-Post (λ out d. Saved p w.db out d) (save_body pf p) w
      (save_body-Saved pf p (after_call w))) [
        | inl same_db ↦ ap (units_of id) same_db
        | inr (out, r) ↦ Saved-units id p out w.db _ other r
      ]
Step-units {pf} id (updates p w) _ =
    elim (with_tx-Post (λ out d. Rewritten p w.db out d) (update_body pf p) w
      (update_body-Rewritten pf p (after_call w))) [
        | inl same_db ↦ ap (units_of id) same_db
        | inr (out, r) ↦ Rewritten-units id p out w.db _ r
      ]
Step-units {pf} id (deletes gone w) other =
    elim (with_tx-Post (λ _ d. Removed gone w.db d) (delete_body pf gone) w
      (delete_body-Removed pf gone (after_call w))) [
        | inl same_db ↦ ap (units_of id) same_db
        | inr (_, r) ↦ Removed-units id gone w.db _ other r
      ]
Step-units {pf} id (orders_from o key w) _ = create_order_units pf o key id w
Step-units id (purges w) _ = purge_units id w
Step-units id (passes w seq drawn clock faults) _ = refl

-- Over any calls with any faults that neither create nor delete a product, its stock and its sales
-- add up to the same number: nothing is sold that was not in stock, and nothing is lost.
pub Trades-units :
    {pf : Platform} (id : Uuid) {w u : World}
    → Trades pf id w u
    → units_of id u.db ≡ units_of id w.db
Trades-units id untraded = refl
Trades-units id (then_trade t s spares) = Step-units id s spares ∙ Trades-units id t

Trades-IsSound :
    {pf : Platform} (id : Uuid) {w u : World} → Trades pf id w u → IsSound w.db → IsSound u.db
Trades-IsSound id untraded s = s
Trades-IsSound id (then_trade t step spares) s = Step-IsSound step (Trades-IsSound id t s)

stock_of_nonneg : (id : Uuid) (db : Db) → IsSound db → pos 0 ≤ℤ stock_of id db
unfolding stock_of select_product
stock_of_nonneg id db s = by_row (select_product id db.products) refl
  where
    by_row : (r : Option Product) → select_product id db.products ≡ r → pos 0 ≤ℤ stock_in r
    by_row none e = omega arith
    by_row (some p) e = (All-find? IsStocked (has_id id) db.products s.stocked e).0

-- From sound tables, the orders of a product never exceed the units that there were, whatever calls
-- are made with whatever faults, as long as none creates or deletes the product.
pub never_oversold :
    {pf : Platform} (id : Uuid) {w u : World}
    → IsSound w.db
    → Trades pf id w u
    → sold_of id u.db.orders ≤ℤ units_of id w.db
unfolding units_of
never_oversold id {w} {u} s t =
    let e = Trades-units id t in
    omega (int_laws, ap pos_part e, ap neg_part e, stock_of_nonneg id u.db (Trades-IsSound id t s))
