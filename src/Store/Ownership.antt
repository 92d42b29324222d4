-- ===== src/Store/Ownership.antt =====
-- Which calls of the store add an order, and whose it is.
use storefront.Common.{Bool, Text, ap, arith, inl, inr, refl, ℕ, ◌+◌, ◌∙◌, ◌∷◌, ◌≡◌, ◌⊎◌}
use storefront.Domain.Orders.{Order}
use storefront.Domain.Pages.{Cursor, Uuid, after}
use storefront.Domain.Products.{Product}
use storefront.Errors.{Result, err, ok}
use storefront.Events.{Event}
use storefront.Store.Orders.{create_order, find_order, find_orders, list_orders, order_page}
use storefront.Store.Products.{
  delete, delete_body, find_all, find_by_id, list_products, product_page, save, save_body, update,
  update_body,
}
use storefront.Store.Purchases.{Announced, orders-Bought, user-Bought}
use storefront.Store.Replays.{Outcome, bought, replayed}
use storefront.Store.Retries.{create_order-Outcome}
use storefront.Store.Schema.{Db, Sql}
use storefront.Store.Sql.Orders.{get_order}
use storefront.Store.Sql.Products.{get_product}
use storefront.Store.Tx.{
  Fault, Platform, World, after_call, exec, fail, lost, next_fault, pass, pure, query, settle,
  ◌>>=◌,
}
use storefront.Store.Tx.Atomic.{with_tx-Post}
use storefront.Store.Writes.{
  Removed, Rewritten, Saved, delete_body-Removed, save_body-Saved, update_body-Rewritten,
}

abbrev Unordered : World → World → Type 0
Unordered before w = w.db.orders ≡ before.db.orders

-- at most one order is added, and it is the user's
abbrev pub AddsFor : Uuid → World → World → Type 0
AddsFor user before w =
    (w.db.orders ≡ before.db.orders)
    ⊎ ((o : Order) × (o.user_id ≡ user) × (w.db.orders ≡ o ∷ before.db.orders))

Announced-orders :
    {e : Event} {before after_it : Db}
    → Announced e before after_it
    → after_it.orders ≡ before.orders
Announced-orders a = ap (λ (d : Db). d.orders) a.tables

module _ (pf : Platform) where
  pub save-orders : (p : Product) (w : World) → (save pf p w).1.db.orders ≡ w.db.orders
  unfolding save
  save-orders p w =
      elim (with_tx-Post (λ out d. Saved p w.db out d) (save_body pf p) w
        (save_body-Saved pf p (after_call w))) [
          | inl same_db ↦ ap (λ (d : Db). d.orders) same_db
          | inr (out, saved) ↦
              Announced-orders saved.reported.announced
              ∙ ap (λ (d : Db). d.orders) saved.inserted.tables
        ]

  pub update-orders : (p : Product) (w : World) → (update pf p w).1.db.orders ≡ w.db.orders
  unfolding update
  update-orders p w =
      elim (with_tx-Post (λ out d. Rewritten p w.db out d) (update_body pf p) w
        (update_body-Rewritten pf p (after_call w))) [
          | inl same_db ↦ ap (λ (d : Db). d.orders) same_db
          | inr (out, rewritten) ↦
              Announced-orders rewritten.reported.announced
              ∙ ap (λ (d : Db). d.orders) rewritten.updated.tables
        ]

  pub delete-orders : (id : Uuid) (w : World) → (delete pf id w).1.db.orders ≡ w.db.orders
  unfolding delete
  delete-orders id w =
      elim (with_tx-Post (λ _ d. Removed id w.db d) (delete_body pf id) w
        (delete_body-Removed pf id (after_call w))) [
          | inl same_db ↦ ap (λ (d : Db). d.orders) same_db
          | inr (_, removed) ↦
              Announced-orders removed.reported.announced
              ∙ ap (λ (d : Db). d.orders) removed.deleted.tables
        ]

  Outcome-AddsFor :
      (now : ℕ) (o : Order) (key : Text) (w : World) (out : Order × Bool) (v : World)
      → Outcome now pf o key w.db out v.db
      → AddsFor o.user_id w v
  Outcome-AddsFor now o key w out v (replayed stored until r unchanged m) =
      inl (ap (λ (d : Db). d.orders) unchanged)
  Outcome-AddsFor now o key w out v (bought middle last fresh buys start end m keys) = inr (
    out.0,
    user-Bought buys,
    ap (λ (d : Db). d.orders) end ∙ orders-Bought buys ∙ ap (λ (d : Db). out.0 ∷ d.orders) start,
  )

  pub create_order-AddsFor :
      (o : Order) (key : Text) (w : World) → AddsFor o.user_id w (create_order pf o key w).1
  create_order-AddsFor o key w = elim (create_order-Outcome pf o key w) [
    | inl same_db ↦ inl (ap (λ (d : Db). d.orders) same_db)
    | inr (out, result) ↦ Outcome-AddsFor w.clock o key w out (create_order pf o key w).1 result
  ]

-- a statement that only reads
abbrev ReadsOnly : {A : Type 0} → Sql A → Type 0
ReadsOnly {A} s = (db : Db) (a : A) (db' : Db) → s db ≡ ok (a, db') → db' ≡ db

exec-db : {A : Type 0} (s : Sql A) (w : World) → ReadsOnly s → (exec s w).1.db ≡ w.db
unfolding exec
exec-db {A} s w reads = by_fault (next_fault w.faults)
  where
    settled_db : (r : Result (A × Db)) → s w.db ≡ r → (settle r (after_call w)).1.db ≡ w.db
    settled_db (ok (a, db')) e = reads w.db a db' e
    settled_db (err x) e = refl

    by_fault :
        (x : Fault)
        → (elim x as (λ y. Result A × World) [
          | pass ↦ settle (s w.db) (after_call w)
          | fail e ↦ (err e, after_call w)
          | lost e ↦ (err e, after_call w)
        ]).1.db
          ≡ w.db
    by_fault pass = settled_db (s w.db) refl
    by_fault (fail e) = refl
    by_fault (lost e) = refl

get_product-ReadsOnly : (id : Uuid) → ReadsOnly (get_product id)
unfolding get_product
get_product-ReadsOnly id db a db' e = ground arith

get_order-ReadsOnly : (id user : Uuid) → ReadsOnly (get_order id user)
unfolding get_order
get_order-ReadsOnly id user db a db' e = ground arith

pub find_by_id-db : (id : Uuid) (w : World) → (find_by_id id w).1.db ≡ w.db
unfolding find_by_id
find_by_id-db id w = exec-db (get_product id) w (get_product-ReadsOnly id)

pub find_order-db : (user id : Uuid) (w : World) → (find_order user id w).1.db ≡ w.db
unfolding find_order
find_order-db user id w = exec-db (get_order id user) w (get_order-ReadsOnly id user)

query-db : {A : Type 0} (s : Sql A) (w : World) → ReadsOnly s → (query s w).1.db ≡ w.db
unfolding query
query-db s w reads = exec-db s w reads

-- what follows a query in the list methods changes nothing
queried-db :
    {A B : Type 0} (f : A → B) (s : Sql A) (w : World)
    → ReadsOnly s
    → ((do a ← query s; pure (f a)) w).1.db ≡ w.db
queried-db {A} {B} f s w reads = go (query s w) (query-db s w reads)
  where
    go :
        (out : Result A × World)
        → out.1.db ≡ w.db
        → (let (r, w') = out in
            elim r as (λ x. Result B × World) [ ok a ↦ pure (f a) w' | err e ↦ (err e, w') ]).1.db
          ≡ w.db
    go (ok a, w') h = h
    go (err e, w') h = h

pub find_all-db : (cursor : Cursor) (limit : ℕ) (w : World) → (find_all cursor limit w).1.db ≡ w.db
unfolding find_all list_products
find_all-db cursor limit w =
    queried-db (λ products. product_page products limit) (list_products (after cursor) (limit + 1))
      w (λ db a db' e. ground arith)

pub find_orders-db :
    (user : Uuid) (cursor : Cursor) (limit : ℕ) (w : World)
    → (find_orders user cursor limit w).1.db ≡ w.db
unfolding find_orders list_orders
find_orders-db user cursor limit w =
    queried-db (λ orders. order_page orders limit) (list_orders user (after cursor) (limit + 1)) w
      (λ db a db' e. ground arith)
