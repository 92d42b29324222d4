-- ===== src/Store/Sound/Calls.antt =====
-- The calls of the store against the invariant of the tables.
use storefront.Common.{
  All, All-filter, Bool, List, Text, ap, arith, filter, inl, inr, not, refl, subst, subst₂, sym, ℕ,
  ◌+◌, ◌∙◌, ◌∷◌, ◌≡◌,
}
use storefront.Domain.Orders.{Order}
use storefront.Domain.Pages.{Uuid}
use storefront.Domain.Products.{Product}
use storefront.Events.{Event}
use storefront.Store.Orders.{create_order, purge_idempotency_keys}
use storefront.Store.Products.{delete, delete_body, save, save_body, update, update_body}
use storefront.Store.Purchases.{Announced, Bought, orders-Bought, products-Bought, user-Bought}
use storefront.Store.Replays.{Outcome, bought, replayed}
use storefront.Store.Retries.{create_order-Outcome}
use storefront.Store.Schema.{Db}
use storefront.Store.Sound.{
  IsLinked, IsPlaced, IsSound, IsStocked, insert-IsPlaced, keys_after-IsLinked, remove-IsPlaced,
  replace-IsPlaced, replace-IsStocked, stored-IsStocked,
}
use storefront.Store.Sql.Keys.{is_expired, purge_keys}
use storefront.Store.Sql.Products.{has_id, replace_product}
use storefront.Store.Sql.Rows.{select-replace}
use storefront.Store.Tx.{Fault, Platform, World, after_call, autocommit}
use storefront.Store.Tx.Atomic.{with_tx-Post}
use storefront.Store.Writes.{
  Removed, Rewritten, Saved, delete_body-Removed, save_body-Saved, update_body-Rewritten,
}

-- only the outbox has changed
Announced-IsSound :
    {e : Event} {before after_it : Db}
    → Announced e before after_it
    → IsSound before
    → IsSound after_it
Announced-IsSound a s =
    subst IsSound (sym a.tables)
      (record { stocked = s.stocked; placed = s.placed; keyed = s.keyed })

Saved-IsSound :
    (p out : Product) (before after_it : Db)
    → Saved p before out after_it
    → IsSound before
    → IsSound after_it
Saved-IsSound p out before after_it w s = Announced-IsSound w.reported.announced (
    subst IsSound (sym w.inserted.tables) (record {
      stocked = (stored-IsStocked _ w.inserted.row w.inserted.stored, s.stocked);
      placed = insert-IsPlaced w.inserted.row before.products before.orders s.placed;
      keyed = s.keyed;
    }))

Rewritten-IsSound :
    (p out : Product) (before after_it : Db)
    → Rewritten p before out after_it
    → IsSound before
    → IsSound after_it
Rewritten-IsSound p out before after_it w s = Announced-IsSound w.reported.announced (
    subst IsSound (sym w.updated.tables) (record {
      stocked =
          replace-IsStocked out before.products (stored-IsStocked _ out w.updated.stored) s.stocked;
      placed = replace-IsPlaced out before.products before.orders s.placed;
      keyed = s.keyed;
    }))

Removed-IsSound :
    (id : Uuid) (before after_it : Db)
    → Removed id before after_it
    → IsSound before
    → IsSound after_it
Removed-IsSound id before after_it w s = Announced-IsSound w.reported.announced (
    subst IsSound (sym w.deleted.tables) (record {
      stocked = All-filter IsStocked (λ r. not (has_id id r)) before.products s.stocked;
      placed = remove-IsPlaced id before.products before.orders w.deleted.unordered s.placed;
      keyed = s.keyed;
    }))

module _ {o b : Order} {before after_it : Db} (buys : Bought o before after_it b) where
  abbrev new_products : List Product
  new_products = replace_product buys.row.id buys.row before.products

  -- the product that is sold was there, and is there after the decrement
  bought-IsPlaced : IsPlaced new_products b
  bought-IsPlaced = ground (
    arith,
    buys.wanted,
    buys.order,
    buys.decrement.found,
    select-replace buys.row.id o.product_id buys.row before.products refl,
  )

  bought-IsStocked : IsStocked buys.row
  bought-IsStocked = stored-IsStocked _ buys.row buys.decrement.stored

Outcome-IsSound :
    (now : ℕ) (pf : Platform) (o : Order) (key : Text) (before : Db) (out : Order × Bool)
    (after_it : Db)
    → Outcome now pf o key before out after_it
    → IsSound before
    → IsSound after_it
Outcome-IsSound now pf o key before out after_it (replayed stored until r unchanged m) s =
    subst IsSound (sym unchanged) s
Outcome-IsSound now pf o key before out after_it (bought middle last fresh buys start end m keys)
      s =
    let same_products = ap (λ (d : Db). d.products) start in
    let same_orders = ap (λ (d : Db). d.orders) start in
    let products : last.products ≡ replace_product buys.row.id buys.row before.products =
      products-Bought buys ∙ ap (replace_product buys.row.id buys.row) same_products in
    let orders : last.orders ≡ out.0 ∷ before.orders =
      orders-Bought buys ∙ ap (λ (l : List Order). out.0 ∷ l) same_orders in
    subst IsSound (sym end) (record {
      stocked =
          subst (All IsStocked) (sym products)
            (replace-IsStocked buys.row before.products (bought-IsStocked buys) s.stocked);
      placed =
          subst₂ (λ ps os. All (IsPlaced ps) os) (sym products) (sym orders)
            (
              subst (λ ps. IsPlaced (replace_product buys.row.id buys.row ps) out.0) same_products
                  (bought-IsPlaced buys),
              replace-IsPlaced buys.row before.products before.orders s.placed,
            );
      keyed =
          subst₂ (λ os ks. All (IsLinked os) ks) (sym orders) (sym keys)
            (keys_after-IsLinked now pf o out.0 key before.orders (user-Bought buys) before.keys
              s.keyed);
    })

module _ (pf : Platform) where
  save-IsSound : (p : Product) (w : World) → IsSound w.db → IsSound (save pf p w).1.db
  unfolding save
  save-IsSound p w s =
      elim (with_tx-Post (λ out d. Saved p w.db out d) (save_body pf p) w
        (save_body-Saved pf p (after_call w))) [
          | inl same_db ↦ subst IsSound (sym same_db) s
          | inr (out, saved) ↦ Saved-IsSound p out w.db _ saved s
        ]

  update-IsSound : (p : Product) (w : World) → IsSound w.db → IsSound (update pf p w).1.db
  unfolding update
  update-IsSound p w s =
      elim (with_tx-Post (λ out d. Rewritten p w.db out d) (update_body pf p) w
        (update_body-Rewritten pf p (after_call w))) [
          | inl same_db ↦ subst IsSound (sym same_db) s
          | inr (out, rewritten) ↦ Rewritten-IsSound p out w.db _ rewritten s
        ]

  delete-IsSound : (id : Uuid) (w : World) → IsSound w.db → IsSound (delete pf id w).1.db
  unfolding delete
  delete-IsSound id w s =
      elim (with_tx-Post (λ _ d. Removed id w.db d) (delete_body pf id) w
        (delete_body-Removed pf id (after_call w))) [
          | inl same_db ↦ subst IsSound (sym same_db) s
          | inr (_, removed) ↦ Removed-IsSound id w.db _ removed s
        ]

  create_order-IsSound :
      (o : Order) (key : Text) (w : World) → IsSound w.db → IsSound (create_order pf o key w).1.db
  create_order-IsSound o key w s = elim (create_order-Outcome pf o key w) [
    | inl same_db ↦ subst IsSound (sym same_db) s
    | inr (out, result) ↦ Outcome-IsSound w.clock pf o key w.db out _ result s
  ]

purged-IsSound :
    (now : ℕ) (db : Db)
    → IsSound db
    → IsSound (record db { keys = filter (λ r. not (is_expired now r)) db.keys })
purged-IsSound now db s = record {
  stocked = s.stocked;
  placed = s.placed;
  keyed = All-filter (IsLinked db.orders) (λ r. not (is_expired now r)) db.keys s.keyed;
}

purge-IsSound : (w : World) → IsSound w.db → IsSound (purge_idempotency_keys w).1.db
unfolding purge_idempotency_keys autocommit purge_keys
purge-IsSound w s = ground (arith, purged-IsSound w.clock w.db s)

-- A call of the store, or a change of what it does not control: time passes, other processes use up
-- ids, and the coming calls meet other faults.
pub data Step (pf : Platform) : World → World → Type 0 where
  saves : (p : Product) (w : World) → Step pf w (save pf p w).1
  updates : (p : Product) (w : World) → Step pf w (update pf p w).1
  deletes : (id : Uuid) (w : World) → Step pf w (delete pf id w).1
  orders_from : (o : Order) (key : Text) (w : World) → Step pf w (create_order pf o key w).1
  purges : (w : World) → Step pf w (purge_idempotency_keys w).1
  passes :
      (w : World) (seq drawn clock : ℕ) (faults : List Fault)
      → Step pf w
          (record w { outbox_seq = seq; drawn = drawn; clock = w.clock + clock; faults = faults })

pub data Reach (pf : Platform) (w : World) : World → Type 0 where
  here : Reach pf w w
  next : {v u : World} → Reach pf w v → Step pf v u → Reach pf w u

pub Step-IsSound : {pf : Platform} {w u : World} → Step pf w u → IsSound w.db → IsSound u.db
Step-IsSound {pf} (saves p w) s = save-IsSound pf p w s
Step-IsSound {pf} (updates p w) s = update-IsSound pf p w s
Step-IsSound {pf} (deletes id w) s = delete-IsSound pf id w s
Step-IsSound {pf} (orders_from o key w) s = create_order-IsSound pf o key w s
Step-IsSound (purges w) s = purge-IsSound w s
Step-IsSound (passes w seq drawn clock faults) s = s

-- Whatever calls are made, in any order and with any faults, no stock is negative, every order is of
-- a product that exists, and every committed idempotency key leads to an order.
pub Reach-IsSound : {pf : Platform} {w u : World} → IsSound w.db → Reach pf w u → IsSound u.db
Reach-IsSound s here = s
Reach-IsSound s (next r step) = Step-IsSound step (Reach-IsSound s r)
