-- ===== src/Store/Purchases.antt =====
-- What a purchase has done when it returned: the decrement, the order, the event and the key.
use storefront.Common.{
  Text, ap, arith, codes, false, if◌then◌else◌, is_some, pos, refl, ℕ, ℤ, ◌+◌, ◌<ℤ◌, ◌∷◌, ◌≡◌,
}
use storefront.Domain.Orders.{Order}
use storefront.Domain.Pages.{Uuid}
use storefront.Domain.Products.{Product}
use storefront.Errors.{GoError, Result, err, is, no_rows, ok, wrap}
use storefront.Events.{Event, new_event, new_purchased, type_purchased}
use storefront.Store.Orders.{
  decremented, no_row_cause, no_row_error, purchase_tx, record_purchase, snapshot,
}
use storefront.Store.Products.{draw, insert_outbox, notify, wrapped}
use storefront.Store.Schema.{Db}
use storefront.Store.Sql.Effects.{Decrement, insert_order-Placed, purchase_product-Decrement}
use storefront.Store.Sql.Orders.{insert_order, select_order}
use storefront.Store.Sql.Outbox.{insert_event}
use storefront.Store.Sql.Products.{product_exists, purchase_product, replace_product}
use storefront.Store.Tx.{Platform, Tx, World, after_call, exec, pure, throw, ◌>>=◌, ◌>>◌}
use storefront.Store.Tx.Post.{Post, Post-bind, Post-exec, Post-exec-bind, Post-if}

pub Post-wrapped :
    {A : Type 0} (Q : A → World → Type 0) (text : Text) (m : Tx A) (w : World)
    → Post Q (m w)
    → Post Q (wrapped text m w)
Post-wrapped {A} Q text m w h = go (m w) h
  where
    go :
        (out : Result A × World)
        → Post Q out
        → Post Q
            (let (r, w') = out in elim r [ ok a ↦ (ok a, w') | err e ↦ (err (wrap text e), w') ])
    go (ok a, w') h = h
    go (err e, w') h = tt

-- a purchase that finds no row fails, whichever of the two errors it is
no_row_error_fails :
    {A : Type 0} (Q : A → World → Type 0) (id : Uuid) (w : World) → Post Q (no_row_error id w)
no_row_error_fails Q id w =
    Post-exec-bind Q (product_exists id) (λ found. throw (no_row_cause found)) w λ a db h. tt

decremented-Decrement :
    (id : Uuid) (qty : ℤ) (w : World)
    → Post (λ p w'. Decrement id qty w.db p w'.db) (decremented id qty w)
decremented-Decrement id qty w = go (exec (purchase_product id qty) w) ran
  where
    Q : Product → World → Type 0
    Q p w' = Decrement id qty w.db p w'.db

    ran : Post Q (exec (purchase_product id qty) w)
    ran =
        Post-exec Q (purchase_product id qty) w
          λ p db h. purchase_product-Decrement id qty w.db p db h

    no_row :
        (e : GoError) (w' : World)
        → Post Q (if is no_rows e then no_row_error id w' else (err e, w'))
    no_row e w' = Post-if Q (is no_rows e) _ _ (no_row_error_fails Q id w') tt

    go :
        (out : Result Product × World)
        → Post Q out
        → Post Q (
            let (r, w') = out in
            elim r [
              | ok p ↦ (ok p, w')
              | err e ↦ if is no_rows e then no_row_error id w' else (err e, w')
            ])
    go (ok p, w') h = h
    go (err e, w') h = no_row e w'

-- the tables after one more event in the outbox
pub record Announced (e : Event) (before after_it : Db) : Type 0 where
  pub id : ℕ
  pub at : ℕ
  pub tables : after_it ≡ record before {
    outbox =
        record {
          id = id;
          message_id = e.event_id;
          event_type = e.event_type;
          payload = e;
          attempts = 0;
          next_attempt_at = at;
          created_at = at;
        }
        ∷ before.outbox;
  }

pub insert_outbox-Announced :
    (e : Event) (w : World) → Post (λ _ w'. Announced e w.db w'.db) (insert_outbox e w)
unfolding insert_outbox insert_event
insert_outbox-Announced e w =
    let w0 : World = record w { outbox_seq = w.outbox_seq + 1 } in
    let Q : Unit {0} → World → Type 0 = λ _ w'. Announced e w.db w'.db in
    Post-bind Q Q (wrapped (codes "insert outbox") (exec (insert_event w.outbox_seq w.clock e))) _
      w0
      (Post-wrapped Q (codes "insert outbox") (exec (insert_event w.outbox_seq w.clock e)) w0 (
        Post-exec Q _ w0
          λ a db h. record { id = w.outbox_seq; at = w.clock; tables = ground arith }))
      λ a w1 announced. Post-wrapped Q (codes "notify outbox") (exec notify) w1 (
        Post-exec Q notify w1 λ a db h. record {
          id = announced.id;
          at = announced.at;
          tables = ground (arith, announced.tables);
        })

pub record Bought (o : Order) (before after_it : Db) (bought : Order) : Type 0 where
  pub row : Product
  pub event : Event
  pub middle : Db
  pub decrement : Decrement o.product_id o.quantity before row middle
  pub order : bought ≡ record o { unit_price = row.price; created_at = bought.created_at }
  pub wanted : pos 0 <ℤ o.quantity
  pub new_id : is_some (select_order o.id before.orders) ≡ false
  pub of_purchase :
      (event.event_type ≡ type_purchased)
      × (event.product_id ≡ row.id)
      × (event.version ≡ row.version)
      × (event.stock ≡ row.stock)
      × (event.quantity ≡ o.quantity)
  pub announced : Announced event (record middle { orders = bought ∷ middle.orders }) after_it

module _ {o : Order} {before after_it : Db} {b : Order} (buys : Bought o before after_it b) where
  pub keys-Bought : after_it.keys ≡ before.keys
  keys-Bought = ground (arith, buys.announced.tables, buys.decrement.tables)

  pub orders-Bought : after_it.orders ≡ b ∷ before.orders
  orders-Bought = ground (arith, buys.announced.tables, buys.decrement.tables)

  pub products-Bought : after_it.products ≡ replace_product buys.row.id buys.row before.products
  products-Bought = ground (arith, buys.announced.tables, buys.decrement.tables)

  pub user-Bought : b.user_id ≡ o.user_id
  user-Bought = ap (λ (x : Order). x.user_id) buys.order

module _ (pf : Platform) (o : Order) (w : World) where
  abbrev pub BoughtAs : Order → World → Type 0
  BoughtAs b w' = Bought o w.db w'.db b

  pub record_purchase-Bought :
      (p : Product) (w1 : World)
      → Decrement o.product_id o.quantity w.db p w1.db
      → Post BoughtAs (record_purchase pf o p w1)
  record_purchase-Bought p w1 d =
      Post-exec-bind BoughtAs (insert_order w1.clock (record o { unit_price = p.price }))
        (λ created_at. do
          id ← draw pf
          insert_outbox (new_purchased id w1.clock p o.quantity)
          pure (snapshot o p created_at))
        w1
        λ created_at db h.
          let placed =
            insert_order-Placed w1.clock (record o { unit_price = p.price }) w1.db created_at db
              h in
          let w2 : World = record (after_call w1) { db = db; drawn = w1.drawn + 1 } in
          let event = new_purchased (pf.new_v7 w1.drawn) w1.clock p o.quantity in
          Post-bind (λ _ w'. Announced event db w'.db) BoughtAs (insert_outbox event)
            (λ _. pure (snapshot o p created_at)) w2 (insert_outbox-Announced event w2)
            λ _ w3 announced. record {
              row = p;
              event = event;
              middle = w1.db;
              decrement = d;
              order = refl;
              wanted = placed.wanted;
              new_id = ground (arith, d.tables, placed.new_id);
              of_purchase = unfold new_purchased new_event in (refl, refl, refl, refl, refl);
              announced = record {
                id = announced.id;
                at = announced.at;
                tables = ground (arith, announced.tables, placed.tables, placed.at_clock);
              };
            }

  pub purchase_tx-Bought : Post BoughtAs (purchase_tx pf o w)
  unfolding purchase_tx
  purchase_tx-Bought =
      Post-bind (λ p w1. Decrement o.product_id o.quantity w.db p w1.db) BoughtAs
        (decremented o.product_id o.quantity) (record_purchase pf o) w
        (decremented-Decrement o.product_id o.quantity w) record_purchase-Bought
