-- ===== src/Service/Ownership.antt =====
-- Which calls of the service add an order, and whose it is.
use storefront.Common.{
  Bool, List, Text, ap, false, if◌then◌else◌, refl, subst, sym, true, ℤ, ◌+◌, ◌∙◌, ◌≡◌,
}
use storefront.Cache.{get}
use storefront.Domain.Orders.{Order}
use storefront.Domain.Pages.{Uuid}
use storefront.Domain.Products.{Product}
use storefront.Errors.{Result, err, ok}
use storefront.Service.{
  Services, State, create, create_order_for, delete_and_invalidate, find_product, invalidate,
  invalidate_unless, key_of, load_missed, load_product, new_order, on_store, product_from,
  update_and_invalidate, when_ok,
}
use storefront.Store.Orders.{create_order}
use storefront.Store.Ownership.{
  AddsFor, create_order-AddsFor, delete-orders, find_by_id-db, save-orders, update-orders,
}
use storefront.Store.Products.{delete, update}
use storefront.Store.Schema.{Db}
use storefront.Store.Tx.{World}

abbrev pub orders_in : State → List Order
orders_in s = s.world.db.orders

abbrev pub SameOrders : State → State → Type 0
SameOrders s t = orders_in t ≡ orders_in s

when_ok-world :
    {A : Type 0} (f : A → State → State) (out : Result A × State)
    → ((a : A) (s : State) → (f a s).world ≡ s.world)
    → (when_ok f out).1.world ≡ out.1.world
when_ok-world f (ok a, s) keeps = keeps a s
when_ok-world f (err e, s) keeps = refl

invalidate-world : (c : Services) (id : Uuid) (s : State) → (invalidate c id s).world ≡ s.world
unfolding invalidate
invalidate-world c id s = refl

invalidate_unless-world :
    (again : Bool) (c : Services) (id : Uuid) (s : State)
    → (invalidate_unless again c id s).world ≡ s.world
invalidate_unless-world true c id s = refl
invalidate_unless-world false c id s = invalidate-world c id s

module _ (c : Services) where
  pub create-same : (p : Product) (s : State) → SameOrders s (create c p s).1
  unfolding create
  create-same p s =
      save-orders c.store (record p { id = c.store.new_v7 s.world.drawn })
        (record s.world { drawn = s.world.drawn + 1 })

  pub update-same : (p : Product) (s : State) → SameOrders s (update_and_invalidate c p s).1
  unfolding update_and_invalidate
  update-same p s =
      ap (λ (w : World). w.db.orders)
        (when_ok-world (λ q. invalidate c p.id) (on_store (update c.store p) s)
          (λ q t. invalidate-world c p.id t))
      ∙ update-orders c.store p s.world

  pub delete-same : (id : Uuid) (s : State) → SameOrders s (delete_and_invalidate c id s).1
  unfolding delete_and_invalidate
  delete-same id s =
      ap (λ (w : World). w.db.orders)
        (when_ok-world (λ u. invalidate c id) (on_store (delete c.store id) s)
          (λ u t. invalidate-world c id t))
      ∙ delete-orders c.store id s.world

  load-same : (id : Uuid) (s : State) → SameOrders s (load_product c id s).1
  unfolding load_product
  load-same id s =
      let (got, v) = get c.cache (key_of c id) s.valkey in
      go got.0.hit (ap (λ (db : Db). db.orders) (find_by_id-db id s.world))
    where
      go :
          (hit : Bool)
          → orders_in
              (load_missed c id
                (get c.cache (key_of c id) s.valkey).0
                (record s { valkey = (get c.cache (key_of c id) s.valkey).1 })).1
            ≡ orders_in s
          → SameOrders s
              (if hit
                then (
                  product_from (get c.cache (key_of c id) s.valkey).0.0,
                  record s { valkey = (get c.cache (key_of c id) s.valkey).1 },
                )
                else load_missed c id
                    (get c.cache (key_of c id) s.valkey).0
                    (record s { valkey = (get c.cache (key_of c id) s.valkey).1 })).1
      go true h = refl
      go false h = h

  pub find-same : (id : Uuid) (s : State) → SameOrders s (find_product c id s).1
  unfolding find_product
  find-same id s =
      go (get c.cache (key_of c id) s.valkey).0.0.hit
        (load-same id (record s { valkey = (get c.cache (key_of c id) s.valkey).1 }))
    where
      t : State
      t = record s { valkey = (get c.cache (key_of c id) s.valkey).1 }

      go :
          (hit : Bool)
          → SameOrders s (load_product c id t).1
          → SameOrders s
              (if hit
                then (product_from (get c.cache (key_of c id) s.valkey).0.0, t)
                else load_product c id t).1
      go true h = refl
      go false h = h

  pub order-AddsFor :
      (user wanted : Uuid) (qty : ℤ) (key : Text) (s : State)
      → AddsFor user s.world (create_order_for c user wanted qty key s).1.world
  unfolding create_order_for
  order-AddsFor user wanted qty key s =
      let o = new_order c (c.store.new_v7 s.world.drawn) user wanted qty in
      let w : World = record s.world { drawn = s.world.drawn + 1 } in
      subst (AddsFor user s.world)
        (sym (
          when_ok-world (λ (r : Order × Bool). invalidate_unless r.1 c wanted)
            (on_store (create_order c.store o key) (record s { world = w }))
            (λ r t. invalidate_unless-world r.1 c wanted t)))
        (create_order-AddsFor c.store o key w)
