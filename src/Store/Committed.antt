-- ===== src/Store/Committed.antt =====
-- Save, Update and Delete that return: internal/store/product_store.go.
use storefront.Common.{subst, sym, ◌≡◌}
use storefront.Domain.Pages.{Uuid}
use storefront.Domain.Products.{Product}
use storefront.Errors.{ok}
use storefront.Store.Products.{delete, delete_body, save, save_body, update, update_body}
use storefront.Store.Schema.{Db}
use storefront.Store.Tx.{Platform, Tx, World, after_call}
use storefront.Store.Tx.Atomic.{with_tx_ok}
use storefront.Store.Tx.Post.{Post-at}
use storefront.Store.Writes.{
  Removed, Rewritten, Saved, delete_body-Removed, save_body-Saved, update_body-Rewritten,
}

module _ (pf : Platform) where
  -- A Save that returns has inserted the product as version 1, and the outbox has one more row: a
  -- product.created event of it.
  pub save_ok :
      (p : Product) (w : World) (out : Product)
      → (save pf p w).0 ≡ ok out
      → Saved p w.db out (save pf p w).1.db
  unfolding save
  save_ok p w out h =
      let (returned, complete) = with_tx_ok (save_body pf p) w out h in
      subst (λ (d : Db). Saved p w.db out d) (sym complete)
        (Post-at (λ x w'. Saved p w.db x w'.db) (save_body pf p (after_call w)) out
          (save_body-Saved pf p (after_call w)) returned)

  -- An Update that returns has given the product its new name and price and the next version, has kept
  -- its stock, and has put one product.updated event of it into the outbox.
  pub update_ok :
      (p : Product) (w : World) (out : Product)
      → (update pf p w).0 ≡ ok out
      → Rewritten p w.db out (update pf p w).1.db
  unfolding update
  update_ok p w out h =
      let (returned, complete) = with_tx_ok (update_body pf p) w out h in
      subst (λ (d : Db). Rewritten p w.db out d) (sym complete)
        (Post-at (λ x w'. Rewritten p w.db x w'.db) (update_body pf p (after_call w)) out
          (update_body-Rewritten pf p (after_call w)) returned)

  -- A Delete that returns has removed the product, which no order refers to, and has put one
  -- product.deleted event with the version after its last into the outbox.
  pub delete_ok :
      (id : Uuid) (w : World) → (delete pf id w).0 ≡ ok tt → Removed id w.db (delete pf id w).1.db
  unfolding delete
  delete_ok id w h =
      let (returned, complete) = with_tx_ok (delete_body pf id) w tt h in
      subst (λ (d : Db). Removed id w.db d) (sym complete)
        (Post-at (λ x w'. Removed id w.db w'.db) (delete_body pf id (after_call w)) tt
          (delete_body-Removed pf id (after_call w)) returned)

  -- a write of a product
  pub data Write : Type 0 where
    saves updates : Product → Write
    deletes : Uuid → Write

  abbrev pub Returned : Write → Type 0
  Returned (saves p) = Product
  Returned (updates p) = Product
  Returned (deletes id) = Unit {0}

  unfoldable pub perform : (op : Write) → Tx (Returned op)
  perform (saves p) = save pf p
  perform (updates p) = update pf p
  perform (deletes id) = delete pf id

  -- what it should have done
  abbrev pub Done : (op : Write) → Db → Returned op → Db → Type 0
  Done (saves p) before out after_it = Saved p before out after_it
  Done (updates p) before out after_it = Rewritten p before out after_it
  Done (deletes id) before out after_it = Removed id before after_it

  -- A Save that returns has inserted the product as version 1. An Update that returns has given the
  -- product its new name and price and the next version, and has kept its stock. A Delete that returns
  -- has removed the product, which no order refers to. Each has put one event of it into the outbox,
  -- with its type and its version; that of a Delete has the version after the last.
  pub perform_ok :
      (op : Write) (w : World) (out : Returned op)
      → (perform op w).0 ≡ ok out
      → Done op w.db out (perform op w).1.db
  unfolding perform
  perform_ok (saves p) w out h = save_ok p w out h
  perform_ok (updates p) w out h = update_ok p w out h
  perform_ok (deletes id) w tt h = delete_ok id w h
