-- ===== src/Store/Writes.antt =====
-- What creating, updating and deleting a product have done when they returned:
-- internal/store/product_store.go.
use storefront.Common.{Bool-cases, Text, ap, inl, inr, pos, refl, ℕ, ℤ, ◌+◌, ◌∙◌, ◌≡◌}
use storefront.Domain.Pages.{Uuid}
use storefront.Domain.Products.{Product}
use storefront.Errors.{GoError, Result, err, is, no_rows, not_found, ok, sentinel}
use storefront.Events.{Event, new_event, type_created, type_deleted, type_updated}
use storefront.Store.Products.{
  announce, delete_body, delete_error, deleted_product, deleted_version, insert_outbox,
  is_product_in_use, missing_row, no_row_as, save_body, update_body,
}
use storefront.Store.Purchases.{Announced, insert_outbox-Announced}
use storefront.Store.Schema.{Db}
use storefront.Store.Sql.Effects.{
  Deleted, Inserted, Updated, delete_product-Deleted, insert_product-Inserted,
  update_product-Updated,
}
use storefront.Store.Sql.Products.{delete_product, insert_product, update_product}
use storefront.Store.Tx.{Platform, Tx, World, after_call, exec, pure, ◌>>◌}
use storefront.Store.Tx.Post.{Post, Post-bind, Post-exec, Post-exec-bind, Post-mono}

pub record Reported (event_type : Text) (id : Uuid) (version : ℕ) (stock : ℤ) (before after_it : Db)
    : Type 0 where
  pub event : Event
  pub of_type : event.event_type ≡ event_type
  pub of_product : event.product_id ≡ id
  pub of_version : event.version ≡ version
  pub of_stock : event.stock ≡ stock
  pub announced : Announced event before after_it

announce-Reported :
    (pf : Platform) (event_type : Text) (p : Product) (w : World)
    → Post
        (λ _ w'. Reported event_type p.id p.version p.stock w.db w'.db)
        (announce pf event_type p w)
announce-Reported pf event_type p w =
    let e = new_event (pf.new_v7 w.drawn) w.clock event_type p in
    let w1 : World = record w { drawn = w.drawn + 1 } in
    Post-mono (λ _ w'. Announced e w.db w'.db) _ (insert_outbox e w1)
      (λ _ w' a.
        unfold new_event in
        record {
          event = e;
          of_type = refl;
          of_product = refl;
          of_version = refl;
          of_stock = refl;
          announced = a;
        })
      (insert_outbox-Announced e w1)

pub record Saved (p : Product) (before : Db) (out : Product) (after_it : Db) : Type 0 where
  pub middle : Db
  pub inserted : Inserted p before out.version middle
  pub answer : out ≡ record p { version = 1 }
  pub reported : Reported type_created p.id out.version p.stock middle after_it

pub record Rewritten (p : Product) (before : Db) (out : Product) (after_it : Db) : Type 0 where
  pub middle : Db
  pub updated : Updated p before out middle
  pub reported : Reported type_updated out.id out.version out.stock middle after_it

pub record Removed (id : Uuid) (before after_it : Db) : Type 0 where
  pub middle : Db
  pub version : ℕ
  pub deleted : Deleted id before version middle
  pub reported : Reported type_deleted id version (pos 0) middle after_it

Post-no_row_as :
    {A : Type 0} (Q : A → World → Type 0) (e' : GoError) (m : Tx A) (w : World)
    → Post Q (m w)
    → Post Q (no_row_as e' m w)
Post-no_row_as {A} Q e' m w h = go (m w) h
  where
    failed : (e : GoError) (w' : World) → Post Q (missing_row e' (err e), w')
    failed e w' = elim (Bool-cases (is no_rows e)) [ inl c ↦ rw c tt | inr c ↦ rw c tt ]

    go :
        (out : Result A × World) → Post Q out → Post Q (let (r, w') = out in (missing_row e' r, w'))
    go (ok a, w') h = h
    go (err e, w') h = failed e w'

Post-delete_error :
    (Q : ℕ → World → Type 0) (out : Result ℕ × World)
    → Post Q out
    → Post Q (let (r, w') = out in (delete_error r, w'))
Post-delete_error Q (ok a, w') h = h
Post-delete_error Q (err e, w') h = elim (Bool-cases (is no_rows e)) [
  | inl c ↦ rw c tt
  | inr c ↦ elim (Bool-cases (is_product_in_use e)) [ inl d ↦ rw (c, d) tt | inr d ↦ rw (c, d) tt ]
]

module _ (pf : Platform) where
  pub save_body-Saved :
      (p : Product) (w : World) → Post (λ out w'. Saved p w.db out w'.db) (save_body pf p w)
  save_body-Saved p w =
      let Q : Product → World → Type 0 = λ out w'. Saved p w.db out w'.db in
      Post-exec-bind Q (insert_product p)
        (λ version. do
          announce pf type_created (record p { version = version })
          pure (record p { version = version }))
        w
        λ version db h.
          let i = insert_product-Inserted p w.db version db h in
          let w1 : World = record (after_call w) { db = db } in
          Post-bind (λ _ w'. Reported type_created p.id version p.stock db w'.db) Q
            (announce pf type_created (record p { version = version }))
            (λ _. pure (record p { version = version })) w1
            (announce-Reported pf type_created (record p { version = version }) w1)
            λ _ w2 r. record {
              middle = db;
              inserted = i;
              answer =
                  ap (λ (v : ℕ). record p { version = v })
                    (i.first_version ∙ i.stored.same_version);
              reported = r;
            }

  pub update_body-Rewritten :
      (p : Product) (w : World) → Post (λ out w'. Rewritten p w.db out w'.db) (update_body pf p w)
  update_body-Rewritten p w =
      let Q : Product → World → Type 0 = λ out w'. Rewritten p w.db out w'.db in
      let R : Product → World → Type 0 = λ row w'. Updated p w.db row w'.db in
      Post-bind R Q (no_row_as (sentinel not_found) (exec (update_product p)))
        (λ updated. do announce pf type_updated updated; pure updated) w
        (Post-no_row_as R (sentinel not_found) (exec (update_product p)) w
          (Post-exec R (update_product p) w (update_product-Updated p w.db)))
        λ row w1 u.
          Post-bind (λ _ w'. Reported type_updated row.id row.version row.stock w1.db w'.db) Q
            (announce pf type_updated row) (λ _. pure row) w1
            (announce-Reported pf type_updated row w1)
            λ _ w2 r. record { middle = w1.db; updated = u; reported = r }

  pub delete_body-Removed :
      (id : Uuid) (w : World) → Post (λ _ w'. Removed id w.db w'.db) (delete_body pf id w)
  delete_body-Removed id w =
      let Q : Unit {0} → World → Type 0 = λ _ w'. Removed id w.db w'.db in
      let R : ℕ → World → Type 0 = λ version w'. Deleted id w.db version w'.db in
      Post-bind R Q (deleted_version id)
        (λ version. announce pf type_deleted (deleted_product id version)) w
        (Post-delete_error R (exec (delete_product id) w)
          (Post-exec R (delete_product id) w (delete_product-Deleted id w.db)))
        λ version w1 d.
          Post-mono (λ _ w'. Reported type_deleted id version (pos 0) w1.db w'.db) Q
            (announce pf type_deleted (deleted_product id version) w1)
            (λ _ w2 r. record { middle = w1.db; version = version; deleted = d; reported = r })
            (announce-Reported pf type_deleted (deleted_product id version) w1)
