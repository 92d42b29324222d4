-- ===== src/Store/Refusals.antt =====
-- The requests that the store refuses, by the error that says why.
use storefront.Common.{
  Option, [], ap, arith, if◌then◌else◌, int_laws, none, not, refl, some, true, ℤ, ◌<ℤ◌, ◌∙◌, ◌≡◌,
}
use storefront.Domain.Orders.{Order}
use storefront.Domain.Pages.{Uuid}
use storefront.Domain.Products.{Product}
use storefront.Errors.{
  GoError, Result, err, insufficient_stock, is, no_rows, not_found, ok, sentinel,
}
use storefront.Store.Orders.{decremented, no_row_cause, no_row_error, purchase_tx, record_purchase}
use storefront.Store.Schema.{Db, Sql, in_int4}
use storefront.Store.Sql.Products.{
  absent, in_stock, product_exists, purchase_product, select_product,
}
use storefront.Store.Tx.{Platform, World, after_call, exec, later_faults, settle}

-- the row that a purchase needs
abbrev pub Refusal : Option Product → ℤ → GoError → Type 0
Refusal none qty e = e ≡ sentinel not_found
Refusal (some p) qty e = (p.stock <ℤ qty) × (e ≡ sentinel insufficient_stock)

pub exec_calm :
    {A : Type 0} (s : Sql A) (w : World) → w.faults ≡ [] → exec s w ≡ settle (s w.db) (after_call w)
unfolding exec
exec_calm s w calm = rw calm refl

no_stock :
    (id : Uuid) (qty : ℤ) (db : Db)
    → in_int4 qty ≡ true
    → in_stock qty (select_product id db.products) ≡ none
    → purchase_product id qty db ≡ err (sentinel no_rows)
unfolding purchase_product
no_stock id qty db fits short = rw fits (rw short refl)

no_row_refused :
    {A : Type 0} (id : Uuid) (w : World)
    → w.faults ≡ []
    → (no_row_error {A = A} id w).0
      ≡ err (no_row_cause (not (absent (select_product id w.db.products))))
unfolding product_exists
no_row_refused {A} id w calm =
    ap
      (λ out.
        (let (r, w') = out in
          elim r as (λ x. Result A × World) [
            | ok found ↦ (err (no_row_cause found), w')
            | err e ↦ (err e, w')
          ]).0)
      (exec_calm (product_exists id) w calm)

decremented_refused :
    (id : Uuid) (qty : ℤ) (w : World)
    → w.faults ≡ []
    → in_int4 qty ≡ true
    → in_stock qty (select_product id w.db.products) ≡ none
    → (decremented id qty w).0 ≡ err (no_row_cause (not (absent (select_product id w.db.products))))
unfolding is
decremented_refused id qty w calm fits short =
    ap (λ out. after_decrement out) (exec_calm (purchase_product id qty) w calm)
    ∙ ap (λ r. after_decrement (settle r (after_call w))) (no_stock id qty w.db fits short)
    ∙ no_row_refused id (after_call w) (ap later_faults calm)
  where
    after_decrement : Result Product × World → Result Product
    after_decrement out =
        (let (r, w') = out in
          elim r as (λ x. Result Product × World) [
            | ok p ↦ (ok p, w')
            | err e ↦ if is no_rows e then no_row_error id w' else (err e, w')
          ]).0

-- When no call fails and the quantity fits its column: a purchase of a product that does not exist is
-- refused with ErrNotFound, and one of more than there is in stock with ErrInsufficientStock.
pub purchase_refused :
    (pf : Platform) (o : Order) (w : World)
    → w.faults ≡ []
    → in_int4 o.quantity ≡ true
    → in_stock o.quantity (select_product o.product_id w.db.products) ≡ none
    → (e : GoError) × ((purchase_tx pf o w).0 ≡ err e)
      × Refusal (select_product o.product_id w.db.products) o.quantity e
unfolding purchase_tx
purchase_refused pf o w calm fits short = (
  no_row_cause (not (absent row)),
  kept (decremented o.product_id o.quantity w)
      (decremented_refused o.product_id o.quantity w calm fits short),
  caused row short,
)
  where
    row : Option Product
    row = select_product o.product_id w.db.products

    caused :
        (p : Option Product)
        → in_stock o.quantity p ≡ none
        → Refusal p o.quantity (no_row_cause (not (absent p)))
    caused none h = refl
    caused (some p) h = grind (int_laws, arith)

    kept :
        {e : GoError} (out : Result Product × World)
        → out.0 ≡ err e
        → (let (r, w') = out in
            elim r as (λ x. Result Order × World) [
              | ok p ↦ record_purchase pf o p w'
              | err x ↦ (err x, w')
            ]).0
          ≡ err e
    kept (ok p, w') h = cc
    kept {e} (err x, w') h = ap (λ (r : Result Product). elim r [ ok p ↦ err e | err y ↦ err y ]) h
