-- ===== src/Store/Paging/Client.antt =====
-- A client that lists the products by handing each nextCursor back, as the text that it got.
use storefront.Common.{
  Bool-cases, List, [], ap, append-nil, arith, false, get_last?, inl, inr, leb, length, length-take,
  map, refl, some, suc, sym, take, text_eq, text_eq_sound, true, zero, ℕ, ◌++◌, ◌+◌, ◌<◌, ◌∙◌, ◌∷◌,
  ◌≡◌,
}
use storefront.Domain.Pages.{
  Cursor, UuidText, after, new_cursor, next_cursor, no_cursor, parse_cursor,
}
use storefront.Domain.Products.{Product, ProductPage, product_next_cursor}
use storefront.Errors.{Result, err, ok}
use storefront.Store.Paging.{Distinct, ascending-IsOrder}
use storefront.Store.Paging.Walk.{
  last_of, pages_from, pages_from_last, pages_from_more, walk_rows, walk_rows-all,
}
use storefront.Store.Products.{find_all, list_products, product_key, product_page}
use storefront.Store.Sql.Keyset.{ascending, order_by, page_rows}
use storefront.Store.Tx.{World, exec, query}

pub resume {ℓ} : {A : Type ℓ} → Result Cursor → (Cursor → List A) → List A
resume (err e) more = []
resume (ok c) more = elim c.valid [ true ↦ more c | false ↦ [] ]

pub from_page : UuidText → Result ProductPage → (Cursor → List Product) → List Product
from_page u (err e) more = []
from_page u (ok page) more = page.items ++ resume (parse_cursor u (product_next_cursor u page)) more

pub list_all : UuidText → World → ℕ → ℕ → Cursor → List Product
list_all u w limit zero cursor = []
list_all u w limit (suc fuel) cursor =
    from_page u (find_all cursor limit w).0 (list_all u w limit fuel)

find_all_calm :
    (cursor : Cursor) (limit : ℕ) (w : World)
    → w.faults ≡ []
    → (find_all cursor limit w).0
      ≡ ok (
          product_page
            (page_rows product_key ascending (after cursor) (limit + 1) w.db.products)
            limit)
unfolding find_all query exec list_products
find_all_calm cursor limit w calm = ground arith

get_last?-map {ℓ κ} :
    {A : Type ℓ} {B : Type κ} (f : A → B) (xs : List A) (l : A)
    → get_last? xs ≡ some l
    → get_last? (map f xs) ≡ some (f l)
get_last?-map f [] l h = cc
get_last?-map f (x ∷ []) l h = ground arith
get_last?-map f (x ∷ y ∷ ys) l h = get_last?-map f (y ∷ ys) l h

-- the cursor that a page hands out leads behind its last row
parse_cursor_id : (u : UuidText) (id : ℕ) → parse_cursor u (u.format id) ≡ ok (new_cursor id)
unfolding parse_cursor new_cursor
parse_cursor_id u id = elim (Bool-cases (text_eq (u.format id) [])) [
  | inl e ↦ absurd (u.format_nonempty id (text_eq_sound (u.format id) [] e))
  | inr e ↦ rw e (rw (u.parse-format id) refl)
]

resume_last :
    (u : UuidText) (items : List Product) (l : Product) (more : Cursor → List Product)
    → get_last? items ≡ some l
    → resume
        (parse_cursor u (product_next_cursor u (record { items = items; has_more = true })))
        more
      ≡ more (new_cursor l.id)
unfolding resume product_next_cursor next_cursor new_cursor
resume_last u items l more h =
    rw (get_last?-map product_key items l h) (rw (parse_cursor_id u l.id) refl)

resume_none :
    (u : UuidText) (items : List Product) (more : Cursor → List Product)
    → resume
        (parse_cursor u (product_next_cursor u (record { items = items; has_more = false })))
        more
      ≡ []
unfolding resume parse_cursor product_next_cursor next_cursor text_eq
resume_none u items more = refl

from_product_page :
    (u : UuidText) (limit : ℕ) (rows : List Product) (more : Cursor → List Product)
    → 0 < limit
    → from_page u (ok (product_page rows limit)) more
      ≡ pages_from limit rows (λ l. more (new_cursor l.id))
unfolding from_page product_page
from_product_page u limit rows more h = elim (Bool-cases (leb (length rows) limit)) [
  | inl done ↦ rw done (
      ap (λ t. rows ++ t) (resume_none u rows more)
      ∙ append-nil rows
      ∙ sym (pages_from_last limit rows (λ l. more (new_cursor l.id)) done))
  | inr longer ↦
      let (init, l, split, last) =
        last_of (take limit rows) (ground (arith, length-take limit rows)) in
      rw longer (
        ap (λ t. take limit rows ++ t) (resume_last u (take limit rows) l more last)
        ∙ sym (pages_from_more limit rows (λ l. more (new_cursor l.id)) l longer last))
]

from_product_page_cong :
    (u : UuidText) (r r' : Result ProductPage) (more : Cursor → List Product)
    → r ≡ r'
    → from_page u r more ≡ from_page u r' more
from_product_page_cong u r r' more e = ap (λ t. from_page u t more) e

list_all-walk_rows :
    (u : UuidText) (w : World) (limit fuel : ℕ) (cursor : Cursor)
    → w.faults ≡ []
    → 0 < limit
    → list_all u w limit fuel cursor
      ≡ walk_rows product_key ascending w.db.products limit fuel (after cursor)
unfolding list_all walk_rows after new_cursor
list_all-walk_rows u w limit zero cursor calm h = refl
list_all-walk_rows u w limit (suc fuel) cursor calm h =
    let rows = page_rows product_key ascending (after cursor) (limit + 1) w.db.products in
    from_product_page_cong u (find_all cursor limit w).0 (ok (product_page rows limit))
      (list_all u w limit fuel) (find_all_calm cursor limit w calm)
    ∙ from_product_page u limit rows (list_all u w limit fuel) h
    ∙ ap (pages_from limit rows)
        (λ i l. list_all-walk_rows u w limit fuel (new_cursor l.id) calm h i)

-- For a store without failing calls, a product table without two rows of one id, a positive limit
-- and fuel for more pages than there are rows: reading FindAll's pages and parsing each nextCursor
-- that comes with them yields the products of the table, each once, in the order of their ids.
pub list_all_complete :
    (u : UuidText) (w : World) (limit fuel : ℕ)
    → w.faults ≡ []
    → Distinct product_key ascending w.db.products
    → 0 < limit
    → length (order_by product_key ascending w.db.products) < fuel
    → list_all u w limit fuel no_cursor ≡ order_by product_key ascending w.db.products
unfolding after
list_all_complete u w limit fuel calm distinct h enough =
    list_all-walk_rows u w limit fuel no_cursor calm h
    ∙ walk_rows-all product_key ascending ascending-IsOrder w.db.products distinct limit h fuel 0
        enough
