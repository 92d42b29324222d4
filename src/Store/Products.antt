-- ===== src/Store/Products.antt =====
-- internal/store/product_store.go, and insertOutbox of outbox.go
use storefront.Common.{
  Bool, List, Option, Text, [], codes, false, if◌then◌else◌, leb, length, none, pos, some, take,
  text_eq, true, ℕ, ◌+◌, ◌||◌,
}
use storefront.Domain.Pages.{Cursor, Uuid, after}
use storefront.Domain.Products.{Product, ProductPage}
use storefront.Errors.{
  GoError, Result, as_pg_error, err, is, no_rows, not_found, ok, product_in_use, sentinel, wrap,
}
use storefront.Events.{Event, new_event, type_created, type_deleted, type_updated}
use storefront.Store.Schema.{Sql}
use storefront.Store.Sql.Keyset.{ascending, page_rows}
use storefront.Store.Sql.Outbox.{insert_event}
use storefront.Store.Sql.Products.{delete_product, get_product, insert_product, update_product}
use storefront.Store.Tx.{Platform, Tx, exec, map_db_error, pure, query, with_tx, ◌>>=◌, ◌>>◌}

-- `uuid.NewV7`
abbrev pub draw : Platform → Tx Uuid
draw pf w = (ok (pf.new_v7 w.drawn), record w { drawn = w.drawn + 1 })

-- the identity value of the inserted row; a statement that fails uses one up too
abbrev pub next_id : Tx ℕ
next_id w = (ok w.outbox_seq, record w { outbox_seq = w.outbox_seq + 1 })

abbrev pub read_clock : Tx ℕ
read_clock w = (ok w.clock, w)

-- pg_notify: nothing but the relay's wakeup depends on it
abbrev pub notify : Sql (Unit {0})
notify db = ok (tt, db)

abbrev pub wrapped : {A : Type 0} → Text → Tx A → Tx A
wrapped text m w =
    let (r, w') = m w in elim r [ ok a ↦ (ok a, w') | err e ↦ (err (wrap text e), w') ]

-- `insertOutbox`
unfoldable pub insert_outbox : Event → Tx (Unit {0})
insert_outbox e = do
  id ← next_id
  t ← read_clock
  wrapped (codes "insert outbox") (exec (insert_event id t e))
  wrapped (codes "notify outbox") (exec notify)

-- event.New within the transaction
abbrev pub announce : Platform → Text → Product → Tx (Unit {0})
announce pf event_type p = do
  id ← draw pf
  t ← read_clock
  insert_outbox (new_event id t event_type p)

-- the function that `Save` runs in its transaction
abbrev pub save_body : Platform → Product → Tx Product
save_body pf p = do
  version ← exec (insert_product p)
  announce pf type_created (record p { version = version })
  pure (record p { version = version })

-- `Save`
unfoldable pub save : Platform → Product → Tx Product
save pf p = with_tx (save_body pf p)

-- an absent row is the domain's error, any other error is kept
abbrev pub missing_row : {A : Type 0} → GoError → Result A → Result A
missing_row e' (ok a) = ok a
missing_row e' (err e) = if is no_rows e then err e' else err e

abbrev pub no_row_as : {A : Type 0} → GoError → Tx A → Tx A
no_row_as e' m w = let (r, w') = m w in (missing_row e' r, w')

abbrev pub lookup_result : {A : Type 0} → Result A → Result A
lookup_result (ok a) = ok a
lookup_result (err e) = if is no_rows e then err (sentinel not_found) else err (map_db_error e)

-- `FindByID`
unfoldable pub find_by_id : Uuid → Tx Product
find_by_id id w = let (r, w') = exec (get_product id) w in (lookup_result r, w')

-- `productPage`: a page of limit + 1 rows gives away that more wait
unfoldable pub product_page : List Product → ℕ → ProductPage
product_page products limit =
    if leb (length products) limit
    then record { items = products; has_more = false }
    else record { items = take limit products; has_more = true }

abbrev pub product_key : Product → Uuid
product_key p = p.id

-- queryGetAll and queryGetAllAfterCursor
unfoldable pub list_products : Uuid × Bool → ℕ → Sql (List Product)
list_products c n db = ok (page_rows product_key ascending c n db.products, db)

-- `FindAll`
unfoldable pub find_all : Cursor → ℕ → Tx ProductPage
find_all cursor limit = do
  products ← query (list_products (after cursor) (limit + 1))
  pure (product_page products limit)

-- the function that `Update` runs in its transaction
abbrev pub update_body : Platform → Product → Tx Product
update_body pf p = do
  updated ← no_row_as (sentinel not_found) (exec (update_product p))
  announce pf type_updated updated
  pure updated

-- `Update`
unfoldable pub update : Platform → Product → Tx Product
update pf p = with_tx (update_body pf p)

-- `isProductInUse`
abbrev pub in_use_code : Option Text → Bool
in_use_code none = false
in_use_code (some code) = text_eq code (codes "23001") || text_eq code (codes "23503")

unfoldable pub is_product_in_use : GoError → Bool
is_product_in_use e = in_use_code (as_pg_error e)

abbrev pub delete_error : {A : Type 0} → Result A → Result A
delete_error (ok a) = ok a
delete_error (err e) =
    if is no_rows e
    then err (sentinel not_found)
    else if is_product_in_use e
    then err (sentinel product_in_use)
    else err e

abbrev pub deleted_version : Uuid → Tx ℕ
deleted_version id w = let (r, w') = exec (delete_product id) w in (delete_error r, w')

-- the zero Money of the event's product, which no event field shows
abbrev pub deleted_product : Uuid → ℕ → Product
deleted_product id version = record {
  id = id;
  name = [];
  price = record { minor_amount = pos 0; currency = [] };
  stock = pos 0;
  version = version;
}

-- the function that `Delete` runs in its transaction
abbrev pub delete_body : Platform → Uuid → Tx (Unit {0})
delete_body pf id = do
  version ← deleted_version id
  announce pf type_deleted (deleted_product id version)

-- `Delete`
unfoldable pub delete : Platform → Uuid → Tx (Unit {0})
delete pf id = with_tx (delete_body pf id)
