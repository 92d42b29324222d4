-- ===== src/Store/Privacy.antt =====
-- FindOrder and FindOrders beside the orders of other customers: internal/store/order_store.go.
use storefront.Common.{
  Bool, List, Option, [], ap, arith, filter, find?, none, refl, some, sym, true, ℕ, ◌&&◌, ◌+◌, ◌∙◌,
  ◌∷◌, ◌≡◌,
}
use storefront.Domain.Orders.{Order, OrderPage}
use storefront.Domain.Pages.{Cursor, Uuid, after}
use storefront.Errors.{Result, err, no_rows, ok, ok_injective, sentinel}
use storefront.Store.Orders.{find_order, find_orders, list_orders, order_key, order_page}
use storefront.Store.Products.{lookup_result}
use storefront.Store.Schema.{Db, Sql}
use storefront.Store.Sql.Keyset.{descending, page_rows}
use storefront.Store.Sql.Orders.{found_order, get_order, is_order, owned_by}
use storefront.Store.Tx.{
  Fault, World, after_call, exec, fail, lost, mapped, next_fault, pass, query, settle,
}

-- the orders that a user has placed
abbrev pub own_orders : Uuid → World → List Order
own_orders user w = filter (owned_by user) w.db.orders

-- FindOrder looks among the user's own orders
find_own :
    (id user : Uuid) (orders : List Order)
    → find? (λ o. is_order id o && owned_by user o) orders
      ≡ find? (is_order id) (filter (owned_by user) orders)
find_own id user [] = refl
find_own id user (o ∷ orders) = ground (arith, find_own id user orders)

-- the result of a call, without the tables
abbrev result_of : {A : Type 0} → Result (A × Db) → Result A
result_of (ok (a, db)) = ok a
result_of (err e) = err e

abbrev at_fault : {A : Type 0} → Result A → Fault → Result A
at_fault r pass = r
at_fault r (fail e) = err e
at_fault r (lost e) = err e

exec_result :
    {A : Type 0} (s : Sql A) (w : World)
    → (exec s w).0 ≡ at_fault (result_of (s w.db)) (next_fault w.faults)
unfolding exec
exec_result {A} s w = by_fault (next_fault w.faults)
  where
    ran : (r : Result (A × Db)) → (settle r (after_call w)).0 ≡ result_of r
    ran (ok (a, db)) = refl
    ran (err e) = refl

    by_fault :
        (x : Fault)
        → (elim x as (λ y. Result A × World) [
          | pass ↦ settle (s w.db) (after_call w)
          | fail e ↦ (err e, after_call w)
          | lost e ↦ (err e, after_call w)
        ]).0
          ≡ at_fault (result_of (s w.db)) x
    by_fault pass = ran (s w.db)
    by_fault (fail e) = refl
    by_fault (lost e) = refl

get_order_result :
    (user id : Uuid) (db : Db)
    → result_of (get_order id user db)
      ≡ found_order (find? (is_order id) (filter (owned_by user) db.orders))
unfolding get_order
get_order_result user id db =
    go (find? both db.orders) refl ∙ ap found_order (find_own id user db.orders)
  where
    both : Order → Bool
    both o = is_order id o && owned_by user o

    go :
        (o : Option Order)
        → find? both db.orders ≡ o
        → result_of (get_order id user db) ≡ found_order (find? both db.orders)
    go none e = rw e refl
    go (some o) e = rw e refl

abbrev order_answer : Uuid → List Order → List Fault → Result Order
order_answer id orders fs =
    lookup_result (at_fault (found_order (find? (is_order id) orders)) (next_fault fs))

find_order_own :
    (user id : Uuid) (w : World)
    → (find_order user id w).0 ≡ order_answer id (own_orders user w) w.faults
unfolding find_order
find_order_own user id w = ap lookup_result (
    exec_result (get_order id user) w
    ∙ ap (λ r. at_fault r (next_fault w.faults)) (get_order_result user id w.db))

find_order_private :
    (user id : Uuid) (w w' : World)
    → own_orders user w ≡ own_orders user w'
    → w.faults ≡ w'.faults
    → (find_order user id w).0 ≡ (find_order user id w').0
find_order_private user id w w' own faults =
    find_order_own user id w
    ∙ (λ i. order_answer id (own i) (faults i))
    ∙ sym (find_order_own user id w')

find_holds :
    (p : Order → Bool) (orders : List Order) (o : Order) → find? p orders ≡ some o → p o ≡ true
find_holds p [] o h = cc
find_holds p (x ∷ orders) o h = ground (arith, find_holds p orders o)

lookup_ok : (r : Result Order) (o : Order) → lookup_result r ≡ ok o → r ≡ ok o
lookup_ok (ok a) o h = h
lookup_ok (err e) o h = ground arith

answered_order :
    (r : Option Order) (x : Fault) (o : Order)
    → lookup_result (at_fault (found_order r) x) ≡ ok o
    → r ≡ some o
answered_order none pass o h = cc (lookup_ok (err (sentinel no_rows)) o h)
answered_order (some a) pass o h = ap some (ok_injective a o h)
answered_order r (fail e) o h = cc (lookup_ok (err e) o h)
answered_order r (lost e) o h = cc (lookup_ok (err e) o h)

-- The order that FindOrder returns has the id that was asked for and is the user's own.
pub find_order_owned :
    (user id : Uuid) (w : World) (o : Order)
    → (find_order user id w).0 ≡ ok o
    → (o.id ≡ id) × (o.user_id ≡ user)
find_order_owned user id w o h =
    let own = own_orders user w in
    let found =
      answered_order (find? (is_order id) own) (next_fault w.faults) o
        (sym (find_order_own user id w) ∙ h) in
    let both =
      find_holds (λ x. is_order id x && owned_by user x) w.db.orders o
        (find_own id user w.db.orders ∙ found) in
    ground arith

abbrev page_result : ℕ → Result (List Order) → Result OrderPage
page_result limit (ok orders) = ok (order_page orders limit)
page_result limit (err e) = err e

abbrev orders_answer : Cursor → ℕ → List Order → List Fault → Result OrderPage
orders_answer cursor limit orders fs = page_result limit (
    mapped (
      at_fault (ok (page_rows order_key descending (after cursor) (limit + 1) orders))
        (next_fault fs)))

find_orders_own :
    (user : Uuid) (cursor : Cursor) (limit : ℕ) (w : World)
    → (find_orders user cursor limit w).0 ≡ orders_answer cursor limit (own_orders user w) w.faults
unfolding find_orders query list_orders
find_orders_own user cursor limit w =
    paged (query rows w) ∙ ap (λ r. page_result limit (mapped r)) (exec_result rows w)
  where
    rows : Sql (List Order)
    rows = list_orders user (after cursor) (limit + 1)

    paged :
        (out : Result (List Order) × World)
        → (let (r, w') = out in
            elim r as (λ x. Result OrderPage × World) [
              | ok orders ↦ (ok (order_page orders limit), w')
              | err e ↦ (err e, w')
            ]).0
          ≡ page_result limit out.0
    paged (ok orders, w') = refl
    paged (err e, w') = refl

find_orders_private :
    (user : Uuid) (cursor : Cursor) (limit : ℕ) (w w' : World)
    → own_orders user w ≡ own_orders user w'
    → w.faults ≡ w'.faults
    → (find_orders user cursor limit w).0 ≡ (find_orders user cursor limit w').0
find_orders_private user cursor limit w w' own faults =
    find_orders_own user cursor limit w
    ∙ (λ i. orders_answer cursor limit (own i) (faults i))
    ∙ sym (find_orders_own user cursor limit w')

-- Two stores in which a user has the same orders and whose calls meet the same faults answer a request
-- for one of the user's orders alike and list the user's orders alike, page by page, whatever other
-- users have ordered.
pub orders_private :
    (user id : Uuid) (cursor : Cursor) (limit : ℕ) (w w' : World)
    → own_orders user w ≡ own_orders user w'
    → w.faults ≡ w'.faults
    → ((find_order user id w).0 ≡ (find_order user id w').0)
      × ((find_orders user cursor limit w).0 ≡ (find_orders user cursor limit w').0)
orders_private user id cursor limit w w' own faults = (
  find_order_private user id w w' own faults,
  find_orders_private user cursor limit w w' own faults,
)
