-- ===== src/Service/Found.antt =====
-- FindByID of the service beside the store: internal/service/service.go.
use storefront.Common.{
  Bool-cases, Option, Text, [], ap, codes, false, if◌then◌else◌, inl, inr, none, refl, some, subst,
  subst₂, sym, true, ℕ, ◌∙◌, ◌≡◌, ◌⊎◌,
}
use storefront.Cache.{
  CachePlatform, Cell, Entry, Valkey, behind_call, empty_entry, get, get_entry, live,
}
use storefront.Domain.Pages.{Uuid}
use storefront.Domain.Products.{Product}
use storefront.Errors.{GoError, Result, err, is, no_rows, not_found, ok, sentinel, wrap}
use storefront.Service.{
  Services, State, Svc, find_product, guarded_fill, key_of, load_missed, load_product, product_from,
}
use storefront.Service.Reads.{
  Foreign, Fresh, FreshCell, FreshIn, Loads, answer, fill-FreshIn, find_by_id-Loads, row_of,
}
use storefront.Store.Products.{find_by_id, lookup_result}
use storefront.Store.Schema.{Db}
use storefront.Store.Sql.Products.{get_product, select_product}
use storefront.Store.Tx.{
  Fault, World, after_call, exec, fail, lost, map_db_error, next_fault, pass, settle,
}

-- what a Get returns, and that it changes neither the cells nor the time
get-cases :
    (c : CachePlatform) (key : Text) (v : Valkey)
    → let (got, v') = get c key v in
      (v'.now ≡ v.now)
      × (v'.cells ≡ v.cells)
      × ((got.0 ≡ get_entry c (live v.now (v.cells key))) ⊎ (got.0.hit ≡ false))
unfolding get
get-cases c key v = by_fault (next_fault v.faults)
  where
    out : Fault → (Entry × Option GoError) × Valkey
    out pass = ((get_entry c (live v.now (v.cells key)), none), behind_call v)
    out (fail e) = ((empty_entry, some (wrap (codes "get cache key") e)), behind_call v)
    out (lost e) = ((empty_entry, some (wrap (codes "get cache key") e)), behind_call v)

    by_fault :
        (x : Fault)
        → ((out x).1.now ≡ v.now)
          × ((out x).1.cells ≡ v.cells)
          × (((out x).0.0 ≡ get_entry c (live v.now (v.cells key))) ⊎ ((out x).0.0.hit ≡ false))
    by_fault pass = (refl, refl, inl refl)
    by_fault (fail e) = (refl, refl, inr refl)
    by_fault (lost e) = (refl, refl, inr refl)

-- a Get that hits a fresh cell has found the row
hit_answers :
    (c : CachePlatform) (row : Option Product) (key : Text) (v : Valkey)
    → FreshIn c row key v
    → (get c key v).0.0.hit ≡ true
    → product_from (get c key v).0.0 ≡ answer row
hit_answers c row key v fresh h =
    let (same_time, same_cells, got) = get-cases c key v in
    elim got [
      | inl e ↦ ap product_from e ∙ fresh (sym (ap (λ (x : Entry). x.hit) e) ∙ h)
      | inr e ↦ cc
    ]

get-FreshIn :
    (c : CachePlatform) (row : Option Product) (key : Text) (v : Valkey)
    → FreshIn c row key v
    → FreshIn c row key (get c key v).1
get-FreshIn c row key v fresh =
    let (now_same, cells_same, got) = get-cases c key v in
    subst₂ (λ (n : ℕ) (cells : Text → Cell). FreshCell c row n (cells key)) (sym now_same)
      (sym cells_same) fresh

guarded_fill-FreshIn :
    (c : CachePlatform) (row : Option Product) (key : Text) (r : Result Product)
    (got : Entry × Option GoError) (v : Valkey)
    → Loads row r
    → FreshIn c row key v
    → FreshIn c row key (guarded_fill c key r got v)
guarded_fill-FreshIn c row key r (prev, some e) v h fresh = fresh
guarded_fill-FreshIn c row key r (prev, none) v h fresh = fill-FreshIn c row key r prev v h fresh

find_by_id-db : (id : Uuid) (w : World) → (find_by_id id w).1.db ≡ w.db
unfolding find_by_id exec get_product
find_by_id-db id w = by_fault (next_fault w.faults)
  where
    ran :
        (row : Option Product)
        → select_product id w.db.products ≡ row
        → (settle (get_product id w.db) (after_call w)).1.db ≡ w.db
    ran none e = rw e refl
    ran (some p) e = rw e refl

    by_fault :
        (x : Fault)
        → (elim x as (λ y. Result Product × World) [
          | pass ↦ settle (get_product id w.db) (after_call w)
          | fail e ↦ (err e, after_call w)
          | lost e ↦ (err e, after_call w)
        ]).1.db
          ≡ w.db
    by_fault pass = ran (select_product id w.db.products) refl
    by_fault (fail e) = refl
    by_fault (lost e) = refl

module _ (c : Services) (id : Uuid) (P : Result Product → Type 0) where
  -- the outcome of a read of the tables `db`
  abbrev Read : Db → Result Product × State → Type 0
  Read db out = P out.0 × (out.1.world.db ≡ db) × Fresh c id out.1

  load_missed-Read :
      (got : Entry × Option GoError) (s : State)
      → Foreign (next_fault s.world.faults)
      → P (find_by_id id s.world).0
      → Fresh c id s
      → Read s.world.db (load_missed c id got s)
  load_missed-Read got s foreign stored fresh =
      let same_db = find_by_id-db id s.world in
      let key = key_of c id in
      let r = (find_by_id id s.world).0 in
      let v = guarded_fill c.cache key r got s.valkey in
      (
        stored,
        same_db,
        subst (λ (db : Db). FreshIn c.cache (row_of id db) key v) (sym same_db)
            (guarded_fill-FreshIn c.cache (row_of id s.world.db) key r got s.valkey
              (find_by_id-Loads id s.world foreign) fresh),
      )

  -- a Get, then the answer of its hit or what follows a miss
  get_or :
      (s : State) (missed : Entry × Option GoError → Svc Product)
      → P (answer (row_of id s.world.db))
      → Fresh c id s
      → ((got : Entry × Option GoError) (v : Valkey)
          → Fresh c id (record s { valkey = v })
          → Read s.world.db (missed got (record s { valkey = v })))
      → let (got, v) = get c.cache (key_of c id) s.valkey in
        Read s.world.db (
          if got.0.hit
          then (product_from got.0, record s { valkey = v })
          else missed got (record s { valkey = v }))
  get_or s missed cached fresh rest =
      let key = key_of c id in
      let row = row_of id s.world.db in
      let got = get c.cache key s.valkey in
      let fresh' = get-FreshIn c.cache row key s.valkey fresh in
      elim (Bool-cases got.0.0.hit) [
        | inl h ↦
            rw h (subst P (sym (hit_answers c.cache row key s.valkey fresh h)) cached, refl, fresh')
        | inr h ↦ rw h (rest got.0 got.1 fresh')
      ]

  load_product-Read :
      (s : State)
      → Foreign (next_fault s.world.faults)
      → P (answer (row_of id s.world.db))
      → P (find_by_id id s.world).0
      → Fresh c id s
      → Read s.world.db (load_product c id s)
  unfolding load_product
  load_product-Read s foreign cached stored fresh =
      get_or s (load_missed c id) cached fresh
        λ got v fresh'. load_missed-Read got (record s { valkey = v }) foreign stored fresh'

  pub find_product-Read :
      (s : State)
      → Foreign (next_fault s.world.faults)
      → P (answer (row_of id s.world.db))
      → P (find_by_id id s.world).0
      → Fresh c id s
      → Read s.world.db (find_product c id s)
  unfolding find_product
  find_product-Read s foreign cached stored fresh =
      get_or s (λ got. load_product c id) cached fresh
        λ got v fresh'. load_product-Read (record s { valkey = v }) foreign cached stored fresh'

-- what a read of the row returns when no call of the database fails
abbrev pub Found : Option Product → Result Product → Type 0
Found (some p) r = r ≡ ok p
Found none r = (e : GoError) × (r ≡ err e) × (is not_found e ≡ true)

answer-Found : (row : Option Product) → Found row (answer row)
unfolding is
answer-Found none = (wrap (codes "find product") (sentinel not_found), refl, refl)
answer-Found (some p) = refl

-- the call of the database fails with this error
abbrev pub FailsWith : Fault → GoError → Type 0
FailsWith pass e = ⊥
FailsWith (fail e') e = e' ≡ e
FailsWith (lost e') e = e' ≡ e

-- the answer for the row, or the error with which the call of the database has failed
abbrev pub FoundOrFailed : Fault → Option Product → Result Product → Type 0
FoundOrFailed x row r = Found row r ⊎ ((e : GoError) × FailsWith x e × (r ≡ err (map_db_error e)))

find_by_id-FoundOrFailed :
    (id : Uuid) (w : World)
    → Foreign (next_fault w.faults)
    → FoundOrFailed (next_fault w.faults) (row_of id w.db) (find_by_id id w).0
unfolding find_by_id exec get_product is
find_by_id-FoundOrFailed id w foreign = by_fault (next_fault w.faults) foreign
  where
    ran :
        (row : Option Product)
        → select_product id w.db.products ≡ row
        → Found row (lookup_result (settle (get_product id w.db) (after_call w)).0)
    ran none e = rw e (sentinel not_found, refl, refl)
    ran (some p) e = rw e refl

    failed :
        (e : GoError)
        → is no_rows e ≡ false
        → lookup_result {A = Product} (err e) ≡ err (map_db_error e)
    failed e n = rw n refl

    by_fault :
        (x : Fault)
        → Foreign x
        → FoundOrFailed x (row_of id w.db) (
            lookup_result
              (elim x as (λ y. Result Product × World) [
                | pass ↦ settle (get_product id w.db) (after_call w)
                | fail e ↦ (err e, after_call w)
                | lost e ↦ (err e, after_call w)
              ]).0)
    by_fault pass f = inl (ran (select_product id w.db.products) refl)
    by_fault (fail e) f = inr (e, refl, failed e f.0)
    by_fault (lost e) f = inr (e, refl, failed e f.0)

-- Whatever calls of the cache fail, and when a call of the database fails only with an error of the
-- connection or the server: a read of a product whose cached value, if there is one, is its row
-- returns that row, or ErrNotFound without one, or, only when its call of the database fails, the
-- error of that call, tagged as unavailable where mapDBError does so; it changes no table, and leaves a
-- cached value, if any, that is the row.
pub find_product-Fresh :
    (c : Services) (id : Uuid) (s : State)
    → Foreign (next_fault s.world.faults)
    → Fresh c id s
    → let out = find_product c id s in
      FoundOrFailed (next_fault s.world.faults) (row_of id s.world.db) out.0
      × (out.1.world.db ≡ s.world.db)
      × Fresh c id out.1
find_product-Fresh c id s foreign fresh =
    let row = row_of id s.world.db in
    find_product-Read c id (FoundOrFailed (next_fault s.world.faults) row) s foreign
      (inl (answer-Found row)) (find_by_id-FoundOrFailed id s.world foreign) fresh

-- When no call of the database fails, and whatever calls of the cache do: a read of a product whose
-- cached value, if there is one, is its row returns the row, and ErrNotFound without one.
pub find_product-Found :
    (c : Services) (id : Uuid) (s : State)
    → s.world.faults ≡ []
    → Fresh c id s
    → Found (row_of id s.world.db) (find_product c id s).0
find_product-Found c id s calm fresh = passed (find_product-Fresh c id s foreign fresh).0
  where
    foreign : Foreign (next_fault s.world.faults)
    foreign = subst (λ fs. Foreign (next_fault fs)) (sym calm) tt

    passed :
        FoundOrFailed (next_fault s.world.faults) (row_of id s.world.db) (find_product c id s).0
        → Found (row_of id s.world.db) (find_product c id s).0
    passed (inl found) = found
    passed (inr (e, fails_with, r)) =
        absurd (subst (λ fs. FailsWith (next_fault fs) e) calm fails_with)
