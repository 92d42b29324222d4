-- ===== src/Service/Reads.antt =====
-- What the calls of FindByID leave in the cache: internal/service/service.go and
-- internal/cache/cache.go.
use storefront.Common.{
  Bool-cases, Option, Text, [], ap, arith, codes, false, inl, inr, ltb, none, refl, some, subst,
  subst₂, sym, true, ℕ, ◌+◌, ◌∙◌, ◌∷◌, ◌≡◌, ◌⊎◌,
}
use storefront.Cache.{
  CachePlatform, Cell, Entry, Valkey, classify, encode_product, get_entry, guarded_set, item, live,
  set, set_cmd, set_missing, set_payload,
}
use storefront.Cache.Laws.{classify-encode, classify_missing, write_key-cases}
use storefront.Domain.Pages.{Uuid}
use storefront.Domain.Products.{Product}
use storefront.Errors.{GoError, Result, err, is, no_rows, not_found, ok, sentinel, wrap}
use storefront.Service.{Services, State, fill, key_of, product_from}
use storefront.Store.Products.{find_by_id, lookup_result}
use storefront.Store.Schema.{Db}
use storefront.Store.Sql.Products.{get_product, select_product}
use storefront.Store.Tx.{
  Fault, World, after_call, exec, fail, lost, map_db_error, next_fault, pass, settle,
}

-- the row of the product, as the store and as a hit of the cache answer it
abbrev pub row_of : Uuid → Db → Option Product
row_of id db = select_product id db.products

abbrev pub answer : Option Product → Result Product
answer none = err (wrap (codes "find product") (sentinel not_found))
answer (some p) = ok p

-- a value that FindByID finds in the cell is the row
abbrev pub FreshCell : CachePlatform → Option Product → ℕ → Cell → Type 0
FreshCell c row now cell =
    (get_entry c (live now cell)).hit ≡ true
    → product_from (get_entry c (live now cell)) ≡ answer row

abbrev pub Fresh : Services → Uuid → State → Type 0
Fresh c id s = FreshCell c.cache (row_of id s.world.db) s.valkey.now (s.valkey.cells (key_of c id))

-- the value that fill writes for a row, and for how long
unfoldable pub Fills : CachePlatform → Option Product → Text → Type 0
Fills c none value = value ≡ b'n' ∷ []
Fills c (some p) value = encode_product c p ≡ some value

pub Fills-answer :
    (c : CachePlatform) (row : Option Product) (value : Text)
    → Fills c row value
    → product_from (classify c value) ≡ answer row
unfolding Fills product_from
Fills-answer c none value h =
    ap (λ t. product_from (classify c t)) h ∙ ap product_from (classify_missing c)
Fills-answer c (some p) value h = ap product_from (classify-encode c p value h)

pub Fills-hit :
    (c : CachePlatform) (row : Option Product) (value : Text)
    → Fills c row value
    → (classify c value).hit ≡ true
unfolding Fills
Fills-hit c none value h =
    ap (λ t. (classify c t).hit) h ∙ ap (λ (e : Entry). e.hit) (classify_missing c)
Fills-hit c (some p) value h = ap (λ (e : Entry). e.hit) (classify-encode c p value h)

-- the guard writes the value or leaves the cell
pub set_cmd-cases :
    (now : ℕ) (value : Text) (ttl : ℕ) (prev : Entry) (cell : Cell)
    → (set_cmd now value ttl prev cell ≡ cell)
      ⊎ (set_cmd now value ttl prev cell ≡ item value (now + ttl))
unfolding set_cmd
set_cmd-cases now value ttl prev cell = ground arith

pub item-FreshCell :
    (c : CachePlatform) (row : Option Product) (now expires_at : ℕ) (value : Text)
    → Fills c row value
    → FreshCell c row now (item value expires_at)
unfolding live
item-FreshCell c row now expires_at value h = elim (Bool-cases (ltb now expires_at)) [
  | inl e ↦ rw e (λ hit. Fills-answer c row value h)
  | inr e ↦ rw e (λ hit. absurd cc)
]

-- what a load of the row may return: it, ErrNotFound without one, or some other error
abbrev pub Loads : Option Product → Result Product → Type 0
Loads row (ok p) = row ≡ some p
Loads row (err e) = is not_found e ≡ true → row ≡ none

-- an error of the connection or the server, which is none of the program's own
abbrev pub Foreign : Fault → Type 0
Foreign pass = Unit
Foreign (fail e) = (is no_rows e ≡ false) × (is not_found e ≡ false)
Foreign (lost e) = (is no_rows e ≡ false) × (is not_found e ≡ false)

foreign_error :
    (row : Option Product) (e : GoError)
    → is no_rows e ≡ false
    → is not_found e ≡ false
    → Loads row (lookup_result (err e))
unfolding map_db_error is
foreign_error row e n f = ground arith

pub find_by_id-Loads :
    (id : Uuid) (w : World)
    → Foreign (next_fault w.faults)
    → Loads (row_of id w.db) (find_by_id id w).0
unfolding find_by_id exec get_product is
find_by_id-Loads id w foreign = by_fault (next_fault w.faults) foreign
  where
    ran :
        (row : Option Product)
        → select_product id w.db.products ≡ row
        → Loads row (lookup_result (settle (get_product id w.db) (after_call w)).0)
    ran none e = rw e (λ h. refl)
    ran (some p) e = rw e refl

    by_fault :
        (x : Fault)
        → Foreign x
        → Loads (row_of id w.db) (
            lookup_result
              (elim x as (λ y. Result Product × World) [
                | pass ↦ settle (get_product id w.db) (after_call w)
                | fail e ↦ (err e, after_call w)
                | lost e ↦ (err e, after_call w)
              ]).0)
    by_fault pass f = ran (select_product id w.db.products) refl
    by_fault (fail e) f = foreign_error (row_of id w.db) e f.0 f.1
    by_fault (lost e) f = foreign_error (row_of id w.db) e f.0 f.1

-- a guarded write of a value that fills for the row keeps a fresh cell fresh
set_cmd-FreshCell :
    (c : CachePlatform) (row : Option Product) (now ttl : ℕ) (value : Text) (prev : Entry)
    (cell : Cell)
    → Fills c row value
    → FreshCell c row now cell
    → FreshCell c row now (set_cmd now value ttl prev cell)
set_cmd-FreshCell c row now ttl value prev cell h fresh =
    elim (set_cmd-cases now value ttl prev cell) [
      | inl e ↦ subst (FreshCell c row now) (sym e) fresh
      | inr e ↦ subst (FreshCell c row now) (sym e) (item-FreshCell c row now (now + ttl) value h)
    ]

abbrev pub FreshIn : CachePlatform → Option Product → Text → Valkey → Type 0
FreshIn c row key v = FreshCell c row v.now (v.cells key)

guarded_set-FreshIn :
    (c : CachePlatform) (row : Option Product) (key value : Text) (ttl : ℕ) (prev : Entry)
    (v : Valkey)
    → Fills c row value
    → FreshIn c row key v
    → FreshIn c row key (guarded_set key value ttl prev v).1
unfolding guarded_set
guarded_set-FreshIn c row key value ttl prev v h fresh =
    let v' = (guarded_set key value ttl prev v).1 in
    let f = set_cmd v.now value ttl prev in
    let (same_time, cell) = write_key-cases (codes "set cache key") key f v in
    subst₂ (FreshCell c row) (sym same_time) refl (elim cell [
      | inl e ↦ subst (FreshCell c row v.now) (sym e) fresh
      | inr e ↦
          subst (FreshCell c row v.now) (sym e)
            (set_cmd-FreshCell c row v.now ttl value prev (v.cells key) h fresh)
    ])

pub fill-FreshIn :
    (c : CachePlatform) (row : Option Product) (key : Text) (r : Result Product) (prev : Entry)
    (v : Valkey)
    → Loads row r
    → FreshIn c row key v
    → FreshIn c row key (fill c key r prev v)
unfolding fill set set_missing Fills
fill-FreshIn c row key (ok p) prev v h fresh = go (encode_product c p) refl
  where
    go :
        (payload : Option Text)
        → encode_product c p ≡ payload
        → FreshIn c row key (set_payload payload key c.ttl prev v).1
    go none e = fresh
    go (some value) e =
        subst (λ t. FreshIn c t key (guarded_set key value c.ttl prev v).1) (sym h)
          (guarded_set-FreshIn c (some p) key value c.ttl prev v e
            (subst (λ t. FreshIn c t key v) h fresh))
fill-FreshIn c row key (err e) prev v h fresh = elim (Bool-cases (is not_found e)) [
  | inl k ↦ rw k (
      subst (λ t. FreshIn c t key (guarded_set key (b'n' ∷ []) c.neg_ttl prev v).1) (sym (h k))
        (guarded_set-FreshIn c none key (b'n' ∷ []) c.neg_ttl prev v refl
          (subst (λ t. FreshIn c t key v) (h k) fresh)))
  | inr k ↦ rw k fresh
]
