-- ===== src/Service.antt =====
-- internal/service/service.go over the store and the cache. A call group runs one load at a time for
-- a key (golang.org/x/sync/singleflight), so a load here is one flight with its result.
pub mod Reads
pub mod Found
pub mod Ownership
pub mod Races
pub mod CallGroup
use storefront.Common.{Bool, Option, Text, [], codes, if◌then◌else◌, none, pos, some, ℤ, ◌+◌}
use storefront.Cache.{Cache, CachePlatform, Entry, Valkey, get, invalidate_key, set, set_missing}
use storefront.Domain.Orders.{Order}
use storefront.Domain.Pages.{Uuid}
use storefront.Domain.Products.{Product}
use storefront.Errors.{GoError, Result, err, is, not_found, ok, sentinel, wrap}
use storefront.Store.Orders.{create_order}
use storefront.Store.Products.{delete, find_by_id, save, update}
use storefront.Store.Tx.{Platform, Tx, World}

pub record State : Type 0 where
  pub world : World
  pub valkey : Valkey

-- What the service is given.
pub record Services : Type 0 where
  pub store : Platform
  pub cache : CachePlatform

abbrev pub Svc : Type 0 → Type 0
Svc A = State → Result A × State

-- a call of the store
abbrev pub on_store : {A : Type 0} → Tx A → Svc A
on_store m s = let (r, w) = m s.world in (r, record s { world = w })

-- a call of the cache whose error is only logged
abbrev pub on_cache : Cache (Unit {0}) → State → State
on_cache m s = record s { valkey = (m s.valkey).1 }

abbrev pub key_of : Services → Uuid → Text
key_of c id = c.cache.texts.format id

-- `productFrom`
unfoldable pub product_from : Entry → Result Product
product_from e =
    if e.found then ok e.product else err (wrap (codes "find product") (sentinel not_found))

-- `fill`
unfoldable pub fill : CachePlatform → Text → Result Product → Entry → Valkey → Valkey
fill c key (ok p) prev v = (set c key p prev v).1
fill c key (err e) prev v = if is not_found e then (set_missing c key prev v).1 else v

-- the fill of a flight, after a clean Get only
abbrev pub guarded_fill :
    CachePlatform → Text → Result Product → Entry × Option GoError → Valkey → Valkey
guarded_fill c key r (prev, some e) v = v
guarded_fill c key r (prev, none) v = fill c key r prev v

abbrev pub load_missed : Services → Uuid → Entry × Option GoError → Svc Product
load_missed c id got s =
    let (r, w) = find_by_id id s.world in
    (r, record s { world = w; valkey = guarded_fill c.cache (key_of c id) r got s.valkey })

-- the function that `loadProduct` runs in its flight
unfoldable pub load_product : Services → Uuid → Svc Product
load_product c id s =
    let (got, v) = get c.cache (key_of c id) s.valkey in
    if got.0.hit
    then (product_from got.0, record s { valkey = v })
    else load_missed c id got (record s { valkey = v })

-- `FindByID`
unfoldable pub find_product : Services → Uuid → Svc Product
find_product c id s =
    let (got, v) = get c.cache (key_of c id) s.valkey in
    if got.0.hit
    then (product_from got.0, record s { valkey = v })
    else load_product c id (record s { valkey = v })

-- `invalidate`
unfoldable pub invalidate : Services → Uuid → State → State
invalidate c id s = on_cache (invalidate_key c.cache (key_of c id)) s

-- `Create`
unfoldable pub create : Services → Product → Svc Product
create c p s =
    let w = record s.world { drawn = s.world.drawn + 1 } in
    on_store (save c.store (record p { id = c.store.new_v7 s.world.drawn }))
      (record s { world = w })

abbrev pub when_ok : {A : Type 0} → (A → State → State) → Result A × State → Result A × State
when_ok f (ok a, s) = (ok a, f a s)
when_ok f (err e, s) = (err e, s)

-- `Update`
unfoldable pub update_and_invalidate : Services → Product → Svc Product
update_and_invalidate c p s = when_ok (λ q. invalidate c p.id) (on_store (update c.store p) s)

-- `Delete`
unfoldable pub delete_and_invalidate : Services → Uuid → Svc (Unit {0})
delete_and_invalidate c id s = when_ok (λ u. invalidate c id) (on_store (delete c.store id) s)

abbrev pub new_order : Services → Uuid → Uuid → Uuid → ℤ → Order
new_order c id user product qty = record {
  id = id;
  user_id = user;
  product_id = product;
  quantity = qty;
  unit_price = record { minor_amount = pos 0; currency = [] };
  created_at = 0;
}

-- a replay changes nothing in the store, and leaves the cache
abbrev pub invalidate_unless : Bool → Services → Uuid → State → State
invalidate_unless again c id s = if again then s else invalidate c id s

-- `CreateOrder`
unfoldable pub create_order_for : Services → Uuid → Uuid → ℤ → Text → Svc (Order × Bool)
create_order_for c user product qty idem s =
    let o = new_order c (c.store.new_v7 s.world.drawn) user product qty in
    let w = record s.world { drawn = s.world.drawn + 1 } in
    when_ok (λ r. invalidate_unless r.1 c product)
      (on_store (create_order c.store o idem) (record s { world = w }))
