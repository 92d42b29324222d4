-- ===== src/Cache.antt =====
-- internal/cache/cache.go over a Valkey server: cells with an expiry, and calls that may fail.
pub mod Laws
use storefront.Common.{
  Bool, List, Option, Text, [], codes, false, if◌then◌else◌, ltb, none, not, pos, some, text_eq,
  true, ℕ, ℤ, ◌+◌, ◌==◌, ◌∷◌, ◌≡◌,
}
use storefront.Domain.Pages.{Uuid, UuidText}
use storefront.Domain.Products.{Product}
use storefront.Errors.{GoError, Result, err, message, ok, wrap}
use storefront.Store.Tx.{Fault, fail, later_faults, lost, next_fault, pass}

pub record MoneyEntry : Type 0 where
  pub minor_amount : ℤ
  pub currency : Text

-- `cacheEntry`
pub record CacheEntry : Type 0 where
  pub id : Text
  pub name : Text
  pub stock : ℤ
  pub version : ℕ
  pub price : MoneyEntry

-- What the package is given: JSON text of its entries (a name that is no UTF-8 has none), the uuid
-- texts, the sequence of random texts, and the two TTLs in milliseconds.
pub record CachePlatform : Type 0 where
  pub marshal : CacheEntry → Option Text
  pub unmarshal : Text → Option CacheEntry
  pub unmarshal-marshal : (e : CacheEntry) (t : Text) → marshal e ≡ some t → unmarshal t ≡ some e
  pub texts : UuidText
  pub rand_text : ℕ → Text
  pub ttl : ℕ
  pub neg_ttl : ℕ

-- `Entry`
pub record Entry : Type 0 where
  pub product : Product
  pub hit : Bool
  pub found : Bool
  pub exists : Bool
  pub token : Text

abbrev pub zero_product : Product
zero_product = record {
  id = 0;
  name = [];
  price = record { minor_amount = pos 0; currency = [] };
  stock = pos 0;
  version = 0;
}

abbrev pub empty_entry : Entry
empty_entry = record {
  product = zero_product;
  hit = false;
  found = false;
  exists = false;
  token = [];
}

abbrev pub payload_entry : Product → Entry
payload_entry p = record empty_entry { product = p; hit = true; found = true; exists = true }

abbrev pub missing_entry : Entry
missing_entry = record empty_entry { hit = true; exists = true }

abbrev pub unread_entry : Text → Entry
unread_entry raw = record empty_entry { exists = true; token = raw }

abbrev pub cache_entry : CachePlatform → Product → CacheEntry
cache_entry c p = record {
  id = c.texts.format p.id;
  name = p.name;
  stock = p.stock;
  version = p.version;
  price = record { minor_amount = p.price.minor_amount; currency = p.price.currency };
}

abbrev pub tagged : Option Text → Option Text
tagged none = none
tagged (some raw) = some (b'p' ∷ raw)

-- `encodeProduct`
unfoldable pub encode_product : CachePlatform → Product → Option Text
encode_product c p = tagged (c.marshal (cache_entry c p))

abbrev pub product_of : CacheEntry → Option Uuid → Option Product
product_of e none = none
product_of e (some id) = some (record {
  id = id;
  name = e.name;
  price = record { minor_amount = e.price.minor_amount; currency = e.price.currency };
  stock = e.stock;
  version = e.version;
})

abbrev pub entry_product : CachePlatform → Option CacheEntry → Option Product
entry_product c none = none
entry_product c (some e) = product_of e (c.texts.parse e.id)

-- `decodeProduct`
unfoldable pub decode_product : CachePlatform → Text → Option Product
decode_product c raw = entry_product c (c.unmarshal raw)

abbrev pub decoded_entry : Text → Option Product → Entry
decoded_entry raw none = unread_entry raw
decoded_entry raw (some p) = payload_entry p

-- `classify`
unfoldable pub classify : CachePlatform → Text → Entry
classify c [] = unread_entry []
classify c (b ∷ raw) =
    if b == b'p'
    then decoded_entry (b ∷ raw) (decode_product c raw)
    else if b == b'n'
    then missing_entry
    else unread_entry (b ∷ raw)

-- `newTombstone`, on the n-th random text
unfoldable pub new_tombstone : CachePlatform → ℕ → Text
new_tombstone c n = b't' ∷ c.rand_text n

-- One key of the server.
pub record Item : Type 0 where
  pub bytes : Text
  pub expires_at : ℕ

abbrev pub Cell : Type 0
Cell = Option Item

-- GET: an expired item is no item
unfoldable pub live : ℕ → Cell → Option Text
live now none = none
live now (some i) = if ltb now i.expires_at then some i.bytes else none

abbrev pub item : Text → ℕ → Cell
item bytes expires_at = some (record { bytes = bytes; expires_at = expires_at })

-- SET NX PX
abbrev pub set_nx : Option Text → Cell → Cell → Cell
set_nx none cell new = new
set_nx (some old) cell new = cell

-- SET IFEQ PX
abbrev pub set_ifeq : Text → Option Text → Cell → Cell → Cell
set_ifeq token none cell new = cell
set_ifeq token (some old) cell new = if text_eq old token then new else cell

-- `setCmd`, run at the time `now`
unfoldable pub set_cmd : ℕ → Text → ℕ → Entry → Cell → Cell
set_cmd now value ttl prev cell =
    if not prev.exists
    then set_nx (live now cell) cell (item value (now + ttl))
    else set_ifeq prev.token (live now cell) cell (item value (now + ttl))

pub record Valkey : Type 0 where
  pub cells : Text → Cell
  pub now : ℕ
  pub drawn : ℕ
  pub faults : List Fault

abbrev pub Cache : Type 0 → Type 0
Cache A = Valkey → Result A × Valkey

abbrev pub put : Text → Cell → (Text → Cell) → Text → Cell
put key cell cells k = if text_eq k key then cell else cells k

abbrev pub behind_call : Valkey → Valkey
behind_call v = record v { faults = later_faults v.faults }

-- client.Do of a command that writes one key; a write whose answer is lost has happened
unfoldable pub write_key : Text → Text → (Cell → Cell) → Cache (Unit {0})
write_key text key f v =
    let written = record (behind_call v) { cells = put key (f (v.cells key)) v.cells } in
    elim (next_fault v.faults) [
      | pass ↦ (ok tt, written)
      | fail e ↦ (err (wrap text e), behind_call v)
      | lost e ↦ (err (wrap text e), written)
    ]

abbrev pub get_entry : CachePlatform → Option Text → Entry
get_entry c none = empty_entry
get_entry c (some raw) = classify c raw

-- `Get`, the entry and the error that it returns
unfoldable pub get : CachePlatform → Text → Valkey → (Entry × Option GoError) × Valkey
get c key v = elim (next_fault v.faults) [
  | pass ↦ ((get_entry c (live v.now (v.cells key)), none), behind_call v)
  | fail e ↦ ((empty_entry, some (wrap (codes "get cache key") e)), behind_call v)
  | lost e ↦ ((empty_entry, some (wrap (codes "get cache key") e)), behind_call v)
]

-- `guardedSet`: the null answer of a guard that fails is no error
unfoldable pub guarded_set : Text → Text → ℕ → Entry → Cache (Unit {0})
guarded_set key value ttl prev v =
    write_key (codes "set cache key") key (set_cmd v.now value ttl prev) v

abbrev pub set_payload : Option Text → Text → ℕ → Entry → Cache (Unit {0})
set_payload none key ttl prev v = (err (message (codes "marshal cache value")), v)
set_payload (some payload) key ttl prev v = guarded_set key payload ttl prev v

-- `Set`
unfoldable pub set : CachePlatform → Text → Product → Entry → Cache (Unit {0})
set c key p prev v = set_payload (encode_product c p) key c.ttl prev v

-- `SetMissing`
unfoldable pub set_missing : CachePlatform → Text → Entry → Cache (Unit {0})
set_missing c key prev v = guarded_set key (b'n' ∷ []) c.neg_ttl prev v

-- `Invalidate`
unfoldable pub invalidate_key : CachePlatform → Text → Cache (Unit {0})
invalidate_key c key v =
    write_key (codes "invalidate cache key") key
      (λ cell. item (new_tombstone c v.drawn) (v.now + c.ttl)) (record v { drawn = v.drawn + 1 })
