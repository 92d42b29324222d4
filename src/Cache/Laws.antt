-- ===== src/Cache/Laws.antt =====
-- internal/cache/cache.go: what is read back of the values that the package writes, and the guard.
use storefront.Common.{
  Option, Text, [], ap, arith, false, if◌then◌else◌, inl, inr, none, refl, some, subst,
  text_eq_refl, ℕ, ◌==◌, ◌∷◌, ◌≡◌, ◌⊎◌,
}
use storefront.Cache.{
  CachePlatform, Cell, Entry, Valkey, behind_call, cache_entry, classify, decode_product,
  decoded_entry, encode_product, missing_entry, new_tombstone, payload_entry, put, tagged,
  unread_entry, write_key,
}
use storefront.Domain.Products.{Product}
use storefront.Errors.{Result, err, ok, wrap}
use storefront.Store.Tx.{Fault, fail, lost, next_fault, pass}

decode-encode :
    (c : CachePlatform) (p : Product) (raw : Text)
    → c.marshal (cache_entry c p) ≡ some raw
    → decode_product c raw ≡ some p
unfolding decode_product
decode-encode c p raw h =
    rw (c.unmarshal-marshal (cache_entry c p) raw h) (rw (c.texts.parse-format p.id) refl)

-- A payload that Set writes is read back by Get as a hit with the product that was written.
pub classify-encode :
    (c : CachePlatform) (p : Product) (payload : Text)
    → encode_product c p ≡ some payload
    → classify c payload ≡ payload_entry p
unfolding classify encode_product
classify-encode c p payload h = go (c.marshal (cache_entry c p)) refl h
  where
    go :
        (m : Option Text)
        → c.marshal (cache_entry c p) ≡ m
        → tagged m ≡ some payload
        → classify c payload ≡ payload_entry p
    go none e h = cc
    go (some raw) e h =
        subst (λ t. classify c t ≡ payload_entry p) (ap (λ o. elim o [ none ↦ [] | some t ↦ t ]) h)
          (ap (decoded_entry (b'p' ∷ raw)) (decode-encode c p raw e))

-- a tombstone is no hit, and it is its own token
pub classify_tombstone :
    (c : CachePlatform) (n : ℕ) → classify c (new_tombstone c n) ≡ unread_entry (new_tombstone c n)
unfolding classify new_tombstone
classify_tombstone c n = refl

pub classify_missing : (c : CachePlatform) → classify c (b'n' ∷ []) ≡ missing_entry
unfolding classify
classify_missing c = refl

-- an entry without a hit has the bytes that it was read from as its token
pub token_of_unread :
    (c : CachePlatform) (raw : Text)
    → (classify c raw).hit ≡ false
    → classify c raw ≡ unread_entry raw
unfolding classify
token_of_unread c [] h = refl
token_of_unread c (b ∷ raw) h = go (decode_product c raw) h
  where
    entry : Option Product → Entry
    entry o =
        if b == b'p'
        then decoded_entry (b ∷ raw) o
        else if b == b'n'
        then missing_entry
        else unread_entry (b ∷ raw)

    go : (o : Option Product) → (entry o).hit ≡ false → entry o ≡ unread_entry (b ∷ raw)
    go none h = ground arith
    go (some p) h = ground arith

-- a write to a key happens or not, and takes no time
pub write_key-cases :
    (text key : Text) (f : Cell → Cell) (v : Valkey)
    → let v' = (write_key text key f v).1 in
      (v'.now ≡ v.now) × ((v'.cells key ≡ v.cells key) ⊎ (v'.cells key ≡ f (v.cells key)))
unfolding write_key
write_key-cases text key f v = by_fault (next_fault v.faults)
  where
    written : Valkey
    written = record (behind_call v) { cells = put key (f (v.cells key)) v.cells }

    at_key : written.cells key ≡ f (v.cells key)
    at_key = rw (text_eq_refl key) refl

    out : Fault → Result (Unit {0}) × Valkey
    out pass = (ok tt, written)
    out (fail e) = (err (wrap text e), behind_call v)
    out (lost e) = (err (wrap text e), written)

    by_fault :
        (x : Fault)
        → ((out x).1.now ≡ v.now)
          × (((out x).1.cells key ≡ v.cells key) ⊎ ((out x).1.cells key ≡ f (v.cells key)))
    by_fault pass = (refl, inr at_key)
    by_fault (fail e) = (refl, inl refl)
    by_fault (lost e) = (refl, inr at_key)
