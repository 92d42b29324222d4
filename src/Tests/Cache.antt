-- ===== src/Tests/Cache.antt =====
-- The theorems on the cache and on reads through it, applied to a cache of one product.
use storefront.Common.{
  Option, Text, [], ap, codes, drop, length, negsuc, none, pos, refl, some, subst, suc, take, zero,
  ℕ, ℤ, ◌++◌, ◌∙◌, ◌∷◌, ◌≡◌,
}
use storefront.Cache.{
  CacheEntry, CachePlatform, classify, decode_product, encode_product, item, live, payload_entry,
}
use storefront.Cache.Laws.{classify-encode}
use storefront.Domain.Products.{Product}
use storefront.Errors.{net_error}
use storefront.Service.{Services, State, find_product, product_from}
use storefront.Service.Found.{FoundOrFailed, find_product-Fresh}
use storefront.Service.Reads.{Fresh, row_of}
use storefront.Store.Sql.Products.{select_product}
use storefront.Store.Tx.{fail, next_fault}
use storefront.Tests.Data.{plain_texts, platform, shop, widget}

take_front : (t rest : Text) → take (length t) (t ++ rest) ≡ t
take_front [] rest = refl
take_front (b ∷ t) rest = ap (λ s. b ∷ s) (take_front t rest)

drop_front : (t rest : Text) → drop (length t) (t ++ rest) ≡ rest
drop_front [] rest = refl
drop_front (b ∷ t) rest = drop_front t rest

abbrev sign : ℤ → ℕ
sign (pos n) = 0
sign (negsuc n) = 1

abbrev magnitude : ℤ → ℕ
magnitude (pos n) = n
magnitude (negsuc n) = n

abbrev text_int : ℕ → ℕ → ℤ
text_int zero n = pos n
text_int (suc s) n = negsuc n

int_round_trip : (n : ℤ) → text_int (sign n) (magnitude n) ≡ n
int_round_trip (pos n) = refl
int_round_trip (negsuc n) = refl

-- the numbers first, then the texts, each behind its length but the last
abbrev plain_text : CacheEntry → Text
plain_text e =
    e.version
    ∷ sign e.stock
    ∷ magnitude e.stock
    ∷ sign e.price.minor_amount
    ∷ magnitude e.price.minor_amount
    ∷ length e.id
    ∷ length e.name
    ∷ (e.id ++ (e.name ++ e.price.currency))

abbrev plain_marshal : CacheEntry → Option Text
plain_marshal e = some (plain_text e)

abbrev plain_unmarshal : Text → Option CacheEntry
plain_unmarshal (version ∷ s ∷ stock ∷ a ∷ amount ∷ i ∷ n ∷ rest) = some (record {
  id = take i rest;
  name = take n (drop i rest);
  stock = text_int s stock;
  version = version;
  price = record { minor_amount = text_int a amount; currency = drop n (drop i rest) };
})
plain_unmarshal _ = none

pub plain_round_trip :
    (e : CacheEntry) (t : Text) → plain_marshal e ≡ some t → plain_unmarshal t ≡ some e
plain_round_trip e t h =
    subst (λ x. plain_unmarshal x ≡ some e) (ap (λ o. elim o [ none ↦ [] | some x ↦ x ]) h)
      (λ i. some (record {
        id = take_front e.id (e.name ++ e.price.currency) i;
        name = (ap (take (length e.name)) behind_id ∙ take_front e.name e.price.currency) i;
        stock = int_round_trip e.stock i;
        version = e.version;
        price = record {
          minor_amount = int_round_trip e.price.minor_amount i;
          currency = (ap (drop (length e.name)) behind_id ∙ drop_front e.name e.price.currency) i;
        };
      }))
  where
    behind_id :
        drop (length e.id) (e.id ++ (e.name ++ e.price.currency)) ≡ e.name ++ e.price.currency
    behind_id = drop_front e.id (e.name ++ e.price.currency)

abbrev pub cache_platform : CachePlatform
cache_platform = record {
  marshal = plain_marshal;
  unmarshal = plain_unmarshal;
  unmarshal-marshal = plain_round_trip;
  texts = plain_texts;
  rand_text = λ n. n ∷ [];
  ttl = 300000;
  neg_ttl = 60000;
}

abbrev pub payload : Text
payload = b'p' ∷ 1 ∷ 0 ∷ 10 ∷ 0 ∷ 999 ∷ 1 ∷ 6 ∷ 7 ∷ codes "widgetPLN"

abbrev pub stored_widget : Product
stored_widget = record widget { version = 1 }

pub payload_encodes : encode_product cache_platform stored_widget ≡ some payload
unfolding encode_product
payload_encodes = refl

classify-encode_example : classify cache_platform payload ≡ payload_entry stored_widget
classify-encode_example = classify-encode cache_platform stored_widget payload payload_encodes

abbrev pub services : Services
services = record { store = platform; cache = cache_platform }

-- the widget is cached, and the next call of the cache fails
abbrev pub cached : State
cached = record {
  world = shop;
  valkey = record {
    cells = λ k. item payload 9000;
    now = 5000;
    drawn = 0;
    faults = fail net_error ∷ [];
  };
}

pub cached-Fresh : Fresh services 7 cached
unfolding live classify decode_product product_from select_product
cached-Fresh hit = refl

find_product-Fresh_example :
    FoundOrFailed (next_fault shop.faults) (row_of 7 shop.db) (find_product services 7 cached).0
    × ((find_product services 7 cached).1.world.db ≡ shop.db)
    × Fresh services 7 (find_product services 7 cached).1
find_product-Fresh_example = find_product-Fresh services 7 cached tt cached-Fresh
