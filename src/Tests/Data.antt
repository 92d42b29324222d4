-- ===== src/Tests/Data.antt =====
-- A platform and a small database that the tests share.
use storefront.Common.{Option, Text, [], codes, none, pos, refl, some, ◌+◌, ◌∷◌, ◌≢◌}
use storefront.Domain.Money.{Money}
use storefront.Domain.Orders.{Order}
use storefront.Domain.Pages.{Uuid, UuidText}
use storefront.Domain.Products.{Product}
use storefront.Store.Schema.{empty_db}
use storefront.Store.Tx.{Platform, World}

abbrev pub plain_format : Uuid → Text
plain_format id = id ∷ []

abbrev pub plain_parse : Text → Option Uuid
plain_parse (id ∷ []) = some id
plain_parse _ = none

pub plain_nonempty : (id : Uuid) → plain_format id ≢ []
plain_nonempty id e = cc

-- Ids are written as one symbol, and the digest is the text itself, which has no collisions.
abbrev pub plain_texts : UuidText
plain_texts = record {
  format = plain_format;
  parse = plain_parse;
  parse-format = λ id. refl;
  format_nonempty = plain_nonempty;
}

abbrev pub platform : Platform
platform = record {
  texts = plain_texts;
  new_v7 = λ n. 1000 + n;
  sha256 = λ t. t;
  idempotency_ttl = 86400000;
}

abbrev pub price : Money
price = record { minor_amount = pos 999; currency = codes "PLN" }

abbrev pub widget : Product
widget = record { id = 7; name = codes "widget"; price = price; stock = pos 10; version = 0 }

abbrev pub empty_world : World
empty_world = record { db = empty_db; outbox_seq = 1; drawn = 0; clock = 5000; faults = [] }

-- The shop after the widget has been created.
abbrev pub shop : World
shop = record empty_world { db = record empty_db { products = record widget { version = 1 } ∷ [] } }

abbrev pub two_widgets : Order
two_widgets = record {
  id = 21;
  user_id = 3;
  product_id = 7;
  quantity = pos 2;
  unit_price = record { minor_amount = pos 0; currency = [] };
  created_at = 0;
}
