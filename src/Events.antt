-- ===== src/Events.antt =====
-- internal/event/event.go. A payload is the event itself: json.Marshal of an Event does not fail, and
-- what the broker receives is that text unparsed.
use storefront.Common.{Text, codes, pos, ℕ, ℤ}
use storefront.Domain.Pages.{Uuid}
use storefront.Domain.Products.{Product}

abbrev pub type_created : Text
type_created = codes "product.created"

abbrev pub type_updated : Text
type_updated = codes "product.updated"

abbrev pub type_deleted : Text
type_deleted = codes "product.deleted"

abbrev pub type_purchased : Text
type_purchased = codes "product.purchased"

pub record Event : Type 0 where
  pub event_id : Uuid
  pub event_type : Text
  pub product_id : Uuid
  pub version : ℕ
  pub occurred_at : ℕ
  pub quantity : ℤ
  pub stock : ℤ

-- event.Record: a stored row, ready to publish
pub record Record : Type 0 where
  pub message_id : Uuid
  pub event_type : Text
  pub payload : Event

-- `New`, with the generated id and the current time
unfoldable pub new_event : Uuid → ℕ → Text → Product → Event
new_event event_id now event_type p = record {
  event_id = event_id;
  event_type = event_type;
  product_id = p.id;
  version = p.version;
  occurred_at = now;
  quantity = pos 0;
  stock = p.stock;
}

-- `NewPurchased`
unfoldable pub new_purchased : Uuid → ℕ → Product → ℤ → Event
unfolding new_event
new_purchased event_id now p qty =
    let e = new_event event_id now type_purchased p in record e { quantity = qty }
