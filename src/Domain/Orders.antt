-- ===== src/Domain/Orders.antt =====
-- internal/domain/order.go
use storefront.Common.{Bool, List, Text, map, ℕ, ℤ}
use storefront.Domain.Money.{Money}
use storefront.Domain.Pages.{Uuid, UuidText, next_cursor}

pub record Order : Type 0 where
  pub id : Uuid
  pub user_id : Uuid
  pub product_id : Uuid
  pub quantity : ℤ
  pub unit_price : Money
  -- milliseconds of the database clock
  pub created_at : ℕ

pub record OrderPage : Type 0 where
  pub items : List Order
  pub has_more : Bool

-- `OrderPage.NextCursor`
unfoldable pub order_next_cursor : UuidText → OrderPage → Text
unfolding next_cursor
order_next_cursor u p = next_cursor u p.has_more (map (λ x. x.id) p.items)
