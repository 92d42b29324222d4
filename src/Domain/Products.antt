-- ===== src/Domain/Products.antt =====
-- internal/domain/product.go and internal/domain/idempotency.go
use storefront.Common.{
  Bool, List, Text, [], codes, if◌then◌else◌, leb_ℤ, ltb_ℤ, map, pos, text_eq, ℕ, ℤ, ◌&&◌,
}
use storefront.Domain.Money.{Money, validate_money}
use storefront.Domain.Pages.{Uuid, UuidText, next_cursor}
use storefront.Errors.{Result, err, message, ok, ◌>>◌}

pub record Product : Type 0 where
  pub id : Uuid
  pub name : Text
  pub price : Money
  pub stock : ℤ
  pub version : ℕ

pub record ProductPage : Type 0 where
  pub items : List Product
  pub has_more : Bool

abbrev pub min_purchase_quantity : ℤ
min_purchase_quantity = pos 1

abbrev pub max_purchase_quantity : ℤ
max_purchase_quantity = pos 10000

-- MaxIdempotencyKeyLen, in bytes
abbrev pub max_idempotency_key_len : ℕ
max_idempotency_key_len = 255

unfoldable pub valid_purchase_quantity : ℤ → Bool
valid_purchase_quantity qty = leb_ℤ min_purchase_quantity qty && leb_ℤ qty max_purchase_quantity

-- `Product.Validate`
unfoldable pub validate_product : Product → Result (Unit {0})
unfolding validate_money
validate_product p =
    if text_eq p.name [] then err (message (codes "the product name is empty")) else do
      validate_money p.price
      if ltb_ℤ p.stock (pos 0)
          then err (message (codes "the product stock must not be negative"))
          else ok tt

-- `ProductPage.NextCursor`
unfoldable pub product_next_cursor : UuidText → ProductPage → Text
unfolding next_cursor
product_next_cursor u p = next_cursor u p.has_more (map (λ x. x.id) p.items)
