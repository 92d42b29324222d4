-- ===== src/Domain/Money.antt =====
-- internal/domain/money.go
use storefront.Common.{Bool, Text, codes, if◌then◌else◌, leb_ℤ, not, pos, text_eq, ℤ, ◌||◌}
use storefront.Errors.{Result, err, message, ok}

abbrev pub Currency : Type 0
Currency = Text

pub record Money : Type 0 where
  pub minor_amount : ℤ
  pub currency : Currency

-- `Currency.Valid`
unfoldable pub valid_currency : Currency → Bool
valid_currency c =
    text_eq c (codes "PLN")
    || text_eq c (codes "EUR")
    || text_eq c (codes "USD")
    || text_eq c (codes "GBP")
    || text_eq c (codes "CHF")

-- `Money.Validate`
unfoldable pub validate_money : Money → Result (Unit {0})
validate_money m =
    if leb_ℤ m.minor_amount (pos 0)
    then err (message (codes "the product price must be positive"))
    else if not (valid_currency m.currency)
    then err (message (codes "the product currency is invalid"))
    else ok tt
