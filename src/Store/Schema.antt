-- ===== src/Store/Schema.antt =====
-- The tables of migrations/*.sql, and the types and CHECK constraints of their columns.
use storefront.Common.{
  Bool, List, Option, Text, [], codes, if◌then◌else◌, leb, leb_ℤ, ltb, ltb_ℤ, negsuc, none, pos,
  some, suc, true, zero, ℕ, ℤ, ◌&&◌, ◌==◌, ◌∷◌,
}
use storefront.Domain.Money.{valid_currency}
use storefront.Domain.Orders.{Order}
use storefront.Domain.Pages.{Uuid}
use storefront.Domain.Products.{Product}
use storefront.Errors.{GoError, Result, err, message, ok, pg_error}
use storefront.Events.{Event}

pub record IdempotencyRow : Type 0 where
  pub user_id : Uuid
  pub key : Text
  pub request_hash : Text
  pub order_id : Option Uuid
  pub expires_at : ℕ

pub record OutboxRow : Type 0 where
  pub id : ℕ
  pub message_id : Uuid
  pub event_type : Text
  pub payload : Event
  pub attempts : ℕ
  pub next_attempt_at : ℕ
  pub created_at : ℕ

-- `last_error` holds the error whose text is stored
pub record DeadRow : Type 0 where
  pub id : ℕ
  pub message_id : Uuid
  pub event_type : Text
  pub payload : Event
  pub attempts : ℕ
  pub created_at : ℕ
  pub last_error : GoError

pub record Db : Type 0 where
  pub products : List Product
  pub orders : List Order
  pub keys : List IdempotencyRow
  pub outbox : List OutboxRow
  pub dead : List DeadRow

abbrev pub empty_db : Db
empty_db = record { products = []; orders = []; keys = []; outbox = []; dead = [] }

-- A statement: it fails and changes nothing, or returns its rows and the tables after it.
abbrev pub Sql : Type 0 → Type 0
Sql A = Db → Result (A × Db)

abbrev pub unique_violation : GoError
unique_violation = pg_error (codes "23505")

abbrev pub foreign_key_violation : GoError
foreign_key_violation = pg_error (codes "23503")

abbrev pub restrict_violation : GoError
restrict_violation = pg_error (codes "23001")

abbrev pub check_violation : GoError
check_violation = pg_error (codes "23514")

abbrev pub string_data_right_truncation : GoError
string_data_right_truncation = pg_error (codes "22001")

abbrev pub numeric_out_of_range : GoError
numeric_out_of_range = pg_error (codes "22003")

-- pgx refuses to encode an int64 that an INTEGER column cannot hold
abbrev pub unable_to_encode : GoError
unable_to_encode = message (codes "unable to encode into binary format for int4")

unfoldable pub in_int4 : ℤ → Bool
in_int4 n = leb_ℤ n (pos 2147483647) && leb_ℤ (negsuc 2147483647) n

-- a BIGINT that counts from 0
unfoldable pub in_int8 : ℕ → Bool
in_int8 n = leb n 9223372036854775807

-- VARCHAR(n) counts characters: the bytes of UTF-8 that do not continue one
abbrev pub is_continuation : ℕ → Bool
is_continuation b = leb 128 b && ltb b 192

unfoldable pub char_count : Text → ℕ
char_count [] = 0
char_count (b ∷ t) = if is_continuation b then char_count t else suc (char_count t)

unfoldable pub take_chars : ℕ → Text → Text
take_chars n [] = []
take_chars zero (b ∷ t) = if is_continuation b then b ∷ take_chars zero t else []
take_chars (suc n) (b ∷ t) =
    if is_continuation b then b ∷ take_chars (suc n) t else b ∷ take_chars n t

unfoldable pub drop_chars : ℕ → Text → Text
drop_chars n [] = []
drop_chars zero (b ∷ t) = if is_continuation b then drop_chars zero t else b ∷ t
drop_chars (suc n) (b ∷ t) = if is_continuation b then drop_chars (suc n) t else drop_chars n t

unfoldable pub all_spaces : Text → Bool
all_spaces [] = true
all_spaces (b ∷ t) = b == b' ' && all_spaces t

-- what is stored: an excess of spaces is cut off, any other excess is an error
unfoldable pub varchar : ℕ → Text → Option Text
varchar n t =
    if leb (char_count t) n
    then some t
    else if all_spaces (drop_chars n t)
    then some (take_chars n t)
    else none

-- the CHECK constraints of products
unfoldable pub product_checks : Product → Bool
product_checks p =
    ltb_ℤ (pos 0) p.price.minor_amount && leb_ℤ (pos 0) p.stock && valid_currency p.price.currency

abbrev pub with_name : Option Text → Product → Result Product
with_name none p = err string_data_right_truncation
with_name (some t) p =
    if product_checks (record p { name = t })
    then ok (record p { name = t })
    else err check_violation

-- A row of products as it is stored, or the error that refuses it.
unfoldable pub stored_product : Product → Result Product
stored_product p =
    if in_int8 p.version && in_int4 p.stock
    then with_name (varchar 100 p.name) p
    else err numeric_out_of_range

-- the CHECK constraints of orders
unfoldable pub order_checks : Order → Bool
order_checks o = ltb_ℤ (pos 0) o.quantity && ltb_ℤ (pos 0) o.unit_price.minor_amount
