-- ===== src/Store/Sql/Keys.antt =====
-- The statements on idempotency_keys.
use storefront.Common.{
  Bool, List, Option, Text, filter, find?, if◌then◌else◌, is_some, length, ltb, map_if, none, not,
  some, text_eq, ℕ, ◌&&◌, ◌+◌, ◌==◌, ◌∷◌,
}
use storefront.Domain.Orders.{Order}
use storefront.Domain.Pages.{Uuid}
use storefront.Errors.{Result, err, no_rows, ok, sentinel, ◌>>=◌}
use storefront.Store.Schema.{Db, IdempotencyRow, Sql, foreign_key_violation}
use storefront.Store.Sql.Orders.{select_order}

abbrev pub is_key : Uuid → Text → IdempotencyRow → Bool
is_key user key r = r.user_id == user && text_eq r.key key

unfoldable pub select_key : Uuid → Text → List IdempotencyRow → Option IdempotencyRow
select_key user key rows = find? (is_key user key) rows

unfoldable pub replace_key : IdempotencyRow → List IdempotencyRow → List IdempotencyRow
replace_key r rows = map_if (is_key r.user_id r.key) (λ _. r) rows

-- the row is past its TTL
abbrev pub is_expired : ℕ → IdempotencyRow → Bool
is_expired now r = ltb r.expires_at now

abbrev pub claim_over : ℕ → IdempotencyRow → Option IdempotencyRow → Db → Result (ℕ × Db)
claim_over now r none db = ok (1, record db { keys = r ∷ db.keys })
claim_over now r (some old) db =
    if is_expired now old then ok (1, record db { keys = replace_key r db.keys }) else ok (0, db)

-- queryInsertIdempotency: the number of rows affected is 0 when a live row holds the key
unfoldable pub insert_key : ℕ → Uuid → Text → Text → ℕ → Sql ℕ
insert_key now user key hash ttl db =
    let r : IdempotencyRow = record {
      user_id = user;
      key = key;
      request_hash = hash;
      order_id = none;
      expires_at = now + ttl;
    } in
    claim_over now r (select_key user key db.keys) db

abbrev pub joined : IdempotencyRow → Option Order → Result (Text × Order)
joined r none = err (sentinel no_rows)
joined r (some o) = ok (r.request_hash, o)

abbrev pub linked : Option Uuid → List Order → Option Order
linked none orders = none
linked (some id) orders = select_order id orders

abbrev pub replay_row : Option IdempotencyRow → List Order → Result (Text × Order)
replay_row none orders = err (sentinel no_rows)
replay_row (some r) orders = joined r (linked r.order_id orders)

-- querySelectIdempotency: the row joined with the order that it links to
unfoldable pub select_replay : Uuid → Text → Sql (Text × Order)
select_replay user key db = do
  found ← replay_row (select_key user key db.keys) db.orders
  ok (found, db)

-- queryUpdateIdempotencyResult: order_id refers to orders
unfoldable pub link_key : Uuid → Text → Uuid → Sql (Unit {0})
link_key user key order_id db =
    if is_some (select_order order_id db.orders)
    then ok (
      tt,
      record db {
        keys = map_if (is_key user key) (λ r. record r { order_id = some order_id }) db.keys;
      },
    )
    else err foreign_key_violation

-- queryPurgeIdempotency: the number of rows that went
unfoldable pub purge_keys : ℕ → Sql ℕ
purge_keys now db = ok (
  length (filter (is_expired now) db.keys),
  record db { keys = filter (λ r. not (is_expired now r)) db.keys },
)
