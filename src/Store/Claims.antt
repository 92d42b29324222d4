-- ===== src/Store/Claims.antt =====
-- What claiming an idempotency key and linking it to an order do to the table of keys.
use storefront.Common.{
  Bool-cases, List, Option-cases, Text, arith, false, if◌then◌else◌, inl, inr, is_some, map_if,
  none, some, text_eq_refl, true, ℕ, ◌+◌, ◌∷◌, ◌≡◌,
}
use storefront.Domain.Pages.{Uuid}
use storefront.Errors.{ok}
use storefront.Store.Schema.{Db, IdempotencyRow}
use storefront.Store.Sql.Keys.{insert_key, is_expired, is_key, link_key, replace_key, select_key}
use storefront.Store.Sql.Orders.{select_order}
use storefront.Store.Sql.Rows.{link_row, select-replace_key}

module _ (now : ℕ) (user : Uuid) (key hash : Text) (ttl : ℕ) where
  abbrev pub claim_row : IdempotencyRow
  claim_row = record {
    user_id = user;
    key = key;
    request_hash = hash;
    order_id = none;
    expires_at = now + ttl;
  }

  -- the table with the claim in it: in place of a dead row of the key, or beside the others
  abbrev pub claimed_rows : List IdempotencyRow → List IdempotencyRow
  claimed_rows rows =
      if is_some (select_key user key rows) then replace_key claim_row rows else claim_row ∷ rows

  -- The key is held by a live row, and nothing changes; or it is this call's from now on.
  pub data Claim (db : Db) (affected : ℕ) (db' : Db) : Type 0 where
    held :
        (row : IdempotencyRow)
        → select_key user key db.keys ≡ some row
        → is_expired now row ≡ false
        → affected ≡ 0
        → db' ≡ db
        → Claim db affected db'
    claimed :
        (rows : List IdempotencyRow)
        → affected ≡ 1
        → db' ≡ record db { keys = rows }
        → select_key user key rows ≡ some claim_row
        → rows ≡ claimed_rows db.keys
        → Claim db affected db'

  claim_fresh :
      (rows : List IdempotencyRow) → select_key user key (claim_row ∷ rows) ≡ some claim_row
  unfolding select_key
  claim_fresh rows = ground (arith, text_eq_refl key)

  pub insert_key-Claim :
      (db : Db) (affected : ℕ) (db' : Db)
      → insert_key now user key hash ttl db ≡ ok (affected, db')
      → Claim db affected db'
  unfolding insert_key
  insert_key-Claim db affected db' h = elim (Option-cases (select_key user key db.keys)) [
    | inl free ↦
        claimed (claim_row ∷ db.keys) (ground arith) (ground arith) (claim_fresh db.keys)
          (ground arith)
    | inr (row, found) ↦ elim (Bool-cases (is_expired now row)) [
      | inl dead ↦
          claimed (replace_key claim_row db.keys) (ground arith) (ground arith)
            (ground (arith, select-replace_key claim_row db.keys)) (ground arith)
      | inr live ↦ held row found live (ground arith) (ground arith)
    ]
  ]

  -- a key that a live row holds is not claimed
  pub insert_key_held :
      (db : Db) (row : IdempotencyRow)
      → select_key user key db.keys ≡ some row
      → is_expired now row ≡ false
      → insert_key now user key hash ttl db ≡ ok (0, db)
  unfolding insert_key
  insert_key_held db row found live = ground arith

pub record Linked (user : Uuid) (key : Text) (order_id : Uuid) (db db' : Db) : Type 0 where
  pub known : is_some (select_order order_id db.orders) ≡ true
  pub tables :
      db' ≡ record db { keys = map_if (is_key user key) (link_row user key order_id) db.keys }

pub link_key-Linked :
    (user : Uuid) (key : Text) (order_id : Uuid) (db db' : Db)
    → link_key user key order_id db ≡ ok (tt, db')
    → Linked user key order_id db db'
unfolding link_key
link_key-Linked user key order_id db db' h = record { known = ground arith; tables = ground arith }
