-- ===== src/Store/Replays.antt =====
-- The ways in which an order request succeeds: internal/store/idempotency_store.go.
use storefront.Common.{
  Bool, List, Option, Option-cases, Text, ap, arith, false, if◌then◌else◌, inl, inr, map_if, none,
  refl, some, subst, sym, text_eq, text_eq_sound, true, ℕ, ◌+◌, ◌∙◌, ◌≡◌,
}
use storefront.Domain.Orders.{Order}
use storefront.Domain.Pages.{Uuid}
use storefront.Errors.{idempotency_mismatch, ok, same, sentinel}
use storefront.Store.Claims.{
  Claim, Linked, claim_row, claimed, claimed_rows, held, insert_key-Claim, link_key-Linked,
}
use storefront.Store.Orders.{
  buy_or_replay, claim_and_buy, hash_order_request, purchase_tx, replay_idempotent, replayed_order,
}
use storefront.Store.Purchases.{
  Bought, BoughtAs, keys-Bought, orders-Bought, purchase_tx-Bought, user-Bought,
}
use storefront.Store.Schema.{Db, IdempotencyRow}
use storefront.Store.Sql.Keys.{insert_key, is_key, link_key, linked, select_key, select_replay}
use storefront.Store.Sql.Orders.{select_order}
use storefront.Store.Sql.Rows.{link_row, select-link, select_order_id}
use storefront.Store.Tx.{Platform, World, after_call, exec, pure, throw, ◌>>◌}
use storefront.Store.Tx.Post.{Post, Post-bind, Post-exec-bind, Post-test}

-- The key of the request is linked to the order that the request produced.
pub record Remembers (pf : Platform) (o : Order) (key : Text) (stored : Order) (until : ℕ) (db : Db)
    : Type 0 where
  pub row : IdempotencyRow
  pub live_until : row.expires_at ≡ until
  pub found : select_key o.user_id key db.keys ≡ some row
  pub same_request : row.request_hash ≡ hash_order_request pf o
  pub link : row.order_id ≡ some stored.id
  pub order : select_order stored.id db.orders ≡ some stored

-- the keys after a purchase: the claim, linked to the order
abbrev pub keys_after :
    ℕ → Platform → Order → Text → Order → List IdempotencyRow → List IdempotencyRow
keys_after now pf o key b keys =
    map_if (is_key b.user_id key) (link_row b.user_id key b.id)
      (claimed_rows now o.user_id key (hash_order_request pf o) pf.idempotency_ttl keys)

-- What a request that returned has done.
pub data Outcome (now : ℕ) (pf : Platform) (o : Order) (key : Text) (before : Db)
    (out : Order × Bool) (after_it : Db) : Type 0 where
  bought :
      (middle last : Db)
      → out.1 ≡ false
      → Bought o middle last out.0
      → middle ≡ record before { keys = middle.keys }
      → after_it ≡ record last { keys = after_it.keys }
      → Remembers pf o key out.0 (now + pf.idempotency_ttl) after_it
      → after_it.keys ≡ keys_after now pf o key out.0 before.keys
      → Outcome now pf o key before out after_it
  replayed :
      (stored : Order) (until : ℕ)
      → out ≡ (replayed_order o stored, true)
      → after_it ≡ before
      → Remembers pf o key stored until before
      → Outcome now pf o key before out after_it

module _ (pf : Platform) (o : Order) (key : Text) where
  -- what querySelectIdempotency has found
  pub record Joined (db : Db) (hash : Text) (stored : Order) : Type 0 where
    pub row : IdempotencyRow
    pub found : select_key o.user_id key db.keys ≡ some row
    pub same_hash : row.request_hash ≡ hash
    pub link : row.order_id ≡ some stored.id
    pub order : select_order stored.id db.orders ≡ some stored

  linked_id :
      (id : Option Uuid) (orders : List Order) (stored : Order)
      → linked id orders ≡ some stored
      → (id ≡ some stored.id) × (select_order stored.id orders ≡ some stored)
  linked_id none orders stored h = cc
  linked_id (some id) orders stored h =
      let e = select_order_id id stored orders h in
      (ap some (sym e), subst (λ i. select_order i orders ≡ some stored) (sym e) h)

  select_replay-Joined :
      (db db' : Db) (hash : Text) (stored : Order)
      → select_replay o.user_id key db ≡ ok ((hash, stored), db')
      → Joined db hash stored × (db' ≡ db)
  unfolding select_replay
  select_replay-Joined db db' hash stored h =
      elim (Option-cases (select_key o.user_id key db.keys)) [
        | inl free ↦ ground arith
        | inr (row, found) ↦ elim (Option-cases (linked row.order_id db.orders)) [
          | inl unlinked ↦ ground arith
          | inr (x, e) ↦
              let same : x ≡ stored = ground arith in
              let l = linked_id row.order_id db.orders stored (e ∙ ap some same) in
              (
                record {
                  row = row;
                  found = found;
                  same_hash = ground arith;
                  link = l.0;
                  order = l.1;
                },
                ground arith,
              )
        ]
      ]

  replay_idempotent-Outcome :
      (now : ℕ) (w : World)
      → Post (λ out w'. Outcome now pf o key w.db out w'.db) (replay_idempotent pf o key w)
  unfolding replay_idempotent
  replay_idempotent-Outcome now w =
      let Q : Order × Bool → World → Type 0 = λ out w'. Outcome now pf o key w.db out w'.db in
      Post-exec-bind Q (select_replay o.user_id key)
        (λ found.
          if text_eq found.0 (hash_order_request pf o)
          then pure (replayed_order o found.1, true)
          else throw (sentinel idempotency_mismatch))
        w
        λ found db h.
          let (j, same) = select_replay-Joined w.db db found.0 found.1 h in
          Post-test Q (text_eq found.0 (hash_order_request pf o))
            (pure (replayed_order o found.1, true)) (throw (sentinel idempotency_mismatch))
            (record (after_call w) { db = db })
            (λ equal. replayed found.1 j.row.expires_at refl same (record {
              row = j.row;
              live_until = refl;
              found = j.found;
              same_request = j.same_hash ∙ text_eq_sound _ _ equal;
              link = j.link;
              order = j.order;
            }))
            (λ other. tt)

  Linked-Remembers :
      (now : ℕ) (rows : List IdempotencyRow) {start bought_db last : Db} {b : Order}
      → Bought o start bought_db b
      → bought_db.keys ≡ rows
      → select_key o.user_id key rows
        ≡ some (claim_row now o.user_id key (hash_order_request pf o) pf.idempotency_ttl)
      → Linked b.user_id key b.id bought_db last
      → Remembers pf o key b (now + pf.idempotency_ttl) last
  Linked-Remembers now rows {bought_db} {b} buys same_keys mine l =
      let r = claim_row now o.user_id key (hash_order_request pf o) pf.idempotency_ttl in
      record {
        row = link_row o.user_id key b.id r;
        live_until = refl;
        found = ground (arith, select-link o.user_id key b.id rows, l.tables, user-Bought buys);
        same_request = refl;
        link = refl;
        order = unfold select_order in ground (arith, l.tables, orders-Bought buys);
      }

  -- from the claim on: the purchase, then the link
  buy-Outcome :
      (now : ℕ) (before : Db) (rows : List IdempotencyRow) (w : World)
      → w.db ≡ record before { keys = rows }
      → select_key o.user_id key rows
        ≡ some (claim_row now o.user_id key (hash_order_request pf o) pf.idempotency_ttl)
      → rows
        ≡ claimed_rows now o.user_id key (hash_order_request pf o) pf.idempotency_ttl before.keys
      → Post (λ out w'. Outcome now pf o key before out w'.db) (buy_or_replay pf o key 1 w)
  buy-Outcome now before rows w claimed_db mine from =
      let Q : Order × Bool → World → Type 0 = λ out w'. Outcome now pf o key before out w'.db in
      Post-bind (BoughtAs pf o w) Q (purchase_tx pf o)
        (λ b. do exec (link_key b.user_id key b.id); pure (b, false)) w (purchase_tx-Bought pf o w)
        λ b w1 buys.
          Post-exec-bind Q (link_key b.user_id key b.id) (λ _. pure (b, false)) w1
            λ _ db h.
              let l = link_key-Linked b.user_id key b.id w1.db db h in
              bought w.db w1.db refl buys (ground (arith, claimed_db)) (ground (arith, l.tables))
                (Linked-Remembers now rows buys (ground (arith, keys-Bought buys, claimed_db)) mine
                  l)
                (ground (arith, l.tables, keys-Bought buys, claimed_db, from))

  -- Every request that returned within the transaction has bought and is remembered, or replays.
  pub claim_and_buy-Outcome :
      (w : World)
      → Post (λ out w'. Outcome w.clock pf o key w.db out w'.db) (claim_and_buy pf o key w)
  unfolding claim_and_buy
  claim_and_buy-Outcome w =
      let hash = hash_order_request pf o in
      let Q : Order × Bool → World → Type 0 = λ out w'. Outcome w.clock pf o key w.db out w'.db in
      Post-exec-bind Q (insert_key w.clock o.user_id key hash pf.idempotency_ttl)
        (buy_or_replay pf o key) w
        λ affected db h.
          by_claim affected db
            (insert_key-Claim w.clock o.user_id key hash pf.idempotency_ttl w.db affected db h)
    where
      by_claim :
          (affected : ℕ) (db : Db)
          → Claim w.clock o.user_id key
              (hash_order_request pf o)
              pf.idempotency_ttl
              w.db
              affected
              db
          → Post
              (λ out w'. Outcome w.clock pf o key w.db out w'.db)
              (buy_or_replay pf o key affected (record (after_call w) { db = db }))
      by_claim affected db (held row found live none_affected same_db) =
          let Q : Order × Bool → World → Type 0 =
            λ out w'. Outcome w.clock pf o key w.db out w'.db in
          subst (λ (n : ℕ). Post Q (buy_or_replay pf o key n (record (after_call w) { db = db })))
            (sym none_affected)
            (subst
              (λ (d : Db). Post Q (replay_idempotent pf o key (record (after_call w) { db = d })))
              (sym same_db)
              (replay_idempotent-Outcome w.clock (record (after_call w) { db = w.db })))
      by_claim affected db (claimed rows one_affected tables mine from) =
          subst
            (λ (n : ℕ).
              Post (λ out w'. Outcome w.clock pf o key w.db out w'.db)
                (buy_or_replay pf o key n (record (after_call w) { db = db })))
            (sym one_affected)
            (buy-Outcome w.clock w.db rows (record (after_call w) { db = db }) tables mine from)
