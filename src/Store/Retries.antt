-- ===== src/Store/Retries.antt =====
-- Order requests under retries: what a request did, also when its answer was lost, and what the next
-- one with the same key does.
use storefront.Common.{
  Bool, Text, [], arith, if◌then◌else◌, inl, inr, subst, sym, text_eq, text_eq_refl, true, ℕ, ◌+◌,
  ◌∙◌, ◌≡◌, ◌≤◌, ◌⊎◌,
}
use storefront.Domain.Orders.{Order}
use storefront.Errors.{GoError, Result, err, idempotency_mismatch, ok, ok_injective, sentinel}
use storefront.Store.Claims.{insert_key_held}
use storefront.Store.Orders.{
  buy_or_replay, claim_and_buy, create_order, hash_order_request, replay_idempotent, replayed_order,
}
use storefront.Store.Replays.{Outcome, Remembers, bought, claim_and_buy-Outcome, replayed}
use storefront.Store.Schema.{Db}
use storefront.Store.Sql.Keys.{insert_key, select_replay}
use storefront.Store.Tx.{
  Platform, World, after_call, commit, exec, lost, map_db_error, next_fault, pure, throw, with_tx,
}
use storefront.Store.Tx.Atomic.{
  answer_lost, committed, rolled_back, with_tx-TxEnding, with_tx_atomic, with_tx_ok,
}
use storefront.Store.Tx.Post.{Post, Post-at, Post-exec-bind, Post-test}

module _ (pf : Platform) (o : Order) (key : Text) where
  -- The tables after a request are those before it, or those of a request that returns.
  pub create_order-Outcome :
      (w : World)
      → ((create_order pf o key w).1.db ≡ w.db)
        ⊎ ((out : Order × Bool) × Outcome w.clock pf o key w.db out (create_order pf o key w).1.db)
  unfolding create_order
  create_order-Outcome w =
      let w0 = after_call w in
      elim (with_tx_atomic (claim_and_buy pf o key) w) [
        | inl untouched ↦ inl untouched
        | inr (out, returned, complete) ↦ inr (
          out,
          subst (λ (d : Db). Outcome w.clock pf o key w.db out d) (sym complete)
              (Post-at (λ r w'. Outcome w.clock pf o key w.db r w'.db) (claim_and_buy pf o key w0)
                out (claim_and_buy-Outcome pf o key w0) returned),
        )
      ]

  -- how a request may end
  pub data OrderEnding (w : World) (out : Result (Order × Bool) × World) : Type 0 where
    order_refused : (e : GoError) → out.0 ≡ err e → out.1.db ≡ w.db → OrderEnding w out
    order_answered :
        (a : Order × Bool)
        → out.0 ≡ ok a
        → Outcome w.clock pf o key w.db a out.1.db
        → OrderEnding w out
    order_unheard :
        (a : Order × Bool) (e : GoError)
        → next_fault (claim_and_buy pf o key (after_call w)).1.faults ≡ lost e
        → out.0 ≡ err (map_db_error e)
        → Outcome w.clock pf o key w.db a out.1.db
        → OrderEnding w out

  -- An order request ends in one of three ways. It answers an error and the tables are as they were;
  -- or it answers an order, and has bought it or replayed it for its key; or its commit was applied and
  -- the answer of the commit lost, and then it answers the error of that call, and the tables are those
  -- of a request that returned.
  pub create_order_answers : (w : World) → OrderEnding w (create_order pf o key w)
  unfolding create_order
  create_order_answers w = elim (with_tx-TxEnding (claim_and_buy pf o key) w) [
    | rolled_back e answer untouched ↦ order_refused e answer untouched
    | committed a answer returned complete ↦ order_answered a answer (done a returned complete)
    | answer_lost a e at_commit answer returned complete ↦
        order_unheard a e at_commit answer (done a returned complete)
  ]
    where
      w0 : World
      w0 = after_call w

      done :
          (a : Order × Bool)
          → (claim_and_buy pf o key w0).0 ≡ ok a
          → (with_tx (claim_and_buy pf o key) w).1.db ≡ (claim_and_buy pf o key w0).1.db
          → Outcome w.clock pf o key w.db a (with_tx (claim_and_buy pf o key) w).1.db
      done a returned complete =
          subst (λ (d : Db). Outcome w.clock pf o key w.db a d) (sym complete)
            (Post-at (λ r w'. Outcome w.clock pf o key w.db r w'.db) (claim_and_buy pf o key w0) a
              (claim_and_buy-Outcome pf o key w0) returned)

  -- An order request that returns has bought, exactly as `Bought` says, or has replayed a remembered
  -- order and changed nothing.
  pub create_order_ok :
      (w : World) (out : Order × Bool)
      → (create_order pf o key w).0 ≡ ok out
      → Outcome w.clock pf o key w.db out (create_order pf o key w).1.db
  unfolding create_order
  create_order_ok w out h =
      let w0 = after_call w in
      let (returned, complete) = with_tx_ok (claim_and_buy pf o key) w out h in
      subst (λ (d : Db). Outcome w.clock pf o key w.db out d) (sym complete)
        (Post-at (λ r w'. Outcome w.clock pf o key w.db r w'.db) (claim_and_buy pf o key w0) out
          (claim_and_buy-Outcome pf o key w0) returned)

-- What a key that is remembered answers.
module _ (pf : Platform) (o : Order) (key : Text) (stored : Order) (until : ℕ) where
  abbrev pub replies : Order × Bool
  replies = (replayed_order o stored, true)

  insert_key_remembered :
      (now : ℕ) (db : Db)
      → Remembers pf o key stored until db
      → now ≤ until
      → insert_key now o.user_id key (hash_order_request pf o) pf.idempotency_ttl db ≡ ok (0, db)
  insert_key_remembered now db m live =
      insert_key_held now o.user_id key (hash_order_request pf o) pf.idempotency_ttl db m.row
        m.found (ground (arith, m.live_until))

  select_replay_remembered :
      (db : Db)
      → Remembers pf o key stored until db
      → select_replay o.user_id key db ≡ ok ((hash_order_request pf o, stored), db)
  unfolding select_replay
  select_replay_remembered db m = ground (arith, m.found, m.link, m.order, m.same_request)

  replay_idempotent_remembered :
      (w : World)
      → Remembers pf o key stored until w.db
      → Post (λ out w'. (out ≡ replies) × (w'.db ≡ w.db)) (replay_idempotent pf o key w)
  unfolding replay_idempotent
  replay_idempotent_remembered w m =
      let Q : Order × Bool → World → Type 0 = λ out w'. (out ≡ replies) × (w'.db ≡ w.db) in
      Post-exec-bind Q (select_replay o.user_id key)
        (λ found.
          if text_eq found.0 (hash_order_request pf o)
          then pure (replayed_order o found.1, true)
          else throw (sentinel idempotency_mismatch))
        w
        λ found db h.
          let e = ok_injective _ _ (sym h ∙ select_replay_remembered w.db m) in
          Post-test Q (text_eq found.0 (hash_order_request pf o))
            (pure (replayed_order o found.1, true)) (throw (sentinel idempotency_mismatch))
            (record (after_call w) { db = db }) (λ equal. (ground (arith, e), ground (arith, e)))
            (λ other. tt)

  claim_and_buy_remembered :
      (w : World)
      → Remembers pf o key stored until w.db
      → w.clock ≤ until
      → Post (λ out w'. (out ≡ replies) × (w'.db ≡ w.db)) (claim_and_buy pf o key w)
  unfolding claim_and_buy
  claim_and_buy_remembered w m live =
      let hash = hash_order_request pf o in
      let Q : Order × Bool → World → Type 0 = λ out w'. (out ≡ replies) × (w'.db ≡ w.db) in
      Post-exec-bind Q (insert_key w.clock o.user_id key hash pf.idempotency_ttl)
        (buy_or_replay pf o key) w
        λ affected db h.
          let e = ok_injective _ _ (sym h ∙ insert_key_remembered w.clock w.db m live) in
          subst
            (λ (x : ℕ × Db).
              Post Q (buy_or_replay pf o key x.0 (record (after_call w) { db = x.1 })))
            (sym e) (replay_idempotent_remembered (record (after_call w) { db = w.db }) m)

  remembered_body :
      (w : World) (out : Order × Bool)
      → Remembers pf o key stored until w.db
      → w.clock ≤ until
      → (claim_and_buy pf o key w).0 ≡ ok out
      → (out ≡ replies) × ((claim_and_buy pf o key w).1.db ≡ w.db)
  remembered_body w out m live returned =
      Post-at (λ r w'. (r ≡ replies) × (w'.db ≡ w.db)) (claim_and_buy pf o key w) out
        (claim_and_buy_remembered w m live) returned

  remembered_calm :
      (w : World)
      → Remembers pf o key stored until w.db
      → w.clock ≤ until
      → w.faults ≡ []
      → (with_tx (claim_and_buy pf o key) w).0 ≡ ok replies
  unfolding with_tx commit claim_and_buy replay_idempotent exec
  remembered_calm w m live calm = ground (
    arith,
    insert_key_remembered w.clock w.db m live,
    select_replay_remembered w.db m,
    text_eq_refl (hash_order_request pf o),
  )

  -- While the key is remembered, repeating its request changes nothing, whatever fails; it returns
  -- nothing but the remembered order, marked as a replay, and it does return that when no call fails.
  pub create_order_remembered :
      (w : World)
      → Remembers pf o key stored until w.db
      → w.clock ≤ until
      → ((create_order pf o key w).1.db ≡ w.db)
        × ((out : Order × Bool) → (create_order pf o key w).0 ≡ ok out → out ≡ replies)
        × (w.faults ≡ [] → (create_order pf o key w).0 ≡ ok replies)
  unfolding create_order
  create_order_remembered w m live = (
    elim (with_tx_atomic (claim_and_buy pf o key) w) [
      | inl untouched ↦ untouched
      | inr (out, returned, complete) ↦
          complete ∙ (remembered_body (after_call w) out m live returned).1
    ],
    λ out h.
        (remembered_body (after_call w) out m live
          (with_tx_ok (claim_and_buy pf o key) w out h).0).0,
    λ calm. remembered_calm w m live calm,
  )

Remembers-same :
    (pf : Platform) (o o' : Order) (key : Text) (stored : Order) (until : ℕ) (db : Db)
    → o'.user_id ≡ o.user_id
    → hash_order_request pf o' ≡ hash_order_request pf o
    → Remembers pf o key stored until db
    → Remembers pf o' key stored until db
Remembers-same pf o o' key stored until db same_user same_body m = record {
  row = m.row;
  live_until = m.live_until;
  found = rw same_user m.found;
  same_request = m.same_request ∙ sym same_body;
  link = m.link;
  order = m.order;
}

-- Of an order request and its repetition with the same key, user and payload before the key expires,
-- at most one changes the tables, whatever fails in either, also when the first answer was lost.
pub retry_buys_once :
    (pf : Platform) (o o' : Order) (key : Text) (w w' : World)
    → o'.user_id ≡ o.user_id
    → hash_order_request pf o' ≡ hash_order_request pf o
    → w'.db ≡ (create_order pf o key w).1.db
    → w'.clock ≤ w.clock + pf.idempotency_ttl
    → ((create_order pf o key w).1.db ≡ w.db)
      ⊎ ((create_order pf o' key w').1.db ≡ (create_order pf o key w).1.db)
retry_buys_once pf o o' key w w' same_user same_body later in_time =
    elim (create_order-Outcome pf o key w) [
      | inl untouched ↦ inl untouched
      | inr (out, result) ↦ by_outcome out result
    ]
  where
    by_outcome :
        (out : Order × Bool)
        → Outcome w.clock pf o key w.db out (create_order pf o key w).1.db
        → ((create_order pf o key w).1.db ≡ w.db)
          ⊎ ((create_order pf o' key w').1.db ≡ (create_order pf o key w).1.db)
    by_outcome out (replayed stored until r unchanged m) = inl unchanged
    by_outcome out (bought middle last fresh buys start end m from) =
        let until = w.clock + pf.idempotency_ttl in
        let m' = Remembers-same pf o o' key out.0 until _ same_user same_body m in
        inr (
          (create_order_remembered pf o' key out.0 until w'
            (subst (λ (d : Db). Remembers pf o' key out.0 until d) (sym later) m') in_time).0
          ∙ later)
