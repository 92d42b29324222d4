-- ===== src/Store/Tx/Atomic.antt =====
-- What a transaction leaves, and how it ends: withTx of internal/store/postgres.go.
use storefront.Common.{arith, inl, inr, refl, subst, sym, ◌≡◌, ◌⊎◌}
use storefront.Errors.{GoError, Result, err, ok}
use storefront.Store.Schema.{Db}
use storefront.Store.Tx.{
  Fault, Tx, World, after_call, commit, fail, finish, lost, map_db_error, next_fault, pass,
  rollback, with_tx,
}
use storefront.Store.Tx.Post.{Post, Post-at}

module _ {A : Type 0} where
  -- what the commit of a body that returned leaves
  commit_db :
      (db : Db) (a : A) (w : World) → ((commit db a w).1.db ≡ db) ⊎ ((commit db a w).1.db ≡ w.db)
  unfolding commit
  commit_db db a w = ground arith

  pub commit_result :
      (db : Db) (a b : A) (w : World)
      → (commit db a w).0 ≡ ok b
      → (b ≡ a) × ((commit db a w).1.db ≡ w.db)
  unfolding commit
  commit_result db a b w h = ground arith

  finish_atomic :
      (db : Db) (out : Result A × World)
      → ((finish db out).1.db ≡ db) ⊎ ((a : A) × (out.0 ≡ ok a) × ((finish db out).1.db ≡ out.1.db))
  finish_atomic db (err e, w) = inl refl
  finish_atomic db (ok a, w) = elim (commit_db db a w) [ inl h ↦ inl h | inr h ↦ inr (a, refl, h) ]

  -- Whatever call fails, and also when the answer of a commit is lost, a transaction leaves the
  -- tables as they were or as its complete body left them.
  pub with_tx_atomic :
      (fn : Tx A) (w : World)
      → ((with_tx fn w).1.db ≡ w.db)
        ⊎ ((a : A) × ((fn (after_call w)).0 ≡ ok a)
            × ((with_tx fn w).1.db ≡ (fn (after_call w)).1.db))
  unfolding with_tx
  with_tx_atomic fn w = ground (arith, finish_atomic w.db (fn (after_call w)))

  finish_ok :
      (db : Db) (out : Result A × World) (a : A)
      → (finish db out).0 ≡ ok a
      → (out.0 ≡ ok a) × ((finish db out).1.db ≡ out.1.db)
  finish_ok db (err e, w) a h = cc
  finish_ok db (ok b, w) a h = ground (arith, commit_result db b a w h)

  pub with_tx_ok :
      (fn : Tx A) (w : World) (a : A)
      → (with_tx fn w).0 ≡ ok a
      → ((fn (after_call w)).0 ≡ ok a) × ((with_tx fn w).1.db ≡ (fn (after_call w)).1.db)
  unfolding with_tx
  with_tx_ok fn w a h = ground (arith, finish_ok w.db (fn (after_call w)) a)

-- How a transaction of the body `fn` has ended.
pub data TxEnding {A : Type 0} (fn : Tx A) (w : World) (out : Result A × World) : Type 0 where
  -- an error, and the tables as they were
  rolled_back : (e : GoError) → out.0 ≡ err e → out.1.db ≡ w.db → TxEnding fn w out
  -- the value of the body, and its tables
  committed :
      (a : A)
      → out.0 ≡ ok a
      → (fn (after_call w)).0 ≡ ok a
      → out.1.db ≡ (fn (after_call w)).1.db
      → TxEnding fn w out
  -- the tables of the body, and the error of a commit whose answer was lost
  answer_lost :
      (a : A) (e : GoError)
      → next_fault (fn (after_call w)).1.faults ≡ lost e
      → out.0 ≡ err (map_db_error e)
      → (fn (after_call w)).0 ≡ ok a
      → out.1.db ≡ (fn (after_call w)).1.db
      → TxEnding fn w out

pub with_tx-TxEnding : {A : Type 0} (fn : Tx A) (w : World) → TxEnding fn w (with_tx fn w)
unfolding with_tx commit
with_tx-TxEnding {A} fn w = by_begin (next_fault w.faults)
  where
    body : Result A × World
    body = fn (after_call w)

    by_commit :
        (a : A) (x : Fault)
        → body.0 ≡ ok a
        → next_fault body.1.faults ≡ x
        → TxEnding fn w (elim x as (λ y. Result A × World) [
          | pass ↦ (ok a, after_call body.1)
          | fail e ↦ (err (map_db_error e), rollback w.db (after_call body.1))
          | lost e ↦ (err (map_db_error e), after_call body.1)
        ])
    by_commit a pass r n = committed a refl r refl
    by_commit a (fail e) r n = rolled_back (map_db_error e) refl refl
    by_commit a (lost e) r n = answer_lost a e n refl r refl

    by_body : (r : Result A) → body.0 ≡ r → TxEnding fn w (finish w.db (r, body.1))
    by_body (ok a) r = by_commit a (next_fault body.1.faults) r refl
    by_body (err e) r = rolled_back (map_db_error e) refl refl

    by_begin :
        (x : Fault)
        → TxEnding fn w (elim x as (λ y. Result A × World) [
          | pass ↦ finish w.db (fn (after_call w))
          | fail e ↦ (err (map_db_error e), after_call w)
          | lost e ↦ (err (map_db_error e), after_call w)
        ])
    by_begin pass = by_body body.0 refl
    by_begin (fail e) = rolled_back (map_db_error e) refl refl
    by_begin (lost e) = rolled_back (map_db_error e) refl refl

-- What a transaction has done to the tables, from what its body does when it returns.
pub with_tx-Post :
    {A : Type 0} (Q : A → Db → Type 0) (fn : Tx A) (w : World)
    → Post (λ a w'. Q a w'.db) (fn (after_call w))
    → ((with_tx fn w).1.db ≡ w.db) ⊎ ((a : A) × Q a (with_tx fn w).1.db)
with_tx-Post Q fn w h = elim (with_tx_atomic fn w) [
  | inl untouched ↦ inl untouched
  | inr (a, returned, complete) ↦ inr (
    a,
    subst (λ (d : Db). Q a d) (sym complete)
        (Post-at (λ x w'. Q x w'.db) (fn (after_call w)) a h returned),
  )
]
