-- ===== src/Store/Outbox/Together.antt =====
-- Two relays that drain at a time, the second one skipping what the first has locked:
-- internal/store/outbox.go.
use storefront.Common.{
  All, All-map, All-take, Bool, Bool-cases, List, [], ap, arith, false, filter, inl, inr, map, not,
  refl, true, ℕ, ◌&&◌, ◌++◌, ◌==◌, ◌∷◌, ◌≡◌, ◌⊎◌,
}
use storefront.Store.Outbox.{
  Answers, Broker, FailedRow, Failures, Published, classify_failures, failed_id, publish,
  publish_batch, record_of,
}
use storefront.Store.Outbox.Batch.{left_rows}
use storefront.Store.Outbox.Commuting.{Untouched, rows_commute}
use storefront.Store.Paging.{All-order_by}
use storefront.Store.Schema.{OutboxRow}
use storefront.Store.Sql.Keyset.{ascending, order_by}
use storefront.Store.Sql.Outbox.{claim_rows, is_due, mem_id, row_id}

-- what is outside a batch is not touched by what becomes of the batch
published_inside :
    (answers : Answers) (id : ℕ) (batch : List OutboxRow) (b : Broker)
    → mem_id id (map row_id batch) ≡ false
    → (mem_id id (publish_batch answers batch b).0.sent ≡ false)
      × (mem_id id (map failed_id (publish_batch answers batch b).0.failed) ≡ false)
unfolding publish_batch
published_inside answers id [] b h = (refl, refl)
published_inside answers id (r ∷ rows) b h =
    ground (arith, published_inside answers id rows (publish answers (record_of r) b).1)

classified_inside :
    (max_attempts id : ℕ) (fs : List FailedRow)
    → mem_id id (map failed_id fs) ≡ false
    → (mem_id id (classify_failures max_attempts fs).bump ≡ false)
      × (mem_id id (map failed_id (classify_failures max_attempts fs).dead) ≡ false)
unfolding classify_failures
classified_inside max_attempts id [] h = (refl, refl)
classified_inside max_attempts id (f ∷ fs) h = ground (arith, classified_inside max_attempts id fs)

filter-All : {A : Type 0} (p : A → Bool) (xs : List A) → All (λ x. p x ≡ true) (filter p xs)
filter-All p [] = tt
filter-All p (x ∷ xs) = elim (Bool-cases (p x)) [
  | inl e ↦ rw e (e, filter-All p xs)
  | inr e ↦ rw e (filter-All p xs)
]

mem_id-append : (id : ℕ) (xs ys : List ℕ) → mem_id id (xs ++ ys) ≡ false → mem_id id xs ≡ false
mem_id-append id [] ys h = refl
mem_id-append id (x ∷ xs) ys h = ground (arith, mem_id-append id xs ys)

-- a claim skips the rows that are locked
claim_skips :
    (now : ℕ) (ids locked : List ℕ) (n : ℕ) (rows : List OutboxRow)
    → All (λ r. mem_id r.id ids ≡ false) (claim_rows now (ids ++ locked) n rows)
unfolding claim_rows
claim_skips now ids locked n rows = All-take P n (order_by row_id ascending (filter due rows)) (
    All-order_by row_id ascending P (filter due rows)
      (All-map (λ r. due r ≡ true) P (filter due rows) skipped (filter-All due rows)))
  where
    P : OutboxRow → Type 0
    P r = mem_id r.id ids ≡ false

    due : OutboxRow → Bool
    due r = is_due now r && not (mem_id r.id (ids ++ locked))

    skipped : (r : OutboxRow) → due r ≡ true → P r
    skipped r h = mem_id-append r.id ids locked (ground arith)

outside :
    (id : ℕ) (ids : List ℕ) (batch : List OutboxRow)
    → All (λ r. mem_id r.id ids ≡ false) batch
    → mem_id id ids ≡ true
    → mem_id id (map row_id batch) ≡ false
outside id ids [] h m = refl
outside id ids (r ∷ rows) (free, h) m = elim (Bool-cases (r.id == id)) [
  | inl same_id ↦
      let is_id : r.id ≡ id = ground arith in absurd (cc (m, ap (λ i. mem_id i ids) is_id, free))
  | inr other ↦ rw other (outside id ids rows h m)
]

-- Two relays drain the same outbox, and the second claims while the rows of the first are locked. No row
-- is in both batches; and whatever the broker answers each of them, the outbox behind the two settled
-- batches is the same in whichever order they commit.
pub relays_apart :
    (answers answers' : Answers) (locked : List ℕ) (now now' size size' max_attempts : ℕ)
    (rows : List OutboxRow) (b b' : Broker)
    → let batch = claim_rows now locked size rows in
      let batch' = claim_rows now' (map row_id batch ++ locked) size' rows in
      let p = (publish_batch answers batch b).0 in
      let p' = (publish_batch answers' batch' b').0 in
      let f = classify_failures max_attempts p.failed in
      let f' = classify_failures max_attempts p'.failed in
      All (λ r. mem_id r.id (map row_id batch) ≡ false) batch'
      × (left_rows now' p'.sent f' (left_rows now p.sent f rows)
          ≡ left_rows now p.sent f (left_rows now' p'.sent f' rows))
relays_apart answers answers' locked now now' size size' max_attempts rows b b' =
    (skips, rows_commute now now' p.sent p'.sent f f' apart rows)
  where
    batch : List OutboxRow
    batch = claim_rows now locked size rows

    batch' : List OutboxRow
    batch' = claim_rows now' (map row_id batch ++ locked) size' rows

    skips : All (λ (r : OutboxRow). mem_id r.id (map row_id batch) ≡ false) batch'
    skips = claim_skips now' (map row_id batch) locked size' rows

    p : Published
    p = (publish_batch answers batch b).0

    p' : Published
    p' = (publish_batch answers' batch' b').0

    f : Failures
    f = classify_failures max_attempts p.failed

    f' : Failures
    f' = classify_failures max_attempts p'.failed

    untouched :
        (answers : Answers) (rows : List OutboxRow) (b : Broker) (id : ℕ)
        → mem_id id (map row_id rows) ≡ false
        → Untouched
            (publish_batch answers rows b).0.sent
            (classify_failures max_attempts (publish_batch answers rows b).0.failed)
            id
    untouched answers rows b id h =
        let (not_sent, not_failed) = published_inside answers id rows b h in
        let (not_bumped, not_dead) =
          classified_inside max_attempts id (publish_batch answers rows b).0.failed not_failed in
        (not_sent, not_bumped, not_dead)

    apart : (id : ℕ) → Untouched p.sent f id ⊎ Untouched p'.sent f' id
    apart id = elim (Bool-cases (mem_id id (map row_id batch))) [
      | inl m ↦ inr (untouched answers' batch' b' id (outside id (map row_id batch) batch' skips m))
      | inr m ↦ inl (untouched answers batch b id m)
    ]
