-- ===== src/Store/Outbox/Attempts.antt =====
-- The attempts of a row, against MaxAttempts: internal/store/outbox.go.
use storefront.Common.{
  All, All-filter, All-map, Bool, List, Option, [], ap, arith, false, if◌then◌else◌, inl, inr,
  is_some, length, map, none, not, refl, some, subst, sym, true, ℕ, ◌+◌, ◌<◌, ◌∷◌, ◌≡◌, ◌≢◌, ◌≤◌,
}
use storefront.Errors.{GoError, is, undeliverable}
use storefront.Store.Outbox.{
  Answers, Broker, FailedRow, Published, add_failed, add_sent, answered, classify_failures,
  drain_batch, failed_id, none_published, publish, publish_batch, record_of,
}
use storefront.Store.Outbox.Batch.{claimed_batch, drain_batch_outcome, left_rows, settled}
use storefront.Store.Outbox.Delivery.{Only, claim-Only}
use storefront.Store.Paging.{Distinct}
use storefront.Store.Schema.{Db, OutboxRow}
use storefront.Store.Sql.Keyset.{ascending}
use storefront.Store.Sql.Outbox.{bump_rows, claim_rows, delete_rows, mem_id, row_id}
use storefront.Store.Tx.{World}

abbrev pub Below : ℕ → OutboxRow → Type 0
Below max_attempts r = r.attempts < max_attempts

-- every row that is bumped has an attempt left
abbrev Spared : ℕ → List OutboxRow → List ℕ → Type 0
Spared max_attempts rows ids =
    All (λ r. mem_id r.id ids ≡ true → r.attempts + 1 < max_attempts) rows

bumped_attempts :
    (max_attempts : ℕ) (r : OutboxRow) (fs : List FailedRow)
    → All (λ f. f.row.id ≡ r.id → f.row.attempts ≡ r.attempts) fs
    → mem_id r.id (classify_failures max_attempts fs).bump ≡ true
    → r.attempts + 1 < max_attempts
unfolding classify_failures
bumped_attempts max_attempts r [] same_row h = cc
bumped_attempts max_attempts r (f ∷ fs) same_row h =
    ground (arith, bumped_attempts max_attempts r fs same_row.1, same_row.0)

-- publishBatch fails only rows of its batch
failed_rows :
    (P : OutboxRow → Type 0) (answers : Answers) (rows : List OutboxRow) (b : Broker)
    → All P rows
    → All (λ f. P f.row) (publish_batch answers rows b).0.failed
unfolding publish_batch
failed_rows P answers [] b h = tt
failed_rows P answers (r ∷ rows) b h =
    ground (arith, failed_rows P answers rows (publish answers (record_of r) b).1 h.1)

delete_Below :
    (P : OutboxRow → Type 0) (ids : List ℕ) (rows : List OutboxRow)
    → All P rows
    → All P (delete_rows ids rows)
unfolding delete_rows
delete_Below P ids rows h = All-filter P (λ r. not (mem_id r.id ids)) rows h

bump_Below :
    (max_attempts now : ℕ) (ids : List ℕ) (rows : List OutboxRow)
    → All (Below max_attempts) rows
    → Spared max_attempts rows ids
    → All (Below max_attempts) (bump_rows now ids rows)
unfolding bump_rows
bump_Below max_attempts now ids [] h s = tt
bump_Below max_attempts now ids (r ∷ rows) h s =
    ground (arith, bump_Below max_attempts now ids rows h.1 s.1)

All-both :
    (P Q R : OutboxRow → Type 0) (rows : List OutboxRow)
    → ((r : OutboxRow) → P r → Q r → R r)
    → All P rows
    → All Q rows
    → All R rows
All-both P Q R [] f h k = tt
All-both P Q R (r ∷ rows) f h k = (f r h.0 k.0, All-both P Q R rows f h.1 k.1)

-- by a primary key each row is the only one with its id
Distinct-Only :
    (rows : List OutboxRow) → Distinct row_id ascending rows → All (λ r. Only r rows) rows
Distinct-Only [] d = tt
Distinct-Only (x ∷ rows) d = (
  (
    λ e. refl,
    All-map (λ y. y.id ≢ x.id) (λ y. y.id ≡ x.id → y ≡ x) rows (λ y n e. absurd (n e)) d.0,
  ),
  All-both (λ y. y.id ≢ x.id) (λ r. Only r rows) (λ r. Only r (x ∷ rows)) rows
      (λ r n only. (λ e. absurd (n (sym e)), only)) d.0 (Distinct-Only rows d.1),
)

classified-Spared :
    (answers : Answers) (locked : List ℕ) (size max_attempts now : ℕ) (b : Broker)
    (rows : List OutboxRow) (r : OutboxRow)
    → Only r rows
    → let p = publish_batch answers (claim_rows now locked size rows) b in
      mem_id r.id (classify_failures max_attempts p.0.failed).bump ≡ true
      → r.attempts + 1 < max_attempts
classified-Spared answers locked size max_attempts now b rows r only h =
    let batch = claim_rows now locked size rows in
    let fs = (publish_batch answers batch b).0.failed in
    bumped_attempts max_attempts r fs
      (All-map (λ f. f.row.id ≡ r.id → f.row ≡ r)
        (λ f. f.row.id ≡ r.id → f.row.attempts ≡ r.attempts) fs
        (λ f same_row e. ap (λ (s : OutboxRow). s.attempts) (same_row e))
        (failed_rows (λ s. s.id ≡ r.id → s ≡ r) answers batch b
          (claim-Only r now locked size rows only)))
      h

-- In a table whose rows have different ids and have made fewer attempts than MaxAttempts, every row
-- that a call of DrainBatch leaves has made fewer attempts than that, whichever calls fail.
pub drain_batch_attempts :
    (answers : Answers) (locked : List ℕ) (size max_attempts : ℕ) (w : World) (b : Broker)
    → Distinct row_id ascending w.db.outbox
    → All (Below max_attempts) w.db.outbox
    → All (Below max_attempts) (drain_batch answers locked size max_attempts w b).0.1.db.outbox
unfolding claimed_batch settled left_rows
drain_batch_attempts answers locked size max_attempts w b d h =
    elim (drain_batch_outcome answers locked size max_attempts w b) [
      | inl (untouched, failed) ↦
          subst (λ (db : Db). All (Below max_attempts) db.outbox) (sym untouched) h
      | inr (done, broker) ↦
          let p = publish_batch answers (claimed_batch locked size w) b in
          let f = classify_failures max_attempts p.0.failed in
          subst (λ (db : Db). All (Below max_attempts) db.outbox) (sym done)
            (delete_Below (Below max_attempts) (map failed_id f.dead)
              (bump_rows w.clock f.bump (delete_rows p.0.sent w.db.outbox))
              (bump_Below max_attempts w.clock f.bump (delete_rows p.0.sent w.db.outbox)
                (delete_Below (Below max_attempts) p.0.sent w.db.outbox h)
                (delete_Below (λ r. mem_id r.id f.bump ≡ true → r.attempts + 1 < max_attempts)
                  p.0.sent w.db.outbox
                  (All-map (λ r. Only r w.db.outbox)
                    (λ r. mem_id r.id f.bump ≡ true → r.attempts + 1 < max_attempts) w.db.outbox
                    (λ r only.
                      classified-Spared answers locked size max_attempts w.clock b w.db.outbox r
                        only)
                    (Distinct-Only w.db.outbox d)))))
    ]

-- The rows that publishBatch tries.
pub record Tried (batch : List OutboxRow) (before : Broker) (p : Published) (after_it : Broker)
    : Type 0 where
  pub called : after_it.calls ≡ before.calls + (length p.sent + length p.failed)
  pub within : length p.sent + length p.failed ≤ length batch
  pub taken_more : length after_it.taken ≡ length before.taken + length p.sent
  pub stopped :
      (max_attempts : ℕ)
      → (is_some (classify_failures max_attempts p.failed).transient ≡ false)
      → length p.sent + length p.failed ≡ length batch

sent_Tried :
    (r : OutboxRow) (rows : List OutboxRow) (b : Broker) (p : Published) (b' : Broker)
    → Tried rows (answered none (record_of r) b) p b'
    → Tried (r ∷ rows) b (add_sent r p) b'
sent_Tried r rows b p b' t = record {
  called = omega (arith, t.called);
  within = omega (arith, t.within);
  taken_more = omega (arith, t.taken_more);
  stopped = λ m h. omega (arith, t.stopped m h);
}

failed_Tried :
    (r : OutboxRow) (e : GoError) (rows : List OutboxRow) (b : Broker) (p : Published) (b' : Broker)
    → is undeliverable e ≡ true
    → Tried rows (answered (some e) (record_of r) b) p b'
    → Tried (r ∷ rows) b (add_failed r e p) b'
unfolding classify_failures
failed_Tried r e rows b p b' u t = record {
  called = omega (arith, t.called);
  within = omega (arith, t.within);
  taken_more = omega (arith, t.taken_more);
  stopped = λ m h. ground (arith, t.stopped m);
}

stopped_Tried :
    (r : OutboxRow) (e : GoError) (rows : List OutboxRow) (b : Broker)
    → is undeliverable e ≡ false
    → Tried (r ∷ rows) b (add_failed r e none_published) (answered (some e) (record_of r) b)
unfolding classify_failures
stopped_Tried r e rows b u = record {
  called = omega arith;
  within = omega arith;
  taken_more = omega arith;
  stopped = λ m h. ground arith;
}

-- publishBatch calls the broker once for each row that it sends or fails, at most once for a row of
-- the batch, the broker takes one record for each row sent, and a batch is left before its end only
-- with a transient error that classifyFailures returns.
pub publish_batch-Tried :
    (answers : Answers) (batch : List OutboxRow) (b : Broker)
    → let p = publish_batch answers batch b in Tried batch b p.0 p.1
unfolding publish_batch publish
publish_batch-Tried answers [] b = record {
  called = omega arith;
  within = omega arith;
  taken_more = omega arith;
  stopped = λ m h. refl;
}
publish_batch-Tried answers (r ∷ rows) b =
    go answer refl (publish_batch-Tried answers rows (behind answer))
  where
    behind : Option GoError → Broker
    behind a = answered a (record_of r) b

    answer : Option GoError
    answer = answers b.calls (record_of r)

    rest : Published × Broker
    rest = publish_batch answers rows (behind answer)

    failing : Bool → GoError → Published × Broker
    failing u e =
        if u
        then (add_failed r e rest.0, rest.1)
        else (add_failed r e none_published, behind answer)

    by_kind :
        (u : Bool) (e : GoError)
        → is undeliverable e ≡ u
        → answer ≡ some e
        → Tried rows (behind (some e)) rest.0 rest.1
        → Tried (r ∷ rows) b (failing u e).0 (failing u e).1
    by_kind true e k a t = failed_Tried r e rows b rest.0 rest.1 k t
    by_kind false e k a t =
        subst (λ x. Tried (r ∷ rows) b (add_failed r e none_published) (behind x)) (sym a)
          (stopped_Tried r e rows b k)

    step : Option GoError → Published × Broker
    step none = (add_sent r rest.0, rest.1)
    step (some e) = failing (is undeliverable e) e

    go :
        (a : Option GoError)
        → answer ≡ a
        → Tried rows (behind answer) rest.0 rest.1
        → Tried (r ∷ rows) b (step a).0 (step a).1
    go none k t =
        sent_Tried r rows b rest.0 rest.1 (subst (λ x. Tried rows (behind x) rest.0 rest.1) k t)
    go (some e) k t =
        by_kind (is undeliverable e) e refl k (subst (λ x. Tried rows (behind x) rest.0 rest.1) k t)
