-- ===== src/Store/Outbox/Progress.antt =====
-- DrainBatch while no call fails and the broker takes what it is given: internal/store/outbox.go.
use storefront.Common.{
  All, All-filter, Bool, List, Option, [], ap, arith, drop, filter, if◌then◌else◌, length, ltb, map,
  none, not, refl, some, subst, suc, sym, take, true, zero, ℕ, ◌&&◌, ◌<◌, ◌==◌, ◌∙◌, ◌∷◌, ◌≡◌, ◌≢◌,
}
use storefront.Errors.{GoError, is, undeliverable}
use storefront.Events.{Record}
use storefront.Store.Outbox.{
  Answers, Broker, Drained, Published, add_failed, add_sent, answered, bump_attempts, claim_outbox,
  classify_failures, dead_letter, delete_outbox, drain_batch, insert_dead_rows, none_published,
  nothing_due, publish, publish_batch, record_of,
}
use storefront.Store.Outbox.Batch.{delete_rows-nil}
use storefront.Store.Paging.{
  Distinct, IsSorted, ascending-IsOrder, filter-order_by, order_by-IsSorted,
}
use storefront.Store.Schema.{OutboxRow}
use storefront.Store.Sql.Keyset.{ascending, order_by}
use storefront.Store.Sql.Outbox.{claim_rows, delete_rows, is_due, mem_id, row_id}
use storefront.Store.Tx.{World, exec}

-- the broker takes every record
abbrev pub TakesAll : Answers → Type 0
TakesAll answers = (n : ℕ) (r : Record) → answers n r ≡ none

-- the broker behind the records of the rows
unfoldable pub all_taken : List OutboxRow → Broker → Broker
all_taken [] b = b
all_taken (r ∷ rows) b = all_taken rows (answered none (record_of r) b)

publish_all :
    (answers : Answers) (rows : List OutboxRow) (b : Broker)
    → TakesAll answers
    → publish_batch answers rows b
      ≡ (record { sent = map row_id rows; failed = [] }, all_taken rows b)
unfolding publish_batch publish all_taken
publish_all answers [] b takes = refl
publish_all answers (r ∷ rows) b takes =
    ap answered_row (ap (λ a. (a, answered a (record_of r) b)) (takes b.calls (record_of r)))
    ∙ ap (λ (rest : Published × Broker). (add_sent r rest.0, rest.1))
        (publish_all answers rows (answered none (record_of r) b) takes)
  where
    answered_row : Option GoError × Broker → Published × Broker
    answered_row (answer, b') =
        let rest = publish_batch answers rows b' in
        elim answer [
          | none ↦ (add_sent r rest.0, rest.1)
          | some e ↦
              if is undeliverable e
              then (add_failed r e rest.0, rest.1)
              else (add_failed r e none_published, b')
        ]

-- the rows in the order in which they are claimed
abbrev pub queue : World → List OutboxRow
queue w = order_by row_id ascending w.db.outbox

-- Nothing will fail, and the rows have different ids and are due.
pub record IsReady (w : World) : Type 0 where
  pub calm : w.faults ≡ []
  pub distinct : Distinct row_id ascending w.db.outbox
  pub due : All (λ r. is_due w.clock r ≡ true) w.db.outbox

all_due :
    (now : ℕ) (rows : List OutboxRow)
    → All (λ r. is_due now r ≡ true) rows
    → filter (λ r. is_due now r && not (mem_id r.id [])) rows ≡ rows
all_due now [] h = refl
all_due now (r ∷ rows) h = rw h.0 (ap (λ t. r ∷ t) (all_due now rows h.1))

claim_due :
    (size : ℕ) (w : World)
    → IsReady w
    → claim_rows w.clock [] size w.db.outbox ≡ take size (queue w)
unfolding claim_rows
claim_due size w ready =
    ap (λ rows. take size (order_by row_id ascending rows)) (all_due w.clock w.db.outbox ready.due)

delete_other :
    (x : ℕ) (ids : List ℕ) (rows : List OutboxRow)
    → All (λ r. ltb x r.id ≡ true) rows
    → delete_rows (x ∷ ids) rows ≡ delete_rows ids rows
unfolding delete_rows
delete_other x ids [] h = refl
delete_other x ids (r ∷ rows) h = ground (arith, delete_other x ids rows h.1, h.0)

-- deleting the first n rows in order leaves the others
delete_taken :
    (n : ℕ) (rows : List OutboxRow)
    → IsSorted row_id ascending rows
    → delete_rows (map row_id (take n rows)) rows ≡ drop n rows
delete_taken zero rows s = delete_rows-nil rows
delete_taken (suc n) [] s = delete_rows-nil []
delete_taken (suc n) (r ∷ rows) s =
    first_deleted ∙ delete_other r.id (map row_id (take n rows)) rows s.0 ∙ delete_taken n rows s.1
  where
    ids : List ℕ
    ids = r.id ∷ map row_id (take n rows)

    first_deleted : delete_rows ids (r ∷ rows) ≡ delete_rows ids rows
    first_deleted = unfold delete_rows in ground arith

Distinct-filter :
    (p : OutboxRow → Bool) (rows : List OutboxRow)
    → Distinct row_id ascending rows
    → Distinct row_id ascending (filter p rows)
Distinct-filter p [] d = tt
Distinct-filter p (r ∷ rows) d =
    ground (arith, All-filter (λ s. s.id ≢ r.id) p rows d.0, Distinct-filter p rows d.1)

-- the world behind a batch that is delivered
abbrev delivered : List OutboxRow → World → World
delivered batch w = record w {
  db = record w.db { outbox = delete_rows (map row_id batch) w.db.outbox };
  faults = [];
}

delivered-IsReady : (batch : List OutboxRow) (w : World) → IsReady w → IsReady (delivered batch w)
unfolding delete_rows
delivered-IsReady batch w ready = record {
  calm = refl;
  distinct = Distinct-filter (λ r. not (mem_id r.id (map row_id batch))) w.db.outbox ready.distinct;
  due =
      All-filter (λ r. is_due w.clock r ≡ true) (λ r. not (mem_id r.id (map row_id batch)))
        w.db.outbox ready.due;
}

delivered-queue :
    (n : ℕ) (w : World) → IsReady w → queue (delivered (take n (queue w)) w) ≡ drop n (queue w)
unfolding delete_rows
delivered-queue n w ready =
    filter-order_by row_id ascending ascending-IsOrder
      (λ r. not (mem_id r.id (map row_id (take n (queue w))))) w.db.outbox ready.distinct
    ∙ delete_taken n (queue w)
        (order_by-IsSorted row_id ascending ascending-IsOrder w.db.outbox ready.distinct)

drop_of_take_nil : (n : ℕ) (rows : List OutboxRow) → 0 < n → take n rows ≡ [] → drop n rows ≡ rows
drop_of_take_nil zero rows h e = absurd (omega arith)
drop_of_take_nil (suc n) [] h e = refl
drop_of_take_nil (suc n) (r ∷ rows) h e = cc

module _ (answers : Answers) (takes : TakesAll answers) (size max_attempts : ℕ) where
  deliver :
      (r : OutboxRow) (rows : List OutboxRow) (w : World) (b : Broker)
      → claim_rows w.clock [] size w.db.outbox ≡ r ∷ rows
      → drain_batch answers [] size max_attempts (record w { faults = [] }) b ≡ (
        (
          record {
            published = length (map row_id (r ∷ rows));
            full = length (r ∷ rows) == size;
            error = none;
          },
          delivered (r ∷ rows) w,
        ),
        all_taken (r ∷ rows) b,
      )
  unfolding drain_batch claim_outbox exec delete_outbox bump_attempts dead_letter insert_dead_rows
      classify_failures
  deliver r rows w b e = rw (e, publish_all answers (r ∷ rows) b takes) refl

  drain_idle :
      (w : World) (b : Broker)
      → claim_rows w.clock [] size w.db.outbox ≡ []
      → drain_batch answers [] size max_attempts (record w { faults = [] }) b
        ≡ ((nothing_due, record w { faults = [] }), b)
  unfolding drain_batch claim_outbox exec
  drain_idle w b e = rw e refl

  -- One batch: what is claimed is the front of the queue, and it is gone from it behind the call.
  pub drain_step :
      (w : World) (b : Broker)
      → 0 < size
      → IsReady w
      → let out = drain_batch answers [] size max_attempts w b in
        let batch = take size (queue w) in
        (out.0.0.error ≡ none)
        × (out.0.0.full ≡ (length batch == size))
        × (queue out.0.1 ≡ drop size (queue w))
        × (out.1 ≡ all_taken batch b)
        × IsReady out.0.1
  drain_step w b nonzero ready =
      subst
        (λ (v : World). Goal (take size (queue w)) (drain_batch answers [] size max_attempts v b))
        (λ i. record w { faults = sym ready.calm i }) (go (take size (queue w)) refl)
    where
      Goal : List OutboxRow → (Drained × World) × Broker → Type 0
      Goal batch out =
          (out.0.0.error ≡ none)
          × (out.0.0.full ≡ (length batch == size))
          × (queue out.0.1 ≡ drop size (queue w))
          × (out.1 ≡ all_taken batch b)
          × IsReady out.0.1

      go :
          (batch : List OutboxRow)
          → take size (queue w) ≡ batch
          → Goal batch (drain_batch answers [] size max_attempts (record w { faults = [] }) b)
      go [] e = subst (Goal []) (sym (drain_idle w b (claim_due size w ready ∙ e))) (
        refl,
        ground arith,
        sym (drop_of_take_nil size (queue w) nonzero e),
        unfold all_taken in refl,
        record { calm = refl; distinct = ready.distinct; due = ready.due },
      )
      go (r ∷ rows) e =
          subst (Goal (r ∷ rows)) (sym (deliver r rows w b (claim_due size w ready ∙ e))) (
            refl,
            refl,
            ap (λ batch. queue (delivered batch w)) (sym e) ∙ delivered-queue size w ready,
            refl,
            delivered-IsReady (r ∷ rows) w ready,
          )
