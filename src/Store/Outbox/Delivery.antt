-- ===== src/Store/Outbox/Delivery.antt =====
-- Where a row of the outbox is after DrainBatch: internal/store/outbox.go.
use storefront.Common.{
  All, All-filter, All-take, Bool, Bool-cases, List, Option, [], any, ap, arith, false, filter,
  if◌then◌else◌, inl, inr, map, none, not, refl, some, subst, subst₂, sym, true, ℕ, ◌&&◌, ◌==◌, ◌∙◌,
  ◌∷◌, ◌≡◌, ◌⊎◌,
}
use storefront.Domain.Pages.{Uuid}
use storefront.Errors.{GoError, is, undeliverable}
use storefront.Events.{Record}
use storefront.Store.Outbox.{
  Answers, Broker, FailedRow, Failures, Published, add_failed, add_sent, classify_failures,
  dead_row, drain_batch, failed_id, none_published, publish, publish_batch, record_of,
}
use storefront.Store.Outbox.Batch.{
  claimed_batch, dead_added, drain_batch_outcome, left_rows, settled,
}
use storefront.Store.Paging.{All-order_by}
use storefront.Store.Schema.{Db, DeadRow, OutboxRow}
use storefront.Store.Sql.Keyset.{ascending, order_by}
use storefront.Store.Sql.Outbox.{bump_rows, claim_rows, delete_rows, is_due, mem_id, row_id}
use storefront.Store.Tx.{World}

-- `r` is the only row with its id, as of a primary key
abbrev pub Only : OutboxRow → List OutboxRow → Type 0
Only r rows = All (λ s. s.id ≡ r.id → s ≡ r) rows

unfoldable pub has_row : ℕ → List OutboxRow → Bool
has_row id rows = any (λ s. s.id == id) rows

unfoldable pub has_dead : ℕ → List DeadRow → Bool
has_dead id rows = any (λ s. s.id == id) rows

unfoldable pub was_taken : Uuid → Broker → Bool
was_taken m b = any (λ r. r.message_id == m) b.taken

publish_keeps :
    (answers : Answers) (m : Uuid) (r : Record) (b : Broker)
    → was_taken m b ≡ true
    → was_taken m (publish answers r b).1 ≡ true
unfolding was_taken publish
publish_keeps answers m r b h = ground arith

publish_batch-keeps :
    (answers : Answers) (m : Uuid) (rows : List OutboxRow) (b : Broker)
    → was_taken m b ≡ true
    → was_taken m (publish_batch answers rows b).1 ≡ true
unfolding publish_batch
publish_batch-keeps answers m [] b h = h
publish_batch-keeps answers m (r ∷ rows) b h = ground (
  arith,
  publish_keeps answers m (record_of r) b h,
  publish_batch-keeps answers m rows (publish answers (record_of r) b).1,
)

publish_takes :
    (answers : Answers) (r : Record) (b : Broker)
    → (publish answers r b).0 ≡ none
    → was_taken r.message_id (publish answers r b).1 ≡ true
unfolding was_taken publish
publish_takes answers r b h = ground arith

-- what was sent has been taken
sent_taken :
    (answers : Answers) (r : OutboxRow) (rows : List OutboxRow) (b : Broker)
    → Only r rows
    → mem_id r.id (publish_batch answers rows b).0.sent ≡ true
    → was_taken r.message_id (publish_batch answers rows b).1 ≡ true
unfolding publish_batch
sent_taken answers r [] b only h = cc
sent_taken answers r (s ∷ rows) b only h =
    go (publish answers (record_of s) b).0 (publish_takes answers (record_of s) b)
      (sent_taken answers r rows (publish answers (record_of s) b).1 only.1) h
  where
    b' : Broker
    b' = (publish answers (record_of s) b).1

    rest : Published × Broker
    rest = publish_batch answers rows b'

    of_answer : Option GoError → Published × Broker
    of_answer none = (add_sent s rest.0, rest.1)
    of_answer (some e) =
        if is undeliverable e
        then (add_failed s e rest.0, rest.1)
        else (add_failed s e none_published, b')

    go :
        (answer : Option GoError)
        → (answer ≡ none → was_taken s.message_id b' ≡ true)
        → (mem_id r.id rest.0.sent ≡ true → was_taken r.message_id rest.1 ≡ true)
        → mem_id r.id (of_answer answer).0.sent ≡ true
        → was_taken r.message_id (of_answer answer).1 ≡ true
    go none took later h = elim (Bool-cases (s.id == r.id)) [
      | inl e ↦
          let same_row : s ≡ r = only.0 (ground arith) in
          publish_batch-keeps answers r.message_id rows b'
            (subst (λ (t : OutboxRow). was_taken t.message_id b' ≡ true) same_row (took refl))
      | inr e ↦ later (ground arith)
    ]
    go (some e) took later h = ground (arith, later)

pub claim-Only :
    (r : OutboxRow) (now : ℕ) (locked : List ℕ) (n : ℕ) (rows : List OutboxRow)
    → Only r rows
    → Only r (claim_rows now locked n rows)
unfolding claim_rows
claim-Only r now locked n rows only =
    let due = λ (s : OutboxRow). is_due now s && not (mem_id s.id locked) in
    let P = λ (s : OutboxRow). s.id ≡ r.id → s ≡ r in
    All-take P n (order_by row_id ascending (filter due rows))
      (All-order_by row_id ascending P (filter due rows) (All-filter P due rows only))

delete_keeps :
    (id : ℕ) (ids : List ℕ) (rows : List OutboxRow)
    → mem_id id ids ≡ false
    → has_row id (delete_rows ids rows) ≡ has_row id rows
unfolding delete_rows has_row
delete_keeps id ids [] h = refl
delete_keeps id ids (r ∷ rows) h = ground (arith, delete_keeps id ids rows h)

bump_keeps :
    (id now : ℕ) (ids : List ℕ) (rows : List OutboxRow)
    → has_row id (bump_rows now ids rows) ≡ has_row id rows
unfolding bump_rows has_row
bump_keeps id now ids [] = refl
bump_keeps id now ids (r ∷ rows) = ground (arith, bump_keeps id now ids rows)

dead_added-keeps :
    (id : ℕ) (fs : List FailedRow) (dead : List DeadRow)
    → has_dead id dead ≡ true
    → has_dead id (dead_added fs dead) ≡ true
unfolding dead_added has_dead
dead_added-keeps id [] dead h = h
dead_added-keeps id (f ∷ fs) dead h = dead_added-keeps id fs (dead_row f ∷ dead) (ground arith)

dead_added-has :
    (id : ℕ) (fs : List FailedRow) (dead : List DeadRow)
    → mem_id id (map failed_id fs) ≡ true
    → has_dead id (dead_added fs dead) ≡ true
unfolding dead_added has_dead
dead_added-has id [] dead h = cc
dead_added-has id (f ∷ fs) dead h = elim (Bool-cases (f.row.id == id)) [
  | inl e ↦ dead_added-keeps id fs (dead_row f ∷ dead) (ground arith)
  | inr e ↦ dead_added-has id fs (dead_row f ∷ dead) (ground arith)
]

-- where a row is after the call
abbrev pub Accounted : OutboxRow → Db → Broker → Type 0
Accounted r db b =
    (has_row r.id db.outbox ≡ true)
    ⊎ (was_taken r.message_id b ≡ true)
    ⊎ (has_dead r.id db.dead ≡ true)

settled-Accounted :
    (r : OutboxRow) (now : ℕ) (sent : List ℕ) (f : Failures) (db : Db) (b : Broker)
    → has_row r.id db.outbox ≡ true
    → (mem_id r.id sent ≡ true → was_taken r.message_id b ≡ true)
    → Accounted r (settled now sent f db) b
unfolding settled left_rows
settled-Accounted r now sent f db b h taken = elim (Bool-cases (mem_id r.id sent)) [
  | inl e ↦ inr (inl (taken e))
  | inr e ↦ elim (Bool-cases (mem_id r.id (map failed_id f.dead))) [
    | inl d ↦ inr (inr (dead_added-has r.id f.dead db.dead d))
    | inr d ↦ inl (
        delete_keeps r.id (map failed_id f.dead) (bump_rows now f.bump (delete_rows sent db.outbox))
          d
        ∙ bump_keeps r.id now f.bump (delete_rows sent db.outbox)
        ∙ delete_keeps r.id sent db.outbox e
        ∙ h)
  ]
]

-- Whatever call of the database or of the broker fails: a row of the outbox that alone has its id is
-- after a call of DrainBatch still in the outbox, or the broker has taken its record, or it stands in
-- outbox_dead.
pub no_event_lost :
    (answers : Answers) (locked : List ℕ) (size max_attempts : ℕ) (w : World) (b : Broker)
    (r : OutboxRow)
    → Only r w.db.outbox
    → has_row r.id w.db.outbox ≡ true
    → let out = drain_batch answers locked size max_attempts w b in Accounted r out.0.1.db out.1
unfolding claimed_batch
no_event_lost answers locked size max_attempts w b r only h =
    let batch = claimed_batch locked size w in
    let p = publish_batch answers batch b in
    elim (drain_batch_outcome answers locked size max_attempts w b) [
      | inl (untouched, failed) ↦ inl (ap (λ (db : Db). has_row r.id db.outbox) untouched ∙ h)
      | inr (done, broker) ↦ subst₂ (Accounted r) (sym done) (sym broker) (
          settled-Accounted r w.clock p.0.sent (classify_failures max_attempts p.0.failed) w.db p.1
            h (sent_taken answers r batch b (claim-Only r w.clock locked size w.db.outbox only)))
    ]
