-- ===== src/Store/Outbox.antt =====
-- internal/store/outbox.go: one batch of the relay, and the broker that it publishes to.
pub mod Batch
pub mod Delivery
pub mod Attempts
pub mod Progress
pub mod Fates
pub mod Settled
pub mod Commuting
pub mod Together
use storefront.Common.{
  Bool, List, Option, [], codes, false, if◌then◌else◌, leb, length, map, none, not, some, ℕ, ◌+◌,
  ◌==◌, ◌∷◌,
}
use storefront.Errors.{GoError, Result, err, is, ok, undeliverable, wrap}
use storefront.Events.{Record}
use storefront.Store.Products.{read_clock, wrapped}
use storefront.Store.Schema.{Db, DeadRow, OutboxRow, Sql}
use storefront.Store.Sql.Outbox.{bump_rows, claim_rows, delete_rows, insert_dead}
use storefront.Store.Tx.{
  Tx, World, after_call, exec, fail, lost, next_fault, pass, pure, rollback, ◌>>=◌, ◌>>◌,
}

-- The broker, by the calls that it has got and the records that it has taken.
pub record Broker : Type 0 where
  pub calls : ℕ
  pub taken : List Record

-- What the broker answers to the record of its n-th call: nil or an error.
abbrev pub Answers : Type 0
Answers = ℕ → Record → Option GoError

abbrev pub answered : Option GoError → Record → Broker → Broker
answered none r b = record { calls = b.calls + 1; taken = r ∷ b.taken }
answered (some e) r b = record b { calls = b.calls + 1 }

-- one call of the `publish` that DrainBatch is given
unfoldable pub publish : Answers → Record → Broker → Option GoError × Broker
publish answers r b = (answers b.calls r, answered (answers b.calls r) r b)

-- `failedRow`
pub record FailedRow : Type 0 where
  pub row : OutboxRow
  pub cause : GoError

-- what publishBatch returns
pub record Published : Type 0 where
  pub sent : List ℕ
  pub failed : List FailedRow

abbrev pub record_of : OutboxRow → Record
record_of r = record { message_id = r.message_id; event_type = r.event_type; payload = r.payload }

abbrev pub none_published : Published
none_published = record { sent = []; failed = [] }

abbrev pub add_sent : OutboxRow → Published → Published
add_sent r p = record p { sent = r.id ∷ p.sent }

abbrev pub add_failed : OutboxRow → GoError → Published → Published
add_failed r e p = record p { failed = record { row = r; cause = e } ∷ p.failed }

-- `publishBatch`
unfoldable pub publish_batch : Answers → List OutboxRow → Broker → Published × Broker
publish_batch answers [] b = (none_published, b)
publish_batch answers (r ∷ rs) b =
    let (answer, b') = publish answers (record_of r) b in
    let rest = publish_batch answers rs b' in
    elim answer [
      | none ↦ (add_sent r rest.0, rest.1)
      | some e ↦
          if is undeliverable e
          then (add_failed r e rest.0, rest.1)
          else (add_failed r e none_published, b')
    ]

-- what classifyFailures returns
pub record Failures : Type 0 where
  pub bump : List ℕ
  pub dead : List FailedRow
  pub transient : Option GoError

abbrev pub later_error : Option GoError → GoError → Option GoError
later_error none e = some e
later_error (some e') e = some e'

-- `classifyFailures`, one row at a time: the last transient error is returned
unfoldable pub classify_failures : ℕ → List FailedRow → Failures
classify_failures max_attempts [] = record { bump = []; dead = []; transient = none }
classify_failures max_attempts (f ∷ fs) =
    let rest = classify_failures max_attempts fs in
    if not (is undeliverable f.cause)
    then record rest { transient = later_error rest.transient f.cause }
    else if leb max_attempts (f.row.attempts + 1)
    then record rest { dead = f ∷ rest.dead }
    else record rest { bump = f.row.id ∷ rest.bump }

abbrev pub on_outbox : (List OutboxRow → List OutboxRow) → Sql (Unit {0})
on_outbox f db = ok (tt, record db { outbox = f db.outbox })

-- `deleteOutbox`
unfoldable pub delete_outbox : List ℕ → Tx (Unit {0})
delete_outbox [] = pure tt
delete_outbox (id ∷ ids) =
    wrapped (codes "outbox delete") (exec (on_outbox (delete_rows (id ∷ ids))))

-- `bumpAttempts`
unfoldable pub bump_attempts : List ℕ → Tx (Unit {0})
bump_attempts [] = pure tt
bump_attempts (id ∷ ids) = do
  t ← read_clock
  wrapped (codes "outbox attempts") (exec (on_outbox (bump_rows t (id ∷ ids))))

abbrev pub dead_row : FailedRow → DeadRow
dead_row f = record {
  id = f.row.id;
  message_id = f.row.message_id;
  event_type = f.row.event_type;
  payload = f.row.payload;
  attempts = f.row.attempts + 1;
  created_at = f.row.created_at;
  last_error = f.cause;
}

-- the loop of deadLetter
unfoldable pub insert_dead_rows : List FailedRow → Tx (Unit {0})
insert_dead_rows [] = pure tt
insert_dead_rows (f ∷ fs) = do
  wrapped (codes "outbox dead-letter") (exec (insert_dead (dead_row f)))
  insert_dead_rows fs

abbrev pub failed_id : FailedRow → ℕ
failed_id f = f.row.id

-- `deadLetter`
unfoldable pub dead_letter : List FailedRow → Tx (Unit {0})
dead_letter rows = do insert_dead_rows rows; delete_outbox (map failed_id rows)

-- `claimOutbox`; `locked` are the rows that another relay has locked
unfoldable pub claim_outbox : List ℕ → ℕ → Tx (List OutboxRow)
claim_outbox locked n = do
  t ← read_clock
  wrapped (codes "outbox claim") (exec (λ db. ok (claim_rows t locked n db.outbox, db)))

-- the three statements that settle a published batch
abbrev pub settle_batch : List ℕ → Failures → Tx (Unit {0})
settle_batch sent f = do delete_outbox sent; bump_attempts f.bump; dead_letter f.dead

-- what DrainBatch returns
pub record Drained : Type 0 where
  pub published : ℕ
  pub full : Bool
  pub error : Option GoError

abbrev pub drain_error : GoError → Drained
drain_error e = record { published = 0; full = false; error = some e }

abbrev pub nothing_due : Drained
nothing_due = record { published = 0; full = false; error = none }

-- the commit; `db` are the tables that a failure goes back to
abbrev pub commit_batch : Db → Drained → World → Drained × World
commit_batch db d w = elim (next_fault w.faults) [
  | pass ↦ (d, after_call w)
  | fail e ↦ (drain_error (wrap (codes "outbox commit") e), rollback db (after_call w))
  | lost e ↦ (drain_error (wrap (codes "outbox commit") e), after_call w)
]

abbrev pub finish_batch : Db → Drained → Result (Unit {0}) × World → Drained × World
finish_batch db d (ok u, w) = commit_batch db d w
finish_batch db d (err e, w) = (drain_error e, rollback db w)

abbrev pub drained_batch : ℕ → List OutboxRow → Published → Option GoError → Drained
drained_batch size batch p transient = record {
  published = length p.sent;
  full = length batch == size;
  error = transient;
}

-- DrainBatch behind its claim
abbrev pub drain_claimed :
    Answers → ℕ → ℕ → Db → Result (List OutboxRow) × World → Broker → (Drained × World) × Broker
drain_claimed answers size max_attempts db (err e, w) b = ((drain_error e, rollback db w), b)
drain_claimed answers size max_attempts db (ok [], w) b = ((nothing_due, rollback db w), b)
drain_claimed answers size max_attempts db (ok (r ∷ rs), w) b =
    let (p, b') = publish_batch answers (r ∷ rs) b in
    let f = classify_failures max_attempts p.failed in
    (finish_batch db (drained_batch size (r ∷ rs) p f.transient) (settle_batch p.sent f w), b')

-- `DrainBatch`
unfoldable pub drain_batch : Answers → List ℕ → ℕ → ℕ → World → Broker → (Drained × World) × Broker
drain_batch answers locked size max_attempts w b = elim (next_fault w.faults) [
  | pass ↦ drain_claimed answers size max_attempts w.db (claim_outbox locked size (after_call w)) b
  | fail e ↦ ((drain_error (wrap (codes "outbox begin") e), after_call w), b)
  | lost e ↦ ((drain_error (wrap (codes "outbox begin") e), after_call w), b)
]
