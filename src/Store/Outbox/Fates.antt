-- ===== src/Store/Outbox/Fates.antt =====
-- What should become of a claimed row, by what the broker answers: internal/store/outbox.go.
use storefront.Common.{
  Bool, List, Option, [], any, false, if◌then◌else◌, leb, min, none, not, some, true, ℕ, ◌&&◌, ◌*◌,
  ◌+◌, ◌==◌, ◌^◌, ◌||◌, ◌∷◌,
}
use storefront.Errors.{GoError, is, undeliverable}
use storefront.Events.{Record}
use storefront.Store.Outbox.{Answers, record_of}
use storefront.Store.Schema.{DeadRow, OutboxRow}

-- The broker has taken the row's record; or has rejected it, and the row is tried again later, or never
-- again; or the row has not been settled, since the broker was out of reach.
pub data Fate : Type 0 where
  taken retried spared : Fate
  buried : GoError → Fate

-- a rejection counts as an attempt; the one that makes `max_attempts` is the last
unfoldable pub fate_of : ℕ → OutboxRow → Option GoError → Fate
fate_of max_attempts r none = taken
fate_of max_attempts r (some e) =
    if not (is undeliverable e)
    then spared
    else if leb max_attempts (r.attempts + 1)
    then buried e
    else retried

abbrev pub ends_batch : Fate → Bool
ends_batch spared = true
ends_batch _ = false

-- The rows in their order, by the answer to the n-th call and the following; the first that finds the
-- broker out of reach ends the batch.
unfoldable pub fates : Answers → ℕ → ℕ → List OutboxRow → List (OutboxRow × Fate)
fates answers max_attempts n [] = []
fates answers max_attempts n (r ∷ rows) =
    let fate = fate_of max_attempts r (answers n (record_of r)) in
    let rest = fates answers max_attempts (n + 1) rows in
    (r, fate) ∷ (if ends_batch fate then [] else rest)

-- whether the row with this id has had such a fate
unfoldable pub had : (Fate → Bool) → ℕ → List (OutboxRow × Fate) → Bool
had is_so id fs = any (λ f. f.0.id == id && is_so f.1) fs

abbrev pub is_taken : Fate → Bool
is_taken taken = true
is_taken _ = false

abbrev pub is_retried : Fate → Bool
is_retried retried = true
is_retried _ = false

abbrev pub is_buried : Fate → Bool
is_buried (buried e) = true
is_buried _ = false

-- the row for its next attempt, at an interval that doubles up to 30 seconds
abbrev pub next_attempt : ℕ → OutboxRow → OutboxRow
next_attempt now r = record r {
  attempts = r.attempts + 1;
  next_attempt_at = now + 1000 * min (2 ^ r.attempts) 30;
}

-- the rows of outbox: taken and buried rows go, a retried row waits, every other row is as it was
unfoldable pub rows_left : ℕ → List (OutboxRow × Fate) → List OutboxRow → List OutboxRow
rows_left now fs [] = []
rows_left now fs (r ∷ rows) =
    let rest = rows_left now fs rows in
    if had is_taken r.id fs || had is_buried r.id fs
    then rest
    else if had is_retried r.id fs
    then next_attempt now r ∷ rest
    else r ∷ rest

-- the rows of outbox_dead: a buried row with its last error and one more attempt
unfoldable pub dead_left : List (OutboxRow × Fate) → List DeadRow → List DeadRow
dead_left [] dead = dead
dead_left ((r, buried e) ∷ fs) dead = dead_left fs (
    record {
      id = r.id;
      message_id = r.message_id;
      event_type = r.event_type;
      payload = r.payload;
      attempts = r.attempts + 1;
      created_at = r.created_at;
      last_error = e;
    }
    ∷ dead)
dead_left ((r, _) ∷ fs) dead = dead_left fs dead

-- the records that the broker has taken, the last one first
unfoldable pub taken_by : List (OutboxRow × Fate) → List Record → List Record
taken_by [] records = records
taken_by ((r, taken) ∷ fs) records = taken_by fs (record_of r ∷ records)
taken_by ((r, _) ∷ fs) records = taken_by fs records
