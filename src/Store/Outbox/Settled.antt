-- ===== src/Store/Outbox/Settled.antt =====
-- publishBatch and classifyFailures beside the fates of the claimed rows: internal/store/outbox.go.
use storefront.Common.{
  Bool, List, Option, [], ap, arith, false, if◌then◌else◌, inl, inr, is_some, leb, map, none, refl,
  some, subst, subst₂, true, ℕ, ◌+◌, ◌∙◌, ◌∷◌, ◌≡◌, ◌⊎◌,
}
use storefront.Errors.{GoError, is, undeliverable}
use storefront.Events.{Record}
use storefront.Store.Outbox.{
  Answers, Broker, Failures, Published, add_failed, add_sent, answered, classify_failures, dead_row,
  drain_batch, failed_id, none_published, publish, publish_batch, record_of,
}
use storefront.Store.Outbox.Batch.{
  claimed_batch, dead_added, drain_batch_outcome, left_rows, settled,
}
use storefront.Store.Outbox.Fates.{
  Fate, buried, dead_left, ends_batch, fate_of, fates, had, is_buried, is_retried, is_taken,
  next_attempt, retried, rows_left, spared, taken, taken_by,
}
use storefront.Store.Schema.{Db, DeadRow, OutboxRow}
use storefront.Store.Sql.Outbox.{bump_rows, claim_rows, delete_rows, mem_id, retry_delay}
use storefront.Store.Tx.{World}

publish-calls :
    (answers : Answers) (r : Record) (b : Broker) → (publish answers r b).1.calls ≡ b.calls + 1
unfolding publish
publish-calls answers r b = by_answer (answers b.calls r)
  where
    by_answer : (a : Option GoError) → (answered a r b).calls ≡ b.calls + 1
    by_answer none = refl
    by_answer (some e) = refl

-- what is sent, failed and classified, by the fates of the rows
record Agrees (max_attempts : ℕ) (records : List Record) (p : Published × Broker)
    (fs : List (OutboxRow × Fate)) : Type 0 where
  sent : (id : ℕ) → mem_id id p.0.sent ≡ had is_taken id fs
  retried_ids :
      (id : ℕ) → mem_id id (classify_failures max_attempts p.0.failed).bump ≡ had is_retried id fs
  buried_ids :
      (id : ℕ)
      → mem_id id (map failed_id (classify_failures max_attempts p.0.failed).dead)
        ≡ had is_buried id fs
  dead_rows :
      (dead : List DeadRow)
      → dead_added (classify_failures max_attempts p.0.failed).dead dead ≡ dead_left fs dead
  given : p.1.taken ≡ taken_by fs records

module _ (answers : Answers) (max_attempts : ℕ) where
  -- what follows the answer to the first row
  abbrev published_after : OutboxRow → List OutboxRow → Broker → Option GoError → Published × Broker
  published_after r rows b answer =
      let b' = answered answer (record_of r) b in
      let rest = publish_batch answers rows b' in
      elim answer [
        | none ↦ (add_sent r rest.0, rest.1)
        | some e ↦
            if is undeliverable e
            then (add_failed r e rest.0, rest.1)
            else (add_failed r e none_published, b')
      ]

  abbrev fates_after : OutboxRow → List OutboxRow → ℕ → Option GoError → List (OutboxRow × Fate)
  fates_after r rows n answer =
      let fate = fate_of max_attempts r answer in
      let rest = fates answers max_attempts (n + 1) rows in
      (r, fate) ∷ (if ends_batch fate then [] else rest)

  none_follows :
      (r : OutboxRow) (rest : Published × Broker) (fs : List (OutboxRow × Fate))
      (records : List Record)
      → Agrees max_attempts (record_of r ∷ records) rest fs
      → Agrees max_attempts records (add_sent r rest.0, rest.1) ((r, taken) ∷ fs)
  unfolding had dead_left taken_by
  none_follows r rest fs records a = record {
    sent = λ id. ground (arith, a.sent id);
    retried_ids = λ id. ground (arith, a.retried_ids id);
    buried_ids = λ id. ground (arith, a.buried_ids id);
    dead_rows = a.dead_rows;
    given = a.given;
  }

  -- a rejected row is retried or buried, and the batch goes on
  rejected_follows :
      (r : OutboxRow) (e : GoError) (rest : Published × Broker) (fs : List (OutboxRow × Fate))
      (records : List Record) (last : Bool)
      → is undeliverable e ≡ true
      → leb max_attempts (r.attempts + 1) ≡ last
      → Agrees max_attempts records rest fs
      → Agrees max_attempts records
          (add_failed r e rest.0, rest.1)
          ((r, if last then buried e else retried) ∷ fs)
  unfolding had dead_left taken_by classify_failures dead_added
  rejected_follows r e rest fs records true u l a = record {
    sent = λ id. ground (arith, a.sent id);
    retried_ids = λ id. rw u (rw l (ground (arith, a.retried_ids id)));
    buried_ids = λ id. rw u (rw l (ground (arith, a.buried_ids id)));
    dead_rows = λ dead. rw u (rw l (a.dead_rows (dead_row (record { row = r; cause = e }) ∷ dead)));
    given = a.given;
  }
  rejected_follows r e rest fs records false u l a = record {
    sent = λ id. ground (arith, a.sent id);
    retried_ids = λ id. rw u (rw l (ground (arith, a.retried_ids id)));
    buried_ids = λ id. rw u (rw l (ground (arith, a.buried_ids id)));
    dead_rows = λ dead. rw u (rw l (a.dead_rows dead));
    given = a.given;
  }

  -- a row that finds the broker out of reach ends the batch
  outage_follows :
      (r : OutboxRow) (e : GoError) (b : Broker) (records : List Record)
      → is undeliverable e ≡ false
      → b.taken ≡ records
      → Agrees max_attempts records (add_failed r e none_published, b) ((r, spared) ∷ [])
  unfolding had dead_left taken_by classify_failures dead_added
  outage_follows r e b records u given = record {
    sent = λ id. ground arith;
    retried_ids = λ id. rw u (ground arith);
    buried_ids = λ id. rw u (ground arith);
    dead_rows = λ dead. rw u refl;
    given = given;
  }

  publish_batch-Agrees :
      (rows : List OutboxRow) (n : ℕ) (b : Broker)
      → b.calls ≡ n
      → Agrees max_attempts b.taken
          (publish_batch answers rows b)
          (fates answers max_attempts n rows)
  unfolding publish_batch publish fates fate_of had dead_left taken_by classify_failures dead_added
  publish_batch-Agrees [] n b c = record {
    sent = λ id. refl;
    retried_ids = λ id. refl;
    buried_ids = λ id. refl;
    dead_rows = λ dead. refl;
    given = refl;
  }
  publish_batch-Agrees (r ∷ rows) n b c =
      subst
        (λ k.
          Agrees max_attempts b.taken (published_after r rows b (answers b.calls (record_of r)))
            (fates_after r rows n (answers k (record_of r))))
        c (by_answer (publish_batch-Agrees rows (n + 1)) (answers b.calls (record_of r)))
    where
      Rest : Type 0
      Rest =
          (b' : Broker)
          → b'.calls ≡ n + 1
          → Agrees max_attempts b'.taken (publish_batch answers rows b')
              (fates answers max_attempts (n + 1) rows)

      rejected :
          Rest
          → (e : GoError) (u last : Bool) → is undeliverable e ≡ u
          → leb max_attempts (r.attempts + 1) ≡ last
          → Agrees max_attempts b.taken
              (published_after r rows b (some e))
              (fates_after r rows n (some e))
      rejected later e false last u l =
          rw u (outage_follows r e (answered (some e) (record_of r) b) b.taken u refl)
      rejected later e true true u l = rw u (
          rw l (
            rejected_follows r e (publish_batch answers rows (answered (some e) (record_of r) b))
              (fates answers max_attempts (n + 1) rows) b.taken true u l
              (later (answered (some e) (record_of r) b) (ap (λ k. k + 1) c))))
      rejected later e true false u l = rw u (
          rw l (
            rejected_follows r e (publish_batch answers rows (answered (some e) (record_of r) b))
              (fates answers max_attempts (n + 1) rows) b.taken false u l
              (later (answered (some e) (record_of r) b) (ap (λ k. k + 1) c))))

      by_answer :
          Rest
          → (a : Option GoError)
          → Agrees max_attempts b.taken (published_after r rows b a) (fates_after r rows n a)
      by_answer later none =
          none_follows r (publish_batch answers rows (answered none (record_of r) b))
            (fates answers max_attempts (n + 1) rows) b.taken
            (later (answered none (record_of r) b) (ap (λ k. k + 1) c))
      by_answer later (some e) =
          rejected later e (is undeliverable e) (leb max_attempts (r.attempts + 1)) refl refl

-- the rows that the three statements leave are those that the fates leave
left_rows-by_fates :
    (now : ℕ) (sent : List ℕ) (f : Failures) (fs : List (OutboxRow × Fate))
    → ((id : ℕ) → mem_id id sent ≡ had is_taken id fs)
    → ((id : ℕ) → mem_id id f.bump ≡ had is_retried id fs)
    → ((id : ℕ) → mem_id id (map failed_id f.dead) ≡ had is_buried id fs)
    → (rows : List OutboxRow) → left_rows now sent f rows ≡ rows_left now fs rows
unfolding left_rows delete_rows bump_rows rows_left retry_delay
left_rows-by_fates now sent f fs s u d [] = refl
left_rows-by_fates now sent f fs s u d (r ∷ rows) =
    go (had is_taken r.id fs) (had is_retried r.id fs) (had is_buried r.id fs) refl refl refl
      (left_rows-by_fates now sent f fs s u d rows)
  where
    go :
        (a b c : Bool)
        → had is_taken r.id fs ≡ a
        → had is_retried r.id fs ≡ b
        → had is_buried r.id fs ≡ c
        → left_rows now sent f rows ≡ rows_left now fs rows
        → left_rows now sent f (r ∷ rows) ≡ rows_left now fs (r ∷ rows)
    go true b c t x y rest = rw (s r.id ∙ t) (rw t rest)
    go false true true t x y rest =
        rw (s r.id ∙ t) (rw (u r.id ∙ x) (rw (d r.id ∙ y) (rw t (rw y rest))))
    go false false true t x y rest =
        rw (s r.id ∙ t) (rw (u r.id ∙ x) (rw (d r.id ∙ y) (rw t (rw y rest))))
    go false true false t x y rest = rw (s r.id ∙ t) (
        rw (u r.id ∙ x)
          (rw (d r.id ∙ y) (rw t (rw y (rw x (ap (λ l. next_attempt now r ∷ l) rest))))))
    go false false false t x y rest =
        rw (s r.id ∙ t)
          (rw (u r.id ∙ x) (rw (d r.id ∙ y) (rw t (rw y (rw x (ap (λ l. r ∷ l) rest))))))

-- The tables behind a batch whose rows have had these fates.
abbrev pub Settles : ℕ → List (OutboxRow × Fate) → Db → Db → Type 0
Settles now fs before after_it =
    after_it
    ≡ record before { outbox = rows_left now fs before.outbox; dead = dead_left fs before.dead }

-- Whatever call fails, DrainBatch returns an error and leaves the tables as they were, or every row that
-- it has claimed has had its fate. A row whose record the broker takes is deleted. One whose record the
-- broker rejects for good waits for its next attempt, or, where this was the last of `max_attempts`, is
-- moved to outbox_dead with the error. The first row that finds the broker out of reach ends the batch:
-- it and the rows behind it stay as they were, their attempts included. The broker has then been given
-- the records up to there, in order, and has taken those that it has accepted.
pub drain_batch-Settles :
    (answers : Answers) (locked : List ℕ) (size max_attempts : ℕ) (w : World) (b : Broker)
    → let out = drain_batch answers locked size max_attempts w b in
      let batch = claim_rows w.clock locked size w.db.outbox in
      let fs = fates answers max_attempts b.calls batch in
      ((out.0.1.db ≡ w.db) × (is_some out.0.0.error ≡ true))
      ⊎ (Settles w.clock fs w.db out.0.1.db × (out.1.taken ≡ taken_by fs b.taken))
unfolding settled claimed_batch
drain_batch-Settles answers locked size max_attempts w b =
    elim (drain_batch_outcome answers locked size max_attempts w b) [
      | inl failed ↦ inl failed
      | inr (done, broker) ↦ inr (
        done
            ∙ subst₂
                (λ rows dead.
                  record w.db {
                    outbox = left_rows w.clock p.0.sent f w.db.outbox;
                    dead = dead_added f.dead w.db.dead;
                  }
                  ≡ record w.db { outbox = rows; dead = dead })
                (left_rows-by_fates w.clock p.0.sent f fs a.sent a.retried_ids a.buried_ids
                  w.db.outbox)
                (a.dead_rows w.db.dead) refl,
        ap (λ (x : Broker). x.taken) broker ∙ a.given,
      )
    ]
  where
    batch : List OutboxRow
    batch = claim_rows w.clock locked size w.db.outbox

    p : Published × Broker
    p = publish_batch answers batch b

    f : Failures
    f = classify_failures max_attempts p.0.failed

    fs : List (OutboxRow × Fate)
    fs = fates answers max_attempts b.calls batch

    a : Agrees max_attempts b.taken p fs
    a = publish_batch-Agrees answers max_attempts batch b.calls b refl
