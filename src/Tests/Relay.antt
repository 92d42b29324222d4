-- ===== src/Tests/Relay.antt =====
-- The theorems on the outbox, applied to a batch with a delivery, a poison message and an outage.
use storefront.Common.{
  All, [], arith, codes, false, is_some, map, none, pos, refl, some, suc, true, zero, ℕ, ◌++◌, ◌+◌,
  ◌∷◌, ◌≡◌, ◌⊎◌,
}
use storefront.Errors.{is, message, net_error, sentinel, undeliverable, wrap_both}
use storefront.Events.{Event, type_created}
use storefront.Relay.{Config, awaited, run}
use storefront.Relay.Progress.{drive, relay_empties}
use storefront.Store.Outbox.{
  Answers, Broker, Drained, bump_attempts, claim_outbox, classify_failures, dead_letter,
  delete_outbox, drain_batch, insert_dead_rows, publish, publish_batch,
}
use storefront.Store.Outbox.Attempts.{Below, drain_batch_attempts}
use storefront.Store.Outbox.Batch.{left_rows}
use storefront.Store.Outbox.Delivery.{Accounted, Only, has_row, no_event_lost}
use storefront.Store.Outbox.Fates.{fates, taken_by}
use storefront.Store.Outbox.Progress.{IsReady, all_taken, queue}
use storefront.Store.Outbox.Settled.{Settles, drain_batch-Settles}
use storefront.Store.Outbox.Together.{relays_apart}
use storefront.Store.Paging.{Distinct}
use storefront.Store.Schema.{DeadRow, OutboxRow, empty_db}
use storefront.Store.Sql.Keyset.{ascending, insert_row, order_by}
use storefront.Store.Sql.Outbox.{
  bump_rows, claim_rows, delete_rows, insert_dead, mem_id, retry_delay, row_id,
}
use storefront.Store.Tx.{World, exec}
use storefront.Tests.Data.{empty_world}

abbrev created : Event
created = record {
  event_id = 1001;
  event_type = type_created;
  product_id = 7;
  version = 1;
  occurred_at = 4000;
  quantity = pos 0;
  stock = pos 10;
}

abbrev pending_row : ℕ → ℕ → OutboxRow
pending_row id attempts = record {
  id = id;
  message_id = 1000 + id;
  event_type = type_created;
  payload = created;
  attempts = attempts;
  next_attempt_at = 4000;
  created_at = 4000;
}

abbrev backlog : World
backlog = record empty_world {
  db = record empty_db {
    outbox = pending_row 1 0 ∷ pending_row 2 4 ∷ pending_row 3 0 ∷ pending_row 4 0 ∷ [];
  };
}

-- the broker takes the first record, rejects the second and then fails
abbrev answers : Answers
answers zero r = none
answers (suc zero) r = some (wrap_both (sentinel undeliverable) (message (codes "rejected")))
answers (suc (suc n)) r = some net_error

abbrev outage : Answers
outage zero r = none
outage (suc n) r = some net_error

abbrev idle : Broker
idle = record { calls = 0; taken = [] }

abbrev drained : (Drained × World) × Broker
drained = drain_batch answers [] 10 5 backlog idle

-- what a run of the relay computes with
relays : Unit {0}
unfolding drain_batch claim_outbox claim_rows order_by insert_row publish_batch publish
    classify_failures delete_outbox delete_rows bump_attempts bump_rows dead_letter insert_dead_rows
    insert_dead exec is retry_delay
relays = tt

drained_runs : drained.0.0 ≡ record { published = 1; full = false; error = some net_error }
unfolding relays
drained_runs = refl

drained_outbox : map row_id drained.0.1.db.outbox ≡ 3 ∷ 4 ∷ []
unfolding relays
drained_outbox = refl

drained_dead : map (λ (d : DeadRow). d.id) drained.0.1.db.dead ≡ 2 ∷ []
unfolding relays
drained_dead = refl

backlog-Distinct : Distinct row_id ascending backlog.db.outbox
backlog-Distinct = (
  (
    (λ e. absurd (omega (arith, e))),
    ((λ e. absurd (omega (arith, e))), ((λ e. absurd (omega (arith, e))), tt)),
  ),
  (
    ((λ e. absurd (omega (arith, e))), ((λ e. absurd (omega (arith, e))), tt)),
    (((λ e. absurd (omega (arith, e))), tt), (tt, tt)),
  ),
)

-- two relays with two rows each; the broker is out of reach for the second after its first record
relays_apart_example :
    let batch = claim_rows 5000 [] 2 backlog.db.outbox in
    let batch' = claim_rows 5001 (map row_id batch ++ []) 2 backlog.db.outbox in
    let p = (publish_batch answers batch idle).0 in
    let p' = (publish_batch outage batch' idle).0 in
    let f = classify_failures 5 p.failed in
    let f' = classify_failures 5 p'.failed in
    All (λ r. mem_id r.id (map row_id batch) ≡ false) batch'
    × (left_rows 5001 p'.sent f' (left_rows 5000 p.sent f backlog.db.outbox)
        ≡ left_rows 5000 p.sent f (left_rows 5001 p'.sent f' backlog.db.outbox))
relays_apart_example = relays_apart answers outage [] 5000 5001 2 2 5 backlog.db.outbox idle idle

first-Only : Only (pending_row 1 0) backlog.db.outbox
first-Only = (
  (λ e. refl),
  (
    (λ e. absurd (omega (arith, e))),
    ((λ e. absurd (omega (arith, e))), ((λ e. absurd (omega (arith, e))), tt)),
  ),
)

first_there : has_row 1 backlog.db.outbox ≡ true
unfolding has_row
first_there = refl

no_event_lost_example : Accounted (pending_row 1 0) drained.0.1.db drained.1
no_event_lost_example =
    no_event_lost answers [] 10 5 backlog idle (pending_row 1 0) first-Only first_there

drain_batch_attempts_example : All (Below 5) drained.0.1.db.outbox
drain_batch_attempts_example =
    drain_batch_attempts answers [] 10 5 backlog idle backlog-Distinct
      (omega arith, (omega arith, (omega arith, (omega arith, tt))))

drain_batch-Settles_example :
    ((drained.0.1.db ≡ backlog.db) × (is_some drained.0.0.error ≡ true))
    ⊎ (Settles 5000
          (fates answers 5 0 (claim_rows 5000 [] 10 backlog.db.outbox))
          backlog.db
          drained.0.1.db
        × (drained.1.taken
            ≡ taken_by (fates answers 5 0 (claim_rows 5000 [] 10 backlog.db.outbox)) []))
drain_batch-Settles_example = drain_batch-Settles answers [] 10 5 backlog idle

-- three rows, in batches of two
abbrev fresh_backlog : World
fresh_backlog = record empty_world {
  db = record empty_db { outbox = pending_row 2 0 ∷ pending_row 1 0 ∷ pending_row 3 0 ∷ [] };
}

fresh_backlog-IsReady : IsReady fresh_backlog
fresh_backlog-IsReady = record {
  calm = refl;
  distinct = (
    ((λ e. absurd (omega (arith, e))), ((λ e. absurd (omega (arith, e))), tt)),
    (((λ e. absurd (omega (arith, e))), tt), (tt, tt)),
  );
  due = (refl, (refl, (refl, tt)));
}

abbrev willing : Answers
willing n r = none

abbrev pairs : Config
pairs = record { batch_size = 2; poll_interval = 5000; publish_timeout = 2000; max_attempts = 10 }

relay_empties_example :
    (run pairs (drive willing pairs 2 fresh_backlog idle).0 ≡ awaited ∷ [])
    × ((drive willing pairs 2 fresh_backlog idle).1.0.db.outbox ≡ [])
    × ((drive willing pairs 2 fresh_backlog idle).1.1 ≡ all_taken (queue fresh_backlog) idle)
relay_empties_example =
    relay_empties willing pairs 1 fresh_backlog idle (λ n r. refl) (omega arith)
      fresh_backlog-IsReady (omega arith) (omega arith)
