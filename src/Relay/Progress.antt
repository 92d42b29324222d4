-- ===== src/Relay/Progress.antt =====
-- The relay's loop over DrainBatch: internal/outbox/relay.go with internal/store/outbox.go.
use storefront.Common.{
  ==_iff, List, [], ap, arith, drop, false, length, length-drop, length-take, none, refl, subst,
  suc, sym, take, true, zero, ℕ, ◌*◌, ◌+◌, ◌-◌, ◌<◌, ◌==◌, ◌∙◌, ◌∷◌, ◌≡◌, ◌≤◌,
}
use storefront.Relay.{Config, Turn, awaited, run, run_from, wait}
use storefront.Store.Outbox.{Answers, Broker, Drained, answered, drain_batch, record_of}
use storefront.Store.Outbox.Progress.{IsReady, TakesAll, all_taken, drain_step, queue}
use storefront.Store.Schema.{OutboxRow}
use storefront.Store.Sql.Keyset.{ascending, insert_row, order_by}
use storefront.Store.Sql.Outbox.{row_id}
use storefront.Store.Tx.{World}

-- a turn in which nothing is cancelled and the listener does not fail
abbrev pub turn_of : Drained → Turn
turn_of d = record {
  drained = d;
  stopped = false;
  wakeup = none;
  stopped_waiting = false;
  stopped_pausing = false;
}

-- so many turns of the loop over the store and the broker
unfoldable pub drive : Answers → Config → ℕ → World → Broker → List Turn × (World × Broker)
drive answers cfg zero w b = ([], (w, b))
drive answers cfg (suc n) w b =
    let out = drain_batch answers [] cfg.batch_size cfg.max_attempts w b in
    let rest = drive answers cfg n out.0.1 out.1 in (turn_of out.0.0 ∷ rest.0, rest.1)

length-insert_row :
    (r : OutboxRow) (rows : List OutboxRow)
    → length (insert_row row_id ascending r rows) ≡ suc (length rows)
unfolding insert_row
length-insert_row r [] = refl
length-insert_row r (s ∷ rows) = ground (arith, length-insert_row r rows)

length-order_by : (rows : List OutboxRow) → length (order_by row_id ascending rows) ≡ length rows
unfolding order_by
length-order_by [] = refl
length-order_by (r ∷ rows) =
    length-insert_row r (order_by row_id ascending rows) ∙ ap suc (length-order_by rows)

nil_of_length : (rows : List OutboxRow) → length rows ≡ 0 → rows ≡ []
nil_of_length [] h = refl
nil_of_length (r ∷ rows) h = absurd (omega (arith, h))

all_taken-take-drop :
    (n : ℕ) (rows : List OutboxRow) (b : Broker)
    → all_taken (drop n rows) (all_taken (take n rows) b) ≡ all_taken rows b
unfolding all_taken
all_taken-take-drop zero rows b = refl
all_taken-take-drop (suc n) [] b = refl
all_taken-take-drop (suc n) (r ∷ rows) b =
    all_taken-take-drop n rows (answered none (record_of r) b)

not_equal : (a b : ℕ) → a < b → (a == b) ≡ false
not_equal a b h = ground arith

suc_times : (n k : ℕ) → suc n * k ≡ k + n * k
suc_times n k = grind arith

-- full batches follow one another at once
full_turn :
    (cfg : Config) (d : Drained) (backoff : ℕ) (turns : List Turn)
    → d.error ≡ none
    → d.full ≡ true
    → run_from cfg backoff (turn_of d ∷ turns) ≡ run_from cfg cfg.poll_interval turns
unfolding run_from
full_turn cfg d backoff turns e f = rw (e, f) refl

-- a batch that is not full is followed by the wait for a wakeup
short_turn :
    (cfg : Config) (d : Drained) (backoff : ℕ)
    → d.error ≡ none
    → d.full ≡ false
    → run_from cfg backoff (turn_of d ∷ []) ≡ awaited ∷ []
unfolding run_from wait
short_turn cfg d backoff e f = rw (e, f) refl

module _ (answers : Answers) (takes : TakesAll answers) (cfg : Config)
    (nonzero : 0 < cfg.batch_size) where
  -- what so many turns have done
  abbrev pub Emptied : World → Broker → ℕ → List Turn × (World × Broker) → Type 0
  Emptied w b backoff out =
      (run_from cfg backoff out.0 ≡ awaited ∷ [])
      × (out.1.0.db.outbox ≡ [])
      × (out.1.1 ≡ all_taken (queue w) b)

  module _ (w : World) (b : Broker) (ready : IsReady w) where
    abbrev step : (Drained × World) × Broker
    step = drain_batch answers [] cfg.batch_size cfg.max_attempts w b

    stepped :
        (step.0.0.error ≡ none)
        × (step.0.0.full ≡ (length (take cfg.batch_size (queue w)) == cfg.batch_size))
        × (queue step.0.1 ≡ drop cfg.batch_size (queue w))
        × (step.1 ≡ all_taken (take cfg.batch_size (queue w)) b)
        × IsReady step.0.1
    stepped = drain_step answers takes cfg.batch_size cfg.max_attempts w b nonzero ready

    step_length : length (queue step.0.1) ≡ length (queue w) - cfg.batch_size
    step_length = ap length stepped.2 ∙ length-drop cfg.batch_size (queue w)

    step_taken : all_taken (queue step.0.1) step.1 ≡ all_taken (queue w) b
    step_taken =
        (λ i. all_taken (stepped.2 i) (stepped.3 i))
        ∙ all_taken-take-drop cfg.batch_size (queue w) b

    step_full : cfg.batch_size ≤ length (queue w) → step.0.0.full ≡ true
    step_full h =
        stepped.1
        ∙ (==_iff (length (take cfg.batch_size (queue w))) cfg.batch_size).1
            (omega (arith, length-take cfg.batch_size (queue w)))

    step_short : length (queue w) < cfg.batch_size → step.0.0.full ≡ false
    step_short h =
        stepped.1
        ∙ not_equal (length (take cfg.batch_size (queue w))) cfg.batch_size
            (omega (arith, length-take cfg.batch_size (queue w)))

    step_empties : length (queue w) < cfg.batch_size → step.0.1.db.outbox ≡ []
    step_empties h =
        nil_of_length step.0.1.db.outbox
          (omega (arith, length-order_by step.0.1.db.outbox, step_length))

  emptied :
      (n : ℕ) (w : World) (b : Broker) (backoff : ℕ)
      → IsReady w
      → n * cfg.batch_size ≤ length (queue w)
      → length (queue w) < suc n * cfg.batch_size
      → Emptied w b backoff (drive answers cfg (suc n) w b)
  unfolding drive all_taken order_by
  emptied zero w b backoff ready low high =
      let few : length (queue w) < cfg.batch_size = omega arith in
      let nothing = step_empties w b ready few in
      (
        short_turn cfg (step w b ready).0.0 backoff (stepped w b ready).0
            (step_short w b ready few),
        nothing,
        ap (λ rows. all_taken (order_by row_id ascending rows) (step w b ready).1) (sym nothing)
            ∙ step_taken w b ready,
      )
  emptied (suc n) w b backoff ready low high =
      let out = step w b ready in
      let ih =
        emptied n out.0.1 out.1 cfg.poll_interval (stepped w b ready).4
          (omega (arith, step_length w b ready, suc_times n cfg.batch_size))
          (omega (
            arith,
            step_length w b ready,
            suc_times (suc n) cfg.batch_size,
            suc_times n cfg.batch_size,
          )) in
      (
        full_turn cfg out.0.0 backoff (drive answers cfg (suc n) out.0.1 out.1).0
              (stepped w b ready).0
              (step_full w b ready (omega (arith, suc_times n cfg.batch_size)))
            ∙ ih.0,
        ih.1,
        ih.2 ∙ step_taken w b ready,
      )

-- While no call fails, nothing is cancelled and the broker takes every record: with rows that have
-- different ids and are due, and a positive batch size, the relay empties the outbox in one turn more
-- than the outbox has full batches; it does not pause between them and waits for a wakeup only behind
-- the last; and the broker has been given every row's record once, in the order of the ids.
pub relay_empties :
    (answers : Answers) (cfg : Config) (n : ℕ) (w : World) (b : Broker)
    → TakesAll answers
    → 0 < cfg.batch_size
    → IsReady w
    → n * cfg.batch_size ≤ length w.db.outbox
    → length w.db.outbox < suc n * cfg.batch_size
    → let out = drive answers cfg (suc n) w b in
      (run cfg out.0 ≡ awaited ∷ []) × (out.1.0.db.outbox ≡ []) × (out.1.1 ≡ all_taken (queue w) b)
unfolding run
relay_empties answers cfg n w b takes nonzero ready low high =
    let same = length-order_by w.db.outbox in
    emptied answers takes cfg nonzero n w b cfg.poll_interval ready
      (subst (λ k. n * cfg.batch_size ≤ k) (sym same) low)
      (subst (λ k. k < suc n * cfg.batch_size) (sym same) high)
