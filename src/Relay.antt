-- ===== src/Relay.antt =====
-- internal/outbox/relay.go: the loop that drains the outbox, by what happens at each turn of it.
pub mod Progress
use storefront.Common.{
  All, All-append, Bool, List, Option, [], ap, arith, false, if◌then◌else◌, inl, inr, is_some,
  length, min, none, refl, some, suc, true, zero, ℕ, ◌&&◌, ◌*◌, ◌++◌, ◌||◌, ◌∙◌, ◌∷◌, ◌≡◌, ◌≤◌, ◌⊎◌,
}
use storefront.Errors.{GoError}
use storefront.Store.Outbox.{Drained}

-- `Config`, the times in milliseconds
pub record Config : Type 0 where
  pub batch_size : ℕ
  pub poll_interval : ℕ
  pub publish_timeout : ℕ
  pub max_attempts : ℕ

abbrev pub max_backoff : ℕ
max_backoff = 30000

-- What a turn meets: what DrainBatch returns, whether the context is cancelled behind it, the error of
-- the listener's Await, and whether the context is cancelled during the Await or during a pause.
pub record Turn : Type 0 where
  pub drained : Drained
  pub stopped : Bool
  pub wakeup : Option GoError
  pub stopped_waiting : Bool
  pub stopped_pausing : Bool

-- What the relay does between two batches.
pub data Action : Type 0 where
  paused : ℕ → Action
  awaited : Action

-- `wait`
unfoldable pub wait : Config → Turn → List Action
wait cfg t = elim t.wakeup [
  | none ↦ awaited ∷ []
  | some e ↦ if t.stopped_waiting then awaited ∷ [] else awaited ∷ paused cfg.poll_interval ∷ []
]

-- the wait, or the pause that follows one that failed, was cut short
abbrev pub wait_stops : Turn → Bool
wait_stops t = t.stopped_waiting || (is_some t.wakeup && t.stopped_pausing)

abbrev pub unless_stopped : Bool → List Action → List Action
unless_stopped stopped rest = if stopped then [] else rest

-- the switch of the loop: the rest of the run is given the next back-off
abbrev pub turn_actions : Config → Turn → ℕ → (ℕ → List Action) → List Action
turn_actions cfg t backoff rest = elim t.drained.error [
  | some e ↦
      paused (min (backoff * 2) max_backoff)
      ∷ unless_stopped t.stopped_pausing (rest (min (backoff * 2) max_backoff))
  | none ↦
      if t.drained.full
      then rest cfg.poll_interval
      else wait cfg t ++ unless_stopped (wait_stops t) (rest cfg.poll_interval)
]

unfoldable pub run_from : Config → ℕ → List Turn → List Action
run_from cfg backoff [] = []
run_from cfg backoff (t ∷ ts) = elim t.stopped [
  | true ↦ []
  | false ↦ turn_actions cfg t backoff (λ b. run_from cfg b ts)
]

-- `Run`
unfoldable pub run : Config → List Turn → List Action
run cfg turns = run_from cfg cfg.poll_interval turns

-- the relay never sleeps for longer
abbrev pub IsShort : Config → Action → Type 0
IsShort cfg (paused d) = (d ≤ max_backoff) ⊎ (d ≡ cfg.poll_interval)
IsShort cfg awaited = Unit

wait-IsShort : (cfg : Config) (t : Turn) → All (IsShort cfg) (wait cfg t)
unfolding wait
wait-IsShort cfg t = go t.wakeup t.stopped_waiting
  where
    go :
        (e : Option GoError) (b : Bool)
        → All (IsShort cfg) (elim e as (λ x. List Action) [
          | none ↦ awaited ∷ []
          | some e ↦ if b then awaited ∷ [] else awaited ∷ paused cfg.poll_interval ∷ []
        ])
    go none b = (tt, tt)
    go (some e) true = (tt, tt)
    go (some e) false = (tt, (inr refl, tt))

unless_stopped-IsShort :
    (cfg : Config) (b : Bool) (rest : List Action)
    → All (IsShort cfg) rest
    → All (IsShort cfg) (unless_stopped b rest)
unless_stopped-IsShort cfg true rest h = tt
unless_stopped-IsShort cfg false rest h = h

turn_actions-IsShort :
    (cfg : Config) (t : Turn) (backoff : ℕ) (rest : ℕ → List Action)
    → ((b : ℕ) → All (IsShort cfg) (rest b))
    → All (IsShort cfg) (turn_actions cfg t backoff rest)
turn_actions-IsShort cfg t backoff rest h = go t.drained.error t.drained.full
  where
    next_backoff : ℕ
    next_backoff = min (backoff * 2) max_backoff

    go :
        (e : Option GoError) (full : Bool)
        → All (IsShort cfg) (elim e as (λ x. List Action) [
          | some e ↦ paused next_backoff ∷ unless_stopped t.stopped_pausing (rest next_backoff)
          | none ↦
              if full
              then rest cfg.poll_interval
              else wait cfg t ++ unless_stopped (wait_stops t) (rest cfg.poll_interval)
        ])
    go (some e) full = (
      inl (omega arith),
      unless_stopped-IsShort cfg t.stopped_pausing (rest next_backoff) (h next_backoff),
    )
    go none true = h cfg.poll_interval
    go none false =
        All-append (IsShort cfg) (wait cfg t)
          (unless_stopped (wait_stops t) (rest cfg.poll_interval)) (wait-IsShort cfg t)
          (unless_stopped-IsShort cfg (wait_stops t) (rest cfg.poll_interval) (h cfg.poll_interval))

run_from-IsShort :
    (cfg : Config) (backoff : ℕ) (turns : List Turn)
    → All (IsShort cfg) (run_from cfg backoff turns)
unfolding run_from
run_from-IsShort cfg backoff [] = tt
run_from-IsShort cfg backoff (t ∷ ts) =
    go t.stopped
      (turn_actions-IsShort cfg t backoff (λ b. run_from cfg b ts) (λ b. run_from-IsShort cfg b ts))
  where
    actions : List Action
    actions = turn_actions cfg t backoff (λ b. run_from cfg b ts)

    go :
        (stopped : Bool)
        → All (IsShort cfg) actions
        → All (IsShort cfg) (elim stopped as (λ x. List Action) [ true ↦ [] | false ↦ actions ])
    go true h = tt
    go false h = h

-- Whatever happens, the relay pauses for at most 30 seconds or for its poll interval.
pub run-IsShort : (cfg : Config) (turns : List Turn) → All (IsShort cfg) (run cfg turns)
unfolding run
run-IsShort cfg turns = run_from-IsShort cfg cfg.poll_interval turns

-- a turn whose batch fails, without a cancellation
abbrev pub Fails : Turn → Type 0
Fails t = (is_some t.drained.error ≡ true) × (t.stopped ≡ false) × (t.stopped_pausing ≡ false)

-- twice, k times
unfoldable pub doubled : ℕ → ℕ → ℕ
doubled x zero = x
doubled x (suc k) = doubled x k * 2

-- the pauses of n failures after k others
abbrev pub doubling : ℕ → ℕ → ℕ → List Action
doubling poll k zero = []
doubling poll k (suc n) = paused (min (doubled poll (suc k)) max_backoff) ∷ doubling poll (suc k) n

double_capped : (x : ℕ) → min (min x max_backoff * 2) max_backoff ≡ min (x * 2) max_backoff
double_capped x = omega arith

next_capped :
    (poll k : ℕ)
    → min (min (doubled poll k) max_backoff * 2) max_backoff
      ≡ min (doubled poll (suc k)) max_backoff
unfolding doubled
next_capped poll k = double_capped (doubled poll k)

failing_turn :
    (cfg : Config) (t : Turn) (backoff : ℕ) (rest : ℕ → List Action)
    → Fails t
    → (elim t.stopped as (λ x. List Action) [ true ↦ [] | false ↦ turn_actions cfg t backoff rest ])
      ≡ paused (min (backoff * 2) max_backoff) ∷ rest (min (backoff * 2) max_backoff)
failing_turn cfg t backoff rest h = ground arith

failures_from :
    (cfg : Config) (k : ℕ) (turns : List Turn)
    → All Fails turns
    → run_from cfg (min (doubled cfg.poll_interval k) max_backoff) turns
      ≡ doubling cfg.poll_interval k (length turns)
unfolding run_from
failures_from cfg k [] h = refl
failures_from cfg k (t ∷ ts) h =
    let capped = next_capped cfg.poll_interval k in
    failing_turn cfg t (min (doubled cfg.poll_interval k) max_backoff) (λ b. run_from cfg b ts) h.0
    ∙ (λ i. paused (capped i) ∷ run_from cfg (capped i) ts)
    ∙ ap (λ r. paused (min (doubled cfg.poll_interval (suc k)) max_backoff) ∷ r)
        (failures_from cfg (suc k) ts h.1)

first_backoff : (poll : ℕ) → poll ≤ max_backoff → poll ≡ min (doubled poll 0) max_backoff
unfolding doubled
first_backoff poll h = omega (arith, h)

-- While batches fail one after another, from a poll interval of at most 30 seconds, the pauses double
-- up to 30 seconds: the n-th lasts the poll interval doubled n times, or 30 seconds if that is less.
pub failures_double :
    (cfg : Config) (turns : List Turn)
    → cfg.poll_interval ≤ max_backoff
    → All Fails turns
    → run cfg turns ≡ doubling cfg.poll_interval 0 (length turns)
unfolding run
failures_double cfg turns h fails =
    ap (λ b. run_from cfg b turns) (first_backoff cfg.poll_interval h)
    ∙ failures_from cfg 0 turns fails
