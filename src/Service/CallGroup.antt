-- ===== src/Service/CallGroup.antt =====
-- internal/service/callgroup.go: callers of Do that run at a time. golang.org/x/sync/singleflight runs
-- the function once for the callers of a key that meet, and hands its outcome to each of them.
pub mod Shared
pub mod Owed
pub mod Returns
use storefront.Common.{
  List, Option, Text, [], if◌then◌else◌, ltb, map, none, some, text_eq, ℕ, ◌++◌, ◌+◌, ◌<◌, ◌∷◌, ◌≡◌,
}
use storefront.Errors.{Result, deadline_exceeded, err, sentinel}

pub record Waiter : Type 0 where
  pub caller : ℕ
  pub since : ℕ

-- A call of the function for a key. Its context is detached from the callers' and ends at `ends_at`;
-- `outcome` is what the function's read has found, with its time.
pub record InFlight (T : Type 0) : Type 0 where
  pub started : ℕ
  pub ends_at : ℕ
  pub waiters : List Waiter
  pub outcome : Option (ℕ × Result T)

-- what one of the callers got, of a flight that has begun at `started`
pub record Given (T : Type 0) : Type 0 where
  pub waiter : Waiter
  pub key : Text
  pub started : ℕ
  pub read_at : ℕ
  pub given_at : ℕ
  pub result : Result T

pub record CallGroup (T : Type 0) : Type 0 where
  pub now : ℕ
  pub in_flight : Text → Option (InFlight T)
  pub given : List (Given T)

module _ {T : Type 0} where
  abbrev pub set_flight :
      Text → Option (InFlight T) → (Text → Option (InFlight T)) → Text → Option (InFlight T)
  set_flight key f flights k = if text_eq key k then f else flights k

  -- a new flight has the context of context.WithTimeout
  abbrev pub joined : ℕ → Waiter → Option (InFlight T) → InFlight T
  joined timeout w none = record {
    started = w.since;
    ends_at = w.since + timeout;
    waiters = w ∷ [];
    outcome = none;
  }
  joined timeout w (some f) = record f { waiters = w ∷ f.waiters }

  -- a caller enters `Do`
  unfoldable pub do_call : ℕ → ℕ → Text → CallGroup T → CallGroup T
  do_call timeout caller key g =
      let w : Waiter = record { caller = caller; since = g.now } in
      record g {
        in_flight = set_flight key (some (joined timeout w (g.in_flight key))) g.in_flight;
      }

  -- what the function finds at a time: when its context has ended its calls fail
  unfoldable pub found_by : (Text → ℕ → Result T) → Text → ℕ → InFlight T → Result T
  found_by fn key now f = if ltb now f.ends_at then fn key now else err (sentinel deadline_exceeded)

  -- the function reads
  unfoldable pub read_in_flight :
      (Text → ℕ → Result T) → Text → InFlight T → CallGroup T → CallGroup T
  read_in_flight fn key f g =
      let out = some (g.now, found_by fn key g.now f) in
      record g { in_flight = set_flight key (some (record f { outcome = out })) g.in_flight }

  abbrev pub give : Text → ℕ → ℕ → ℕ × Result T → Waiter → Given T
  give key started now out w = record {
    waiter = w;
    key = key;
    started = started;
    read_at = out.0;
    given_at = now;
    result = out.1;
  }

  -- `Do` returns to every caller
  unfoldable pub give_all : Text → InFlight T → ℕ × Result T → CallGroup T → CallGroup T
  give_all key f out g = record g {
    in_flight = set_flight key none g.in_flight;
    given = map (give key f.started g.now out) f.waiters ++ g.given;
  }

-- `fn key t` is what the function finds for the key when it reads at the time t. The calls that it makes
-- return when their context has ended: time passes while every context of a flight is open.
pub data GroupStep {T : Type 0} (fn : Text → ℕ → Result T) (timeout : ℕ)
    : CallGroup T → CallGroup T → Type 0 where
  calls :
      (g : CallGroup T) (caller : ℕ) (key : Text)
      → GroupStep fn timeout g (do_call timeout caller key g)
  reads :
      (g : CallGroup T) (key : Text) (f : InFlight T)
      → g.in_flight key ≡ some f
      → f.outcome ≡ none
      → GroupStep fn timeout g (read_in_flight fn key f g)
  gives :
      (g : CallGroup T) (key : Text) (f : InFlight T) (out : ℕ × Result T)
      → g.in_flight key ≡ some f
      → f.outcome ≡ some out
      → GroupStep fn timeout g (give_all key f out g)
  passes_time :
      (g : CallGroup T)
      → ((key : Text) (f : InFlight T) → g.in_flight key ≡ some f → g.now < f.ends_at)
      → GroupStep fn timeout g (record g { now = g.now + 1 })

pub data GroupRun {T : Type 0} (fn : Text → ℕ → Result T) (timeout : ℕ)
    : CallGroup T → CallGroup T → Type 0 where
  no_step : (g : CallGroup T) → GroupRun fn timeout g g
  one_more :
      (g h k : CallGroup T)
      → GroupRun fn timeout g h
      → GroupStep fn timeout h k
      → GroupRun fn timeout g k

-- nobody calls
abbrev pub quiet_group : {T : Type 0} → ℕ → CallGroup T
quiet_group now = record { now = now; in_flight = λ key. none; given = [] }
