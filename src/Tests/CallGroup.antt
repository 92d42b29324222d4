-- ===== src/Tests/CallGroup.antt =====
-- Two callers of Do that share a flight, and the theorem on what they get.
use storefront.Common.{Text, [], codes, map, none, refl, some, text_eq, ℕ, ◌+◌, ◌∷◌, ◌≡◌, ◌≤◌, ◌⊎◌}
use storefront.Errors.{Result, ok}
use storefront.Service.CallGroup.{
  CallGroup, Given, GroupRun, InFlight, calls, do_call, found_by, give_all, gives, no_step,
  one_more, passes_time, quiet_group, read_in_flight, reads,
}
use storefront.Service.CallGroup.Returns.{HasRecent, do_returns}

-- what is read is the time
abbrev clock : Text → ℕ → Result ℕ
clock key t = ok t

abbrev key : Text
key = codes "7"

abbrev waited : CallGroup ℕ
waited = record (quiet_group 1000) { now = 1001 }

waits_once : GroupRun clock 2 (quiet_group 1000) waited
waits_once = one_more _ _ _ (no_step _) (passes_time _ (λ k f e. absurd cc))

-- the first caller has started the flight
abbrev first_in : CallGroup ℕ
first_in = do_call 2 1 key waited

first_enters : GroupRun clock 2 (quiet_group 1000) first_in
first_enters = one_more _ _ _ waits_once (calls waited 1 key)

abbrev shared_flight : InFlight ℕ
shared_flight = record {
  started = 1001;
  ends_at = 1003;
  waiters = record { caller = 2; since = 1001 } ∷ record { caller = 1; since = 1001 } ∷ [];
  outcome = none;
}

abbrev read_flight : InFlight ℕ
read_flight = record shared_flight { outcome = some (1001, ok 1001) }

abbrev all_given : CallGroup ℕ
all_given =
    give_all key read_flight (1001, ok 1001)
      (read_in_flight clock key shared_flight (do_call 2 2 key first_in))

shares : GroupRun clock 2 (do_call 2 2 key first_in) all_given
unfolding do_call read_in_flight found_by give_all text_eq
shares =
    one_more _ _ _
      (one_more _ _ _ (no_step _) (reads (do_call 2 2 key first_in) key shared_flight refl refl))
      (gives (read_in_flight clock key shared_flight (do_call 2 2 key first_in)) key read_flight
        (1001, ok 1001) refl refl)

-- one read answers both callers
both_given :
    map {B = ℕ × Result ℕ} (λ (a : Given ℕ). (a.waiter.caller, a.result)) all_given.given
    ≡ (2, ok 1001) ∷ (1, ok 1001) ∷ []
unfolding do_call read_in_flight give_all
both_given = refl

do_returns_example :
    ((all_given.now ≤ first_in.now + 2)
      ⊎ HasRecent clock 2 (record { caller = 2; since = first_in.now }) key all_given)
    × ((j : CallGroup ℕ) × GroupRun clock 2 all_given j
        × (j.now ≡ all_given.now)
        × HasRecent clock 2 (record { caller = 2; since = first_in.now }) key j)
do_returns_example = do_returns clock 2 1000 2 key first_in all_given first_enters shares
