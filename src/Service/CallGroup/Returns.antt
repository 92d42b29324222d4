-- ===== src/Service/CallGroup/Returns.antt =====
-- When the callers of Do get their results: internal/service/callgroup.go.
use storefront.Common.{Text, arith, inl, inr, refl, ℕ, ◌+◌, ◌≡◌, ◌≤◌, ◌⊎◌}
use storefront.Errors.{Result}
use storefront.Relay.{run}
use storefront.Service.CallGroup.{
  CallGroup, Given, GroupRun, GroupStep, Waiter, calls, do_call, gives, no_step, one_more,
  passes_time, quiet_group, reads,
}
use storefront.Service.CallGroup.Owed.{CanEnd, GroupRun-Owed, HasResult, Owed, can_end, entered}
use storefront.Service.CallGroup.Shared.{
  All-Among, Among, IsShared, Recent, keeps_call, keeps_give, keeps_read, keeps_time,
}

module _ {T : Type 0} (fn : Text → ℕ → Result T) (timeout : ℕ) where
  GroupStep-IsShared :
      (g h : CallGroup T) → GroupStep fn timeout g h → IsShared fn timeout g → IsShared fn timeout h
  GroupStep-IsShared _ _ (calls g caller key) s = keeps_call fn timeout g caller key s
  GroupStep-IsShared _ _ (reads g key f e n) s = keeps_read fn timeout g key f e s
  GroupStep-IsShared _ _ (gives g key f out e o) s = keeps_give fn timeout g key f out e o s
  GroupStep-IsShared _ _ (passes_time g before) s = keeps_time fn timeout g before s

  GroupRun-IsShared :
      (g h : CallGroup T) → GroupRun fn timeout g h → IsShared fn timeout g → IsShared fn timeout h
  GroupRun-IsShared _ _ (no_step g) s = s
  GroupRun-IsShared _ _ (one_more g h j before step) s =
      GroupStep-IsShared h j step (GroupRun-IsShared g h before s)

  quiet-IsShared : (now : ℕ) → IsShared fn timeout (quiet_group now)
  quiet-IsShared now = record { flights = λ key f e. absurd cc; recents = tt }

  -- the caller has got a result that is recent
  abbrev pub HasRecent : Waiter → Text → CallGroup T → Type 0
  HasRecent w key g =
      (a : Given T) × Among a g.given × (a.waiter ≡ w) × (a.key ≡ key) × Recent fn timeout a

  -- Callers of a call group that was quiet before, for any keys and interleaved in any way. Whoever has
  -- entered Do has got a result unless no more than the timeout has passed, and until then can at any
  -- time be given one without that time passes; this is under the condition that the function's calls
  -- return when the context of their flight has ended. The result is of a flight for the caller's key
  -- that was under way when it entered, and is given within the timeout of the start of that flight. It
  -- is what the function found by a read that it made in the flight and within the timeout, or, behind
  -- the timeout, the error that the deadline has passed.
  pub do_returns :
      (start caller : ℕ) (key : Text) (g h : CallGroup T)
      → GroupRun fn timeout (quiet_group start) g
      → GroupRun fn timeout (do_call timeout caller key g) h
      → let w : Waiter = record { caller = caller; since = g.now } in
        ((h.now ≤ g.now + timeout) ⊎ HasRecent w key h)
        × ((j : CallGroup T) × GroupRun fn timeout h j × (j.now ≡ h.now) × HasRecent w key j)
  do_returns start caller key g h before behind =
      (in_time owed, ends_now (can_end fn timeout w key h owed))
    where
      w : Waiter
      w = record { caller = caller; since = g.now }

      s : IsShared fn timeout h
      s = GroupRun-IsShared (do_call timeout caller key g) h behind (
          keeps_call fn timeout g caller key
            (GroupRun-IsShared (quiet_group start) g before (quiet-IsShared start)))

      owed : Owed fn timeout w key h
      owed =
          GroupRun-Owed fn timeout w key (do_call timeout caller key g) h behind
            (entered fn timeout w key g caller refl)

      recent :
          (j : CallGroup T)
          → IsShared fn timeout j
          → HasResult fn timeout w key j
          → HasRecent w key j
      recent j shared (a, m, same_waiter, same_key) =
          (a, m, same_waiter, same_key, All-Among (Recent fn timeout) j.given m shared.recents)

      in_time : Owed fn timeout w key h → (h.now ≤ g.now + timeout) ⊎ HasRecent w key h
      in_time (inr has) = inr (recent h s has)
      in_time (inl (f, e, m)) = inl (
          omega (
            arith,
            (s.flights key f e).ends_by,
            (s.flights key f e).in_context,
            (All-Among (λ (w : Waiter). (f.started ≤ w.since) × (w.since ≤ h.now)) f.waiters m
                (s.flights key f e).joined_in).0,
          ))

      ends_now :
          CanEnd fn timeout w key h
          → (j : CallGroup T) × GroupRun fn timeout h j × (j.now ≡ h.now) × HasRecent w key j
      ends_now (j, run, has, same_time) =
          (j, run, same_time, recent j (GroupRun-IsShared h j run s) has)
