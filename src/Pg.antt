-- ===== src/Pg.antt =====
-- internal/pg: the listener of the outbox's channel, and the janitor of the idempotency keys.
pub mod Connections
pub mod Sweeps
use storefront.Common.{Bool, List, Option, [], codes, if◌then◌else◌, none, some, ℕ, ◌+◌, ◌∷◌}
use storefront.Bus.{released}
use storefront.Errors.{GoError, Result, deadline_exceeded, err, is, ok, wrap}
use storefront.Store.Orders.{purge_idempotency_keys}
use storefront.Store.Tx.{World}

-- The listener with the connections of the pool, by their number: how many have been acquired, which
-- went back to the pool, and which the listener has closed.
pub record Listener : Type 0 where
  pub conn : Option ℕ
  pub acquired : ℕ
  pub released : List ℕ
  pub closed : List ℕ

-- What a call of Await meets: the errors of pool.Acquire, of LISTEN, of WaitForNotification and of the
-- caller's context behind it.
pub record Meets : Type 0 where
  pub acquire_error : Option GoError
  pub listen_error : Option GoError
  pub wait_error : Option GoError
  pub ctx_error : Option GoError

abbrev pub closed_with : Option ℕ → Listener → Listener
closed_with none l = l
closed_with (some c) l = record l { conn = none; closed = c ∷ l.closed }

-- `release` and `Close`
unfoldable pub release : Listener → Listener
release l = closed_with l.conn l

-- LISTEN on the connection that was acquired last
abbrev pub listen : Option GoError → Listener → Option GoError × Listener
listen (some e) l = (
  some (wrap (codes "listen") e),
  record l { acquired = l.acquired + 1; released = l.acquired ∷ l.released },
)
listen none l = (none, record l { conn = some l.acquired; acquired = l.acquired + 1 })

abbrev pub acquire_new : Meets → Listener → Option GoError × Listener
acquire_new m l = elim m.acquire_error [
  | some e ↦ (some (wrap (codes "listen acquire") e), l)
  | none ↦ listen m.listen_error l
]

-- `acquire`
unfoldable pub acquire : Meets → Listener → Option GoError × Listener
acquire m l = elim l.conn [ some c ↦ (none, l) | none ↦ acquire_new m l ]

-- Await behind an error of WaitForNotification
abbrev pub wait_failed : Meets → GoError → Listener → Option GoError × Listener
wait_failed m e l = elim m.ctx_error [
  | some stop ↦ (some stop, release l)
  | none ↦
      if is deadline_exceeded e then (none, l) else (some (wrap (codes "listen wait") e), release l)
]

abbrev pub wait_on : Meets → Option GoError × Listener → Option GoError × Listener
wait_on m (some e, l) = (some e, l)
wait_on m (none, l) = elim m.wait_error [ none ↦ (none, l) | some e ↦ wait_failed m e l ]

-- `Await`
unfoldable pub await : Meets → Listener → Option GoError × Listener
unfolding release
await m l = wait_on m (acquire m l)

-- the Awaits of a relay, and its deferred Close
unfoldable pub await_all : List Meets → Listener → Listener
await_all [] l = release l
await_all (m ∷ ms) l = await_all ms (await m l).1

-- One round of the janitor's loop: its context is done, or the interval passes, in which others change
-- the world, and the context may be cancelled while it purges.
pub data Round : Type 0 where
  done : Round
  passed : (World → World) → Bool → Round

abbrev pub purged : Result ℕ × World → Bool → (World → World) → World
purged (ok n, w) cancelled rest = rest w
purged (err e, w) cancelled rest = if cancelled then w else rest w

-- `Run` of the janitor
unfoldable pub janitor : List Round → World → World
janitor [] w = w
janitor (done ∷ rounds) w = w
janitor (passed others cancelled ∷ rounds) w =
    purged (purge_idempotency_keys (others w)) cancelled (janitor rounds)
