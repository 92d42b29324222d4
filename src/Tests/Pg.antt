-- ===== src/Tests/Pg.antt =====
-- The theorems on internal/pg, applied to short histories.
use storefront.Common.{List, [], arith, codes, false, none, refl, some, ℕ, ◌+◌, ◌<◌, ◌∷◌, ◌≡◌}
use storefront.Errors.{canceled, is, net_error, sentinel}
use storefront.Pg.{Meets, acquire, await, await_all, janitor, passed, release}
use storefront.Pg.Connections.{GivenUp, await_all-leaks_nothing, new_listener}
use storefront.Pg.Sweeps.{janitor_sweeps, live_keys}
use storefront.Store.Orders.{purge_idempotency_keys}
use storefront.Store.Schema.{IdempotencyRow, empty_db}
use storefront.Store.Tx.{World, autocommit, fail, next_fault, pass}
use storefront.Tests.Data.{empty_world}

abbrev no_errors : Meets
no_errors = record {
  acquire_error = none;
  listen_error = none;
  wait_error = none;
  ctx_error = none;
}

-- LISTEN fails, a wait succeeds, the next one loses its connection, and one is cancelled
abbrev history : List Meets
history =
    record no_errors { listen_error = some net_error }
    ∷ no_errors
    ∷ record no_errors { wait_error = some net_error }
    ∷ record no_errors {
      wait_error = some (sentinel canceled);
      ctx_error = some (sentinel canceled);
    }
    ∷ []

three_acquired : (await_all history new_listener).acquired ≡ 3
unfolding await_all await acquire release is
three_acquired = refl

second_acquired : 1 < (await_all history new_listener).acquired
second_acquired = rw three_acquired (omega arith)

await_all-leaks_nothing_example : GivenUp 1 (await_all history new_listener)
await_all-leaks_nothing_example = await_all-leaks_nothing history 1 second_acquired

abbrev key_row : ℕ → IdempotencyRow
key_row expires_at = record {
  user_id = 3;
  key = codes "k";
  request_hash = codes "h";
  order_id = some 21;
  expires_at = expires_at;
}

-- two keys of which one expires soon, and a first purge that fails
abbrev keyed : World
keyed = record empty_world {
  db = record empty_db { keys = key_row 4000 ∷ key_row 90000 ∷ [] };
  faults = fail net_error ∷ [];
}

abbrev an_hour : World → World
an_hour w = record w { clock = w.clock + 3600 }

abbrev before_purge : World
before_purge = an_hour (janitor (passed an_hour false ∷ []) keyed)

purge_is_next : next_fault before_purge.faults ≡ pass
unfolding janitor purge_idempotency_keys autocommit
purge_is_next = refl

janitor_sweeps_example :
    (janitor (passed an_hour false ∷ passed an_hour false ∷ []) keyed).db
    ≡ record before_purge.db { keys = live_keys before_purge }
janitor_sweeps_example =
    janitor_sweeps (passed an_hour false ∷ []) an_hour keyed (refl, tt) purge_is_next

one_key_left : live_keys before_purge ≡ key_row 90000 ∷ []
unfolding janitor purge_idempotency_keys autocommit
one_key_left = refl
