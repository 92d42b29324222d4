-- ===== src/Store/Sql/Outbox.antt =====
-- The statements on outbox and outbox_dead.
use storefront.Common.{
  Bool, List, any, filter, if◌then◌else◌, leb, map_if, min, not, take, ℕ, ◌&&◌, ◌*◌, ◌+◌, ◌==◌, ◌^◌,
  ◌∷◌,
}
use storefront.Errors.{err, ok}
use storefront.Events.{Event}
use storefront.Store.Schema.{DeadRow, OutboxRow, Sql, unique_violation}
use storefront.Store.Sql.Keyset.{ascending, order_by}

abbrev pub is_due : ℕ → OutboxRow → Bool
is_due now r = leb r.next_attempt_at now

abbrev pub row_id : OutboxRow → ℕ
row_id r = r.id

abbrev pub mem_id : ℕ → List ℕ → Bool
mem_id id ids = any (λ j. j == id) ids

-- queryInsertOutbox; `id` is the next value of the identity sequence
unfoldable pub insert_event : ℕ → ℕ → Event → Sql (Unit {0})
insert_event id now e db = ok (
  tt,
  record db {
    outbox =
        record {
          id = id;
          message_id = e.event_id;
          event_type = e.event_type;
          payload = e;
          attempts = 0;
          next_attempt_at = now;
          created_at = now;
        }
        ∷ db.outbox;
  },
)

-- queryClaimOutbox: `held` are the rows that another relay has locked
unfoldable pub claim_rows : ℕ → List ℕ → ℕ → List OutboxRow → List OutboxRow
claim_rows now held n rows =
    take n (order_by row_id ascending (filter (λ r. is_due now r && not (mem_id r.id held)) rows))

-- queryDeleteOutbox
unfoldable pub delete_rows : List ℕ → List OutboxRow → List OutboxRow
delete_rows ids rows = filter (λ r. not (mem_id r.id ids)) rows

-- LEAST(POWER(2, attempts), 30) seconds, in milliseconds
unfoldable pub retry_delay : ℕ → ℕ
retry_delay attempts = 1000 * min (2 ^ attempts) 30

-- queryBumpOutbox
unfoldable pub bump_rows : ℕ → List ℕ → List OutboxRow → List OutboxRow
bump_rows now ids rows =
    map_if (λ r. mem_id r.id ids)
      (λ r. record r { attempts = r.attempts + 1; next_attempt_at = now + retry_delay r.attempts })
      rows

-- queryDeadOutbox
unfoldable pub insert_dead : DeadRow → Sql (Unit {0})
insert_dead r db =
    if any (λ d. d.id == r.id) db.dead
    then err unique_violation
    else ok (tt, record db { dead = r ∷ db.dead })
