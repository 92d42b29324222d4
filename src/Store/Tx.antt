-- ===== src/Store/Tx.antt =====
-- internal/store/postgres.go: transactions over a database whose every call may fail, and the errors
-- that leave the package.
pub mod Post
pub mod Atomic
pub mod Unavailable
use storefront.Common.{
  Bool, List, Option, Text, [], codes, if◌then◌else◌, length, none, some, take, text_eq, ℕ, ◌&&◌,
  ◌==◌, ◌||◌, ◌∷◌,
}
use storefront.Domain.Pages.{Uuid, UuidText}
use storefront.Errors.{
  GoError, Result, as_net_error, as_pg_error, canceled, deadline_exceeded, err, is, ok, sentinel,
  unavailable, wrap_both,
}
use storefront.Store.Schema.{Db, Sql}

-- What the next call of the database meets. A commit may also be applied and its answer be lost.
pub data Fault : Type 0 where
  pass : Fault
  fail lost : GoError → Fault

-- The database and what the calls depend on. The identity sequence of outbox, the ids drawn from
-- uuid.NewV7 and the faults are used up also by a transaction that rolls back.
pub record World : Type 0 where
  pub db : Db
  pub outbox_seq : ℕ
  pub drawn : ℕ
  pub clock : ℕ
  pub faults : List Fault

-- What the program is given: the uuid package, SHA-256 and the configured idempotency TTL.
pub record Platform : Type 0 where
  pub texts : UuidText
  pub new_v7 : ℕ → Uuid
  pub sha256 : Text → Text
  pub idempotency_ttl : ℕ

abbrev pub Tx {ℓ} : Type ℓ → Type ℓ
Tx A = World → Result A × World

infixl 5 ◌>>=◌ ◌>>◌
abbrev pub ◌>>=◌ : {A B : Type 0} → Tx A → (A → Tx B) → Tx B
◌>>=◌ m f w = let (r, w') = m w in elim r [ ok a ↦ f a w' | err e ↦ (err e, w') ]

abbrev pub ◌>>◌ : {A B : Type 0} → Tx A → Tx B → Tx B
m >> k = m >>= λ _. k

abbrev pub pure : {A : Type 0} → A → Tx A
pure a w = (ok a, w)

abbrev pub throw : {A : Type 0} → GoError → Tx A
throw e w = (err e, w)

abbrev pub next_fault : List Fault → Fault
next_fault [] = pass
next_fault (f ∷ fs) = f

abbrev pub later_faults : List Fault → List Fault
later_faults [] = []
later_faults (f ∷ fs) = fs

abbrev pub after_call : World → World
after_call w = record w { faults = later_faults w.faults }

abbrev pub settle : {A : Type 0} → Result (A × Db) → World → Result A × World
settle (ok (a, db)) w = (ok a, record w { db = db })
settle (err e) w = (err e, w)

-- One round trip: the statement runs, or the connection or the server fails it.
unfoldable pub exec : {A : Type 0} → Sql A → Tx A
exec s w = elim (next_fault w.faults) [
  | pass ↦ settle (s w.db) (after_call w)
  | fail e ↦ (err e, after_call w)
  | lost e ↦ (err e, after_call w)
]

-- `code[:sqlStateClassLen]` is a class of temporary unavailability
unfoldable pub is_unavailable_code : Text → Bool
is_unavailable_code code =
    length code == 5
    && (text_eq (take 2 code) (codes "08")
        || text_eq (take 2 code) (codes "53")
        || text_eq (take 2 code) (codes "57")
        || text_eq (take 2 code) (codes "58"))

abbrev pub tag_unavailable : GoError → GoError
tag_unavailable e = wrap_both (sentinel unavailable) e

abbrev pub map_by_code : Option Text → GoError → GoError
map_by_code (some code) e = if is_unavailable_code code then tag_unavailable e else e
map_by_code none e = if as_net_error e then tag_unavailable e else e

-- `mapDBError` on an error; on nil it is nil
unfoldable pub map_db_error : GoError → GoError
map_db_error e =
    if is canceled e || is deadline_exceeded e then e else map_by_code (as_pg_error e) e

abbrev pub mapped : {A : Type 0} → Result A → Result A
mapped (ok a) = ok a
mapped (err e) = err (map_db_error e)

-- the deferred Rollback takes the tables back to `db`
abbrev pub rollback : Db → World → World
rollback db w = record w { db = db }

unfoldable pub commit : {A : Type 0} → Db → A → Tx A
commit db a w = elim (next_fault w.faults) [
  | pass ↦ (ok a, after_call w)
  | fail e ↦ (err (map_db_error e), rollback db (after_call w))
  | lost e ↦ (err (map_db_error e), after_call w)
]

abbrev pub finish : {A : Type 0} → Db → Result A × World → Result A × World
finish db (ok a, w) = commit db a w
finish db (err e, w) = (err (map_db_error e), rollback db w)

-- `withTx`
unfoldable pub with_tx : {A : Type 0} → Tx A → Tx A
with_tx fn w = elim (next_fault w.faults) [
  | pass ↦ finish w.db (fn (after_call w))
  | fail e ↦ (err (map_db_error e), after_call w)
  | lost e ↦ (err (map_db_error e), after_call w)
]

-- a query outside a transaction: one call, its error mapped
unfoldable pub query : {A : Type 0} → Sql A → Tx A
query s w = let (r, w') = exec s w in (mapped r, w')

-- A statement outside a transaction commits by itself, so that it may be applied and its answer be lost.
abbrev pub applied : {A : Type 0} → Result (A × Db) → World → World
applied (ok (a, db)) w = record w { db = db }
applied (err e) w = w

unfoldable pub autocommit : {A : Type 0} → Sql A → Tx A
autocommit s w = elim (next_fault w.faults) [
  | pass ↦ (let (r, w') = settle (s w.db) (after_call w) in (mapped r, w'))
  | fail e ↦ (err (map_db_error e), after_call w)
  | lost e ↦ (err (map_db_error e), applied (s w.db) (after_call w))
]
