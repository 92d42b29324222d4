-- ===== src/Lib.antt =====
-- The product store and its services: a model of the Go program of this repository and what is proved of
-- it.
--
-- The program is a shop: it keeps products and orders in PostgreSQL, answers product reads through a
-- Valkey cache, and publishes an event of every write with a transactional outbox. The transports call
-- the service (internal/service), which calls the store (internal/store) and the cache (internal/cache).
-- A write of the store changes its table and inserts one row into the outbox, in one transaction; the
-- relay (internal/outbox) drains the outbox in batches to the message broker (internal/bus).
--
-- Files and code:
-- - Common, with its children: Boolean tests, lists, integers and byte texts for all modules.
-- - Errors: Go errors as the program builds and tests them; `is` is errors.Is.
-- - Domain: internal/domain. Money, Products, Orders and Pages are its files; `validate_product` is
--   Product.Validate, `normalize_page_size`, `parse_cursor` and `next_cursor` are the pagination.
-- - Events: internal/event. `new_event` is New and `new_purchased` is NewPurchased.
-- - Store.Schema: migrations/*.sql, the rows with their types and CHECK constraints.
-- - Store.Sql: internal/store/queries.go. A statement is a function from the tables to its rows and the
--   tables after it, or an error.
-- - Store.Tx: withTx and mapDBError of internal/store/postgres.go. Every call of the database takes the
--   next of a list of faults: it passes, fails with an error, or, for a commit, is applied and its answer
--   is lost; a statement that commits by itself is an `autocommit`. A transaction that fails goes back to the tables that it started from; ids and sequence
--   values stay used up.
-- - Store.Products and Store.Orders: the operations of product_store.go, order_store.go and
--   idempotency_store.go. `save`, `update`, `delete`, `find_by_id`, `find_all`, `create_order`,
--   `find_order`, `find_orders` and `purge_idempotency_keys` have the names of the methods; a `_body` is
--   the function that a method runs in its transaction.
-- - Store.Outbox: outbox.go. `drain_batch` is DrainBatch; the broker answers each record in any way and
--   keeps what it has taken. Store.Outbox.Fates says, row by row and apart from the code, what is to
--   become of a batch; Store.Outbox.Settled compares. Store.Outbox.Together: two relays at a time, along
--   Store.Outbox.Commuting.
-- - Store.Purchases, Claims, Replays, Retries, Writes and Committed: what the operations have done when
--   they return, or when they fail. Store.Sound: the invariant of the tables. Store.Stock: stock against
--   sales. Store.Paging: listings page by page. Store.Privacy: the orders of different users.
--   Store.Refusals: the errors of a purchase.
-- - Cache: internal/cache. A cell holds bytes until they expire; `set_cmd` is the guard, SET NX or SET
--   IFEQ.
-- - Service: internal/service. `find_product` is FindByID, `load_product` the function of a flight, and
--   `create`, `update_and_invalidate`, `delete_and_invalidate` and `create_order_for` are the writes.
--   Service.Races has the steps of flights and writers of one product that interleave. Service.CallGroup
--   is callgroup.go: the callers of Do that share a flight.
-- - Bus: internal/bus. `publish_message` is Publish over an AMQP client that answers in any way.
-- - Relay: internal/outbox. `run` is Run, by what each turn of its loop meets: the result of DrainBatch,
--   the error of the listener and the cancellations of the context.
-- - Config: internal/config/validate.go and the loaders of config.go; `validate` lists the settings that its
--   errors name.
-- - Auth: internal/auth. `verify` is Verify over a parser of JWTs.
-- - Grpc: internal/transport/grpc/handler.go and dto.go; a method has the suffix `_rpc`, and a status is
--   kept by its code. Grpc.Interceptors is interceptor.go and Grpc.Server the chain of newServer, where a
--   handler may panic. Grpc.Served: replies and the log. Grpc.Orders: who places an order, along
--   Grpc.Ownership. Grpc.Oversized follows a name that is too long for its column through the layers.
-- - Http: internal/transport/http/handler.go, dto.go and codec.go, one function per handler; Http.Lists
--   and Http.Limit have the two list handlers and parseLimit, Http.Wire the request and the response:
--   `respond_json` is respond, whose call of json.MarshalWrite may fail behind the status.
--   Http.Router is the mux and Auth, Http.Middleware the chain of middleware.go, where a handler
--   may panic, and Http.Api the two put together. Http.Polite and Http.Answers: what each response has.
--   Http.Arrivals, Http.Late and Http.Permits: what a request shows before it reaches a handler.
--   Http.Orders: who places an order, along Store.Ownership, Service.Ownership and Http.Ownership.
--   Http.Parity and Http.Effects stand the handlers beside gRPC's.
-- - Pg: the listener and the janitor of internal/pg. Pg.Connections: the listener's connections. Pg.Sweeps:
--   what the janitor has removed. Relay.Progress runs the relay over DrainBatch, batch by batch.
-- - Commands: cmd/storefront and cmd/migrate. Commands.Storefront is the start and the end of the service,
--   Commands.Migrate the migration under the advisory lock; Commands.Brackets and Commands.Locked: the
--   resources that they open and close.
-- - Tests: runs of the code, and the theorems applied to concrete inputs.
--
-- Bounds and fuel: identifiers and times are natural numbers, the columns keep their ranges (INTEGER,
-- BIGINT and VARCHAR are checked where a statement writes them). `list_all` takes fuel for the number of
-- pages; more fuel than there are rows is enough, since each page but the last has at least one row.
-- `digit_loop` takes the number itself as fuel, which has fewer digits than that. `drive` runs the relay for
-- a given number of turns.
--
-- Parameters: the texts of uuids and of JSON with their round trips, SHA-256, the generated ids, random
-- texts, the checks of JWTs, what the JSON decoder makes of a request's body, whole or cut off at its
-- limit, the host of a URL, the headers and the preflight of the CORS package, the encoding of a
-- compressed answer and whether its status is held back to the end, which writes of a payload fail, and how each call of PostgreSQL, Valkey, the broker and the migration library ends.
-- That random texts of tombstones differ is a hypothesis of the theorem that needs it.
--
-- Not modelled: transactions of the service that run at a time, which the row locks of the statements order; context
-- deadlines other than as faults and in the call group; logging, but for the requests' lines, and the texts
-- of messages; the network servers of HTTP and gRPC and their lifetimes, with the limit that grpc-go sets
-- to a message; the probes; the parser of the environment; the generator of tokens.
pub mod Common
pub mod Errors
pub mod Domain
pub mod Events
pub mod Store
pub mod Bus
pub mod Relay
pub mod Pg
pub mod Cache
pub mod Service
pub mod Config
pub mod Auth
pub mod Grpc
pub mod Http
pub mod Commands
mod Tests
