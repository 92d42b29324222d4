-- ===== src/Commands/Storefront.antt =====
-- run of cmd/storefront/main.go with Verify of migrations/migrations.go.
use storefront.Common.{Bool, List, Option, [], codes, false, none, some, true, ◌∷◌}
use storefront.Commands.{
  Run, amqp_connection, checked, deferred, fails, passed_on, pinged, pool, publisher, schema_db,
  served, then_run, valkey_client,
}
use storefront.Errors.{GoError, message}

-- what Verify meets
pub record VerifyMeets : Type 0 where
  pub parse_error : Option GoError
  pub ping_error : Option GoError
  pub provider_error : Option GoError
  pub check_error : Option GoError
  pub is_pending : Bool

abbrev pub if_current : Bool → Run
if_current true = fails (message (codes "schema outdated: run migrations"))
if_current false = (none, [])

-- Verify behind sql.Open, whose Close is deferred
abbrev pub check_schema : VerifyMeets → Run
check_schema m = checked (codes "ping db") m.ping_error (
    passed_on m.provider_error
      (checked (codes "check pending migrations") m.check_error (if_current m.is_pending)))

-- `Verify`
unfoldable pub verify_schema : VerifyMeets → Run
verify_schema m =
    checked (codes "parse pg config") m.parse_error (deferred schema_db (check_schema m))

-- what the rest of run meets; `finished` are the results of the five parts of its errgroup, in the
-- order in which they return
pub record RunMeets : Type 0 where
  pub verify : VerifyMeets
  pub pool_parse : Option GoError
  pub pool_create : Option GoError
  pub pool_ping : Option GoError
  pub valkey_create : Option GoError
  pub valkey_ping : Option GoError
  pub amqp_connect : Option GoError
  pub publisher_new : Option GoError
  pub server_new : Option GoError
  pub finished : List (Option GoError)

-- eg.Wait: the first error
unfoldable pub group_error : List (Option GoError) → Option GoError
group_error [] = none
group_error (none ∷ rest) = group_error rest
group_error (some e ∷ rest) = some e

-- `openPostgres` and its deferred Close
abbrev pub open_postgres : RunMeets → Run → Run
open_postgres m k = checked (codes "parse pg config") m.pool_parse (
    checked (codes "create pg pool") m.pool_create
      (pinged pool (codes "ping pg database") m.pool_ping k))

-- `openValkey` and its deferred Close
abbrev pub open_valkey : RunMeets → Run → Run
open_valkey m k =
    checked (codes "create valkey client") m.valkey_create
      (pinged valkey_client (codes "ping valkey") m.valkey_ping k)

-- `openRabbitMQ` and its deferred Close
abbrev pub open_rabbitmq : RunMeets → Run → Run
open_rabbitmq m k = checked (codes "connect rabbitmq") m.amqp_connect (deferred amqp_connection k)

-- the servers and the parts that run until one of them fails
abbrev pub run_parts : RunMeets → Run
run_parts m = passed_on m.server_new (group_error m.finished, served ∷ [])

-- the publisher with its deferred Close
abbrev pub serve : RunMeets → Run
serve m = passed_on m.publisher_new (deferred publisher (run_parts m))

-- `run`
unfoldable pub run_storefront : RunMeets → Run
unfolding verify_schema
run_storefront m =
    then_run (verify_schema m.verify) (open_postgres m (open_valkey m (open_rabbitmq m (serve m))))
