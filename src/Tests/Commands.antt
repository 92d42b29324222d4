-- ===== src/Tests/Commands.antt =====
-- The theorems on the commands, applied to runs that fail on their way.
use storefront.Common.{List, Text, [], codes, false, none, refl, some, text_eq, ◌∷◌, ◌≡◌}
use storefront.Commands.{closed, opened, pool, schema_db, valkey_client}
use storefront.Commands.Brackets.{acts, storefront_brackets}
use storefront.Commands.Locked.{migrate_brackets}
use storefront.Commands.Migrate.{MigrateMeets, exec_command, migrate_main, parse_command}
use storefront.Commands.Storefront.{RunMeets, VerifyMeets, group_error, run_storefront}
use storefront.Errors.{canceled, net_error, sentinel}

abbrev current_schema : VerifyMeets
current_schema = record {
  parse_error = none;
  ping_error = none;
  provider_error = none;
  check_error = none;
  is_pending = false;
}

-- the broker cannot be reached
abbrev no_broker : RunMeets
no_broker = record {
  verify = current_schema;
  pool_parse = none;
  pool_create = none;
  pool_ping = none;
  valkey_create = none;
  valkey_ping = none;
  amqp_connect = some net_error;
  publisher_new = none;
  server_new = none;
  finished = [];
}

no_broker_actions :
    (run_storefront no_broker).1
    ≡ opened schema_db
      ∷ closed schema_db
      ∷ opened pool
      ∷ opened valkey_client
      ∷ closed valkey_client
      ∷ closed pool
      ∷ []
unfolding run_storefront
no_broker_actions = refl

storefront_brackets_example : acts (run_storefront no_broker).1 [] ≡ some []
storefront_brackets_example = storefront_brackets no_broker

-- the relay's part of the group fails
part_failed :
    (run_storefront (record no_broker {
      amqp_connect = none;
      finished = none ∷ some net_error ∷ some (sentinel canceled) ∷ [];
    })).0
    ≡ some net_error
unfolding run_storefront group_error
part_failed = refl

abbrev locker_fails : MigrateMeets
locker_fails = record {
  config_error = none;
  parse_error = none;
  ping_error = none;
  locker_error = some net_error;
  provider_error = none;
  goose_error = none;
  print_error = none;
}

abbrev migrate_up : List Text
migrate_up = codes "migrate" ∷ codes "up" ∷ []

migrate_brackets_example : acts (migrate_main locker_fails migrate_up).1 [] ≡ some []
migrate_brackets_example = migrate_brackets locker_fails migrate_up

nothing_changed :
    (migrate_main locker_fails migrate_up).1 ≡ opened schema_db ∷ closed schema_db ∷ []
unfolding migrate_main parse_command exec_command text_eq
nothing_changed = refl
