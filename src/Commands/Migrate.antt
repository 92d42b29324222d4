-- ===== src/Commands/Migrate.antt =====
-- cmd/migrate/main.go with Up, Down and Status of migrations/migrations.go.
use storefront.Common.{
  Bool, List, Option, Text, [], any, codes, false, if◌then◌else◌, none, some, text_eq, true, ◌++◌,
  ◌∷◌,
}
use storefront.Commands.{
  Action, Run, changed, checked, does, fails, listed, passed_on, pinged, schema_db, then_run,
}
use storefront.Errors.{GoError, Result, err, message, ok, wrap}

abbrev pub valid_commands : List Text
valid_commands = codes "up" ∷ codes "status" ∷ codes "down" ∷ []

-- `parseCommand`, on os.Args
unfoldable pub parse_command : List Text → Result Text
parse_command (program ∷ cmd ∷ []) =
    if any (text_eq cmd) valid_commands then ok cmd else err (message (codes "unknown command"))
parse_command args = err (message (codes "expected exactly one command"))

-- what the command meets: the errors of the configuration, of the connection, of the session locker, of
-- goose.NewProvider and of its call, and of the output
pub record MigrateMeets : Type 0 where
  pub config_error : Option GoError
  pub parse_error : Option GoError
  pub ping_error : Option GoError
  pub locker_error : Option GoError
  pub provider_error : Option GoError
  pub goose_error : Option GoError
  pub print_error : Option GoError

-- the call of goose, and what it does when it returns no error
abbrev pub goose : Text → Option GoError → Action → Run → Run
goose text none a k = then_run (does a) k
goose text (some e) a k = (some (wrap text e), a ∷ [])

pub data ProviderOption : Type 0 where
  with_session_locker : ProviderOption

-- A goose.Provider, by whether it takes the session lock around a change of the schema.
pub record Provider : Type 0 where
  pub takes_lock : Bool

abbrev pub has_locker : List ProviderOption → Bool
has_locker [] = false
has_locker (with_session_locker ∷ more) = true

-- `newProvider`, and what is done with the provider
abbrev pub new_provider : Option GoError → List ProviderOption → (Provider → Run) → Run
new_provider error opts k = passed_on error (k (record { takes_lock = has_locker opts }))

-- `newLockingProvider`
abbrev pub locking_provider : MigrateMeets → (Provider → Run) → Run
locking_provider m k =
    checked (codes "create session locker") m.locker_error
      (new_provider m.provider_error (with_session_locker ∷ []) k)

-- Provider.Up and Provider.Down, which change the schema under the lock that the provider takes
abbrev pub migrates : Provider → Action
migrates p = changed p.takes_lock

-- `Up` and `Down`; a call of goose that fails may have run some migrations
abbrev pub up : MigrateMeets → Run
up m =
    locking_provider m (λ p. goose (codes "apply migrations") m.goose_error (migrates p) (none, []))

abbrev pub down : MigrateMeets → Run
down m =
    locking_provider m
      (λ p. goose (codes "roll back migration") m.goose_error (migrates p) (none, []))

-- `Status`, and printStatus
abbrev pub status : MigrateMeets → Run
status m =
    new_provider m.provider_error []
      (λ p. then_run (m.goose_error, listed ∷ []) (passed_on m.print_error (none, [])))

abbrev pub unknown_command : Text → GoError
unknown_command cmd = message (codes "unknown command: " ++ cmd)

-- `execCommand`
unfoldable pub exec_command : MigrateMeets → Text → Run
exec_command m cmd =
    if text_eq cmd (codes "up")
    then up m
    else if text_eq cmd (codes "status")
    then status m
    else if text_eq cmd (codes "down")
    then down m
    else fails (unknown_command cmd)

-- `run` of cmd/migrate, with openDB
unfoldable pub run_migrate : MigrateMeets → Text → Run
run_migrate m cmd = checked (codes "load postgres config") m.config_error (
    checked (codes "parse pg config") m.parse_error
      (pinged schema_db (codes "ping postgres") m.ping_error (exec_command m cmd)))

abbrev pub parsed : MigrateMeets → Result Text → Run
parsed m (err e) = fails e
parsed m (ok cmd) = run_migrate m cmd

-- `main`, whose exit code tells an error
unfoldable pub migrate_main : MigrateMeets → List Text → Run
unfolding run_migrate
migrate_main m args = parsed m (parse_command args)
