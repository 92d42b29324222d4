-- ===== src/Commands/Locked.antt =====
-- The connection and the session lock of the migrate command: cmd/migrate/main.go.
use storefront.Common.{
  Bool, List, Option, Text, [], codes, false, if◌then◌else◌, none, refl, some, text_eq, true, ◌∷◌,
  ◌≡◌,
}
use storefront.Commands.{
  Run, changed, checked, fails, listed, passed_on, pinged, schema_db, then_run,
}
use storefront.Commands.Brackets.{
  Keeps, act, acts, checked-Keeps, fails-Keeps, passed_on-Keeps, pinged-Keeps, then_run-Keeps,
}
use storefront.Commands.Migrate.{
  MigrateMeets, Provider, down, exec_command, goose, locking_provider, migrate_main, migrates,
  new_provider, parse_command, parsed, run_migrate, status, unknown_command, up,
  with_session_locker,
}
use storefront.Errors.{GoError, Result, err, ok}

goose-Keeps :
    (text : Text) (e : Option GoError)
    → Keeps (schema_db ∷ []) (goose text e (changed true) (none, []))
unfolding acts act
goose-Keeps text none = refl
goose-Keeps text (some e) = refl

locking-Keeps :
    (m : MigrateMeets) (k : Provider → Run)
    → Keeps (schema_db ∷ []) (k (record { takes_lock = true }))
    → Keeps (schema_db ∷ []) (locking_provider m k)
locking-Keeps m k h =
    checked-Keeps (schema_db ∷ []) (codes "create session locker") m.locker_error
      (new_provider m.provider_error (with_session_locker ∷ []) k)
      (passed_on-Keeps (schema_db ∷ []) m.provider_error (k (record { takes_lock = true })) h)

status-Keeps : (m : MigrateMeets) → Keeps (schema_db ∷ []) (status m)
unfolding acts act
status-Keeps m =
    passed_on-Keeps (schema_db ∷ []) m.provider_error
      (then_run (m.goose_error, listed ∷ []) (passed_on m.print_error (none, [])))
      (then_run-Keeps (schema_db ∷ []) (m.goose_error, listed ∷ [])
        (passed_on m.print_error (none, [])) refl
        (passed_on-Keeps (schema_db ∷ []) m.print_error (none, []) refl))

exec_command-Keeps : (m : MigrateMeets) (cmd : Text) → Keeps (schema_db ∷ []) (exec_command m cmd)
unfolding exec_command
exec_command-Keeps m cmd =
    go (text_eq cmd (codes "up")) (text_eq cmd (codes "status")) (text_eq cmd (codes "down"))
  where
    go :
        (a b c : Bool)
        → Keeps (schema_db ∷ []) (
            if a
            then up m
            else if b
            then status m
            else if c
            then down m
            else fails (unknown_command cmd))
    go true b c =
        locking-Keeps m
          (λ p. goose (codes "apply migrations") m.goose_error (migrates p) (none, []))
          (goose-Keeps (codes "apply migrations") m.goose_error)
    go false true c = status-Keeps m
    go false false true =
        locking-Keeps m
          (λ p. goose (codes "roll back migration") m.goose_error (migrates p) (none, []))
          (goose-Keeps (codes "roll back migration") m.goose_error)
    go false false false = fails-Keeps (schema_db ∷ []) (unknown_command cmd)

-- Whatever the arguments of the migrate command are and whatever its calls meet, it closes the
-- connection that it has opened, and changes the schema only over it and under the session lock.
pub migrate_brackets :
    (m : MigrateMeets) (args : List Text) → acts (migrate_main m args).1 [] ≡ some []
unfolding migrate_main run_migrate
migrate_brackets m args = go (parse_command args)
  where
    go : (r : Result Text) → Keeps [] (parsed m r)
    go (err e) = fails-Keeps [] e
    go (ok cmd) =
        let ping = pinged schema_db (codes "ping postgres") m.ping_error (exec_command m cmd) in
        checked-Keeps [] (codes "load postgres config") m.config_error
          (checked (codes "parse pg config") m.parse_error ping)
          (checked-Keeps [] (codes "parse pg config") m.parse_error ping (
            pinged-Keeps [] schema_db (codes "ping postgres") m.ping_error (exec_command m cmd)
              (exec_command-Keeps m cmd)))
