-- ===== src/Commands.antt =====
-- The commands of cmd/storefront and cmd/migrate: what they open and close, over outcomes of the calls
-- that they make. A deferred call runs when its function returns, the last one first.
pub mod Storefront
pub mod Migrate
pub mod Brackets
pub mod Locked
use storefront.Common.{Bool, List, Option, Text, [], none, some, ◌++◌, ◌∷◌}
use storefront.Errors.{GoError, wrap}

pub data Resource : Type 0 where
  schema_db pool valkey_client amqp_connection publisher : Resource

-- what a command does, in order
pub data Action : Type 0 where
  opened closed : Resource → Action
  -- the servers, the relay and the janitor have run
  served : Action
  -- the provider has changed the schema, with or without the session locker
  changed : Bool → Action
  listed : Action

-- the error that a command returns, with what it has done
abbrev pub Run : Type 0
Run = Option GoError × List Action

abbrev pub fails : GoError → Run
fails e = (some e, [])

abbrev pub does : Action → Run
does a = (none, a ∷ [])

-- a call that may fail, and what follows it
abbrev pub checked : Text → Option GoError → Run → Run
checked text none k = k
checked text (some e) k = fails (wrap text e)

-- a call whose error is returned as it is
abbrev pub passed_on : Option GoError → Run → Run
passed_on none k = k
passed_on (some e) k = fails e

-- open a resource, defer its Close and go on
abbrev pub deferred : Resource → Run → Run
deferred r (e, t) = (e, opened r ∷ (t ++ closed r ∷ []))

-- open a resource and ping it; when the ping fails it is closed at once
abbrev pub pinged : Resource → Text → Option GoError → Run → Run
pinged r text none k = deferred r k
pinged r text (some e) k = (some (wrap text e), opened r ∷ closed r ∷ [])

abbrev pub then_run : Run → Run → Run
then_run (none, t) (e, u) = (e, t ++ u)
then_run (some e, t) k = (some e, t)
