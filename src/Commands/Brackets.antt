-- ===== src/Commands/Brackets.antt =====
-- What a command opens, against what it closes: cmd/storefront/main.go.
use storefront.Common.{
  ==_refl, Bool, List, Option, Text, [], ap, codes, false, if◌then◌else◌, none, refl, some, true, ℕ,
  ◌++◌, ◌==◌, ◌∙◌, ◌∷◌, ◌≡◌,
}
use storefront.Commands.{
  Action, Resource, Run, amqp_connection, changed, checked, closed, deferred, fails, listed, opened,
  passed_on, pinged, pool, publisher, schema_db, served, then_run, valkey_client,
}
use storefront.Commands.Storefront.{
  RunMeets, VerifyMeets, check_schema, group_error, if_current, open_postgres, open_rabbitmq,
  open_valkey, run_parts, run_storefront, serve, verify_schema,
}
use storefront.Errors.{GoError, wrap}

abbrev rank : Resource → ℕ
rank schema_db = 0
rank pool = 1
rank valkey_client = 2
rank amqp_connection = 3
rank publisher = 4

-- One action over the resources that are open, the last opened first. The parts are served with
-- all that they use, and the schema is changed under the session lock over its own connection.
unfoldable pub act : Action → List Resource → Option (List Resource)
act (opened r) open_now = some (r ∷ open_now)
act (closed r) [] = none
act (closed r) (s ∷ open_now) = if rank r == rank s then some open_now else none
act served (publisher ∷ amqp_connection ∷ valkey_client ∷ pool ∷ []) =
    some (publisher ∷ amqp_connection ∷ valkey_client ∷ pool ∷ [])
act served open_now = none
act (changed true) (schema_db ∷ []) = some (schema_db ∷ [])
act (changed locked) open_now = none
act listed (schema_db ∷ []) = some (schema_db ∷ [])
act listed open_now = none

abbrev pub after_act :
    Option (List Resource) → (List Resource → Option (List Resource)) → Option (List Resource)
after_act none k = none
after_act (some open_now) k = k open_now

-- the actions in order
unfoldable pub acts : List Action → List Resource → Option (List Resource)
acts [] open_now = some open_now
acts (a ∷ t) open_now = after_act (act a open_now) (acts t)

acts-append :
    (t u : List Action) (open_now : List Resource)
    → acts (t ++ u) open_now ≡ after_act (acts t open_now) (acts u)
unfolding acts
acts-append [] u open_now = refl
acts-append (a ∷ t) u open_now = go (acts-append t u) (act a open_now)
  where
    go :
        ((o : List Resource) → acts (t ++ u) o ≡ after_act (acts t o) (acts u))
        → (o : Option (List Resource))
        → after_act o (acts (t ++ u)) ≡ after_act (after_act o (acts t)) (acts u)
    go rest none = refl
    go rest (some o) = rest o

-- a part of a run that starts and ends with these resources open
abbrev pub Keeps : List Resource → Run → Type 0
Keeps open_now (e, t) = acts t open_now ≡ some open_now

close_last : (r : Resource) → (rank r == rank r) ≡ true
close_last r = ==_refl (rank r)

pub fails-Keeps : (open_now : List Resource) (e : GoError) → Keeps open_now (fails e)
unfolding acts
fails-Keeps open_now e = refl

pub checked-Keeps :
    (open_now : List Resource) (text : Text) (e : Option GoError) (k : Run)
    → Keeps open_now k
    → Keeps open_now (checked text e k)
checked-Keeps open_now text none k h = h
checked-Keeps open_now text (some e) k h = fails-Keeps open_now (wrap text e)

pub passed_on-Keeps :
    (open_now : List Resource) (e : Option GoError) (k : Run)
    → Keeps open_now k
    → Keeps open_now (passed_on e k)
passed_on-Keeps open_now none k h = h
passed_on-Keeps open_now (some e) k h = fails-Keeps open_now e

deferred-Keeps :
    (open_now : List Resource) (r : Resource) (k : Run)
    → Keeps (r ∷ open_now) k
    → Keeps open_now (deferred r k)
unfolding acts act
deferred-Keeps open_now r (e, t) h =
    acts-append t (closed r ∷ []) (r ∷ open_now)
    ∙ ap (λ o. after_act o (acts (closed r ∷ []))) h
    ∙ rw (close_last r) refl

pub pinged-Keeps :
    (open_now : List Resource) (r : Resource) (text : Text) (e : Option GoError) (k : Run)
    → Keeps (r ∷ open_now) k
    → Keeps open_now (pinged r text e k)
unfolding acts act
pinged-Keeps open_now r text none k h = deferred-Keeps open_now r k h
pinged-Keeps open_now r text (some e) k h = rw (close_last r) refl

pub then_run-Keeps :
    (open_now : List Resource) (j k : Run)
    → Keeps open_now j
    → Keeps open_now k
    → Keeps open_now (then_run j k)
then_run-Keeps open_now (some e, t) k h g = h
then_run-Keeps open_now (none, t) (e, u) h g =
    acts-append t u open_now ∙ ap (λ o. after_act o (acts u)) h ∙ g

verify-Keeps : (m : VerifyMeets) → Keeps [] (verify_schema m)
unfolding verify_schema acts
verify-Keeps m =
    checked-Keeps [] (codes "parse pg config") m.parse_error (deferred schema_db (check_schema m)) (
      deferred-Keeps [] schema_db (check_schema m) (
        checked-Keeps (schema_db ∷ []) (codes "ping db") m.ping_error
          (passed_on m.provider_error checks)
          (passed_on-Keeps (schema_db ∷ []) m.provider_error checks (
            checked-Keeps (schema_db ∷ []) (codes "check pending migrations") m.check_error
              (if_current m.is_pending) (current m.is_pending)))))
  where
    checks : Run
    checks = checked (codes "check pending migrations") m.check_error (if_current m.is_pending)

    current : (b : Bool) → Keeps (schema_db ∷ []) (if_current b)
    current true = refl
    current false = refl

module _ (m : RunMeets) where
  parts-Keeps : Keeps (publisher ∷ amqp_connection ∷ valkey_client ∷ pool ∷ []) (run_parts m)
  unfolding acts act
  parts-Keeps = go m.server_new
    where
      go :
          (e : Option GoError)
          → Keeps
              (publisher ∷ amqp_connection ∷ valkey_client ∷ pool ∷ [])
              (passed_on e (group_error m.finished, served ∷ []))
      go none = refl
      go (some e) = refl

  serve-Keeps : Keeps (amqp_connection ∷ valkey_client ∷ pool ∷ []) (serve m)
  serve-Keeps =
      passed_on-Keeps (amqp_connection ∷ valkey_client ∷ pool ∷ []) m.publisher_new
        (deferred publisher (run_parts m))
        (deferred-Keeps (amqp_connection ∷ valkey_client ∷ pool ∷ []) publisher (run_parts m)
          parts-Keeps)

  rabbitmq-Keeps : Keeps (valkey_client ∷ pool ∷ []) (open_rabbitmq m (serve m))
  rabbitmq-Keeps =
      checked-Keeps (valkey_client ∷ pool ∷ []) (codes "connect rabbitmq") m.amqp_connect
        (deferred amqp_connection (serve m))
        (deferred-Keeps (valkey_client ∷ pool ∷ []) amqp_connection (serve m) serve-Keeps)

  valkey-Keeps : Keeps (pool ∷ []) (open_valkey m (open_rabbitmq m (serve m)))
  valkey-Keeps =
      let k = open_rabbitmq m (serve m) in
      checked-Keeps (pool ∷ []) (codes "create valkey client") m.valkey_create
        (pinged valkey_client (codes "ping valkey") m.valkey_ping k)
        (pinged-Keeps (pool ∷ []) valkey_client (codes "ping valkey") m.valkey_ping k
          rabbitmq-Keeps)

  postgres-Keeps : Keeps [] (open_postgres m (open_valkey m (open_rabbitmq m (serve m))))
  postgres-Keeps =
      let k = open_valkey m (open_rabbitmq m (serve m)) in
      let ping = pinged pool (codes "ping pg database") m.pool_ping k in
      checked-Keeps [] (codes "parse pg config") m.pool_parse
        (checked (codes "create pg pool") m.pool_create ping)
        (checked-Keeps [] (codes "create pg pool") m.pool_create ping
          (pinged-Keeps [] pool (codes "ping pg database") m.pool_ping k valkey-Keeps))

-- Whatever the calls of the storefront command meet, it closes all that it has opened, the last opened
-- first, the servers, the relay and the janitor run with the pool, the cache, the broker's connection
-- and the publisher open, and the connection of the schema check is closed before these are opened.
pub storefront_brackets : (m : RunMeets) → acts (run_storefront m).1 [] ≡ some []
unfolding run_storefront
storefront_brackets m =
    then_run-Keeps [] (verify_schema m.verify)
      (open_postgres m (open_valkey m (open_rabbitmq m (serve m)))) (verify-Keeps m.verify)
      (postgres-Keeps m)
