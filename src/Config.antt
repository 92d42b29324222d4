-- ===== src/Config.antt =====
-- internal/config/validate.go over the settings of config.go, and the loaders. A setting that no check
-- reads is left out; durations are in nanoseconds.
pub mod Guarantees
pub mod Loads
use storefront.Common.{
  Bool, List, Text, [], any, codes, false, if◌then◌else◌, leb, leb_ℤ, length, ltb_ℤ, pos, text_eq,
  true, ℤ, ◌&&◌, ◌++◌, ◌==◌, ◌∷◌,
}
use storefront.Errors.{GoError, Result, err, ok}
use storefront.Store.Orders.{format_int}

pub record Http : Type 0 where
  pub host : Text
  pub port : ℤ
  pub internal_port : ℤ
  pub read_timeout : ℤ
  pub write_timeout : ℤ
  pub idle_timeout : ℤ
  pub request_timeout : ℤ
  pub max_body_bytes : ℤ
  pub compress_min_bytes : ℤ
  pub hsts_max_age : ℤ

pub record Grpc : Type 0 where
  pub host : Text
  pub port : ℤ
  pub request_timeout : ℤ
  pub max_request_bytes : ℤ

pub record Postgres : Type 0 where
  pub max_open_conns : ℤ
  pub max_idle_conns : ℤ
  pub conn_max_lifetime : ℤ

pub record ValkeySettings : Type 0 where
  pub ttl : ℤ
  pub neg_ttl : ℤ

pub record OutboxSettings : Type 0 where
  pub batch_size : ℤ
  pub poll_interval : ℤ
  pub publish_timeout : ℤ
  pub max_attempts : ℤ

pub record Settings : Type 0 where
  pub http : Http
  pub grpc : Grpc
  pub postgres : Postgres
  pub valkey : ValkeySettings
  pub outbox : OutboxSettings
  pub load_timeout : ℤ
  pub idempotency_ttl : ℤ
  pub purge_interval : ℤ
  pub jwt_secret : Text
  pub shutdown_timeout : ℤ

-- an error, by the settings that it names, or nil
abbrev pub Problems : Type 0
Problems = List Text

-- errors.Join
abbrev pub join : List Problems → Problems
join [] = []
join (p ∷ ps) = p ++ join ps

abbrev pub unless : Bool → Text → Problems
unless holds name = if holds then [] else name ∷ []

-- `positive`
abbrev pub positive : Text → ℤ → Problems
positive name v = unless (ltb_ℤ (pos 0) v) name

-- `notNegative`
abbrev pub not_negative : Text → ℤ → Problems
not_negative name v = unless (leb_ℤ (pos 0) v) name

-- `atLeast`
abbrev pub at_least : Text → ℤ → ℤ → Problems
at_least name v floor = unless (leb_ℤ floor v) name

-- `listenPort`
abbrev pub listen_port : Text → ℤ → Problems
listen_port name v = unless (leb_ℤ (pos 1) v && leb_ℤ v (pos 65535)) name

-- `HTTP.validateResponseDeadline`
abbrev pub validate_response_deadline : Http → Problems
validate_response_deadline h =
    unless (ltb_ℤ h.request_timeout h.write_timeout) (codes "HTTP_WRITE_TIMEOUT")

-- `HTTP.validate`
unfoldable pub validate_http : Http → Problems
validate_http h = join (
    listen_port (codes "HTTP_PORT") h.port
    ∷ listen_port (codes "HTTP_INTERNAL_PORT") h.internal_port
    ∷ positive (codes "HTTP_READ_TIMEOUT") h.read_timeout
    ∷ positive (codes "HTTP_WRITE_TIMEOUT") h.write_timeout
    ∷ positive (codes "HTTP_IDLE_TIMEOUT") h.idle_timeout
    ∷ positive (codes "HTTP_REQUEST_TIMEOUT") h.request_timeout
    ∷ positive (codes "HTTP_MAX_BODY_BYTES") h.max_body_bytes
    ∷ not_negative (codes "HTTP_COMPRESS_MIN_BYTES") h.compress_min_bytes
    ∷ not_negative (codes "HSTS_MAX_AGE") h.hsts_max_age
    ∷ validate_response_deadline h
    ∷ [])

-- `GRPC.validate`
unfoldable pub validate_grpc : Grpc → Problems
validate_grpc g = join (
    listen_port (codes "GRPC_PORT") g.port
    ∷ positive (codes "GRPC_REQUEST_TIMEOUT") g.request_timeout
    ∷ positive (codes "GRPC_MAX_REQUEST_BYTES") g.max_request_bytes
    ∷ [])

-- `Postgres.validate` and `validateConnLimits`
unfoldable pub validate_postgres : Postgres → Problems
validate_postgres p = join (
    positive (codes "PG_MAX_OPEN_CONNS") p.max_open_conns
    ∷ not_negative (codes "PG_MAX_IDLE_CONNS") p.max_idle_conns
    ∷ positive (codes "PG_CONN_MAX_LIFETIME") p.conn_max_lifetime
    ∷ unless (leb_ℤ p.max_idle_conns p.max_open_conns) (codes "PG_MAX_IDLE_CONNS")
    ∷ [])

-- `Valkey.validate`
unfoldable pub validate_valkey : ValkeySettings → Problems
validate_valkey v = join (
    at_least (codes "VALKEY_CACHE_TTL") v.ttl (pos 1000000)
    ∷ at_least (codes "VALKEY_CACHE_NEG_TTL") v.neg_ttl (pos 1000000)
    ∷ [])

-- `Outbox.validate`
unfoldable pub validate_outbox : OutboxSettings → Problems
validate_outbox o = join (
    positive (codes "OUTBOX_BATCH_SIZE") o.batch_size
    ∷ positive (codes "OUTBOX_POLL_INTERVAL") o.poll_interval
    ∷ positive (codes "OUTBOX_PUBLISH_TIMEOUT") o.publish_timeout
    ∷ positive (codes "OUTBOX_MAX_ATTEMPTS") o.max_attempts
    ∷ [])

-- `Auth.validate`
abbrev pub validate_auth : Text → Problems
validate_auth secret = unless (leb 32 (length secret)) (codes "AUTH_JWT_SECRET")

-- net.JoinHostPort of the host and the port's digits: an IPv6 host in brackets
abbrev pub bracketed : Text → Text
bracketed host = if any (λ b. b == b':') host then b'[' ∷ host ++ b']' ∷ [] else host

unfoldable pub address : Text → ℤ → Text
address host port = bracketed host ++ b':' ∷ format_int port

abbrev pub listen_addresses : Settings → List Text
listen_addresses c =
    address c.http.host c.http.port
    ∷ address c.http.host c.http.internal_port
    ∷ address c.grpc.host c.grpc.port
    ∷ []

-- the loop of validateListenAddresses, over the addresses that it has seen
abbrev pub first_repeated : List Text → List Text → Problems
first_repeated seen [] = []
first_repeated seen (a ∷ rest) = elim (any (text_eq a) seen) [
  | true ↦ codes "HTTP_PORT, HTTP_INTERNAL_PORT and GRPC_PORT" ∷ []
  | false ↦ first_repeated (a ∷ seen) rest
]

-- `validateListenAddresses`
unfoldable pub validate_listen_addresses : Settings → Problems
validate_listen_addresses c = first_repeated [] (listen_addresses c)

-- `Config.validate`
unfoldable pub validate : Settings → Problems
validate c = join (
    validate_http c.http
    ∷ validate_grpc c.grpc
    ∷ validate_postgres c.postgres
    ∷ validate_valkey c.valkey
    ∷ validate_outbox c.outbox
    ∷ positive (codes "SERVICE_LOAD_TIMEOUT") c.load_timeout
    ∷ join (
        positive (codes "IDEMPOTENCY_TTL") c.idempotency_ttl
        ∷ positive (codes "IDEMPOTENCY_PURGE_INTERVAL") c.purge_interval
        ∷ [])
    ∷ validate_auth c.jwt_secret
    ∷ positive (codes "SHUTDOWN_TIMEOUT") c.shutdown_timeout
    ∷ validate_listen_addresses c
    ∷ [])

-- What Load returns: the settings, the error of the parser of the environment, or that of the validation.
pub data Loaded (A : Type 0) : Type 0 where
  settings_of : A → Loaded A
  unparsed : GoError → Loaded A
  unusable : Problems → Loaded A

abbrev pub if_usable : {A : Type 0} → A → Problems → Loaded A
if_usable a [] = settings_of a
if_usable a (p ∷ ps) = unusable (p ∷ ps)

abbrev pub validated : {A : Type 0} → (A → Problems) → Result A → Loaded A
validated check (err e) = unparsed e
validated check (ok a) = if_usable a (check a)

-- `Load`, on what the parser makes of the environment
unfoldable pub load : Result Settings → Loaded Settings
load parsed = validated validate parsed

-- `LoadPostgres`
unfoldable pub load_postgres : Result Postgres → Loaded Postgres
load_postgres parsed = validated validate_postgres parsed

-- `LoadAuth`
unfoldable pub load_auth : Result Text → Loaded Text
load_auth parsed = validated validate_auth parsed
