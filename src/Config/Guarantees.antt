-- ===== src/Config/Guarantees.antt =====
-- internal/config/validate.go: what a configuration that passes the validation guarantees.
use storefront.Common.{
  All, Bool, List, Text, [], arith, codes, false, length, pos, refl, sym, text_eq, text_eq_complete,
  text_eq_sound, true, ◌<ℤ◌, ◌||◌, ◌↔◌, ◌∷◌, ◌≡◌, ◌≢◌, ◌≤ℤ◌, ◌≤◌,
}
use storefront.Config.{
  Grpc, Http, OutboxSettings, Postgres, Problems, Settings, address, first_repeated, join, positive,
  validate, validate_auth, validate_grpc, validate_http, validate_listen_addresses, validate_outbox,
  validate_postgres, validate_valkey,
}

pub record UsableHttp (h : Http) : Type 0 where
  pub on_port : (pos 1 ≤ℤ h.port) × (h.port ≤ℤ pos 65535)
  pub on_internal_port : (pos 1 ≤ℤ h.internal_port) × (h.internal_port ≤ℤ pos 65535)
  pub reads : pos 0 <ℤ h.read_timeout
  pub idles : pos 0 <ℤ h.idle_timeout
  pub handles : pos 0 <ℤ h.request_timeout
  pub answers_in_time : h.request_timeout <ℤ h.write_timeout
  pub bodies : pos 0 <ℤ h.max_body_bytes
  pub compresses : pos 0 ≤ℤ h.compress_min_bytes
  pub hsts : pos 0 ≤ℤ h.hsts_max_age

pub record UsableGrpc (g : Grpc) : Type 0 where
  pub on_port : (pos 1 ≤ℤ g.port) × (g.port ≤ℤ pos 65535)
  pub handles : pos 0 <ℤ g.request_timeout
  pub messages : pos 0 <ℤ g.max_request_bytes

pub record UsablePostgres (p : Postgres) : Type 0 where
  pub opens : pos 0 <ℤ p.max_open_conns
  pub keeps_idle : (pos 0 ≤ℤ p.max_idle_conns) × (p.max_idle_conns ≤ℤ p.max_open_conns)
  pub lives : pos 0 <ℤ p.conn_max_lifetime

pub record UsableOutbox (o : OutboxSettings) : Type 0 where
  pub claims : pos 0 <ℤ o.batch_size
  pub polls : pos 0 <ℤ o.poll_interval
  pub publishes : pos 0 <ℤ o.publish_timeout
  pub attempts : pos 0 <ℤ o.max_attempts

pub record Usable (c : Settings) : Type 0 where
  pub http : UsableHttp c.http
  pub grpc : UsableGrpc c.grpc
  pub postgres : UsablePostgres c.postgres
  pub cached : (pos 1000000 ≤ℤ c.valkey.ttl) × (pos 1000000 ≤ℤ c.valkey.neg_ttl)
  pub outbox : UsableOutbox c.outbox
  pub loads : pos 0 <ℤ c.load_timeout
  pub remembers : pos 0 <ℤ c.idempotency_ttl
  pub purges : pos 0 <ℤ c.purge_interval
  pub signed : 32 ≤ length c.jwt_secret
  pub shuts_down : pos 0 <ℤ c.shutdown_timeout
  pub apart :
      (address c.http.host c.http.port ≢ address c.http.host c.http.internal_port)
      × (address c.http.host c.http.port ≢ address c.grpc.host c.grpc.port)
      × (address c.http.host c.http.internal_port ≢ address c.grpc.host c.grpc.port)

join-nil : (ps : List Problems) → join ps ≡ [] → All (λ p. p ≡ []) ps
join-nil [] h = tt
join-nil ([] ∷ ps) h = (refl, join-nil ps h)
join-nil ((x ∷ p) ∷ ps) h = cc

nil-join : (ps : List Problems) → All (λ p. p ≡ []) ps → join ps ≡ []
nil-join [] h = refl
nil-join ([] ∷ ps) h = nil-join ps h.1
nil-join ((x ∷ p) ∷ ps) h = cc (h.0)

http_usable : (h : Http) → validate_http h ≡ [] → UsableHttp h
unfolding validate_http
http_usable h v = record {
  on_port = ground arith;
  on_internal_port = ground arith;
  reads = ground arith;
  idles = ground arith;
  handles = ground arith;
  answers_in_time = ground arith;
  bodies = ground arith;
  compresses = ground arith;
  hsts = ground arith;
}

usable_http : (h : Http) → UsableHttp h → validate_http h ≡ []
unfolding validate_http
usable_http h u = ground (
  arith, u.on_port, u.on_internal_port, u.reads, u.idles, u.handles, u.answers_in_time, u.bodies,
  u.compresses, u.hsts,
)

grpc_usable : (g : Grpc) → validate_grpc g ≡ [] → UsableGrpc g
unfolding validate_grpc
grpc_usable g v = record { on_port = ground arith; handles = ground arith; messages = ground arith }

usable_grpc : (g : Grpc) → UsableGrpc g → validate_grpc g ≡ []
unfolding validate_grpc
usable_grpc g u = ground (arith, u.on_port, u.handles, u.messages)

postgres_usable : (p : Postgres) → validate_postgres p ≡ [] → UsablePostgres p
unfolding validate_postgres
postgres_usable p v = record {
  opens = ground arith;
  keeps_idle = ground arith;
  lives = ground arith;
}

pub usable_postgres : (p : Postgres) → UsablePostgres p → validate_postgres p ≡ []
unfolding validate_postgres
usable_postgres p u = ground (arith, u.opens, u.keeps_idle, u.lives)

outbox_usable : (o : OutboxSettings) → validate_outbox o ≡ [] → UsableOutbox o
unfolding validate_outbox
outbox_usable o v = record {
  claims = ground arith;
  polls = ground arith;
  publishes = ground arith;
  attempts = ground arith;
}

usable_outbox : (o : OutboxSettings) → UsableOutbox o → validate_outbox o ≡ []
unfolding validate_outbox
usable_outbox o u = ground (arith, u.claims, u.polls, u.publishes, u.attempts)

unequal : (s t : Text) → text_eq s t ≡ false → t ≢ s
unequal s t h e = cc (h, text_eq_complete s t (sym e))

-- no address repeats
apart_iff :
    (a b c : Text) → (first_repeated [] (a ∷ b ∷ c ∷ []) ≡ []) ↔ ((a ≢ b) × (a ≢ c) × (b ≢ c))
apart_iff a b c = go (text_eq b a) (text_eq c b) (text_eq c a) refl refl refl
  where
    repeats : Problems
    repeats = codes "HTTP_PORT, HTTP_INTERNAL_PORT and GRPC_PORT" ∷ []

    outcome : Bool → Bool → Bool → Problems
    outcome x y z = elim (x || false) as (λ t. Problems) [
      | true ↦ repeats
      | false ↦ elim (y || (z || false)) as (λ t. Problems) [ true ↦ repeats | false ↦ [] ]
    ]

    go :
        (x y z : Bool)
        → text_eq b a ≡ x
        → text_eq c b ≡ y
        → text_eq c a ≡ z
        → (outcome x y z ≡ []) ↔ ((a ≢ b) × (a ≢ c) × (b ≢ c))
    go true y z ba cb ca = ((λ h. absurd cc), (λ n. absurd (n.0 (sym (text_eq_sound b a ba)))))
    go false true z ba cb ca = ((λ h. absurd cc), (λ n. absurd (n.2 (sym (text_eq_sound c b cb)))))
    go false false true ba cb ca =
        ((λ h. absurd cc), (λ n. absurd (n.1 (sym (text_eq_sound c a ca)))))
    go false false false ba cb ca =
        ((λ h. (unequal b a ba, unequal c a ca, unequal c b cb)), (λ n. refl))

-- A configuration passes the validation exactly when it is usable: every timeout, limit and interval
-- is in its range, the write deadline is later than the handlers', no more connections are kept idle
-- than may be open, the cache keeps its entries for a millisecond at least, the signing key has 32
-- bytes, and the three listeners have different addresses.
pub validate_iff : (c : Settings) → (validate c ≡ []) ↔ Usable c
unfolding validate validate_valkey validate_listen_addresses
validate_iff c = (to, from)
  where
    checks : List Problems
    checks =
        validate_http c.http
        ∷ validate_grpc c.grpc
        ∷ validate_postgres c.postgres
        ∷ validate_valkey c.valkey
        ∷ validate_outbox c.outbox
        ∷ positive (codes "SERVICE_LOAD_TIMEOUT") c.load_timeout
        ∷ join (
            positive (codes "IDEMPOTENCY_TTL") c.idempotency_ttl
            ∷ positive (codes "IDEMPOTENCY_PURGE_INTERVAL") c.purge_interval
            ∷ [])
        ∷ validate_auth c.jwt_secret
        ∷ positive (codes "SHUTDOWN_TIMEOUT") c.shutdown_timeout
        ∷ validate_listen_addresses c
        ∷ []

    to : validate c ≡ [] → Usable c
    to v =
        let all = join-nil checks v in
        record {
          http = http_usable c.http all.0;
          grpc = grpc_usable c.grpc all.1.0;
          postgres = postgres_usable c.postgres all.1.1.0;
          cached = ground (arith, all.1.1.1.0);
          outbox = outbox_usable c.outbox all.1.1.1.1.0;
          loads = ground (arith, all.1.1.1.1.1.0);
          remembers = ground (arith, all.1.1.1.1.1.1.0);
          purges = ground (arith, all.1.1.1.1.1.1.0);
          signed = ground (arith, all.1.1.1.1.1.1.1.0);
          shuts_down = ground (arith, all.1.1.1.1.1.1.1.1.0);
          apart =
              (apart_iff (address c.http.host c.http.port)
                  (address c.http.host c.http.internal_port) (address c.grpc.host c.grpc.port)).0
                all.1.1.1.1.1.1.1.1.1.0;
        }

    from : Usable c → validate c ≡ []
    from u = nil-join checks (
      usable_http c.http u.http,
      (
        usable_grpc c.grpc u.grpc,
        (
          usable_postgres c.postgres u.postgres,
          (
            ground (arith, u.cached),
            (
              usable_outbox c.outbox u.outbox,
              (
                ground (arith, u.loads),
                (
                  ground (arith, u.remembers, u.purges),
                  (
                    ground (arith, u.signed),
                    (
                      ground (arith, u.shuts_down),
                      (
                        (apart_iff (address c.http.host c.http.port)
                              (address c.http.host c.http.internal_port)
                              (address c.grpc.host c.grpc.port)).1
                            u.apart,
                        tt,
                      ),
                    ),
                  ),
                ),
              ),
            ),
          ),
        ),
      ),
    )
