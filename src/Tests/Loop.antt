-- ===== src/Tests/Loop.antt =====
-- The theorems on the relay's loop, the bus and the configuration, applied to concrete inputs.
use storefront.Common.{[], arith, codes, false, length, none, pos, refl, ◌↔◌, ◌∷◌, ◌≡◌}
use storefront.Bus.{
  Client, Takes, is_poison, publish_message, publish_message_iff, rejected, undeliverable_in,
}
use storefront.Config.{
  Settings, address, load, settings_of, validate, validate_grpc, validate_http,
  validate_listen_addresses, validate_outbox, validate_postgres, validate_valkey,
}
use storefront.Config.Loads.{Starts, load_iff}
use storefront.Errors.{net_error, ok}
use storefront.Events.{Record, type_created}
use storefront.Relay.{Config, Turn, awaited, doubling, failures_double, paused, run, run_from, wait}
use storefront.Store.Outbox.{drain_error, nothing_due}
use storefront.Tests.Store.{runs}

abbrev relay_config : Config
relay_config = record {
  batch_size = 25;
  poll_interval = 5000;
  publish_timeout = 2000;
  max_attempts = 10;
}

abbrev failing : Turn
failing = record {
  drained = drain_error net_error;
  stopped = false;
  wakeup = none;
  stopped_waiting = false;
  stopped_pausing = false;
}

abbrev calm : Turn
calm = record failing { drained = nothing_due }

-- three failures, a wait, and a failure that starts over
paused_runs :
    run relay_config (failing ∷ failing ∷ failing ∷ calm ∷ failing ∷ [])
    ≡ paused 10000 ∷ paused 20000 ∷ paused 30000 ∷ awaited ∷ paused 10000 ∷ []
unfolding run run_from wait
paused_runs = refl

failures_double_example :
    run relay_config (failing ∷ failing ∷ []) ≡ doubling 5000 0 (length (failing ∷ failing ∷ []))
failures_double_example =
    failures_double relay_config (failing ∷ failing ∷ []) (omega arith)
      ((refl, refl, refl), ((refl, refl, refl), tt))

abbrev rejecting : Client
rejecting = record { address = λ r. none; settle = λ n r. ok rejected }

abbrev message_of : Record
message_of = record {
  message_id = 1001;
  event_type = type_created;
  payload = record {
    event_id = 1001;
    event_type = type_created;
    product_id = 7;
    version = 1;
    occurred_at = 4000;
    quantity = pos 0;
    stock = pos 10;
  };
}

publish_message_iff_example :
    ((publish_message rejecting 0 message_of ≡ none) ↔ Takes none (ok rejected))
    × (undeliverable_in (publish_message rejecting 0 message_of) ≡ is_poison none (ok rejected))
publish_message_iff_example = publish_message_iff rejecting 0 message_of tt

abbrev default_settings : Settings
default_settings = record {
  http = record {
    host = [];
    port = pos 8080;
    internal_port = pos 8081;
    read_timeout = pos 5000000000;
    write_timeout = pos 10000000000;
    idle_timeout = pos 120000000000;
    request_timeout = pos 2000000000;
    max_body_bytes = pos 1048576;
    compress_min_bytes = pos 1024;
    hsts_max_age = pos 31536000;
  };
  grpc = record {
    host = [];
    port = pos 9090;
    request_timeout = pos 2000000000;
    max_request_bytes = pos 1048576;
  };
  postgres = record {
    max_open_conns = pos 25;
    max_idle_conns = pos 5;
    conn_max_lifetime = pos 1800000000000;
  };
  valkey = record { ttl = pos 300000000000; neg_ttl = pos 60000000000 };
  outbox = record {
    batch_size = pos 25;
    poll_interval = pos 5000000000;
    publish_timeout = pos 2000000000;
    max_attempts = pos 10;
  };
  load_timeout = pos 1000000000;
  idempotency_ttl = pos 86400000000000;
  purge_interval = pos 3600000000000;
  jwt_secret = codes "0123456789abcdef0123456789abcdef";
  shutdown_timeout = pos 10000000000;
}

-- the defaults of the environment pass
default_validates : validate default_settings ≡ []
unfolding runs validate validate_http validate_grpc validate_postgres validate_valkey
    validate_outbox validate_listen_addresses address
default_validates = refl

load_iff_example :
    (load (ok default_settings) ≡ settings_of default_settings)
    ↔ Starts (ok default_settings) default_settings
load_iff_example = load_iff (ok default_settings) default_settings

-- so does a load timeout that is longer than the lifetime of the cache's entries
slow_loads_validate : validate (record default_settings { load_timeout = pos 400000000000 }) ≡ []
unfolding runs validate validate_http validate_grpc validate_postgres validate_valkey
    validate_outbox validate_listen_addresses address
slow_loads_validate = refl
