-- ===== src/Runtime/Lifecycle.antt =====
-- `RuntimeManager`: `start`, `stop`, `set_health_interval` and `snapshot`. The lock is held for the whole of `start` or `stop`.
-- The sink is made without an exception, and a base topic in the configuration that is not a text is read as its
-- text.
use iot_gathering.Common.{
  ℕ, ℤ, String, Bool, true, false, ◌&&◌, Option, none, some, List, [], ◌∷◌, ◌++◌, map, length, ◌==◌,
  if◌then◌else◌, string_eq,
}
use iot_gathering.Common.Json.{text}
use iot_gathering.Common.Dict.{get, values}
use iot_gathering.Common.Values.{Conversions, str, value_or}
use iot_gathering.Common.Result.{Result, ok, err}
use iot_gathering.Models.{MqttConfig, SinkConfig}
use iot_gathering.Store.Tables.{Store}
use iot_gathering.Store.Configs.{get_sink_config, list_devices}
use iot_gathering.Publisher.Messages.{OutputRoute}
use iot_gathering.Runtime.Queues.{TagUpdate, ServerStatus}
use iot_gathering.Runtime.Registry.{Registry, get_item}
use iot_gathering.Runtime.Starting.{
  float_config, bool_config, is_at_most_zero, message_config, output_routes,
}
use iot_gathering.Config.Resolving.{Resolver, Resolved, refresh_dynamic_output_route_topics}
use iot_gathering.Runtime.Threads.{
  Thread, PublisherSettings, ThreadEvent, stops, joins, Runtime, reset, start_publisher,
  start_topic_refresh, start_topic_responder, no_workers, start_workers,
}

-- The records of `_refresh_dynamic_route_topics`.
abbrev pub topic_log : Resolved → String × String
topic_log r = elim r.error [ some e ↦ ("ERROR", e) | none ↦ ("INFO", "route topic resolved") ]

module _ (c : Conversions) (id_text : ℤ → String) (resolver : Resolver) (now : String)
    (micros : ℕ → ℕ) where
  abbrev pub with_routes :
      Runtime → Store → Result (List OutputRoute) → (Runtime × Store) × Result (Unit {0})
  with_routes m s (err e) = ((m, s), err e)
  with_routes m s (ok routes) = ((record m { publisher_routes = routes }, s), ok tt)

  abbrev pub to_publisher : Runtime → Store → Option Thread → (Runtime × Store) × Result (Unit {0})
  to_publisher m s none = ((m, s), ok tt)
  to_publisher m s (some p) = with_routes m s (output_routes c micros s)

  abbrev pub refreshed :
      Runtime → Store × Result (List Resolved) → (Runtime × Store) × Result (Unit {0})
  refreshed m (s, err e) = ((m, s), err e)
  refreshed m (s, ok results) =
      to_publisher (record m { topic_logs = m.topic_logs ++ map topic_log results }) s m.publisher

  -- `_refresh_dynamic_route_topics`
  unfoldable pub refresh_dynamic_route_topics :
      Runtime → Store → (Runtime × Store) × Result (Unit {0})
  unfolding output_routes
  refresh_dynamic_route_topics m s =
      refreshed m (refresh_dynamic_output_route_topics c id_text resolver now s)

  abbrev pub is_refresh_wanted : SinkConfig → Bool
  is_refresh_wanted sink =
      sink.sink_type == "mqtt" && bool_config c sink.config "topic_request_on_start" true

  module _ {ℓ κ} {T : Type ℓ} {U : Type κ} (drivers : Registry T) (sinks : Registry U)
      (responder : Bool) where
    -- Whether no thread is to refresh the topics.
    abbrev pub no_refresh : SinkConfig → Bool
    no_refresh sink =
        is_at_most_zero (float_config c sink.config "topic_refresh_interval_s" 4643985272004935680)

    -- `start`, once the routes of the publisher are there
    abbrev pub settings_of : SinkConfig → MqttConfig → PublisherSettings
    settings_of sink config = record {
      mqtt_config = config;
      plugin_type = sink.sink_type;
      stale_timeout = float_config c sink.config "message_stale_timeout_s" 4624633867356078080;
      status_publish_interval =
          float_config c sink.config "status_publish_interval_s" 4633641066610819072;
    }

    abbrev pub start_threads : SinkConfig → MqttConfig → List OutputRoute → Runtime → Runtime
    start_threads sink config routes m = no_workers (
        start_topic_responder responder (
          start_topic_refresh (no_refresh sink)
            (start_publisher (settings_of sink config) routes m)))

    abbrev pub launched :
        SinkConfig
        → MqttConfig
        → Runtime
        → Store
        → Result (List OutputRoute)
        → (Runtime × Store) × Result (Unit {0})
    launched sink config m s (err e) = ((m, s), err e)
    launched sink config m s (ok routes) =
        let ran = start_workers drivers (start_threads sink config routes m) (list_devices s) in
        ((ran.0, s), ran.1)

    abbrev pub with_message_config :
        SinkConfig → Runtime → Store → Result MqttConfig → (Runtime × Store) × Result (Unit {0})
    with_message_config sink m s (err e) = ((m, s), err e)
    with_message_config sink m s (ok config) = launched sink config m s (output_routes c micros s)

    abbrev pub with_sink :
        SinkConfig → Runtime → Store → Result U → (Runtime × Store) × Result (Unit {0})
    with_sink sink m s (err e) = ((m, s), err e)
    with_sink sink m s (ok sink_class) = with_message_config sink m s (
        message_config c (str c (value_or (get sink.config "base_topic") (text "industrial")))
          sink.config)

    abbrev pub after_refresh :
        SinkConfig → (Runtime × Store) × Result (Unit {0}) → (Runtime × Store) × Result (Unit {0})
    after_refresh sink ((m, s), err e) = ((m, s), err e)
    after_refresh sink ((m, s), ok done) = with_sink sink m s (get_item sinks sink.sink_type)

    abbrev pub begin_start : Runtime → Store → (Runtime × Store) × Result (Unit {0})
    begin_start m s =
        let sink = get_sink_config s none in
        after_refresh sink
          (if is_refresh_wanted sink then refresh_dynamic_route_topics m s else ((m, s), ok tt))

    unfoldable pub start :
        Runtime → Store → Option ℤ → Option Bool → (Runtime × Store) × Result (Unit {0})
    unfolding refresh_dynamic_route_topics start_workers output_routes get_item
    start m s health log =
        if m.running then ((m, s), ok tt) else begin_start (reset s health log m) s

-- `stop` and `join` of each thread
unfoldable pub stop_each : List Thread → List ThreadEvent
stop_each [] = []
stop_each (t ∷ threads) = stops t.number ∷ stop_each threads

unfoldable pub join_each : List Thread → List ThreadEvent
join_each [] = []
join_each (t ∷ threads) = joins t.number ∷ join_each threads

abbrev pub one_thread : Option Thread → List Thread
one_thread none = []
one_thread (some t) = t ∷ []

-- The thread that refreshes the topics is joined once its event is set.
abbrev pub stop_events : Runtime → List ThreadEvent
stop_events m =
    stop_each m.pollers
    ++ stop_each m.subscription_workers
    ++ stop_each (one_thread m.topic_responder)
    ++ join_each (one_thread m.topic_refresh_thread)
    ++ stop_each (one_thread m.publisher)
    ++ join_each m.pollers
    ++ join_each m.subscription_workers
    ++ join_each (one_thread m.topic_responder)
    ++ join_each (one_thread m.publisher)

unfoldable pub stop : Runtime → Runtime
unfolding stop_each join_each
stop m =
    if m.running
    then record m {
      running = false;
      topic_refresh_stopped = true;
      topic_refresh_thread = none;
      events = m.events ++ stop_events m;
    }
    else m

-- `set_health_interval`
abbrev pub at_interval : ℤ → List Thread → List Thread
at_interval seconds [] = []
at_interval seconds (t ∷ threads) =
    record t { health_interval = seconds } ∷ at_interval seconds threads

unfoldable pub set_health_interval : Runtime → ℤ → Runtime
set_health_interval m seconds = record m {
  health_interval = seconds;
  pollers = at_interval seconds m.pollers;
  subscription_workers = at_interval seconds m.subscription_workers;
}

pub record RuntimeSnapshot : Type 0 where
  pub running : Bool
  pub device_count : ℕ
  pub health_interval : ℤ
  pub runtime_log_enabled : Bool
  pub runtime_tags : List TagUpdate
  pub server_statuses : List ServerStatus
  pub logs : List String

-- `snapshot`, which each of the operations above returns
abbrev pub snapshot : Runtime → RuntimeSnapshot
snapshot m = record {
  running = m.running;
  device_count = length (m.pollers ++ m.subscription_workers);
  health_interval = m.health_interval;
  runtime_log_enabled = m.runtime_log_enabled;
  runtime_tags = values m.manager.runtime_tags;
  server_statuses = values m.manager.server_statuses;
  logs = m.manager.logs;
}
