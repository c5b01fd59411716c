-- ===== src/Examples/LifecycleRuns.antt =====
-- The manager on a store with one device.
use iot_gathering.Common.{
  ℕ, ℤ, pos, String, true, false, none, [], ◌∷◌, ◌≡◌, refl, string_eq, int_eq,
}
use iot_gathering.Common.Text.{strip, lower}
use iot_gathering.Common.Json.{to_int}
use iot_gathering.Common.Dict.{get}
use iot_gathering.Common.Values.{Conversions, says_yes}
use iot_gathering.Common.Result.{runtime_error, ok, err}
use iot_gathering.Models.{DeviceSpec}
use iot_gathering.Store.Tables.{Store, new_store, stored_device}
use iot_gathering.Store.Configs.{
  get_sink_config, get_selected_sink_type, get_mqtt_config, list_devices, list_output_routes,
}
use iot_gathering.Runtime.Registry.{Registry, get_item}
use iot_gathering.Runtime.Starting.{output_routes}
use iot_gathering.Runtime.Threads.{Runtime, starts, start_workers}
use iot_gathering.Runtime.Lifecycle.{refresh_dynamic_route_topics, start, stop}
use iot_gathering.Runtime.Tracking.{AreSettled}
use iot_gathering.Runtime.Restarting.{stop-start-AreSettled}
use iot_gathering.Config.Service.{◌>>=◌, read, give}
use iot_gathering.Config.Resolving.{Resolver, refresh_routes, refresh_dynamic_output_route_topics}

abbrev conversions : Conversions
conversions = record {
  printed = λ v. "0";
  int_float = λ n. 0;
  text_float = λ s. none;
  equal = λ a b. true;
}

abbrev id_text : ℤ → String
id_text n = "1"

abbrev boiler : DeviceSpec
boiler = record {
  id = none;
  name = "boiler";
  driver_type = "modbus_tcp";
  enabled = true;
  poll_interval_ms = pos 1000;
  device_group = "";
  connection = [];
}

abbrev with_boiler : Store
with_boiler = (stored_device new_store boiler none).0

abbrev resolver : Resolver
resolver mac config = err (runtime_error "no broker")

abbrev micros : ℕ → ℕ
micros f = 1000000

abbrev drivers : Registry ℕ
drivers = ("modbus_tcp", 0) ∷ []

abbrev no_drivers : Registry ℕ
no_drivers = []

abbrev sinks : Registry ℕ
sinks = ("mqtt", 0) ∷ []

abbrev idle : Runtime
idle = record {
  running = false;
  health_interval = pos 10;
  runtime_log_enabled = false;
  result_queue = [];
  manager = record {
    status_queue = record { items = []; sequence = 0 };
    runtime_tags = [];
    server_statuses = [];
    logs = [];
  };
  pollers = [];
  subscription_workers = [];
  publisher = none;
  publisher_routes = [];
  publisher_settings = none;
  topic_responder = none;
  topic_refresh_thread = none;
  topic_refresh_stopped = false;
  topic_logs = [];
  last_thread = 0;
  events = [];
}

returned :
    (start conversions id_text resolver "noon" micros drivers sinks false idle with_boiler none
      none).1
    ≡ ok tt
unfolding start refresh_dynamic_route_topics refresh_dynamic_output_route_topics refresh_routes
    ◌>>=◌ read give list_output_routes list_devices start_workers get_item output_routes
    get_sink_config get_selected_sink_type get_mqtt_config get says_yes strip lower to_int
returned = refl

stop-start-AreSettled_example :
    AreSettled []
      (stop
        (start conversions id_text resolver "noon" micros drivers sinks false idle with_boiler none
          none).0.0).events
stop-start-AreSettled_example =
    stop-start-AreSettled conversions id_text resolver "noon" micros drivers sinks false idle
      with_boiler none none refl tt returned

-- A device whose driver type is not registered: `start` raises when the publisher and the thread that refreshes
-- the topics run, and `stop` does nothing then.
left_running :
    (stop
      (start conversions id_text resolver "noon" micros no_drivers sinks false idle with_boiler none
        none).0.0).events
    ≡ starts 1 ∷ starts 2 ∷ []
unfolding start refresh_dynamic_route_topics refresh_dynamic_output_route_topics refresh_routes
    ◌>>=◌ read give list_output_routes list_devices start_workers get_item output_routes
    get_sink_config get_selected_sink_type get_mqtt_config get says_yes strip lower to_int stop
left_running = refl
