-- ===== src/Examples/PublisherRuns.antt =====
-- The publisher with one device in its cache, and the theorems about it.
use iot_gathering.Common.{
  arith, refl, map, keep, is_nil, not, String, ℤ, pos, true, Option, none, some, List, [], ◌∷◌, ◌≡◌,
  ◌==◌, if◌then◌else◌, All, string_eq, int_eq, option_eq, pair_eq,
}
use iot_gathering.Common.Json.{null, int}
use iot_gathering.Common.Dict.{get, put, values}
use iot_gathering.Models.{DeviceSpec, MqttConfig, TagResult, good, bad, ReadResult}
use iot_gathering.Publisher.Messages.{OutputRoute, BatchMessage, measurement, status}
use iot_gathering.Publisher.State.{State, Settings, device_key, device_status}
use iot_gathering.Publisher.Rounds.{take_result, refresh_stale_statuses, publish_cached}
use iot_gathering.Publisher.Outcome.{outcome, take_result-outcome}
use iot_gathering.Publisher.Fresh.{IsFresh, refresh_stale_statuses-IsFresh}
use iot_gathering.Publisher.Honest.{AreHonest}
use iot_gathering.Publisher.Sending.{take_result-AreHonest, publish_cached-AreHonest}

abbrev broker : MqttConfig
broker = record {
  host = "localhost";
  port = pos 1883;
  base_topic = "industrial";
  username = none;
  password = none;
  client_id = "industrial-gateway";
  qos = pos 0;
  enabled = true;
}

abbrev route : Option ℤ → String → OutputRoute
route device group = record {
  device_id = device;
  tag_group = group;
  sink_type = "mqtt";
  mqtt_config = broker;
  topic = "line";
  route_kind = "data";
  heartbeat_interval = 1000000;
  sensor_code = "SYSTEM";
}

abbrev routes : List OutputRoute
routes = route none "pumps" ∷ route (some (pos 1)) "" ∷ []

abbrev press : DeviceSpec
press = record {
  id = some (pos 1);
  name = "press";
  driver_type = "modbus_tcp";
  enabled = true;
  poll_interval_ms = pos 1000;
  device_group = "";
  connection = [];
}

abbrev settings : Settings
settings = record {
  mqtt_config = broker;
  plugin_type = "mqtt";
  output_routes = routes;
  stale_timeout = 15000000;
  status_publish_interval = 60000000;
  sink = λ i m. none;
}

abbrev failed_tag : TagResult
failed_tag = record {
  name = "force";
  address = pos 4;
  value = null;
  quality = bad;
  error = some "not enough registers for force";
  timestamp = 10;
  node_id = none;
  tag_group = "";
}

abbrev failed_read : ReadResult
failed_read = record { device = press; timestamp = 10; tags = failed_tag ∷ []; error = none }

abbrev cached : State
cached = record {
  latest =
      (
        (some (pos 1), ""),
        record {
          device = press;
          tags = [];
          last_received_at = some 10;
          last_source_timestamp = some 10;
        },
      )
      ∷ [];
  device_statuses = [];
  heartbeat_published_at = [];
  sent = [];
  outbox = [];
  logs = [];
}

take_result-outcome_example :
    device_status (take_result (λ z. "4") settings cached failed_read 20) press ≡ (
      if device_key press == device_key press
      then outcome failed_read
      else device_status cached press)
take_result-outcome_example = take_result-outcome (λ z. "4") settings cached failed_read 20 press

refresh_stale_statuses-IsFresh_example :
    All
      (IsFresh settings (refresh_stale_statuses settings cached 16000000) 16000000)
      (values cached.latest)
refresh_stale_statuses-IsFresh_example =
    refresh_stale_statuses-IsFresh settings cached 16000000 (λ e. omega (arith, e))

take_result-AreHonest_example : AreHonest (take_result (λ z. "4") settings cached failed_read 20)
take_result-AreHonest_example = take_result-AreHonest settings (λ z. "4") cached failed_read 20 tt

-- A device with a good and a bad tag in one group and a good one in another.
abbrev good_tag : (name group : String) → TagResult
good_tag name group = record {
  name = name;
  address = pos 4;
  value = int (pos 7);
  quality = good;
  error = none;
  timestamp = 10;
  node_id = none;
  tag_group = group;
}

abbrev good_read : ReadResult
good_read = record {
  device = press;
  timestamp = 10;
  tags =
      good_tag "level" "tank"
      ∷ record failed_tag { tag_group = "tank" }
      ∷ good_tag "speed" "pumps"
      ∷ [];
  error = none;
}

abbrev warm : State
warm =
    take_result (λ z. "4") settings (take_result (λ z. "4") settings cached failed_read 15)
      good_read 20

-- The two results send statuses; the round then sends a measurement and a status of each group.
publish_cached-AreHonest_example : AreHonest (publish_cached settings warm 30)
publish_cached-AreHonest_example = publish_cached-AreHonest settings warm 30 (
    take_result-AreHonest settings (λ z. "4") _ good_read 20
      (take_result-AreHonest settings (λ z. "4") cached failed_read 15 tt))

-- The tags of a measurement, by name.
abbrev sent_names : BatchMessage → List String
sent_names m = elim m.payload [
  | measurement id name timestamp tags ↦ map (λ t. t.name) tags
  | status timestamp sensors ↦ []
]

-- The bad tag stands in no measurement.
measured_names :
    keep (λ names. not (is_nil names)) (map sent_names (publish_cached settings warm 30).sent)
    ≡ ("level" ∷ []) ∷ ("speed" ∷ []) ∷ []
unfolding take_result publish_cached get put
measured_names = refl
