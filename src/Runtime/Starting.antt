-- ===== src/Runtime/Starting.antt =====
-- services/runtime_manager.py: what `start` reads from the configuration. A time in a route is a number of
-- microseconds; `micros` turns a float of seconds into it.
use iot_gathering.Common.{
  ℕ, ◌+◌, ◌*◌, ◌^◌, leb, String, pos, Bool, ◌&&◌, ◌||◌, any, Option, none, some, List, [], ◌∷◌,
  ◌==◌, if◌then◌else◌, string_eq,
}
use iot_gathering.Common.Text.{strip, strip_slashes, lower}
use iot_gathering.Common.Json.{Json, bool, int, float, text, float_is_zero}
use iot_gathering.Common.Dict.{Dict, get}
use iot_gathering.Common.Values.{
  Conversions, str, to_float, int_of, value_or_null, value_or, or_value, says_yes,
}
use iot_gathering.Common.Result.{Result, ok, err, ◌>>=◌}
use iot_gathering.Models.{DeviceSpec, MqttConfig, SinkConfig, OutputRouteConfig}
use iot_gathering.Store.Tables.{Store}
use iot_gathering.Store.Configs.{default_mqtt_config, get_sink_config, list_output_routes}
use iot_gathering.Publisher.Messages.{OutputRoute}
use iot_gathering.Publisher.State.{is_text}
use iot_gathering.Runtime.Manager.{route_topic, route_publish_topic}
use iot_gathering.Config.Schema.{enabled_plugin_types}

-- `_float_config`
abbrev pub float_or : Result ℕ → ℕ → ℕ
float_or (ok f) default = f
float_or (err e) default = default

abbrev pub float_config : Conversions → Dict String Json → String → ℕ → ℕ
float_config c config key default =
    float_or (to_float c (value_or (get config key) (float default))) default

-- `_bool_config`
abbrev pub bool_value : Conversions → Json → Bool
bool_value c (bool b) = b
bool_value c v = says_yes c v

abbrev pub bool_config : Conversions → Dict String Json → String → Bool → Bool
bool_config c config key default = bool_value c (value_or (get config key) (bool default))

-- `_uses_subscription_worker`
abbrev pub uses_subscription_worker : DeviceSpec → Bool
uses_subscription_worker device =
    device.driver_type == "mqtt"
    || device.driver_type == "opcua" && is_text "subscription" (get device.connection "mode")

-- `_topic_responder_enabled`, of the two environment variables
abbrev pub env_text : Option String → String
env_text none = ""
env_text (some s) = lower (strip s)

abbrev pub topic_responder_enabled : (enabled profile : Option String) → Bool
topic_responder_enabled enabled profile =
    any (λ t. t == env_text enabled) ("1" ∷ "true" ∷ "yes" ∷ "on" ∷ [])
    && any (λ t. t == "postgresql") (enabled_plugin_types profile)

-- `interval_s <= 0`, which is false for NaN
abbrev pub is_at_most_zero : ℕ → Bool
is_at_most_zero f = float_is_zero f || leb (2 ^ 63) f && leb f (2 ^ 63 + 2047 * 2 ^ 52)

-- `MqttConfig(base_topic=…, qos=…)`
abbrev pub message_config :
    Conversions → (base_topic : String) → Dict String Json → Result MqttConfig
message_config c base_topic config = int_of (value_or (get config "qos") (int (pos 0))) >>= λ qos.
    ok (record default_mqtt_config { base_topic = base_topic; qos = qos })

abbrev pub base_topic_of : Conversions → Dict String Json → String
base_topic_of c config =
    strip_slashes (str c (or_value (value_or_null (get config "base_topic")) (text "industrial")))

module _ (c : Conversions) (micros : ℕ → ℕ) where
  abbrev pub output_route_of : Dict String Json → OutputRouteConfig → MqttConfig → OutputRoute
  output_route_of config route mqtt = record {
    device_id = route.device_id;
    tag_group = route.tag_group;
    sink_type = route.sink_type;
    mqtt_config = mqtt;
    topic =
        route_topic (base_topic_of c config)
          (str c (or_value (value_or_null (route_publish_topic route.config)) (text "")));
    route_kind = str c (or_value (value_or_null (get route.config "route_kind")) (text "data"));
    heartbeat_interval =
        micros (float_config c route.config "heartbeat_interval_s" 4607182418800017408);
    sensor_code = str c (or_value (value_or_null (get route.config "sensor_code")) (text "SYSTEM"));
  }

  abbrev pub next_output_route :
      Dict String Json → OutputRouteConfig → Result (List OutputRoute) → Result (List OutputRoute)
  next_output_route config route (err e) =
      message_config c (base_topic_of c config) config >>= λ mqtt. err e
  next_output_route config route (ok routes) =
      message_config c (base_topic_of c config) config >>= λ mqtt.
      ok (output_route_of config route mqtt ∷ routes)

  unfoldable pub mqtt_routes : Dict String Json → List OutputRouteConfig → Result (List OutputRoute)
  mqtt_routes config [] = ok []
  mqtt_routes config (route ∷ routes) =
      let rest = mqtt_routes config routes in
      if route.enabled && route.sink_type == "mqtt"
      then next_output_route config route rest
      else rest

  abbrev pub routes_of_sink : Store → SinkConfig → Result (List OutputRoute)
  routes_of_sink s sink =
      if sink.sink_type == "mqtt" then mqtt_routes sink.config (list_output_routes s) else ok []

  -- `_output_routes`
  unfoldable pub output_routes : Store → Result (List OutputRoute)
  unfolding mqtt_routes
  output_routes s = routes_of_sink s (get_sink_config s none)
