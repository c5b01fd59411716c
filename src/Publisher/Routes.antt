-- ===== src/Publisher/Routes.antt =====
-- The tags by their output group, the route of a device and a tag group, and the message of a measurement.
use iot_gathering.Common.{
  ℕ, String, ℤ, Bool, true, false, not, ◌&&◌, Option, none, some, List, [], ◌∷◌, ◌++◌, find, ◌==◌,
  if◌then◌else◌, string_eq, int_eq, option_eq,
}
use iot_gathering.Common.Text.{is_empty, or_text}
use iot_gathering.Common.Dict.{Dict, get, put}
use iot_gathering.Models.{DeviceSpec, MqttConfig, TagResult}
use iot_gathering.Publisher.Messages.{
  BatchMessage, OutputRoute, from_results, tag_output_group, topic_with_group,
}

abbrev pub or_nil : Option (List TagResult) → List TagResult
or_nil none = []
or_nil (some tags) = tags

-- `groups.setdefault(_tag_output_group(tag), []).append(tag)` for each tag
unfoldable pub group_results :
    Dict (Option String) (List TagResult) → List TagResult → Dict (Option String) (List TagResult)
unfolding tag_output_group
group_results groups [] = groups
group_results groups (tag ∷ tags) =
    let key = tag_output_group tag in
    group_results (put groups key (or_nil (get groups key) ++ tag ∷ [])) tags

-- The three tests of `_route_for`.
abbrev pub is_data_route : OutputRoute → Bool
is_data_route route = route.route_kind == "data"

abbrev pub is_exact : DeviceSpec → String → OutputRoute → Bool
is_exact device group route =
    is_data_route route && route.device_id == device.id && route.tag_group == group

abbrev pub is_device_default : DeviceSpec → OutputRoute → Bool
is_device_default device route =
    is_data_route route && route.device_id == device.id && route.tag_group == ""

abbrev pub is_none : Option ℤ → Bool
is_none none = true
is_none (some n) = false

abbrev pub is_group_default : String → OutputRoute → Bool
is_group_default group route =
    is_data_route route && is_none route.device_id && route.tag_group == group

abbrev pub or_route : Option OutputRoute → Option OutputRoute → Option OutputRoute
or_route none other = other
or_route (some route) other = some route

-- `_route_for`
unfoldable pub route_for : List OutputRoute → DeviceSpec → String → Option OutputRoute
route_for routes device group =
    or_route (find (is_exact device group) routes)
      (or_route (find (is_device_default device) routes) (find (is_group_default group) routes))

-- `group or ""`
abbrev pub group_text : Option String → String
group_text none = ""
group_text (some s) = s

-- `route is None or route.tag_group != group`
abbrev pub wants_group : Option OutputRoute → String → Bool
wants_group none group = true
wants_group (some route) group = not (route.tag_group == group)

abbrev pub routed : Option OutputRoute → BatchMessage → BatchMessage
routed none message = message
routed (some route) message = record {
  topic = or_text route.topic message.topic;
  payload = message.payload;
  qos = message.qos;
  use_message_topic = true;
}

abbrev pub config_of : Option OutputRoute → MqttConfig → MqttConfig
config_of none config = config
config_of (some route) config = route.mqtt_config

abbrev pub plugin_of : Option OutputRoute → String → String
plugin_of none plugin = plugin
plugin_of (some route) plugin = route.sink_type

abbrev pub grouped : Option OutputRoute → String → BatchMessage → BatchMessage
grouped route group message =
    if not (is_empty group) && wants_group route group
    then record {
      topic = topic_with_group message.topic group;
      payload = message.payload;
      qos = message.qos;
      use_message_topic = message.use_message_topic;
    }
    else message

-- `_measurement_message`
unfoldable pub measurement_message :
    List OutputRoute
    → MqttConfig
    → String
    → DeviceSpec
    → List TagResult
    → Option String
    → ℕ
    → BatchMessage × String
unfolding route_for topic_with_group
measurement_message routes config plugin device tags group timestamp =
    let route = route_for routes device (group_text group) in
    (
      routed route (
          grouped route (group_text group)
            (from_results device tags timestamp (config_of route config))),
      plugin_of route plugin,
    )
