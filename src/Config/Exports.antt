-- ===== src/Config/Exports.antt =====
-- `ConfigService`: the rows that the exports write, before `csv` writes them; a field that a row does not have
-- is written empty.
use iot_gathering.Common.{
  ℤ, pos, String, Bool, false, Option, none, some, List, [], ◌∷◌, ◌++◌, map, is_nil, ◌==◌,
  if◌then◌else◌, string_eq, int_eq, option_eq,
}
use iot_gathering.Common.Json.{Json, bool, int, float, text, truthy}
use iot_gathering.Common.Dict.{Dict, get, put, values}
use iot_gathering.Common.Values.{Conversions, value_or}
use iot_gathering.Common.Result.{Result, ok, err, ◌>>=◌}
use iot_gathering.Models.{DeviceSpec, TagSpec, SinkConfig, OutputRouteConfig}
use iot_gathering.Store.Tables.{Store}
use iot_gathering.Store.Configs.{
  list_devices, list_tags, list_output_routes as stored_routes, get_selected_sink_type,
}
use iot_gathering.Config.Service.{Service, ◌>>◌, read}
use iot_gathering.Config.Devices.{get_device, id_or_zero}
use iot_gathering.Config.Plugins.{all_sinks}
use iot_gathering.Config.Routes.{route_config}
use iot_gathering.Config.RouteService.{device_of, is_heartbeat}

-- `int(flag)`, and `value or ""`
abbrev pub flag : Bool → Json
flag b = int (if b then pos 1 else pos 0)

abbrev pub int_or_empty : Option ℤ → Json
int_or_empty none = text ""
int_or_empty (some n) = if truthy (int n) then int n else text ""

abbrev pub text_or_empty : Option String → Json
text_or_empty none = text ""
text_or_empty (some s) = text s

-- The fields of the connections and of the plugins among the columns of a file.
abbrev pub connection_columns : List String
connection_columns =
    "host" ∷ "port" ∷ "max_block_gap" ∷ "max_registers_per_read" ∷ "max_bits_per_read" ∷ "baudrate"
    ∷ "parity" ∷ "stopbits" ∷ "bytesize" ∷ "timeout" ∷ "endpoint" ∷ "mode"
    ∷ "subscription_interval_ms" ∷ "topic_filter" ∷ "client_id" ∷ "username" ∷ "password" ∷ "qos"
    ∷ "topic_mac_index" ∷ "timestamp_field" ∷ "sensor_id_field" ∷ "tag_group" ∷ "tag_name"
    ∷ "node_id" ∷ "address" ∷ "function" ∷ "data_type" ∷ "scale" ∷ "offset" ∷ "tag_enabled"
    ∷ "unit_id" ∷ "count" ∷ "word_count" ∷ "byte_order" ∷ "word_order" ∷ []

abbrev pub plugin_columns : List String
plugin_columns =
    "device_group" ∷ "device_name" ∷ "tag_group" ∷ "topic" ∷ "route_kind" ∷ "heartbeat_interval_s"
    ∷ "sensor_code" ∷ "host" ∷ "port" ∷ "base_topic" ∷ "username" ∷ "password" ∷ "client_id" ∷ "qos"
    ∷ "topic_request_on_start" ∷ "topic_refresh_interval_s" ∷ "request_topic_by_mac"
    ∷ "dynamic_topic_enabled" ∷ "mac_address" ∷ "resolved_topic" ∷ "resolved_sensor_count"
    ∷ "resolved_error" ∷ "resolved_at" ∷ "database" ∷ "table" ∷ "auto_create" ∷ "server" ∷ "driver"
    ∷ "trust_server_certificate" ∷ []

-- `if key in values: row[key] = values[key]`, for the keys that the row does not have
abbrev pub put_found : Dict String Json → String → Option Json → Dict String Json
put_found row key none = row
put_found row key (some v) = put row key v

unfoldable pub put_columns : Dict String Json → Dict String Json → List String → Dict String Json
unfolding get put
put_columns found row [] = row
put_columns found row (key ∷ keys) = put_columns found (put_found row key (get found key)) keys

-- What `row.update` adds for a tag.
abbrev pub tag_columns : TagSpec → Dict String Json
tag_columns t =
    ("tag_group", text t.tag_group)
    ∷ ("tag_name", text t.name)
    ∷ ("node_id", text_or_empty t.node_id)
    ∷ ("address", int t.address)
    ∷ ("function", text t.function)
    ∷ ("data_type", text t.data_type)
    ∷ ("scale", float t.scale)
    ∷ ("offset", float t.offset)
    ∷ ("tag_enabled", flag t.enabled)
    ∷ ("unit_id", int_or_empty t.unit_id)
    ∷ ("count", int_or_empty t.word_count)
    ∷ ("word_count", int_or_empty t.word_count)
    ∷ ("byte_order", text t.byte_order)
    ∷ ("word_order", text t.word_order)
    ∷ []

unfoldable pub update_with : Dict String Json → Dict String Json → Dict String Json
unfolding put
update_with row [] = row
update_with row ((key, v) ∷ more) = update_with (put row key v) more

abbrev pub device_columns : DeviceSpec → Dict String Json
device_columns d =
    ("device_group", text d.device_group)
    ∷ ("device_name", text d.name)
    ∷ ("driver_type", text d.driver_type)
    ∷ ("enabled", flag d.enabled)
    ∷ ("poll_interval_ms", int d.poll_interval_ms)
    ∷ []

-- `_device_csv_row`
unfoldable pub device_csv_row : DeviceSpec → Option TagSpec → Dict String Json
unfolding put_columns update_with
device_csv_row d none = put_columns d.connection (device_columns d) connection_columns
device_csv_row d (some t) =
    update_with (put_columns d.connection (device_columns d) connection_columns) (tag_columns t)

-- `_tag_csv_row`
unfoldable pub tag_csv_row : TagSpec → Dict String Json
tag_csv_row t =
    ("tag_group", text t.tag_group)
    ∷ ("name", text t.name)
    ∷ ("node_id", text_or_empty t.node_id)
    ∷ ("address", int t.address)
    ∷ ("function", text t.function)
    ∷ ("data_type", text t.data_type)
    ∷ ("scale", float t.scale)
    ∷ ("offset", float t.offset)
    ∷ ("enabled", flag t.enabled)
    ∷ ("unit_id", int_or_empty t.unit_id)
    ∷ ("count", int_or_empty t.word_count)
    ∷ ("word_count", int_or_empty t.word_count)
    ∷ ("byte_order", text t.byte_order)
    ∷ ("word_order", text t.word_order)
    ∷ []

-- `_plugin_csv_row`
unfoldable pub plugin_csv_row : SinkConfig → Bool → Dict String Json
unfolding put_columns
plugin_csv_row config selected =
    put_columns config.config
      (("record_type", text "plugin")
        ∷ ("sink_type", text config.sink_type)
        ∷ ("selected", flag selected)
        ∷ ("enabled", flag config.enabled)
        ∷ [])
      plugin_columns

-- `_plugin_route_csv_row`, with the route's configuration
abbrev pub exported : Dict String Json → (key default : String) → String × Json
exported config key default = (key, value_or (get config key) (text default))

abbrev pub group_of : Option DeviceSpec → String
group_of none = ""
group_of (some d) = d.device_group

abbrev pub name_of : Option DeviceSpec → String
name_of none = ""
name_of (some d) = d.name

abbrev pub dynamic_flag : Dict String Json → Json
dynamic_flag config = flag (truthy (value_or (get config "dynamic_topic_enabled") (bool false)))

abbrev pub plugin_route_csv_row :
    OutputRouteConfig → Option DeviceSpec → Dict String Json → Dict String Json
plugin_route_csv_row route device config =
    ("record_type", text "route")
    ∷ ("device_group", text (group_of device))
    ∷ ("device_name", text (if is_heartbeat config then "System Heartbeat" else name_of device))
    ∷ ("tag_group", text route.tag_group)
    ∷ ("sink_type", text route.sink_type)
    ∷ ("enabled", flag route.enabled)
    ∷ exported config "route_kind" "data"
    ∷ exported config "topic" ""
    ∷ exported config "heartbeat_interval_s" ""
    ∷ exported config "sensor_code" ""
    ∷ ("request_topic_by_mac", dynamic_flag config)
    ∷ ("dynamic_topic_enabled", dynamic_flag config)
    ∷ exported config "mac_address" ""
    ∷ exported config "resolved_topic" ""
    ∷ exported config "resolved_sensor_count" ""
    ∷ exported config "resolved_error" ""
    ∷ exported config "resolved_at" ""
    ∷ []

-- The rows of a device: one without a tag where it has none.
abbrev pub device_rows : DeviceSpec → List TagSpec → List (Dict String Json)
device_rows d tags =
    if is_nil tags then device_csv_row d none ∷ [] else map (λ t. device_csv_row d (some t)) tags

unfoldable pub all_device_rows : Store → List DeviceSpec → List (Dict String Json)
unfolding device_csv_row
all_device_rows s [] = []
all_device_rows s (d ∷ devices) =
    device_rows d (list_tags s (id_or_zero d.id)) ++ all_device_rows s devices

unfoldable pub all_route_rows :
    Conversions → List DeviceSpec → List OutputRouteConfig → Result (List (Dict String Json))
unfolding route_config
all_route_rows c devices [] = ok []
all_route_rows c devices (route ∷ routes) = do
  config ← route_config c route.config []
  rows ← all_route_rows c devices routes
  ok (plugin_route_csv_row route (device_of devices route.device_id) config ∷ rows)

unfoldable pub export_devices_csv : Service (List (Dict String Json))
unfolding all_device_rows
export_devices_csv = read (λ s. all_device_rows s (list_devices s))

unfoldable pub export_tags_csv : Conversions → (ℤ → String) → ℤ → Service (List (Dict String Json))
export_tags_csv c id_text id =
    get_device c id_text id >> read (λ s. map tag_csv_row (list_tags s id))

unfoldable pub export_plugin_routes_csv : Conversions → Service (List (Dict String Json))
unfolding all_route_rows
export_plugin_routes_csv c s = (s, all_route_rows c (list_devices s) (stored_routes s))

abbrev pub plugin_rows : Store → List (Dict String Json)
plugin_rows s =
    map (λ config. plugin_csv_row config (config.sink_type == get_selected_sink_type s))
      (values (all_sinks s))

unfoldable pub export_plugins_csv : Conversions → Service (List (Dict String Json))
unfolding all_route_rows
export_plugins_csv c s = (
  s,
  elim (all_route_rows c (list_devices s) (stored_routes s)) [
    | err e ↦ err e
    | ok rows ↦ ok (plugin_rows s ++ rows)
  ],
)
