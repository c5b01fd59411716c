-- ===== src/Store/Configs.antt =====
-- The statements on the configurations of the sinks, and the ordered lists of rows.
use Prim.Native.Char.{code}
use iot_gathering.Common.{
  String, ℤ, pos, ltb, nat_beq, leb_ℤ, Bool, true, false, Option, none, some, List, [], ◌∷◌, keep,
  ◌==◌, if◌then◌else◌, string_eq, int_eq, option_eq,
}
use iot_gathering.Common.Text.{or_text}
use iot_gathering.Common.Values.{optional_text}
use iot_gathering.Common.Json.{int, text}
use iot_gathering.Common.Dict.{get, put, values}
use iot_gathering.Models.{DeviceSpec, TagSpec, MqttConfig, SinkConfig, OutputRouteConfig}
use iot_gathering.Store.Tables.{Store}

unfoldable pub save_mqtt_config : Store → MqttConfig → Store
save_mqtt_config s config = record s { mqtt_config = some config }

abbrev pub default_mqtt_config : MqttConfig
default_mqtt_config = record {
  host = "localhost";
  port = pos 1883;
  base_topic = "industrial";
  username = none;
  password = none;
  client_id = "industrial-gateway";
  qos = pos 0;
  enabled = true;
}

unfoldable pub get_mqtt_config : Store → MqttConfig
get_mqtt_config s = elim s.mqtt_config [ none ↦ default_mqtt_config | some config ↦ config ]

unfoldable pub save_sink_config : Store → SinkConfig → Store
save_sink_config s config = record s {
  sink_configs = put s.sink_configs config.sink_type config;
  sink_selection = some config.sink_type;
}

unfoldable pub get_selected_sink_type : Store → String
get_selected_sink_type s = elim s.sink_selection [ none ↦ "mqtt" | some sink_type ↦ sink_type ]

abbrev pub mqtt_sink_config : MqttConfig → SinkConfig
mqtt_sink_config mqtt = record {
  sink_type = "mqtt";
  enabled = mqtt.enabled;
  config =
      ("host", text mqtt.host)
      ∷ ("port", int mqtt.port)
      ∷ ("base_topic", text mqtt.base_topic)
      ∷ ("username", optional_text mqtt.username)
      ∷ ("password", optional_text mqtt.password)
      ∷ ("client_id", text mqtt.client_id)
      ∷ ("qos", int mqtt.qos)
      ∷ [];
}

-- `sink_type or self.get_selected_sink_type()`
abbrev pub requested_type : Store → Option String → String
requested_type s none = get_selected_sink_type s
requested_type s (some sink_type) = or_text sink_type (get_selected_sink_type s)

abbrev pub found_sink : Store → String → Option SinkConfig → SinkConfig
found_sink s requested (some config) = config
found_sink s requested none =
    if requested == "mqtt"
    then mqtt_sink_config (get_mqtt_config s)
    else record { sink_type = requested; enabled = false; config = [] }

unfoldable pub get_sink_config : Store → Option String → SinkConfig
unfolding get_selected_sink_type get_mqtt_config
get_sink_config s sink_type =
    let requested = requested_type s sink_type in
    found_sink s requested (get s.sink_configs requested)

-- SQLite's order of texts.
unfoldable pub text_leb : String → String → Bool
text_leb String.[] t = true
text_leb (String.◌∷◌ c s) String.[] = false
text_leb (String.◌∷◌ c s) (String.◌∷◌ d t) =
    let rest = text_leb s t in
    if ltb (code c) (code d) then true else if nat_beq (code c) (code d) then rest else false

-- `ORDER BY` a first text and then a second one.
abbrev pub pair_leb : String × String → String × String → Bool
pair_leb (a, b) (c, d) = if a == c then text_leb b d else text_leb a c

unfoldable pub insert_row {ℓ} : {A : Type ℓ} → (A → A → Bool) → A → List A → List A
insert_row before a [] = a ∷ []
insert_row before a (b ∷ bs) =
    let rest = insert_row before a bs in if before a b then a ∷ b ∷ bs else b ∷ rest

unfoldable pub order_rows {ℓ} : {A : Type ℓ} → (A → A → Bool) → List A → List A
unfolding insert_row
order_rows before [] = []
order_rows before (a ∷ more) = insert_row before a (order_rows before more)

abbrev pub order_by {ℓ} : {A : Type ℓ} → (A → String × String) → List A → List A
order_by by rows = order_rows (λ a b. pair_leb (by a) (by b)) rows

unfoldable pub list_devices : Store → List DeviceSpec
unfolding order_rows text_leb
list_devices s = order_by (λ d. (d.device_group, d.name)) (values s.devices)

unfoldable pub list_tags : Store → ℤ → List TagSpec
unfolding order_rows text_leb
list_tags s device_id =
    order_by (λ t. (t.tag_group, t.name))
      (keep (λ t. t.device_id == some device_id) (values s.tags))

unfoldable pub list_sink_configs : Store → List SinkConfig
unfolding order_rows text_leb
list_sink_configs s = order_by (λ c. (c.sink_type, "")) (values s.sink_configs)

-- `ORDER BY device_id IS NULL, device_id, tag_group, sink_type`
abbrev pub route_leb : OutputRouteConfig → OutputRouteConfig → Bool
route_leb a b =
    if a.device_id == b.device_id
    then pair_leb (a.tag_group, a.sink_type) (b.tag_group, b.sink_type)
    else device_leb a.device_id b.device_id
  where
    device_leb : Option ℤ → Option ℤ → Bool
    device_leb none o = false
    device_leb (some d) none = true
    device_leb (some d) (some e) = leb_ℤ d e

unfoldable pub list_output_routes : Store → List OutputRouteConfig
unfolding order_rows text_leb
list_output_routes s = order_rows route_leb (values s.routes)
