-- ===== src/Examples/ServiceRuns.antt =====
-- The service on a store with one device, one tag and one route.
use iot_gathering.Common.{
  ℤ, pos, String, true, false, none, some, [], ◌∷◌, ◌≡◌, refl, string_eq, int_eq, option_eq,
}
use iot_gathering.Common.Text.{is_empty, strip, starts_with, lstrip_slashes}
use iot_gathering.Common.Json.{Json, text, int, truthy, to_int}
use iot_gathering.Common.Dict.{Dict, get, put}
use iot_gathering.Common.Values.{Conversions, says_yes}
use iot_gathering.Common.Result.{ok, raise_first}
use iot_gathering.Models.{DeviceSpec, TagSpec, OutputRouteConfig}
use iot_gathering.Models.Validation.{validate_tag, validate_modbus_tag, validate_common_tag_fields}
use iot_gathering.Store.Tables.{
  Store, new_store, save_device, save_tag, stored_device, stored_tag, stored_route, update_row,
  with_route_id, has_device,
}
use iot_gathering.Store.Configs.{list_tags, list_output_routes}
use iot_gathering.Store.Consistent.{
  IsConsistent, Reachable, new as new_store_reached, after as then_store, saves_device,
}
use iot_gathering.Store.Reach.{Reachable-IsConsistent}
use iot_gathering.Config.Schema.{
  normalize_connection_for_driver, normalize_plugin_config, default_connection_for_driver, overlay,
  defaults, connection_fields_for_driver, plugin_fields, connection_defaults, plugin_defaults,
}
use iot_gathering.Config.Normal.{completed, normalize-completed}
use iot_gathering.Config.Service.{save}
use iot_gathering.Config.Devices.{create_device}
use iot_gathering.Config.DeviceImports.{upsert_tag, existing_tag_id}
use iot_gathering.Config.Routes.{route_config, route_with_id, received_topic_path}
use iot_gathering.Config.Resolving.{Resolver, resolve_output_route_topic, answer_of, mac_of}
use iot_gathering.Config.Served.{new, after, creates_device, Served-Reachable}
use iot_gathering.Config.Topics.{IsAnswered, resolve_output_route_topic-IsAnswered}
use iot_gathering.Config.Again.{upsert_tag-again}

abbrev conversions : Conversions
conversions = record {
  printed = λ v. "0";
  int_float = λ n. 0;
  text_float = λ s. none;
  equal = λ a b. true;
}

abbrev id_text : ℤ → String
id_text n = "1"

-- A connection with one field of its own and one that the driver type does not have.
normalize-completed_example :
    (normalize_connection_for_driver "opcua"
        (("mode", text "subscription") ∷ ("extra", int (pos 1)) ∷ [])
      ≡ completed
          (("mode", text "subscription") ∷ ("extra", int (pos 1)) ∷ [])
          (connection_defaults (connection_fields_for_driver "opcua")))
    × (normalize_connection_for_driver "opcua" (
          normalize_connection_for_driver "opcua"
            (("mode", text "subscription") ∷ ("extra", int (pos 1)) ∷ []))
        ≡ normalize_connection_for_driver "opcua"
            (("mode", text "subscription") ∷ ("extra", int (pos 1)) ∷ []))
    × (normalize_plugin_config "mqtt" (("mode", text "subscription") ∷ ("extra", int (pos 1)) ∷ [])
        ≡ completed
            (("mode", text "subscription") ∷ ("extra", int (pos 1)) ∷ [])
            (plugin_defaults (plugin_fields "mqtt")))
    × (normalize_plugin_config "mqtt" (
          normalize_plugin_config "mqtt"
            (("mode", text "subscription") ∷ ("extra", int (pos 1)) ∷ []))
        ≡ normalize_plugin_config "mqtt"
            (("mode", text "subscription") ∷ ("extra", int (pos 1)) ∷ []))
normalize-completed_example =
    normalize-completed "opcua" "mqtt" (("mode", text "subscription") ∷ ("extra", int (pos 1)) ∷ [])

opcua_connection :
    normalize_connection_for_driver "opcua"
      (("mode", text "subscription") ∷ ("extra", int (pos 1)) ∷ [])
    ≡ ("endpoint", text "opc.tcp://127.0.0.1:4840/freeopcua/server/")
      ∷ ("mode", text "subscription")
      ∷ ("subscription_interval_ms", int (pos 250))
      ∷ []
unfolding normalize_connection_for_driver default_connection_for_driver overlay defaults
    connection_fields_for_driver get put
opcua_connection = refl

abbrev payload : Dict String Json
payload = ("name", text "boiler") ∷ ("driver_type", text "opcua") ∷ []

Served-Reachable_example :
    Reachable id_text (create_device conversions id_text payload new_store).0
    × IsConsistent (create_device conversions id_text payload new_store).0
Served-Reachable_example =
    Served-Reachable conversions id_text (create_device conversions id_text payload new_store).0
      (after new (creates_device payload))

abbrev boiler : DeviceSpec
boiler = record {
  id = none;
  name = "boiler";
  driver_type = "modbus_tcp";
  enabled = true;
  poll_interval_ms = pos 1000;
  device_group = "";
  connection = [];
}

abbrev pressure : TagSpec
pressure = record {
  name = "pressure";
  address = pos 7;
  function = "input_register";
  data_type = "float32";
  tag_group = "";
  id = none;
  device_id = none;
  scale = 4607182418800017408;
  offset = 0;
  enabled = true;
  unit_id = some (pos 3);
  word_count = none;
  byte_order = "big";
  word_order = "big";
  node_id = none;
}

abbrev with_boiler : Store
with_boiler = (stored_device new_store boiler none).0

with_boiler-IsConsistent : IsConsistent with_boiler
unfolding save_device raise_first strip
with_boiler-IsConsistent =
    Reachable-IsConsistent id_text with_boiler (
      then_store new_store_reached (saves_device boiler (stored_device new_store boiler none) refl))

abbrev with_pressure : Store
with_pressure = (stored_tag with_boiler (record pressure { device_id = some (pos 1) }) none).0

first_import : upsert_tag id_text (pos 1) pressure with_boiler ≡ (with_pressure, ok (pos 1))
unfolding upsert_tag save save_tag existing_tag_id list_tags raise_first strip validate_tag
    validate_modbus_tag validate_common_tag_fields get
first_import = refl

upsert_tag-again_example :
    (existing_tag_id (list_tags with_pressure (pos 1)) pressure ≡ some (pos 1))
    × (upsert_tag id_text (pos 1) pressure with_pressure ≡ (with_pressure, ok (pos 1)))
upsert_tag-again_example =
    upsert_tag-again id_text with_boiler with_pressure (pos 1) (pos 1) pressure
      with_boiler-IsConsistent first_import

abbrev route : OutputRouteConfig
route = record {
  id = none;
  device_id = some (pos 1);
  tag_group = "";
  sink_type = "mqtt";
  enabled = true;
  config = ("mac_address", text "AA") ∷ ("topic", text "plant/a") ∷ [];
}

abbrev stored : OutputRouteConfig
stored = record route { id = some (pos 1) }

abbrev with_route : Store
with_route = (stored_route with_boiler route none).0

abbrev settings : Dict String Json
settings = ("topic", text "plant/a") ∷ ("mac_address", text "AA") ∷ []

abbrev resolver : Resolver
resolver mac config = ok (("topic", text "/plant/line/") ∷ [])

route_found : route_with_id (list_output_routes with_route) (pos 1) ≡ some stored
unfolding list_output_routes
route_found = refl

settings_read : route_config conversions stored.config [] ≡ ok settings
unfolding route_config get put says_yes strip truthy
settings_read = refl

address_read : is_empty (mac_of conversions id_text resolver "noon" settings) ≡ false
unfolding get strip truthy
address_read = refl

boiler_there : has_device with_route (some (pos 1)) ≡ true
unfolding get
boiler_there = refl

resolve_output_route_topic-IsAnswered_example :
    (later : Dict String Json) × ((resolve_output_route_topic conversions id_text resolver "noon"
        (pos 1)
        with_route).0
      ≡ record with_route {
        routes =
            update_row with_route.routes
              (pos 1)
              (with_route_id (record stored { config = later }) (pos 1));
      })
    × IsAnswered settings later (
        answer_of conversions id_text resolver "noon" with_route
          (mac_of conversions id_text resolver "noon" settings))
resolve_output_route_topic-IsAnswered_example =
    resolve_output_route_topic-IsAnswered conversions id_text resolver "noon" with_route (pos 1)
      stored settings route_found settings_read address_read boiler_there

-- The topic that the route has then.
topic_received :
    answer_of conversions id_text resolver "noon" with_route "AA" ≡ ok ("C-S/plant/line/", pos 0)
unfolding received_topic_path get truthy to_int starts_with lstrip_slashes
topic_received = refl
