-- ===== src/Examples/StoreRuns.antt =====
-- A store with one device and one tag of it.
use iot_gathering.Common.{pos, true, none, some, [], ◌≡◌, refl, string_eq, int_eq, option_eq}
use iot_gathering.Common.Text.{strip}
use iot_gathering.Common.Dict.{get}
use iot_gathering.Common.Result.{ok, raise_first}
use iot_gathering.Models.{DeviceSpec, TagSpec, SinkConfig}
use iot_gathering.Models.Validation.{validate_tag, validate_modbus_tag, validate_common_tag_fields}
use iot_gathering.Store.Tables.{Store, new_store, save_device, save_tag, stored_device, stored_tag}
use iot_gathering.Store.Configs.{get_sink_config, save_sink_config}
use iot_gathering.Store.Consistent.{IsConsistent, saves_device, saves_tag, Reachable, new, after}
use iot_gathering.Store.Reach.{Reachable-IsConsistent}
use iot_gathering.Store.Sinks.{get_sink_config-save_sink_config}

abbrev boiler : DeviceSpec
boiler = record {
  id = none;
  name = "boiler";
  driver_type = "modbus_tcp";
  enabled = true;
  poll_interval_ms = pos 1000;
  device_group = "";
  connection = [];
}

abbrev pressure : TagSpec
pressure = record {
  name = "pressure";
  address = pos 7;
  function = "input_register";
  data_type = "float32";
  tag_group = "";
  id = none;
  device_id = some (pos 1);
  scale = 4607182418800017408;
  offset = 0;
  enabled = true;
  unit_id = some (pos 3);
  word_count = none;
  byte_order = "big";
  word_order = "big";
  node_id = none;
}

abbrev with_boiler : Store
with_boiler = (stored_device new_store boiler none).0

abbrev with_pressure : Store
with_pressure = (stored_tag with_boiler pressure none).0

boiler_saved : save_device new_store boiler ≡ ok (stored_device new_store boiler none)
unfolding save_device raise_first strip
boiler_saved = refl

pressure_saved :
    save_tag (λ z. "1") with_boiler pressure ≡ ok (stored_tag with_boiler pressure none)
unfolding save_tag raise_first strip validate_tag validate_modbus_tag validate_common_tag_fields get
pressure_saved = refl

pressure_reached : Reachable (λ z. "1") with_pressure
pressure_reached =
    after (after new (saves_device boiler (stored_device new_store boiler none) boiler_saved))
      (saves_tag pressure (stored_tag with_boiler pressure none) pressure_saved)

Reachable-IsConsistent_example : IsConsistent with_pressure
Reachable-IsConsistent_example = Reachable-IsConsistent (λ z. "1") with_pressure pressure_reached

abbrev database : SinkConfig
database = record { sink_type = "postgresql"; enabled = true; config = [] }

get_sink_config-save_sink_config_example :
    (get_sink_config (save_sink_config new_store database) none ≡ database)
    × (get_sink_config (save_sink_config new_store database) (some "mqtt")
        ≡ get_sink_config new_store (some "mqtt"))
get_sink_config-save_sink_config_example =
    get_sink_config-save_sink_config new_store database "mqtt" refl refl
