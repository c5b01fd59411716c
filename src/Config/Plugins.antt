-- ===== src/Config/Plugins.antt =====
-- `ConfigService`: the operations on the configurations of the plugins.
use iot_gathering.Common.{String, true, some, List, [], ◌∷◌, map, ◌==◌, if◌then◌else◌, string_eq}
use iot_gathering.Common.Json.{Json, bool, truthy}
use iot_gathering.Common.Dict.{Dict, get, put, values}
use iot_gathering.Common.Values.{Conversions, str, value_or_null, value_or}
use iot_gathering.Models.{SinkConfig}
use iot_gathering.Store.Tables.{Store, is_some}
use iot_gathering.Store.Configs.{
  get_sink_config as stored_sink, save_sink_config as store_sink, get_selected_sink_type,
  list_sink_configs as stored_sinks,
}
use iot_gathering.Config.Schema.{normalize_plugin_config}
use iot_gathering.Config.Service.{Service, ◌>>=◌, ◌>>◌, give, read, change}
use iot_gathering.Config.Payloads.{required, dict_of, sink_to_dict}

-- `{config.sink_type: config for config in configs}`, with the selected one added where it is missing
unfoldable pub by_type : Dict String SinkConfig → List SinkConfig → Dict String SinkConfig
unfolding put
by_type found [] = found
by_type found (config ∷ configs) = by_type (put found config.sink_type config) configs

abbrev pub with_selected : Store → String → Dict String SinkConfig → Dict String SinkConfig
with_selected s selected configs =
    if is_some (get configs selected)
    then configs
    else put configs selected (stored_sink s (some selected))

unfoldable pub all_sinks : Store → Dict String SinkConfig
unfolding by_type
all_sinks s = with_selected s (get_selected_sink_type s) (by_type [] (stored_sinks s))

unfoldable pub list_sink_configs : Service (List (Dict String Json))
unfolding all_sinks
list_sink_configs = read (λ s.
    map (λ config. sink_to_dict config (config.sink_type == get_selected_sink_type s))
      (values (all_sinks s)))

unfoldable pub get_sink_config : String → Service (Dict String Json)
get_sink_config sink_type =
    read
      (λ s. sink_to_dict (stored_sink s (some sink_type)) (sink_type == get_selected_sink_type s))

unfoldable pub get_selected_sink_config : Service (Dict String Json)
get_selected_sink_config = do selected ← read get_selected_sink_type; get_sink_config selected

-- The row that `save_sink_config` stores.
abbrev pub sink_config_of : String → Dict String Json → Dict String Json → SinkConfig
sink_config_of sink_type payload config = record {
  sink_type = sink_type;
  enabled = truthy (value_or (get payload "enabled") (bool true));
  config = normalize_plugin_config sink_type config;
}

unfoldable pub save_sink_config : Conversions → Dict String Json → Service (Dict String Json)
save_sink_config c payload = do
  sink_type ← give (required payload "sink_type")
  config ← give (dict_of (value_or_null (get payload "config")))
  change (λ s. store_sink s (sink_config_of (str c sink_type) payload config))
  get_sink_config (str c sink_type)
