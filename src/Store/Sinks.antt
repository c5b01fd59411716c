-- ===== src/Store/Sinks.antt =====
-- The configurations of the sinks: what is saved is what is read.

use iot_gathering.Common.{String, false, none, some, ◌≡◌, refl, ◌==◌, string_eq, beq_self}
use iot_gathering.Common.Text.{is_empty, or_text}
use iot_gathering.Common.Dict.{get-put}
use iot_gathering.Models.{SinkConfig}
use iot_gathering.Store.Tables.{Store}
use iot_gathering.Store.Configs.{
  save_sink_config, get_sink_config, get_selected_sink_type, get_mqtt_config,
}

or_text-nonempty : (s t : String) → is_empty s ≡ false → or_text s t ≡ s
or_text-nonempty String.[] t h = absurd (cc h)
or_text-nonempty (String.◌∷◌ c s) t h = refl

-- The sink configuration that is saved last is the selected one, as it was saved; the configuration of
-- another sink, asked for by its name, is what it was.
pub get_sink_config-save_sink_config :
    (s : Store) (config : SinkConfig) (other : String)
    → is_empty other ≡ false
    → (config.sink_type == other) ≡ false
    → (get_sink_config (save_sink_config s config) none ≡ config)
      × (get_sink_config (save_sink_config s config) (some other) ≡ get_sink_config s (some other))
unfolding get_sink_config save_sink_config get_selected_sink_type get_mqtt_config
get_sink_config-save_sink_config s config other n h = (
  rw
      (
        get-put s.sink_configs config.sink_type config.sink_type config,
        beq_self string_eq config.sink_type,
      )
      refl,
  rw
      (
        or_text-nonempty other config.sink_type n,
        or_text-nonempty other (get_selected_sink_type s) n,
        get-put s.sink_configs config.sink_type other config,
        h,
      )
      refl,
)
