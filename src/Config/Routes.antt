-- ===== src/Config/Routes.antt =====
-- services/config_service.py: the configuration of an output route, and the rows that show one.
use iot_gathering.Common.{
  ℤ, pos, max_ℤ, String, Bool, true, false, Option, none, some, List, [], ◌∷◌, ◌==◌, if◌then◌else◌,
  string_eq, int_eq, option_eq,
}
use iot_gathering.Common.Text.{is_empty, or_text, strip, lstrip_slashes, starts_with, ◌<>◌}
use iot_gathering.Common.Json.{Json, bool, int, text, dict, float_to_int}
use iot_gathering.Common.Dict.{Dict, get, put}
use iot_gathering.Common.Values.{
  Conversions, str, to_float, int_of, to_fields, value_or_null, value_or, or_value, is_unset,
  says_yes, optional_int,
}
use iot_gathering.Common.Result.{value_error, Result, ok, ◌>>=◌, found_or}
use iot_gathering.Models.{OutputRouteConfig}

-- `_csv_bool`
abbrev pub csv_bool : Conversions → Json → Bool → Bool
csv_bool c v default = if is_unset v then default else says_yes c v

-- `str(config.get(key) or payload.get(key) or default).strip()`
abbrev pub text_setting :
    Conversions → (config payload : Dict String Json) → (key default : String) → String
text_setting c config payload key default = strip (
    str c (
      or_value (value_or_null (get config key))
        (or_value (value_or_null (get payload key)) (text default))))

-- `config.get(key, payload.get(key))`
abbrev pub setting : (config payload : Dict String Json) → String → Json
setting config payload key = value_or (get config key) (value_or_null (get payload key))

-- `if value: values[key] = value`
abbrev pub put_text : Dict String Json → String → String → Dict String Json
put_text values key s = if is_empty s then values else put values key (text s)

-- `max(1, int(float(value)))`
abbrev pub interval_of : Conversions → Json → Result Json
interval_of c v = do
  f ← to_float c v
  n ← found_or (float_to_int f) (value_error "cannot convert float to integer")
  ok (int (max_ℤ (pos 1) n))

abbrev pub with_interval : Conversions → Dict String Json → Json → Result (Dict String Json)
with_interval c values v =
    if is_unset v
    then ok values
    else interval_of c v >>= λ n. ok (put values "heartbeat_interval_s" n)

abbrev pub heartbeat_settings :
    Conversions → (config payload : Dict String Json) → Result (Dict String Json)
heartbeat_settings c config payload =
    with_interval c
      (put (put [] "route_kind" (text "system_heartbeat")) "sensor_code"
        (text (or_text (text_setting c config payload "sensor_code" "SYSTEM") "SYSTEM")))
      (setting config payload "heartbeat_interval_s")

abbrev pub kind_settings :
    Conversions → (config payload : Dict String Json) → Result (Dict String Json)
kind_settings c config payload =
    if text_setting c config payload "route_kind" "data" == "system_heartbeat"
    then heartbeat_settings c config payload
    else ok []

abbrev pub is_dynamic : Conversions → (config payload : Dict String Json) → Bool
is_dynamic c config payload =
    csv_bool c
      (value_or (get config "dynamic_topic_enabled") (
        value_or (get config "request_topic_by_mac") (
          value_or (get payload "dynamic_topic_enabled")
            (value_or_null (get payload "request_topic_by_mac")))))
      false

abbrev pub with_dynamic : Dict String Json → Bool → Dict String Json
with_dynamic values dynamic =
    if dynamic then put values "dynamic_topic_enabled" (bool true) else values

-- The part of the topic: its text, whether it is asked for, the address and the one that was received.
abbrev pub with_topics :
    Conversions → (config payload : Dict String Json) → Dict String Json → Dict String Json
with_topics c config payload values =
    let topic = put_text values "topic" (text_setting c config payload "topic" "") in
    let dynamic = with_dynamic topic (is_dynamic c config payload) in
    let mac = put_text dynamic "mac_address" (text_setting c config payload "mac_address" "") in
    put_text mac "resolved_topic" (text_setting c config payload "resolved_topic" "")

abbrev pub with_count : Dict String Json → Json → Result (Dict String Json)
with_count values v =
    if is_unset v
    then ok values
    else int_of v >>= λ n. ok (put values "resolved_sensor_count" (int n))

abbrev pub with_outcome :
    Conversions → (config payload : Dict String Json) → Dict String Json → Dict String Json
with_outcome c config payload values =
    put_text (put_text values "resolved_error" (text_setting c config payload "resolved_error" ""))
      "resolved_at" (text_setting c config payload "resolved_at" "")

-- `_route_config` of a payload whose "config" is `config`
unfoldable pub route_config :
    Conversions → (config payload : Dict String Json) → Result (Dict String Json)
unfolding get put says_yes float_to_int
route_config c config payload = do
  kind ← kind_settings c config payload
  counted ←
      with_count (with_topics c config payload kind)
        (setting config payload "resolved_sensor_count")
  ok (with_outcome c config payload counted)

-- `config.get(key, default)`, under the same key
abbrev pub shown : Dict String Json → (key default : String) → String × Json
shown config key default = (key, value_or (get config key) (text default))

-- `_route_to_dict`
abbrev pub route_row : OutputRouteConfig → Dict String Json → Dict String Json
route_row route config =
    ("id", optional_int route.id)
    ∷ ("device_id", optional_int route.device_id)
    ∷ ("tag_group", text route.tag_group)
    ∷ ("sink_type", text route.sink_type)
    ∷ ("enabled", bool route.enabled)
    ∷ ("config", dict (to_fields config))
    ∷ shown config "mac_address" ""
    ∷ shown config "resolved_topic" ""
    ∷ shown config "resolved_sensor_count" ""
    ∷ shown config "resolved_error" ""
    ∷ shown config "resolved_at" ""
    ∷ shown config "route_kind" "data"
    ∷ shown config "heartbeat_interval_s" ""
    ∷ shown config "sensor_code" "SYSTEM"
    ∷ []

unfoldable pub route_to_dict : Conversions → OutputRouteConfig → Result (Dict String Json)
unfolding route_config
route_to_dict c route = do config ← route_config c route.config []; ok (route_row route config)

-- `_received_topic_path`
unfoldable pub received_topic_path : String → String
unfolding starts_with lstrip_slashes
received_topic_path topic =
    let stripped = lstrip_slashes topic in
    if starts_with "C-S/" stripped then stripped else "C-S/" <> stripped

-- `_route_by_required_id`
abbrev pub route_with_id : List OutputRouteConfig → ℤ → Option OutputRouteConfig
route_with_id [] id = none
route_with_id (r ∷ routes) id =
    let rest = route_with_id routes id in if r.id == some id then some r else rest
