-- ===== src/Models/Validation.antt =====
-- models.py, `validate_tag` and its helpers: which tags a driver type accepts.
use iot_gathering.Common.{
  String, ℤ, pos, ltb_ℤ, leb_ℤ, Bool, true, false, not, ◌&&◌, ◌||◌, Option, none, some, List, [],
  ◌∷◌, ◌==◌, if◌then◌else◌, string_eq,
}
use iot_gathering.Common.Text.{is_empty, strip, ◌<>◌}
use iot_gathering.Common.Json.{float_is_zero}
use iot_gathering.Common.Result.{Error, value_error, Result, ◌>>◌, raise_first}
use iot_gathering.Models.Defs.{TagSpec}

-- `not s.strip()`
abbrev pub is_blank : String → Bool
is_blank s = is_empty (strip s)

-- `s in {…}`
abbrev pub is_one_of : String → List String → Bool
is_one_of s [] = false
is_one_of s (t ∷ texts) = s == t || is_one_of s texts

abbrev pub modbus_functions : List String
modbus_functions = "holding_register" ∷ "input_register" ∷ "coil" ∷ "discrete_input" ∷ []

abbrev pub data_types : List String
data_types =
    "auto" ∷ "bool" ∷ "int16" ∷ "uint16" ∷ "int32" ∷ "uint32" ∷ "float32" ∷ "float64" ∷ "string"
    ∷ []

abbrev pub orders : List String
orders = "big" ∷ "little" ∷ []

-- `word_count is None or word_count < 1`
abbrev pub lacks_count : Option ℤ → Bool
lacks_count none = true
lacks_count (some n) = ltb_ℤ n (pos 1)

-- `word_count is not None and word_count < 1`
abbrev pub has_low_count : Option ℤ → Bool
has_low_count none = false
has_low_count (some n) = ltb_ℤ n (pos 1)

-- `unit_id is not None and not 1 <= unit_id <= 247`
abbrev pub has_bad_unit : Option ℤ → Bool
has_bad_unit none = false
has_bad_unit (some u) = not (leb_ℤ (pos 1) u && leb_ℤ u (pos 247))

-- `not node_id or not node_id.strip()`
abbrev pub lacks_node : Option String → Bool
lacks_node none = true
lacks_node (some s) = is_empty s || is_blank s

abbrev pub common_checks : TagSpec → List (Bool × Error)
common_checks tag =
    (
      not (is_one_of tag.data_type data_types),
      value_error ("unsupported tag data type: " <> tag.data_type),
    )
    ∷ (float_is_zero tag.scale, value_error "tag scale cannot be zero")
    ∷ (
      tag.data_type == "string" && lacks_count tag.word_count,
      value_error "string tag count must be at least 1",
    )
    ∷ (
      not (tag.data_type == "string") && has_low_count tag.word_count,
      value_error "tag count must be at least 1",
    )
    ∷ (not (is_one_of tag.byte_order orders), value_error "tag byte_order must be big or little")
    ∷ (not (is_one_of tag.word_order orders), value_error "tag word_order must be big or little")
    ∷ []

unfoldable pub validate_common_tag_fields : TagSpec → Result (Unit {0})
validate_common_tag_fields tag = raise_first (common_checks tag)

abbrev pub modbus_checks : TagSpec → List (Bool × Error)
modbus_checks tag =
    (is_blank tag.name, value_error "tag name is required")
    ∷ (ltb_ℤ tag.address (pos 0), value_error "tag address must be zero or greater")
    ∷ (
      not (is_one_of tag.function modbus_functions),
      value_error ("unsupported Modbus function: " <> tag.function),
    )
    ∷ (has_bad_unit tag.unit_id, value_error "tag unit_id must be between 1 and 247")
    ∷ []

unfoldable pub validate_modbus_tag : TagSpec → Result (Unit {0})
validate_modbus_tag tag = raise_first (modbus_checks tag) >> validate_common_tag_fields tag

abbrev pub opcua_checks : TagSpec → List (Bool × Error)
opcua_checks tag =
    (is_blank tag.name, value_error "tag name is required")
    ∷ (
      not (tag.function == "opcua_node"),
      value_error ("unsupported OPC UA function: " <> tag.function),
    )
    ∷ (lacks_node tag.node_id, value_error "OPC UA tag node_id is required")
    ∷ []

unfoldable pub validate_opcua_tag : TagSpec → Result (Unit {0})
validate_opcua_tag tag = raise_first (opcua_checks tag) >> validate_common_tag_fields tag

abbrev pub mqtt_checks : TagSpec → List (Bool × Error)
mqtt_checks tag =
    (is_blank tag.name, value_error "tag name is required")
    ∷ (
      not (tag.function == "json_field"),
      value_error ("unsupported MQTT function: " <> tag.function),
    )
    ∷ (lacks_node tag.node_id, value_error "MQTT tag JSON field is required")
    ∷ []

unfoldable pub validate_mqtt_tag : TagSpec → Result (Unit {0})
validate_mqtt_tag tag = raise_first (mqtt_checks tag) >> validate_common_tag_fields tag

unfoldable pub validate_tag : String → TagSpec → Result (Unit {0})
validate_tag driver_type tag =
    if driver_type == "opcua"
    then validate_opcua_tag tag
    else if driver_type == "mqtt"
    then validate_mqtt_tag tag
    else validate_modbus_tag tag
