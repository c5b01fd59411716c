-- ===== src/Config/Schema.antt =====
-- config_schema.py: the functions on the tables of fields.
use iot_gathering.Common.{
  String, Bool, ◌||◌, Option, none, some, List, [], ◌∷◌, map, keep, any, ◌==◌, if◌then◌else◌,
  string_eq,
}
use iot_gathering.Common.Text.{strip, lower}
use iot_gathering.Common.Json.{Json, text, list, Items, nil, cons}
use iot_gathering.Common.Dict.{Dict, get, put}
use iot_gathering.Common.Values.{optional_int}
use iot_gathering.Config.Tables.{ConnectionField, PluginField, connection_tables, plugin_tables}

abbrev pub or_empty {ℓ} : {A : Type ℓ} → Option (List A) → List A
or_empty none = []
or_empty (some l) = l

unfoldable pub connection_fields_for_driver : String → List ConnectionField
unfolding get
connection_fields_for_driver driver_type = or_empty (get connection_tables driver_type)

unfoldable pub plugin_fields : String → List PluginField
unfolding get
plugin_fields plugin_type = or_empty (get plugin_tables plugin_type)

-- `{field.key: field.default for field in fields}`, from what the earlier fields gave; a field is its key
-- and its default.
unfoldable pub defaults : Dict String Json → List (String × Json) → Dict String Json
unfolding put
defaults values [] = values
defaults values ((key, default) ∷ fields) = defaults (put values key default) fields

-- The loop of the two functions that normalise.
abbrev pub overlay_field : Dict String Json → String → Option Json → Dict String Json
overlay_field values key none = values
overlay_field values key (some v) = put values key v

unfoldable pub overlay :
    Dict String Json → Dict String Json → List (String × Json) → Dict String Json
unfolding get
overlay existing values [] = values
overlay existing values ((key, default) ∷ fields) =
    overlay existing (overlay_field values key (get existing key)) fields

abbrev pub connection_defaults : List ConnectionField → List (String × Json)
connection_defaults fields = map (λ f. (f.key, f.default)) fields

abbrev pub plugin_defaults : List PluginField → List (String × Json)
plugin_defaults fields = map (λ f. (f.key, f.default)) fields

unfoldable pub default_connection_for_driver : String → Dict String Json
unfolding defaults connection_fields_for_driver
default_connection_for_driver driver_type =
    defaults [] (connection_defaults (connection_fields_for_driver driver_type))

unfoldable pub default_plugin_config : String → Dict String Json
unfolding defaults plugin_fields
default_plugin_config plugin_type = defaults [] (plugin_defaults (plugin_fields plugin_type))

-- `existing` of None is the empty dictionary: neither has a field.
unfoldable pub normalize_connection_for_driver : String → Dict String Json → Dict String Json
unfolding default_connection_for_driver overlay connection_fields_for_driver
normalize_connection_for_driver driver_type existing =
    overlay existing (default_connection_for_driver driver_type)
      (connection_defaults (connection_fields_for_driver driver_type))

unfoldable pub normalize_plugin_config : String → Dict String Json → Dict String Json
unfolding default_plugin_config overlay plugin_fields
normalize_plugin_config plugin_type existing =
    overlay existing (default_plugin_config plugin_type)
      (plugin_defaults (plugin_fields plugin_type))

unfoldable pub tag_function_choices_for_driver : String → String × List String
tag_function_choices_for_driver driver_type =
    if driver_type == "opcua"
    then ("opcua_node", [])
    else if driver_type == "mqtt"
    then ("json_field", [])
    else ("holding_register", "input_register" ∷ "coil" ∷ "discrete_input" ∷ [])

abbrev pub value_types : List String
value_types = "int16" ∷ "uint16" ∷ "int32" ∷ "uint32" ∷ "float32" ∷ "float64" ∷ "string" ∷ []

unfoldable pub tag_type_choices_for_driver : String → String × List String
tag_type_choices_for_driver driver_type =
    if driver_type == "opcua" || driver_type == "mqtt"
    then ("auto", "bool" ∷ value_types)
    else ("bool", value_types)

-- `_plugin_profile`, of the environment variable
abbrev pub plugin_profile : Option String → String
plugin_profile none = "core"
plugin_profile (some s) = lower (strip s)

abbrev pub has_database : String → Bool
has_database profile = profile == "postgres" || profile == "db" || profile == "full"

unfoldable pub enabled_plugin_types : Option String → List String
enabled_plugin_types profile =
    if has_database (plugin_profile profile) then "mqtt" ∷ "postgresql" ∷ [] else "mqtt" ∷ []

unfoldable pub items_of : List String → Items
items_of [] = nil
items_of (s ∷ l) = cons (text s) (items_of l)

-- `_connection_field_to_dict`
unfoldable pub connection_field_to_dict : ConnectionField → Dict String Json
unfolding items_of
connection_field_to_dict f =
    ("key", text f.key)
    ∷ ("label", text f.label)
    ∷ ("kind", text f.kind)
    ∷ ("default", f.default)
    ∷ ("choices", list (items_of f.choices))
    ∷ ("minimum", optional_int f.minimum)
    ∷ ("maximum", optional_int f.maximum)
    ∷ []

-- `_plugin_field_to_dict`
unfoldable pub plugin_field_to_dict : PluginField → Dict String Json
plugin_field_to_dict f =
    ("key", text f.key)
    ∷ ("label", text f.label)
    ∷ ("kind", text f.kind)
    ∷ ("default", f.default)
    ∷ ("minimum", optional_int f.minimum)
    ∷ ("maximum", optional_int f.maximum)
    ∷ []

-- What `driver_schema` says of a driver type.
pub record DriverSchema : Type 0 where
  pub connection_fields : List (Dict String Json)
  pub tag_functions : String × List String
  pub tag_types : String × List String

unfoldable pub driver_schema : Dict String DriverSchema
unfolding connection_field_to_dict tag_function_choices_for_driver tag_type_choices_for_driver
driver_schema =
    map
      (λ p. (
        p.0,
        record {
          connection_fields = map connection_field_to_dict p.1;
          tag_functions = tag_function_choices_for_driver p.0;
          tag_types = tag_type_choices_for_driver p.0;
        },
      ))
      connection_tables

unfoldable pub plugin_schema : Option String → Dict String (List (Dict String Json))
unfolding plugin_field_to_dict enabled_plugin_types
plugin_schema profile =
    map (λ p. (p.0, map plugin_field_to_dict p.1))
      (keep (λ p. any (λ t. t == p.0) (enabled_plugin_types profile)) plugin_tables)
