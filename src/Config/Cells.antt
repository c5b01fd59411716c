-- ===== src/Config/Cells.antt =====
-- services/config_service.py: what a row of a CSV file says. A row is what `csv.DictReader` gives: the cells under
-- the names of the header, None where the line is short.
use iot_gathering.Common.{
  String, ℤ, pos, Bool, true, false, Option, none, some, List, [], ◌∷◌, map, ◌==◌, if◌then◌else◌,
  string_eq,
}
use iot_gathering.Common.Text.{is_empty, text_or, strip}
use iot_gathering.Common.Json.{Json, bool, int, float, text}
use iot_gathering.Common.Dict.{Dict, get, put}
use iot_gathering.Common.Values.{Conversions, to_float, int_of, optional_text}
use iot_gathering.Common.Result.{value_error, Result, ok, err, ◌>>=◌}
use iot_gathering.Models.{TagSpec}
use iot_gathering.Config.Schema.{
  connection_fields_for_driver, normalize_connection_for_driver, plugin_fields,
  normalize_plugin_config, tag_function_choices_for_driver, tag_type_choices_for_driver,
}
use iot_gathering.Config.Payloads.{one_float, zero_float}
use iot_gathering.Config.Routes.{csv_bool}

abbrev pub Row : Type 0
Row = Dict String (Option String)

-- `row.get(key)`
abbrev pub cell : Row → String → Option String
cell row key = elim (get row key) [ none ↦ none | some o ↦ o ]

abbrev pub json_cell : Row → String → Json
json_cell row key = optional_text (cell row key)

-- `(row.get(key) or default).strip()`
abbrev pub stripped : Row → (key default : String) → String
stripped row key default = strip (text_or (cell row key) default)

abbrev pub json_row : Row → Dict String Json
json_row row = map (λ p. (p.0, optional_text p.1)) row

-- `value is None or str(value).strip() == ""`
abbrev pub is_blank_cell : Option String → Bool
is_blank_cell none = true
is_blank_cell (some s) = is_empty (strip s)

abbrev pub some_int : Result ℤ → Result (Option ℤ)
some_int (err e) = err e
some_int (ok n) = ok (some n)

-- `_csv_optional_int`
unfoldable pub csv_optional_int : Option String → Result (Option ℤ)
csv_optional_int o = if is_blank_cell o then ok none else some_int (int_of (optional_text o))

-- `_csv_connection_value`, of a cell that is not blank
abbrev pub int_json : Result ℤ → Result Json
int_json (err e) = err e
int_json (ok n) = ok (int n)

abbrev pub csv_connection_value : Conversions → String → String → Result Json
csv_connection_value c kind s =
    if kind == "int"
    then int_json (int_of (text s))
    else if kind == "float"
    then (to_float c (text s) >>= λ f. ok (float f))
    else ok (text s)

-- `_csv_plugin_value`
abbrev pub csv_plugin_value : Conversions → String → String → Result Json
csv_plugin_value c kind s =
    if kind == "int"
    then int_json (int_of (text s))
    else if kind == "bool"
    then ok (bool (csv_bool c (text s) false))
    else ok (text s)

-- The loop over the fields, each a key and a kind, of which the cells that are not blank count.
abbrev pub put_cell :
    (String → String → Result Json)
    → Dict String Json
    → (key kind : String) → Option String
    → Result (Dict String Json)
put_cell read values key kind none = ok values
put_cell read values key kind (some s) =
    if is_empty (strip s) then ok values else read kind s >>= λ v. ok (put values key v)

unfoldable pub csv_values :
    (String → String → Result Json)
    → Row
    → Dict String Json
    → List (String × String)
    → Result (Dict String Json)
unfolding get put
csv_values read row values [] = ok values
csv_values read row values ((key, kind) ∷ fields) = do
  more ← put_cell read values key kind (cell row key)
  csv_values read row more fields

-- `_csv_connection`
unfoldable pub csv_connection : Conversions → String → Row → Result (Dict String Json)
unfolding csv_values connection_fields_for_driver normalize_connection_for_driver
csv_connection c driver_type row = do
  values ←
      csv_values (csv_connection_value c) row []
        (map (λ f. (f.key, f.kind)) (connection_fields_for_driver driver_type))
  ok (normalize_connection_for_driver driver_type values)

-- `_csv_plugin_config`
unfoldable pub csv_plugin_config : Conversions → String → Row → Result (Dict String Json)
unfolding csv_values plugin_fields normalize_plugin_config
csv_plugin_config c sink_type row = do
  values ←
      csv_values (csv_plugin_value c) row [] (map (λ f. (f.key, f.kind)) (plugin_fields sink_type))
  ok (normalize_plugin_config sink_type values)

-- `row.get(key) or default`
abbrev pub cell_or : Option String → Json → Json
cell_or none v = v
cell_or (some s) v = if is_empty s then v else text s

-- `row.get("count", row.get("word_count"))`
abbrev pub count_cell : Row → Option String
count_cell row = elim (get row "count") [ some o ↦ o | none ↦ cell row "word_count" ]

abbrev pub none_if_empty : String → Option String
none_if_empty s = if is_empty s then none else some s

abbrev pub named_cell : String → Result String
named_cell name = if is_empty name then err (value_error "tag name is required") else ok name

-- `_tag_from_csv_row`
unfoldable pub tag_from_csv_row :
    Conversions → Row → (driver_type tag_name_key : String) → Result TagSpec
unfolding csv_optional_int tag_function_choices_for_driver tag_type_choices_for_driver
tag_from_csv_row c row driver_type tag_name_key = do
  name ← named_cell (stripped row tag_name_key "")
  address ← int_of (cell_or (cell row "address") (int (pos 0)))
  scale ← to_float c (cell_or (cell row "scale") one_float)
  offset ← to_float c (cell_or (cell row "offset") zero_float)
  unit_id ← csv_optional_int (cell row "unit_id")
  word_count ← csv_optional_int (count_cell row)
  ok (record {
    name = name;
    address = address;
    function = stripped row "function" (tag_function_choices_for_driver driver_type).0;
    data_type = stripped row "data_type" (tag_type_choices_for_driver driver_type).0;
    tag_group = stripped row "tag_group" "";
    id = none;
    device_id = none;
    scale = scale;
    offset = offset;
    enabled =
        csv_bool c (json_cell row (if tag_name_key == "tag_name" then "tag_enabled" else "enabled"))
          true;
    unit_id = unit_id;
    word_count = word_count;
    byte_order = stripped row "byte_order" "big";
    word_order = stripped row "word_order" "big";
    node_id = none_if_empty (stripped row "node_id" "");
  })
