-- ===== src/Config/Payloads.antt =====
-- services/config_service.py: devices and tags from what the web pages send, and back. A connection is a
-- dictionary or nothing. A function or a data type that is no text raises here, after all else was read; in the source
-- `validate_tag` raises for it, also before the store is changed. A node that is no text passes with a Modbus
-- function, and the table keeps its text; with any other function `validate_tag` raises.
use iot_gathering.Common.{
  String, ℤ, pos, Bool, true, Option, none, some, [], ◌∷◌, if◌then◌else◌, string_eq,
}
use iot_gathering.Common.Text.{is_empty}
use iot_gathering.Common.Json.{Json, bool, int, float, text, dict, truthy}
use iot_gathering.Common.Dict.{Dict, get}
use iot_gathering.Common.Values.{
  Conversions, str, to_float, int_of, to_fields, of_fields, value_or_null, value_or, is_unset,
  optional_text, optional_int,
}
use iot_gathering.Common.Result.{
  value_error, key_error, type_error, Result, ok, err, ◌>>=◌, found_or,
}
use iot_gathering.Models.Validation.{is_one_of, modbus_functions}
use iot_gathering.Models.{DeviceSpec, TagSpec, SinkConfig}
use iot_gathering.Config.Schema.{normalize_connection_for_driver}

-- `payload[key]`
abbrev pub required : Dict String Json → String → Result Json
required payload key = found_or (get payload key) (key_error key)

abbrev pub dict_or_none : Json → Option (Dict String Json)
dict_or_none (dict fields) = some (of_fields fields)
dict_or_none v = if truthy v then none else some []

-- `value or {}`
abbrev pub dict_of : Json → Result (Dict String Json)
dict_of v = found_or (dict_or_none v) (type_error "a dictionary is required")

abbrev pub text_of : Json → Result String
text_of (text s) = ok s
text_of v = err (value_error "a text is required")

-- What a column of texts keeps of a value.
abbrev pub kept_text : Conversions → Json → Result (Option String)
kept_text c (bool b) = ok (some "1")
kept_text c (int n) = ok (some (c.printed (int n)))
kept_text c (float f) = ok (some (c.printed (float f)))
kept_text c v = err (type_error "type is not supported")

-- `node or None`
abbrev pub node_of : Conversions → (function : String) → Json → Result (Option String)
node_of c function (text s) = ok (if is_empty s then none else some s)
node_of c function v =
    if truthy v
    then if is_one_of function modbus_functions
      then kept_text c v
      else err (type_error "object has no attribute 'strip'")
    else ok none

-- `None if value in (None, "") else int(value)`
abbrev pub optional_int_of : Json → Result (Option ℤ)
optional_int_of v = if is_unset v then ok none else int_of v >>= λ n. ok (some n)

-- `_device_from_payload`
unfoldable pub device_from_payload : Conversions → Option ℤ → Dict String Json → Result DeviceSpec
unfolding get of_fields normalize_connection_for_driver
device_from_payload c id payload = do
  driver_type ← required payload "driver_type"
  name ← required payload "name"
  interval ← int_of (value_or (get payload "poll_interval_ms") (int (pos 1000)))
  connection ← dict_of (value_or_null (get payload "connection"))
  ok (record {
    id = id;
    name = str c name;
    driver_type = str c driver_type;
    enabled = truthy (value_or (get payload "enabled") (bool true));
    poll_interval_ms = interval;
    device_group = str c (value_or (get payload "device_group") (text ""));
    connection = normalize_connection_for_driver (str c driver_type) connection;
  })

-- 1.0 and 0.0
abbrev pub one_float : Json
one_float = float 4607182418800017408

abbrev pub zero_float : Json
zero_float = float 0

-- `_tag_from_payload`
unfoldable pub tag_from_payload : Conversions → Option ℤ → ℤ → Dict String Json → Result TagSpec
unfolding get
tag_from_payload c id device_id payload = do
  word_count ←
      optional_int_of (value_or (get payload "count") (value_or_null (get payload "word_count")))
  unit_id ← optional_int_of (value_or_null (get payload "unit_id"))
  name ← required payload "name"
  address ← int_of (value_or (get payload "address") (int (pos 0)))
  function_value ← required payload "function"
  type_value ← required payload "data_type"
  scale ← to_float c (value_or (get payload "scale") one_float)
  offset ← to_float c (value_or (get payload "offset") zero_float)
  function ← text_of function_value
  data_type ← text_of type_value
  node_id ← node_of c function (value_or_null (get payload "node_id"))
  ok (record {
    name = str c name;
    address = address;
    function = function;
    data_type = data_type;
    tag_group = str c (value_or (get payload "tag_group") (text ""));
    id = id;
    device_id = some device_id;
    scale = scale;
    offset = offset;
    enabled = truthy (value_or (get payload "enabled") (bool true));
    unit_id = unit_id;
    word_count = word_count;
    byte_order = str c (value_or (get payload "byte_order") (text "big"));
    word_order = str c (value_or (get payload "word_order") (text "big"));
    node_id = node_id;
  })

-- `_device_to_dict`
unfoldable pub device_to_dict : DeviceSpec → Dict String Json
unfolding to_fields
device_to_dict d =
    ("id", optional_int d.id)
    ∷ ("device_group", text d.device_group)
    ∷ ("name", text d.name)
    ∷ ("driver_type", text d.driver_type)
    ∷ ("enabled", bool d.enabled)
    ∷ ("poll_interval_ms", int d.poll_interval_ms)
    ∷ ("connection", dict (to_fields d.connection))
    ∷ []

-- `_tag_to_dict`
unfoldable pub tag_to_dict : TagSpec → Dict String Json
tag_to_dict t =
    ("id", optional_int t.id)
    ∷ ("device_id", optional_int t.device_id)
    ∷ ("tag_group", text t.tag_group)
    ∷ ("name", text t.name)
    ∷ ("address", int t.address)
    ∷ ("function", text t.function)
    ∷ ("data_type", text t.data_type)
    ∷ ("scale", float t.scale)
    ∷ ("offset", float t.offset)
    ∷ ("enabled", bool t.enabled)
    ∷ ("unit_id", optional_int t.unit_id)
    ∷ ("count", optional_int t.word_count)
    ∷ ("word_count", optional_int t.word_count)
    ∷ ("byte_order", text t.byte_order)
    ∷ ("word_order", text t.word_order)
    ∷ ("node_id", optional_text t.node_id)
    ∷ []

-- `_sink_to_dict`
unfoldable pub sink_to_dict : SinkConfig → Bool → Dict String Json
unfolding to_fields
sink_to_dict config selected =
    ("sink_type", text config.sink_type)
    ∷ ("enabled", bool config.enabled)
    ∷ ("config", dict (to_fields config.config))
    ∷ ("selected", bool selected)
    ∷ []
