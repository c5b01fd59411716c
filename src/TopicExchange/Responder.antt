-- ===== src/TopicExchange/Responder.antt =====
-- services/topic_responder.py. The database is what its queries answer, in rows of JSON values.
use iot_gathering.Common.{
  ℕ, zero, ℤ, pos, String, Bool, true, Option, none, some, List, [], ◌∷◌, ◌++◌, ◌==◌, if◌then◌else◌,
  string_eq,
}
use iot_gathering.Common.Text.{is_empty, strip, ◌<>◌}
use iot_gathering.Common.Json.{Json, text, list, dict, Items, nil, cons, truthy, text_to_int}
use iot_gathering.Common.Dict.{Dict, get, put}
use iot_gathering.Common.Values.{Conversions, str, to_fields, of_fields, value_or_null, or_value}
use iot_gathering.Common.Result.{type_error, Result, ok, err}

abbrev pub Message : Type 0
Message = String × Option Json

abbrev pub TableRow : Type 0
TableRow = Dict String Json

abbrev pub request_topic : String
request_topic = "C-S/request-topic"

abbrev pub request_sensor_code : String
request_sensor_code = "C-S/request-sensor_cd"

pub record TopicResponderConfig : Type 0 where
  pub db_host : String
  pub db_port : ℤ
  pub db_name : String
  pub db_user : String
  pub db_password : String
  pub db_connect_timeout : ℤ
  pub mqtt_host : String
  pub mqtt_port : ℤ
  pub mqtt_keepalive : ℤ
  pub mapping_refresh : ℕ

-- `values.get(key, default)`, `_int_env` and `_float_env`
abbrev pub env_or : Option String → String → String
env_or none default = default
env_or (some s) default = s

abbrev pub integer_or : Option ℤ → ℤ → ℤ
integer_or none default = default
integer_or (some n) default = n

abbrev pub int_env : Option String → ℤ → ℤ
int_env none default = default
int_env (some s) default = integer_or (text_to_int s) default

abbrev pub bits_or : Option ℕ → ℕ → ℕ
bits_or none default = default
bits_or (some f) default = f

abbrev pub float_env : Conversions → Option String → ℕ → ℕ
float_env c none default = default
float_env c (some s) default = bits_or (c.text_float s) default

abbrev pub from_env : Conversions → Dict String String → TopicResponderConfig
from_env c values = record {
  db_host = env_or (get values "DB_HOST") "127.0.0.1";
  db_port = int_env (get values "DB_PORT") (pos 5432);
  db_name = env_or (get values "DB_NAME") "edge_hmi";
  db_user = env_or (get values "DB_USER") "admin";
  db_password = env_or (get values "DB_PASSWORD") "1q2w3e4r";
  db_connect_timeout = int_env (get values "DB_CONNECT_TIMEOUT") (pos 5);
  mqtt_host = env_or (get values "MQTT_HOST") "127.0.0.1";
  mqtt_port = int_env (get values "MQTT_PORT") (pos 1883);
  mqtt_keepalive = int_env (get values "MQTT_KEEPALIVE") (pos 60);
  mapping_refresh =
      float_env c (get values "TOPIC_RESPONDER_MAPPING_REFRESH_S") 4633641066610819072;
}

-- A column of a cursor: its `name` where it has one, and its first item.
pub record Column : Type 0 where
  pub name : Option String
  pub first_item : String

abbrev pub column_name : Column → String
column_name column = elim column.name [
  | some name ↦ if is_empty name then column.first_item else name
  | none ↦ column.first_item
]

-- `dict(zip(columns, row))`
abbrev pub zip_row : TableRow → List Column → List Json → TableRow
zip_row d [] cells = d
zip_row d (column ∷ columns) [] = d
zip_row d (column ∷ columns) (cell ∷ cells) =
    zip_row (put d (column_name column) cell) columns cells

abbrev pub rows_to_dicts : List Column → List (List Json) → List TableRow
rows_to_dicts columns [] = []
rows_to_dicts columns (row ∷ rows) = zip_row [] columns row ∷ rows_to_dicts columns rows

-- What a query answers.
abbrev pub Query : Type 0
Query = Result (List Column × List (List Json))

abbrev pub fetched_rows : Query → Result (List TableRow)
fetched_rows (err e) = err e
fetched_rows (ok (columns, rows)) = ok (rows_to_dicts columns rows)

-- The responder; `has_client` says that `client` is not None, `published` is what it has published.
pub record Responder : Type 0 where
  pub device_map : Dict String TableRow
  pub has_client : Bool
  pub published : List Message
  pub subscriptions : List String

module _ (c : Conversions) where
  abbrev pub mac_cell : TableRow → Json
  mac_cell row = value_or_null (get row "mac_address")

  unfoldable pub mapping_of : Dict String TableRow → List TableRow → Dict String TableRow
  mapping_of found [] = found
  mapping_of found (row ∷ rows) =
      let skipped = mapping_of found rows in
      let taken = mapping_of (put found (str c (mac_cell row)) row) rows in
      if truthy (mac_cell row) then taken else skipped

  abbrev pub mapped : Responder → Result (List TableRow) → Responder × Result (Unit {0})
  mapped r (err e) = (r, err e)
  mapped r (ok rows) = (record r { device_map = mapping_of [] rows }, ok tt)

  unfoldable pub refresh_mapping_once : Responder → Query → Responder × Result (Unit {0})
  unfolding mapping_of
  refresh_mapping_once r query = mapped r (fetched_rows query)

  -- `_publish`
  abbrev pub publish : Responder → String → Json → Responder
  publish r topic payload = record r {
    has_client = true;
    published = r.published ++ (topic, some payload) ∷ [];
  }

  -- `{mapping.get(key)}`
  abbrev pub part : TableRow → String → String
  part mapping key = str c (value_or_null (get mapping key))

  abbrev pub topic_path : TableRow → String
  topic_path m =
      part m "plant_cd"
      <> "/"
      <> part m "plant_bd"
      <> "/"
      <> part m "process_type"
      <> "/"
      <> part m "line_code"
      <> "/"
      <> part m "equip_name"
      <> "/-/"

  abbrev pub topic_value : TableRow → String
  topic_value [] = "Unknown MAC"
  topic_value (cell ∷ cells) = topic_path (cell ∷ cells)

  abbrev pub row_or_empty : Option TableRow → TableRow
  row_or_empty none = []
  row_or_empty (some row) = row

  unfoldable pub publish_topic_response : Responder → String → Responder
  publish_topic_response r mac =
      publish r ("S-C/request-topic/" <> mac) (
        dict (to_fields (("topic", text (topic_value (row_or_empty (get r.device_map mac)))) ∷ [])))

  unfoldable pub row_items : List TableRow → Items
  row_items [] = nil
  row_items (row ∷ rows) = cons (dict (to_fields row)) (row_items rows)

  abbrev pub sensors_sent :
      Responder → String → Result (List TableRow) → Responder × Result (Unit {0})
  sensors_sent r mac (err e) = (r, err e)
  sensors_sent r mac (ok rows) =
      (publish r ("S-C/request-sensor_cd/" <> mac) (list (row_items rows)), ok tt)

  module _ (sensor_rows : String → Query) where
    unfoldable pub publish_sensor_code_response : Responder → String → Responder × Result (Unit {0})
    unfolding row_items
    publish_sensor_code_response r mac = sensors_sent r mac (fetched_rows (sensor_rows mac))

    abbrev pub answer_request : Responder → (topic mac : String) → Responder × Result (Unit {0})
    answer_request r topic mac =
        if is_empty mac
        then (r, ok tt)
        else if topic == request_topic
        then (publish_topic_response r mac, ok tt)
        else if topic == request_sensor_code
        then publish_sensor_code_response r mac
        else (r, ok tt)

    -- `handle_payload`: data that is not a dictionary has no `get`.
    unfoldable pub handle_payload : Responder → Message → Responder × Result (Unit {0})
    unfolding publish_topic_response publish_sensor_code_response strip
    handle_payload r (topic, none) = (r, ok tt)
    handle_payload r (topic, some (dict fields)) =
        answer_request r topic
          (strip (str c (or_value (value_or_null (get (of_fields fields) "mac")) (text ""))))
    handle_payload r (topic, some _) = (r, err (type_error "object has no attribute 'get'"))

-- `_on_connect`
abbrev pub on_connect : Responder → (rc : ℤ) → Responder
on_connect r (pos zero) = record r {
  subscriptions = r.subscriptions ++ request_topic ∷ request_sensor_code ∷ [];
}
on_connect r rc = r
