-- ===== src/Config/Tables.antt =====
-- config_schema.py: the fields of the connections and of the plugins, and the configurations that are completed
-- by them. The profile of the plugins is an environment variable: an argument.
use iot_gathering.Common.{String, ℤ, pos, true, Option, none, some, List, [], ◌∷◌, ◌++◌, string_eq}
use iot_gathering.Common.Json.{Json, bool, int, float, text}
use iot_gathering.Common.Dict.{Dict}

pub record ConnectionField : Type 0 where
  pub key : String
  pub label : String
  pub kind : String
  pub default : Json
  pub choices : List String
  pub minimum : Option ℤ
  pub maximum : Option ℤ

pub record PluginField : Type 0 where
  pub key : String
  pub label : String
  pub kind : String
  pub default : Json
  pub minimum : Option ℤ
  pub maximum : Option ℤ

abbrev pub connection_field :
    (key label kind : String) → Json → List String → Option ℤ → Option ℤ → ConnectionField
connection_field key label kind default choices minimum maximum = record {
  key = key;
  label = label;
  kind = kind;
  default = default;
  choices = choices;
  minimum = minimum;
  maximum = maximum;
}

abbrev pub plugin_field : (key label kind : String) → Json → Option ℤ → Option ℤ → PluginField
plugin_field key label kind default minimum maximum = record {
  key = key;
  label = label;
  kind = kind;
  default = default;
  minimum = minimum;
  maximum = maximum;
}

abbrev pub common_modbus_limits : List ConnectionField
common_modbus_limits =
    connection_field "max_block_gap" "Max block gap" "int" (int (pos 4)) [] (some (pos 0))
      (some (pos 1000))
    ∷ connection_field "max_registers_per_read" "Max registers/read" "int" (int (pos 125)) []
        (some (pos 1)) (some (pos 125))
    ∷ connection_field "max_bits_per_read" "Max bits/read" "int" (int (pos 2000)) [] (some (pos 1))
        (some (pos 2000))
    ∷ []

abbrev pub serial_fields : List ConnectionField
serial_fields =
    connection_field "port" "Serial port" "text" (text "COM1") [] none none
    ∷ connection_field "baudrate" "Baudrate" "int" (int (pos 9600)) [] (some (pos 300))
        (some (pos 4000000))
    ∷ connection_field "parity" "Parity" "choice" (text "N") ("N" ∷ "E" ∷ "O" ∷ []) none none
    ∷ connection_field "stopbits" "Stop bits" "int" (int (pos 1)) [] (some (pos 1)) (some (pos 2))
    ∷ connection_field "bytesize" "Byte size" "int" (int (pos 8)) [] (some (pos 5)) (some (pos 8))
    ∷ connection_field "timeout" "Timeout sec" "float" (float 4611686018427387904) [] none none
    ∷ []

-- `_CONNECTION_FIELDS`
abbrev pub connection_tables : Dict String (List ConnectionField)
connection_tables =
    (
      "modbus_tcp",
      connection_field "host" "IP / Host" "text" (text "127.0.0.1") [] none none
          ∷ connection_field "port" "Port" "int" (int (pos 502)) [] (some (pos 1))
              (some (pos 65535))
          ∷ common_modbus_limits,
    )
    ∷ ("modbus_serial", serial_fields ++ common_modbus_limits)
    ∷ (
      "modbus_rtu_monitor",
      serial_fields
          ++ connection_field "capture_wait_s" "Capture wait sec" "float"
              (float 4617315517961601024) [] (some (pos 1)) (some (pos 60))
            ∷ [],
    )
    ∷ (
      "opcua",
      connection_field "endpoint" "Endpoint" "text"
            (text "opc.tcp://127.0.0.1:4840/freeopcua/server/") [] none none
          ∷ connection_field "mode" "Mode" "choice" (text "polling")
              ("polling" ∷ "subscription" ∷ []) none none
          ∷ connection_field "subscription_interval_ms" "Subscription ms" "int" (int (pos 250)) []
              (some (pos 50)) (some (pos 60000))
          ∷ [],
    )
    ∷ (
      "mqtt",
      connection_field "host" "Broker host" "text" (text "localhost") [] none none
          ∷ connection_field "port" "Broker port" "int" (int (pos 1883)) [] (some (pos 1))
              (some (pos 65535))
          ∷ connection_field "topic_filter" "Topic filter" "text" (text "curiot/+/data") [] none
              none
          ∷ connection_field "client_id" "Client ID" "text" (text "industrial-gateway-input") []
              none none
          ∷ connection_field "username" "Username" "text" (text "") [] none none
          ∷ connection_field "password" "Password" "text" (text "") [] none none
          ∷ connection_field "qos" "QoS" "int" (int (pos 0)) [] (some (pos 0)) (some (pos 2))
          ∷ connection_field "topic_mac_index" "Topic MAC index" "int" (int (pos 1)) []
              (some (pos 0)) (some (pos 20))
          ∷ connection_field "timestamp_field" "Timestamp field" "text" (text "Time") [] none none
          ∷ connection_field "sensor_id_field" "Sensor ID field" "text" (text "sensor_id") [] none
              none
          ∷ [],
    )
    ∷ []

-- `_PLUGIN_FIELDS`
abbrev pub plugin_tables : Dict String (List PluginField)
plugin_tables =
    (
      "mqtt",
      plugin_field "host" "Host" "text" (text "localhost") none none
          ∷ plugin_field "port" "Port" "int" (int (pos 1883)) (some (pos 1)) (some (pos 65535))
          ∷ plugin_field "base_topic" "Base topic" "text" (text "industrial") none none
          ∷ plugin_field "username" "Username" "text" (text "") none none
          ∷ plugin_field "password" "Password" "password" (text "") none none
          ∷ plugin_field "client_id" "Client ID" "text" (text "industrial-gateway") none none
          ∷ plugin_field "qos" "QoS" "int" (int (pos 0)) (some (pos 0)) (some (pos 2))
          ∷ plugin_field "message_stale_timeout_s" "Message stale sec" "int" (int (pos 15))
              (some (pos 1)) (some (pos 86400))
          ∷ plugin_field "status_publish_interval_s" "Status publish sec" "int" (int (pos 60))
              (some (pos 1)) (some (pos 86400))
          ∷ plugin_field "topic_request_on_start" "Request route topics on start" "bool" (bool true)
              none none
          ∷ plugin_field "topic_refresh_interval_s" "Topic refresh sec" "int" (int (pos 300))
              (some (pos 0)) (some (pos 86400))
          ∷ [],
    )
    ∷ (
      "postgresql",
      plugin_field "host" "Host" "text" (text "localhost") none none
          ∷ plugin_field "port" "Port" "int" (int (pos 5432)) (some (pos 1)) (some (pos 65535))
          ∷ plugin_field "database" "Database" "text" (text "gateway") none none
          ∷ plugin_field "username" "Username" "text" (text "postgres") none none
          ∷ plugin_field "password" "Password" "password" (text "") none none
          ∷ plugin_field "table" "Table" "text" (text "gateway_tag_values") none none
          ∷ plugin_field "auto_create" "Auto create table" "bool" (bool true) none none
          ∷ [],
    )
    ∷ []
