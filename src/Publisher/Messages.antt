-- ===== src/Publisher/Messages.antt =====
-- The messages that `SinkPublisher` builds, and the topic and the output group of a tag. A time in a message is a
-- number of microseconds, where the source writes its text.
use Prim.Native.Char.{Char, code}
use iot_gathering.Common.{
  ℕ, ◌+◌, String, ℤ, nat_beq, Bool, true, false, not, ◌&&◌, ◌||◌, Option, none, some, List, [], ◌∷◌,
  ◌==◌, if◌then◌else◌, string_eq, int_eq, option_eq,
}
use iot_gathering.Common.Text.{
  is_empty, or_text, strip, strip_slashes, rstrip_slashes, dashed, ◌<>◌,
}
use iot_gathering.Models.{DeviceSpec, MqttConfig, Quality, good, bad, TagResult}
use iot_gathering.Runtime.Queues.{has_text}

pub record OutputRoute : Type 0 where
  pub device_id : Option ℤ
  pub tag_group : String
  pub sink_type : String
  pub mqtt_config : MqttConfig
  pub topic : String
  pub route_kind : String
  pub heartbeat_interval : ℕ
  pub sensor_code : String

pub record Sensor : Type 0 where
  pub sensor_code : String
  pub conn_status : String
  pub last_seen : ℕ
  pub health_score : ℕ
  pub error_msg : Option String
  pub update_time : ℕ

-- The payload of `BatchMessage.from_results`, and that of a status message.
pub data Payload : Type 0 where
  measurement : (id : Option ℤ) (name : String) (timestamp : ℕ) (tags : List TagResult) → Payload
  status : (timestamp : ℕ) (sensors : List Sensor) → Payload

pub record BatchMessage : Type 0 where
  pub topic : String
  pub payload : Payload
  pub qos : ℤ
  pub use_message_topic : Bool

-- `_topic_token` of models.py
abbrev pub topic_token : String → String
topic_token s = dashed (strip s)

abbrev pub from_results : DeviceSpec → List TagResult → ℕ → MqttConfig → BatchMessage
from_results device tags timestamp mqtt = record {
  topic = strip_slashes mqtt.base_topic <> "/" <> topic_token device.name <> "/data";
  payload = measurement device.id device.name timestamp tags;
  qos = mqtt.qos;
  use_message_topic = false;
}

abbrev pub is_good : Quality → Bool
is_good good = true
is_good bad = false

-- `tag.quality == "good" and not tag.error`
abbrev pub is_good_tag : TagResult → Bool
is_good_tag tag = is_good tag.quality && not (has_text tag.error)

-- `tag.error if tag.error else error_msg`
abbrev pub error_or : Option String → Option String → Option String
error_or error error_msg = if has_text error then error else error_msg

abbrev pub sensor : String → Option String → ℕ → TagResult → Sensor
sensor conn_status error_msg timestamp tag = record {
  sensor_code = tag.name;
  conn_status = if is_good_tag tag then conn_status else "off";
  last_seen = tag.timestamp;
  health_score = if conn_status == "on" && is_good_tag tag then 100 else 0;
  error_msg = error_or tag.error error_msg;
  update_time = timestamp;
}

unfoldable pub sensors_of : String → Option String → ℕ → List TagResult → List Sensor
sensors_of conn_status error_msg timestamp [] = []
sensors_of conn_status error_msg timestamp (tag ∷ tags) =
    sensor conn_status error_msg timestamp tag ∷ sensors_of conn_status error_msg timestamp tags

-- `measurement.payload.get("timestamp", update_time)`
abbrev pub payload_timestamp : Payload → ℕ → ℕ
payload_timestamp (measurement id name timestamp tags) update_time = timestamp
payload_timestamp (status timestamp sensors) update_time = timestamp

-- `_ctm_status_message`
abbrev pub ctm_status_message :
    BatchMessage → List TagResult → String → Option String → ℕ → BatchMessage
ctm_status_message message tags conn_status error_msg timestamp = record {
  topic = rstrip_slashes message.topic <> "/status";
  payload =
      status (payload_timestamp message.payload timestamp)
        (sensors_of conn_status error_msg timestamp tags);
  qos = message.qos;
  use_message_topic = true;
}

-- `_system_heartbeat_status_message`
abbrev pub system_heartbeat_message : OutputRoute → ℕ → BatchMessage
system_heartbeat_message route timestamp = record {
  topic = rstrip_slashes route.topic <> "/status";
  payload = status timestamp (
      record {
        sensor_code = or_text route.sensor_code "SYSTEM";
        conn_status = "on";
        last_seen = timestamp;
        health_score = 100;
        error_msg = none;
        update_time = timestamp;
      }
      ∷ []);
  qos = route.mqtt_config.qos;
  use_message_topic = true;
}

-- `text.split(";s=", 1)[1]`, where there is one
unfoldable pub after_identifier : String → Option String
after_identifier String.[] = none
after_identifier (String.◌∷◌ a String.[]) = none
after_identifier (String.◌∷◌ a (String.◌∷◌ b String.[])) = none
after_identifier (String.◌∷◌ a (String.◌∷◌ b (String.◌∷◌ c s))) =
    let rest = after_identifier (String.◌∷◌ b (String.◌∷◌ c s)) in
    if nat_beq (code a) 59 && nat_beq (code b) 115 && nat_beq (code c) 61 then some s else rest

-- `text.split(".", 1)[0]`
unfoldable pub before_dot : String → String
before_dot String.[] = ""
before_dot (String.◌∷◌ c s) =
    let rest = before_dot s in if nat_beq (code c) 46 then "" else String.◌∷◌ c rest

-- The code of an upper-case ASCII letter, or of its lower-case one.
abbrev pub is_letter : ℕ → Char → Bool
is_letter upper c = nat_beq (code c) upper || nat_beq (code c) (upper + 32)

-- `first.upper().startswith("PHH")`, for ASCII
unfoldable pub starts_with_phh : String → Bool
starts_with_phh (String.◌∷◌ a (String.◌∷◌ b (String.◌∷◌ c s))) =
    is_letter 80 a && is_letter 72 b && is_letter 72 c
starts_with_phh _ = false

abbrev pub identifier : String → String
identifier node = elim (after_identifier node) [ none ↦ node | some s ↦ s ]

-- `_tag_topic_group`
unfoldable pub tag_topic_group : Option String → Option String
unfolding after_identifier before_dot starts_with_phh
tag_topic_group none = none
tag_topic_group (some node) =
    let first = strip (before_dot (identifier node)) in
    if is_empty node then none else if starts_with_phh first then some first else none

-- `_tag_output_group`
unfoldable pub tag_output_group : TagResult → Option String
tag_output_group tag =
    if is_empty tag.tag_group then tag_topic_group tag.node_id else some tag.tag_group

-- The group before the last part of a path, where the path has two parts.
unfoldable pub insert_group : String → String → Option String
insert_group group String.[] = none
insert_group group (String.◌∷◌ c s) = elim (insert_group group s) [
  | some path ↦ some (String.◌∷◌ c path)
  | none ↦ if nat_beq (code c) 47 then some ("/" <> group <> "/" <> s) else none
]

-- `_topic_with_group`
unfoldable pub topic_with_group : String → String → String
unfolding insert_group
topic_with_group topic group = elim (insert_group group (strip_slashes topic)) [
  | some path ↦ path
  | none ↦ strip_slashes topic <> "/" <> group
]
