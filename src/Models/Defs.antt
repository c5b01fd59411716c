-- ===== src/Models/Defs.antt =====
-- models.py: the records that the parts exchange, and the validation of tags. Text fields that name an
-- enumeration are texts, as in the source, where only validation restricts them. A float is the bit
-- pattern of its binary64, a time is a number of microseconds.

use iot_gathering.Common.{ℕ, String, ℤ, Bool, Option, List}
use iot_gathering.Common.Dict.{Dict}
use iot_gathering.Common.Json.{Json}

pub record DeviceSpec : Type 0 where
  pub id : Option ℤ
  pub name : String
  pub driver_type : String
  pub enabled : Bool
  pub poll_interval_ms : ℤ
  pub device_group : String
  pub connection : Dict String Json

pub record TagSpec : Type 0 where
  pub name : String
  pub address : ℤ
  pub function : String
  pub data_type : String
  pub tag_group : String
  pub id : Option ℤ
  pub device_id : Option ℤ
  pub scale : ℕ
  pub offset : ℕ
  pub enabled : Bool
  pub unit_id : Option ℤ
  pub word_count : Option ℤ
  pub byte_order : String
  pub word_order : String
  pub node_id : Option String

pub record MqttConfig : Type 0 where
  pub host : String
  pub port : ℤ
  pub base_topic : String
  pub username : Option String
  pub password : Option String
  pub client_id : String
  pub qos : ℤ
  pub enabled : Bool

pub record SinkConfig : Type 0 where
  pub sink_type : String
  pub enabled : Bool
  pub config : Dict String Json

pub record OutputRouteConfig : Type 0 where
  pub id : Option ℤ
  pub device_id : Option ℤ
  pub tag_group : String
  pub sink_type : String
  pub enabled : Bool
  pub config : Dict String Json

pub data Quality : Type 0 where
  good bad : Quality

pub record TagResult : Type 0 where
  pub name : String
  pub address : ℤ
  pub value : Json
  pub quality : Quality
  pub error : Option String
  pub timestamp : ℕ
  pub node_id : Option String
  pub tag_group : String

pub record ReadResult : Type 0 where
  pub device : DeviceSpec
  pub timestamp : ℕ
  pub tags : List TagResult
  pub error : Option String
