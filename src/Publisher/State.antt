-- ===== src/Publisher/State.antt =====
-- The state of `SinkPublisher` and its operations. The sink is an argument: what comes of the i-th message
-- that is published. The queues that the publisher writes to are the lists of what it put there.
use iot_gathering.Common.{
  ℕ, ◌+◌, String, ℤ, leb, nat_beq, Bool, true, false, not, ◌&&◌, ◌||◌, Option, none, some, List, [],
  ◌∷◌, ◌++◌, length, ◌==◌, if◌then◌else◌, string_eq, int_eq, nat_eq, option_eq, pair_eq,
}
use iot_gathering.Common.Text.{text_or, or_text, ◌<>◌}
use iot_gathering.Common.Json.{Json}
use iot_gathering.Common.Dict.{Dict, get, put, values}
use iot_gathering.Common.Result.{Error, text}
use iot_gathering.Models.{DeviceSpec, MqttConfig, TagResult}
use iot_gathering.Runtime.Queues.{StatusItem, tag_update, message}
use iot_gathering.Publisher.Messages.{OutputRoute, BatchMessage, ctm_status_message}
use iot_gathering.Publisher.Routes.{group_results, measurement_message}

-- `_device_key`: `("id", id)` or `("name", name)`
abbrev pub DeviceKey : Type 0
DeviceKey = Option ℤ × String

abbrev pub device_key : DeviceSpec → DeviceKey
device_key device = elim device.id [ none ↦ (none, device.name) | some id ↦ (some id, "") ]

pub record Snapshot : Type 0 where
  pub device : DeviceSpec
  pub tags : Dict String TagResult
  pub last_received_at : Option ℕ
  pub last_source_timestamp : Option ℕ

pub record DeviceStatus : Type 0 where
  pub status : String
  pub reason : String
  pub changed_at : ℕ
  pub last_published_at : Option ℕ
  pub last_received_at : Option ℕ
  pub last_source_timestamp : Option ℕ

-- A log record, without its data.
pub record Log : Type 0 where
  pub level : String
  pub source : String
  pub log_message : String

pub record State : Type 0 where
  pub latest : Dict DeviceKey Snapshot
  pub device_statuses : Dict DeviceKey DeviceStatus
  pub heartbeat_published_at : Dict ℕ ℕ
  pub sent : List BatchMessage
  pub outbox : List StatusItem
  pub logs : List Log

-- What `__init__` sets; an interval is a number of microseconds.
pub record Settings : Type 0 where
  pub mqtt_config : MqttConfig
  pub plugin_type : String
  pub output_routes : List OutputRoute
  pub stale_timeout : ℕ
  pub status_publish_interval : ℕ
  pub sink : ℕ → BatchMessage → Option Error

-- `_tag_key`; `address_text` is `str` of the address.
abbrev pub tag_key : (ℤ → String) → TagResult → String
tag_key address_text tag = text_or tag.node_id (tag.name <> ":" <> address_text tag.address)

-- `_status` and `_log`
abbrev pub put_outbox : State → StatusItem → State
put_outbox s item = record s { outbox = s.outbox ++ item ∷ [] }

abbrev pub put_log : State → String → String → String → State
put_log s level source text = record s {
  logs = s.logs ++ record { level = level; source = source; log_message = text } ∷ [];
}

abbrev pub is_text : String → Option Json → Bool
is_text s (some (Json.text t)) = s == t
is_text s _ = false

-- `_runtime_mode`
unfoldable pub runtime_mode : DeviceSpec → String
runtime_mode device =
    if device.driver_type == "modbus_rtu_monitor"
    then "Monitoring"
    else if device.driver_type == "mqtt"
        || device.driver_type == "opcua" && is_text "subscription" (get device.connection "mode")
    then "Subscription"
    else "Polling"

abbrev pub status_name : Option DeviceStatus → String
status_name none = "unknown"
status_name (some d) = or_text d.status "unknown"

-- `_device_status`
abbrev pub device_status : State → DeviceSpec → String
device_status s device = status_name (get s.device_statuses (device_key device))

-- `_publish_message`
abbrev pub sink_answered : String → State → Option Error → State
sink_answered device s none = s
sink_answered device s (some e) =
    put_log (put_outbox s (message (device <> ": publish failed: " <> text e))) "ERROR" "plugin"
      "sink publish failed"

unfoldable pub publish_message : Settings → State → BatchMessage → String → State
publish_message c s m device =
    sink_answered device (record s { sent = s.sent ++ m ∷ [] }) (c.sink (length s.sent) m)

abbrev pub measured : Settings → DeviceSpec → List TagResult → Option String → ℕ → BatchMessage
measured c device tags group now =
    (measurement_message c.output_routes c.mqtt_config c.plugin_type device tags group now).0

-- The loop over the groups in `_publish_device_status`.
abbrev pub publish_status_group :
    Settings
    → State
    → DeviceSpec
    → String
    → Option String
    → ℕ
    → Option String
    → List TagResult
    → State
publish_status_group c s device conn_status error_msg now group tags =
    publish_message c s
      (ctm_status_message (measured c device tags group now) tags conn_status error_msg now)
      device.name

unfoldable pub publish_statuses :
    Settings
    → State
    → DeviceSpec
    → String
    → Option String
    → ℕ
    → Dict (Option String) (List TagResult)
    → State
unfolding publish_message measurement_message
publish_statuses c s device conn_status error_msg now [] = s
publish_statuses c s device conn_status error_msg now ((group, tags) ∷ groups) =
    publish_statuses c (publish_status_group c s device conn_status error_msg now group tags) device
      conn_status error_msg now groups

abbrev pub publish_snapshot_status :
    Settings → State → DeviceSpec → DeviceStatus → ℕ → Option Snapshot → State
publish_snapshot_status c s device status now none = s
publish_snapshot_status c s device status now (some snapshot) =
    publish_statuses c s device (if status.status == "good" then "on" else "off")
      (if status.status == "good" then none else some status.reason) now
      (group_results [] (values snapshot.tags))

abbrev pub publish_known_status : Settings → State → DeviceSpec → ℕ → Option DeviceStatus → State
publish_known_status c s device now none = s
publish_known_status c s device now (some status) =
    publish_snapshot_status c
      (record s {
        device_statuses =
            put s.device_statuses (device_key device)
              (record status { last_published_at = some now });
      })
      device status now (get s.latest (device_key device))

-- `_publish_device_status`
unfoldable pub publish_device_status : Settings → State → DeviceSpec → ℕ → State
unfolding publish_statuses group_results
publish_device_status c s device now =
    publish_known_status c s device now (get s.device_statuses (device_key device))

abbrev pub interval_start : DeviceStatus → ℕ
interval_start status = elim status.last_published_at [ none ↦ status.changed_at | some t ↦ t ]

abbrev pub heartbeat_if_due : Settings → State → DeviceSpec → ℕ → Option DeviceStatus → State
heartbeat_if_due c s device now none = s
heartbeat_if_due c s device now (some status) =
    if leb (interval_start status + c.status_publish_interval) now
    then publish_device_status c s device now
    else s

-- `_publish_status_heartbeat_if_due`
unfoldable pub publish_status_heartbeat_if_due : Settings → State → DeviceSpec → ℕ → State
unfolding publish_device_status
publish_status_heartbeat_if_due c s device now =
    if nat_beq c.status_publish_interval 0
    then s
    else heartbeat_if_due c s device now (get s.device_statuses (device_key device))

-- `_emit_runtime_tag_status`
abbrev pub emit_tag : State → DeviceSpec → String → String → ℕ → TagResult → State
emit_tag s device quality error timestamp tag = put_outbox s (
    tag_update (record {
      device = device.name;
      tag_group = tag.tag_group;
      tag = tag.name;
      node_id = text_or tag.node_id "";
      mode = runtime_mode device;
      timestamp = some timestamp;
      quality = quality;
      error = if quality == "good" then none else some error;
    }))

unfoldable pub emit_tags : State → DeviceSpec → String → String → ℕ → List TagResult → State
unfolding runtime_mode
emit_tags s device quality error timestamp [] = s
emit_tags s device quality error timestamp (tag ∷ tags) =
    emit_tags (emit_tag s device quality error timestamp tag) device quality error timestamp tags

abbrev pub emit_snapshot : State → DeviceSpec → String → String → ℕ → Option Snapshot → State
emit_snapshot s device quality error timestamp none = s
emit_snapshot s device quality error timestamp (some snapshot) =
    emit_tags s device quality error timestamp (values snapshot.tags)

abbrev pub emit_runtime_tag_status : State → DeviceSpec → String → String → ℕ → State
emit_runtime_tag_status s device quality error timestamp =
    emit_snapshot s device quality error timestamp (get s.latest (device_key device))

-- `_set_device_status`, from the status that the device has
abbrev pub is_status : String → Option DeviceStatus → Bool
is_status status none = false
is_status status (some current) = current.status == status

abbrev pub is_known : Option DeviceStatus → Bool
is_known none = false
is_known (some current) = true

abbrev pub kept_status : Option DeviceStatus → DeviceStatus → DeviceStatus
kept_status none new = new
kept_status (some current) new = record current {
  reason = new.reason;
  last_received_at = new.last_received_at;
  last_source_timestamp = new.last_source_timestamp;
}

abbrev pub new_status : (status reason : String) → ℕ → Option ℕ → Option ℕ → DeviceStatus
new_status status reason now received source = record {
  status = status;
  reason = reason;
  changed_at = now;
  last_published_at = none;
  last_received_at = received;
  last_source_timestamp = source;
}

abbrev pub put_device_status : State → DeviceSpec → DeviceStatus → State
put_device_status s device status = record s {
  device_statuses = put s.device_statuses (device_key device) status;
}

unfoldable pub set_device_status :
    Settings
    → State
    → DeviceSpec
    → (status reason : String) → (now : ℕ) → (last_received_at last_source_timestamp : Option ℕ)
    → State
unfolding publish_device_status publish_status_heartbeat_if_due emit_tags
set_device_status c s device status reason now received source =
    let current = get s.device_statuses (device_key device) in
    let new = new_status status reason now received source in
    if is_status status current
    then publish_status_heartbeat_if_due c (put_device_status s device (kept_status current new))
        device now
    else if is_known current || not (status == "good")
    then publish_device_status c
        (emit_runtime_tag_status (put_device_status s device new) device status reason now) device
        now
    else put_device_status s device new
