-- ===== src/Runtime/Manager.antt =====
-- `RuntimeManager`: what it keeps of the statuses and logs that the workers report, the rows that it starts
-- with, and the topic of a route. An update has all the keys that a row has, so the merge of the two is the
-- update.
use iot_gathering.Common.{
  ℕ, zero, suc, ◌+◌, ◌-◌, String, Bool, false, ◌&&◌, ◌||◌, Option, none, some, List, [], ◌∷◌, ◌++◌,
  length, drop, ◌==◌, if◌then◌else◌, string_eq, int_eq, option_eq, pair_eq,
}
use iot_gathering.Common.Text.{is_empty, or_text, text_or, strip, strip_slashes, starts_with, ◌<>◌}
use iot_gathering.Common.Json.{Json, truthy}
use iot_gathering.Common.Dict.{Dict, get, put}
use iot_gathering.Models.{DeviceSpec, TagSpec}
use iot_gathering.Publisher.State.{runtime_mode}
use iot_gathering.Runtime.Queues.{
  TagUpdate, ServerStatus, StatusItem, tag_update, server_status, message, StatusQueue, get_status,
}

pub record Manager : Type 0 where
  pub status_queue : StatusQueue
  pub runtime_tags : Dict (String × String) TagUpdate
  pub server_statuses : Dict String ServerStatus
  pub logs : List String

-- What `drain_events` returns for an item or a line.
pub data Event : Type 0 where
  reported : StatusItem → Event
  logged : String → Event

-- `_record_status`
unfoldable pub record_status : Manager → StatusItem → Manager
record_status m (tag_update u) = record m {
  runtime_tags = put m.runtime_tags (u.device, or_text u.node_id u.tag) u;
}
record_status m (server_status s) = record m { server_statuses = put m.server_statuses s.device s }
record_status m (message s) = m

-- The first loop of `drain_events`, of at most `limit` items.
abbrev pub with_queue : Manager → StatusQueue → Manager
with_queue m queue = record m { status_queue = queue }

unfoldable pub drain_statuses : ℕ → Manager → List Event → Manager × List Event
unfolding record_status get_status
drain_statuses zero m events = (m, events)
drain_statuses (suc limit) m events = elim (get_status m.status_queue) [
  | none ↦ (m, events)
  | some (item, queue) ↦
      drain_statuses limit (record_status (with_queue m queue) item) (events ++ reported item ∷ [])
]

-- `deque(maxlen=500).append(line)`
abbrev pub push_log : List String → String → List String
push_log logs line = drop (length logs + 1 - 500) (logs ++ line ∷ [])

-- The last loop, over the lines that the logger has shown.
unfoldable pub drain_lines : Manager → List Event → List String → Manager × List Event
drain_lines m events [] = (m, events)
drain_lines m events (line ∷ lines) =
    drain_lines (record m { logs = push_log m.logs line }) (events ++ logged line ∷ []) lines

unfoldable pub drain_events : ℕ → Manager → List String → Manager × List Event
unfolding drain_statuses drain_lines
drain_events limit m lines = let step = drain_statuses limit m [] in drain_lines step.0 step.1 lines

-- `_initial_runtime_tags`, for the tags of one device
abbrev pub initial_row : DeviceSpec → TagSpec → TagUpdate
initial_row device tag = record {
  device = device.name;
  tag_group = tag.tag_group;
  tag = tag.name;
  node_id = text_or tag.node_id "";
  mode = runtime_mode device;
  timestamp = none;
  quality = "unknown";
  error = none;
}

unfoldable pub initial_tags :
    DeviceSpec → Dict (String × String) TagUpdate → List TagSpec → Dict (String × String) TagUpdate
initial_tags device rows [] = rows
initial_tags device rows (tag ∷ tags) =
    let with_tag = put rows (device.name, text_or tag.node_id tag.name) (initial_row device tag) in
    initial_tags device (if tag.enabled then with_tag else rows) tags

unfoldable pub initial_runtime_tags :
    (DeviceSpec → List TagSpec)
    → Dict (String × String) TagUpdate
    → List DeviceSpec
    → Dict (String × String) TagUpdate
unfolding initial_tags
initial_runtime_tags list_tags rows [] = rows
initial_runtime_tags list_tags rows (device ∷ devices) =
    let with_device = initial_tags device rows (list_tags device) in
    initial_runtime_tags list_tags (if device.enabled then with_device else rows) devices

-- `_route_topic`
unfoldable pub route_topic : String → String → String
unfolding starts_with
route_topic base_topic route_topic' =
    let raw = strip route_topic' in
    let topic = strip_slashes raw in
    let base = strip_slashes base_topic in
    if starts_with "C-S/" raw
    then raw
    else if is_empty topic
    then ""
    else if is_empty base || topic == base || starts_with (base <> "/") topic
    then topic
    else base <> "/" <> topic

-- `config.get(key)`, where it is truthy
abbrev pub truthy_option : Option Json → Bool
truthy_option none = false
truthy_option (some v) = truthy v

-- `_route_publish_topic`
unfoldable pub route_publish_topic : Dict String Json → Option Json
route_publish_topic config =
    if truthy_option (get config "dynamic_topic_enabled")
      && truthy_option (get config "resolved_topic")
    then get config "resolved_topic"
    else get config "topic"
