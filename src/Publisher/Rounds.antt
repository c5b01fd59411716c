-- ===== src/Publisher/Rounds.antt =====
-- The rounds of `SinkPublisher`: what it does with a result, and what it publishes from its cache.
use iot_gathering.Common.{
  ℕ, suc, ◌+◌, String, ℤ, leb, nat_beq, Bool, true, false, not, ◌&&◌, Option, none, some, List, [],
  ◌∷◌, keep, is_nil, any, ◌==◌, if◌then◌else◌, string_eq, int_eq, nat_eq, option_eq, pair_eq,
}
use iot_gathering.Common.Text.{is_empty, text_or, ◌<>◌}
use iot_gathering.Common.Dict.{Dict, get, put, values}
use iot_gathering.Models.{DeviceSpec, Quality, good, bad, TagResult, ReadResult}
use iot_gathering.Runtime.Queues.{has_text, tag_update, message, ReadQueue, get_result}
use iot_gathering.Publisher.Messages.{
  OutputRoute, ctm_status_message, system_heartbeat_message, is_good_tag,
}
use iot_gathering.Publisher.Routes.{group_results}
use iot_gathering.Publisher.State.{
  device_key, Snapshot, State, Settings, tag_key, put_outbox, put_log, runtime_mode, device_status,
  publish_message, measured, set_device_status, publish_status_heartbeat_if_due,
}

abbrev pub quality_text : Quality → String
quality_text good = "good"
quality_text bad = "bad"

-- One round of the loop over the tags in `_cache_result`: what is logged and reported of a tag.
abbrev pub report_tag : State → DeviceSpec → TagResult → State
report_tag s device tag =
    put_outbox (if is_good_tag tag then s else put_log s "ERROR" "driver" "tag read failed") (
      tag_update (record {
        device = device.name;
        tag_group = tag.tag_group;
        tag = tag.name;
        node_id = text_or tag.node_id "";
        mode = runtime_mode device;
        timestamp = some tag.timestamp;
        quality = quality_text tag.quality;
        error = tag.error;
      }))

unfoldable pub report_tags : State → DeviceSpec → List TagResult → State
report_tags s device [] = s
report_tags s device (tag ∷ tags) = report_tags (report_tag s device tag) device tags

-- `snapshot["tags"][_tag_key(tag)] = tag` for each tag
unfoldable pub put_tags :
    (ℤ → String) → Dict String TagResult → List TagResult → Dict String TagResult
put_tags address_text tags [] = tags
put_tags address_text tags (tag ∷ more) =
    put_tags address_text (put tags (tag_key address_text tag) tag) more

abbrev pub snapshot_tags : Option Snapshot → Dict String TagResult
snapshot_tags none = []
snapshot_tags (some snapshot) = snapshot.tags

abbrev pub is_bad_tag : TagResult → Bool
is_bad_tag tag = not (is_good_tag tag)

-- The status that a result gives: `has_good_tag`, `has_bad_tag` or neither.
abbrev pub result_status : List TagResult → String × String
result_status tags =
    if any is_good_tag tags
    then ("good", "data received")
    else if any is_bad_tag tags
    then ("bad", "tag read failed")
    else ("good", "data received")

-- `_cache_result`, before the status is set
abbrev pub put_snapshot : (ℤ → String) → State → ReadResult → ℕ → State
put_snapshot address_text s result received = record s {
  latest = put s.latest (device_key result.device) (record {
    device = result.device;
    tags =
        put_tags address_text (snapshot_tags (get s.latest (device_key result.device))) result.tags;
    last_received_at = some received;
    last_source_timestamp = some result.timestamp;
  });
}

unfoldable pub cache_result : (ℤ → String) → Settings → State → ReadResult → ℕ → State
unfolding put_tags report_tags set_device_status
cache_result address_text c s result received =
    let (status, reason) = result_status result.tags in
    set_device_status c
      (report_tags (put_snapshot address_text s result received) result.device result.tags)
      result.device status reason received (some received) (some result.timestamp)

-- `result.error`, where it is truthy
abbrev pub error_text : Option String → String
error_text none = ""
error_text (some e) = e

unfoldable pub take_result : (ℤ → String) → Settings → State → ReadResult → ℕ → State
unfolding cache_result
take_result address_text c s result received =
    if has_text result.error
    then set_device_status c
        (put_log
          (put_outbox s
            (message (result.device.name <> ": read failed: " <> error_text result.error)))
          "ERROR" "driver" "read result error")
        result.device "disconnected" (error_text result.error) received none none
    else cache_result address_text c s result received

-- `publish_once`: false where the inbox stayed empty
abbrev pub taken :
    (ℤ → String)
    → Settings
    → State
    → ReadQueue
    → ℕ
    → Option (ReadResult × ReadQueue)
    → Bool × (State × ReadQueue)
taken address_text c s inbox now none = (false, (s, inbox))
taken address_text c s inbox now (some (result, rest)) =
    (true, (take_result address_text c s result now, rest))

unfoldable pub publish_once :
    (ℤ → String) → Settings → State → ReadQueue → ℕ → Bool × (State × ReadQueue)
unfolding take_result
publish_once address_text c s inbox now = taken address_text c s inbox now (get_result inbox)

abbrev pub is_expired : Settings → Option ℕ → ℕ → Bool
is_expired c none now = false
is_expired c (some received) now = leb (received + c.stale_timeout) now

abbrev pub is_received : Option ℕ → Bool
is_received none = false
is_received (some t) = true

-- One round of the loop in `_refresh_stale_statuses`.
unfoldable pub refresh_one : Settings → State → ℕ → Snapshot → State
unfolding set_device_status
refresh_one c s now snapshot =
    if not (is_received snapshot.last_received_at)
    then s
    else if is_expired c snapshot.last_received_at now && device_status s snapshot.device == "good"
    then set_device_status c s snapshot.device "stale" "message timeout" now
        snapshot.last_received_at snapshot.last_source_timestamp
    else if not (device_status s snapshot.device == "good")
    then publish_status_heartbeat_if_due c s snapshot.device now
    else s

unfoldable pub refresh_each : Settings → State → ℕ → List Snapshot → State
unfolding refresh_one
refresh_each c s now [] = s
refresh_each c s now (snapshot ∷ snapshots) =
    refresh_each c (refresh_one c s now snapshot) now snapshots

unfoldable pub refresh_stale_statuses : Settings → State → ℕ → State
unfolding refresh_each
refresh_stale_statuses c s now =
    if nat_beq c.stale_timeout 0 then s else refresh_each c s now (values s.latest)

-- `_publish_system_heartbeats`; a route is known by its place among the routes.
abbrev pub is_due : Option ℕ → ℕ → ℕ → Bool
is_due none interval now = true
is_due (some last) interval now = leb (last + interval) now

abbrev pub is_heartbeat_route : OutputRoute → Bool
is_heartbeat_route route = route.route_kind == "system_heartbeat" && not (is_empty route.topic)

unfoldable pub publish_heartbeat : Settings → State → ℕ → ℕ → OutputRoute → State
publish_heartbeat c s now place route =
    if is_heartbeat_route route
      && is_due (get s.heartbeat_published_at place) route.heartbeat_interval now
    then publish_message c
        (record s { heartbeat_published_at = put s.heartbeat_published_at place now })
        (system_heartbeat_message route now) "System Heartbeat"
    else s

unfoldable pub publish_heartbeats : Settings → State → ℕ → ℕ → List OutputRoute → State
unfolding publish_heartbeat
publish_heartbeats c s now place [] = s
publish_heartbeats c s now place (route ∷ routes) =
    publish_heartbeats c (publish_heartbeat c s now place route) now (suc place) routes

-- The loops of `publish_cached`.
unfoldable pub publish_group :
    Settings → State → ℕ → DeviceSpec → Option String → List TagResult → State
publish_group c s now device group tags =
    let good_tags = keep is_good_tag tags in
    let m = measured c device good_tags group now in
    if is_nil good_tags
    then s
    else publish_message c (publish_message c s m device.name)
        (ctm_status_message m tags "on" none now) device.name

unfoldable pub publish_groups :
    Settings → State → ℕ → DeviceSpec → Dict (Option String) (List TagResult) → State
unfolding publish_group
publish_groups c s now device [] = s
publish_groups c s now device ((group, tags) ∷ groups) =
    publish_groups c (publish_group c s now device group tags) now device groups

unfoldable pub publish_snapshots : Settings → State → ℕ → List Snapshot → State
unfolding publish_groups
publish_snapshots c s now [] = s
publish_snapshots c s now (snapshot ∷ snapshots) =
    let next =
      if device_status s snapshot.device == "good"
      then publish_groups c s now snapshot.device (group_results [] (values snapshot.tags))
      else s in
    publish_snapshots c next now snapshots

-- `publish_cached`, without the number that it returns
unfoldable pub publish_cached : Settings → State → ℕ → State
unfolding refresh_stale_statuses publish_heartbeats publish_snapshots
publish_cached c s now =
    let s' = publish_heartbeats c (refresh_stale_statuses c s now) now 0 c.output_routes in
    publish_snapshots c s' now (values s'.latest)
