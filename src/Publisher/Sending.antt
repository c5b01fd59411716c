-- ===== src/Publisher/Sending.antt =====
-- What the publisher's rounds send to the sink.
use iot_gathering.Common.{
  ℕ, suc, String, ℤ, nat_beq, true, Bool-cases, not, ◌&&◌, Option, none, some, List, [], ◌∷◌, refl,
  sym, inl, inr, keep, is_nil, ◌==◌, if◌then◌else◌, string_eq, int_eq, nat_eq, option_eq, pair_eq,
}
use mathlib.Core.Path.{subst}
use iot_gathering.Common.Text.{◌<>◌}
use iot_gathering.Common.Dict.{Dict, get, put, values}
use iot_gathering.Models.{DeviceSpec, TagResult, ReadResult}
use iot_gathering.Runtime.Queues.{has_text, message}
use iot_gathering.Publisher.Messages.{
  OutputRoute, is_good_tag, ctm_status_message, system_heartbeat_message,
}
use iot_gathering.Publisher.Routes.{group_results}
use iot_gathering.Publisher.State.{
  Snapshot, State, Settings, put_outbox, put_log, device_status, publish_message, measured,
}
use iot_gathering.Publisher.Rounds.{
  report_tag, report_tags, put_snapshot, result_status, cache_result, take_result, error_text,
  is_expired, is_received, refresh_one, refresh_each, refresh_stale_statuses, is_due,
  is_heartbeat_route, publish_heartbeat, publish_heartbeats, publish_group, publish_groups,
  publish_snapshots, publish_cached,
}
use iot_gathering.Publisher.Honest.{
  IsHonestPayload, AreHonest, if_keeps, keep_good, payload-measured, sensors_of-IsPlainSensor,
  publish_message-AreHonest, IsWord-of, publish_status_heartbeat_if_due-AreHonest,
  set_device_status-AreHonest,
}

module _ (c : Settings) where
  report_tags-AreHonest :
      (s : State) (device : DeviceSpec) (tags : List TagResult)
      → AreHonest s
      → AreHonest (report_tags s device tags)
  unfolding report_tags
  report_tags-AreHonest s device [] k = k
  report_tags-AreHonest s device (tag ∷ tags) k = elim (Bool-cases (is_good_tag tag)) [
    | inl g ↦ report_tags-AreHonest (report_tag s device tag) device tags (rw g k)
    | inr b ↦ report_tags-AreHonest (report_tag s device tag) device tags (rw b k)
  ]

  -- Where all messages that were sent are honest, so are those sent for a result that the publisher takes from its
  -- queue: a sensor in a status message is on with full health, or off with none.
  pub take_result-AreHonest :
      (address_text : ℤ → String) (s : State) (result : ReadResult) (now : ℕ)
      → AreHonest s
      → AreHonest (take_result address_text c s result now)
  unfolding take_result cache_result
  take_result-AreHonest address_text s result now k = elim (Bool-cases (has_text result.error)) [
    | inl e ↦ rw e (
        set_device_status-AreHonest c
          (put_log
            (put_outbox s
              (message (result.device.name <> ": read failed: " <> error_text result.error)))
            "ERROR" "driver" "read result error")
          result.device "disconnected" (error_text result.error) now none none k)
    | inr e ↦ rw e (
        set_device_status-AreHonest c
          (report_tags (put_snapshot address_text s result now) result.device result.tags)
          result.device (result_status result.tags).0 (result_status result.tags).1 now (some now)
          (some result.timestamp)
          (report_tags-AreHonest (put_snapshot address_text s result now) result.device result.tags
            k))
  ]

  refresh_each-AreHonest :
      (s : State) (now : ℕ) (snapshots : List Snapshot)
      → AreHonest s
      → AreHonest (refresh_each c s now snapshots)
  unfolding refresh_each refresh_one
  refresh_each-AreHonest s now [] k = k
  refresh_each-AreHonest s now (snapshot ∷ snapshots) k =
      refresh_each-AreHonest (refresh_one c s now snapshot) now snapshots (
        if_keeps AreHonest (not (is_received snapshot.last_received_at)) k (
          if_keeps AreHonest
            (is_expired c snapshot.last_received_at now
              && device_status s snapshot.device == "good")
            (set_device_status-AreHonest c s snapshot.device "stale" "message timeout" now
              snapshot.last_received_at snapshot.last_source_timestamp k)
            (if_keeps AreHonest (not (device_status s snapshot.device == "good"))
              (publish_status_heartbeat_if_due-AreHonest c s snapshot.device now k) k)))

  publish_heartbeats-AreHonest :
      (s : State) (now place : ℕ) (routes : List OutputRoute)
      → AreHonest s
      → AreHonest (publish_heartbeats c s now place routes)
  unfolding publish_heartbeats publish_heartbeat
  publish_heartbeats-AreHonest s now place [] k = k
  publish_heartbeats-AreHonest s now place (route ∷ routes) k =
      publish_heartbeats-AreHonest (publish_heartbeat c s now place route) now (suc place) routes (
        if_keeps AreHonest
          (is_heartbeat_route route
            && is_due (get s.heartbeat_published_at place) route.heartbeat_interval now)
          (publish_message-AreHonest c
            (record s { heartbeat_published_at = put s.heartbeat_published_at place now })
            (system_heartbeat_message route now) "System Heartbeat" (inl (refl, refl), tt) k)
          k)

  publish_group-AreHonest :
      (s : State) (now : ℕ) (device : DeviceSpec) (group : Option String) (tags : List TagResult)
      → AreHonest s
      → AreHonest (publish_group c s now device group tags)
  unfolding publish_group
  publish_group-AreHonest s now device group tags k =
      elim (Bool-cases (is_nil (keep is_good_tag tags))) [
        | inl n ↦ rw n k
        | inr m ↦ rw m (
            publish_message-AreHonest c
              (publish_message c s (measured c device (keep is_good_tag tags) group now)
                device.name)
              (ctm_status_message (measured c device (keep is_good_tag tags) group now) tags "on"
                none now)
              device.name (sensors_of-IsPlainSensor "on" none now tags (IsWord-of c true))
              (publish_message-AreHonest c s (measured c device (keep is_good_tag tags) group now)
                device.name
                (subst IsHonestPayload
                  (sym (payload-measured c device (keep is_good_tag tags) group now))
                  (keep_good tags, m))
                k))
      ]

  publish_groups-AreHonest :
      (s : State) (now : ℕ) (device : DeviceSpec) (groups : Dict (Option String) (List TagResult))
      → AreHonest s
      → AreHonest (publish_groups c s now device groups)
  unfolding publish_groups
  publish_groups-AreHonest s now device [] k = k
  publish_groups-AreHonest s now device ((group, tags) ∷ groups) k =
      publish_groups-AreHonest (publish_group c s now device group tags) now device groups
        (publish_group-AreHonest s now device group tags k)

  publish_snapshots-AreHonest :
      (s : State) (now : ℕ) (snapshots : List Snapshot)
      → AreHonest s
      → AreHonest (publish_snapshots c s now snapshots)
  unfolding publish_snapshots
  publish_snapshots-AreHonest s now [] k = k
  publish_snapshots-AreHonest s now (snapshot ∷ snapshots) k =
      let groups = group_results [] (values snapshot.tags) in
      publish_snapshots-AreHonest
        (if device_status s snapshot.device == "good"
          then publish_groups c s now snapshot.device groups
          else s)
        now snapshots
        (if_keeps AreHonest (device_status s snapshot.device == "good")
          (publish_groups-AreHonest s now snapshot.device groups k) k)

  -- Where all messages that were sent are honest, so are those of a round of publishing: a measurement has
  -- tags, all of them good and without an error, and a sensor in a status message is on with full health, or off
  -- with none.
  pub publish_cached-AreHonest :
      (s : State) (now : ℕ) → AreHonest s → AreHonest (publish_cached c s now)
  unfolding publish_cached refresh_stale_statuses
  publish_cached-AreHonest s now k = publish_snapshots-AreHonest beats now (values beats.latest) (
      publish_heartbeats-AreHonest (refresh_stale_statuses c s now) now 0 c.output_routes (
        if_keeps AreHonest (nat_beq c.stale_timeout 0) k
          (refresh_each-AreHonest s now (values s.latest) k)))
    where
      beats : State
      beats = publish_heartbeats c (refresh_stale_statuses c s now) now 0 c.output_routes
