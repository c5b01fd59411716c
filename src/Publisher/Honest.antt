-- ===== src/Publisher/Honest.antt =====
-- What the publisher tells the sink: no measurement holds a bad value, and no sensor is reported on or
-- healthy that is not both.
use iot_gathering.Common.{
  ℕ, String, Bool, true, false, Bool-cases, not, ◌&&◌, ◌||◌, Option, none, some, List, [], ◌∷◌, ◌≡◌,
  refl, sym, ◌∙◌, ◌⊎◌, inl, inr, length, keep, is_nil, All, All-append, ◌==◌, if◌then◌else◌,
  string_eq, int_eq, nat_eq, option_eq, pair_eq,
}
use mathlib.Core.Path.{subst}
use iot_gathering.Common.Text.{is_empty}
use iot_gathering.Common.Dict.{Dict, get, values}
use iot_gathering.Common.Result.{Error}
use iot_gathering.Models.{DeviceSpec, TagResult}
use iot_gathering.Publisher.Messages.{
  OutputRoute, Sensor, Payload, measurement, status, BatchMessage, from_results, is_good_tag,
  sensor, sensors_of, ctm_status_message,
}
use iot_gathering.Publisher.Routes.{
  group_results, wants_group, grouped, routed, measurement_message, route_for, group_text,
  config_of,
}
use iot_gathering.Publisher.State.{
  device_key, Snapshot, DeviceStatus, State, Settings, sink_answered, publish_message, measured,
  publish_status_group, publish_statuses, publish_snapshot_status, publish_known_status,
  publish_device_status, heartbeat_if_due, publish_status_heartbeat_if_due, emit_tag, emit_tags,
  emit_snapshot, is_status, is_known, kept_status, new_status, put_device_status, set_device_status,
}

-- A sensor is on and has full health, or is off and has none.
abbrev pub IsPlainSensor : Sensor → Type 0
IsPlainSensor s =
    ((s.conn_status ≡ "on") × (s.health_score ≡ 100))
    ⊎ ((s.conn_status ≡ "off") × (s.health_score ≡ 0))

abbrev pub IsHonestPayload : Payload → Type 0
IsHonestPayload (measurement id name timestamp tags) =
    All (λ t. is_good_tag t ≡ true) tags × (is_nil tags ≡ false)
IsHonestPayload (status timestamp sensors) = All IsPlainSensor sensors

abbrev pub IsHonest : BatchMessage → Type 0
IsHonest m = IsHonestPayload m.payload

abbrev pub AreHonest : State → Type 0
AreHonest s = All IsHonest s.sent

-- The two words for a connection.
pub IsWord : String → Type 0
IsWord w = (w ≡ "on") ⊎ (w ≡ "off")

sensor-IsPlainSensor :
    (w : String) (error_msg : Option String) (timestamp : ℕ) (tag : TagResult)
    → IsWord w
    → IsPlainSensor (sensor w error_msg timestamp tag)
unfolding IsWord
sensor-IsPlainSensor w error_msg timestamp tag (inl on) = elim (Bool-cases (is_good_tag tag)) [
  | inl g ↦ rw (on, g) (inl (refl, refl))
  | inr b ↦ rw (on, b) (inr (refl, refl))
]
sensor-IsPlainSensor w error_msg timestamp tag (inr off) = elim (Bool-cases (is_good_tag tag)) [
  | inl g ↦ rw (off, g) (inr (refl, refl))
  | inr b ↦ rw (off, b) (inr (refl, refl))
]

pub sensors_of-IsPlainSensor :
    (w : String) (error_msg : Option String) (timestamp : ℕ) (tags : List TagResult)
    → IsWord w
    → All IsPlainSensor (sensors_of w error_msg timestamp tags)
unfolding sensors_of
sensors_of-IsPlainSensor w error_msg timestamp [] h = tt
sensors_of-IsPlainSensor w error_msg timestamp (tag ∷ tags) h = (
  sensor-IsPlainSensor w error_msg timestamp tag h,
  sensors_of-IsPlainSensor w error_msg timestamp tags h,
)

-- Routing and grouping keep the payload.
payload-routed :
    (route : Option OutputRoute) (m : BatchMessage) → (routed route m).payload ≡ m.payload
payload-routed none m = refl
payload-routed (some route) m = refl

payload-grouped :
    (route : Option OutputRoute) (group : String) (m : BatchMessage)
    → (grouped route group m).payload ≡ m.payload
payload-grouped route group m =
    elim (Bool-cases (not (is_empty group) && wants_group route group)) [
      | inl e ↦ rw e refl
      | inr e ↦ rw e refl
    ]

pub payload-measured :
    (c : Settings) (device : DeviceSpec) (tags : List TagResult) (group : Option String) (now : ℕ)
    → (measured c device tags group now).payload ≡ measurement device.id device.name now tags
unfolding measurement_message
payload-measured c device tags group now =
    let route = route_for c.output_routes device (group_text group) in
    payload-routed route (
      grouped route (group_text group)
        (from_results device tags now (config_of route c.mqtt_config)))
    ∙ payload-grouped route (group_text group)
        (from_results device tags now (config_of route c.mqtt_config))

pub keep_good : (tags : List TagResult) → All (λ t. is_good_tag t ≡ true) (keep is_good_tag tags)
keep_good [] = tt
keep_good (tag ∷ tags) = elim (Bool-cases (is_good_tag tag)) [
  | inl g ↦ rw g (g, keep_good tags)
  | inr b ↦ rw b (keep_good tags)
]

pub if_keeps :
    (P : State → Type 0) (test : Bool) {s t : State} → P s → P t → P (if test then s else t)
if_keeps P true h k = h
if_keeps P false h k = k

-- The sink's answer adds no message.
sent-sink_answered :
    (device : String) (s : State) (e : Option Error) → (sink_answered device s e).sent ≡ s.sent
sent-sink_answered device s none = refl
sent-sink_answered device s (some e) = refl

pub publish_message-AreHonest :
    (c : Settings) (s : State) (m : BatchMessage) (device : String)
    → IsHonest m
    → AreHonest s
    → AreHonest (publish_message c s m device)
unfolding publish_message
publish_message-AreHonest c s m device h k =
    subst (All IsHonest) (sym (sent-sink_answered device _ (c.sink (length s.sent) m)))
      (All-append IsHonest s.sent (m ∷ []) k (h, tt))

module _ (c : Settings) where
  publish_statuses-AreHonest :
      (s : State) (device : DeviceSpec) (w : String) (error_msg : Option String) (now : ℕ)
      (groups : Dict (Option String) (List TagResult))
      → IsWord w
      → AreHonest s
      → AreHonest (publish_statuses c s device w error_msg now groups)
  unfolding publish_statuses
  publish_statuses-AreHonest s device w error_msg now [] h k = k
  publish_statuses-AreHonest s device w error_msg now ((group, tags) ∷ groups) h k =
      publish_statuses-AreHonest (publish_status_group c s device w error_msg now group tags) device
        w error_msg now groups h
        (publish_message-AreHonest c s
          (ctm_status_message (measured c device tags group now) tags w error_msg now) device.name
          (sensors_of-IsPlainSensor w error_msg now tags h) k)

  pub IsWord-of : (b : Bool) → IsWord (if b then "on" else "off")
  unfolding IsWord
  IsWord-of true = inl refl
  IsWord-of false = inr refl

  publish_snapshot_status-AreHonest :
      (s : State) (device : DeviceSpec) (d : DeviceStatus) (now : ℕ) (o : Option Snapshot)
      → AreHonest s
      → AreHonest (publish_snapshot_status c s device d now o)
  publish_snapshot_status-AreHonest s device d now none k = k
  publish_snapshot_status-AreHonest s device d now (some snapshot) k =
      publish_statuses-AreHonest s device _ _ now (group_results [] (values snapshot.tags))
        (IsWord-of (d.status == "good")) k

  publish_known_status-AreHonest :
      (s : State) (device : DeviceSpec) (now : ℕ) (o : Option DeviceStatus)
      → AreHonest s
      → AreHonest (publish_known_status c s device now o)
  publish_known_status-AreHonest s device now none k = k
  publish_known_status-AreHonest s device now (some d) k =
      publish_snapshot_status-AreHonest _ device d now (get s.latest (device_key device)) k

  publish_device_status-AreHonest :
      (s : State) (device : DeviceSpec) (now : ℕ)
      → AreHonest s
      → AreHonest (publish_device_status c s device now)
  unfolding publish_device_status
  publish_device_status-AreHonest s device now k =
      publish_known_status-AreHonest s device now (get s.device_statuses (device_key device)) k

  heartbeat_if_due-AreHonest :
      (s : State) (device : DeviceSpec) (now : ℕ) (o : Option DeviceStatus)
      → AreHonest s
      → AreHonest (heartbeat_if_due c s device now o)
  heartbeat_if_due-AreHonest s device now none k = k
  heartbeat_if_due-AreHonest s device now (some d) k =
      if_keeps AreHonest _ (publish_device_status-AreHonest s device now k) k

  pub publish_status_heartbeat_if_due-AreHonest :
      (s : State) (device : DeviceSpec) (now : ℕ)
      → AreHonest s
      → AreHonest (publish_status_heartbeat_if_due c s device now)
  unfolding publish_status_heartbeat_if_due
  publish_status_heartbeat_if_due-AreHonest s device now k =
      if_keeps AreHonest _ k
        (heartbeat_if_due-AreHonest s device now (get s.device_statuses (device_key device)) k)

  emit_tags-AreHonest :
      (s : State) (device : DeviceSpec) (quality error : String) (timestamp : ℕ)
      (tags : List TagResult)
      → AreHonest s
      → AreHonest (emit_tags s device quality error timestamp tags)
  unfolding emit_tags
  emit_tags-AreHonest s device quality error timestamp [] k = k
  emit_tags-AreHonest s device quality error timestamp (tag ∷ tags) k =
      emit_tags-AreHonest (emit_tag s device quality error timestamp tag) device quality error
        timestamp tags k

  emit_snapshot-AreHonest :
      (s : State) (device : DeviceSpec) (quality error : String) (timestamp : ℕ)
      (o : Option Snapshot)
      → AreHonest s
      → AreHonest (emit_snapshot s device quality error timestamp o)
  emit_snapshot-AreHonest s device quality error timestamp none k = k
  emit_snapshot-AreHonest s device quality error timestamp (some snapshot) k =
      emit_tags-AreHonest s device quality error timestamp (values snapshot.tags) k

  pub set_device_status-AreHonest :
      (s : State) (device : DeviceSpec) (name reason : String) (now : ℕ)
      (received source : Option ℕ)
      → AreHonest s
      → AreHonest (set_device_status c s device name reason now received source)
  unfolding set_device_status
  set_device_status-AreHonest s device name reason now received source k =
      if_keeps AreHonest (is_status name current)
        (publish_status_heartbeat_if_due-AreHonest
          (put_device_status s device (kept_status current new)) device now k)
        (if_keeps AreHonest (is_known current || not (name == "good"))
          (publish_device_status-AreHonest
            (emit_snapshot stored device name reason now (get s.latest (device_key device))) device
            now
            (emit_snapshot-AreHonest stored device name reason now
              (get s.latest (device_key device)) k))
          k)
    where
      current : Option DeviceStatus
      current = get s.device_statuses (device_key device)

      new : DeviceStatus
      new = new_status name reason now received source

      stored : State
      stored = put_device_status s device new
