-- ===== src/Publisher/Statuses.antt =====
-- What the operations of the publisher do to the status of each device.
use iot_gathering.Common.{
  ℕ, String, ℤ, true, Bool-cases, not, ◌||◌, Option, none, some, List, [], ◌∷◌, ◌≡◌, refl, ap, ◌∙◌,
  inl, inr, arith, length, ◌==◌, if◌then◌else◌, string_eq, int_eq, nat_eq, option_eq, pair_eq,
}
use iot_gathering.Common.Text.{or_text}
use iot_gathering.Common.Dict.{Dict, get, put, get-put, values}
use iot_gathering.Common.Result.{Error}
use iot_gathering.Models.{DeviceSpec, TagResult}
use iot_gathering.Publisher.Messages.{BatchMessage}
use iot_gathering.Publisher.State.{
  DeviceKey, device_key, Snapshot, DeviceStatus, State, Settings, status_name, device_status,
  sink_answered, publish_message, publish_status_group, publish_statuses, publish_snapshot_status,
  publish_known_status, publish_device_status, heartbeat_if_due, publish_status_heartbeat_if_due,
  emit_tag, emit_tags, emit_snapshot, is_status, is_known, kept_status, new_status,
  put_device_status, set_device_status,
}

-- The sink's answer changes no status.
device_statuses-sink_answered :
    (device : String) (s : State) (e : Option Error)
    → (sink_answered device s e).device_statuses ≡ s.device_statuses
device_statuses-sink_answered device s none = refl
device_statuses-sink_answered device s (some e) = refl

pub device_statuses-publish_message :
    (c : Settings) (s : State) (m : BatchMessage) (device : String)
    → (publish_message c s m device).device_statuses ≡ s.device_statuses
unfolding publish_message
device_statuses-publish_message c s m device =
    device_statuses-sink_answered device _ (c.sink (length s.sent) m)

device_statuses-publish_statuses :
    (c : Settings) (s : State) (device : DeviceSpec) (conn_status : String)
    (error_msg : Option String) (now : ℕ) (groups : Dict (Option String) (List TagResult))
    → (publish_statuses c s device conn_status error_msg now groups).device_statuses
      ≡ s.device_statuses
unfolding publish_statuses
device_statuses-publish_statuses c s device conn_status error_msg now [] = refl
device_statuses-publish_statuses c s device conn_status error_msg now ((group, tags) ∷ groups) =
    device_statuses-publish_statuses c
      (publish_status_group c s device conn_status error_msg now group tags) device conn_status
      error_msg now groups
    ∙ device_statuses-publish_message c s _ device.name

device_statuses-publish_snapshot_status :
    (c : Settings) (s : State) (device : DeviceSpec) (status : DeviceStatus) (now : ℕ)
    (o : Option Snapshot)
    → (publish_snapshot_status c s device status now o).device_statuses ≡ s.device_statuses
device_statuses-publish_snapshot_status c s device status now none = refl
device_statuses-publish_snapshot_status c s device status now (some snapshot) =
    device_statuses-publish_statuses c s device _ _ now _

-- A published status keeps its name.
known-keeps :
    (c : Settings) (s : State) (device : DeviceSpec) (now : ℕ) (o : Option DeviceStatus)
    (d : DeviceSpec)
    → get s.device_statuses (device_key device) ≡ o
    → device_status (publish_known_status c s device now o) d ≡ device_status s d
known-keeps c s device now none d h = refl
known-keeps c s device now (some status) d h =
    ap (λ m. status_name (get m (device_key d)))
      (device_statuses-publish_snapshot_status c _ device status now
        (get s.latest (device_key device)))
    ∙ renamed
  where
    key : DeviceKey
    key = device_key device

    same_key : (key == device_key d) ≡ true → key ≡ device_key d
    same_key e = ((pair_eq {A = Option ℤ} {B = String}).beq_iff key (device_key d)).0 e

    renamed :
        status_name (
          get
            (put s.device_statuses key (record status { last_published_at = some now }))
            (device_key d))
        ≡ device_status s d
    renamed = elim (Bool-cases (key == device_key d)) [
      | inl same ↦
          rw
            (
              get-put s.device_statuses key (device_key d)
                  (record status { last_published_at = some now }),
              same,
            )
            (rw (← same_key same, h) refl)
      | inr other ↦
          rw
            (
              get-put s.device_statuses key (device_key d)
                  (record status { last_published_at = some now }),
              other,
            )
            refl
    ]

pub device_status-publish_device_status :
    (c : Settings) (s : State) (device : DeviceSpec) (now : ℕ) (d : DeviceSpec)
    → device_status (publish_device_status c s device now) d ≡ device_status s d
unfolding publish_device_status
device_status-publish_device_status c s device now d =
    known-keeps c s device now (get s.device_statuses (device_key device)) d refl

due-keeps :
    (c : Settings) (s : State) (device : DeviceSpec) (now : ℕ) (o : Option DeviceStatus)
    (d : DeviceSpec)
    → device_status (heartbeat_if_due c s device now o) d ≡ device_status s d
due-keeps c s device now none d = refl
due-keeps c s device now (some status) d =
    ground (arith, device_status-publish_device_status c s device now d)

pub device_status-publish_status_heartbeat_if_due :
    (c : Settings) (s : State) (device : DeviceSpec) (now : ℕ) (d : DeviceSpec)
    → device_status (publish_status_heartbeat_if_due c s device now) d ≡ device_status s d
unfolding publish_status_heartbeat_if_due
device_status-publish_status_heartbeat_if_due c s device now d =
    ground (arith, due-keeps c s device now (get s.device_statuses (device_key device)) d)

device_statuses-emit_tags :
    (s : State) (device : DeviceSpec) (quality error : String) (timestamp : ℕ)
    (tags : List TagResult)
    → (emit_tags s device quality error timestamp tags).device_statuses ≡ s.device_statuses
unfolding emit_tags
device_statuses-emit_tags s device quality error timestamp [] = refl
device_statuses-emit_tags s device quality error timestamp (tag ∷ tags) =
    device_statuses-emit_tags (emit_tag s device quality error timestamp tag) device quality error
      timestamp tags

device_statuses-emit_snapshot :
    (s : State) (device : DeviceSpec) (quality error : String) (timestamp : ℕ) (o : Option Snapshot)
    → (emit_snapshot s device quality error timestamp o).device_statuses ≡ s.device_statuses
device_statuses-emit_snapshot s device quality error timestamp none = refl
device_statuses-emit_snapshot s device quality error timestamp (some snapshot) =
    device_statuses-emit_tags s device quality error timestamp (values snapshot.tags)

-- A put of a status with this name.
put-named :
    (s : State) (device : DeviceSpec) (new : DeviceStatus) (d : DeviceSpec)
    → device_status (put_device_status s device new) d ≡ (
        if device_key device == device_key d
        then or_text new.status "unknown"
        else device_status s d)
put-named s device new d = elim (Bool-cases (device_key device == device_key d)) [
  | inl same ↦ rw (get-put s.device_statuses (device_key device) (device_key d) new, same) refl
  | inr other ↦ rw (get-put s.device_statuses (device_key device) (device_key d) new, other) refl
]

status-kept_status :
    (status : String) (o : Option DeviceStatus) (new : DeviceStatus)
    → is_status status o ≡ true
    → new.status ≡ status
    → (kept_status o new).status ≡ status
status-kept_status status none new h e = e
status-kept_status status (some current) new h e = (string_eq.beq_iff current.status status).0 h

-- After `_set_device_status` the device has the given status and every other device the one it had.
pub device_status-set_device_status :
    (c : Settings) (s : State) (device : DeviceSpec) (status reason : String) (now : ℕ)
    (received source : Option ℕ) (d : DeviceSpec)
    → device_status (set_device_status c s device status reason now received source) d
      ≡ (if device_key device == device_key d then or_text status "unknown" else device_status s d)
unfolding set_device_status
device_status-set_device_status c s device status reason now received source d =
    elim (Bool-cases (is_status status current)) [
      | inl same ↦ rw same (
          device_status-publish_status_heartbeat_if_due c _ device now d
          ∙ put-named s device (kept_status current new) d
          ∙ ap
              (λ n.
                if device_key device == device_key d
                then or_text n "unknown"
                else device_status s d)
              (status-kept_status status current new same refl))
      | inr other ↦ elim (Bool-cases (is_known current || not (status == "good"))) [
        | inl tell ↦
            rw (other, tell)
              (device_status-publish_device_status c _ device now d
                ∙ ap (λ m. status_name (get m (device_key d)))
                    (device_statuses-emit_snapshot _ device status reason now
                      (get s.latest (device_key device)))
                ∙ put-named s device new d)
        | inr silent ↦ rw (other, silent) (put-named s device new d)
      ]
    ]
  where
    current : Option DeviceStatus
    current = get s.device_statuses (device_key device)

    new : DeviceStatus
    new = new_status status reason now received source
