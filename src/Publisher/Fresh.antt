-- ===== src/Publisher/Fresh.antt =====
-- The refresh of the stale statuses leaves no device good for too long.
use iot_gathering.Common.{
  ℕ, ◌<◌, ◌≢◌, ◌+◌, leb, Option-cases, All-mono, String, ℤ, nat_beq, Bool, true, false, Bool-cases,
  ◌&&◌, Option, none, some, List, [], ◌∷◌, ◌≡◌, refl, sym, ◌∙◌, inl, inr, arith, beq_self, All,
  ◌==◌, if◌then◌else◌, string_eq, int_eq, option_eq, pair_eq,
}
use iot_gathering.Common.Dict.{values}
use iot_gathering.Models.{DeviceSpec}
use iot_gathering.Publisher.State.{device_key, Snapshot, State, Settings, device_status}
use iot_gathering.Publisher.Rounds.{
  is_expired, is_received, refresh_one, refresh_each, refresh_stale_statuses,
}
use iot_gathering.Publisher.Statuses.{
  device_status-set_device_status, device_status-publish_status_heartbeat_if_due,
}

-- The device of a snapshot is not good, or its last result came within the timeout.
abbrev pub IsUnexpired : Settings → State → ℕ → Snapshot → Type 0
IsUnexpired c s now snapshot =
    (device_status s snapshot.device == "good" && is_expired c snapshot.last_received_at now)
    ≡ false

-- One round of the loop makes no device good.
not_stale :
    (same : Bool) (status : String) → (if same then "stale" else status) ≡ "good" → status ≡ "good"
not_stale true status h = absurd (cc h)
not_stale false status h = h

refresh_one-good :
    (c : Settings) (s : State) (now : ℕ) (snapshot : Snapshot) (d : DeviceSpec)
    → device_status (refresh_one c s now snapshot) d ≡ "good"
    → device_status s d ≡ "good"
unfolding refresh_one
refresh_one-good c s now snapshot d h = elim (Bool-cases (is_received snapshot.last_received_at)) [
  | inr e ↦ rw e at h
  | inl e ↦
      elim (Bool-cases
        (is_expired c snapshot.last_received_at now && device_status s snapshot.device == "good")) [
          | inl x ↦ not_stale (device_key snapshot.device == device_key d) (device_status s d) (
              sym (
                device_status-set_device_status c s snapshot.device "stale" "message timeout" now
                  snapshot.last_received_at snapshot.last_source_timestamp d)
              ∙ (rw (e, x) at h))
          | inr x ↦ elim (Bool-cases (device_status s snapshot.device == "good")) [
            | inl g ↦ rw (e, x, g) at h
            | inr g ↦
                sym (device_status-publish_status_heartbeat_if_due c s snapshot.device now d)
                ∙ (rw (e, x, g) at h)
          ]
        ]
]

unreceived :
    (c : Settings) (o : Option ℕ) (now : ℕ) → is_received o ≡ false → is_expired c o now ≡ false
unreceived c none now h = refl
unreceived c (some t) now h = absurd (cc h)

and_false : (a : Bool) → (a && false) ≡ false
and_false a = ground arith

-- One round of the loop leaves its own device fresh.
refresh_one-IsUnexpired :
    (c : Settings) (s : State) (now : ℕ) (snapshot : Snapshot)
    → IsUnexpired c (refresh_one c s now snapshot) now snapshot
unfolding refresh_one
refresh_one-IsUnexpired c s now snapshot =
    elim (Bool-cases (is_received snapshot.last_received_at)) [
      | inr e ↦ rw (e, unreceived c snapshot.last_received_at now e) (and_false _)
      | inl e ↦
          elim (Bool-cases (
            is_expired c snapshot.last_received_at now
            && device_status s snapshot.device == "good")) [
              | inl x ↦
                  rw
                    (
                      e,
                      x,
                      device_status-set_device_status c s snapshot.device "stale" "message timeout"
                          now snapshot.last_received_at snapshot.last_source_timestamp
                          snapshot.device,
                      beq_self (pair_eq {A = Option ℤ} {B = String}) (device_key snapshot.device),
                    )
                    refl
              | inr x ↦ elim (Bool-cases (device_status s snapshot.device == "good")) [
                | inl g ↦ rw (e, x, g) (ground arith)
                | inr g ↦
                    rw
                      (
                        e,
                        x,
                        g,
                        device_status-publish_status_heartbeat_if_due c s snapshot.device now
                            snapshot.device,
                        g,
                      )
                      refl
              ]
            ]
    ]

stays-IsUnexpired :
    (c : Settings) (s t : State) (now : ℕ) (snapshot : Snapshot)
    → (device_status t snapshot.device ≡ "good" → device_status s snapshot.device ≡ "good")
    → IsUnexpired c s now snapshot
    → IsUnexpired c t now snapshot
stays-IsUnexpired c s t now snapshot f h =
    elim (Bool-cases (device_status t snapshot.device == "good")) [
      | inr n ↦ rw n refl
      | inl y ↦
          let before = f ((string_eq.beq_iff (device_status t snapshot.device) "good").0 y) in
          rw y (rw before at h)
    ]

refresh_each-good :
    (c : Settings) (s : State) (now : ℕ) (snapshots : List Snapshot) (d : DeviceSpec)
    → device_status (refresh_each c s now snapshots) d ≡ "good"
    → device_status s d ≡ "good"
unfolding refresh_each
refresh_each-good c s now [] d h = h
refresh_each-good c s now (snapshot ∷ snapshots) d h =
    refresh_one-good c s now snapshot d
      (refresh_each-good c (refresh_one c s now snapshot) now snapshots d h)

refresh_each-IsUnexpired :
    (c : Settings) (s : State) (now : ℕ) (snapshots : List Snapshot)
    → All (IsUnexpired c (refresh_each c s now snapshots) now) snapshots
unfolding refresh_each
refresh_each-IsUnexpired c s now [] = tt
refresh_each-IsUnexpired c s now (snapshot ∷ snapshots) =
    let next = refresh_one c s now snapshot in
    (
      stays-IsUnexpired c next (refresh_each c next now snapshots) now snapshot
          (refresh_each-good c next now snapshots snapshot.device)
          (refresh_one-IsUnexpired c s now snapshot),
      refresh_each-IsUnexpired c next now snapshots,
    )

-- The device of a snapshot is not good, had no result, or had the last one within the timeout.
pub data IsFresh (c : Settings) (s : State) (now : ℕ) (snapshot : Snapshot) : Type 0 where
  not_good : device_status s snapshot.device ≢ "good" → IsFresh c s now snapshot
  no_result : snapshot.last_received_at ≡ none → IsFresh c s now snapshot
  recent :
      (t : ℕ)
      → snapshot.last_received_at ≡ some t
      → now < t + c.stale_timeout
      → IsFresh c s now snapshot

unexpired-IsFresh :
    (c : Settings) (s : State) (now : ℕ) (snapshot : Snapshot)
    → IsUnexpired c s now snapshot
    → IsFresh c s now snapshot
unexpired-IsFresh c s now snapshot h = elim (Option-cases snapshot.last_received_at) [
  | inl none_yet ↦ no_result none_yet
  | inr (t, e) ↦ elim (Bool-cases (device_status s snapshot.device == "good")) [
    | inr n ↦
        not_good (λ g. cc ((string_eq.beq_iff (device_status s snapshot.device) "good").1 g, n))
    | inl g ↦
        let young : leb (t + c.stale_timeout) now ≡ false = rw (g, e) at h in
        recent t e (ground (arith, young))
  ]
]

-- Where the timeout is not zero, the refresh leaves a device of the cache good only if it had no result or its
-- last result is younger than the timeout.
pub refresh_stale_statuses-IsFresh :
    (c : Settings) (s : State) (now : ℕ)
    → c.stale_timeout ≢ 0
    → All (IsFresh c (refresh_stale_statuses c s now) now) (values s.latest)
unfolding refresh_stale_statuses
refresh_stale_statuses-IsFresh c s now h = elim (Bool-cases (nat_beq c.stale_timeout 0)) [
  | inl zero_timeout ↦ absurd (h (ground (arith, zero_timeout)))
  | inr set ↦ rw set (
      All-mono _ _ (values s.latest)
        (λ snapshot u. unexpired-IsFresh c (refresh_each c s now (values s.latest)) now snapshot u)
        (refresh_each-IsUnexpired c s now (values s.latest)))
]
