-- ===== src/Publisher/Outcome.antt =====
-- Which status a device has after a result.
use iot_gathering.Common.{
  ℕ, String, ℤ, true, false, Bool-cases, not, ◌||◌, none, some, List, [], ◌∷◌, ◌≡◌, refl, ap, ◌∙◌,
  inl, inr, arith, any, is_nil, ◌==◌, if◌then◌else◌, string_eq, int_eq, option_eq, pair_eq,
}
use iot_gathering.Common.Text.{or_text}
use iot_gathering.Common.Dict.{get}
use iot_gathering.Models.{DeviceSpec, TagResult, ReadResult}
use iot_gathering.Runtime.Queues.{has_text}
use iot_gathering.Publisher.Messages.{is_good_tag}
use iot_gathering.Publisher.State.{device_key, State, Settings, status_name, device_status}
use iot_gathering.Publisher.Rounds.{
  report_tag, report_tags, put_snapshot, is_bad_tag, result_status, cache_result, take_result,
  error_text,
}
use iot_gathering.Publisher.Statuses.{device_status-set_device_status}

-- The status that a result is to give its device.
unfoldable pub outcome : ReadResult → String
outcome result =
    if has_text result.error
    then "disconnected"
    else if is_nil result.tags || any is_good_tag result.tags
    then "good"
    else "bad"

report-keeps :
    (s : State) (device : DeviceSpec) (tag : TagResult)
    → (report_tag s device tag).device_statuses ≡ s.device_statuses
report-keeps s device tag = elim (Bool-cases (is_good_tag tag)) [
  | inl e ↦ rw e refl
  | inr e ↦ rw e refl
]

device_statuses-report_tags :
    (s : State) (device : DeviceSpec) (tags : List TagResult)
    → (report_tags s device tags).device_statuses ≡ s.device_statuses
unfolding report_tags
device_statuses-report_tags s device [] = refl
device_statuses-report_tags s device (tag ∷ tags) =
    device_statuses-report_tags (report_tag s device tag) device tags ∙ report-keeps s device tag

-- A row of tags has a good one or a bad one, or is empty.
bad_found :
    (tags : List TagResult) → any is_good_tag tags ≡ false → any is_bad_tag tags ≡ not (is_nil tags)
bad_found [] h = refl
bad_found (tag ∷ tags) h = ground arith

status-result_status :
    (result : ReadResult)
    → has_text result.error ≡ false
    → or_text (result_status result.tags).0 "unknown" ≡ outcome result
unfolding outcome
status-result_status result h = elim (Bool-cases (any is_good_tag result.tags)) [
  | inl g ↦ elim (Bool-cases (is_nil result.tags)) [
    | inl n ↦ rw (h, g, n) refl
    | inr n ↦ rw (h, g, n) refl
  ]
  | inr g ↦ elim (Bool-cases (is_nil result.tags)) [
    | inl n ↦ rw (h, g, bad_found result.tags g, n) refl
    | inr n ↦ rw (h, g, bad_found result.tags g, n) refl
  ]
]

disconnected-outcome :
    (result : ReadResult) → has_text result.error ≡ true → "disconnected" ≡ outcome result
unfolding outcome
disconnected-outcome result e = rw e refl

-- After a result its device is disconnected if the result has an error, good if it has a good tag or no tags,
-- and bad otherwise; every other device has the status that it had.
pub take_result-outcome :
    (address_text : ℤ → String) (c : Settings) (s : State) (result : ReadResult) (now : ℕ)
    (d : DeviceSpec)
    → device_status (take_result address_text c s result now) d
      ≡ (if device_key result.device == device_key d then outcome result else device_status s d)
unfolding take_result cache_result
take_result-outcome address_text c s result now d = elim (Bool-cases (has_text result.error)) [
  | inl e ↦ rw e (
      device_status-set_device_status c _ result.device "disconnected" (error_text result.error) now
        none none d
      ∙ ap (λ n. if device_key result.device == device_key d then n else device_status s d)
          (disconnected-outcome result e))
  | inr e ↦ rw e (
      device_status-set_device_status c
        (report_tags (put_snapshot address_text s result now) result.device result.tags)
        result.device (result_status result.tags).0 (result_status result.tags).1 now (some now)
        (some result.timestamp) d
      ∙ ap
          (λ n.
            if device_key result.device == device_key d
            then n
            else device_status
                (report_tags (put_snapshot address_text s result now) result.device result.tags) d)
          (status-result_status result e)
      ∙ ap
          (λ m.
            if device_key result.device == device_key d
            then outcome result
            else status_name (get m (device_key d)))
          (device_statuses-report_tags (put_snapshot address_text s result now) result.device
            result.tags))
]
