-- ===== src/Examples/LoggingRuns.antt =====
-- The log worker with the runtime log off.
use iot_gathering.Common.{String, true, false, not, none, some, [], ◌∷◌, ◌≡◌, refl, ◌==◌, string_eq}
use iot_gathering.Common.Dict.{Dict}
use iot_gathering.Logging.Worker.{Input, Worker, Disk, drain_all, drain_once, text_take}
use iot_gathering.Logging.Kept.{display-drain_all, drain_once-error}

abbrev quiet : Worker
quiet = record {
  debug_enabled = false;
  runtime_log_enabled = false;
  log_dir = some "log";
  error_log_dir = some "log/error";
  audit_log_dir = some "log/audit";
  display = [];
  files = [];
}

abbrev input : String → String → Input
input level text = record {
  timestamp = some "2024-05-01T10:00:00+00:00";
  level = some level;
  source = some "config";
  message = some text;
  fields = [];
}

abbrev as_is : String → String
as_is s = s

abbrev no_data : Dict String String → String
no_data d = "{}"

abbrev all_written : Disk
all_written path = true

-- The audit log cannot be written.
abbrev no_audit : Disk
no_audit path = not (path == "log/audit/industrial_gateway_audit_2024-05-01.log")

display-drain_all_example :
    (drain_all as_is as_is no_data "now" quiet
      ((input "INFO" "saved", all_written) ∷ (input "ERROR" "lost", all_written) ∷ [])).display
    ≡ "2024-05-01T10:00:00+00:00 [ERROR] [config] lost {}" ∷ []
display-drain_all_example =
    display-drain_all as_is as_is no_data "now" (λ s. refl) quiet
      ((input "INFO" "saved", all_written) ∷ (input "ERROR" "lost", all_written) ∷ [])

drain_once-error_example :
    ((drain_once as_is as_is no_data "now" quiet (input "ERROR" "lost") no_audit).display
      ≡ "2024-05-01T10:00:00+00:00 [ERROR] [config] lost {}" ∷ [])
    × ((drain_once as_is as_is no_data "now" quiet (input "ERROR" "lost") no_audit).files
        ≡ (
          "log/industrial_gateway_2024-05-01.log",
          "2024-05-01T10:00:00+00:00 [ERROR] [config] lost {}",
        )
          ∷ (
            "log/error/industrial_gateway_error_2024-05-01.log",
            "2024-05-01T10:00:00+00:00 [ERROR] [config] lost {}",
          )
          ∷ [])
unfolding text_take
drain_once-error_example =
    drain_once-error as_is as_is no_data "now" (λ s. refl) quiet (input "ERROR" "lost") no_audit
      "log" "log/error" refl refl refl refl refl

-- A worker without directories writes no file.
no_files :
    (drain_once as_is as_is no_data "now"
      (record quiet { log_dir = none; error_log_dir = none; audit_log_dir = none })
      (input "ERROR" "lost")
      all_written).files
    ≡ []
unfolding drain_once
no_files = refl
