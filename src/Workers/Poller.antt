-- ===== src/Workers/Poller.antt =====
-- `DriverPoller`. The driver is an argument: what its calls answer in one poll. A queue is the list of what
-- was put there; a time is a number of microseconds. A driver that cannot be made is an exception of
-- `poll_once`, which ends the thread.
use iot_gathering.Common.{
  ℕ, ◌+◌, String, ltb, Bool, true, false, not, ◌||◌, Option, none, some, List, [], ◌∷◌, ◌++◌, keep,
  ◌==◌, if◌then◌else◌, string_eq,
}
use iot_gathering.Common.Result.{Error, text, Result, ok, err}
use iot_gathering.Models.{DeviceSpec, TagSpec, TagResult, ReadResult}
use iot_gathering.Runtime.Queues.{ServerStatus}
use iot_gathering.Publisher.State.{Log}
use iot_gathering.Workers.Protocol.{Call, connect, read_server_status, read_tags, disconnect}

-- What `__init__` sets.
pub record Poller : Type 0 where
  pub device : DeviceSpec
  pub tags : List TagSpec
  pub has_log_queue : Bool
  pub has_status_outbox : Bool
  pub health_interval : ℕ

pub record Pollings : Type 0 where
  pub outbox : List ReadResult
  pub status_outbox : List ServerStatus
  pub log_queue : List Log
  pub last_health_check : ℕ
  pub calls : List Call

abbrev pub new_poller : DeviceSpec → List TagSpec → (logs statuses : Bool) → ℕ → Poller
new_poller device tags logs statuses interval = record {
  device = device;
  tags = keep (λ t. t.enabled) tags;
  has_log_queue = logs;
  has_status_outbox = statuses;
  health_interval = interval;
}

abbrev pub new_pollings : Pollings
new_pollings = record {
  outbox = [];
  status_outbox = [];
  log_queue = [];
  last_health_check = 0;
  calls = [];
}

-- One poll: the errors of `driver_factory`, `connect` and `disconnect`, what `read_tags` gives, and the
-- error of `read_server_status` where the driver has that method; `now` is the monotonic clock.
pub record Answers : Type 0 where
  pub factory : Option Error
  pub connected : Option Error
  pub server_status : Option (Option Error)
  pub tag_results : Result (List TagResult)
  pub disconnected : Option Error
  pub timestamp : ℕ
  pub status_time : ℕ
  pub now : ℕ

abbrev pub called : Pollings → Call → Pollings
called s call = record s { calls = s.calls ++ call ∷ [] }

-- `_log`, without the data of a record
abbrev pub logged : Poller → Pollings → (level message : String) → Pollings
logged p s level message = record s {
  log_queue =
      if p.has_log_queue
      then s.log_queue ++ record { level = level; source = "driver"; log_message = message } ∷ []
      else s.log_queue;
}

-- `_server_status`
abbrev pub status_of : DeviceSpec → String → ℕ → Option String → ServerStatus
status_of device status time error = record {
  device = device.name;
  status = status;
  timestamp = time;
  error = error;
}

abbrev pub put_status_of : Poller → Pollings → String → ℕ → Option String → Pollings
put_status_of p s status time error = record s {
  status_outbox = s.status_outbox ++ status_of p.device status time error ∷ [];
}

abbrev pub server_answered : Poller → Pollings → ℕ → Option (Option Error) → Pollings
server_answered p s time none = s
server_answered p s time (some none) = put_status_of p (called s read_server_status) "OK" time none
server_answered p s time (some (some e)) =
    logged p (put_status_of p (called s read_server_status) "ERROR" time (some (text e))) "ERROR"
      "server health check failed"

abbrev pub is_checked : Poller → Pollings → ℕ → Bool
is_checked p s now = not (
    not p.has_status_outbox
    || not (p.device.driver_type == "opcua")
    || ltb now (s.last_health_check + p.health_interval))

-- `_check_server_status`, which keeps the exception of the server to itself.
unfoldable pub check_server_status : Poller → Pollings → Answers → Pollings
check_server_status p s a =
    if is_checked p s a.now
    then server_answered p (record s { last_health_check = a.now }) a.status_time a.server_status
    else s

abbrev pub put_read : Pollings → ReadResult → Pollings
put_read s result = record s { outbox = s.outbox ++ result ∷ [] }

abbrev pub read_failed : Poller → Pollings → Answers → Error → Pollings
read_failed p s a e =
    logged p
      (put_read s
        (record { device = p.device; timestamp = a.timestamp; tags = []; error = some (text e) }))
      "ERROR" "driver read failed"

abbrev pub tags_answered : Poller → Pollings → Answers → Result (List TagResult) → Pollings
tags_answered p s a (err e) = read_failed p s a e
tags_answered p s a (ok tags) =
    logged p
      (put_read s
        (record { device = p.device; timestamp = a.timestamp; tags = tags; error = none }))
      "DEBUG" "driver read completed"

abbrev pub connect_answered : Poller → Pollings → Answers → Option Error → Pollings
connect_answered p s a (some e) = read_failed p (called s (connect false)) a e
connect_answered p s a none =
    tags_answered p (called (check_server_status p (called s (connect true)) a) read_tags) a
      a.tag_results

abbrev pub disconnect_answered : Poller → Pollings → Option Error → Pollings
disconnect_answered p s none = called s disconnect
disconnect_answered p s (some e) = logged p (called s disconnect) "ERROR" "driver disconnect failed"

abbrev pub made_driver : Poller → Pollings → Answers → Option Error → Pollings × Option Error
made_driver p s a (some e) = (s, some e)
made_driver p s a none =
    (disconnect_answered p (connect_answered p s a a.connected) a.disconnected, none)

-- `poll_once`, with the exception that it raises
unfoldable pub poll_once : Poller → Pollings → Answers → Pollings × Option Error
unfolding check_server_status
poll_once p s a = made_driver p s a a.factory

-- `run`, for the polls that it makes before `stop`
abbrev pub next_poll :
    (Pollings → Pollings × Option Error) → Pollings × Option Error → Pollings × Option Error
next_poll more (s, some e) = (s, some e)
next_poll more (s, none) = more s

unfoldable pub run : Poller → Pollings → List Answers → Pollings × Option Error
unfolding poll_once
run p s [] = (s, none)
run p s (a ∷ polls) = next_poll (λ t. run p t polls) (poll_once p s a)
