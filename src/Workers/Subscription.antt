-- ===== src/Workers/Subscription.antt =====
-- `OpcUaSubscriptionWorker`. The driver is an argument: a session is what one turn of the outer loop of `run` meets,
-- a round what one turn of the inner loop does. The end of a list is the loop's test that finds the stop event set.
use iot_gathering.Common.{
  ℕ, ◌+◌, String, ltb, Bool, true, false, not, ◌||◌, Option, none, some, List, [], ◌∷◌, ◌++◌, keep,
  if◌then◌else◌,
}
use iot_gathering.Common.Result.{Error, text}
use iot_gathering.Models.{DeviceSpec, TagSpec, ReadResult}
use iot_gathering.Runtime.Queues.{ServerStatus}
use iot_gathering.Publisher.State.{Log}
use iot_gathering.Workers.Poller.{status_of}
use iot_gathering.Workers.Protocol.{
  Call, connect, read_server_status, start_subscription, run_subscription_once, stop_subscription,
  disconnect,
}

-- What `__init__` sets.
pub record Worker : Type 0 where
  pub device : DeviceSpec
  pub tags : List TagSpec
  pub has_log_queue : Bool
  pub has_status_outbox : Bool
  pub health_interval : ℕ
  pub retry_interval : ℕ
  pub datachange_log_enabled : Bool

-- `has_driver` is `self.driver is not None`.
pub record Subscribed : Type 0 where
  pub outbox : List ReadResult
  pub status_outbox : List ServerStatus
  pub log_queue : List Log
  pub last_health_check : ℕ
  pub has_driver : Bool
  pub subscription_started : Bool
  pub calls : List Call

abbrev pub new_worker :
    DeviceSpec
    → List TagSpec
    → (logs statuses : Bool) → (health retry : ℕ) → (datachange : Bool) → Worker
new_worker device tags logs statuses health retry datachange = record {
  device = device;
  tags = keep (λ t. t.enabled) tags;
  has_log_queue = logs;
  has_status_outbox = statuses;
  health_interval = health;
  retry_interval = retry;
  datachange_log_enabled = datachange;
}

abbrev pub new_subscribed : Subscribed
new_subscribed = record {
  outbox = [];
  status_outbox = [];
  log_queue = [];
  last_health_check = 0;
  has_driver = false;
  subscription_started = false;
  calls = [];
}

-- `emitted` is what the driver passes to `_emit_result` in the round.
pub record Round : Type 0 where
  pub emitted : List ReadResult
  pub ran : Option Error
  pub server_status : Option (Option Error)
  pub now : ℕ
  pub status_time : ℕ
  pub error_time : ℕ

-- `stopped` says whether the stop event is set after the driver is cleaned up.
pub record Session : Type 0 where
  pub factory : Option Error
  pub connected : Option Error
  pub started : Option Error
  pub initial : List ReadResult
  pub start_time : ℕ
  pub rounds : List Round
  pub stop_error : Option Error
  pub disconnect_error : Option Error
  pub stopped : Bool

abbrev pub noted : Subscribed → Call → Subscribed
noted s call = record s { calls = s.calls ++ call ∷ [] }

-- `_log`, without the data of a record
abbrev pub wrote : Worker → Subscribed → (level message : String) → Subscribed
wrote w s level message = record s {
  log_queue =
      if w.has_log_queue
      then s.log_queue ++ record { level = level; source = "driver"; log_message = message } ∷ []
      else s.log_queue;
}

-- `_emit_result`
abbrev pub emit_result : Worker → Subscribed → ReadResult → Subscribed
emit_result w s result =
    if w.datachange_log_enabled
    then wrote w (record s { outbox = s.outbox ++ result ∷ [] }) "INFO" "subscription datachange"
    else record s { outbox = s.outbox ++ result ∷ [] }

unfoldable pub emit_results : Worker → Subscribed → List ReadResult → Subscribed
emit_results w s [] = s
emit_results w s (result ∷ more) = emit_results w (emit_result w s result) more

abbrev pub put_server : Worker → Subscribed → String → ℕ → Option String → Subscribed
put_server w s status time error = record s {
  status_outbox = s.status_outbox ++ status_of w.device status time error ∷ [];
}

abbrev pub server_checked :
    Worker → Subscribed → ℕ → Option (Option Error) → Subscribed × Option Error
server_checked w s time none = (s, none)
server_checked w s time (some none) =
    (put_server w (noted s read_server_status) "OK" time none, none)
server_checked w s time (some (some e)) = (
  wrote w (put_server w (noted s read_server_status) "ERROR" time (some (text e))) "ERROR"
      "server health check failed",
  some e,
)

-- `_check_server_status`, with the exception that it raises again
unfoldable pub check_status : Worker → Subscribed → Round → Subscribed × Option Error
check_status w s r =
    if not w.has_status_outbox
      || not s.has_driver
      || ltb r.now (s.last_health_check + w.health_interval)
    then (s, none)
    else server_checked w (record s { last_health_check = r.now }) r.status_time r.server_status

-- What the two `except` branches of `run` do.
abbrev pub put_failure : Worker → Subscribed → Error → ℕ → String → Subscribed
put_failure w s e time message =
    wrote w
      (record s {
        outbox =
            s.outbox
            ++ record { device = w.device; timestamp = time; tags = []; error = some (text e) }
              ∷ [];
      })
      "ERROR" message

abbrev pub subscription_ran : Worker → Subscribed → Round → Option Error → Subscribed × Option Error
subscription_ran w s r (some e) = (s, some e)
subscription_ran w s r none = check_status w s r

-- The `try` of a round: `run_subscription_once` and the health check
unfoldable pub run_round : Worker → Subscribed → Round → Subscribed × Option Error
unfolding emit_results check_status
run_round w s r =
    subscription_ran w (emit_results w (noted s run_subscription_once) r.emitted) r r.ran

-- The inner loop, with whether a round broke off
abbrev pub after_round :
    Worker → ℕ → (Subscribed → Subscribed × Bool) → Subscribed × Option Error → Subscribed × Bool
after_round w time more (s, none) = more s
after_round w time more (s, some e) = (put_failure w s e time "subscription failed", true)

unfoldable pub run_rounds : Worker → Subscribed → List Round → Subscribed × Bool
unfolding run_round
run_rounds w s [] = (s, false)
run_rounds w s (r ∷ rounds) =
    after_round w r.error_time (λ t. run_rounds w t rounds) (run_round w s r)

-- `start_once`
abbrev pub start_answered : Worker → Subscribed → Option Error → Subscribed × Option Error
start_answered w s (some e) = (noted s (start_subscription false), some e)
start_answered w s none = (
  wrote w (record (noted s (start_subscription true)) { subscription_started = true }) "INFO"
      "subscription started",
  none,
)

abbrev pub connect_answered :
    Worker → Subscribed → Session → Option Error → Subscribed × Option Error
connect_answered w s x (some e) = (noted s (connect false), some e)
connect_answered w s x none =
    start_answered w (emit_results w (noted s (connect true)) x.initial) x.started

abbrev pub factory_answered :
    Worker → Subscribed → Session → Option Error → Subscribed × Option Error
factory_answered w s x (some e) = (s, some e)
factory_answered w s x none = connect_answered w (record s { has_driver = true }) x x.connected

unfoldable pub start_once : Worker → Subscribed → Session → Subscribed × Option Error
unfolding emit_results
start_once w s x = factory_answered w s x x.factory

abbrev pub if_error : Worker → Subscribed → Option Error → String → Subscribed
if_error w s none message = s
if_error w s (some e) message = wrote w s "ERROR" message

abbrev pub stop_if : Worker → Subscribed → Option Error → Bool → Subscribed
stop_if w s e false = s
stop_if w s e true = if_error w (noted s stop_subscription) e "subscription stop failed"

abbrev pub disconnect_if : Worker → Subscribed → Option Error → Bool → Subscribed
disconnect_if w s e false = s
disconnect_if w s e true = if_error w (noted s disconnect) e "subscription disconnect failed"

-- `_cleanup_driver`
unfoldable pub cleanup_driver : Worker → Subscribed → Session → Subscribed
cleanup_driver w s x =
    disconnect_if w (if s.has_driver then stop_if w s x.stop_error s.subscription_started else s)
      x.disconnect_error s.has_driver

-- The `try` of the outer loop, with whether it ends other than by the stop event
abbrev pub after_start : Worker → Session → Subscribed × Option Error → Subscribed × Bool
after_start w x (s, some e) = (put_failure w s e x.start_time "subscription start failed", true)
after_start w x (s, none) = run_rounds w s x.rounds

unfoldable pub run_session : Worker → Subscribed → Session → Subscribed × Bool
unfolding start_once run_rounds
run_session w s x =
    after_start w x (start_once w (record s { has_driver = false; subscription_started = false }) x)

-- `run`
abbrev pub after_session :
    Worker → Session → (Subscribed → Subscribed) → Subscribed × Bool → Subscribed
after_session w x more (s, false) = cleanup_driver w s x
after_session w x more (s, true) =
    if x.stopped
    then cleanup_driver w s x
    else more (wrote w (cleanup_driver w s x) "INFO" "subscription retrying")

unfoldable pub run_sessions : Worker → Subscribed → List Session → Subscribed
unfolding run_session cleanup_driver
run_sessions w s [] = s
run_sessions w s (x ∷ sessions) =
    after_session w x (λ t. run_sessions w t sessions) (run_session w s x)
