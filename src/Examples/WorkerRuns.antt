-- ===== src/Examples/WorkerRuns.antt =====
-- A poller and a subscription worker of one device, with a driver that fails now and then.
use iot_gathering.Common.{
  pos, true, false, none, some, [], ◌∷◌, ◌≡◌, ◌≤◌, ◌+◌, ◌*◌, refl, length, string_eq,
}
use iot_gathering.Common.Json.{int}
use iot_gathering.Common.Result.{runtime_error, ok, err}
use iot_gathering.Models.{DeviceSpec, good, TagResult}
use iot_gathering.Workers.Protocol.{closed, nothing, Leads}
use iot_gathering.Workers.Poller.{
  Poller, new_poller, new_pollings, Answers, poll_once, check_server_status, run,
}
use iot_gathering.Workers.Polling.{run-report, run-calls}
use iot_gathering.Workers.Rate.{run-IsRated}
use iot_gathering.Workers.Subscription.{
  Worker, new_worker, new_subscribed, Round, Session, run_sessions,
}
use iot_gathering.Workers.Closing.{run_sessions-calls}

abbrev plc : DeviceSpec
plc = record {
  id = some (pos 1);
  name = "plc";
  driver_type = "opcua";
  enabled = true;
  poll_interval_ms = pos 1000;
  device_group = "";
  connection = [];
}

abbrev level : TagResult
level = record {
  name = "level";
  address = pos 0;
  value = int (pos 4);
  quality = good;
  error = none;
  timestamp = 7;
  node_id = none;
  tag_group = "";
}

abbrev poller : Poller
poller = new_poller plc [] true true 10

abbrev good_poll : Answers
good_poll = record {
  factory = none;
  connected = none;
  server_status = some none;
  tag_results = ok (level ∷ []);
  disconnected = some (runtime_error "gone");
  timestamp = 7;
  status_time = 7;
  now = 20;
}

abbrev refused_poll : Answers
refused_poll = record {
  factory = none;
  connected = some (runtime_error "refused");
  server_status = none;
  tag_results = err (runtime_error "not connected");
  disconnected = none;
  timestamp = 8;
  status_time = 8;
  now = 21;
}

run-report_example :
    ((run poller new_pollings (good_poll ∷ refused_poll ∷ [])).0.outbox
      ≡ record { device = plc; timestamp = 7; tags = level ∷ []; error = none }
        ∷ record { device = plc; timestamp = 8; tags = []; error = some "refused" }
        ∷ [])
    × ((run poller new_pollings (good_poll ∷ refused_poll ∷ [])).1 ≡ none)
run-report_example =
    run-report poller new_pollings (good_poll ∷ refused_poll ∷ []) (refl, (refl, tt))

run-calls_example :
    Leads closed (run poller new_pollings (good_poll ∷ refused_poll ∷ [])).0.calls closed
run-calls_example = run-calls poller new_pollings (good_poll ∷ refused_poll ∷ []) nothing

run-IsRated_example :
    length (run poller new_pollings (good_poll ∷ good_poll ∷ [])).0.status_outbox * 10 + 0
    ≤ (run poller new_pollings (good_poll ∷ good_poll ∷ [])).0.last_health_check + 0
run-IsRated_example = run-IsRated poller new_pollings (good_poll ∷ good_poll ∷ [])

-- The second poll comes too early for the status of the server.
one_status : length (run poller new_pollings (good_poll ∷ good_poll ∷ [])).0.status_outbox ≡ 1
unfolding run poll_once check_server_status
one_status = refl

abbrev worker : Worker
worker = new_worker plc [] true true 10 10 true

abbrev failing_round : Round
failing_round = record {
  emitted = record { device = plc; timestamp = 7; tags = level ∷ []; error = none } ∷ [];
  ran = some (runtime_error "lost");
  server_status = none;
  now = 20;
  status_time = 7;
  error_time = 9;
}

abbrev lost_session : Session
lost_session = record {
  factory = none;
  connected = none;
  started = none;
  initial = [];
  start_time = 5;
  rounds = failing_round ∷ [];
  stop_error = some (runtime_error "lost");
  disconnect_error = none;
  stopped = false;
}

abbrev refused_session : Session
refused_session = record lost_session { connected = some (runtime_error "refused"); stopped = true }

run_sessions-calls_example :
    Leads closed
      (run_sessions worker new_subscribed (lost_session ∷ refused_session ∷ [])).calls
      closed
run_sessions-calls_example =
    run_sessions-calls worker new_subscribed (lost_session ∷ refused_session ∷ []) nothing
