-- ===== src/Examples/RuntimeRuns.antt =====
-- The two queues of the runtime manager at concrete results and statuses.
use iot_gathering.Common.{
  String, arith, ℤ, pos, true, none, some, [], ◌∷◌, ◌++◌, ◌≡◌, refl, string_eq, int_eq, option_eq,
  pair_eq,
}
use iot_gathering.Common.Json.{int}
use iot_gathering.Common.Dict.{get, Distinct, values}
use iot_gathering.Models.{DeviceSpec, TagResult, good, ReadResult}
use iot_gathering.Runtime.Queues.{
  ReadKey, get_result, StatusQueue, message, put_status, ServerStatus, server_status, server_key,
}
use iot_gathering.Runtime.Latest.{
  or_else, last_for, put_results, split_all, put_results-last_for, IsTaken, get_result-IsTaken,
}
use iot_gathering.Runtime.Manager.{Manager, drain_events}
use iot_gathering.Runtime.Draining.{IsDrained, drain_events-IsDrained}
use iot_gathering.Runtime.Waiting.{texts, texts_of, IsNumbered, put_status-texts}

abbrev meter : DeviceSpec
meter = record {
  id = some (pos 1);
  name = "meter";
  driver_type = "modbus_tcp";
  enabled = true;
  poll_interval_ms = pos 1000;
  device_group = "";
  connection = [];
}

abbrev reading : String → ℤ → TagResult
reading name value = record {
  name = name;
  address = pos 0;
  value = int value;
  quality = good;
  error = none;
  timestamp = 5;
  node_id = none;
  tag_group = "";
}

abbrev two_tags : ReadResult
two_tags = record {
  device = meter;
  timestamp = 5;
  tags = reading "a" (pos 1) ∷ reading "b" (pos 2) ∷ [];
  error = none;
}

abbrev newer : ReadResult
newer = record { device = meter; timestamp = 6; tags = reading "a" (pos 3) ∷ []; error = none }

abbrev key_a : ReadKey
key_a = ((some (pos 1), ("", "meter")), some ("", "a"))

put_results-last_for_example :
    (get (put_results [] (two_tags ∷ newer ∷ [])) key_a
      ≡ or_else (last_for key_a (split_all (two_tags ∷ newer ∷ []))) (get [] key_a))
    × Distinct (put_results [] (two_tags ∷ newer ∷ []))
put_results-last_for_example = put_results-last_for [] (two_tags ∷ newer ∷ []) key_a tt

newer_taken : get_result ((key_a, newer) ∷ []) ≡ some (newer, [])
unfolding get_result
newer_taken = refl

get_result-IsTaken_example : IsTaken ((key_a, newer) ∷ []) newer []
unfolding get
get_result-IsTaken_example =
    get_result-IsTaken ((key_a, newer) ∷ []) newer [] (refl, tt) newer_taken

-- A message waits, and the status of a server comes twice.
abbrev server : ServerStatus
server = record { device = "meter"; status = "OK"; timestamp = 7; error = none }

abbrev waiting : StatusQueue
waiting = record { items = (server_key "meter", server_status server) ∷ []; sequence = 4 }

put_status-texts_example :
    (texts (values (put_status waiting (message "started")).items)
      ≡ texts (values waiting.items) ++ texts_of (message "started"))
    × IsNumbered (put_status waiting (message "started"))
put_status-texts_example = put_status-texts waiting (message "started") (refl, tt)

abbrev idle : Manager
idle = record { status_queue = waiting; runtime_tags = []; server_statuses = []; logs = [] }

drain_events-IsDrained_example :
    IsDrained idle ("started" ∷ []) (drain_events 1000 idle ("started" ∷ []))
drain_events-IsDrained_example =
    drain_events-IsDrained 1000 idle ("started" ∷ []) (omega arith) (omega arith)
