-- ===== src/Runtime/Threads.antt =====
-- `RuntimeManager`: its threads and how each is started. A thread is a number and what it does; `events` are the
-- calls of its `start`, `stop` and `join`, which do not raise.
use iot_gathering.Common.{
  ℕ, suc, ℤ, String, Bool, true, false, Option, none, some, List, [], ◌∷◌, ◌++◌, if◌then◌else◌,
  string_eq,
}
use iot_gathering.Common.Dict.{Dict}
use iot_gathering.Common.Result.{Result, ok, err}
use iot_gathering.Models.{DeviceSpec, MqttConfig}
use iot_gathering.Store.Tables.{Store}
use iot_gathering.Store.Configs.{list_devices, list_tags}
use iot_gathering.Publisher.Messages.{OutputRoute}
use iot_gathering.Runtime.Queues.{ReadQueue, TagUpdate}
use iot_gathering.Runtime.Manager.{Manager, initial_runtime_tags}
use iot_gathering.Runtime.Registry.{Registry, get_item}
use iot_gathering.Runtime.Starting.{uses_subscription_worker}
use iot_gathering.Config.Devices.{id_or_zero}

pub record Thread : Type 0 where
  pub number : ℕ
  pub health_interval : ℤ

-- What the publisher is made with, but for its routes; an interval is a float.
pub record PublisherSettings : Type 0 where
  pub mqtt_config : MqttConfig
  pub plugin_type : String
  pub stale_timeout : ℕ
  pub status_publish_interval : ℕ

pub data ThreadEvent : Type 0 where
  starts stops joins : ℕ → ThreadEvent

pub record Runtime : Type 0 where
  pub running : Bool
  pub health_interval : ℤ
  pub runtime_log_enabled : Bool
  pub result_queue : ReadQueue
  pub manager : Manager
  pub pollers : List Thread
  pub subscription_workers : List Thread
  pub publisher : Option Thread
  pub publisher_routes : List OutputRoute
  pub publisher_settings : Option PublisherSettings
  pub topic_responder : Option Thread
  pub topic_refresh_thread : Option Thread
  pub topic_refresh_stopped : Bool
  pub topic_logs : List (String × String)
  pub last_thread : ℕ
  pub events : List ThreadEvent

-- A thread that is made and started.
abbrev pub new_thread : Runtime → Thread
new_thread m = record { number = suc m.last_thread; health_interval = m.health_interval }

abbrev pub start_thread : Runtime → Runtime
start_thread m = record m {
  last_thread = suc m.last_thread;
  events = m.events ++ starts (suc m.last_thread) ∷ [];
}

-- `_clear_queue` of the two queues, and the rows that are shown at first
abbrev pub cleared : Manager → Dict (String × String) TagUpdate → Manager
cleared m rows = record m {
  status_queue = record { items = []; sequence = m.status_queue.sequence };
  runtime_tags = rows;
  server_statuses = [];
}

abbrev pub or_given {ℓ} : {A : Type ℓ} → Option A → A → A
or_given none a = a
or_given (some b) a = b

-- What `start` resets.
abbrev pub reset : Store → Option ℤ → Option Bool → Runtime → Runtime
reset s health log m = record m {
  health_interval = or_given health m.health_interval;
  runtime_log_enabled = or_given log m.runtime_log_enabled;
  topic_refresh_stopped = false;
  result_queue = [];
  manager =
      cleared m.manager
        (initial_runtime_tags (λ d. list_tags s (id_or_zero d.id)) [] (list_devices s));
}

abbrev pub start_publisher : PublisherSettings → List OutputRoute → Runtime → Runtime
start_publisher settings routes m = record (start_thread m) {
  publisher = some (new_thread m);
  publisher_settings = some settings;
  publisher_routes = routes;
}

-- `_start_topic_refresh_thread`
abbrev pub start_topic_refresh : Bool → Runtime → Runtime
start_topic_refresh none_wanted m = if none_wanted then m else record (start_thread m) {
  topic_refresh_stopped = false;
  topic_refresh_thread = some (new_thread m);
}

abbrev pub start_topic_responder : Bool → Runtime → Runtime
start_topic_responder enabled m =
    if enabled
    then record (start_thread m) { topic_responder = some (new_thread m) }
    else record m { topic_responder = none }

abbrev pub no_workers : Runtime → Runtime
no_workers m = record m { pollers = []; subscription_workers = [] }

abbrev pub start_worker : DeviceSpec → Runtime → Runtime
start_worker device m =
    if uses_subscription_worker device
    then record (start_thread m) {
      subscription_workers = m.subscription_workers ++ new_thread m ∷ [];
    }
    else record (start_thread m) { pollers = m.pollers ++ new_thread m ∷ [] }

-- The loop over the devices: a driver type that is not registered raises.
module _ {ℓ} {T : Type ℓ} (drivers : Registry T) where
  abbrev pub with_driver :
      (Runtime → Runtime × Result (Unit {0}))
      → Runtime
      → DeviceSpec
      → Result T
      → Runtime × Result (Unit {0})
  with_driver more m device (err e) = (m, err e)
  with_driver more m device (ok driver) = more (start_worker device m)

  unfoldable pub start_workers : Runtime → List DeviceSpec → Runtime × Result (Unit {0})
  unfolding get_item
  start_workers m [] = (record m { running = true }, ok tt)
  start_workers m (device ∷ devices) =
      let rest = start_workers m devices in
      if device.enabled
      then with_driver (λ t. start_workers t devices) m device (get_item drivers device.driver_type)
      else rest
