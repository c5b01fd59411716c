-- ===== src/Runtime/Restarting.antt =====
-- `start` and then `stop`.
use iot_gathering.Common.{
  ℕ, suc, ℤ, String, Bool, true, false, Option, none, some, List, [], ◌++◌, map, ◌≡◌, refl, arith,
  if◌then◌else◌, nat_eq, beq_self, string_eq,
}
use iot_gathering.Common.Values.{Conversions}
use iot_gathering.Common.Result.{Result, ok, err}
use iot_gathering.Models.{MqttConfig, SinkConfig}
use iot_gathering.Store.Tables.{Store}
use iot_gathering.Store.Configs.{get_sink_config, list_devices}
use iot_gathering.Publisher.Messages.{OutputRoute}
use iot_gathering.Runtime.Registry.{Registry}
use iot_gathering.Runtime.Starting.{output_routes}
use iot_gathering.Config.Resolving.{Resolver, Resolved}
use iot_gathering.Runtime.Threads.{
  Thread, Runtime, PublisherSettings, new_thread, reset, start_publisher, start_topic_refresh,
  start_topic_responder, no_workers, start_workers,
}
use iot_gathering.Runtime.Lifecycle.{
  one_thread, with_routes, to_publisher, refreshed, refresh_dynamic_route_topics, topic_log,
  settings_of, no_refresh, is_refresh_wanted, begin_start, launched, with_message_config, with_sink,
  after_refresh, start, stop,
}
use iot_gathering.Runtime.Tracking.{
  holds, holds-append, AreSettled, AreSettled-wider, started-AreSettled, threads_of, IsTracked,
  IsStarted, start_workers-IsStarted, held_apart,
}
use iot_gathering.Runtime.Stopping.{stop-AreSettled}

-- The threads of the manager itself.
start_publisher-AreSettled :
    (settings : PublisherSettings) (routes : List OutputRoute) (m : Runtime)
    → AreSettled [] m.events
    → AreSettled (one_thread (some (new_thread m))) (start_publisher settings routes m).events
unfolding holds
start_publisher-AreSettled settings routes m h =
    started-AreSettled m [] (one_thread (some (new_thread m))) (λ n k. absurd (cc k))
      (ground (arith, beq_self nat_eq (suc m.last_thread))) h

start_topic_refresh-AreSettled :
    (none_wanted : Bool) (m : Runtime)
    → AreSettled (one_thread m.publisher) m.events
    → AreSettled
        (one_thread (start_topic_refresh none_wanted m).publisher
          ++ one_thread (start_topic_refresh none_wanted m).topic_refresh_thread)
        (start_topic_refresh none_wanted m).events
unfolding holds
start_topic_refresh-AreSettled true m h =
    AreSettled-wider (one_thread m.publisher)
      (one_thread m.publisher ++ one_thread m.topic_refresh_thread) m.events
      (λ n k.
        ground (arith, holds-append n (one_thread m.publisher) (one_thread m.topic_refresh_thread)))
      h
start_topic_refresh-AreSettled false m h =
    started-AreSettled m (one_thread m.publisher) _
      (λ n k.
        ground (arith, holds-append n (one_thread m.publisher) (one_thread (some (new_thread m)))))
      (ground (
        arith,
        holds-append (suc m.last_thread) (one_thread m.publisher)
            (one_thread (some (new_thread m))),
        beq_self nat_eq (suc m.last_thread),
      ))
      h

start_topic_responder-AreSettled :
    (enabled : Bool) (m : Runtime)
    → AreSettled (one_thread m.publisher ++ one_thread m.topic_refresh_thread) m.events
    → AreSettled
        (threads_of (no_workers (start_topic_responder enabled m)))
        (start_topic_responder enabled m).events
unfolding holds
start_topic_responder-AreSettled true m h =
    let t = one_thread (some (new_thread m)) in
    started-AreSettled m (one_thread m.publisher ++ one_thread m.topic_refresh_thread)
      (one_thread m.publisher ++ t ++ one_thread m.topic_refresh_thread ++ [] ++ [])
      (λ n k. ground (
        arith,
        holds-append n (one_thread m.publisher) (one_thread m.topic_refresh_thread),
        held_apart n (one_thread m.publisher) t (one_thread m.topic_refresh_thread) [] [],
      ))
      (ground (
        arith,
        held_apart (suc m.last_thread) (one_thread m.publisher) t
            (one_thread m.topic_refresh_thread) [] [],
        beq_self nat_eq (suc m.last_thread),
      ))
      h
start_topic_responder-AreSettled false m h =
    AreSettled-wider (one_thread m.publisher ++ one_thread m.topic_refresh_thread)
      (one_thread m.publisher ++ [] ++ one_thread m.topic_refresh_thread ++ [] ++ []) m.events
      (λ n k. ground (
        arith,
        holds-append n (one_thread m.publisher) (one_thread m.topic_refresh_thread),
        held_apart n (one_thread m.publisher) [] (one_thread m.topic_refresh_thread) [] [],
      ))
      h

-- What `start` ends with.
abbrev IsLaunched : (Runtime × Store) × Result (Unit {0}) → Type 0
IsLaunched ((m, s), err e) = Unit
IsLaunched ((m, s), ok done) = IsTracked m

if-IsLaunched :
    (b : Bool) (x y : (Runtime × Store) × Result (Unit {0}))
    → b ≡ false
    → IsLaunched y
    → IsLaunched (if b then x else y)
if-IsLaunched true x y h k = absurd (cc h)
if-IsLaunched false x y h k = k

ran-IsLaunched :
    (s : Store) (ran : Runtime × Result (Unit {0})) → IsStarted ran → IsLaunched ((ran.0, s), ran.1)
ran-IsLaunched s (m, err e) h = tt
ran-IsLaunched s (m, ok done) h = h

module _ (c : Conversions) (id_text : ℤ → String) (resolver : Resolver) (now : String)
    (micros : ℕ → ℕ) where
  with_routes-events :
      (m : Runtime) (s : Store) (r : Result (List OutputRoute))
      → (with_routes c id_text resolver now micros m s r).0.0.events ≡ m.events
  with_routes-events m s (err e) = refl
  with_routes-events m s (ok routes) = refl

  to_publisher-events :
      (m : Runtime) (s : Store) (o : Option Thread)
      → (to_publisher c id_text resolver now micros m s o).0.0.events ≡ m.events
  to_publisher-events m s none = refl
  to_publisher-events m s (some p) = with_routes-events m s (output_routes c micros s)

  refreshed-events :
      (m : Runtime) (r : Store × Result (List Resolved))
      → (refreshed c id_text resolver now micros m r).0.0.events ≡ m.events
  refreshed-events m (s, err e) = refl
  refreshed-events m (s, ok results) =
      to_publisher-events (record m { topic_logs = m.topic_logs ++ map topic_log results }) s
        m.publisher

  refresh-events :
      (m : Runtime) (s : Store) (wanted : Bool)
      → (if wanted
          then refresh_dynamic_route_topics c id_text resolver now micros m s
          else ((m, s), ok tt)).0.0.events
        ≡ m.events
  unfolding refresh_dynamic_route_topics
  refresh-events m s true = refreshed-events m _
  refresh-events m s false = refl

  module _ {ℓ κ} {T : Type ℓ} {U : Type κ} (drivers : Registry T) (sinks : Registry U)
      (responder : Bool) where
    launched-IsLaunched :
        (sink : SinkConfig) (config : MqttConfig) (m : Runtime) (s : Store)
        (r : Result (List OutputRoute))
        → AreSettled [] m.events
        → IsLaunched
            (launched c id_text resolver now micros drivers sinks responder sink config m s r)
    launched-IsLaunched sink config m s (err e) h = tt
    launched-IsLaunched sink config m s (ok routes) h =
        let settings =
          settings_of c id_text resolver now micros drivers sinks responder sink config in
        let p = start_publisher settings routes m in
        let q =
          start_topic_refresh
            (no_refresh c id_text resolver now micros drivers sinks responder sink) p in
        let all = no_workers (start_topic_responder responder q) in
        ran-IsLaunched s (start_workers drivers all (list_devices s)) (
          start_workers-IsStarted drivers all (list_devices s) (
            start_topic_responder-AreSettled responder q (
              start_topic_refresh-AreSettled _ p (start_publisher-AreSettled settings routes m h))))

    with_message_config-IsLaunched :
        (sink : SinkConfig) (m : Runtime) (s : Store) (r : Result MqttConfig)
        → AreSettled [] m.events
        → IsLaunched
            (with_message_config c id_text resolver now micros drivers sinks responder sink m s r)
    with_message_config-IsLaunched sink m s (err e) h = tt
    with_message_config-IsLaunched sink m s (ok config) h = launched-IsLaunched sink config m s _ h

    with_sink-IsLaunched :
        (sink : SinkConfig) (m : Runtime) (s : Store) (r : Result U)
        → AreSettled [] m.events
        → IsLaunched (with_sink c id_text resolver now micros drivers sinks responder sink m s r)
    with_sink-IsLaunched sink m s (err e) h = tt
    with_sink-IsLaunched sink m s (ok sink_class) h = with_message_config-IsLaunched sink m s _ h

    after_refresh-IsLaunched :
        (sink : SinkConfig) (r : (Runtime × Store) × Result (Unit {0}))
        → AreSettled [] r.0.0.events
        → IsLaunched (after_refresh c id_text resolver now micros drivers sinks responder sink r)
    after_refresh-IsLaunched sink ((m, s), err e) h = tt
    after_refresh-IsLaunched sink ((m, s), ok done) h = with_sink-IsLaunched sink m s _ h

    -- What `stop` leaves, where `start` has returned.
    stop-IsLaunched :
        (r : (Runtime × Store) × Result (Unit {0}))
        → IsLaunched r
        → r.1 ≡ ok tt
        → AreSettled [] (stop r.0.0).events
    stop-IsLaunched ((m, s), err e) h k = absurd (cc k)
    stop-IsLaunched ((m, s), ok done) h k = stop-AreSettled m h

    begin_start-IsLaunched :
        (m : Runtime) (s : Store)
        → AreSettled [] m.events
        → IsLaunched (begin_start c id_text resolver now micros drivers sinks responder m s)
    begin_start-IsLaunched m s h = after_refresh-IsLaunched (get_sink_config s none) _ (
        rw
          (refresh-events m s
            (is_refresh_wanted c id_text resolver now micros (get_sink_config s none)))
          h)

    -- Where no threads run, those that were started before are joined, and `start` returns without an exception, then
    -- `stop` joins every thread that `start` started: the publisher, the one that refreshes the topics, the
    -- responder, and the poller or the subscription worker of each device.
    pub stop-start-AreSettled :
        (m : Runtime) (s : Store) (health : Option ℤ) (log : Option Bool)
        → m.running ≡ false
        → AreSettled [] m.events
        → (start c id_text resolver now micros drivers sinks responder m s health log).1 ≡ ok tt
        → AreSettled []
            (stop
              (start c id_text resolver now micros drivers sinks responder m s health
                log).0.0).events
    unfolding start
    stop-start-AreSettled m s health log stopped h k =
        stop-IsLaunched (start c id_text resolver now micros drivers sinks responder m s health log)
          (if-IsLaunched m.running ((m, s), ok tt) _ stopped
            (begin_start-IsLaunched (reset s health log m) s h))
          k
