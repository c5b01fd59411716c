-- ===== src/TopicExchange/Running.antt =====
-- `TopicResponder.run`: the rounds in which the mapping is read again and the messages that arrive between them.
use iot_gathering.Common.{String, true, Option, none, some, List, [], ◌∷◌}
use iot_gathering.Common.Values.{Conversions}
use iot_gathering.Common.Result.{Error, Result, ok, err}
use iot_gathering.TopicExchange.Client.{ClientCall, connects, loop_starts, loop_stops, disconnects}
use iot_gathering.TopicExchange.Responder.{
  Message, Query, Responder, TopicResponderConfig, refresh_mapping_once, handle_payload,
}

-- What happens while the stop event is not set: a message arrives, whose exception ends in the client's thread,
-- or the wait is over.
pub data RunStep : Type 0 where
  arrives : Message → RunStep
  refreshes : Query → RunStep

module _ (c : Conversions) (sensor_rows : String → Query) where
  abbrev pub once_refreshed :
      (Responder → Responder × Result (Unit {0}))
      → Responder × Result (Unit {0})
      → Responder × Result (Unit {0})
  once_refreshed more (r, err e) = (r, err e)
  once_refreshed more (r, ok done) = more r

  unfoldable pub run_steps : Responder → List RunStep → Responder × Result (Unit {0})
  unfolding refresh_mapping_once handle_payload
  run_steps r [] = (r, ok tt)
  run_steps r (arrives m ∷ steps) = run_steps (handle_payload c sensor_rows r m).0 steps
  run_steps r (refreshes query ∷ steps) =
      once_refreshed (λ t. run_steps t steps) (refresh_mapping_once c r query)

  -- A `connect` that raises is in front of the `try`, so that the loop is neither started nor stopped.
  abbrev pub once_connected :
      TopicResponderConfig
      → Option Error
      → List RunStep
      → Responder × Result (Unit {0})
      → Responder × List ClientCall × Result (Unit {0})
  once_connected config refused steps (r, err e) = (r, [], err e)
  once_connected config (some e) steps (r, ok done) =
      (record r { has_client = true }, connects config.mqtt_host config.mqtt_port ∷ [], err e)
  once_connected config none steps (r, ok done) =
      let ran = run_steps (record r { has_client = true }) steps in
      (
        ran.0,
        connects config.mqtt_host config.mqtt_port ∷ loop_starts ∷ loop_stops ∷ disconnects ∷ [],
        ran.1,
      )

  unfoldable pub run :
      TopicResponderConfig
      → Responder
      → (first : Query) → Option Error
      → List RunStep
      → Responder × List ClientCall × Result (Unit {0})
  unfolding run_steps refresh_mapping_once
  run config r first refused steps =
      once_connected config refused steps (refresh_mapping_once c r first)
