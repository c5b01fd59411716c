-- ===== src/TopicExchange/Client.antt =====
-- services/topic_request_client.py. What is delivered is a list for each of the two waits, until the event is set
-- or five seconds are over; `on_message` leaves its state where a payload does not decode. The client id and the credentials
-- are left out.
use iot_gathering.Common.{
  ℕ, suc, ℤ, pos, String, Bool, true, false, Option, none, some, List, [], ◌∷◌, ◌++◌, ◌==◌,
  if◌then◌else◌, string_eq,
}
use iot_gathering.Common.Text.{is_empty, strip, ◌<>◌}
use iot_gathering.Common.Json.{Json, int, text, list, dict, Items, nil, cons, to_int}
use iot_gathering.Common.Dict.{Dict, get}
use iot_gathering.Common.Values.{
  Conversions, str, int_of, of_fields, to_fields, value_or_null, or_value,
}
use iot_gathering.Common.Result.{value_error, timeout_error, Error, Result, ok, err}
use iot_gathering.TopicExchange.Responder.{Message, request_topic, request_sensor_code}

pub record Heard : Type 0 where
  pub topic : String
  pub sensor_count : ℕ
  pub topic_event : Bool
  pub sensor_event : Bool

abbrev pub nothing_heard : Heard
nothing_heard = record { topic = ""; sensor_count = 0; topic_event = false; sensor_event = false }

-- The calls of the client of the broker.
pub data ClientCall : Type 0 where
  connects : (host : String) (port : ℤ) → ClientCall
  subscribes : List String → ClientCall
  publishes : Message → ClientCall
  loop_starts loop_stops disconnects : ClientCall

unfoldable pub count_items : Items → ℕ
count_items nil = 0
count_items (cons v items) = suc (count_items items)

abbrev pub mac_request : String → Json
mac_request mac = dict (to_fields (("mac", text mac) ∷ []))

module _ (c : Conversions) where
  abbrev pub on_payload : String → Heard → String → Json → Heard
  on_payload mac h topic (dict fields) =
      if topic == "S-C/request-topic/" <> mac
      then record h {
        topic = str c (or_value (value_or_null (get (of_fields fields) "topic")) (text ""));
        topic_event = true;
      }
      else h
  on_payload mac h topic (list items) =
      if topic == "S-C/request-sensor_cd/" <> mac
      then record h { sensor_count = count_items items; sensor_event = true }
      else h
  on_payload mac h topic _ = h

  abbrev pub on_message : String → Heard → Message → Heard
  on_message mac h (topic, none) = h
  on_message mac h (topic, some payload) = on_payload mac h topic payload

  unfoldable pub hear : String → Heard → List Message → Heard
  unfolding count_items
  hear mac h [] = h
  hear mac h (m ∷ messages) = hear mac (on_message mac h m) messages

  abbrev pub state : Heard → Dict String Json
  state h = ("topic", text h.topic) ∷ ("sensor_count", int (pos h.sensor_count)) ∷ []

  abbrev pub topic_calls : String → List ClientCall
  topic_calls mac =
      subscribes (("S-C/request-topic/" <> mac) ∷ ("S-C/request-sensor_cd/" <> mac) ∷ [])
      ∷ loop_starts
      ∷ publishes (request_topic, some (mac_request mac))
      ∷ []

  abbrev pub sensor_call : String → ClientCall
  sensor_call mac = publishes (request_sensor_code, some (mac_request mac))

  -- The state is read after the second wait, whether or not it was answered.
  abbrev pub waited : String → List Message → Heard → List ClientCall × Result (Dict String Json)
  waited mac second h =
      if h.topic_event
      then (topic_calls mac ++ sensor_call mac ∷ [], ok (state (hear mac h second)))
      else (topic_calls mac, err (timeout_error ("topic response timeout for " <> mac)))

  abbrev pub connected :
      String
      → (first second : List Message) → (host : String) → Result ℤ
      → Option Error
      → List ClientCall × Result (Dict String Json)
  connected mac first second host (err e) refused = ([], err e)
  connected mac first second host (ok port) (some e) = (connects host port ∷ [], err e)
  connected mac first second host (ok port) none =
      let done = waited mac second (hear mac nothing_heard first) in
      (connects host port ∷ done.0, done.1)

  -- The `finally`.
  abbrev pub closed :
      List ClientCall × Result (Dict String Json) → List ClientCall × Result (Dict String Json)
  closed (calls, r) = (calls ++ loop_stops ∷ disconnects ∷ [], r)

  abbrev pub host_of : Dict String Json → String
  host_of config = str c (or_value (value_or_null (get config "host")) (text "localhost"))

  abbrev pub port_of : Dict String Json → Result ℤ
  port_of config = int_of (or_value (value_or_null (get config "port")) (int (pos 1883)))

  abbrev pub request_by_mac :
      String
      → Dict String Json
      → Option Error
      → (first second : List Message) → List ClientCall × Result (Dict String Json)
  request_by_mac mac config refused first second =
      if is_empty mac
      then ([], err (value_error "mac_address is required"))
      else closed (connected mac first second (host_of config) (port_of config) refused)

  -- `refused` is what `connect` raises.
  unfoldable pub request_topic_by_mac :
      (mac_address : String)
      → Dict String Json
      → (refused : Option Error) → (first second : List Message)
      → List ClientCall × Result (Dict String Json)
  unfolding hear strip to_int
  request_topic_by_mac mac_address config refused first second =
      request_by_mac (strip mac_address) config refused first second
