-- ===== src/TopicExchange/Answers.antt =====
-- What a client hears of a responder.
use iot_gathering.Common.{
  ℤ, pos, String, Bool, true, false, Option, none, some, List, [], ◌∷◌, ◌++◌, ◌==◌, ◌≡◌, refl,
  arith, if◌then◌else◌, string_eq, ap, beq_self, length, ◌&&◌,
}
use iot_gathering.Common.Text.{is_empty, strip, ◌<>◌}
use iot_gathering.Common.Json.{Json, int, text, list, dict, truthy}
use iot_gathering.Common.Dict.{Dict, get, put, get-put}
use iot_gathering.Common.Values.{Conversions, str, or_value, to_fields, of_fields}
use iot_gathering.Common.Result.{ok}
use iot_gathering.TopicExchange.Responder.{
  Message, TableRow, Query, Responder, request_topic, request_sensor_code, fetched_rows, mac_cell,
  mapping_of, refresh_mapping_once, topic_path, topic_value, row_or_empty, publish_topic_response,
  row_items, sensors_sent, publish_sensor_code_response, handle_payload,
}
use iot_gathering.TopicExchange.Client.{
  Heard, nothing_heard, count_items, mac_request, on_message, hear, port_of, request_topic_by_mac,
}

module _ (c : Conversions) where
  abbrev pub names : String → TableRow → Bool
  names mac row = truthy (mac_cell c row) && str c (mac_cell c row) == mac

  abbrev pub or_row : Option TableRow → Option TableRow → Option TableRow
  or_row (some row) other = some row
  or_row none other = other

  -- The last row with a MAC address.
  abbrev pub last_row : String → List TableRow → Option TableRow
  last_row mac [] = none
  last_row mac (row ∷ rows) = or_row (last_row mac rows) (if names mac row then some row else none)

  or_row-none : (row : Option TableRow) → or_row row none ≡ row
  or_row-none none = refl
  or_row-none (some row) = refl

  mapping_of-last_row :
      (mac : String) (found : Dict String TableRow) (rows : List TableRow)
      → get (mapping_of c found rows) mac ≡ or_row (last_row mac rows) (get found mac)
  unfolding mapping_of
  mapping_of-last_row mac found [] = refl
  mapping_of-last_row mac found (row ∷ rows) = ground (
    arith,
    string_eq.beq_iff (str c (mac_cell c row)) mac,
    mapping_of-last_row mac found rows,
    mapping_of-last_row mac (put found (str c (mac_cell c row)) row) rows,
    get-put found (str c (mac_cell c row)) mac row,
  )

  -- The topic that the responder gives for a row.
  abbrev pub known_topic : Option TableRow → String
  known_topic none = "Unknown MAC"
  known_topic (some row) = topic_path c row

  -- The responder takes a row without columns for none.
  abbrev IsKnown : Option TableRow → Type 0
  IsKnown row = topic_value c (row_or_empty c row) ≡ known_topic row

  or_row-IsKnown : (a b : Option TableRow) → IsKnown a → IsKnown b → IsKnown (or_row a b)
  or_row-IsKnown (some row) b h k = h
  or_row-IsKnown none b h k = k

  if-IsKnown :
      (b : Bool) (row : TableRow) → IsKnown (some row) → IsKnown (if b then some row else none)
  if-IsKnown true row h = h
  if-IsKnown false row h = refl

  last_row-IsKnown : (mac : String) (rows : List TableRow) → IsKnown (last_row mac rows)
  unfolding get truthy
  last_row-IsKnown mac [] = refl
  last_row-IsKnown mac ([] ∷ rows) =
      or_row-IsKnown (last_row mac rows) none (last_row-IsKnown mac rows) refl
  last_row-IsKnown mac ((cell ∷ cells) ∷ rows) =
      or_row-IsKnown (last_row mac rows) _ (last_row-IsKnown mac rows)
        (if-IsKnown (names mac (cell ∷ cells)) (cell ∷ cells) refl)

  hear-append_one :
      (mac : String) (h : Heard) (messages : List Message) (m : Message)
      → hear c mac h (messages ++ m ∷ []) ≡ on_message c mac (hear c mac h messages) m
  unfolding hear
  hear-append_one mac h [] m = refl
  hear-append_one mac h (n ∷ messages) m = hear-append_one mac (on_message c mac h n) messages m

  text-or_empty : (t : String) → str c (or_value (text t) (text "")) ≡ t
  unfolding truthy
  text-or_empty String.[] = refl
  text-or_empty (String.◌∷◌ d t) = refl

  hears_topic :
      (mac t : String) (h : Heard)
      → on_message c mac h
          ("S-C/request-topic/" <> mac, some (dict (to_fields (("topic", text t) ∷ []))))
        ≡ record h { topic = t; topic_event = true }
  unfolding to_fields of_fields get
  hears_topic mac t h = rw (beq_self string_eq ("S-C/request-topic/" <> mac), text-or_empty t) refl

  count_items-row_items : (rows : List TableRow) → count_items (row_items c rows) ≡ length rows
  unfolding count_items row_items
  count_items-row_items [] = refl
  count_items-row_items (row ∷ rows) = simp (count_items-row_items rows) refl

  hears_sensors :
      (mac : String) (rows : List TableRow) (h : Heard)
      → on_message c mac h ("S-C/request-sensor_cd/" <> mac, some (list (row_items c rows)))
        ≡ record h { sensor_count = length rows; sensor_event = true }
  hears_sensors mac rows h =
      rw (beq_self string_eq ("S-C/request-sensor_cd/" <> mac), count_items-row_items rows) refl

  module _ (sensor_rows : String → Query) where
    asked_topic :
        (r : Responder) (mac : String)
        → strip mac ≡ mac
        → is_empty mac ≡ false
        → handle_payload c sensor_rows r (request_topic, some (mac_request mac))
          ≡ (publish_topic_response c r mac, ok tt)
    unfolding handle_payload to_fields of_fields get truthy
    asked_topic r String.[] h k = absurd (cc k)
    asked_topic r (String.◌∷◌ d mac) h k = rw (h) refl

    asked_sensors :
        (r : Responder) (mac : String) (sensors : List TableRow)
        → strip mac ≡ mac
        → is_empty mac ≡ false
        → fetched_rows (sensor_rows mac) ≡ ok sensors
        → handle_payload c sensor_rows r (request_sensor_code, some (mac_request mac))
          ≡ sensors_sent c r mac (ok sensors)
    unfolding handle_payload publish_sensor_code_response to_fields of_fields get truthy
    asked_sensors r String.[] sensors h k l = absurd (cc k)
    asked_sensors r (String.◌∷◌ d mac) sensors h k l = rw (h, l) refl

    -- The responder after the request for the topic, and after the one for the sensors.
    abbrev pub after_topic : Responder → String → Responder
    after_topic r mac = (handle_payload c sensor_rows r (request_topic, some (mac_request mac))).0

    abbrev pub after_sensors : Responder → String → Responder
    after_sensors r mac =
        (handle_payload c sensor_rows (after_topic r mac)
          (request_sensor_code, some (mac_request mac))).0

    topic_published :
        (r : Responder) (mac : String)
        → strip mac ≡ mac
        → is_empty mac ≡ false
        → (after_topic r mac).published ≡ (publish_topic_response c r mac).published
    topic_published r mac h k = ap (λ x. x.0.published) (asked_topic r mac h k)

    sensors_published :
        (r : Responder) (mac : String) (sensors : List TableRow)
        → strip mac ≡ mac
        → is_empty mac ≡ false
        → fetched_rows (sensor_rows mac) ≡ ok sensors
        → (after_sensors r mac).published
          ≡ (sensors_sent c (after_topic r mac) mac (ok sensors)).0.published
    sensors_published r mac sensors h k l =
        ap (λ x. x.0.published) (asked_sensors (after_topic r mac) mac sensors h k l)

    hears_answer :
        (r : Responder) (rows : List TableRow) (mac : String)
        → get r.device_map mac ≡ last_row mac rows
        → strip mac ≡ mac
        → is_empty mac ≡ false
        → (h : Heard)
        → hear c mac h (after_topic r mac).published ≡ record (hear c mac h r.published) {
          topic = known_topic (last_row mac rows);
          topic_event = true;
        }
    unfolding publish_topic_response
    hears_answer r rows mac found h k heard =
        rw
          (
            topic_published r mac h k,
            hear-append_one mac heard r.published _,
            found,
            last_row-IsKnown mac rows,
          )
          (hears_topic mac (known_topic (last_row mac rows)) (hear c mac heard r.published))

    hears_both :
        (r : Responder) (rows : List TableRow) (mac : String) (sensors : List TableRow)
        → get r.device_map mac ≡ last_row mac rows
        → strip mac ≡ mac
        → is_empty mac ≡ false
        → fetched_rows (sensor_rows mac) ≡ ok sensors
        → (h : Heard)
        → hear c mac h (after_sensors r mac).published ≡ record (hear c mac h r.published) {
          topic = known_topic (last_row mac rows);
          topic_event = true;
          sensor_count = length sensors;
          sensor_event = true;
        }
    hears_both r rows mac sensors found h k l heard =
        rw
          (
            sensors_published r mac sensors h k l,
            hear-append_one mac heard (after_topic r mac).published _,
            hears_answer r rows mac found h k heard,
          )
          (hears_sensors mac sensors _)

    mapped-found :
        (r : Responder) (query : Query) (rows : List TableRow) (mac : String)
        → fetched_rows query ≡ ok rows
        → get (refresh_mapping_once c r query).0.device_map mac ≡ last_row mac rows
    unfolding refresh_mapping_once get
    mapped-found r query rows mac h =
        rw (h, mapping_of-last_row mac [] rows) (or_row-none (last_row mac rows))

    -- A responder reads its rows and is asked for the topic and then the sensors of a MAC address that is not empty
    -- and has no white space round it. A client that is connected, and in each wait hears all that the responder has
    -- published by then, to whomever, returns the topic of the last row with that address, or `Unknown MAC` where
    -- there is none, and the number of the sensors of the address.
    pub request_topic_by_mac-last_row :
        (r : Responder) (query : Query) (rows sensors : List TableRow) (mac : String)
        (config : Dict String Json) (port : ℤ)
        → fetched_rows query ≡ ok rows
        → fetched_rows (sensor_rows mac) ≡ ok sensors
        → strip mac ≡ mac
        → is_empty mac ≡ false
        → port_of c config ≡ ok port
        → (let mapped = (refresh_mapping_once c r query).0 in
            (request_topic_by_mac c mac config none
              (after_topic mapped mac).published
              (after_sensors mapped mac).published).1)
          ≡ ok (
              ("topic", text (known_topic (last_row mac rows)))
              ∷ ("sensor_count", int (pos (length sensors)))
              ∷ [])
    unfolding request_topic_by_mac
    request_topic_by_mac-last_row r query rows sensors mac config port q l h k p =
        let mapped = (refresh_mapping_once c r query).0 in
        let found = mapped-found r query rows mac q in
        rw
          (
            h,
            k,
            p,
            hears_answer mapped rows mac found h k nothing_heard,
            hears_both mapped rows mac sensors found h k l _,
          )
          refl
