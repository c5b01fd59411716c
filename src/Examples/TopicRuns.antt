-- ===== src/Examples/TopicRuns.antt =====
-- A client that asks a responder.
use iot_gathering.Common.{pos, String, true, none, some, List, [], ◌∷◌, ◌≡◌, refl, string_eq}
use iot_gathering.Common.Text.{strip, lstrip_slashes, starts_with}
use iot_gathering.Common.Json.{Json, int, text, truthy, to_int}
use iot_gathering.Common.Dict.{get, put}
use iot_gathering.Common.Values.{Conversions, to_fields, of_fields}
use iot_gathering.Common.Result.{ok}
use iot_gathering.TopicExchange.Responder.{
  Column, Query, Responder, refresh_mapping_once, mapping_of, rows_to_dicts, handle_payload,
  publish_topic_response,
}
use iot_gathering.TopicExchange.Client.{request_topic_by_mac, hear}
use iot_gathering.TopicExchange.Answers.{after_topic, after_sensors, request_topic_by_mac-last_row}
use iot_gathering.Config.Routes.{received_topic_path}
use iot_gathering.Config.Resolving.{read_answer}

abbrev conversions : Conversions
conversions = record {
  printed = λ v. "0";
  int_float = λ n. 0;
  text_float = λ s. none;
  equal = λ a b. true;
}

abbrev column : String → Column
column name = record { name = some name; first_item = name }

abbrev columns : List Column
columns =
    column "mac_address"
    ∷ column "process_type"
    ∷ column "line_code"
    ∷ column "equip_name"
    ∷ column "plant_bd"
    ∷ column "plant_cd"
    ∷ []

abbrev table : List (List Json)
table =
    (text "AA" ∷ text "press" ∷ text "L1" ∷ text "old" ∷ text "B1" ∷ text "P1" ∷ [])
    ∷ (text "AA" ∷ text "press" ∷ text "L1" ∷ text "new" ∷ text "B1" ∷ text "P1" ∷ [])
    ∷ []

abbrev sensors : String → Query
sensors mac = ok (column "sensor_cd" ∷ [], (text "T1" ∷ []) ∷ (text "T2" ∷ []) ∷ [])

abbrev responder : Responder
responder = record { device_map = []; has_client = true; published = []; subscriptions = [] }

abbrev mapped_responder : Responder
mapped_responder = (refresh_mapping_once conversions responder (ok (columns, table))).0

request_topic_by_mac-last_row_example :
    (request_topic_by_mac conversions "AA" [] none
      (after_topic conversions sensors mapped_responder "AA").published
      (after_sensors conversions sensors mapped_responder "AA").published).1
    ≡ ok (("topic", text "P1/B1/press/L1/new/-/") ∷ ("sensor_count", int (pos 2)) ∷ [])
unfolding strip get put truthy to_int
request_topic_by_mac-last_row_example =
    request_topic_by_mac-last_row conversions sensors responder (ok (columns, table))
      (rows_to_dicts columns table)
      (rows_to_dicts (column "sensor_cd" ∷ []) ((text "T1" ∷ []) ∷ (text "T2" ∷ []) ∷ [])) "AA" []
      (pos 1883) refl refl refl refl refl

-- An address that the responder does not know: the service takes its answer for a topic.
unknown_mac :
    read_answer conversions
      (request_topic_by_mac conversions "BB" [] none
        (after_topic conversions sensors mapped_responder "BB").published
        []).1
    ≡ ok ("C-S/Unknown MAC", pos 0)
unfolding strip get put truthy to_int request_topic_by_mac hear refresh_mapping_once mapping_of
    handle_payload publish_topic_response to_fields of_fields received_topic_path starts_with
    lstrip_slashes
unknown_mac = refl
