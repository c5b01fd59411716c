-- ===== src/Config/Resolving.antt =====
-- `ConfigService`: the topic of a route that a broker is asked for.
use iot_gathering.Common.{
  ℤ, pos, String, Bool, true, not, ◌||◌, Option, none, some, List, [], ◌∷◌, ◌++◌, ◌==◌,
  if◌then◌else◌, string_eq, int_eq, option_eq,
}
use iot_gathering.Common.Text.{is_empty, ◌<>◌}
use iot_gathering.Common.Json.{Json, bool, int, text, truthy}
use iot_gathering.Common.Dict.{Dict, get, put}
use iot_gathering.Common.Values.{Conversions, str, int_of, value_or_null, or_value}
use iot_gathering.Common.Result.{
  value_error, key_error, text as error_text, Result, ok, err, found_or,
}
use iot_gathering.Models.{OutputRouteConfig}
use iot_gathering.Store.Tables.{Store, save_output_route as store_route}
use iot_gathering.Store.Configs.{
  list_output_routes as stored_routes, get_sink_config as stored_sink,
}
use iot_gathering.Config.Service.{Service, ◌>>=◌, ◌>>◌, give, read, save}
use iot_gathering.Config.Devices.{id_or_zero}
use iot_gathering.Config.Routes.{text_setting, route_config, received_topic_path, route_with_id}
use iot_gathering.Config.RouteService.{list_output_routes, next_row}

abbrev pub Resolver : Type 0
Resolver = String → Dict String Json → Result (Dict String Json)

-- What `resolve_output_route_topic` returns; `error` is none where the key is not there.
pub record Resolved : Type 0 where
  pub route : Dict String Json
  pub resolved_topic : String
  pub sensor_count : ℤ
  pub resolved_at : String
  pub error : Option String

abbrev pub if_topic : String → Result ℤ → Result (String × ℤ)
if_topic topic (err e) = err e
if_topic topic (ok count) = ok (topic, count)

abbrev pub topic_answer : Conversions → Dict String Json → String → Result (String × ℤ)
topic_answer c resolved topic =
    if topic == "C-S/"
    then err (value_error "topic response is empty")
    else if_topic topic
        (int_of (or_value (value_or_null (get resolved "sensor_count")) (int (pos 0))))

abbrev pub read_answer : Conversions → Result (Dict String Json) → Result (String × ℤ)
read_answer c (err e) = err e
read_answer c (ok resolved) =
    topic_answer c resolved
      (received_topic_path (str c (or_value (value_or_null (get resolved "topic")) (text ""))))

-- The two updates of the configuration.
abbrev pub answered_config :
    Dict String Json → (mac now : String) → Result (String × ℤ) → Dict String Json
answered_config config mac now (ok (topic, count)) =
    put
      (put
        (put
          (put (put (put config "dynamic_topic_enabled" (bool true)) "mac_address" (text mac))
            "resolved_topic" (text topic))
          "resolved_sensor_count" (int count))
        "resolved_error" (text ""))
      "resolved_at" (text now)
answered_config config mac now (err e) =
    put
      (put (put (put config "dynamic_topic_enabled" (bool true)) "mac_address" (text mac))
        "resolved_error" (text (error_text e)))
      "resolved_at" (text now)

abbrev pub resolved_of : String → Dict String Json → Result (String × ℤ) → Resolved
resolved_of now row (ok (topic, count)) = record {
  route = row;
  resolved_topic = topic;
  sensor_count = count;
  resolved_at = now;
  error = none;
}
resolved_of now row (err e) = record {
  route = row;
  resolved_topic = "";
  sensor_count = pos 0;
  resolved_at = now;
  error = some (error_text e);
}

module _ (c : Conversions) (id_text : ℤ → String) (resolver : Resolver) (now : String) where
  abbrev pub mac_of : Dict String Json → String
  mac_of config = text_setting c config [] "mac_address" ""

  abbrev pub checked_mac : String → Result String
  checked_mac mac =
      if is_empty mac then err (value_error "route mac_address is required") else ok mac

  -- What the resolver is asked, with the configuration of the MQTT plugin.
  abbrev pub answer_of : Store → String → Result (String × ℤ)
  answer_of s mac = read_answer c (resolver mac (stored_sink s (some "mqtt")).config)

  abbrev pub find_route : ℤ → Service OutputRouteConfig
  find_route id s = (
    s,
    found_or (route_with_id (stored_routes s) id) (key_error ("route not found: " <> id_text id)),
  )

  unfoldable pub resolve_output_route_topic : ℤ → Service Resolved
  resolve_output_route_topic id = do
    route ← find_route id
    config ← give (route_config c route.config [])
    mac ← give (checked_mac (mac_of config))
    answer ← read (λ s. answer_of s mac)
    save (λ s. store_route s (record route { config = answered_config config mac now answer }))
    rows ← list_output_routes c id_text
    row ← give (next_row rows id)
    give (ok (resolved_of now row answer))

  -- Whether a route is refreshed.
  abbrev pub is_refreshed : OutputRouteConfig → Dict String Json → Bool
  is_refreshed route config = not (
      not route.enabled
      || not (route.sink_type == "mqtt")
      || not (truthy (value_or_null (get config "dynamic_topic_enabled")))
      || not (truthy (value_or_null (get config "mac_address"))))

  abbrev pub refresh_route : OutputRouteConfig → Service (List Resolved)
  refresh_route route = do
    config ← give (route_config c route.config [])
    (if is_refreshed route config
        then (resolve_output_route_topic (id_or_zero route.id) >>= λ r. give (ok (r ∷ [])))
        else give (ok []))

  unfoldable pub refresh_routes : List OutputRouteConfig → List Resolved → Service (List Resolved)
  refresh_routes [] results = give (ok results)
  refresh_routes (route ∷ routes) results = do
    result ← refresh_route route
    refresh_routes routes (results ++ result)

  unfoldable pub refresh_dynamic_output_route_topics : Service (List Resolved)
  refresh_dynamic_output_route_topics = do routes ← read stored_routes; refresh_routes routes []
